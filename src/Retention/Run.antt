-- ===== src/Retention/Run.antt =====
-- A purge over the scopes: `list_scopes_to_purge`, `run_purge` and the jobs around it, in
-- src/core/retention/purge.py. The clock and the settings are arguments. An error is returned without
-- the tables: what was committed before it stays. The fuel bounds the batches of one scope.
pub mod Drain
pub mod Scopes
pub mod DryRun
use raglogs.Base.{
  str_lt, sorted, str_mem, str_eq, ℕ, zero, suc, max, String, Bool, true, false, ◌||◌, Option, none,
  some, List, [], ◌∷◌, ◌++◌, map, leb, if◌then◌else◌,
}
use raglogs.Retention.Attempt.{Attempt, value_error, overflow_error, out_of_fuel, done, ◌>>=◌}
use raglogs.Retention.Policy.{RetentionPolicy, validate_policy_intervals, resolve_scope_policy}
use raglogs.Retention.Store.{
  pending, Db, entry_scope, embedding_scope, run_scope, explanation_scope,
}
use raglogs.Retention.Purge.{
  PurgeCounts, add_scopes, add, is_empty, new_counts, purge_scope_batch, count_scope_expired,
}
use Prim.Native.Char.{Char}

-- The settings that the purge reads; a negative number of the configuration is taken as 0 by each use.
pub record PurgeSettings : Type 0 where
  pub retention_raw : String
  pub retention_summary : String
  pub purge_chunk_size : ℕ
  pub purge_interval_seconds : ℕ

-- `if not value: continue`, `if scope in seen: continue`
unfoldable pub distinct_scopes : List String → List String → List String
unfolding str_mem
distinct_scopes seen [] = []
distinct_scopes seen (scope ∷ rest) =
    if str_eq scope "" || str_mem scope seen
    then distinct_scopes seen rest
    else scope ∷ distinct_scopes (scope ∷ seen) rest

unfoldable pub list_scopes_to_purge : Db → List String
unfolding distinct_scopes sorted str_lt
list_scopes_to_purge db = sorted str_lt (
    distinct_scopes [] (
      map entry_scope db.log_entries
      ++ map embedding_scope db.cluster_embeddings
      ++ map run_scope db.cluster_runs
      ++ map explanation_scope db.explanations
      ++ map (λ row. row.scope) db.scope_retention))

-- `if item not in totals.scopes: totals.scopes.append(item)`
unfoldable pub note_scope : String → PurgeCounts → PurgeCounts
unfolding add_scopes
note_scope item totals = record totals { scopes = add_scopes totals.scopes (item ∷ []) }

-- `max_chunks is not None and chunks >= max_chunks`
unfoldable pub reached : Option ℕ → ℕ → Bool
reached none chunks = false
reached (some most) chunks = leb most chunks

-- What the loops carry: the totals, whether a scope has more, and the tables.
pub record Progress : Type 0 where
  pub totals : PurgeCounts
  pub more_remaining : Bool
  pub db : Db

unfoldable pub enqueue_followup_purge : Db → Db
enqueue_followup_purge db = record db {
  worker_jobs = db.worker_jobs ++ (record { job_type = "purge"; status = pending } ∷ []);
}

unfoldable pub write_last_purge_at : ℕ → Db → Db
write_last_purge_at now db = record db { last_purge_at = some now }

-- `[scope] if scope else list_scopes_to_purge(db)`
unfoldable pub chosen_scopes : Option String → Db → List String
unfolding list_scopes_to_purge
chosen_scopes none db = list_scopes_to_purge db
chosen_scopes (some scope) db = if str_eq scope "" then list_scopes_to_purge db else scope ∷ []

-- What a run does at its end.
unfoldable pub finish_run : (now : ℕ) → (dry_run : Bool) → Progress → PurgeCounts × Db
unfolding enqueue_followup_purge write_last_purge_at
finish_run now dry_run p = (
  record p.totals { more_remaining = p.more_remaining },
  if dry_run
      then p.db
      else if p.more_remaining
      then enqueue_followup_purge p.db
      else write_last_purge_at now p.db,
)

module _ (is_digit : Char → Bool) (lower : String → String)
    (timedelta : String → ℕ → Option ℕ) where
  -- The `while True` of one scope.
  unfoldable pub drain :
      (fuel : ℕ)
      → RetentionPolicy
      → (now limit : ℕ) → (max_chunks : Option ℕ) → (chunks : ℕ) → Progress
      → Attempt Progress
  unfolding purge_scope_batch add is_empty note_scope reached
  drain zero policy now limit max_chunks chunks p = out_of_fuel
  drain (suc fuel) policy now limit max_chunks chunks p =
      purge_scope_batch is_digit lower timedelta policy now limit false p.db >>= (λ batch.
        let next : Progress = record p { totals = add p.totals batch.0; db = batch.1 } in
        elim (is_empty batch.0) [
          | true ↦ done (record next { totals = note_scope policy.scope next.totals })
          | false ↦ elim (reached max_chunks (suc chunks)) [
            | true ↦
                done (record next { more_remaining = p.more_remaining || (batch.0).more_remaining })
            | false ↦ drain fuel policy now limit max_chunks (suc chunks) next
          ]
        ])

  unfoldable pub purge_scopes :
      (fuel : ℕ)
      → PurgeSettings
      → (now : ℕ) → (dry_run : Bool) → (max_chunks : Option ℕ) → List String
      → Progress
      → Attempt Progress
  unfolding resolve_scope_policy validate_policy_intervals count_scope_expired drain note_scope add
  purge_scopes fuel cfg now dry_run max_chunks [] p = done p
  purge_scopes fuel cfg now dry_run max_chunks (item ∷ rest) p =
      let policy =
        resolve_scope_policy (cfg.retention_raw, cfg.retention_summary) p.db.scope_retention item in
      elim (validate_policy_intervals is_digit lower timedelta policy) [
        | value_error ↦
            purge_scopes fuel cfg now dry_run max_chunks rest
              (record p { totals = note_scope item p.totals })
        | overflow_error ↦ overflow_error
        | out_of_fuel ↦ out_of_fuel
        | done valid ↦ elim dry_run [
          | true ↦ count_scope_expired is_digit lower timedelta policy now p.db >>= (λ counts.
              purge_scopes fuel cfg now dry_run max_chunks rest
                (record p { totals = add p.totals counts }))
          | false ↦
              drain fuel policy now (max 1 cfg.purge_chunk_size) max_chunks 0 p
              >>= (λ q. purge_scopes fuel cfg now dry_run max_chunks rest q)
        ]
      ]

  unfoldable pub run_purge :
      (fuel : ℕ)
      → PurgeSettings
      → (now : ℕ) → (scope : Option String) → (dry_run : Bool) → (max_chunks : Option ℕ) → Db
      → Attempt (PurgeCounts × Db)
  unfolding purge_scopes chosen_scopes finish_run new_counts
  run_purge fuel cfg now scope dry_run max_chunks db =
      purge_scopes fuel cfg now dry_run max_chunks (chosen_scopes scope db)
        (record { totals = new_counts []; more_remaining = false; db = db })
      >>= (λ p. done (finish_run now dry_run p))
