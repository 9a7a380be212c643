-- ===== src/Retention/Run/Scopes.antt =====
-- A run without a bound on the chunks leaves nothing expired, for `run_purge` in
-- src/core/retention/purge.py.
use raglogs.Base.{
  All, ℕ, ◌<◌, max, String, ◌≡◌, refl, ap, ◌∙◌, inl, inr, Bool, false, Option, none, some, List, [],
  ◌∷◌, arith, Option-cases,
}
use raglogs.Retention.Purge.{PurgeCounts, new_counts}
use raglogs.Retention.Purge.Counted.{counted-rows_of}
use raglogs.Retention.Attempt.{value_error, done, ◌>>=◌}
use raglogs.Retention.Policy.{
  RetentionPolicy, ScopeRetention, validate_policy_intervals, resolve_scope_policy,
  apply_scope_override, get_retention,
}
use raglogs.Retention.Store.{
  Db, count_expired_log_entries, count_expired_cluster_embeddings, count_expired_explanations,
  count_expired_cluster_runs,
}
use raglogs.Retention.Purge.Tiers.{IsKeyedDb}
use raglogs.Retention.Purge.Deletes.{
  Deletes, stay, Deletes-IsKeyedDb, Deletes-settings_of, expired_raw, expired_summary,
  Deletes-expired, rows_of, Deletes-rows_of, Deletes-append,
}
use raglogs.Retention.Run.{
  PurgeSettings, note_scope, Progress, purge_scopes, drain, write_last_purge_at, chosen_scopes,
  finish_run, run_purge,
}
use raglogs.Retention.Run.Drain.{drain_ends, cutoff_at, IsDrained}
use Prim.Native.Char.{Char}
use mathlib.Core.Path.{subst}

-- A policy is of the scope it was resolved for.
pub resolve_scope_policy-scope :
    (defaults : String × String) (rows : List ScopeRetention) (item : String)
    → (resolve_scope_policy defaults rows item).scope ≡ item
unfolding resolve_scope_policy apply_scope_override
resolve_scope_policy-scope defaults rows item = elim (Option-cases (get_retention item rows)) [
  | inl missing ↦ rw (resolve_scope_policy, missing) refl
  | inr found ↦ let (row, e) = found in rw (resolve_scope_policy, e) refl
]

-- No row of a scope is expired at the cutoffs.
abbrev pub NothingExpired : String → Option (Option ℕ × Option ℕ) → Db → Type 0
NothingExpired item none db = Unit
NothingExpired item (some (r, s)) db = (expired_raw item r db ≡ 0) × (expired_summary item s db ≡ 0)

Deletes-NothingExpired :
    (item : String) (c : Option (Option ℕ × Option ℕ)) {a b : Db}
    → Deletes a b
    → NothingExpired item c a
    → NothingExpired item c b
Deletes-NothingExpired item none d e = tt
Deletes-NothingExpired item (some (r, s)) d e =
    let le = Deletes-expired item r s d in (omega (arith, le.0, e.0), omega (arith, le.1, e.1))

module _ (is_digit : Char → Bool) (lower : String → String) (timedelta : String → ℕ → Option ℕ)
    (cfg : PurgeSettings) (now : ℕ) where
  abbrev policy_of : List ScopeRetention → String → RetentionPolicy
  policy_of rows item = resolve_scope_policy (cfg.retention_raw, cfg.retention_summary) rows item

  -- The policy of a scope is invalid, so that the run skips it, or has these cutoffs.
  pub data IsRead (rows : List ScopeRetention) (item : String)
      : Option (Option ℕ × Option ℕ) → Type 0 where
    invalid :
        validate_policy_intervals is_digit lower timedelta (policy_of rows item) ≡ value_error
        → IsRead rows item none
    valid :
        {raw_cutoff summary_cutoff : Option ℕ}
        → validate_policy_intervals is_digit lower timedelta (policy_of rows item) ≡ done tt
        → cutoff_at is_digit lower timedelta (policy_of rows item).raw_interval now
          ≡ done raw_cutoff
        → cutoff_at is_digit lower timedelta (policy_of rows item).summary_interval now
          ≡ done summary_cutoff
        → IsRead rows item (some (raw_cutoff, summary_cutoff))

  -- Nothing of a scope is expired at its cutoffs, unless its policy is invalid.
  pub record IsPurged (rows : List ScopeRetention) (db : Db) (item : String) : Type 0 where
    pub cutoffs : Option (Option ℕ × Option ℕ)
    pub read : IsRead rows item cutoffs
    pub purged : NothingExpired item cutoffs db

  Deletes-IsPurged :
      (rows : List ScopeRetention) (scopes : List String) {a b : Db}
      → Deletes a b
      → All (IsPurged rows a) scopes
      → All (IsPurged rows b) scopes
  Deletes-IsPurged rows [] d h = tt
  Deletes-IsPurged rows (item ∷ scopes) d h = (
    record {
      cutoffs = (h.0).cutoffs;
      read = (h.0).read;
      purged = Deletes-NothingExpired item (h.0).cutoffs d (h.0).purged;
    },
    Deletes-IsPurged rows scopes d h.1,
  )

  -- How the run goes over the scopes: it ends, by deletions alone, and leaves nothing expired.
  pub record IsRun (rows : List ScopeRetention) (scopes : List String) (p q : Progress)
      : Type 0 where
    pub deletes : Deletes p.db q.db
    pub same_more : q.more_remaining ≡ p.more_remaining
    pub purged : All (IsPurged rows q.db) scopes

  purge_scopes-invalid :
      (fuel : ℕ) (item : String) (scopes : List String) (p : Progress)
      → validate_policy_intervals is_digit lower timedelta (policy_of p.db.scope_retention item)
        ≡ value_error
      → purge_scopes is_digit lower timedelta fuel cfg now false none (item ∷ scopes) p
        ≡ purge_scopes is_digit lower timedelta fuel cfg now false none scopes
            (record p { totals = note_scope item p.totals })
  unfolding purge_scopes
  purge_scopes-invalid fuel item scopes p e = rw (purge_scopes, e) refl

  purge_scopes-valid :
      (fuel : ℕ) (item : String) (scopes : List String) (p q : Progress)
      → validate_policy_intervals is_digit lower timedelta (policy_of p.db.scope_retention item)
        ≡ done tt
      → drain is_digit lower timedelta fuel
          (policy_of p.db.scope_retention item)
          now
          (max 1 cfg.purge_chunk_size)
          none
          0
          p
        ≡ done q
      → purge_scopes is_digit lower timedelta fuel cfg now false none (item ∷ scopes) p
        ≡ purge_scopes is_digit lower timedelta fuel cfg now false none scopes q
  unfolding purge_scopes
  purge_scopes-valid fuel item scopes p q e f = rw (purge_scopes, e, f) refl

  next-IsRun :
      (rows : List ScopeRetention) (item : String) (scopes : List String) (p p1 q : Progress)
      (r s : Option ℕ)
      → IsRead rows item (some (r, s))
      → IsDrained item r s p p1
      → IsRun rows scopes p1 q
      → IsRun rows (item ∷ scopes) p q
  next-IsRun rows item scopes p p1 q r s read d1 d =
      let nothing =
        Deletes-NothingExpired item (some (r, s)) d.deletes (d1.nothing_raw, d1.nothing_summary) in
      record {
        deletes = Deletes-append d1.deletes d.deletes;
        same_more = d.same_more ∙ d1.same_more;
        purged = (record { cutoffs = some (r, s); read = read; purged = nothing }, d.purged);
      }

  pub purge_scopes_ends :
      (fuel : ℕ) (scopes : List String) (p : Progress)
      → IsKeyedDb p.db
      → rows_of p.db < fuel
      → All (λ item. (c : Option (Option ℕ × Option ℕ)) × IsRead p.db.scope_retention item c) scopes
      → (q : Progress) × (purge_scopes is_digit lower timedelta fuel cfg now false none scopes p
          ≡ done q)
        × IsRun p.db.scope_retention scopes p q
  unfolding purge_scopes
  purge_scopes_ends fuel [] p k l h =
      (p, refl, record { deletes = stay p.db; same_more = refl; purged = tt })
  purge_scopes_ends fuel (item ∷ scopes) p k l ((none, invalid e), h) =
      let p1 : Progress = record p { totals = note_scope item p.totals } in
      let (q, f, d) = purge_scopes_ends fuel scopes p1 k l h in
      (
        q,
        purge_scopes-invalid fuel item scopes p e ∙ f,
        record {
          deletes = d.deletes;
          same_more = d.same_more;
          purged = (record { cutoffs = none; read = invalid e; purged = tt }, d.purged);
        },
      )
  purge_scopes_ends fuel (item ∷ scopes) p k l ((some (r, s), valid e er es), h) =
      let policy = policy_of p.db.scope_retention item in
      let limit = max 1 cfg.purge_chunk_size in
      let (p1, g, d1) =
        drain_ends is_digit lower timedelta policy now limit (omega arith) r s er es fuel 0 p k
          (omega (arith, l, counted-rows_of policy.scope r s p.db)) in
      let k1 = Deletes-IsKeyedDb d1.deletes k in
      let own =
        resolve_scope_policy-scope (cfg.retention_raw, cfg.retention_summary) p.db.scope_retention
          item in
      let settings : p1.db.scope_retention ≡ p.db.scope_retention =
        ap (λ t. t.0) (Deletes-settings_of d1.deletes) in
      let (q, f, d) =
        purge_scopes_ends fuel scopes p1 k1 (omega (arith, l, Deletes-rows_of d1.deletes))
          (rw (settings) h) in
      (
        q,
        purge_scopes-valid fuel item scopes p p1 e g ∙ f,
        next-IsRun p.db.scope_retention item scopes p p1 q r s (valid e er es)
            (subst (λ name. IsDrained name r s p p1) own d1)
            (subst (λ rows. IsRun rows scopes p1 q) settings d),
      )

  written-NothingExpired :
      (item : String) (c : Option (Option ℕ × Option ℕ)) (at_ : ℕ) (db : Db)
      → NothingExpired item c db
      → NothingExpired item c (write_last_purge_at at_ db)
  unfolding write_last_purge_at count_expired_log_entries count_expired_cluster_embeddings
      count_expired_explanations count_expired_cluster_runs
  written-NothingExpired item none at_ db e = tt
  written-NothingExpired item (some (r, s)) at_ db e = (raw_ r e.0, summary_ s e.1)
    where
      raw_ :
          (o : Option ℕ)
          → expired_raw item o db ≡ 0
          → expired_raw item o (write_last_purge_at at_ db) ≡ 0
      raw_ none e = e
      raw_ (some c) e = e

      summary_ :
          (o : Option ℕ)
          → expired_summary item o db ≡ 0
          → expired_summary item o (write_last_purge_at at_ db) ≡ 0
      summary_ none e = e
      summary_ (some c) e = e

  written-IsPurged :
      (rows : List ScopeRetention) (scopes : List String) (at_ : ℕ) (db : Db)
      → All (IsPurged rows db) scopes
      → All (IsPurged rows (write_last_purge_at at_ db)) scopes
  written-IsPurged rows [] at_ db h = tt
  written-IsPurged rows (item ∷ scopes) at_ db h = (
    record {
      cutoffs = (h.0).cutoffs;
      read = (h.0).read;
      purged = written-NothingExpired item (h.0).cutoffs at_ db (h.0).purged;
    },
    written-IsPurged rows scopes at_ db h.1,
  )

  -- Run without a bound on the chunks, on tables with their primary keys, with fuel for every row and
  -- for scopes whose policies are invalid or have cutoffs, the purge ends: it leaves nothing expired in
  -- any of the scopes it ran over, notes its time as the last purge and enqueues no other.
  pub run_purge_ends :
      (fuel : ℕ) (scope : Option String) (db : Db)
      → IsKeyedDb db
      → rows_of db < fuel
      → All
          (λ item. (c : Option (Option ℕ × Option ℕ)) × IsRead db.scope_retention item c)
          (chosen_scopes scope db)
      → (out : PurgeCounts × Db) × (run_purge is_digit lower timedelta fuel cfg now scope false none
            db
          ≡ done out)
        × All (IsPurged db.scope_retention (out.1)) (chosen_scopes scope db)
        × ((out.1).last_purge_at ≡ some now)
        × ((out.1).worker_jobs ≡ db.worker_jobs)
        × ((out.0).more_remaining ≡ false)
  unfolding run_purge finish_run write_last_purge_at
  run_purge_ends fuel scope db k l h =
      let p : Progress = record { totals = new_counts []; more_remaining = false; db = db } in
      let (q, e, d) = purge_scopes_ends fuel (chosen_scopes scope db) p k l h in
      let none_left : q.more_remaining ≡ false = d.same_more in
      let settings : q.db.worker_jobs ≡ db.worker_jobs =
        ap (λ t. t.1) (Deletes-settings_of d.deletes) in
      (
        finish_run now false q,
        ap (λ o. o >>= (λ p. done (finish_run now false p))) e,
        rw none_left
            (written-IsPurged db.scope_retention (chosen_scopes scope db) now q.db d.purged),
        rw none_left refl,
        rw none_left settings,
        none_left,
      )
