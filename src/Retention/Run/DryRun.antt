-- ===== src/Retention/Run/DryRun.antt =====
-- A dry run counts what the purge of a scope deletes, for `run_purge` in
-- src/core/retention/purge.py.
use raglogs.Base.{
  str_eq, ℕ, ◌<◌, max, String, ◌≡◌, refl, Bool, true, false, Option, none, some, [], arith,
}
use raglogs.Retention.Attempt.{done}
use raglogs.Retention.Policy.{validate_policy_intervals, resolve_scope_policy}
use raglogs.Retention.Store.{Db}
use raglogs.Retention.Purge.{PurgeCounts, add, new_counts, count_scope_expired}
use raglogs.Retention.Purge.Tiers.{IsKeyedDb}
use raglogs.Retention.Purge.Deletes.{rows_of}
use raglogs.Retention.Purge.Counted.{counted, counted-rows_of}
use raglogs.Retention.Run.{
  PurgeSettings, Progress, chosen_scopes, finish_run, drain, purge_scopes, run_purge,
}
use raglogs.Retention.Run.Drain.{cutoff_at, count_scope_expired_lem, drain_ends}
use Prim.Native.Char.{Char}

module _ (is_digit : Char → Bool) (lower : String → String) (timedelta : String → ℕ → Option ℕ)
    (cfg : PurgeSettings) (now : ℕ) where
  -- The purge of one scope is the drain of its policy.
  run_purge_one :
      (fuel : ℕ) (item : String) (db : Db) (q : Progress)
      → str_eq item "" ≡ false
      → validate_policy_intervals is_digit lower timedelta
          (resolve_scope_policy (cfg.retention_raw, cfg.retention_summary) db.scope_retention item)
        ≡ done tt
      → drain is_digit lower timedelta fuel
          (resolve_scope_policy (cfg.retention_raw, cfg.retention_summary) db.scope_retention item)
          now
          (max 1 cfg.purge_chunk_size)
          none
          0
          (record { totals = new_counts []; more_remaining = false; db = db })
        ≡ done q
      → run_purge is_digit lower timedelta fuel cfg now (some item) false none db
        ≡ done (finish_run now false q)
  unfolding run_purge chosen_scopes purge_scopes
  run_purge_one fuel item db q n e f = rw (chosen_scopes, n, purge_scopes, e, f) refl

  run_purge_counted :
      (fuel : ℕ) (item : String) (db : Db) (c : PurgeCounts)
      → str_eq item "" ≡ false
      → validate_policy_intervals is_digit lower timedelta
          (resolve_scope_policy (cfg.retention_raw, cfg.retention_summary) db.scope_retention item)
        ≡ done tt
      → count_scope_expired is_digit lower timedelta
          (resolve_scope_policy (cfg.retention_raw, cfg.retention_summary) db.scope_retention item)
          now
          db
        ≡ done c
      → run_purge is_digit lower timedelta fuel cfg now (some item) true none db
        ≡ done (
            finish_run now true
              (record { totals = add (new_counts []) c; more_remaining = false; db = db }))
  unfolding run_purge chosen_scopes purge_scopes
  run_purge_counted fuel item db c n e f = rw (chosen_scopes, n, purge_scopes, e, f) refl

  -- On tables with their primary keys, for a named scope whose policy is valid and has cutoffs, and
  -- with fuel for every row, a dry run counts what the purge without a bound on the chunks then
  -- counts, in each of the three counts, and the dry run itself changes no table.
  pub run_purge-dry_run :
      (fuel : ℕ) (item : String) (db : Db) (r s : Option ℕ)
      → IsKeyedDb db
      → rows_of db < fuel
      → str_eq item "" ≡ false
      → validate_policy_intervals is_digit lower timedelta
          (resolve_scope_policy (cfg.retention_raw, cfg.retention_summary) db.scope_retention item)
        ≡ done tt
      → cutoff_at is_digit lower timedelta
          (resolve_scope_policy
            (cfg.retention_raw, cfg.retention_summary)
            db.scope_retention
            item).raw_interval
          now
        ≡ done r
      → cutoff_at is_digit lower timedelta
          (resolve_scope_policy
            (cfg.retention_raw, cfg.retention_summary)
            db.scope_retention
            item).summary_interval
          now
        ≡ done s
      → (dry out : PurgeCounts × Db) × (run_purge is_digit lower timedelta fuel cfg now
            (some item)
            true
            none
            db
          ≡ done dry)
        × (run_purge is_digit lower timedelta fuel cfg now (some item) false none db ≡ done out)
        × ((out.0).raw ≡ (dry.0).raw)
        × ((out.0).summary ≡ (dry.0).summary)
        × ((out.0).embedding ≡ (dry.0).embedding)
        × (dry.1 ≡ db)
  unfolding finish_run add new_counts
  run_purge-dry_run fuel item db r s k l n e er es =
      let policy =
        resolve_scope_policy (cfg.retention_raw, cfg.retention_summary) db.scope_retention item in
      let p : Progress = record { totals = new_counts []; more_remaining = false; db = db } in
      let (q, f, d) =
        drain_ends is_digit lower timedelta policy now (max 1 cfg.purge_chunk_size) (omega arith) r
          s er es fuel 0 p k (omega (arith, l, counted-rows_of policy.scope r s db)) in
      (
        _,
        _,
        run_purge_counted fuel item db (counted policy.scope r s db) n e
            (count_scope_expired_lem is_digit lower timedelta policy now r s db er es),
        run_purge_one fuel item db q n e f,
        d.raw_total,
        d.summary_total,
        d.embedding_total,
        refl,
      )
