-- ===== src/Retention/Tests.antt =====
-- Concrete runs of the purge of src/core/retention.
use raglogs.Base.{
  id_mem, tally, length, All, ℕ, ◌+◌, ◌-◌, ◌*◌, ◌≤◌, ◌<◌, String, ◌≡◌, refl, ◌≢◌, ◌↔◌, Bool, true,
  false, ◌&&◌, Option, none, some, [], ◌∷◌, arith, ltb, leb, if◌then◌else◌, In,
}
use raglogs.Retention.Run.Scopes.{IsPurged, run_purge_ends, valid, invalid}
use raglogs.Retention.Purge.Spared.{spared_rows, purge_scope_batch-spares}
use raglogs.Retention.Run.DryRun.{run_purge-dry_run}
use raglogs.Retention.Jobs.{is_active_purge, has_active_purge, maybe_enqueue_purge}
use raglogs.Retention.Jobs.Enqueued.{IsDue, maybe_enqueue_purge_iff}
use raglogs.Retention.Attempt.{value_error, overflow_error, done}
use raglogs.Retention.Policy.{
  parse_retention_interval, compute_cutoff, validate_policy_intervals, resolve_scope_policy,
}
use raglogs.Retention.Policy.Cutoffs.{compute_cutoff-lt, validated-cutoffs}
use raglogs.Retention.Store.{LogEntry, Db, WorkerJob}
use raglogs.Retention.Purge.{PurgeCounts, purge_scope_batch}
use raglogs.Retention.Purge.Tiers.{IsKeyedDb}
use raglogs.Retention.Run.{PurgeSettings, run_purge, chosen_scopes}
use Prim.Native.Char.{Char, code}

-- ASCII digits, text in lower case already, and a `timedelta` of whole numbers below a bound.
abbrev digit : Char → Bool
digit c = leb 48 (code c) && leb (code c) 57

abbrev same : String → String
same s = s

abbrev value_of : ℕ → String → ℕ
value_of acc String.[] = acc
value_of acc (String.◌∷◌ c s) = value_of (acc * 10 + (code c - 48)) s

abbrev delta : String → ℕ → Option ℕ
delta number seconds =
    if ltb (value_of 0 number * seconds) 86400000000000
    then some (value_of 0 number * seconds * 1000000)
    else none

minutes_test : compute_cutoff digit same delta (some " 2m ") 200000000 ≡ done (some 80000000)
unfolding compute_cutoff
minutes_test = refl

spaced_test : parse_retention_interval digit same delta (some "2 m") ≡ value_error
unfolding parse_retention_interval
spaced_test = refl

never_test : parse_retention_interval digit same delta (some " off") ≡ done none
unfolding parse_retention_interval
never_test = refl

-- An interval that is valid, and reaches back before the first instant.
long_test : compute_cutoff digit same delta (some "30d") 200000000 ≡ overflow_error
unfolding compute_cutoff
long_test = refl

abbrev entry : ℕ → String → ℕ → LogEntry
entry id scope created_at = record { id = id; scope = scope; created_at = created_at }

-- Three old entries and a new one of one scope, and an old one of another.
abbrev db : Db
db = record {
  log_entries =
      entry 1 "a" 10 ∷ entry 2 "a" 20 ∷ entry 3 "a" 150000000 ∷ entry 4 "b" 10 ∷ entry 5 "a" 5 ∷ [];
  log_embeddings = record { log_entry_id = 2 } ∷ record { log_entry_id = 4 } ∷ [];
  cluster_members = record { cluster_id = 1; log_entry_id = 1 } ∷ [];
  cluster_embeddings = record { id = 1; scope = "a"; last_seen = none; updated_at = 7 } ∷ [];
  cluster_runs = record { id = 1; scope = "a"; window_end = 8 } ∷ [];
  clusters = record { id = 1; cluster_run_id = 1 } ∷ [];
  explanations = record { id = 1; scope = "a"; created_at = 9 } ∷ [];
  scope_retention = record { scope = "b"; raw_interval = some "x"; summary_interval = none } ∷ [];
  worker_jobs = [];
  last_purge_at = none;
}

abbrev cfg : PurgeSettings
cfg = record {
  retention_raw = "1m";
  retention_summary = "2m";
  purge_chunk_size = 2;
  purge_interval_seconds = 60;
}

keyed : IsKeyedDb db
unfolding tally
keyed = (λ i. ground arith, λ i. ground arith, λ i. ground arith, λ i. ground arith)

counts_test :
    (o : PurgeCounts × Db) × (run_purge digit same delta 12 cfg 200000000 none false none db
      ≡ done o)
    × ((o.0).raw ≡ 3)
    × ((o.0).embedding ≡ 2)
    × ((o.0).summary ≡ 3)
unfolding run_purge id_mem tally
counts_test = (_, refl, refl, refl, refl)

compute_cutoff-lt_example : 80000000 < 200000000
unfolding compute_cutoff
compute_cutoff-lt_example = compute_cutoff-lt digit same delta (some "2m") 200000000 80000000 refl

validated-cutoffs_example :
    (compute_cutoff digit same delta (some "30d") 200000000 ≢ value_error)
    × (compute_cutoff digit same delta (some "off") 200000000 ≢ value_error)
unfolding validate_policy_intervals
validated-cutoffs_example =
    validated-cutoffs digit same delta
      (record { scope = "a"; raw_interval = "30d"; summary_interval = "off" }) 200000000 refl

run_purge_ends_example :
    (out : PurgeCounts × Db) × (run_purge digit same delta 12 cfg 200000000 none false none db
      ≡ done out)
    × All (IsPurged digit same delta cfg 200000000 db.scope_retention out.1) (chosen_scopes none db)
    × ((out.1).last_purge_at ≡ some 200000000)
    × ((out.1).worker_jobs ≡ [])
    × ((out.0).more_remaining ≡ false)
unfolding chosen_scopes validate_policy_intervals compute_cutoff resolve_scope_policy
run_purge_ends_example =
    run_purge_ends digit same delta cfg 200000000 12 none db keyed (omega arith)
      ((some (some 140000000, some 80000000), valid refl refl refl), ((none, invalid refl), tt))

run_purge-dry_run_example :
    (dry out : PurgeCounts × Db) × (run_purge digit same delta 12 cfg 200000000
        (some "a")
        true
        none
        db
      ≡ done dry)
    × (run_purge digit same delta 12 cfg 200000000 (some "a") false none db ≡ done out)
    × ((out.0).raw ≡ (dry.0).raw)
    × ((out.0).summary ≡ (dry.0).summary)
    × ((out.0).embedding ≡ (dry.0).embedding)
    × (dry.1 ≡ db)
unfolding validate_policy_intervals compute_cutoff resolve_scope_policy
run_purge-dry_run_example =
    run_purge-dry_run digit same delta cfg 200000000 12 "a" db (some 140000000) (some 80000000)
      keyed (omega arith) refl refl refl refl

purge_scope_batch-spares_example :
    (b : PurgeCounts × Db) × (purge_scope_batch digit same delta
        (record { scope = "a"; raw_interval = "1m"; summary_interval = "off" })
        200000000
        2
        false
        db
      ≡ done b)
    × (spared_rows "a" (some 140000000) none b.1 ≡ spared_rows "a" (some 140000000) none db)
    × ((b.0).raw ≤ 2)
    × (length b.1.log_entries + (b.0).raw ≡ length db.log_entries)
unfolding compute_cutoff
purge_scope_batch-spares_example =
    purge_scope_batch-spares digit same delta
      (record { scope = "a"; raw_interval = "1m"; summary_interval = "off" }) 200000000 2
      (some 140000000) none db (omega arith) keyed refl refl

maybe_enqueue_purge_iff_example :
    (((maybe_enqueue_purge cfg 200000000 db).0 ≡ true)
      ↔ ((has_active_purge db ≡ false) × (0 < 60) × IsDue none 60 200000000))
    × ((maybe_enqueue_purge cfg 200000000 db).0 ≡ true
        → (tally is_active_purge (maybe_enqueue_purge cfg 200000000 db).1.worker_jobs ≡ 1)
          × ((j : WorkerJob)
              → In j db.worker_jobs
              → In j (maybe_enqueue_purge cfg 200000000 db).1.worker_jobs))
    × ((maybe_enqueue_purge cfg 200000000 db).0 ≡ false
        → (maybe_enqueue_purge cfg 200000000 db).1 ≡ db)
maybe_enqueue_purge_iff_example = maybe_enqueue_purge_iff cfg 200000000 db
