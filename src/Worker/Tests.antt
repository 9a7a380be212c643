-- ===== src/Worker/Tests.antt =====
-- Concrete runs of the queue of src/worker/runner.py.
use raglogs.Base.{
  tally, ℕ, ◌≤◌, ◌≡◌, refl, inl, Bool, true, false, some, List, [], ◌∷◌, arith, ◌==◌,
}
use raglogs.Worker.{
  pending, running, QueuedJob, select_next, set_status, process_one, completed, claim_next_job,
  JobRun, run_job, terminal_status,
}
use raglogs.Worker.Exclusive.{IsExclusive, Reach-IsExclusive}
use raglogs.Worker.Steps.{Hold, locked_ids, release, claim, commit, Reach, start, next}
use raglogs.Worker.Progress.{process_one-progress, Progressed}

abbrev first : QueuedJob
first = record { id = 1; job_type = "purge"; status = pending; created_at = 20 }

abbrev second : QueuedJob
second = record { id = 2; job_type = "ingest"; status = pending; created_at = 10 }

abbrev table : List QueuedJob
table = first ∷ second ∷ []

keyed : (i : ℕ) → tally (λ j. j.id == i) table ≤ 1
unfolding tally
keyed i = ground arith

oldest_test : select_next [] table ≡ some second
unfolding select_next
oldest_test = refl

skip_locked_test : select_next (2 ∷ []) table ≡ some first
unfolding select_next
skip_locked_test = refl

abbrev hold : ℕ → ℕ → Bool → Hold
hold worker job is_locked = record { worker = worker; job = job; is_locked = is_locked }

-- Two workers claim the two jobs, and the one with the purge commits in between.
both_held :
    Reach
      (record { jobs = set_status 1 running table; holds = hold 8 1 false ∷ hold 7 2 true ∷ [] })
unfolding select_next locked_ids release
both_held =
    next (next (next (start table keyed) (claim _ 7 second refl)) (claim _ 8 first refl))
      (commit _ (hold 8 1 true) (inl refl))

Reach-IsExclusive_example :
    IsExclusive
      (record { jobs = set_status 1 running table; holds = hold 8 1 false ∷ hold 7 2 true ∷ [] })
Reach-IsExclusive_example = Reach-IsExclusive both_held

-- A purge that leaves rows, and so adds the next purge.
abbrev follow_up : QueuedJob
follow_up = record { id = 3; job_type = "purge"; status = pending; created_at = 30 }

abbrev purge_leaves : QueuedJob → JobRun
purge_leaves job = record { returns = true; added = follow_up ∷ [] }

abbrev ingest_fails : QueuedJob → JobRun
ingest_fails job = record { returns = false; added = [] }

purge_adds :
    process_one ingest_fails purge_leaves (2 ∷ []) table
    ≡ (true, record first { status = completed } ∷ second ∷ follow_up ∷ [])
unfolding process_one run_job terminal_status claim_next_job
purge_adds = refl

process_one-progress_example :
    Progressed
      (run_job ingest_fails purge_leaves)
      (2 ∷ [])
      table
      (process_one ingest_fails purge_leaves (2 ∷ []) table).1
unfolding process_one
process_one-progress_example = process_one-progress ingest_fails purge_leaves (2 ∷ []) table refl
