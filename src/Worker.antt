-- ===== src/Worker.antt =====
-- The queue of src/worker/runner.py: the jobs of the table, and the transactions of the workers that
-- hold one of them. An id is a number, a time is a number; what a job runs is a parameter.
pub mod Steps
pub mod Claims
pub mod Exclusive
pub mod Progress
mod Tests
use raglogs.Base.{
  id_mem, sorted, filter, str_eq, ℕ, String, Bool, true, false, not, ◌&&◌, Option, none, some, List,
  [], ◌∷◌, ◌++◌, ltb, ◌==◌, if◌then◌else◌,
}

pub data Status : Type 0 where
  pending : Status
  running : Status
  completed : Status
  failed : Status

pub record QueuedJob : Type 0 where
  pub id : ℕ
  pub job_type : String
  pub status : Status
  pub created_at : ℕ

unfoldable pub is_pending : Status → Bool
is_pending pending = true
is_pending running = false
is_pending completed = false
is_pending failed = false

-- `.where(status == "pending")` with `skip_locked`: a row that another transaction locks is passed over
unfoldable pub is_claimable : List ℕ → QueuedJob → Bool
unfolding is_pending id_mem
is_claimable locked job = is_pending job.status && not (id_mem job.id locked)

-- `.order_by(created_at)`
unfoldable pub is_older : QueuedJob → QueuedJob → Bool
is_older a b = ltb a.created_at b.created_at

-- `.limit(1)`
unfoldable pub first_row : List QueuedJob → Option QueuedJob
first_row [] = none
first_row (job ∷ jobs) = some job

-- The row that `claim_next_job` selects; of rows of one time it is the first of the table.
unfoldable pub select_next : List ℕ → List QueuedJob → Option QueuedJob
unfolding first_row sorted is_older filter is_claimable
select_next locked jobs = first_row (sorted is_older (filter (is_claimable locked) jobs))

-- `job.status = …`
unfoldable pub set_status : ℕ → Status → List QueuedJob → List QueuedJob
set_status i status [] = []
set_status i status (job ∷ jobs) =
    (if job.id == i then record job { status = status } else job) ∷ set_status i status jobs

-- The claimed job, and the table as the claiming transaction sees it.
unfoldable pub claim_next_job : List ℕ → List QueuedJob → Option (QueuedJob × List QueuedJob)
unfolding select_next set_status
claim_next_job locked jobs = elim (select_next locked jobs) [
  | none ↦ none
  | some job ↦ some (record job { status = running }, set_status job.id running jobs)
]

-- What running a job came to: it returned or raised, and the jobs that it added to the table, such as
-- the pending purge that `run_purge` leaves when rows remain. What a run that raises has added stays.
pub record JobRun : Type 0 where
  pub returns : Bool
  pub added : List QueuedJob

module _ (run_ingest_job run_purge_job : QueuedJob → JobRun) where
  -- The branches of `process_one`; a job of no known type raises at once.
  unfoldable pub run_job : QueuedJob → JobRun
  run_job job =
      if str_eq job.job_type "ingest"
      then run_ingest_job job
      else if str_eq job.job_type "purge"
      then run_purge_job job
      else record { returns = false; added = [] }

  unfoldable pub terminal_status : QueuedJob → Status
  unfolding run_job
  terminal_status job = if (run_job job).returns then completed else failed

  unfoldable pub process_one : List ℕ → List QueuedJob → Bool × List QueuedJob
  unfolding claim_next_job run_job terminal_status set_status
  process_one locked jobs = elim (claim_next_job locked jobs) [
    | none ↦ (false, jobs)
    | some claimed ↦ (
      true,
      set_status (claimed.0).id (terminal_status claimed.0) claimed.1 ++ (run_job claimed.0).added,
    )
  ]
