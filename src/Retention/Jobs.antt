-- ===== src/Retention/Jobs.antt =====
-- When a purge is enqueued, and the job that runs one: the end of src/core/retention/purge.py.
pub mod Enqueued
use raglogs.Base.{
  any, strip, str_eq, ℕ, ◌+◌, ◌*◌, String, Bool, true, false, ◌&&◌, Option, none, some, leb, ◌==◌,
  if◌then◌else◌,
}
use raglogs.Retention.Attempt.{Attempt}
use raglogs.Retention.Store.{JobStatus, pending, running, finished, failed, WorkerJob, Db}
use raglogs.Retention.Purge.{PurgeCounts}
use raglogs.Retention.Run.{PurgeSettings, enqueue_followup_purge, run_purge}
use Prim.Native.Char.{Char}

-- `active_purge_job_statement`
unfoldable pub is_active_purge : WorkerJob → Bool
is_active_purge job = str_eq job.job_type "purge" && is_open job.status
  where
    is_open : JobStatus → Bool
    is_open pending = true
    is_open running = true
    is_open finished = false
    is_open failed = false

unfoldable pub has_active_purge : Db → Bool
unfolding any is_active_purge
has_active_purge db = any is_active_purge db.worker_jobs

-- An interval of 0 turns the purge off; `(clock - stamp).total_seconds() >= interval_seconds`, which is
-- negative for a stamp in the future.
unfoldable pub should_enqueue_purge :
    (last_purge_at : Option ℕ) (has_active : Bool) (now interval_seconds : ℕ) → Bool
should_enqueue_purge last_purge_at true now interval_seconds = false
should_enqueue_purge last_purge_at false now interval_seconds =
    if interval_seconds == 0 then false else elim last_purge_at [
      | none ↦ true
      | some stamp ↦ leb (stamp + interval_seconds * 1000000) now
    ]

unfoldable pub maybe_enqueue_purge : PurgeSettings → (now : ℕ) → Db → Bool × Db
unfolding should_enqueue_purge has_active_purge enqueue_followup_purge
maybe_enqueue_purge cfg now db =
    if should_enqueue_purge db.last_purge_at (has_active_purge db) now cfg.purge_interval_seconds
    then (true, enqueue_followup_purge db)
    else (false, db)

-- `payload.get("scope")` of a claimed job: the text, if it is one.
unfoldable pub job_scope : Option String → Option String
unfolding strip
job_scope none = none
job_scope (some text) = if str_eq (strip text) "" then none else some (strip text)

module _ (is_digit : Char → Bool) (lower : String → String)
    (timedelta : String → ℕ → Option ℕ) where
  unfoldable pub run_purge_job :
      (fuel : ℕ)
      → PurgeSettings
      → (now : ℕ) → (payload_scope : Option String) → Db
      → Attempt (PurgeCounts × Db)
  unfolding run_purge job_scope
  run_purge_job fuel cfg now payload_scope db =
      run_purge is_digit lower timedelta fuel cfg now (job_scope payload_scope) false (some 1) db
