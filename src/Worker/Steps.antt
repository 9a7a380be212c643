-- ===== src/Worker/Steps.antt =====
-- Several workers on one queue, for src/worker/runner.py: what each of them commits is a step.
use raglogs.Base.{
  tally, filter, ℕ, ◌≤◌, ◌≡◌, ◌⊎◌, Bool, true, false, not, some, List, [], ◌∷◌, ◌++◌, ◌==◌,
  if◌then◌else◌, In,
}
use raglogs.Worker.{Status, pending, running, completed, failed, QueuedJob, select_next, set_status}

-- A worker's hold on a job: under the row lock of its transaction, or, once a purge has committed in
-- between, by the status `running` alone.
pub record Hold : Type 0 where
  pub worker : ℕ
  pub job : ℕ
  pub is_locked : Bool

-- The table as committed, and the holds.
pub record Queue : Type 0 where
  pub jobs : List QueuedJob
  pub holds : List Hold

unfoldable pub locked_ids : List Hold → List ℕ
locked_ids [] = []
locked_ids (h ∷ hs) = if h.is_locked then h.job ∷ locked_ids hs else locked_ids hs

-- without the hold on a job
unfoldable pub release : ℕ → List Hold → List Hold
unfolding filter
release i holds = filter (λ h. not (h.job == i)) holds

pub data Step : Queue → Queue → Type 0 where
  -- a route, an idle poll or a purge that leaves rows adds a job under a new id
  enqueue :
      (q : Queue) (job : QueuedJob)
      → job.status ≡ pending
      → tally (λ j. j.id == job.id) q.jobs ≡ 0
      → tally (λ h. h.job == job.id) q.holds ≡ 0
      → Step q (record q { jobs = q.jobs ++ (job ∷ []) })
  -- `claim_next_job`
  claim :
      (q : Queue) (worker : ℕ) (job : QueuedJob)
      → select_next (locked_ids q.holds) q.jobs ≡ some job
      → Step q (record q {
        holds = record { worker = worker; job = job.id; is_locked = true } ∷ q.holds;
      })
  -- a commit inside a purge: the status is visible, the lock is gone
  commit :
      (q : Queue) (h : Hold)
      → In h q.holds
      → Step q (record {
        jobs = set_status h.job running q.jobs;
        holds = record h { is_locked = false } ∷ release h.job q.holds;
      })
  -- the end of `process_one`
  finish :
      (q : Queue) (h : Hold) (status : Status)
      → In h q.holds
      → (status ≡ completed) ⊎ (status ≡ failed)
      → Step q (record { jobs = set_status h.job status q.jobs; holds = release h.job q.holds })
  -- a crash: what was not committed is rolled back
  crash :
      (q : Queue) (h : Hold) → In h q.holds → Step q (record q { holds = release h.job q.holds })

pub data Reach : Queue → Type 0 where
  start :
      (jobs : List QueuedJob)
      → ((i : ℕ) → tally (λ j. j.id == i) jobs ≤ 1)
      → Reach (record { jobs = jobs; holds = [] })
  next : {a b : Queue} → Reach a → Step a b → Reach b
