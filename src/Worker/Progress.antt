-- ===== src/Worker/Progress.antt =====
-- What one call of `process_one` does to the table, for src/worker/runner.py.
use raglogs.Base.{
  id_mem, tally, tally-append, tally_split, tally-pos, ℕ, ◌+◌, ◌<◌, ◌≡◌, refl, ap, ◌≢◌, ◌⊎◌, inl,
  inr, Bool, true, false, not, ◌&&◌, List, [], ◌∷◌, arith, ◌==◌, if◌then◌else◌, Bool-cases,
  Option-cases, In, In-append,
}
use raglogs.Worker.{
  Status, QueuedJob, is_pending, select_next, set_status, claim_next_job, process_one, running,
  terminal_status, completed, failed, pending, JobRun, run_job,
}
use raglogs.Worker.Claims.{select_next-claimable, In-set_status}

and_false : (b : Bool) → (b && false) ≡ false
and_false true = refl
and_false false = refl

and_true : (b : Bool) → (b && true) ≡ b
and_true true = refl
and_true false = refl

-- A status that is set twice is the later one.
set_status-set_status :
    (i : ℕ) (s t : Status) (jobs : List QueuedJob)
    → set_status i t (set_status i s jobs) ≡ set_status i t jobs
unfolding set_status
set_status-set_status i s t [] = refl
set_status-set_status i s t (x ∷ xs) =
    let ih = set_status-set_status i s t xs in
    elim (Bool-cases (x.id == i)) [
      | inl yes_ ↦ rw (set_status, yes_, ih) (rw yes_ refl)
      | inr no_ ↦ rw (set_status, no_, ih) (rw no_ refl)
    ]

terminal :
    (run_ingest_job run_purge_job : QueuedJob → JobRun) (job : QueuedJob)
    → is_pending (terminal_status run_ingest_job run_purge_job job) ≡ false
unfolding terminal_status is_pending
terminal run_ingest_job run_purge_job job = pick (run_job run_ingest_job run_purge_job job).returns
  where
    pick : (b : Bool) → is_pending (if b then completed else failed) ≡ false
    pick true = refl
    pick false = refl

pending_count-set_status :
    (i : ℕ) (s : Status) (jobs : List QueuedJob)
    → is_pending s ≡ false
    → tally (λ j. is_pending j.status) (set_status i s jobs)
      ≡ tally (λ j. is_pending j.status && not (j.id == i)) jobs
unfolding set_status tally
pending_count-set_status i s [] e = refl
pending_count-set_status i s (x ∷ xs) e =
    let ih = pending_count-set_status i s xs e in
    elim (Bool-cases (x.id == i)) [
      | inl yes_ ↦ rw (yes_, e, and_false (is_pending x.status)) (omega (arith, ih))
      | inr no_ ↦ rw (no_, and_true (is_pending x.status)) (omega (arith, ih))
    ]

-- What a call that processes a job did: the job was pending and in no locked row, no pending row is
-- left under its id but what the run added, every pending row was pending before or was added by the
-- run, and without what the run added there are fewer pending rows than before.
pub record Progressed (run : QueuedJob → JobRun) (locked : List ℕ) (before_ after : List QueuedJob)
    : Type 0 where
  pub job : QueuedJob
  pub claimed : In job before_
  pub was_pending : job.status ≡ pending
  pub was_free : id_mem job.id locked ≡ false
  pub no_new :
      (x : QueuedJob)
      → In x after
      → is_pending x.status ≡ true
      → (In x before_ × (x.id ≢ job.id)) ⊎ In x (run (record job { status = running })).added
  pub fewer :
      tally (λ j. is_pending j.status) after
      < tally (λ j. is_pending j.status) before_
        + tally (λ j. is_pending j.status) (run (record job { status = running })).added

-- A call of `process_one` that processes a job claims one that was pending and in no locked row. After
-- it, every pending row has another id and was there before, or was added by the job's own run, and
-- there are fewer pending rows than before and added together.
pub process_one-progress :
    (run_ingest_job run_purge_job : QueuedJob → JobRun) (locked : List ℕ) (jobs : List QueuedJob)
    → (process_one run_ingest_job run_purge_job locked jobs).0 ≡ true
    → Progressed
        (run_job run_ingest_job run_purge_job)
        locked
        jobs
        (process_one run_ingest_job run_purge_job locked jobs).1
unfolding process_one claim_next_job
process_one-progress run_ingest_job run_purge_job locked jobs e =
    elim (Option-cases (select_next locked jobs)) [
      | inl nothing ↦ absurd (ground (arith, rw (process_one, claim_next_job, nothing) at e))
      | inr found ↦
          let (job, f) = found in
          let (m, p, l) = select_next-claimable locked jobs job f in
          let active = record job { status = running } in
          let end_ = terminal_status run_ingest_job run_purge_job active in
          let ended = terminal run_ingest_job run_purge_job active in
          let added = (run_job run_ingest_job run_purge_job active).added in
          let taken =
            tally-pos (λ j. is_pending j.status && not (not (j.id == job.id))) job jobs m
              (rw p (ground arith)) in
          rw (process_one, claim_next_job, f, set_status-set_status job.id running end_ jobs)
            (record {
              job = job;
              claimed = m;
              was_pending = p;
              was_free = l;
              no_new = λ x i q. elim ((In-append x (set_status job.id end_ jobs) added).0 i) [
                | inl old ↦ elim (In-set_status x job.id end_ jobs old) [
                  | inl set ↦ absurd (ended-clash x.status end_ ended set.1 q)
                  | inr kept ↦ inl kept
                ]
                | inr new ↦ inr new
              ];
              fewer = omega (
                arith,
                tally-append (λ j. is_pending j.status) (set_status job.id end_ jobs) added,
                pending_count-set_status job.id end_ jobs ended,
                taken,
                tally_split (λ j. is_pending j.status) (λ j. not (j.id == job.id)) jobs,
              );
            })
    ]
  where
    ended-clash : (s t : Status) → is_pending t ≡ false → s ≡ t → is_pending s ≡ true → ⊥
    ended-clash s t n e q = let f = ap (λ u. is_pending u) e in cc
