-- ===== src/Retention/Jobs/Enqueued.antt =====
-- One purge at a time, and no purge before its interval is over, for src/core/retention/purge.py.
use raglogs.Base.{
  tally, tally-append, any, ℕ, ◌+◌, ◌*◌, ◌≤◌, ◌<◌, ◌≡◌, refl, ◌↔◌, inl, inr, Bool, true, false,
  Option, none, some, List, [], ◌∷◌, arith, Bool-cases, In, In-append,
}
use raglogs.Retention.Store.{Db, pending, WorkerJob}
use raglogs.Retention.Run.{PurgeSettings, enqueue_followup_purge}
use raglogs.Retention.Jobs.{
  is_active_purge, has_active_purge, should_enqueue_purge, maybe_enqueue_purge,
}

any-tally : {A : Type 0} (p : A → Bool) (xs : List A) → any p xs ≡ false → tally p xs ≡ 0
unfolding any tally
any-tally p [] e = refl
any-tally p (x ∷ xs) e = elim (Bool-cases (p x)) [
  | inl yes_ ↦ absurd (ground (arith, rw (any, yes_) at e))
  | inr no_ ↦ let ih = any-tally p xs (rw (any, no_) at e) in rw no_ (omega (arith, ih))
]

-- No purge is on record, or the interval has passed since it.
abbrev pub IsDue : Option ℕ → (interval_seconds now : ℕ) → Type 0
IsDue none interval_seconds now = Unit
IsDue (some t) interval_seconds now = t + interval_seconds * 1000000 ≤ now

should_enqueue_purge_iff :
    (last : Option ℕ) (active : Bool) (now interval_seconds : ℕ)
    → (should_enqueue_purge last active now interval_seconds ≡ true)
      ↔ ((active ≡ false) × (0 < interval_seconds) × IsDue last interval_seconds now)
unfolding should_enqueue_purge
should_enqueue_purge_iff last true now i = (λ e. absurd (cc), λ e. absurd (cc))
should_enqueue_purge_iff none false now i =
    (λ e. (refl, ground arith, tt), λ (a, b, c). ground arith)
should_enqueue_purge_iff (some t) false now i =
    (λ e. (refl, ground arith, ground arith), λ (a, b, c). ground arith)

-- Jobs of which none is an active purge have one with the job that is enqueued.
enqueued-tally :
    (db : Db)
    → has_active_purge db ≡ false
    → tally is_active_purge (enqueue_followup_purge db).worker_jobs ≡ 1
unfolding enqueue_followup_purge has_active_purge is_active_purge tally
enqueued-tally db free = omega (
  arith,
  any-tally is_active_purge db.worker_jobs free,
  tally-append is_active_purge db.worker_jobs
      (record { job_type = "purge"; status = pending } ∷ []),
)

-- An idle poll enqueues a purge exactly when no purge is pending or running, the interval is not 0,
-- and either no purge is on record or the interval has passed since it. When it does, it says so, one
-- purge more is pending or running, the first one, and each job of before is still there; otherwise
-- the tables are as before.
pub maybe_enqueue_purge_iff :
    (cfg : PurgeSettings) (now : ℕ) (db : Db)
    → (((maybe_enqueue_purge cfg now db).0 ≡ true) ↔ (
        (has_active_purge db ≡ false)
        × (0 < cfg.purge_interval_seconds)
        × IsDue db.last_purge_at cfg.purge_interval_seconds now))
      × ((maybe_enqueue_purge cfg now db).0 ≡ true
          → (tally is_active_purge (maybe_enqueue_purge cfg now db).1.worker_jobs ≡ 1)
            × ((j : WorkerJob)
                → In j db.worker_jobs
                → In j (maybe_enqueue_purge cfg now db).1.worker_jobs))
      × ((maybe_enqueue_purge cfg now db).0 ≡ false → (maybe_enqueue_purge cfg now db).1 ≡ db)
unfolding maybe_enqueue_purge enqueue_followup_purge
maybe_enqueue_purge_iff cfg now db =
    let due =
      should_enqueue_purge_iff db.last_purge_at (has_active_purge db) now
        cfg.purge_interval_seconds in
    elim (Bool-cases (
      should_enqueue_purge db.last_purge_at (has_active_purge db) now cfg.purge_interval_seconds)) [
        | inl yes_ ↦ rw yes_ (
          (λ e. due.0 yes_, λ d. refl),
          λ e. (enqueued-tally db (due.0 yes_).0, λ j i. (In-append j db.worker_jobs _).1 (inl i)),
          λ e. absurd (cc),
        )
        | inr no_ ↦
            rw no_
              ((λ e. absurd (cc), λ d. absurd (let f = due.1 d in cc)), λ e. absurd (cc), λ e. refl)
      ]
