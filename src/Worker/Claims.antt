-- ===== src/Worker/Claims.antt =====
-- What a claim and a status that is set say of the rows, for src/worker/runner.py.
use raglogs.Base.{
  In-sorted, id_mem, tally, sorted, filter, ℕ, ◌≡◌, refl, ◌≢◌, ◌⊎◌, inl, inr, Bool, true, false,
  some, List, [], ◌∷◌, arith, ◌==◌, Bool-cases, In, In-filter,
}
use raglogs.Worker.{
  Status, pending, running, completed, failed, QueuedJob, is_pending, is_claimable, is_older,
  first_row, select_next, set_status,
}
use raglogs.Worker.Steps.{Hold, locked_ids}

pub In-set_status :
    (j : QueuedJob) (i : ℕ) (s : Status) (jobs : List QueuedJob)
    → In j (set_status i s jobs)
    → ((j.id ≡ i) × (j.status ≡ s)) ⊎ (In j jobs × (j.id ≢ i))
unfolding set_status
In-set_status j i s [] m = absurd m
In-set_status j i s (x ∷ xs) m = elim (Bool-cases (x.id == i)) [
  | inl same ↦ elim (rw (set_status, same) at m) [
    | inl e ↦ inl (rw e (ground arith), rw e refl)
    | inr later ↦ elim (In-set_status j i s xs later) [
      | inl set ↦ inl set
      | inr kept ↦ inr (inr kept.0, kept.1)
    ]
  ]
  | inr other ↦ elim (rw (set_status, other) at m) [
    | inl e ↦ inr (inl e, rw e (λ f. absurd (ground arith)))
    | inr later ↦ elim (In-set_status j i s xs later) [
      | inl set ↦ inl set
      | inr kept ↦ inr (inr kept.0, kept.1)
    ]
  ]
]

pub In-locked_ids :
    (h : Hold) (hs : List Hold) → In h hs → h.is_locked ≡ true → id_mem h.job (locked_ids hs) ≡ true
unfolding locked_ids id_mem
In-locked_ids h [] m e = absurd m
In-locked_ids h (x ∷ hs) (inl same) e = rw (← same) (rw e (ground arith))
In-locked_ids h (x ∷ hs) (inr later) e =
    let ih = In-locked_ids h hs later e in
    elim (Bool-cases x.is_locked) [ inl yes_ ↦ rw yes_ (ground arith) | inr no_ ↦ rw no_ ih ]

pub first_row-In :
    (jobs : List QueuedJob) (job : QueuedJob) → first_row jobs ≡ some job → In job jobs
unfolding first_row
first_row-In [] job e = absurd (cc)
first_row-In (x ∷ xs) job e = inl (cc)

pub pending_only : (s : Status) → is_pending s ≡ true → s ≡ pending
unfolding is_pending
pending_only pending h = refl
pending_only running h = absurd (cc)
pending_only completed h = absurd (cc)
pending_only failed h = absurd (cc)

pub claimable_lem :
    (locked : List ℕ) (job : QueuedJob)
    → is_claimable locked job ≡ true
    → (job.status ≡ pending) × (id_mem job.id locked ≡ false)
unfolding is_claimable is_pending
claimable_lem locked job e = (pending_only job.status (ground arith), ground arith)

pub select_next-claimable :
    (locked : List ℕ) (jobs : List QueuedJob) (job : QueuedJob)
    → select_next locked jobs ≡ some job
    → In job jobs × (job.status ≡ pending) × (id_mem job.id locked ≡ false)
unfolding select_next
select_next-claimable locked jobs job e =
    let found = first_row-In (sorted is_older (filter (is_claimable locked) jobs)) job e in
    let (m, c) =
      (In-filter (is_claimable locked) job jobs).0
        ((In-sorted is_older job (filter (is_claimable locked) jobs)).0 found) in
    let (a, b) = claimable_lem locked job c in (m, a, b)

pub tally-set_status :
    (k i : ℕ) (s : Status) (jobs : List QueuedJob)
    → tally (λ j. j.id == k) (set_status i s jobs) ≡ tally (λ j. j.id == k) jobs
unfolding set_status tally
tally-set_status k i s [] = refl
tally-set_status k i s (x ∷ xs) =
    let ih = tally-set_status k i s xs in
    elim (Bool-cases (x.id == i)) [
      | inl yes_ ↦ rw yes_ (omega (arith, ih))
      | inr no_ ↦ rw no_ (omega (arith, ih))
    ]

pub none_tally :
    {A : Type 0} (p : A → Bool) (xs : List A) → ((a : A) → In a xs → p a ≡ false) → tally p xs ≡ 0
unfolding tally
none_tally p [] h = refl
none_tally p (x ∷ xs) h =
    let ih = none_tally p xs (λ a m. h a (inr m)) in rw (h x (inl refl)) (omega (arith, ih))
