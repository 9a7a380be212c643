-- ===== src/Worker/Exclusive.antt =====
-- No job is held twice, for src/worker/runner.py.
use raglogs.Base.{
  id_mem, tally, tally-append, tally-filter, tally_ext, tally_split, tally-pos, tally-In, ℕ, ◌≤◌,
  ◌≡◌, sym, ap, ◌∙◌, ◌≢◌, inl, inr, Bool, true, false, not, ◌&&◌, some, List, [], ◌∷◌, ◌++◌, arith,
  ltb, ◌==◌, Bool-cases, In, In-append, In-filter,
}
use raglogs.Worker.Claims.{
  In-set_status, In-locked_ids, pending_only, select_next-claimable, tally-set_status, none_tally,
}
use raglogs.Retention.Rows.Deleted.{IsKeyed-In}
use raglogs.Worker.{Status, pending, running, QueuedJob, select_next, set_status, is_pending}
use raglogs.Worker.Steps.{
  Hold, Queue, locked_ids, release, Step, enqueue, claim, commit, finish, crash, Reach, start, next,
}
use mathlib.Core.Path.{subst}

-- Every row of the id has the status.
abbrev Has : ℕ → Status → List QueuedJob → Type 0
Has i s jobs = (j : QueuedJob) → In j jobs → j.id ≡ i → j.status ≡ s

abbrev held_status : Bool → Status
held_status true = pending
held_status false = running

-- An id is a primary key, the rows of a held job have the status that the hold relies on, and no job is held twice.
pub record IsExclusive (q : Queue) : Type 0 where
  pub keyed : (i : ℕ) → tally (λ j. j.id == i) q.jobs ≤ 1
  pub single : (i : ℕ) → tally (λ h. h.job == i) q.holds ≤ 1
  pub visible : (h : Hold) → In h q.holds → Has h.job (held_status h.is_locked) q.jobs

unheld :
    (q : Queue) (job : QueuedJob) (h : Hold)
    → IsExclusive q
    → In job q.jobs
    → job.status ≡ pending
    → id_mem job.id (locked_ids q.holds) ≡ false
    → In h q.holds
    → job.id ≢ h.job
unheld q job h x m p l i same = elim (Bool-cases h.is_locked) [
  | inl locked ↦
      let named = In-locked_ids h q.holds i locked in absurd (ground (arith, rw (← same) at named))
  | inr unlocked ↦
      let seen = x.visible h i job m same in absurd (other (sym p ∙ seen ∙ ap held_status unlocked))
]
  where
    other : ◌≡◌ {A = Status} pending running → ⊥
    other e = cc

-- A job that is selected is held by nobody.
selected-unheld :
    (q : Queue) (job : QueuedJob)
    → IsExclusive q
    → select_next (locked_ids q.holds) q.jobs ≡ some job
    → tally (λ h. h.job == job.id) q.holds ≡ 0
selected-unheld q job x e =
    let (m, p, l) = select_next-claimable (locked_ids q.holds) q.jobs job e in
    elim (Bool-cases (ltb 0 (tally (λ h. h.job == job.id) q.holds))) [
      | inr none_ ↦ ground arith
      | inl some_ ↦
          let (h, i, same) = tally-In (λ h. h.job == job.id) q.holds (ground arith) in
          absurd (unheld q job h x m p l i (ground arith))
    ]

-- The holds that stay after one on the job is given up.
released :
    (i : ℕ) (q : Queue) (s : Status)
    → IsExclusive q
    → ((k : ℕ) → tally (λ h. h.job == k) (release i q.holds) ≤ 1)
      × ((h : Hold) → In h (release i q.holds) → (In h q.holds) × (h.job ≢ i))
      × (tally (λ h. h.job == i) (release i q.holds) ≡ 0)
unfolding release
released i q s x =
    let keep : Hold → Bool = λ h. not (h.job == i) in
    (
      λ k. omega (
        arith,
        x.single k,
        tally-filter (λ h. h.job == k) keep q.holds,
        tally_split (λ h. h.job == k) keep q.holds,
        tally_ext (λ h. keep h && h.job == k) (λ h. h.job == k && keep h) q.holds
            (λ h m. ground arith),
      ),
      λ h m. let (a, b) = (In-filter keep h q.holds).0 m in (a, λ e. absurd (ground arith)),
      tally-filter (λ h. h.job == i) keep q.holds
          ∙ none_tally (λ h. keep h && h.job == i) q.holds (λ h m. ground arith),
    )

-- A hold on another job does not see a status that is set.
other_visible :
    (i : ℕ) (s : Status) (q : Queue) (h : Hold)
    → IsExclusive q
    → In h q.holds
    → h.job ≢ i
    → Has h.job (held_status h.is_locked) (set_status i s q.jobs)
other_visible i s q h x m n j k e = elim (In-set_status j i s q.jobs k) [
  | inl set ↦ absurd (n (sym e ∙ set.0))
  | inr kept ↦ x.visible h m j kept.0 e
]

enqueue-IsExclusive :
    (q : Queue) (job : QueuedJob)
    → tally (λ j. j.id == job.id) q.jobs ≡ 0
    → tally (λ h. h.job == job.id) q.holds ≡ 0
    → IsExclusive q
    → IsExclusive (record q { jobs = q.jobs ++ (job ∷ []) })
unfolding tally
enqueue-IsExclusive q job f g x = record {
  keyed = λ i. elim (Bool-cases (job.id == i)) [
    | inl same ↦
        let at_ : job.id ≡ i = ground arith in
        rw (tally-append (λ j. j.id == i) q.jobs (job ∷ []), same) (omega (arith, rw at_ at f))
    | inr other ↦
        rw (tally-append (λ j. j.id == i) q.jobs (job ∷ []), other) (omega (arith, x.keyed i))
  ];
  single = x.single;
  visible = λ h m j k e. elim ((In-append j q.jobs (job ∷ [])).0 k) [
    | inl old ↦ x.visible h m j old e
    | inr (inl new) ↦
        let at_ : h.job ≡ job.id = sym e ∙ ap (λ r. r.id) new in
        absurd (omega (arith, g, tally-pos (λ h. h.job == job.id) h q.holds m (ground arith)))
    | inr (inr never) ↦ absurd never
  ];
}

claim-IsExclusive :
    (q : Queue) (worker : ℕ) (job : QueuedJob)
    → select_next (locked_ids q.holds) q.jobs ≡ some job
    → IsExclusive q
    → IsExclusive
        (record q { holds = record { worker = worker; job = job.id; is_locked = true } ∷ q.holds })
unfolding tally is_pending
claim-IsExclusive q worker job e x =
    let none_ = selected-unheld q job x e in
    let (m, p, l) = select_next-claimable (locked_ids q.holds) q.jobs job e in
    record {
      keyed = x.keyed;
      single = λ i. elim (Bool-cases (job.id == i)) [
        | inl same ↦ let at_ : job.id ≡ i = ground arith in rw same (omega (arith, rw at_ at none_))
        | inr other ↦ rw other (omega (arith, x.single i))
      ];
      visible = λ h i j k at_. elim i [
        | inl same ↦
            let own =
              IsKeyed-In (λ r. r.id) (λ r. is_pending r.status) q.jobs job j x.keyed m k
                (sym (at_ ∙ ap (λ g. g.job) same)) (ap is_pending p) in
            rw same (pending_only j.status own)
        | inr held ↦ x.visible h held j k at_
      ];
    }

keyed-set_status :
    (i : ℕ) (s : Status) (q : Queue)
    → IsExclusive q
    → (k : ℕ) → tally (λ j. j.id == k) (set_status i s q.jobs) ≤ 1
keyed-set_status i s q x k = omega (arith, x.keyed k, tally-set_status k i s q.jobs)

commit-IsExclusive :
    (q : Queue) (h : Hold)
    → IsExclusive q
    → IsExclusive (record {
      jobs = set_status h.job running q.jobs;
      holds = record h { is_locked = false } ∷ release h.job q.holds;
    })
unfolding tally
commit-IsExclusive q h x =
    let (a, b, c) = released h.job q running x in
    record {
      keyed = keyed-set_status h.job running q x;
      single = λ i. elim (Bool-cases (h.job == i)) [
        | inl same ↦
            let at_ : h.job ≡ i = ground arith in
            rw same (
              omega (arith, subst (λ n. tally (λ g. g.job == n) (release h.job q.holds) ≡ 0) at_ c))
        | inr other ↦ rw other (omega (arith, a i))
      ];
      visible = λ g i j k at_. elim i [
        | inl same ↦ elim (In-set_status j h.job running q.jobs k) [
          | inl set ↦ rw same set.1
          | inr kept ↦ absurd (kept.1 (at_ ∙ ap (λ f. f.job) same))
        ]
        | inr held ↦ other_visible h.job running q g x (b g held).0 (b g held).1 j k at_
      ];
    }

pub Step-IsExclusive : {a b : Queue} → Step a b → IsExclusive a → IsExclusive b
Step-IsExclusive (enqueue q job p f g) x = enqueue-IsExclusive q job f g x
Step-IsExclusive (claim q worker job e) x = claim-IsExclusive q worker job e x
Step-IsExclusive (commit q h i) x = commit-IsExclusive q h x
Step-IsExclusive (finish q h status i t) x =
    let (a, b, c) = released h.job q status x in
    record {
      keyed = keyed-set_status h.job status q x;
      single = a;
      visible = λ g m. other_visible h.job status q g x (b g m).0 (b g m).1;
    }
Step-IsExclusive (crash q h i) x =
    let (a, b, c) = released h.job q pending x in
    record { keyed = x.keyed; single = a; visible = λ g m. x.visible g (b g m).0 }

-- Of any number of workers that enqueue, claim, commit, finish and crash in any order, no two hold one
-- job: from a table with its primary key and no holds, every reachable queue has at most one hold on an
-- id, and the rows of a held job are pending under its lock and running without it.
pub Reach-IsExclusive : {q : Queue} → Reach q → IsExclusive q
unfolding tally
Reach-IsExclusive (start jobs keyed) = record {
  keyed = keyed;
  single = λ i. omega arith;
  visible = λ h m. absurd m;
}
Reach-IsExclusive (next r s) = Step-IsExclusive s (Reach-IsExclusive r)
