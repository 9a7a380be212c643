-- ===== src/Rca/Partition/Evidence.antt =====
-- Which observations `partition` of src/core/rca/partition.py can be moved by.
use raglogs.Base.{
  filter, ◌≡◌, inl, inr, Bool, true, false, ◌&&◌, Option, List, [], ◌∷◌, ◌++◌, Bool-cases,
}
use raglogs.Rca.Result.{ok}
use raglogs.Rca.Observable.{Observable, is_usable}
use raglogs.Rca.Observable.Ids.{Fresh, Fresh-remove, usable_observables-Fresh}
use raglogs.Rca.Hypothesis.{Hypothesis}
use raglogs.Rca.Partition.{UsabilityPolicy, usable_observations, partition, is_trusted}
use raglogs.Rca.Partition.Classes.{Fresh-usable_observations}

usable_observations-Fresh :
    (policy : UsabilityPolicy) (os : List Observable)
    → Fresh [] os
    → usable_observations policy os ≡ ok (filter (is_trusted policy) (filter is_usable os))
unfolding usable_observations
usable_observations-Fresh policy os f = rw (usable_observables-Fresh os f)

filter-filter-drop :
    {A : Type 0} (p q : A → Bool) (before : List A) (o : A) (after : List A)
    → p o && q o ≡ false
    → filter q (filter p (before ++ o ∷ after)) ≡ filter q (filter p (before ++ after))
unfolding filter
filter-filter-drop p q [] o after e = elim (Bool-cases (p o)) [
  | inl first ↦ rw (first, filter) (rw (second (p o) (q o) first e))
  | inr no_ ↦ rw no_
]
  where
    second : (a b : Bool) → a ≡ true → a && b ≡ false → b ≡ false
    second true b h k = k
    second false b h k = cc
filter-filter-drop p q (b ∷ before) o after e = elim (Bool-cases (p b)) [
  | inl keep ↦ rw (keep, filter) (rw (filter-filter-drop p q before o after e))
  | inr skip ↦ rw skip (filter-filter-drop p q before o after e)
]

-- Among observations that name each coordinate once, one that is not collectable, was not
-- measured or is trusted less than its threshold changes nothing: without it the partition is the
-- same, whatever the hypotheses.
pub partition_drop :
    {S : Type 0} (source_eq : Option S → Option S → Bool) (hypotheses : List (Hypothesis S))
    (before : List Observable) (o : Observable) (after usable : List Observable)
    (policy : UsabilityPolicy)
    → usable_observations policy (before ++ o ∷ after) ≡ ok usable
    → is_usable o && is_trusted policy o ≡ false
    → partition source_eq hypotheses (before ++ after) policy
      ≡ partition source_eq hypotheses (before ++ o ∷ after) policy
unfolding partition
partition_drop source_eq hypotheses before o after usable policy u e =
    let (fresh, same) = Fresh-usable_observations policy (before ++ o ∷ after) usable u in
    rw (
      u,
      usable_observations-Fresh policy (before ++ after) (Fresh-remove before o after fresh),
      ← filter-filter-drop is_usable (is_trusted policy) before o after e,
      ← same,
    )
