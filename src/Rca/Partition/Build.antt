-- ===== src/Rca/Partition/Build.antt =====
-- The steps of `partition`, src/core/rca/partition.py, without their errors.
use raglogs.Base.{
  In-sorted, sorted, filter, any, String, ◌≡◌, refl, sym, ◌∙◌, inl, inr, Bool, true, false, not,
  none, some, List, [], ◌∷◌, map, Bool-cases, Option-cases, In,
}
use raglogs.Rca.Result.{Result, ok, ◌>>=◌, ◌>>◌, >>=-eq-ok, ok-injective, require, require-then}
use raglogs.Rca.Observable.{Observable, is_usable}
use raglogs.Rca.Observable.Ids.{Fresh, usable_observables-Fresh}
use raglogs.Rca.Expectations.{is_empty, observed_states, states, contradicts}
use raglogs.Rca.Expectations
use raglogs.Rca.Hypothesis.{Hypothesis, hard_incompatibility, incompatible}
use raglogs.Rca.Partition.{
  EquivalenceClass, check_class, d_missing, eliminate, Group, by_hypothesis_id, make_class,
  make_classes,
}
use raglogs.Rca.Partition.Grouping.{Populated}

pub is_empty-In : {A : Type 0} (a : A) (xs : List A) → In a xs → is_empty xs ≡ false
unfolding is_empty
is_empty-In a [] i = absurd i
is_empty-In a (x ∷ xs) i = refl

pub In-is_empty : {A : Type 0} (xs : List A) → is_empty xs ≡ false → (a : A) × In a xs
unfolding is_empty
In-is_empty [] h = absurd (cc)
In-is_empty (x ∷ xs) h = (x, inl refl)

require-true : {A : Type 0} (b : Bool) (r : Result A) → b ≡ true → (require b >> r) ≡ r
require-true b r h = rw h

module _ {S : Type 0} where
  abbrev pub class_of : List String → Group S → EquivalenceClass S
  class_of usable g = record {
    signature = g.0;
    members = sorted by_hypothesis_id g.1;
    d_missing = d_missing (sorted by_hypothesis_id g.1) usable;
  }

  make_class-eq-ok :
      (usable : List String) (g : Group S) (c : EquivalenceClass S)
      → make_class usable g ≡ ok c
      → c ≡ class_of usable g
  unfolding make_class check_class
  make_class-eq-ok usable (s, hs) c h =
      sym (ok-injective (require-then (not (is_empty (sorted by_hypothesis_id hs))) _ h).1)

  make_class-populated :
      (usable : List String) (g : Group S)
      → is_empty g.1 ≡ false
      → make_class usable g ≡ ok (class_of usable g)
  unfolding make_class check_class
  make_class-populated usable (s, hs) h =
      let (a, i) = In-is_empty hs h in
      require-true (not (is_empty (sorted by_hypothesis_id hs))) _
        (rw (is_empty-In a (sorted by_hypothesis_id hs) ((In-sorted by_hypothesis_id a hs).1 i)))

  pub make_classes-eq-ok :
      (usable : List String) (groups : List (Group S)) (cs : List (EquivalenceClass S))
      → make_classes usable groups ≡ ok cs
      → cs ≡ map (class_of usable) groups
  unfolding make_classes
  make_classes-eq-ok usable [] cs h = sym (ok-injective h)
  make_classes-eq-ok usable (g ∷ groups) cs h =
      let (c, e, h1) =
        >>=-eq-ok (make_class usable g) (λ c. make_classes usable groups >>= λ cs. ok (c ∷ cs)) h in
      let (ds, e2, h2) = >>=-eq-ok (make_classes usable groups) (λ ds. ok (c ∷ ds)) h1 in
      sym (ok-injective h2)
      ∙ rw (make_class-eq-ok usable g c e, make_classes-eq-ok usable groups ds e2)

  pub make_classes-populated :
      (usable : List String) (groups : List (Group S))
      → ((g : Group S) → In g groups → is_empty g.1 ≡ false)
      → make_classes usable groups ≡ ok (map (class_of usable) groups)
  unfolding make_classes
  make_classes-populated usable [] h = refl
  make_classes-populated usable (g ∷ groups) h = rw (
    make_class-populated usable g (h g (inl refl)),
    make_classes-populated usable groups (λ k i. h k (inr i)),
  )

  pub Populated-In :
      (groups : List (Group S)) (g : Group S)
      → Populated groups
      → In g groups
      → is_empty g.1 ≡ false
  Populated-In [] g p i = absurd i
  Populated-In (x ∷ groups) g p (inl e) = rw e p.0
  Populated-In (x ∷ groups) g p (inr i) = Populated-In groups g p.1 i

module _ {S : Type 0} where
  -- `hard_incompatibility` where no id occurs twice
  unfoldable pub refuted : List Observable → Hypothesis S → Bool
  refuted usable h = elim h.observation_model [
    | none ↦ false
    | some m ↦ any (Expectations.contradicts (states (filter is_usable usable))) m.contradictions
  ]

  pub hard_incompatibility-refuted :
      (usable : List Observable) (h : Hypothesis S)
      → Fresh [] usable
      → hard_incompatibility h usable ≡ ok (refuted usable h)
  unfolding hard_incompatibility incompatible Expectations.hard_incompatibility observed_states
      refuted
  hard_incompatibility-refuted usable h f = elim (Option-cases h.observation_model) [
    | inl e ↦ rw (e, incompatible, refuted)
    | inr (m, e) ↦ rw (e, incompatible, refuted, usable_observables-Fresh usable f)
  ]

  pub eliminate-filter :
      (usable : List Observable) (hs : List (Hypothesis S))
      → Fresh [] usable
      → eliminate usable hs
        ≡ ok (filter (λ h. not (refuted usable h)) hs, filter (refuted usable) hs)
  unfolding eliminate filter
  eliminate-filter usable [] f = refl
  eliminate-filter usable (h ∷ hs) f =
      rw (hard_incompatibility-refuted usable h f, eliminate-filter usable hs f)
        (elim (Bool-cases (refuted usable h)) [ inl bad ↦ rw bad | inr good ↦ rw good ])
