-- ===== src/Rca/Builder/Partitioned.antt =====
-- The hypotheses of src/core/rca/structural_model.py in the partition of src/core/rca/partition.py.
use raglogs.Base.{
  String, ◌≡◌, refl, sym, ap, ◌∙◌, ◌≢◌, ◌⊎◌, inl, inr, Bool, true, false, Option, List, [], ◌∷◌,
  ◌++◌, Bool-cases, Option-cases, In, In-append,
}
use raglogs.Rca.Observable.{Observable}
use raglogs.Rca.Observable.Ids.{Fresh}
use raglogs.Rca.Partition.Classes.{partition_lem, usable-Fresh}
use raglogs.Rca.Partition.Build.{refuted, hard_incompatibility-refuted}
use raglogs.Rca.Builder.{ServiceSignal, EdgeSignal, UtilSignal, build_hypotheses}
use raglogs.Rca.Builder.Soft.{ok_inj, build_hypotheses-unrefuted}
use raglogs.Rca.Result.{ok, Result, value_error}
use raglogs.Rca.Partition.{
  find_id, distinct_from, UsabilityPolicy, usable_observations, EquivalenceClass, Partition,
  distinct, partition,
}
use mathlib.Core.Path.{subst}
use raglogs.Rca.Hypothesis.{hard_incompatibility as is_refuted, Hypothesis, hypothesis_eq}

no_members : {A : Type 0} (xs : List A) → ((a : A) → In a xs → ⊥) → xs ≡ []
no_members [] h = refl
no_members (x ∷ xs) h = absurd (h x (inl refl))

failed : {T : Type 0} (t : T) → ◌≡◌ {A = Result T} value_error (ok t) → ⊥
failed t e = cc

module _ {S : Type 0} (source_eq : Option S → Option S → Bool) where
  -- Only hypotheses that were given are kept.
  distinct_from-In :
      (kept hs out : List (Hypothesis S)) (h : Hypothesis S)
      → distinct_from source_eq kept hs ≡ ok out
      → In h out
      → In h kept ⊎ In h hs
  unfolding distinct_from
  distinct_from-In kept [] out h e i = inl (subst (In h) (sym (ok_inj kept out e)) i)
  distinct_from-In kept (x ∷ xs) out h e i = elim (Option-cases (find_id x.id kept)) [
    | inl fresh ↦
        elim (distinct_from-In (kept ++ x ∷ []) xs out h (rw (distinct_from, fresh) at e) i) [
          | inl j ↦ elim ((In-append h kept (x ∷ [])).0 j) [
            | inl old ↦ inl old
            | inr (inl new) ↦ inr (inl new)
            | inr (inr never) ↦ absurd never
          ]
          | inr later ↦ inr (inr later)
        ]
    | inr found ↦
        let (prev, f) = found in
        let again = rw (distinct_from, f) at e in
        elim (Bool-cases (hypothesis_eq prev x)) [
          | inr other ↦ absurd (failed out (rw other at again))
          | inl same ↦ elim (Bool-cases (source_eq prev.source x.source)) [
            | inr other ↦ absurd (failed out (rw (same, other) at again))
            | inl agreed ↦ elim (distinct_from-In kept xs out h (rw (same, agreed) at again) i) [
              | inl old ↦ inl old
              | inr later ↦ inr (inr later)
            ]
          ]
        ]
  ]

module _ {F : Type 0} {S : Type 0} (source_eq : Option S → Option S → Bool) where
  -- When the hypotheses are built and have one definition for each id, the observations name each
  -- coordinate once and there is a candidate, `partition` returns a partition that eliminates none and
  -- has every candidate in a class.
  pub build_hypotheses-partition :
      (signals : List (String × ServiceSignal F)) (edges : List (String × String))
      (edge_signals : List (EdgeSignal F)) (util_signals : List (UtilSignal F))
      (hs kept : List (Hypothesis S)) (os usable : List Observable) (policy : UsabilityPolicy)
      (h : Hypothesis S)
      → build_hypotheses signals edges edge_signals util_signals ≡ ok hs
      → usable_observations policy os ≡ ok usable
      → distinct source_eq hs ≡ ok kept
      → In h kept
      → (p : Partition S) × (partition source_eq hs os policy ≡ ok p)
        × (p.eliminated ≡ [])
        × ((c : EquivalenceClass S) × In c p.classes × In h c.members)
  unfolding distinct
  build_hypotheses-partition signals edges edge_signals util_signals hs kept os usable policy h b u
        d i =
      let (p, e, x) = partition_lem source_eq hs kept os usable policy h u d i in
      let given : (g : Hypothesis S) → In g kept → In g hs = λ g j.
        elim (distinct_from-In source_eq [] hs kept g d j) [
          | inl never ↦ absurd never
          | inr k ↦ k
        ] in
      let safe : (g : Hypothesis S) → In g kept → is_refuted g usable ≢ ok true = λ g j.
        build_hypotheses-unrefuted signals edges edge_signals util_signals hs g usable b
          (given g j) in
      (
        p,
        e,
        no_members p.eliminated (λ g j. let (k, r) = (x.eliminated g).0 j in safe g k r),
        x.covers h i (sound h (usable-Fresh policy os usable u) (safe h i)),
      )
    where
      sound :
          (g : Hypothesis S)
          → Fresh [] usable
          → is_refuted g usable ≢ ok true
          → is_refuted g usable ≡ ok false
      sound g f n = elim (Bool-cases (refuted usable g)) [
        | inl bad ↦ absurd (n (hard_incompatibility-refuted usable g f ∙ ap (λ r. ok r) bad))
        | inr good ↦ hard_incompatibility-refuted usable g f ∙ ap (λ r. ok r) good
      ]
