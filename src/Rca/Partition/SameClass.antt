-- ===== src/Rca/Partition/SameClass.antt =====
-- Which hypotheses share a class, in what `partition` of src/core/rca/partition.py returns.
use raglogs.Base.{◌≡◌, refl, sym, ap, ◌∙◌, ◌↔◌, inl, Bool, Option, List, [], ◌∷◌, In}
use raglogs.Rca.Result.{ok, ok-injective}
use raglogs.Rca.Expectations.{is_empty}
use raglogs.Rca.Observable.{Observable}
use raglogs.Rca.Hypothesis.{Hypothesis}
use raglogs.Rca.Partition.{
  UsabilityPolicy, usable_observations, sorted_ids, EquivalenceClass, Partition, signature,
  distinct, partition,
}
use raglogs.Rca.Partition.Classes.{IsPartition, partition_lem}

module _ {S : Type 0} where
  same_class :
      (usable : List Observable) (kept : List (Hypothesis S)) (p : Partition S)
      (c d : EquivalenceClass S) (g h : Hypothesis S)
      → IsPartition usable kept p
      → In c p.classes
      → In d p.classes
      → In g c.members
      → In h d.members
      → (c ≡ d) ↔ (signature (sorted_ids usable) g ≡ signature (sorted_ids usable) h)
  same_class usable kept p c d g h good ic id_ mg mh =
      let sg = ((good.members c g ic).0 mg).2 in
      let sh = ((good.members d h id_).0 mh).2 in
      (
        λ e. sym sg ∙ ap (λ (x : EquivalenceClass S). x.signature) e ∙ sh,
        λ e. good.unique c d ic id_ (sg ∙ e ∙ sym sh),
      )

  -- A partition that is returned was made of usable observations and of at least one hypothesis.
  partition-IsPartition :
      (source_eq : Option S → Option S → Bool) (hypotheses kept : List (Hypothesis S))
      (os usable : List Observable) (policy : UsabilityPolicy) (p : Partition S)
      → usable_observations policy os ≡ ok usable
      → distinct source_eq hypotheses ≡ ok kept
      → partition source_eq hypotheses os policy ≡ ok p
      → IsPartition usable kept p
  unfolding partition is_empty
  partition-IsPartition source_eq hypotheses [] os usable policy p u d r =
      absurd (cc (rw (partition, u, d) at r))
  partition-IsPartition source_eq hypotheses (h ∷ kept) os usable policy p u d r =
      let (q, made, good) =
        partition_lem source_eq hypotheses (h ∷ kept) os usable policy h u d (inl refl) in
      let same : q ≡ p = ok-injective (sym made ∙ r) in rw (← same) good

  -- In a partition that `partition` returns, two members stand in one class exactly when their
  -- signatures over the usable ids are equal.
  pub same_class_iff :
      (source_eq : Option S → Option S → Bool) (hypotheses kept : List (Hypothesis S))
      (os usable : List Observable) (policy : UsabilityPolicy) (p : Partition S)
      (c d : EquivalenceClass S) (g h : Hypothesis S)
      → usable_observations policy os ≡ ok usable
      → distinct source_eq hypotheses ≡ ok kept
      → partition source_eq hypotheses os policy ≡ ok p
      → In c p.classes
      → In d p.classes
      → In g c.members
      → In h d.members
      → (c ≡ d) ↔ (signature (sorted_ids usable) g ≡ signature (sorted_ids usable) h)
  same_class_iff source_eq hypotheses kept os usable policy p c d g h u e r =
      same_class usable kept p c d g h
        (partition-IsPartition source_eq hypotheses kept os usable policy p u e r)
