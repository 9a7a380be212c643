-- ===== src/Rca/Partition/Classes.antt =====
-- What `partition` of src/core/rca/partition.py returns.
use raglogs.Base.{
  In-sorted, tally, tally-map, tally-sorted, sorted, filter, ◌≤◌, ◌≡◌, refl, sym, ap, ◌∙◌, ◌↔◌, inl,
  inr, Bool, true, false, not, ◌&&◌, Option, List, [], ◌∷◌, map, arith, Bool-cases, In, In-filter,
  In-map, map-In,
}
use raglogs.Rca.Partition.Once.{group-once}
use raglogs.Rca.Result.{ok, >>=-eq-ok, ok-injective}
use raglogs.Rca.Observable.{Observable, usable_observables, is_usable}
use raglogs.Rca.Observable.Ids.{Fresh, Fresh-filter, usable_observables-eq-ok}
use raglogs.Rca.Expectations.{is_empty}
use raglogs.Rca.Hypothesis.{Hypothesis, hard_incompatibility}
use raglogs.Rca.Partition.{
  UsabilityPolicy, usable_observations, sorted_ids, Signature, EquivalenceClass, Partition,
  signature, check_partition, distinct, Group, group, by_hypothesis_id, by_signature,
  by_observable_id, partition, is_trusted, signature_eq,
}
use raglogs.Rca.Partition.Grouping.{Filed, Filed-group, group_unique, group-Populated}
use raglogs.Rca.Partition.Build.{
  class_of, refuted, hard_incompatibility-refuted, is_empty-In, make_classes-populated,
  Populated-In, eliminate-filter,
}

pub Fresh-usable_observations :
    (policy : UsabilityPolicy) (os usable : List Observable)
    → usable_observations policy os ≡ ok usable
    → Fresh [] os × (usable ≡ filter (is_trusted policy) (filter is_usable os))
unfolding usable_observations
Fresh-usable_observations policy os usable h =
    let (xs, e, f) =
      >>=-eq-ok (usable_observables os) (λ xs. ok (filter (is_trusted policy) xs)) h in
    let (fresh, same) = usable_observables-eq-ok os xs e in
    (fresh, sym (ok-injective f) ∙ ap (filter (is_trusted policy)) same)

pub usable-Fresh :
    (policy : UsabilityPolicy) (os usable : List Observable)
    → usable_observations policy os ≡ ok usable
    → Fresh [] usable
usable-Fresh policy os usable h =
    let (fresh, same) = Fresh-usable_observations policy os usable h in
    rw same (
      Fresh-filter (is_trusted policy) [] (filter is_usable os)
        (Fresh-filter is_usable [] os fresh))

module _ {S : Type 0} (usable : List Observable) (kept : List (Hypothesis S)) where
  survivors : List (Hypothesis S)
  survivors = filter (λ h. not (refuted usable h)) kept

  groups : List (Group S)
  groups = group (sorted_ids usable) [] survivors

  built : Partition S
  built = record {
    classes = map (class_of (sorted_ids usable)) (sorted by_signature groups);
    usable = sorted by_observable_id usable;
    eliminated = sorted by_hypothesis_id (filter (refuted usable) kept);
  }

  In-class :
      (c : EquivalenceClass S)
      → In c built.classes
      → (g : Group S) × In g groups × (c ≡ class_of (sorted_ids usable) g)
  unfolding built
  In-class c i =
      let (g, j, e) = In-map (class_of (sorted_ids usable)) c (sorted by_signature groups) i in
      (g, (In-sorted by_signature g groups).0 j, e)

  group-In : (g : Group S) → In g groups → In (class_of (sorted_ids usable) g) built.classes
  unfolding built
  group-In g i =
      map-In (class_of (sorted_ids usable)) g (sorted by_signature groups)
        ((In-sorted by_signature g groups).1 i)

  Filed-In :
      (h : Hypothesis S) (g : Group S) (gs : List (Group S)) → In g gs → In h g.1 → Filed h g.0 gs
  Filed-In h g [] i j = absurd i
  Filed-In h g (x ∷ gs) (inl e) j =
      inl (ap (λ (k : Group S). k.0) e, rw (← ap (λ (k : Group S). k.1) e) j)
  Filed-In h g (x ∷ gs) (inr i) j = inr (Filed-In h g gs i j)

  In-Filed :
      (h : Hypothesis S) (s : Signature) (gs : List (Group S))
      → Filed h s gs
      → (g : Group S) × In g gs × (s ≡ g.0) × In h g.1
  In-Filed h s [] f = absurd f
  In-Filed h s (x ∷ gs) (inl f) = (x, inl refl, f.0, f.1)
  In-Filed h s (x ∷ gs) (inr f) = let (g, i, e, j) = In-Filed h s gs f in (g, inr i, e, j)

  In-survivors : (h : Hypothesis S) → In h survivors ↔ (In h kept × (refuted usable h ≡ false))
  unfolding survivors
  In-survivors h =
      let f = In-filter (λ h. not (refuted usable h)) h kept in
      (λ i. ((f.0 i).0, not_true _ (f.0 i).1), λ r. f.1 (r.0, rw r.1))
    where
      not_true : (b : Bool) → not b ≡ true → b ≡ false
      not_true true e = cc
      not_true false e = refl

  -- the members of a class, by the group that it was made of
  group-members :
      (g : Group S) (h : Hypothesis S)
      → In g groups
      → In h g.1 ↔ (In h survivors × (g.0 ≡ signature (sorted_ids usable) h))
  unfolding groups
  group-members g h i =
      let f = Filed-group (sorted_ids usable) h g.0 survivors in
      (
        λ j. f.0 (Filed-In h g groups i j),
        λ r.
            let (k, ik, e, j) = In-Filed h g.0 groups (f.1 r) in
            rw (group_unique (sorted_ids usable) survivors g k i ik e) j,
      )

-- The classes are exactly the classes of equal signatures, over the usable ids, of the hypotheses
-- that no usable observation contradicts, with one class at most for a signature; the eliminated
-- are the others.
pub record IsPartition {S : Type 0} (usable : List Observable) (kept : List (Hypothesis S))
    (p : Partition S) : Type 0 where
  pub members :
      (c : EquivalenceClass S) (h : Hypothesis S)
      → In c p.classes
      → In h c.members ↔ (
          In h kept
          × (hard_incompatibility h usable ≡ ok false)
          × (c.signature ≡ signature (sorted_ids usable) h))
  pub covers :
      (h : Hypothesis S)
      → In h kept
      → hard_incompatibility h usable ≡ ok false
      → (c : EquivalenceClass S) × In c p.classes × In h c.members
  pub unique :
      (c d : EquivalenceClass S)
      → In c p.classes
      → In d p.classes
      → c.signature ≡ d.signature
      → c ≡ d
  pub once : (s : Signature) → tally (λ c. signature_eq c.signature s) p.classes ≤ 1
  pub eliminated :
      (h : Hypothesis S)
      → In h p.eliminated ↔ (In h kept × (hard_incompatibility h usable ≡ ok true))
  pub snapshot : (o : Observable) → In o p.usable ↔ In o usable

both_empty :
    {A B : Type 0} (xs : List A) (ys : List B)
    → is_empty xs && is_empty ys ≡ true
    → (xs ≡ []) × (ys ≡ [])
unfolding is_empty
both_empty [] [] h = (refl, refl)
both_empty [] (y ∷ ys) h = absurd (cc)
both_empty (x ∷ xs) ys h = absurd (cc)

module _ {S : Type 0} where
  refuted-eq :
      (usable : List Observable) (h : Hypothesis S) (b : Bool)
      → Fresh [] usable
      → (hard_incompatibility h usable ≡ ok b) ↔ (refuted usable h ≡ b)
  refuted-eq usable h b f =
      let e = hard_incompatibility-refuted usable h f in
      (λ p. ok-injective (sym e ∙ p), λ p. e ∙ ap ok p)

  built-IsPartition :
      (usable : List Observable) (kept : List (Hypothesis S))
      → Fresh [] usable
      → IsPartition usable kept (built usable kept)
  built-IsPartition usable kept fresh = record {
    members = λ c h i.
        let (g, j, e) = In-class usable kept c i in
        let m = group-members usable kept g h j in
        let s = In-sorted by_hypothesis_id h g.1 in
        let alive = In-survivors usable kept h in
        rw e (
          λ k.
              let (was, sig) = m.0 (s.0 k) in
              ((alive.0 was).0, (refuted-eq usable h false fresh).1 (alive.0 was).1, sig),
          λ r. s.1 (m.1 (alive.1 (r.0, (refuted-eq usable h false fresh).0 r.1), r.2)),
        );
    covers = λ h k good.
        let was = (In-survivors usable kept h).1 (k, (refuted-eq usable h false fresh).0 good) in
        let f =
          (Filed-group (sorted_ids usable) h (signature (sorted_ids usable) h)
              (survivors usable kept)).1
            (was, refl) in
        let (g, i, e, j) =
          In-Filed usable kept h (signature (sorted_ids usable) h) (groups usable kept)
            (unfold groups in f) in
        (
          class_of (sorted_ids usable) g,
          group-In usable kept g i,
          (In-sorted by_hypothesis_id h g.1).1 j,
        );
    unique = λ c d i j e.
        let (f, k, ec) = In-class usable kept c i in
        let (g, l, ed) = In-class usable kept d j in
        let same : f.0 ≡ g.0 =
          sym (ap (λ (x : EquivalenceClass S). x.signature) ec)
          ∙ e
          ∙ ap (λ (x : EquivalenceClass S). x.signature) ed in
        ec
        ∙ ap (class_of (sorted_ids usable)) (
            group_unique (sorted_ids usable) (survivors usable kept) f g (unfold groups in k)
              (unfold groups in l) same)
        ∙ sym ed;
    once = λ s. once_each s;
    eliminated = λ h. eliminated_iff h;
    snapshot = λ o. unfold built in In-sorted by_observable_id o usable;
  }
    where
      once_each :
          (s : Signature) → tally (λ c. signature_eq c.signature s) (built usable kept).classes ≤ 1
      once_each s =
          let found = groups usable kept in
          unfold built groups in
          omega (
            arith,
            tally-map (λ c. signature_eq c.signature s) (class_of (sorted_ids usable))
                (sorted by_signature found),
            tally-sorted by_signature (λ g. signature_eq g.0 s) found,
            group-once (sorted_ids usable) s (survivors usable kept),
          )

      eliminated_iff :
          (h : Hypothesis S)
          → In h (built usable kept).eliminated
            ↔ (In h kept × (hard_incompatibility h usable ≡ ok true))
      eliminated_iff h =
          let s = In-sorted by_hypothesis_id h (filter (refuted usable) kept) in
          let f = In-filter (refuted usable) h kept in
          let r = refuted-eq usable h true fresh in
          unfold built in
          (λ i. ((f.0 (s.0 i)).0, r.1 (f.0 (s.0 i)).1), λ q. s.1 (f.1 (q.0, r.0 q.1)))

  -- With a hypothesis kept, the checks of `Partition.__post_init__` pass.
  check_partition-built :
      (usable : List Observable) (kept : List (Hypothesis S)) (h : Hypothesis S)
      → Fresh [] usable
      → In h kept
      → check_partition (built usable kept) ≡ ok (built usable kept)
  unfolding check_partition
  check_partition-built usable kept h fresh i =
      elim (Bool-cases
        (is_empty (built usable kept).classes && is_empty (built usable kept).eliminated)) [
          | inl none_ ↦ absurd (nobody (both_empty _ _ none_))
          | inr some_ ↦ rw some_
        ]
    where
      nobody : ((built usable kept).classes ≡ []) × ((built usable kept).eliminated ≡ []) → ⊥
      nobody e =
          let p = built-IsPartition usable kept fresh in
          elim (Bool-cases (refuted usable h)) [
            | inl bad ↦ rw e.1 at ((p.eliminated h).1 (i, (refuted-eq usable h true fresh).1 bad))
            | inr good ↦
                let (c, j, m) = p.covers h i ((refuted-eq usable h false fresh).1 good) in
                rw e.0 at j
          ]

  group-nonempty :
      (usable : List Observable) (kept : List (Hypothesis S)) (g : Group S)
      → In g (groups usable kept)
      → is_empty g.1 ≡ false
  unfolding groups
  group-nonempty usable kept g i =
      Populated-In (groups usable kept) g
        (group-Populated (sorted_ids usable) [] (survivors usable kept) tt) i

  partition-built :
      (source_eq : Option S → Option S → Bool) (hypotheses kept : List (Hypothesis S))
      (os usable : List Observable) (policy : UsabilityPolicy) (h : Hypothesis S)
      → usable_observations policy os ≡ ok usable
      → distinct source_eq hypotheses ≡ ok kept
      → In h kept
      → partition source_eq hypotheses os policy ≡ ok (built usable kept)
  unfolding partition built groups survivors
  partition-built source_eq hypotheses kept os usable policy h u d i =
      let fresh = usable-Fresh policy os usable u in
      rw
        (
          u,
          d,
          is_empty-In h kept i,
          eliminate-filter usable kept fresh,
          make_classes-populated (sorted_ids usable) (sorted by_signature (groups usable kept))
              (λ g j.
                group-nonempty usable kept g ((In-sorted by_signature g (groups usable kept)).0 j)),
        )
        (check_partition-built usable kept h fresh i)

  -- When the observations name each coordinate once and the hypotheses have one definition for each
  -- id, of which there is at least one, `partition` returns: its classes are exactly the classes of
  -- equal signatures over the usable ids, of the hypotheses that no usable observation contradicts,
  -- no signature with two classes, and the eliminated are exactly the contradicted ones.
  pub partition_lem :
      (source_eq : Option S → Option S → Bool) (hypotheses kept : List (Hypothesis S))
      (os usable : List Observable) (policy : UsabilityPolicy) (h : Hypothesis S)
      → usable_observations policy os ≡ ok usable
      → distinct source_eq hypotheses ≡ ok kept
      → In h kept
      → (p : Partition S) × (partition source_eq hypotheses os policy ≡ ok p)
        × IsPartition usable kept p
  partition_lem source_eq hypotheses kept os usable policy h u d i = (
    built usable kept,
    partition-built source_eq hypotheses kept os usable policy h u d i,
    built-IsPartition usable kept (usable-Fresh policy os usable u),
  )
