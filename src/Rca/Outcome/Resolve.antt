-- ===== src/Rca/Outcome/Resolve.antt =====
-- `resolve` of src/core/rca/outcome.py: the packet that it builds passes its own checks.
use raglogs.Base.{
  In-sorted, sorted, any, str_mem, String, ◌≡◌, refl, ap, ◌∙◌, inl, inr, true, false, ◌&&◌, List,
  [], ◌∷◌, map, Bool-cases, Option-cases, In, In-map,
}
use raglogs.Rca.Result.{ok}
use raglogs.Rca.Observable.{lookup, Observable, integration_gaps}
use raglogs.Rca.Expectations.{contradicts, Contradiction, is_empty, states}
use raglogs.Rca.Hypothesis.{Hypothesis}
use raglogs.Rca.Partition.{EquivalenceClass, Partition, f_usable}
use raglogs.Rca.Outcome.Equality.{
  all_of-In, texts_eq_refl, checks_eq_refl, outcome_eq_refl, same_texts_refl,
}
use raglogs.Rca.Outcome.{
  no_compatible_hypothesis, of_class, classify_classes, ClassView, check_view, expected_outcome,
  outcome_eq, member_view, class_evidence, elimination_checks, class_view, class_views,
  EliminatedView, has_evidence, cites, classify, StructuralResult, summary_localization,
  union_d_missing, union_checks, check_result, eliminated_view, resolve, EvidenceItem,
  contradictions_of, eliminating, by_item_id,
}

eliminating-fires :
    (facts : List (String × String)) (rules : List Contradiction)
    → any (contradicts facts) rules ≡ true
    → (item : EvidenceItem) × In item (eliminating facts rules)
unfolding any contradicts eliminating
eliminating-fires facts [] h = absurd (cc)
eliminating-fires facts (c ∷ rules) h = elim (Option-cases (lookup c.observable_id facts)) [
  | inl unseen ↦
      rw (eliminating, unseen) (eliminating-fires facts rules (rw (any, contradicts, unseen) at h))
  | inr (state, seen) ↦ elim (Bool-cases (str_mem state c.states)) [
    | inl hit ↦ rw (eliminating, seen, hit) (_, inl refl)
    | inr miss ↦
        rw (eliminating, seen, miss)
          (eliminating-fires facts rules (rw (any, contradicts, seen, miss) at h))
  ]
]

not_empty : {A : Type 0} (x : A) (xs : List A) → In x xs → is_empty xs ≡ false
unfolding is_empty
not_empty x [] i = absurd i
not_empty x (y ∷ ys) i = refl

is_empty-map : {A B : Type 0} (f : A → B) (xs : List A) → is_empty (map f xs) ≡ is_empty xs
unfolding is_empty
is_empty-map f [] = refl
is_empty-map f (x ∷ xs) = refl

module _ {S : Type 0} where
  -- the view of a class that has members
  view : List String → List (String × String) → EquivalenceClass S → ClassView
  view usable facts c = record {
    members = map member_view c.members;
    signature = c.signature;
    d_missing = c.d_missing;
    evidence = class_evidence facts c.signature;
    elimination_checks = elimination_checks usable c;
  }

  class_view-populated :
      (usable : List String) (facts : List (String × String)) (c : EquivalenceClass S)
      → is_empty c.members ≡ false
      → class_view usable facts c ≡ ok (view usable facts c)
  unfolding class_view check_view view is_empty
  class_view-populated usable facts c h = rw (is_empty-map member_view c.members, h) refl

  class_views-populated :
      (usable : List String) (facts : List (String × String)) (cs : List (EquivalenceClass S))
      → ((c : EquivalenceClass S) → In c cs → is_empty c.members ≡ false)
      → class_views usable facts cs ≡ ok (map (view usable facts) cs)
  unfolding class_views
  class_views-populated usable facts [] h = refl
  class_views-populated usable facts (c ∷ cs) h =
      rw
        (
          class_view-populated usable facts c (h c (inl refl)),
          class_views-populated usable facts cs (λ d i. h d (inr i)),
        )
        refl

  of_class-view :
      (ms : List (Hypothesis S)) (missing : List String)
      → of_class (map member_view ms) missing ≡ of_class ms missing
  unfolding of_class
  of_class-view [] [] = refl
  of_class-view [] (f ∷ fs) = refl
  of_class-view (m ∷ []) missing = refl
  of_class-view (m ∷ n ∷ ms) [] = refl
  of_class-view (m ∷ n ∷ ms) (f ∷ fs) = refl

  expected_outcome-views :
      (usable : List String) (facts : List (String × String)) (cs : List (EquivalenceClass S))
      → expected_outcome (map (view usable facts) cs) ≡ classify_classes cs
  unfolding expected_outcome classify_classes view
  expected_outcome-views usable facts [] = refl
  expected_outcome-views usable facts (c ∷ []) = of_class-view c.members c.d_missing
  expected_outcome-views usable facts (c ∷ d ∷ cs) = refl

  outcome_eq-some :
      (c : EquivalenceClass S) (cs : List (EquivalenceClass S))
      → outcome_eq (classify_classes (c ∷ cs)) no_compatible_hypothesis ≡ false
  unfolding classify_classes of_class outcome_eq
  outcome_eq-some c (d ∷ cs) = refl
  outcome_eq-some c [] = outcome_eq-of_class c.members c.d_missing
    where
      outcome_eq-of_class :
          (ms : List (Hypothesis S)) (missing : List String)
          → outcome_eq (of_class ms missing) no_compatible_hypothesis ≡ false
      outcome_eq-of_class [] [] = refl
      outcome_eq-of_class [] (f ∷ fs) = refl
      outcome_eq-of_class (m ∷ []) missing = refl
      outcome_eq-of_class (m ∷ n ∷ ms) [] = refl
      outcome_eq-of_class (m ∷ n ∷ ms) (f ∷ fs) = refl

  cites-views :
      (cs : List (EquivalenceClass S)) (views : List EliminatedView)
      → is_empty cs && is_empty views ≡ false
      → ((v : EliminatedView) → In v views → has_evidence v ≡ true)
      → cites (classify_classes cs) views ≡ true
  unfolding cites is_empty classify_classes outcome_eq
  cites-views [] views some_ evident = rw (some_, all_of-In has_evidence views evident) refl
  cites-views (c ∷ cs) views some_ evident = rw (outcome_eq-some c cs) refl

  signature-view :
      (usable : List String) (facts : List (String × String)) (cs : List (EquivalenceClass S))
      → map (λ (v : ClassView). v.signature) (map (view usable facts) cs)
        ≡ map (λ (c : EquivalenceClass S). c.signature) cs
  unfolding view
  signature-view usable facts [] = refl
  signature-view usable facts (c ∷ cs) =
      ap (λ ss. c.signature ∷ ss) (signature-view usable facts cs)

  member-eliminated_view :
      (facts : List (String × String)) (hs : List (Hypothesis S))
      → map (λ (v : EliminatedView). v.member) (map (eliminated_view facts) hs) ≡ map member_view hs
  unfolding eliminated_view
  member-eliminated_view facts [] = refl
  member-eliminated_view facts (h ∷ hs) =
      ap (λ ms. member_view h ∷ ms) (member-eliminated_view facts hs)

  -- A contradiction that the usable states fulfil is cited.
  has_evidence-view :
      (facts : List (String × String)) (h : Hypothesis S)
      → any (contradicts facts) (contradictions_of h.observation_model) ≡ true
      → has_evidence (eliminated_view facts h) ≡ true
  unfolding has_evidence eliminated_view is_empty
  has_evidence-view facts h fires =
      let rules = contradictions_of h.observation_model in
      let (item, i) = eliminating-fires facts rules fires in
      rw
        (not_empty item (sorted by_item_id (eliminating facts rules))
          ((In-sorted by_item_id item (eliminating facts rules)).1 i))
        refl

  -- Of a partition with a class or an eliminated hypothesis, whose classes have members and whose
  -- eliminated hypotheses are contradicted by the usable states, and of observations that name each
  -- coordinate once, `resolve` builds a packet that passes its own checks: the outcome is the label
  -- of the partition, and there is one view for each class and each eliminated hypothesis.
  pub resolve-total :
      (p : Partition S) (observations : List Observable) (gaps : List String)
      → is_empty p.classes && is_empty p.eliminated ≡ false
      → ((c : EquivalenceClass S) → In c p.classes → is_empty c.members ≡ false)
      → ((h : Hypothesis S)
          → In h p.eliminated
          → any (contradicts (states p.usable)) (contradictions_of h.observation_model) ≡ true)
      → integration_gaps observations ≡ ok gaps
      → (r : StructuralResult) × (resolve p observations ≡ ok r)
        × (r.outcome ≡ classify p)
        × (map (λ (v : ClassView). v.signature) r.classes
            ≡ map (λ (c : EquivalenceClass S). c.signature) p.classes)
        × (map (λ (v : EliminatedView). v.member) r.eliminated ≡ map member_view p.eliminated)
        × (r.integration_gaps ≡ gaps)
  unfolding resolve check_result classify
  resolve-total p observations gaps some_ populated refuted g =
      let facts = states p.usable in
      let views = map (view (f_usable p) facts) p.classes in
      let gone = map (eliminated_view facts) p.eliminated in
      let cited =
        cites-views p.classes gone
          (ap (λ b. is_empty p.classes && b) (is_empty-map (eliminated_view facts) p.eliminated)
            ∙ some_)
          (λ v i.
            let (h, j, e) = In-map (eliminated_view facts) v p.eliminated i in
            rw e (has_evidence-view facts h (refuted h j))) in
      (
        record {
          outcome = classify p;
          localization = summary_localization views;
          classes = views;
          d_missing = union_d_missing views;
          potential_elimination_checks = union_checks views;
          eliminated = gone;
          integration_gaps = gaps;
        },
        rw
            (
              class_views-populated (f_usable p) facts p.classes populated,
              g,
              expected_outcome-views (f_usable p) facts p.classes,
              outcome_eq_refl (classify_classes p.classes),
              texts_eq_refl (summary_localization views),
              same_texts_refl (union_d_missing views),
              checks_eq_refl (union_checks views),
              cited,
            )
            refl,
        refl,
        signature-view (f_usable p) facts p.classes,
        member-eliminated_view facts p.eliminated,
        refl,
      )
