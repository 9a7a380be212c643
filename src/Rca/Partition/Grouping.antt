-- ===== src/Rca/Partition/Grouping.antt =====
-- The grouping of the survivors by signature in `partition`, src/core/rca/partition.py.
use raglogs.Base.{
  eq_iff, String, ◌≡◌, refl, sym, ap, ◌∙◌, ◌↔◌, ◌⊎◌, inl, inr, true, false, List, [], ◌∷◌, map,
  arith, Bool-cases, In, In-append, map-In,
}
use raglogs.Rca.Expectations.{is_empty}
use raglogs.Rca.Hypothesis.{Hypothesis}
use raglogs.Rca.Partition.{Signature, Group, signature, signature_eq, append_to, group}

pub signature_eq_iff : (s t : Signature) → (signature_eq s t ≡ true) ↔ (s ≡ t)
unfolding signature_eq
signature_eq_iff [] [] = (λ _. refl, λ _. refl)
signature_eq_iff [] (p ∷ t) = (λ h. absurd (cc), λ h. absurd (cc))
signature_eq_iff (p ∷ s) [] = (λ h. absurd (cc), λ h. absurd (cc))
signature_eq_iff ((f, v) ∷ s) ((g, w) ∷ t) = (
  λ h. ground (arith, eq_iff f g, eq_iff v w, signature_eq_iff s t),
  λ h. ground (arith, eq_iff f g, eq_iff v w, signature_eq_iff s t),
)

module _ {S : Type 0} where
  -- `h` stands in the group of the signature `s`.
  abbrev pub Filed : Hypothesis S → Signature → List (Group S) → Type 0
  Filed h s [] = ⊥
  Filed h s ((t, hs) ∷ groups) = ((s ≡ t) × In h hs) ⊎ Filed h s groups

  Filed-append_to :
      (g h : Hypothesis S) (s t : Signature) (groups : List (Group S))
      → Filed g t (append_to s h groups) ↔ (Filed g t groups ⊎ ((g ≡ h) × (t ≡ s)))
  unfolding append_to
  Filed-append_to g h s t [] = (
    λ f. elim f [
      | inl here ↦ elim here.1 [ inl e ↦ inr (e, here.0) | inr no_ ↦ absurd no_ ]
      | inr no_ ↦ absurd no_
    ],
    λ f. elim f [ inl no_ ↦ absurd no_ | inr e ↦ inl (e.1, inl e.0) ],
  )
  Filed-append_to g h s t ((u, hs) ∷ groups) = elim (Bool-cases (signature_eq u s)) [
    | inl same ↦
        let at_end = In-append g hs (h ∷ []) in
        let us = (signature_eq_iff u s).0 same in
        rw same (
          λ f. elim f [
            | inl here ↦ elim (at_end.0 here.1) [
              | inl old ↦ inl (inl (here.0, old))
              | inr new ↦ elim new [ inl e ↦ inr (e, here.0 ∙ us) | inr no_ ↦ absurd no_ ]
            ]
            | inr later ↦ inl (inr later)
          ],
          λ f. elim f [
            | inl old ↦ elim old [
              | inl here ↦ inl (here.0, at_end.1 (inl here.1))
              | inr later ↦ inr later
            ]
            | inr e ↦ inl (e.1 ∙ sym us, at_end.1 (inr (inl e.0)))
          ],
        )
    | inr other ↦
        let ih = Filed-append_to g h s t groups in
        rw other (
          λ f. elim f [
            | inl here ↦ inl (inl here)
            | inr later ↦ elim (ih.0 later) [ inl old ↦ inl (inr old) | inr e ↦ inr e ]
          ],
          λ f. elim f [
            | inl old ↦ elim old [ inl here ↦ inl here | inr later ↦ inr (ih.1 (inl later)) ]
            | inr e ↦ inr (ih.1 (inr e))
          ],
        )
  ]

  Filed-group_from :
      (usable : List String) (g : Hypothesis S) (t : Signature) (groups : List (Group S))
      (hs : List (Hypothesis S))
      → Filed g t (group usable groups hs)
        ↔ (Filed g t groups ⊎ (In g hs × (t ≡ signature usable g)))
  unfolding group
  Filed-group_from usable g t groups [] =
      (λ f. inl f, λ f. elim f [ inl old ↦ old | inr no_ ↦ absurd no_.0 ])
  Filed-group_from usable g t groups (h ∷ hs) =
      let ih = Filed-group_from usable g t (append_to (signature usable h) h groups) hs in
      let step = Filed-append_to g h (signature usable h) t groups in
      (
        λ f. elim (ih.0 f) [
          | inl now ↦ elim (step.0 now) [
            | inl old ↦ inl old
            | inr e ↦ inr (inl e.0, e.1 ∙ ap (signature usable) (sym e.0))
          ]
          | inr later ↦ inr (inr later.0, later.1)
        ],
        λ f. elim f [
          | inl old ↦ ih.1 (inl (step.1 (inl old)))
          | inr e ↦ elim e.0 [
            | inl here ↦ ih.1 (inl (step.1 (inr (here, e.1 ∙ ap (signature usable) here))))
            | inr later ↦ ih.1 (inr (later, e.1))
          ]
        ],
      )

  -- A hypothesis stands in a group exactly when it was grouped and has the group's signature.
  pub Filed-group :
      (usable : List String) (g : Hypothesis S) (t : Signature) (hs : List (Hypothesis S))
      → Filed g t (group usable [] hs) ↔ (In g hs × (t ≡ signature usable g))
  Filed-group usable g t hs =
      let h = Filed-group_from usable g t [] hs in
      (λ f. elim (h.0 f) [ inl no_ ↦ absurd no_ | inr r ↦ r ], λ r. h.1 (inr r))

  abbrev pub signatures : List (Group S) → List Signature
  signatures = map (λ g. g.0)

  -- No signature has two groups.
  abbrev pub Apart : List (Group S) → Type 0
  Apart [] = Unit
  Apart (g ∷ groups) = (¬ In g.0 (signatures groups)) × Apart groups

  signatures-append_to :
      (s t : Signature) (h : Hypothesis S) (groups : List (Group S))
      → In t (signatures (append_to s h groups))
      → In t (signatures groups) ⊎ (t ≡ s)
  unfolding append_to
  signatures-append_to s t h [] f = elim f [ inl e ↦ inr e | inr no_ ↦ absurd no_ ]
  signatures-append_to s t h ((u, hs) ∷ groups) f = elim (Bool-cases (signature_eq u s)) [
    | inl same ↦ inl (rw (same, append_to) at f)
    | inr other ↦ elim (rw (other, append_to) at f) [
      | inl e ↦ inl (inl e)
      | inr later ↦ elim (signatures-append_to s t h groups later) [
        | inl old ↦ inl (inr old)
        | inr e ↦ inr e
      ]
    ]
  ]

  append_to-Apart :
      (s : Signature) (h : Hypothesis S) (groups : List (Group S))
      → Apart groups
      → Apart (append_to s h groups)
  unfolding append_to
  append_to-Apart s h [] a = (λ i. i, tt)
  append_to-Apart s h ((u, hs) ∷ groups) a = elim (Bool-cases (signature_eq u s)) [
    | inl same ↦ rw same a
    | inr other ↦ rw other (
      λ i. elim (signatures-append_to s u h groups i) [
        | inl old ↦ a.0 old
        | inr e ↦ absurd (clash u s ((signature_eq_iff u s).1 e) other)
      ],
      append_to-Apart s h groups a.1,
    )
  ]
    where
      clash : (u s : Signature) → signature_eq u s ≡ true → signature_eq u s ≡ false → ⊥
      clash u s p q = cc

  pub group-Apart_from :
      (usable : List String) (groups : List (Group S)) (hs : List (Hypothesis S))
      → Apart groups
      → Apart (group usable groups hs)
  unfolding group
  group-Apart_from usable groups [] a = a
  group-Apart_from usable groups (h ∷ hs) a =
      group-Apart_from usable (append_to (signature usable h) h groups) hs
        (append_to-Apart (signature usable h) h groups a)

  Apart-unique :
      (groups : List (Group S)) (f g : Group S)
      → Apart groups
      → In f groups
      → In g groups
      → f.0 ≡ g.0
      → f ≡ g
  Apart-unique [] f g a i j e = absurd i
  Apart-unique (x ∷ groups) f g a (inl p) (inl q) e = p ∙ sym q
  Apart-unique (x ∷ groups) f g a (inl p) (inr j) e =
      absurd
        (a.0 (rw (← ap (λ (k : Group S). k.0) p, e) (map-In (λ (k : Group S). k.0) g groups j)))
  Apart-unique (x ∷ groups) f g a (inr i) (inl q) e =
      absurd
        (a.0 (rw (← ap (λ (k : Group S). k.0) q, ← e) (map-In (λ (k : Group S). k.0) f groups i)))
  Apart-unique (x ∷ groups) f g a (inr i) (inr j) e = Apart-unique groups f g a.1 i j e

  -- Two groups with one signature are one group.
  pub group_unique :
      (usable : List String) (hs : List (Hypothesis S)) (f g : Group S)
      → In f (group usable [] hs)
      → In g (group usable [] hs)
      → f.0 ≡ g.0
      → f ≡ g
  group_unique usable hs f g i j e =
      Apart-unique (group usable [] hs) f g (group-Apart_from usable [] hs tt) i j e

  -- No group is empty.
  abbrev pub Populated : List (Group S) → Type 0
  Populated [] = Unit
  Populated (g ∷ groups) = (is_empty g.1 ≡ false) × Populated groups

  append_to-Populated :
      (s : Signature) (h : Hypothesis S) (groups : List (Group S))
      → Populated groups
      → Populated (append_to s h groups)
  unfolding append_to is_empty
  append_to-Populated s h [] a = (refl, tt)
  append_to-Populated s h ((u, []) ∷ groups) a = absurd (cc)
  append_to-Populated s h ((u, x ∷ hs) ∷ groups) a = elim (Bool-cases (signature_eq u s)) [
    | inl same ↦ rw same (refl, a.1)
    | inr other ↦ rw other (refl, append_to-Populated s h groups a.1)
  ]

  pub group-Populated :
      (usable : List String) (groups : List (Group S)) (hs : List (Hypothesis S))
      → Populated groups
      → Populated (group usable groups hs)
  unfolding group
  group-Populated usable groups [] a = a
  group-Populated usable groups (h ∷ hs) a =
      group-Populated usable (append_to (signature usable h) h groups) hs
        (append_to-Populated (signature usable h) h groups a)
