-- ===== src/Rca/Partition/Missing.antt =====
-- `_d_missing` of src/core/rca/partition.py.
use raglogs.Base.{
  str_mem, str_eq, eq_iff, String, ◌≡◌, refl, ◌↔◌, ◌⊎◌, inl, inr, Bool, true, false, not, ◌&&◌,
  List, [], ◌∷◌, ◌++◌, Bool-cases, In,
}
use raglogs.Rca.Observable.{lookup}
use raglogs.Rca.Hypothesis.{Hypothesis}
use raglogs.Rca.Partition.{
  Signature, option_eq, add, keys, differing, differing_from, d_missing_from, d_missing,
}

str_mem-In : (s : String) (ts : List String) → (str_mem s ts ≡ true) ↔ In s ts
unfolding str_mem
str_mem-In s [] = (λ h. absurd (cc), λ h. absurd h)
str_mem-In s (t ∷ ts) = elim (Bool-cases (str_eq s t)) [
  | inl same ↦ rw same (λ h. inl ((eq_iff s t).0 same), λ h. refl)
  | inr other ↦ rw other (
    λ h. inr ((str_mem-In s ts).0 h),
    λ h. elim h [
      | inl e ↦ absurd (clash ((eq_iff s t).1 e) other)
      | inr later ↦ (str_mem-In s ts).1 later
    ],
  )
]
  where
    clash : {b : Bool} → b ≡ true → b ≡ false → ⊥
    clash p q = cc

In-add : (f g : String) (missing : List String) → In g (add f missing) ↔ ((g ≡ f) ⊎ In g missing)
unfolding add
In-add f g missing = elim (Bool-cases (str_mem f missing)) [
  | inl old ↦
      rw old (λ h. inr h, λ h. elim h [ inl e ↦ rw e ((str_mem-In f missing).0 old) | inr i ↦ i ])
  | inr new ↦ rw new (λ h. h, λ h. h)
]

-- The coordinate `f` is not usable, and the two predictions differ on it.
abbrev pub separates : List String → Signature → Signature → String → Bool
separates usable pa pb f = not (str_mem f usable) && not (option_eq (lookup f pa) (lookup f pb))

In-differing :
    (usable : List String) (pa pb : Signature) (fs missing : List String) (g : String)
    → In g (differing usable pa pb fs missing)
      ↔ (In g missing ⊎ (In g fs × (separates usable pa pb g ≡ true)))
unfolding differing
In-differing usable pa pb [] missing g =
    (λ h. inl h, λ h. elim h [ inl i ↦ i | inr no_ ↦ absurd no_.0 ])
In-differing usable pa pb (f ∷ fs) missing g = elim (Bool-cases (separates usable pa pb f)) [
  | inl hit ↦
      let ih = In-differing usable pa pb fs (add f missing) g in
      let new = In-add f g missing in
      rw hit (
        λ h. elim (ih.0 h) [
          | inl now ↦ elim (new.0 now) [ inl e ↦ inr (inl e, rw e hit) | inr old ↦ inl old ]
          | inr later ↦ inr (inr later.0, later.1)
        ],
        λ h. elim h [
          | inl old ↦ ih.1 (inl (new.1 (inr old)))
          | inr r ↦ elim r.0 [
            | inl e ↦ ih.1 (inl (new.1 (inl e)))
            | inr later ↦ ih.1 (inr (later, r.1))
          ]
        ],
      )
  | inr miss ↦
      let ih = In-differing usable pa pb fs missing g in
      rw miss (
        λ h. elim (ih.0 h) [ inl old ↦ inl old | inr later ↦ inr (inr later.0, later.1) ],
        λ h. elim h [
          | inl old ↦ ih.1 (inl old)
          | inr r ↦ elim r.0 [
            | inl e ↦ absurd (clash (rw e miss) r.1)
            | inr later ↦ ih.1 (inr (later, r.1))
          ]
        ],
      )
]
  where
    clash : {b : Bool} → b ≡ false → b ≡ true → ⊥
    clash p q = cc

module _ {S : Type 0} where
  -- `f` is predicted by one of the two, is not usable, and they differ on it.
  abbrev pub Separates : List String → String → Hypothesis S → Hypothesis S → Type 0
  Separates usable f a b =
      In f (keys a.predictions ++ keys b.predictions)
      × (separates usable a.predictions b.predictions f ≡ true)

  -- Some later item stands in the relation to `a`; some two items do.
  abbrev pub SomeLater :
      (Hypothesis S → Hypothesis S → Type 0) → Hypothesis S → List (Hypothesis S) → Type 0
  SomeLater R a [] = ⊥
  SomeLater R a (b ∷ bs) = R a b ⊎ SomeLater R a bs

  abbrev pub SomePair : (Hypothesis S → Hypothesis S → Type 0) → List (Hypothesis S) → Type 0
  SomePair R [] = ⊥
  SomePair R (a ∷ hs) = SomeLater R a hs ⊎ SomePair R hs

  In-differing_from :
      (usable : List String) (a : Hypothesis S) (bs : List (Hypothesis S)) (missing : List String)
      (f : String)
      → In f (differing_from usable a bs missing)
        ↔ (In f missing ⊎ SomeLater (Separates usable f) a bs)
  unfolding differing_from
  In-differing_from usable a [] missing f =
      (λ h. inl h, λ h. elim h [ inl i ↦ i | inr no_ ↦ absurd no_ ])
  In-differing_from usable a (b ∷ bs) missing f =
      let ks = keys a.predictions ++ keys b.predictions in
      let now = In-differing usable a.predictions b.predictions ks missing f in
      let ih =
        In-differing_from usable a bs (differing usable a.predictions b.predictions ks missing) f in
      (
        λ h. elim (ih.0 h) [
          | inl x ↦ elim (now.0 x) [ inl old ↦ inl old | inr here ↦ inr (inl here) ]
          | inr later ↦ inr (inr later)
        ],
        λ h. elim h [
          | inl old ↦ ih.1 (inl (now.1 (inl old)))
          | inr r ↦ elim r [
            | inl here ↦ ih.1 (inl (now.1 (inr here)))
            | inr later ↦ ih.1 (inr later)
          ]
        ],
      )

  In-d_missing_from :
      (usable : List String) (hs : List (Hypothesis S)) (missing : List String) (f : String)
      → In f (d_missing_from usable hs missing) ↔ (In f missing ⊎ SomePair (Separates usable f) hs)
  unfolding d_missing_from
  In-d_missing_from usable [] missing f =
      (λ h. inl h, λ h. elim h [ inl i ↦ i | inr no_ ↦ absurd no_ ])
  In-d_missing_from usable (a ∷ hs) missing f =
      let now = In-differing_from usable a hs missing f in
      let ih = In-d_missing_from usable hs (differing_from usable a hs missing) f in
      (
        λ h. elim (ih.0 h) [
          | inl x ↦ elim (now.0 x) [ inl old ↦ inl old | inr here ↦ inr (inl here) ]
          | inr later ↦ inr (inr later)
        ],
        λ h. elim h [
          | inl old ↦ ih.1 (inl (now.1 (inl old)))
          | inr r ↦ elim r [
            | inl here ↦ ih.1 (inl (now.1 (inr here)))
            | inr later ↦ ih.1 (inr later)
          ]
        ],
      )

  -- The missing distinguishers of a class are exactly the coordinates that are not usable, that one
  -- of some two members predicts, and on which these two differ.
  pub In-d_missing :
      (members : List (Hypothesis S)) (usable : List String) (f : String)
      → In f (d_missing members usable) ↔ SomePair (Separates usable f) members
  unfolding d_missing
  In-d_missing members usable f =
      let h = In-d_missing_from usable members [] f in
      (λ i. elim (h.0 i) [ inl no_ ↦ absurd no_ | inr r ↦ r ], λ r. h.1 (inr r))
