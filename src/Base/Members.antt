-- ===== src/Base/Members.antt =====
-- Membership that a proof can take apart, and how the list functions act on it.
use mathlib.Core.Path.{◌≡◌, refl, ap, ◌∙◌}
use mathlib.Core.Logic.{◌↔◌, ◌⊎◌, inl, inr}
use mathlib.Core.Bool.{Bool, true, false}
use mathlib.Core.List.{List, [], ◌∷◌, ◌++◌, map}
use raglogs.Base.Tests.{Bool-cases}
use raglogs.Base.Lists.{filter, any}

module _ {A : Type 0} where
  abbrev pub In : A → List A → Type 0
  In a [] = ⊥
  In a (x ∷ xs) = (a ≡ x) ⊎ In a xs

  pub In-append : (a : A) (xs ys : List A) → In a (xs ++ ys) ↔ (In a xs ⊎ In a ys)
  In-append a [] ys = (λ h. inr h, λ h. elim h [ inl x ↦ absurd x | inr y ↦ y ])
  In-append a (x ∷ xs) ys =
      let ih = In-append a xs ys in
      (
        λ h. elim h [
          | inl e ↦ inl (inl e)
          | inr r ↦ elim (ih.0 r) [ inl p ↦ inl (inr p) | inr q ↦ inr q ]
        ],
        λ h. elim h [
          | inl p ↦ elim p [ inl e ↦ inl e | inr r ↦ inr (ih.1 (inl r)) ]
          | inr q ↦ inr (ih.1 (inr q))
        ],
      )

  pub In-filter :
      (p : A → Bool) (a : A) (xs : List A) → In a (filter p xs) ↔ (In a xs × (p a ≡ true))
  unfolding filter
  In-filter p a [] = (λ h. absurd h, λ h. h.0)
  In-filter p a (x ∷ xs) =
      let ih = In-filter p a xs in
      elim (Bool-cases (p x)) [
        | inl keep ↦ rw keep (
          λ h. elim h [ inl e ↦ (inl e, ap p e ∙ keep) | inr r ↦ (inr (ih.0 r).0, (ih.0 r).1) ],
          λ h. elim h.0 [ inl e ↦ inl e | inr r ↦ inr (ih.1 (r, h.1)) ],
        )
        | inr skip ↦ rw skip (
          λ h. (inr (ih.0 h).0, (ih.0 h).1),
          λ h. elim h.0 [ inl e ↦ absurd (clash p a x e h.1 skip) | inr r ↦ ih.1 (r, h.1) ],
        )
      ]
    where
      clash : (p : A → Bool) (a x : A) → a ≡ x → p a ≡ true → p x ≡ false → ⊥
      clash p a x e h k = cc (ap p e)

  pub any-In : (p : A → Bool) (xs : List A) → any p xs ≡ true → (a : A) × In a xs × (p a ≡ true)
  unfolding any
  any-In p [] h = absurd (cc)
  any-In p (x ∷ xs) h = elim (Bool-cases (p x)) [
    | inl yes_ ↦ (x, inl refl, yes_)
    | inr no_ ↦ let (a, i, e) = any-In p xs (rw no_ at h) in (a, inr i, e)
  ]

  pub any_of-In : (p : A → Bool) (a : A) (xs : List A) → In a xs → p a ≡ true → any p xs ≡ true
  unfolding any
  any_of-In p a [] h e = absurd h
  any_of-In p a (x ∷ xs) (inl same) e = rw (← same) (rw e)
  any_of-In p a (x ∷ xs) (inr h) e = elim (Bool-cases (p x)) [
    | inl yes_ ↦ rw yes_
    | inr no_ ↦ rw no_ (any_of-In p a xs h e)
  ]

module _ {A B : Type 0} (f : A → B) where
  pub In-map : (b : B) (xs : List A) → In b (map f xs) → (a : A) × In a xs × (b ≡ f a)
  In-map b [] h = absurd h
  In-map b (x ∷ xs) (inl e) = (x, inl refl, e)
  In-map b (x ∷ xs) (inr h) = let (a, i, e) = In-map b xs h in (a, inr i, e)

  pub map-In : (a : A) (xs : List A) → In a xs → In (f a) (map f xs)
  map-In a [] h = absurd h
  map-In a (x ∷ xs) (inl e) = inl (ap f e)
  map-In a (x ∷ xs) (inr h) = inr (map-In a xs h)
