-- ===== src/Base/Sorting.antt =====
-- `sorted` as a stable insertion sort by a test, and the order of texts by code points.
use Prim.Native.Char.{code}
use Prim.Native.String.{String}
use mathlib.Core.Path.{◌≡◌}
use mathlib.Core.Logic.{◌↔◌, ◌⊎◌, inl, inr}
use mathlib.Core.Bool.{Bool, true, false}
use mathlib.Core.List.{List, [], ◌∷◌}
use raglogs.Base.Tests.{ltb, if◌then◌else◌, Bool-cases}
use raglogs.Base.Members.{In}

-- `s < t`
unfoldable pub str_lt : String → String → Bool
str_lt s String.[] = false
str_lt String.[] (String.◌∷◌ d t) = true
str_lt (String.◌∷◌ c s) (String.◌∷◌ d t) =
    let rest = str_lt s t in
    if ltb (code c) (code d) then true else if ltb (code d) (code c) then false else rest

-- An item goes before the first one that it is less than.
module _ {A : Type 0} (lt : A → A → Bool) where
  unfoldable pub insert_sorted : A → List A → List A
  insert_sorted a [] = a ∷ []
  insert_sorted a (x ∷ xs) = if lt a x then a ∷ x ∷ xs else x ∷ insert_sorted a xs

  unfoldable pub sort_by : List A → List A → List A
  unfolding insert_sorted
  sort_by out [] = out
  sort_by out (x ∷ xs) = sort_by (insert_sorted x out) xs

  -- `sorted(xs, key=…)`
  unfoldable pub sorted : List A → List A
  unfolding sort_by
  sorted xs = sort_by [] xs

  In-insert_sorted : (a b : A) (xs : List A) → In b (insert_sorted a xs) ↔ ((b ≡ a) ⊎ In b xs)
  unfolding insert_sorted
  In-insert_sorted a b [] = (λ h. h, λ h. h)
  In-insert_sorted a b (x ∷ xs) = elim (Bool-cases (lt a x)) [
    | inl first ↦ rw first (λ h. h, λ h. h)
    | inr later ↦ rw later (
      λ h. elim h [
        | inl e ↦ inr (inl e)
        | inr r ↦ elim ((In-insert_sorted a b xs).0 r) [ inl e ↦ inl e | inr q ↦ inr (inr q) ]
      ],
      λ h. elim h [
        | inl e ↦ inr ((In-insert_sorted a b xs).1 (inl e))
        | inr r ↦ elim r [ inl e ↦ inl e | inr q ↦ inr ((In-insert_sorted a b xs).1 (inr q)) ]
      ],
    )
  ]

  In-sort_by : (b : A) (out xs : List A) → In b (sort_by out xs) ↔ (In b out ⊎ In b xs)
  unfolding sort_by
  In-sort_by b out [] = (λ h. inl h, λ h. elim h [ inl p ↦ p | inr q ↦ absurd q ])
  In-sort_by b out (x ∷ xs) =
      let ih = In-sort_by b (insert_sorted x out) xs in
      let here = In-insert_sorted x b out in
      (
        λ h. elim (ih.0 h) [
          | inl p ↦ elim (here.0 p) [ inl e ↦ inr (inl e) | inr q ↦ inl q ]
          | inr q ↦ inr (inr q)
        ],
        λ h. elim h [
          | inl p ↦ ih.1 (inl (here.1 (inr p)))
          | inr r ↦ elim r [ inl e ↦ ih.1 (inl (here.1 (inl e))) | inr q ↦ ih.1 (inr q) ]
        ],
      )

  -- Sorting keeps the items.
  pub In-sorted : (b : A) (xs : List A) → In b (sorted xs) ↔ In b xs
  unfolding sorted
  In-sorted b xs =
      let h = In-sort_by b [] xs in
      (λ i. elim (h.0 i) [ inl p ↦ absurd p | inr q ↦ q ], λ i. h.1 (inr i))
