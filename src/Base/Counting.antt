-- ===== src/Base/Counting.antt =====
-- How many items of a list pass a test: `COUNT(*)` with a condition, and what filtering, sorting
-- and taking a prefix do to it.
use Prim.Native.Nat.{ℕ, zero, suc, ◌+◌, ◌≤◌}
use mathlib.Core.Path.{◌≡◌, refl}
use mathlib.Core.Logic.{inl, inr}
use mathlib.Core.Bool.{Bool, true, false, not, ◌&&◌}
use mathlib.Core.List.{List, [], ◌∷◌, ◌++◌, map}
use native.Mathlib.Omega.{arith}
use raglogs.Base.Tests.{if◌then◌else◌, Bool-cases, ◌==◌}
use raglogs.Base.Lists.{length, take, filter}
use raglogs.Base.Members.{In}
use raglogs.Base.Sorting.{insert_sorted, sort_by, sorted}

-- `i in ids`, for numbers
unfoldable pub id_mem : ℕ → List ℕ → Bool
id_mem i [] = false
id_mem i (j ∷ js) = if i == j then true else id_mem i js

module _ {A : Type 0} where
  unfoldable pub tally : (A → Bool) → List A → ℕ
  tally p [] = 0
  tally p (x ∷ xs) = (if p x then 1 else 0) + tally p xs

  pub length-filter : (p : A → Bool) (xs : List A) → length (filter p xs) ≡ tally p xs
  unfolding tally filter
  length-filter p [] = refl
  length-filter p (x ∷ xs) = let ih = length-filter p xs in ground arith

  pub tally-le-length : (p : A → Bool) (xs : List A) → tally p xs ≤ length xs
  unfolding tally
  tally-le-length p [] = omega arith
  tally-le-length p (x ∷ xs) = let ih = tally-le-length p xs in ground arith

  pub tally-append : (p : A → Bool) (xs ys : List A) → tally p (xs ++ ys) ≡ tally p xs + tally p ys
  unfolding tally
  tally-append p [] ys = omega arith
  tally-append p (x ∷ xs) ys = let ih = tally-append p xs ys in omega arith

  pub tally-filter :
      (p q : A → Bool) (xs : List A) → tally p (filter q xs) ≡ tally (λ x. q x && p x) xs
  unfolding tally filter
  tally-filter p q [] = refl
  tally-filter p q (x ∷ xs) =
      let ih = tally-filter p q xs in
      elim (Bool-cases (q x)) [ inl yes_ ↦ rw yes_ (omega arith) | inr no_ ↦ rw no_ (omega arith) ]

  pub tally_ext :
      (p q : A → Bool) (xs : List A) → ((x : A) → In x xs → p x ≡ q x) → tally p xs ≡ tally q xs
  unfolding tally
  tally_ext p q [] h = refl
  tally_ext p q (x ∷ xs) h =
      let ih = tally_ext p q xs (λ y i. h y (inr i)) in rw (h x (inl refl)) (omega arith)

  pub filter_ext :
      (p q : A → Bool) (xs : List A) → ((x : A) → In x xs → p x ≡ q x) → filter p xs ≡ filter q xs
  unfolding filter
  filter_ext p q [] h = refl
  filter_ext p q (x ∷ xs) h = rw (h x (inl refl), filter_ext p q xs (λ y i. h y (inr i))) refl

  pub filter-filter :
      (p q : A → Bool) (xs : List A) → filter p (filter q xs) ≡ filter (λ x. q x && p x) xs
  unfolding filter
  filter-filter p q [] = refl
  filter-filter p q (x ∷ xs) =
      let ih = filter-filter p q xs in
      elim (Bool-cases (q x)) [
        | inl yes_ ↦ rw yes_ (elim (Bool-cases (p x)) [
          | inl also ↦ rw (filter, also, ih) refl
          | inr but ↦ rw (filter, but, ih) refl
        ])
        | inr no_ ↦ rw (no_, ih) refl
      ]

  pub tally_split :
      (p q : A → Bool) (xs : List A)
      → tally p xs ≡ tally (λ x. p x && q x) xs + tally (λ x. p x && not (q x)) xs
  unfolding tally
  tally_split p q [] = refl
  tally_split p q (x ∷ xs) = let ih = tally_split p q xs in ground arith

  pub tally-pos : (p : A → Bool) (x : A) (xs : List A) → In x xs → p x ≡ true → 1 ≤ tally p xs
  unfolding tally
  tally-pos p x [] i e = absurd i
  tally-pos p x (y ∷ ys) (inl same) e = rw (← same) (rw e (omega arith))
  tally-pos p x (y ∷ ys) (inr later) e = let ih = tally-pos p x ys later e in omega arith

  pub tally-In : (p : A → Bool) (xs : List A) → 1 ≤ tally p xs → (x : A) × In x xs × (p x ≡ true)
  unfolding tally
  tally-In p [] h = absurd (omega arith)
  tally-In p (x ∷ xs) h = elim (Bool-cases (p x)) [
    | inl yes_ ↦ (x, inl refl, yes_)
    | inr no_ ↦
        let left : 1 ≤ tally p xs = ground arith in
        let (y, i, e) = tally-In p xs left in (y, inr i, e)
  ]

  tally-insert_sorted :
      (lt : A → A → Bool) (p : A → Bool) (a : A) (xs : List A)
      → tally p (insert_sorted lt a xs) ≡ tally p (a ∷ xs)
  unfolding tally insert_sorted
  tally-insert_sorted lt p a [] = refl
  tally-insert_sorted lt p a (x ∷ xs) =
      let ih = tally-insert_sorted lt p a xs in
      elim (Bool-cases (lt a x)) [ inl yes_ ↦ rw yes_ refl | inr no_ ↦ rw no_ (omega arith) ]

  tally-sort_by :
      (lt : A → A → Bool) (p : A → Bool) (out xs : List A)
      → tally p (sort_by lt out xs) ≡ tally p out + tally p xs
  unfolding tally sort_by
  tally-sort_by lt p out [] = omega arith
  tally-sort_by lt p out (x ∷ xs) =
      omega (arith, tally-sort_by lt p (insert_sorted lt x out) xs, tally-insert_sorted lt p x out)

  pub tally-sorted :
      (lt : A → A → Bool) (p : A → Bool) (xs : List A) → tally p (sorted lt xs) ≡ tally p xs
  unfolding tally sorted
  tally-sorted lt p xs = omega (arith, tally-sort_by lt p [] xs)

  pub length-tally : (xs : List A) → length xs ≡ tally (λ _. true) xs
  unfolding tally
  length-tally [] = refl
  length-tally (x ∷ xs) = omega (arith, length-tally xs)

  pub length-sorted : (lt : A → A → Bool) (xs : List A) → length (sorted lt xs) ≡ length xs
  length-sorted lt xs =
      omega (arith, length-tally xs, length-tally (sorted lt xs), tally-sorted lt (λ _. true) xs)

  pub In-take : (a : A) (n : ℕ) (xs : List A) → In a (take n xs) → In a xs
  In-take a zero xs i = absurd i
  In-take a (suc n) [] i = absurd i
  In-take a (suc n) (x ∷ xs) (inl e) = inl e
  In-take a (suc n) (x ∷ xs) (inr i) = inr (In-take a n xs i)

module _ {A B : Type 0} where
  pub tally-map :
      (p : B → Bool) (f : A → B) (xs : List A) → tally p (map f xs) ≡ tally (λ x. p (f x)) xs
  unfolding tally
  tally-map p f [] = refl
  tally-map p f (x ∷ xs) = let ih = tally-map p f xs in omega arith

  pub length-map : (f : A → B) (xs : List A) → length (map f xs) ≡ length xs
  length-map f [] = refl
  length-map f (x ∷ xs) = omega (arith, length-map f xs)
