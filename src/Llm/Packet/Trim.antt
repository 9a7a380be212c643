-- ===== src/Llm/Packet/Trim.antt =====
-- Cutting a packet down, src/core/llm/resilience.py: what trimming and a round of shrinking keep.
use raglogs.Base.{
  length, take, length-take, str_eq, eq_iff, ℕ, zero, suc, ◌-◌, String, ◌≡◌, refl, sym, ap, ◌∙◌,
  ◌⊎◌, inl, inr, none, some, List, [], ◌∷◌, ◌++◌, arith, ltb, Bool-cases, Option-cases,
}
use mathlib.Core.List.{append_assoc, append-nil}
use mathlib.Core.Option.{some_inj}
use raglogs.Llm.Packet.{
  Field, absent, items, value, Packet, put, trim_field, trim_keys, shrink, drop_last, shorter,
  field_size,
}

-- The first `n` items, and some items that were left out.
take-prefix : {A : Type 0} (n : ℕ) (xs : List A) → (zs : List A) × (take n xs ++ zs ≡ xs)
take-prefix zero xs = (xs, refl)
take-prefix (suc n) [] = ([], refl)
take-prefix (suc n) (x ∷ xs) = let (zs, e) = take-prefix n xs in (zs, rw e)

module _ {I X : Type 0} where
  -- A field that keeps its value, or a list that keeps a prefix of its items.
  abbrev pub IsCut : Field I X → Field I X → Type 0
  IsCut absent absent = Unit
  IsCut (items xs) (items ys) = (zs : List I) × (ys ++ zs ≡ xs)
  IsCut (value x) (value y) = x ≡ y
  IsCut _ _ = ⊥

  pub IsCut-refl : (f : Field I X) → IsCut f f
  IsCut-refl absent = tt
  IsCut-refl (items xs) = ([], append-nil xs)
  IsCut-refl (value x) = refl

  pub IsCut-trans : (f g h : Field I X) → IsCut f g → IsCut g h → IsCut f h
  IsCut-trans absent absent absent a b = tt
  IsCut-trans (items xs) (items ys) (items zs) (us, a) (vs, b) =
      (vs ++ us, sym (append_assoc zs vs us) ∙ rw b a)
  IsCut-trans (value x) (value y) (value z) a b = a ∙ b
  IsCut-trans _ _ _ a b = ground arith

  trim_field-IsCut : (n : ℕ) (f : Field I X) → IsCut f (trim_field n f)
  unfolding trim_field
  trim_field-IsCut n absent = tt
  trim_field-IsCut n (value x) = refl
  trim_field-IsCut n (items xs) = elim (Bool-cases (ltb n (length xs))) [
    | inl more ↦ rw more (take-prefix n xs)
    | inr few ↦ rw few (IsCut-refl (items xs))
  ]

  put-IsCut :
      (k j : String) (v : Field I X) (p : Packet I X) → IsCut (p k) v → IsCut (p j) (put k v p j)
  unfolding put
  put-IsCut k j v p c = elim (Bool-cases (str_eq k j)) [
    | inl same ↦ rw same (rw (← (eq_iff k j).0 same) c)
    | inr other ↦ rw other (IsCut-refl (p j))
  ]

  -- Every field of the packet is kept, or keeps a prefix of its items.
  pub trim_keys-IsCut :
      (n : ℕ) (ks : List String) (p : Packet I X) (j : String) → IsCut (p j) (trim_keys n ks p j)
  unfolding trim_keys
  trim_keys-IsCut n [] p j = IsCut-refl (p j)
  trim_keys-IsCut n (k ∷ ks) p j =
      let p' = put k (trim_field n (p k)) p in
      IsCut-trans (p j) (p' j) (trim_keys n ks p' j)
        (put-IsCut k j (trim_field n (p k)) p (trim_field-IsCut n (p k)))
        (trim_keys-IsCut n ks p' j)

  pub shorter-IsCut :
      (f : Field I X) (ys : List I)
      → shorter f ≡ some ys
      → IsCut f (items ys) × (field_size f ≡ suc (length ys))
  unfolding shorter drop_last field_size
  shorter-IsCut absent ys h = cc
  shorter-IsCut (items []) ys h = cc
  shorter-IsCut (items (x ∷ xs)) ys h =
      let e : take (suc (length xs) - 1) (x ∷ xs) ≡ ys = some_inj.0 h in
      let (zs, cut) = take-prefix (suc (length xs) - 1) (x ∷ xs) in
      ((zs, rw (← e) cut), omega (arith, ap length e, length-take (suc (length xs) - 1) (x ∷ xs)))
  shorter-IsCut (value x) ys h = cc

  pub shrink-cases :
      (k : String) (ks : List String) (p q : Packet I X)
      → shrink (k ∷ ks) p ≡ some q
      → ((xs : List I) × (shorter (p k) ≡ some xs) × (put k (items xs) p ≡ q))
        ⊎ ((shorter (p k) ≡ none) × (shrink ks p ≡ some q))
  unfolding shrink
  shrink-cases k ks p q h = elim (Option-cases (shorter (p k))) [
    | inl empty ↦ inr (empty, rw (empty, shrink) at h)
    | inr (xs, found) ↦ inl (xs, found, some_inj.0 (rw (found, shrink) at h))
  ]

  pub shrink-IsCut :
      (ks : List String) (p q : Packet I X) (j : String) → shrink ks p ≡ some q → IsCut (p j) (q j)
  unfolding shrink
  shrink-IsCut [] p q j h = cc
  shrink-IsCut (k ∷ ks) p q j h = elim (shrink-cases k ks p q h) [
    | inl (xs, found, e) ↦ rw (← e) (put-IsCut k j (items xs) p (shorter-IsCut (p k) xs found).0)
    | inr (empty, rest) ↦ shrink-IsCut ks p q j rest
  ]
