-- ===== src/Llm/Packet/Budget.antt =====
-- The budget loop of `prepare_llm_packet`, src/core/llm/resilience.py: it ends, and what it returns.
use raglogs.Base.{
  str_mem, eq_iff, eq_refl, ℕ, zero, suc, ◌≤◌, ◌<◌, String, ◌≡◌, refl, ap, inl, inr, false, Option,
  none, some, List, [], ◌∷◌, arith, leb, leb→le, Bool-cases, Option-cases,
}
use raglogs.Llm.Packet.{
  Field, Packet, put, shrink, total_items, absent, items, value, list_keys, BudgetSettings,
  input_token_budget, Prepared, prepared, over_budget, trim_evidence_packet, estimate_tokens,
  shorter, shrink_loop, field_size, prepare_llm_packet,
}
use raglogs.Llm.Packet.Trim.{
  IsCut, IsCut-refl, IsCut-trans, trim_keys-IsCut, shorter-IsCut, shrink-cases, shrink-IsCut,
}

abbrev Distinct : List String → Type 0
Distinct [] = Unit
Distinct (k ∷ ks) = (str_mem k ks ≡ false) × Distinct ks

list_keys-Distinct : Distinct list_keys
unfolding str_mem
list_keys-Distinct = (refl, (refl, (refl, (refl, tt))))

no_some : {A : Type 0} {a : A} → ◌≡◌ {A = Option A} (some a) none → ⊥
no_some h = cc

module _ {I X : Type 0} where
  total_items-put :
      (ks : List String) (k : String) (v : Field I X) (p : Packet I X)
      → str_mem k ks ≡ false
      → total_items ks (put k v p) ≡ total_items ks p
  unfolding total_items put str_mem
  total_items-put [] k v p h = refl
  total_items-put (j ∷ ks) k v p h = ground (arith, total_items-put ks k v p)

  shrink-keeps :
      (ks : List String) (p q : Packet I X) (j : String)
      → str_mem j ks ≡ false
      → shrink ks p ≡ some q
      → q j ≡ p j
  unfolding shrink str_mem put
  shrink-keeps [] p q j n h = cc
  shrink-keeps (k ∷ ks) p q j n h = elim (shrink-cases k ks p q h) [
    | inl (xs, found, e) ↦ rw (← e) (ground (arith, eq_iff j k, eq_iff k j))
    | inr (empty, rest) ↦ shrink-keeps ks p q j (ground arith) rest
  ]

  size-put : (k : String) (v : Field I X) (p : Packet I X) → field_size (put k v p k) ≡ field_size v
  unfolding put
  size-put k v p = rw (eq_refl k)

  -- A round takes one item away.
  shrink-total :
      (ks : List String) (p q : Packet I X)
      → Distinct ks
      → shrink ks p ≡ some q
      → total_items ks p ≡ suc (total_items ks q)
  unfolding shrink total_items
  shrink-total [] p q d h = cc
  shrink-total (k ∷ ks) p q d h = elim (shrink-cases k ks p q h) [
    | inl (xs, found, e) ↦ rw (← e) (
        omega (
          arith,
          (shorter-IsCut (p k) xs found).1,
          total_items-put ks k (items xs) p d.0,
          size-put k (items xs) p,
        ))
    | inr (empty, rest) ↦
        omega (arith, ap field_size (shrink-keeps ks p q k d.0 rest), shrink-total ks p q d.1 rest)
  ]

  shorter-none : (f : Field I X) → shorter f ≡ none → field_size f ≡ 0
  unfolding shorter field_size
  shorter-none absent h = refl
  shorter-none (items []) h = refl
  shorter-none (items (x ∷ xs)) h = cc
  shorter-none (value x) h = refl

  shrink-none : (ks : List String) (p : Packet I X) → shrink ks p ≡ none → total_items ks p ≡ 0
  unfolding shrink total_items
  shrink-none [] p h = refl
  shrink-none (k ∷ ks) p h = elim (Option-cases (shorter (p k))) [
    | inl empty ↦
        omega (arith, shorter-none (p k) empty, shrink-none ks p (rw (empty, shrink) at h))
    | inr (xs, found) ↦ absurd (no_some (rw (found, shrink) at h))
  ]

  -- What the loop returns, against the packet that it started from.
  abbrev pub IsPrepared : (Packet I X → ℕ) → ℕ → Packet I X → Prepared (Packet I X) → Type 0
  IsPrepared dumps_length budget p (prepared q) =
      (estimate_tokens dumps_length q ≤ budget) × ((k : String) → IsCut (p k) (q k))
  IsPrepared dumps_length budget p (over_budget q) =
      (budget < estimate_tokens dumps_length q)
      × (total_items list_keys q ≡ 0)
      × ((k : String) → IsCut (p k) (q k))

  IsPrepared-cut :
      (dumps_length : Packet I X → ℕ) (budget : ℕ) (p q : Packet I X) (r : Prepared (Packet I X))
      → ((k : String) → IsCut (p k) (q k))
      → IsPrepared dumps_length budget q r
      → IsPrepared dumps_length budget p r
  IsPrepared-cut dumps_length budget p q (prepared r) c h =
      (h.0, λ k. IsCut-trans (p k) (q k) (r k) (c k) (h.1 k))
  IsPrepared-cut dumps_length budget p q (over_budget r) c h =
      (h.0, h.1, λ k. IsCut-trans (p k) (q k) (r k) (c k) (h.2 k))

  shrink_loop-total :
      (dumps_length : Packet I X → ℕ) (budget fuel : ℕ) (p : Packet I X)
      → total_items list_keys p < fuel
      → (r : Prepared (Packet I X)) × (shrink_loop dumps_length budget fuel p ≡ some r)
        × IsPrepared dumps_length budget p r
  unfolding shrink_loop
  shrink_loop-total dumps_length budget zero p h = elim h [ ]
  shrink_loop-total dumps_length budget (suc fuel) p h =
      elim (Bool-cases (leb (estimate_tokens dumps_length p) budget)) [
        | inl fits ↦ (prepared p, rw fits, (leb→le _ _ fits, λ k. IsCut-refl (p k)))
        | inr over ↦ elim (Option-cases (shrink list_keys p)) [
          | inl empty ↦ (
            over_budget p,
            rw (over, empty),
            (ground arith, shrink-none list_keys p empty, λ k. IsCut-refl (p k)),
          )
          | inr (q, round) ↦
              let (r, done, good) =
                shrink_loop-total dumps_length budget fuel q
                  (omega (arith, shrink-total list_keys p q list_keys-Distinct round)) in
              (
                r,
                rw (over, round) done,
                IsPrepared-cut dumps_length budget p q r (λ k. shrink-IsCut list_keys p q k round)
                    good,
              )
        ]
      ]

  -- The loop always ends. Either the packet fits the budget, or every listed list is empty and it
  -- still does not; in both cases each field of the packet is kept, or keeps a prefix of its items.
  pub prepare_llm_packet-total :
      (dumps_length : Packet I X → ℕ) (s : BudgetSettings) (p : Packet I X)
      → (r : Prepared (Packet I X)) × (prepare_llm_packet dumps_length s p ≡ some r)
        × IsPrepared dumps_length (input_token_budget s) p r
  unfolding prepare_llm_packet trim_evidence_packet
  prepare_llm_packet-total dumps_length s p =
      let trimmed = trim_evidence_packet s.max_evidence_items p in
      let (r, done, good) =
        shrink_loop-total dumps_length (input_token_budget s) (suc (total_items list_keys trimmed))
          trimmed (omega arith) in
      (
        r,
        done,
        IsPrepared-cut dumps_length (input_token_budget s) p trimmed r
            (trim_keys-IsCut s.max_evidence_items list_keys p) good,
      )
