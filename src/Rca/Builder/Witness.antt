-- ===== src/Rca/Builder/Witness.antt =====
-- The merged signal of a service, for src/core/rca/structural_model.py.
use raglogs.Base.{
  any, eq_iff, String, ◌≡◌, refl, sym, ap, ◌∙◌, ◌⊎◌, inl, inr, Bool, true, false, not, ◌&&◌, Option,
  none, some, List, [], ◌∷◌, arith, Bool-cases, In,
}
use raglogs.Rca.Builder.{
  present, absent, ServiceSignal, is_state, first_in, witness_of, sorted_set, signals_of, merged,
  combine_for, services_of, combine_signals,
}
use mathlib.Core.Path.{subst}

present_not_absent : (s : Option String) → is_state present s ≡ true → is_state absent s ≡ false
unfolding is_state
present_not_absent none e = refl
present_not_absent (some s) e = rw ((eq_iff s present).0 e) refl

not_both : (s : Option String) → is_state absent s ≡ true → is_state present s ≡ false
unfolding is_state
not_both none e = refl
not_both (some s) e = rw ((eq_iff s absent).0 e) refl

and_false : (b : Bool) → (b && false) ≡ false
and_false true = refl
and_false false = refl

-- The record that stands for a service is one of its records; it is anomalous if one of them is, and
-- normal if one is normal and none anomalous.
pub record IsWitness {F : Type 0} (sigs : List (ServiceSignal F)) (w : ServiceSignal F)
    : Type 0 where
  pub member : In w sigs
  pub hit : is_state present w.sig_state ≡ any (λ s. is_state present s.sig_state) sigs
  pub normal :
      is_state absent w.sig_state
      ≡ any (λ s. is_state absent s.sig_state) sigs
        && not (any (λ s. is_state present s.sig_state) sigs)

module _ {F : Type 0} where
  -- The record of a service after the merge, and what it must be.
  abbrev has : String → List (ServiceSignal F) → Bool
  has state sigs = any (λ s. is_state state s.sig_state) sigs

  -- What is found is one of the records, in the state; otherwise none is in the state.
  first_in_lem :
      (state : String) (sigs : List (ServiceSignal F))
      → ((w : ServiceSignal F) × (first_in state sigs ≡ some w)
          × In w sigs
          × (is_state state w.sig_state ≡ true)
          × (has state sigs ≡ true))
        ⊎ ((first_in state sigs ≡ none) × (has state sigs ≡ false))
  unfolding first_in any
  first_in_lem state [] = inr (refl, refl)
  first_in_lem state (x ∷ xs) = elim (Bool-cases (is_state state x.sig_state)) [
    | inl yes_ ↦ inl (x, rw (first_in, yes_) refl, inl refl, yes_, rw (any, yes_) refl)
    | inr no_ ↦ elim (first_in_lem state xs) [
      | inl found ↦
          let (w, e, m, s, h) = found in inl (w, rw (first_in, no_) e, inr m, s, rw (any, no_) h)
      | inr none_ ↦ inr (rw (first_in, no_) none_.0, rw (any, no_) none_.1)
    ]
  ]

  none_in :
      (state : String) (head : ServiceSignal F) (rest : List (ServiceSignal F))
      → has state (head ∷ rest) ≡ false
      → is_state state head.sig_state ≡ false
  unfolding any
  none_in state head rest e = elim (Bool-cases (is_state state head.sig_state)) [
    | inl yes_ ↦ absurd (ground (arith, rw (any, yes_) at e))
    | inr no_ ↦ no_
  ]

  witness_of-IsWitness :
      (head : ServiceSignal F) (rest : List (ServiceSignal F))
      → IsWitness (head ∷ rest) (witness_of head rest)
  unfolding witness_of
  witness_of-IsWitness head rest = elim (first_in_lem present (head ∷ rest)) [
    | inl found ↦
        let (w, e, m, s, h) = found in
        let same : witness_of head rest ≡ w = rw (witness_of, e) refl in
        subst (IsWitness (head ∷ rest)) (sym same) (record {
          member = m;
          hit = s ∙ sym h;
          normal =
              rw (h, present_not_absent w.sig_state s) (sym (and_false (has absent (head ∷ rest))));
        })
    | inr none_ ↦ elim (first_in_lem absent (head ∷ rest)) [
      | inl found ↦
          let (w, e, m, s, h) = found in
          let same : witness_of head rest ≡ w = rw (witness_of, none_.0, e) refl in
          subst (IsWitness (head ∷ rest)) (sym same) (record {
            member = m;
            hit = not_both w.sig_state s ∙ sym none_.1;
            normal = rw (h, none_.1, s) refl;
          })
      | inr nothing ↦
          let same : witness_of head rest ≡ head = rw (witness_of, none_.0, nothing.0) refl in
          subst (IsWitness (head ∷ rest)) (sym same) (record {
            member = inl refl;
            hit = none_in present head rest none_.1 ∙ sym none_.1;
            normal = rw (nothing.1, none_in absent head rest nothing.1) refl;
          })
    ]
  ]

  merged_cases :
      (s : String) (sigs : List (ServiceSignal F)) (out : List (String × ServiceSignal F))
      (svc : String) (w : ServiceSignal F)
      → In (svc, w) (merged s sigs out)
      → In (svc, w) out ⊎ ((svc ≡ s) × IsWitness sigs w)
  unfolding merged
  merged_cases s [] out svc w i = inl i
  merged_cases s (head ∷ rest) out svc w (inl e) = inr (
    ap (λ p. p.0) e,
    subst (IsWitness (head ∷ rest)) (sym (ap (λ p. p.1) e)) (witness_of-IsWitness head rest),
  )
  merged_cases s (head ∷ rest) out svc w (inr later) = inl later

  combine_for-IsWitness :
      (services : List String) (sources : List (List (String × ServiceSignal F))) (svc : String)
      (w : ServiceSignal F)
      → In (svc, w) (combine_for services sources)
      → IsWitness (signals_of svc sources) w
  unfolding combine_for
  combine_for-IsWitness [] sources svc w i = absurd i
  combine_for-IsWitness (s ∷ services) sources svc w i =
      elim (merged_cases s (signals_of s sources) (combine_for services sources) svc w i) [
        | inl later ↦ combine_for-IsWitness services sources svc w later
        | inr here ↦ let (e, x) = here in subst (λ n. IsWitness (signals_of n sources) w) (sym e) x
      ]

  -- Every record that `combine_signals` gives stands for its service: it is, verbatim, the record of one
  -- of the sources that have the service; it is anomalous exactly when one of them is, and normal
  -- exactly when one of them is normal and none is anomalous.
  pub combine_signals-IsWitness :
      (sources : List (List (String × ServiceSignal F))) (svc : String) (w : ServiceSignal F)
      → In (svc, w) (combine_signals sources)
      → IsWitness (signals_of svc sources) w
  unfolding combine_signals
  combine_signals-IsWitness sources svc w i =
      combine_for-IsWitness (sorted_set (services_of sources)) sources svc w i
