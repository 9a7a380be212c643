-- ===== src/Rca/Builder/Complete.antt =====
-- No service is lost in the merge, for `combine_signals` in src/core/rca/structural_model.py.
use raglogs.Base.{
  In-sorted, str_lt, str_mem, str_eq, eq_iff, String, ◌≡◌, refl, sym, ◌∙◌, ◌⊎◌, inl, inr, true,
  Option, none, some, List, [], ◌∷◌, map, arith, Bool-cases, Option-cases, In, In-append,
}
use raglogs.Rca.Builder.{
  ServiceSignal, add_once, set_of, sorted_set, signal_of, signals_of, witness_of, merged,
  combine_for, services_of, combine_signals,
}
use raglogs.Rca.Builder.Witness.{IsWitness, combine_signals-IsWitness}

str_mem-In : (s : String) (xs : List String) → str_mem s xs ≡ true → In s xs
unfolding str_mem
str_mem-In s [] e = absurd (cc)
str_mem-In s (x ∷ xs) e = elim (Bool-cases (str_eq s x)) [
  | inl same ↦ inl ((eq_iff s x).0 same)
  | inr other ↦ inr (str_mem-In s xs (rw (str_mem, other) at e))
]

add_once-In : (x s : String) (seen : List String) → (x ≡ s) ⊎ In x seen → In x (add_once s seen)
unfolding add_once
add_once-In x s seen i = elim (Bool-cases (str_mem s seen)) [
  | inl there ↦ rw there (elim i [ inl e ↦ rw e (str_mem-In s seen there) | inr j ↦ j ])
  | inr new ↦ rw new i
]

set_of-In : (x : String) (xs : List String) → In x xs → In x (set_of xs)
unfolding set_of
set_of-In x [] i = absurd i
set_of-In x (y ∷ ys) (inl e) = add_once-In x y (set_of ys) (inl e)
set_of-In x (y ∷ ys) (inr i) = add_once-In x y (set_of ys) (inr (set_of-In x ys i))

sorted_set-In : (x : String) (xs : List String) → In x xs → In x (sorted_set xs)
unfolding sorted_set
sorted_set-In x xs i = (In-sorted str_lt x (set_of xs)).1 (set_of-In x xs i)

module _ {F : Type 0} where
  signal_of-some :
      (svc : String) (source : List (String × ServiceSignal F))
      → In svc (map (λ p. p.0) source)
      → (sig : ServiceSignal F) × (signal_of svc source ≡ some sig)
  unfolding signal_of
  signal_of-some svc [] i = absurd i
  signal_of-some svc (p ∷ rest) i = elim (Bool-cases (str_eq p.0 svc)) [
    | inl same ↦ (p.1, rw (signal_of, same) refl)
    | inr other ↦ elim i [
      | inl e ↦ absurd (ground (arith, eq_iff p.0 svc))
      | inr later ↦ let (sig, f) = signal_of-some svc rest later in (sig, rw (signal_of, other) f)
    ]
  ]

  signals_of-some :
      (svc : String) (sources : List (List (String × ServiceSignal F)))
      → In svc (services_of sources)
      → (head : ServiceSignal F) × (rest : List (ServiceSignal F)) × (signals_of svc sources
          ≡ head ∷ rest)
  unfolding signals_of services_of
  signals_of-some svc [] i = absurd i
  signals_of-some svc (source ∷ sources) i = elim (Option-cases (signal_of svc source)) [
    | inr found ↦ let (sig, e) = found in (sig, signals_of svc sources, rw (signals_of, e) refl)
    | inl missing ↦ elim ((In-append svc (map (λ p. p.0) source) (services_of sources)).0 i) [
      | inl here ↦
          let (sig, e) = signal_of-some svc source here in absurd (other sig (sym missing ∙ e))
      | inr later ↦
          let (head, rest, e) = signals_of-some svc sources later in
          (head, rest, rw (signals_of, missing) e)
    ]
  ]
    where
      other : (sig : ServiceSignal F) → ◌≡◌ {A = Option (ServiceSignal F)} none (some sig) → ⊥
      other sig e = cc

  combine_for-some :
      (svc : String) (services : List String) (sources : List (List (String × ServiceSignal F)))
      (head : ServiceSignal F) (rest : List (ServiceSignal F))
      → signals_of svc sources ≡ head ∷ rest
      → In svc services
      → (w : ServiceSignal F) × In (svc, w) (combine_for services sources)
  unfolding combine_for merged
  combine_for-some svc [] sources head rest e i = absurd i
  combine_for-some svc (s ∷ services) sources head rest e (inl same) =
      (witness_of head rest, rw (← same) (rw e (inl refl)))
  combine_for-some svc (s ∷ services) sources head rest e (inr later) =
      let (w, i) = combine_for-some svc services sources head rest e later in
      (w, kept w (signals_of s sources) i)
    where
      kept :
          (v : ServiceSignal F) (sigs : List (ServiceSignal F))
          → In (svc, v) (combine_for services sources)
          → In (svc, v) (merged s sigs (combine_for services sources))
      kept v [] i = i
      kept v (x ∷ xs) i = inr i

  -- Every service of every source has a record after the merge, which stands for it.
  pub combine_signals_complete :
      (sources : List (List (String × ServiceSignal F))) (svc : String)
      → In svc (services_of sources)
      → (w : ServiceSignal F) × In (svc, w) (combine_signals sources)
        × IsWitness (signals_of svc sources) w
  unfolding combine_signals
  combine_signals_complete sources svc i =
      let (head, rest, e) = signals_of-some svc sources i in
      let (w, j) =
        combine_for-some svc (sorted_set (services_of sources)) sources head rest e
          (sorted_set-In svc (services_of sources) i) in
      (w, j, combine_signals-IsWitness sources svc w j)
