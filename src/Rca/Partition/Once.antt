-- ===== src/Rca/Partition/Once.antt =====
-- Each signature has one group, for src/core/rca/partition.py.
use raglogs.Base.{
  tally, ◌≤◌, String, ◌≡◌, refl, sym, inl, inr, List, [], ◌∷◌, arith, Bool-cases, In,
}
use raglogs.Rca.Hypothesis.{Hypothesis}
use raglogs.Rca.Partition.{Signature, signature_eq, Group, group}
use raglogs.Rca.Partition.Grouping.{signature_eq_iff, signatures, Apart, group-Apart_from}

module _ {S : Type 0} where
  Apart-none :
      (s : Signature) (gs : List (Group S))
      → (¬ In s (signatures gs))
      → tally (λ g. signature_eq g.0 s) gs ≡ 0
  unfolding tally
  Apart-none s [] n = refl
  Apart-none s (g ∷ gs) n = elim (Bool-cases (signature_eq g.0 s)) [
    | inl same ↦ absurd (n (inl (sym ((signature_eq_iff g.0 s).0 same))))
    | inr other ↦ let ih = Apart-none s gs (λ i. n (inr i)) in rw other (omega (arith, ih))
  ]

  Apart-once :
      (s : Signature) (gs : List (Group S)) → Apart gs → tally (λ g. signature_eq g.0 s) gs ≤ 1
  unfolding tally
  Apart-once s [] a = omega arith
  Apart-once s (g ∷ gs) (n, a) = elim (Bool-cases (signature_eq g.0 s)) [
    | inl same ↦
        let e : g.0 ≡ s = (signature_eq_iff g.0 s).0 same in
        let none_ = Apart-none s gs (λ i. n (rw e i)) in rw same (omega (arith, none_))
    | inr other ↦ let ih = Apart-once s gs a in rw other (omega (arith, ih))
  ]

  pub group-once :
      (usable : List String) (s : Signature) (hs : List (Hypothesis S))
      → tally (λ g. signature_eq g.0 s) (group usable [] hs) ≤ 1
  group-once usable s hs = Apart-once s (group usable [] hs) (group-Apart_from usable [] hs tt)
