-- ===== src/Rca/Outcome/Equality.antt =====
-- The equality tests of src/core/rca/outcome.py are reflexive.
use raglogs.Base.{
  str_mem, str_eq, eq_refl, String, ◌≡◌, refl, inl, inr, Bool, true, List, [], ◌∷◌, Bool-cases, In,
}
use raglogs.Rca.Expectations.{all}
use raglogs.Rca.Outcome.{
  texts_eq, Outcome, no_compatible_hypothesis, identified, non_identifiable, irreducible, uncertain,
  EliminationCheck, check_eq, checks_eq, outcome_eq, same_texts,
}

pub all_of-In :
    {A : Type 0} (p : A → Bool) (xs : List A) → ((x : A) → In x xs → p x ≡ true) → all p xs ≡ true
unfolding all
all_of-In p [] h = refl
all_of-In p (x ∷ xs) h = rw (h x (inl refl)) (all_of-In p xs (λ y i. h y (inr i)))

pub texts_eq_refl : (ss : List String) → texts_eq ss ss ≡ true
unfolding texts_eq
texts_eq_refl [] = refl
texts_eq_refl (s ∷ ss) = rw (eq_refl s, texts_eq_refl ss) refl

pub check_eq_refl : (c : EliminationCheck) → check_eq c c ≡ true
unfolding check_eq
check_eq_refl c =
    rw (eq_refl c.hypothesis_id, eq_refl c.observable_id, texts_eq_refl c.eliminating_states) refl

pub checks_eq_refl : (cs : List EliminationCheck) → checks_eq cs cs ≡ true
unfolding checks_eq
checks_eq_refl [] = refl
checks_eq_refl (c ∷ cs) = rw (check_eq_refl c, checks_eq_refl cs) refl

pub outcome_eq_refl : (o : Outcome) → outcome_eq o o ≡ true
unfolding outcome_eq
outcome_eq_refl no_compatible_hypothesis = refl
outcome_eq_refl identified = refl
outcome_eq_refl non_identifiable = refl
outcome_eq_refl irreducible = refl
outcome_eq_refl uncertain = refl

pub In-str_mem : (s : String) (ts : List String) → In s ts → str_mem s ts ≡ true
unfolding str_mem
In-str_mem s [] i = absurd i
In-str_mem s (t ∷ ts) (inl e) = rw e (rw (eq_refl t) refl)
In-str_mem s (t ∷ ts) (inr i) = elim (Bool-cases (str_eq s t)) [
  | inl same ↦ rw same refl
  | inr other ↦ rw other (In-str_mem s ts i)
]

pub same_texts_refl : (ss : List String) → same_texts ss ss ≡ true
unfolding same_texts
same_texts_refl ss = rw (all_of-In (λ s. str_mem s ss) ss (λ s i. In-str_mem s ss i)) refl
