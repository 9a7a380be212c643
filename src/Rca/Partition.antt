-- ===== src/Rca/Partition.antt =====
-- src/core/rca/partition.py. A threshold, like a confidence, is a whole number of millionths; a
-- ratio is a whole number of thousandths, so the tests for finite numbers of the source hold by
-- type. A frozenset of ids is a list of which only membership is read. `source_eq` stands for the
-- equality of two provenances.
pub mod Grouping
pub mod Build
pub mod Classes
pub mod SameClass
pub mod Evidence
pub mod Missing
pub mod Once
use raglogs.Base.{
  str_lt, sorted, filter, str_mem, str_eq, ℕ, String, Bool, true, false, not, ◌&&◌, Option, none,
  some, List, [], ◌∷◌, ◌++◌, map, leb, if◌then◌else◌,
}
use raglogs.Rca.Result.{Result, ok, value_error, require, ◌>>=◌, ◌>>◌}
use raglogs.Rca.Observable.{Observable, one, ids, usable_observables, lookup, project}
use raglogs.Rca.Expectations.{all, is_empty, predictions}
use raglogs.Rca.Hypothesis.{Hypothesis, hypothesis_eq, hard_incompatibility}

pub record UsabilityPolicy : Type 0 where
  pub default_tau : ℕ
  pub tau : List (String × ℕ)

-- `UsabilityPolicy.__post_init__`
unfoldable pub check_policy : UsabilityPolicy → Result UsabilityPolicy
check_policy policy = do
  require (leb policy.default_tau one)
  require (all (λ t. not (str_eq t.0 "") && leb t.1 one) policy.tau)
  ok policy

-- `self.tau.get(observable_id, self.default_tau)`
unfoldable pub tau_for : ℕ → List (String × ℕ) → String → ℕ
tau_for default_tau [] i = default_tau
tau_for default_tau ((j, t) ∷ tau) i = if str_eq j i then t else tau_for default_tau tau i

unfoldable pub threshold : UsabilityPolicy → String → ℕ
threshold policy i = tau_for policy.default_tau policy.tau i

unfoldable pub is_trusted : UsabilityPolicy → Observable → Bool
unfolding threshold
is_trusted policy o = leb (threshold policy o.id) o.measurement_confidence

unfoldable pub usable_observations : UsabilityPolicy → List Observable → Result (List Observable)
usable_observations policy os = do xs ← usable_observables os; ok (filter (is_trusted policy) xs)

-- `tuple(sorted(o.id for o in usable))`
unfoldable pub sorted_ids : List Observable → List String
sorted_ids os = sorted str_lt (ids os)

unfoldable pub usable_ids : UsabilityPolicy → List Observable → Result (List String)
usable_ids policy os = do xs ← usable_observations policy os; ok (sorted_ids xs)

abbrev pub Signature : Type 0
Signature = List (String × String)

pub record EquivalenceClass (S : Type 0) : Type 0 where
  pub signature : Signature
  pub members : List (Hypothesis S)
  pub d_missing : List String

pub record Partition (S : Type 0) : Type 0 where
  pub classes : List (EquivalenceClass S)
  pub usable : List Observable
  pub eliminated : List (Hypothesis S)

-- `signature`
unfoldable pub signature : {S : Type 0} → List String → Hypothesis S → Signature
signature f_usable h = project h.predictions f_usable

unfoldable pub signature_eq : Signature → Signature → Bool
signature_eq [] [] = true
signature_eq ((f, v) ∷ s) ((g, w) ∷ t) = str_eq f g && str_eq v w && signature_eq s t
signature_eq _ _ = false

unfoldable pub signature_lt : Signature → Signature → Bool
signature_lt s [] = false
signature_lt [] (p ∷ t) = true
signature_lt ((f, v) ∷ s) ((g, w) ∷ t) =
    let rest = signature_lt s t in
    if not (str_eq f g) then str_lt f g else if not (str_eq v w) then str_lt v w else rest

unfoldable pub option_eq : Option String → Option String → Bool
option_eq none none = true
option_eq (some s) (some t) = str_eq s t
option_eq _ _ = false

-- `missing.add(f)`
unfoldable pub add : String → List String → List String
add f missing = if str_mem f missing then missing else f ∷ missing

-- the innermost loop of `_d_missing`
unfoldable pub differing :
    List String → Signature → Signature → List String → List String → List String
differing usable pa pb [] missing = missing
differing usable pa pb (f ∷ fs) missing = differing usable pa pb fs (
    if not (str_mem f usable) && not (option_eq (lookup f pa) (lookup f pb))
    then add f missing
    else missing)

abbrev pub keys : Signature → List String
keys = map (λ p. p.0)

abbrev pub Group : Type 0 → Type 0
Group S = Signature × List (Hypothesis S)

unfoldable pub by_observable_id : Observable → Observable → Bool
by_observable_id o p = str_lt o.id p.id

module _ {S : Type 0} where
  -- `EquivalenceClass.__post_init__` and `Partition.__post_init__`
  unfoldable pub check_class : EquivalenceClass S → Result (EquivalenceClass S)
  unfolding is_empty
  check_class c = do require (not (is_empty c.members)); ok c

  unfoldable pub check_partition : Partition S → Result (Partition S)
  unfolding is_empty
  check_partition p = do require (not (is_empty p.classes && is_empty p.eliminated)); ok p

  unfoldable pub f_usable : Partition S → List String
  f_usable p = sorted_ids p.usable

  unfoldable pub no_surviving_hypothesis : Partition S → Bool
  no_surviving_hypothesis p = is_empty p.classes

  unfoldable pub find_id : String → List (Hypothesis S) → Option (Hypothesis S)
  find_id i [] = none
  find_id i (h ∷ hs) = if str_eq h.id i then some h else find_id i hs

  -- The loop of `_distinct`; `kept` are the values of `by_id`, in the order of insertion. An
  -- object met again has equal behaviour and provenance.
  unfoldable pub distinct_from :
      (Option S → Option S → Bool)
      → List (Hypothesis S)
      → List (Hypothesis S)
      → Result (List (Hypothesis S))
  distinct_from source_eq kept [] = ok kept
  distinct_from source_eq kept (h ∷ hs) = elim (find_id h.id kept) [
    | none ↦ distinct_from source_eq (kept ++ h ∷ []) hs
    | some prev ↦
        let rest = distinct_from source_eq kept hs in
        if not (hypothesis_eq prev h)
        then value_error
        else if not (source_eq prev.source h.source)
        then value_error
        else rest
  ]

  unfoldable pub distinct :
      (Option S → Option S → Bool) → List (Hypothesis S) → Result (List (Hypothesis S))
  distinct source_eq hs = distinct_from source_eq [] hs

  -- the pairs of `a` with each later member
  unfoldable pub differing_from :
      List String → Hypothesis S → List (Hypothesis S) → List String → List String
  differing_from usable a [] missing = missing
  differing_from usable a (b ∷ bs) missing = differing_from usable a bs (
      differing usable a.predictions b.predictions (keys a.predictions ++ keys b.predictions)
        missing)

  unfoldable pub d_missing_from : List String → List (Hypothesis S) → List String → List String
  d_missing_from usable [] missing = missing
  d_missing_from usable (a ∷ as_) missing =
      d_missing_from usable as_ (differing_from usable a as_ missing)

  unfoldable pub d_missing : List (Hypothesis S) → List String → List String
  d_missing members usable = d_missing_from usable members []

  -- the loop that drops the hard-contradicted hypotheses: the survivors, and the eliminated
  unfoldable pub eliminate :
      List Observable → List (Hypothesis S) → Result (List (Hypothesis S) × List (Hypothesis S))
  eliminate usable [] = ok ([], [])
  eliminate usable (h ∷ hs) = do
    bad ← hard_incompatibility h usable
    (survivors, eliminated) ← eliminate usable hs
    ok (if bad then (survivors, h ∷ eliminated) else (h ∷ survivors, eliminated))

  -- `grouped.setdefault(s, []).append(h)`
  unfoldable pub append_to : Signature → Hypothesis S → List (Group S) → List (Group S)
  append_to s h [] = (s, h ∷ []) ∷ []
  append_to s h ((t, hs) ∷ groups) =
      if signature_eq t s then (t, hs ++ h ∷ []) ∷ groups else (t, hs) ∷ append_to s h groups

  unfoldable pub group : List String → List (Group S) → List (Hypothesis S) → List (Group S)
  group usable groups [] = groups
  group usable groups (h ∷ hs) = group usable (append_to (signature usable h) h groups) hs

  unfoldable pub by_hypothesis_id : Hypothesis S → Hypothesis S → Bool
  by_hypothesis_id g h = str_lt g.id h.id

  unfoldable pub make_class : List String → Group S → Result (EquivalenceClass S)
  make_class usable (s, hs) =
      let members = sorted by_hypothesis_id hs in
      check_class
        (record { signature = s; members = members; d_missing = d_missing members usable })

  unfoldable pub make_classes : List String → List (Group S) → Result (List (EquivalenceClass S))
  make_classes usable [] = ok []
  make_classes usable (g ∷ groups) = do
    c ← make_class usable g
    cs ← make_classes usable groups
    ok (c ∷ cs)

  unfoldable pub by_signature : Group S → Group S → Bool
  by_signature g h = signature_lt g.0 h.0

  unfoldable pub partition :
      (Option S → Option S → Bool)
      → List (Hypothesis S)
      → List Observable
      → UsabilityPolicy
      → Result (Partition S)
  partition source_eq hypotheses observations policy = do
    usable ← usable_observations policy observations
    hs ← distinct source_eq hypotheses
    require (not (is_empty hs))
    (survivors, eliminated) ← eliminate usable hs
    classes ←
        make_classes (sorted_ids usable)
          (sorted by_signature (group (sorted_ids usable) [] survivors))
    check_partition (record {
      classes = classes;
      usable = sorted by_observable_id usable;
      eliminated = sorted by_hypothesis_id eliminated;
    })

-- the categorical bands
unfoldable pub discretize_ratio : ℕ → ℕ → ℕ → Result String
discretize_ratio ratio high low = do
  require (leb low high)
  ok (if leb high ratio then "high" else if leb ratio low then "low" else "normal")

unfoldable pub discretize_rate : ℕ → ℕ → Result String
discretize_rate rate cutoff = do
  require (leb rate one)
  require (leb cutoff one)
  ok (if leb cutoff rate then "present" else "absent")
