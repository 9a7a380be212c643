-- ===== src/Rca/Outcome.antt =====
-- src/core/rca/outcome.py: the label of a partition and its evidence packet.
pub mod Equality
pub mod Resolve
use raglogs.Base.{
  str_lt, sorted, any, str_mem, str_eq, String, Bool, true, false, not, ◌&&◌, Option, none, some,
  List, [], ◌∷◌, ◌++◌, map, if◌then◌else◌,
}
use raglogs.Rca.Result.{Result, ok, require, ◌>>=◌, ◌>>◌}
use raglogs.Rca.Observable.{Observable, lookup, integration_gaps}
use raglogs.Rca.Expectations.{ObservationModel, Contradiction, all, is_empty, states}
use raglogs.Rca.Hypothesis.{Hypothesis, Kind}
use raglogs.Rca.Partition.{EquivalenceClass, Partition, Signature, add, f_usable}

pub data Outcome : Type 0 where
  no_compatible_hypothesis identified non_identifiable irreducible uncertain : Outcome

-- for one class: is it a singleton, and is its `d_missing` empty
unfoldable pub of_class {ℓ κ} : {A : Type ℓ} {B : Type κ} → List A → List B → Outcome
of_class (m ∷ []) missing = identified
of_class _ (f ∷ fs) = non_identifiable
of_class _ [] = irreducible

unfoldable pub classify_classes : {S : Type 0} → List (EquivalenceClass S) → Outcome
unfolding of_class
classify_classes [] = no_compatible_hypothesis
classify_classes (c ∷ []) = of_class c.members c.d_missing
classify_classes (c ∷ d ∷ cs) = uncertain

unfoldable pub classify : {S : Type 0} → Partition S → Outcome
unfolding classify_classes
classify p = classify_classes p.classes

pub data Relation : Type 0 where
  supports mismatch hard_eliminates : Relation

pub record EvidenceItem : Type 0 where
  pub observable_id : String
  pub observed_state : String
  pub expected_state : Option String
  pub relation : Relation

pub record MemberView : Type 0 where
  pub id : String
  pub kind : Kind
  pub localization : String

pub record EliminationCheck : Type 0 where
  pub hypothesis_id : String
  pub observable_id : String
  pub eliminating_states : List String

pub record ClassView : Type 0 where
  pub members : List MemberView
  pub signature : Signature
  pub d_missing : List String
  pub evidence : List EvidenceItem
  pub elimination_checks : List EliminationCheck

pub record EliminatedView : Type 0 where
  pub member : MemberView
  pub evidence : List EvidenceItem

pub record StructuralResult : Type 0 where
  pub outcome : Outcome
  pub localization : List String
  pub classes : List ClassView
  pub d_missing : List String
  pub potential_elimination_checks : List EliminationCheck
  pub eliminated : List EliminatedView
  pub integration_gaps : List String

-- `ClassView.__post_init__`
unfoldable pub check_view : ClassView → Result ClassView
unfolding is_empty
check_view v = do require (not (is_empty v.members)); ok v

unfoldable pub expected_outcome : List ClassView → Outcome
unfolding of_class
expected_outcome [] = no_compatible_hypothesis
expected_outcome (v ∷ []) = of_class v.members v.d_missing
expected_outcome (v ∷ w ∷ vs) = uncertain

-- `tuple(dict.fromkeys(…))`: the distinct texts in the order of their first mention
unfoldable pub dedup_from : List String → List String → List String
dedup_from seen [] = []
dedup_from seen (s ∷ ss) =
    if str_mem s seen then dedup_from seen ss else s ∷ dedup_from (s ∷ seen) ss

unfoldable pub localizations : List ClassView → List String
localizations [] = []
localizations (v ∷ vs) = map (λ m. m.localization) v.members ++ localizations vs

unfoldable pub summary_localization : List ClassView → List String
unfolding dedup_from localizations
summary_localization vs = dedup_from [] (localizations vs)

unfoldable pub add_all : List String → List String → List String
add_all [] out = out
add_all (f ∷ fs) out = add_all fs (add f out)

unfoldable pub union_d_missing : List ClassView → List String
unfolding add_all
union_d_missing [] = []
union_d_missing (v ∷ vs) = add_all v.d_missing (union_d_missing vs)

unfoldable pub texts_eq : List String → List String → Bool
texts_eq [] [] = true
texts_eq (s ∷ ss) (t ∷ ts) = str_eq s t && texts_eq ss ts
texts_eq _ _ = false

unfoldable pub check_eq : EliminationCheck → EliminationCheck → Bool
unfolding texts_eq
check_eq a b =
    str_eq a.hypothesis_id b.hypothesis_id
    && str_eq a.observable_id b.observable_id
    && texts_eq a.eliminating_states b.eliminating_states

-- `key=lambda e: (e.hypothesis_id, e.observable_id)`
unfoldable pub check_lt : EliminationCheck → EliminationCheck → Bool
check_lt a b =
    if str_eq a.hypothesis_id b.hypothesis_id
    then str_lt a.observable_id b.observable_id
    else str_lt a.hypothesis_id b.hypothesis_id

unfoldable pub add_checks : List EliminationCheck → List EliminationCheck → List EliminationCheck
add_checks [] out = out
add_checks (c ∷ cs) out = add_checks cs (if any (check_eq c) out then out else c ∷ out)

unfoldable pub all_checks : List ClassView → List EliminationCheck
all_checks [] = []
all_checks (v ∷ vs) = add_checks v.elimination_checks (all_checks vs)

unfoldable pub union_checks : List ClassView → List EliminationCheck
unfolding all_checks add_checks check_eq
union_checks vs = sorted check_lt (all_checks vs)

unfoldable pub checks_eq : List EliminationCheck → List EliminationCheck → Bool
unfolding check_eq
checks_eq [] [] = true
checks_eq (c ∷ cs) (d ∷ ds) = check_eq c d && checks_eq cs ds
checks_eq _ _ = false

unfoldable pub outcome_eq : Outcome → Outcome → Bool
outcome_eq no_compatible_hypothesis no_compatible_hypothesis = true
outcome_eq identified identified = true
outcome_eq non_identifiable non_identifiable = true
outcome_eq irreducible irreducible = true
outcome_eq uncertain uncertain = true
outcome_eq _ _ = false

-- equality of frozensets
unfoldable pub same_texts : List String → List String → Bool
same_texts a b = all (λ s. str_mem s b) a && all (λ s. str_mem s a) b

unfoldable pub has_evidence : EliminatedView → Bool
unfolding is_empty
has_evidence e = not (is_empty e.evidence)

-- the last check: a packet with no class cites why each hypothesis was eliminated
unfoldable pub cites : Outcome → List EliminatedView → Bool
unfolding has_evidence is_empty
cites o eliminated =
    if outcome_eq o no_compatible_hypothesis
    then not (is_empty eliminated) && all has_evidence eliminated
    else true

-- `StructuralResult.__post_init__`
unfoldable pub check_result : StructuralResult → Result StructuralResult
check_result r = do
  require (outcome_eq r.outcome (expected_outcome r.classes))
  require (texts_eq r.localization (summary_localization r.classes))
  require (same_texts r.d_missing (union_d_missing r.classes))
  require (checks_eq r.potential_elimination_checks (union_checks r.classes))
  require (cites r.outcome r.eliminated)
  ok r

module _ {S : Type 0} where
  unfoldable pub member_view : Hypothesis S → MemberView
  member_view h = record { id = h.id; kind = h.kind; localization = h.localization }

unfoldable pub checks_of : List String → String → List Contradiction → List EliminationCheck
checks_of usable i [] = []
checks_of usable i (c ∷ cs) =
    let rest = checks_of usable i cs in
    if str_mem c.observable_id usable
    then rest
    else record {
      hypothesis_id = i;
      observable_id = c.observable_id;
      eliminating_states = sorted str_lt c.states;
    }
      ∷ rest

unfoldable pub contradictions_of : Option ObservationModel → List Contradiction
contradictions_of none = []
contradictions_of (some m) = m.contradictions

unfoldable pub eliminating : List (String × String) → List Contradiction → List EvidenceItem
eliminating facts [] = []
eliminating facts (c ∷ cs) =
    let rest = eliminating facts cs in
    elim (lookup c.observable_id facts) [
      | none ↦ rest
      | some s ↦
          if str_mem s c.states
          then record {
            observable_id = c.observable_id;
            observed_state = s;
            expected_state = none;
            relation = hard_eliminates;
          }
            ∷ rest
          else rest
    ]

unfoldable pub by_item_id : EvidenceItem → EvidenceItem → Bool
by_item_id a b = str_lt a.observable_id b.observable_id

-- `_class_evidence`
unfoldable pub class_evidence : List (String × String) → Signature → List EvidenceItem
class_evidence facts [] = []
class_evidence facts ((f, predicted) ∷ s) =
    let rest = class_evidence facts s in
    elim (lookup f facts) [
      | none ↦ rest
      | some state ↦
          record {
            observable_id = f;
            observed_state = state;
            expected_state = some predicted;
            relation = if str_eq state predicted then supports else mismatch;
          }
          ∷ rest
    ]

module _ {S : Type 0} where
  unfoldable pub member_checks : List String → List (Hypothesis S) → List EliminationCheck
  unfolding checks_of contradictions_of
  member_checks usable [] = []
  member_checks usable (h ∷ hs) =
      checks_of usable h.id (contradictions_of h.observation_model) ++ member_checks usable hs

  unfoldable pub elimination_checks : List String → EquivalenceClass S → List EliminationCheck
  unfolding member_checks
  elimination_checks usable c = sorted check_lt (member_checks usable c.members)

  unfoldable pub eliminated_view : List (String × String) → Hypothesis S → EliminatedView
  eliminated_view facts h = record {
    member = member_view h;
    evidence = sorted by_item_id (eliminating facts (contradictions_of h.observation_model));
  }

  unfoldable pub class_view :
      List String → List (String × String) → EquivalenceClass S → Result ClassView
  class_view usable facts c = check_view (record {
    members = map member_view c.members;
    signature = c.signature;
    d_missing = c.d_missing;
    evidence = class_evidence facts c.signature;
    elimination_checks = elimination_checks usable c;
  })

  unfoldable pub class_views :
      List String → List (String × String) → List (EquivalenceClass S) → Result (List ClassView)
  class_views usable facts [] = ok []
  class_views usable facts (c ∷ cs) = do
    v ← class_view usable facts c
    vs ← class_views usable facts cs
    ok (v ∷ vs)

  -- `resolve`; `states p.usable` is `partition.usable_states`
  unfoldable pub resolve : Partition S → List Observable → Result StructuralResult
  resolve p observations = do
    views ← class_views (f_usable p) (states p.usable) p.classes
    gaps ← integration_gaps observations
    check_result (record {
      outcome = classify p;
      localization = summary_localization views;
      classes = views;
      d_missing = union_d_missing views;
      potential_elimination_checks = union_checks views;
      eliminated = map (eliminated_view (states p.usable)) p.eliminated;
      integration_gaps = gaps;
    })
