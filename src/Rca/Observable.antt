-- ===== src/Rca/Observable.antt =====
-- src/core/rca/observable.py. A confidence is a whole number of millionths. The numeric value and
-- the baselines of an observable, which nothing here reads, are left out, as are the checks of
-- run-time types, which the types of the fields state.
pub mod Ids
use raglogs.Base.{
  str_lt, sorted, filter, str_mem, str_eq, ℕ, ◌+◌, String, Bool, true, false, not, ◌&&◌, Option,
  none, some, List, [], ◌∷◌, map, leb, if◌then◌else◌,
}
use raglogs.Rca.Result.{Result, ok, value_error, require, ◌>>=◌, ◌>>◌}

pub data Availability : Type 0 where
  unknown observed : Availability

pub record Observable : Type 0 where
  pub id : String
  pub collectable : Bool
  pub availability : Availability
  pub state : Option String
  pub measurement_confidence : ℕ

abbrev pub one : ℕ
one = 1000000

unfoldable pub is_observed : Availability → Bool
is_observed observed = true
is_observed unknown = false

unfoldable pub has_state : Option String → Bool
has_state none = false
has_state (some s) = true

-- `__post_init__`: the checks in the order of the source, and the observable itself.
unfoldable pub post_init : Observable → Result Observable
unfolding is_observed has_state
post_init o = do
  require (not (str_eq o.id ""))
  require (not (is_observed o.availability && not (has_state o.state)))
  require (not (not (is_observed o.availability) && has_state o.state))
  require (not (not o.collectable && is_observed o.availability))
  require (leb o.measurement_confidence one)
  ok o

unfoldable pub is_usable : Observable → Bool
unfolding is_observed
is_usable o = o.collectable && is_observed o.availability

unfoldable pub unknown_observable : String → ℕ → Result Observable
unfolding post_init
unknown_observable id confidence = post_init (record {
  id = id;
  collectable = true;
  availability = unknown;
  state = none;
  measurement_confidence = confidence;
})

unfoldable pub observed_observable : String → String → ℕ → Result Observable
unfolding post_init
observed_observable id state confidence = post_init (record {
  id = id;
  collectable = true;
  availability = observed;
  state = some state;
  measurement_confidence = confidence;
})

unfoldable pub uncollectable : String → Result Observable
unfolding post_init
uncollectable id = post_init (record {
  id = id;
  collectable = false;
  availability = unknown;
  state = none;
  measurement_confidence = one;
})

-- `_by_id`: the observables in order, or an error at a repeated id. `seen` are the ids so far.
unfoldable pub by_id_from : List String → List Observable → Result (List Observable)
by_id_from seen [] = ok []
by_id_from seen (o ∷ os) =
    let rest = by_id_from (o.id ∷ seen) os in
    if str_mem o.id seen then value_error else (do xs ← rest; ok (o ∷ xs))

unfoldable pub by_id : List Observable → Result (List Observable)
by_id os = by_id_from [] os

unfoldable pub usable_observables : List Observable → Result (List Observable)
usable_observables os = do xs ← by_id os; ok (filter is_usable xs)

abbrev pub ids : List Observable → List String
ids = map (λ o. o.id)

unfoldable pub usable_ids : List Observable → Result (List String)
usable_ids os = do xs ← usable_observables os; ok (sorted str_lt (ids xs))

-- A mapping of texts to texts, as the pairs of a dict in their order.
unfoldable pub lookup : String → List (String × String) → Option String
lookup k [] = none
lookup k ((j, v) ∷ m) = if str_eq j k then some v else lookup k m

-- `tuple((f, prediction[f]) for f in ids if f in prediction)`
unfoldable pub project : List (String × String) → List String → List (String × String)
project prediction [] = []
project prediction (f ∷ fs) = elim (lookup f prediction) [
  | none ↦ project prediction fs
  | some v ↦ (f, v) ∷ project prediction fs
]

unfoldable pub hypothesis_signature :
    List (String × String) → List Observable → Result (List (String × String))
hypothesis_signature prediction os = do fs ← usable_ids os; ok (project prediction fs)

-- the body of the loop of `evidence_score`, in millionths
unfoldable pub support : List (String × String) → Observable → ℕ
support expectations o = elim (lookup o.id expectations) [
  | none ↦ 0
  | some expected ↦ elim o.state [
    | none ↦ 0
    | some s ↦ if str_eq s expected then o.measurement_confidence else 0
  ]
]

unfoldable pub total_support : List (String × String) → List Observable → ℕ
total_support expectations [] = 0
total_support expectations (o ∷ os) = support expectations o + total_support expectations os

unfoldable pub evidence_score : List (String × String) → List Observable → Result ℕ
evidence_score expectations os = do xs ← usable_observables os; ok (total_support expectations xs)

unfoldable pub integration_gaps : List Observable → Result (List String)
integration_gaps os = do
  xs ← by_id os
  ok (sorted str_lt (ids (filter (λ o. not o.collectable) xs)))

-- `ObservableSet(observables)`
unfoldable pub observable_set : List Observable → Result (List Observable)
observable_set os = do xs ← by_id os; ok os
