-- ===== src/Rca/Expectations.antt =====
-- src/core/rca/expectations.py. A weight is a whole number of tenths.
pub mod Facts
pub mod Layers
pub mod Models
use raglogs.Base.{
  any, str_mem, str_eq, ℕ, ◌+◌, String, Bool, true, false, not, ◌||◌, Option, none, some, List, [],
  ◌∷◌, map, if◌then◌else◌,
}
use raglogs.Rca.Result.{Result, ok, require, ◌>>=◌, ◌>>◌}
use raglogs.Rca.Observable.{Observable, usable_observables, lookup}

pub data Strength : Type 0 where
  usually often maybe not_required : Strength

unfoldable pub weight : Strength → ℕ
weight usually = 10
weight often = 6
weight maybe = 3
weight not_required = 0

pub record ExpectedObservation : Type 0 where
  pub observable_id : String
  pub expected_state : String
  pub strength : Strength

pub record Contradiction : Type 0 where
  pub observable_id : String
  pub states : List String

-- the two `__post_init__`
unfoldable pub check_expected : ExpectedObservation → Result (Unit {0})
check_expected e = do
  require (not (str_eq e.observable_id ""))
  require (not (str_eq e.expected_state ""))

unfoldable pub is_empty {ℓ} : {A : Type ℓ} → List A → Bool
is_empty [] = true
is_empty (x ∷ xs) = false

unfoldable pub check_contradiction : Contradiction → Result (Unit {0})
unfolding is_empty
check_contradiction c = do
  require (not (str_eq c.observable_id ""))
  require (not (is_empty c.states || any (λ s. str_eq s "") c.states))

pub record ObservationModel : Type 0 where
  pub expected : List ExpectedObservation
  pub contradictions : List Contradiction

-- The first two loops of `ObservationModel.__post_init__`: no id twice.
unfoldable pub distinct_ids : List String → List String → Bool
distinct_ids seen [] = true
distinct_ids seen (i ∷ is) = if str_mem i seen then false else distinct_ids (i ∷ seen) is

-- `contra_states.get(id)`
unfoldable pub states_of : String → List Contradiction → Option (List String)
states_of i [] = none
states_of i (c ∷ cs) = if str_eq c.observable_id i then some c.states else states_of i cs

unfoldable pub is_coherent : List Contradiction → ExpectedObservation → Bool
unfolding states_of
is_coherent cs e = elim (states_of e.observable_id cs) [
  | none ↦ true
  | some states ↦ not (str_mem e.expected_state states)
]

unfoldable pub all {ℓ} : {A : Type ℓ} → (A → Bool) → List A → Bool
all p [] = true
all p (x ∷ xs) = if p x then all p xs else false

-- `ObservationModel.__post_init__`
unfoldable pub post_init : ObservationModel → Result ObservationModel
post_init m = do
  require (distinct_ids [] (map (λ e. e.observable_id) m.expected))
  require (distinct_ids [] (map (λ c. c.observable_id) m.contradictions))
  require (all (is_coherent m.contradictions) m.expected)
  ok m

-- `_observed_states`
unfoldable pub states : List Observable → List (String × String)
states [] = []
states (o ∷ os) = elim o.state [ none ↦ states os | some s ↦ (o.id, s) ∷ states os ]

unfoldable pub observed_states : List Observable → Result (List (String × String))
unfolding states
observed_states os = do xs ← usable_observables os; ok (states xs)

unfoldable pub predictions : ObservationModel → List (String × String)
predictions m = map (λ e. (e.observable_id, e.expected_state)) m.expected

-- `observed.get(c.observable_id) in c.states`
unfoldable pub contradicts : List (String × String) → Contradiction → Bool
contradicts facts c = elim (lookup c.observable_id facts) [
  | none ↦ false
  | some s ↦ str_mem s c.states
]

unfoldable pub hard_incompatibility : ObservationModel → List Observable → Result Bool
hard_incompatibility m os = do
  facts ← observed_states os
  ok (any (contradicts facts) m.contradictions)

-- The weights that `soft_support` adds, and those that it subtracts; its result is their difference.
unfoldable pub matching : List (String × String) → List ExpectedObservation → ℕ
matching facts [] = 0
matching facts (e ∷ es) = elim (lookup e.observable_id facts) [
  | none ↦ matching facts es
  | some s ↦
      if str_eq s e.expected_state then weight e.strength + matching facts es else matching facts es
]

unfoldable pub mismatching : List (String × String) → List ExpectedObservation → ℕ
mismatching facts [] = 0
mismatching facts (e ∷ es) = elim (lookup e.observable_id facts) [
  | none ↦ mismatching facts es
  | some s ↦
      if str_eq s e.expected_state
      then mismatching facts es
      else weight e.strength + mismatching facts es
]

pub record Support : Type 0 where
  pub gained : ℕ
  pub lost : ℕ

unfoldable pub soft_support : ObservationModel → List Observable → Result Support
unfolding matching mismatching weight
soft_support m os = do
  facts ← observed_states os
  ok (record { gained = matching facts m.expected; lost = mismatching facts m.expected })
