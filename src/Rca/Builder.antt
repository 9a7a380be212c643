-- ===== src/Rca/Builder.antt =====
-- src/core/rca/structural_model.py from the summaries on: the signals of the modalities are merged,
-- and made into observables and hypotheses. The rates and ratios of a summary, which nothing here
-- reads, are of a type `F`. A dict is the list of its pairs, with distinct keys; a set of call edges a
-- list of pairs.
pub mod Witness
pub mod Complete
pub mod Soft
pub mod Partitioned
mod Tests
use raglogs.Base.{
  str_lt, sorted, filter, any, str_mem, str_eq, String, Bool, false, Option, none, some, List, [],
  ◌∷◌, ◌++◌, map, if◌then◌else◌,
}
use raglogs.Rca.Result.{Result, ok, ◌>>◌, ◌>>=◌}
use raglogs.Rca.Observable.{Observable, one, post_init, observed_observable}
use raglogs.Rca.Expectations.{maybe, ExpectedObservation, check_expected}
use raglogs.Rca.Hypothesis.{process, Hypothesis, from_observation_model}
use raglogs.Rca.Expectations
use Prim.Native.String.{◌++◌ as append}

-- `State.PRESENT`, `State.ABSENT`
abbrev pub present : String
present = "present"

abbrev pub absent : String
absent = "absent"

pub record ServiceSignal (F : Type 0) : Type 0 where
  pub service : String
  pub error_rate : F
  pub latency_ratio : F
  pub error_measured : Bool
  pub latency_measured : Bool
  pub sig_state : Option String

pub record EdgeSignal (F : Type 0) : Type 0 where
  pub caller : String
  pub callee : String
  pub error_rate : F
  pub latency_ratio : F
  pub error_measured : Bool
  pub latency_measured : Bool
  pub sig_state : Option String

pub record UtilSignal (F : Type 0) : Type 0 where
  pub service : String
  pub resource : String
  pub ratio : F
  pub measured : Bool
  pub sig_state : Option String

-- `sig_state == state`
unfoldable pub is_state : String → Option String → Bool
is_state state none = false
is_state state (some s) = str_eq s state

unfoldable pub edge_observable_id : String → String → String
edge_observable_id caller callee = append "edge:" (append caller (append "->" callee))

unfoldable pub util_observable_id : String → String → String
util_observable_id service resource = append "util:" (append service (append ":" resource))

-- The texts of a list, each once, sorted: `sorted(set(…))`.
unfoldable pub add_once : String → List String → List String
unfolding str_mem
add_once s seen = if str_mem s seen then seen else s ∷ seen

unfoldable pub set_of : List String → List String
unfolding add_once
set_of [] = []
set_of (s ∷ rest) = add_once s (set_of rest)

unfoldable pub sorted_set : List String → List String
unfolding set_of sorted str_lt
sorted_set names = sorted str_lt (set_of names)

-- one part of `build_observables`, over the proven states
unfoldable pub observe : List (String × Option String) → Result (List Observable)
unfolding observed_observable
observe [] = ok []
observe ((id, none) ∷ rest) = observe rest
observe ((id, some state) ∷ rest) = do
  o ← observed_observable id state one
  os ← observe rest
  ok (o ∷ os)

-- `_callees(service, edges)`
unfoldable pub callees : String → List (String × String) → List String
callees service [] = []
callees service ((caller, callee) ∷ edges) =
    let rest = callees service edges in if str_eq caller service then callee ∷ rest else rest

-- the callees of the services whose fault no visible callee explains
unfoldable pub silent_callees : List String → List String → List (String × String) → List String
unfolding callees any str_mem
silent_callees hit [] edges = []
silent_callees hit (s ∷ rest) edges =
    let more = silent_callees hit rest edges in
    if any (λ c. str_mem c hit) (callees s edges) then more else callees s edges ++ more

-- `ExpectedObservation(id, State.PRESENT)`, checked
unfoldable pub expect_present : List String → Result (List ExpectedObservation)
unfolding check_expected
expect_present [] = ok []
expect_present (id ∷ names) = do
  checked ←
      check_expected (record { observable_id = id; expected_state = present; strength = maybe })
  rest ← expect_present names
  ok (record { observable_id = id; expected_state = present; strength = maybe } ∷ rest)

-- the order of pairs of texts
unfoldable pub pair_lt : String × String → String × String → Bool
unfolding str_lt
pair_lt a b = if str_eq a.0 b.0 then str_lt a.1 b.1 else str_lt a.0 b.0

module _ {F : Type 0} where
  unfoldable pub anomalous : ServiceSignal F → Bool
  unfolding is_state
  anomalous sig = is_state present sig.sig_state

  -- `src.get(svc)`
  unfoldable pub signal_of : String → List (String × ServiceSignal F) → Option (ServiceSignal F)
  signal_of svc [] = none
  signal_of svc ((name, sig) ∷ rest) = if str_eq name svc then some sig else signal_of svc rest

  -- `[src[svc] for src in sources if svc in src]`
  unfoldable pub signals_of :
      String → List (List (String × ServiceSignal F)) → List (ServiceSignal F)
  unfolding signal_of
  signals_of svc [] = []
  signals_of svc (source ∷ sources) =
      let rest = signals_of svc sources in
      elim (signal_of svc source) [ none ↦ rest | some sig ↦ sig ∷ rest ]

  -- `next((s for s in sigs if s.sig_state == state), None)`
  unfoldable pub first_in : String → List (ServiceSignal F) → Option (ServiceSignal F)
  unfolding is_state
  first_in state [] = none
  first_in state (sig ∷ sigs) =
      let rest = first_in state sigs in if is_state state sig.sig_state then some sig else rest

  -- `… or … or sigs[0]`
  unfoldable pub witness_of : ServiceSignal F → List (ServiceSignal F) → ServiceSignal F
  unfolding first_in
  witness_of head rest = elim (first_in present (head ∷ rest)) [
    | some sig ↦ sig
    | none ↦ elim (first_in absent (head ∷ rest)) [ some sig ↦ sig | none ↦ head ]
  ]

  unfoldable pub merged :
      String
      → List (ServiceSignal F)
      → List (String × ServiceSignal F)
      → List (String × ServiceSignal F)
  unfolding witness_of
  merged svc [] out = out
  merged svc (head ∷ rest) out = (svc, witness_of head rest) ∷ out

  unfoldable pub combine_for :
      List String → List (List (String × ServiceSignal F)) → List (String × ServiceSignal F)
  unfolding merged signals_of
  combine_for [] sources = []
  combine_for (svc ∷ services) sources =
      merged svc (signals_of svc sources) (combine_for services sources)

  -- the keys of all the sources
  unfoldable pub services_of : List (List (String × ServiceSignal F)) → List String
  services_of [] = []
  services_of (source ∷ sources) = map (λ p. p.0) source ++ services_of sources

  unfoldable pub combine_signals :
      List (List (String × ServiceSignal F)) → List (String × ServiceSignal F)
  unfolding combine_for services_of sorted_set
  combine_signals sources = combine_for (sorted_set (services_of sources)) sources

  unfoldable pub build_observables :
      List (String × ServiceSignal F)
      → List (EdgeSignal F)
      → List (UtilSignal F)
      → Result (List Observable)
  unfolding observe edge_observable_id util_observable_id sorted str_lt pair_lt
  build_observables signals edge_signals util_signals = observe (
      map (λ p. (append "sig:" p.0, (p.1).sig_state)) (sorted (λ a b. str_lt a.0 b.0) signals)
      ++ map (λ e. (edge_observable_id e.caller e.callee, e.sig_state))
          (sorted (λ a b. pair_lt (a.caller, a.callee) (b.caller, b.callee)) edge_signals)
      ++ map (λ u. (util_observable_id u.service u.resource, u.sig_state))
          (sorted (λ a b. pair_lt (a.service, a.resource) (b.service, b.resource)) util_signals))

  unfoldable pub anomalous_services : List (String × ServiceSignal F) → List String
  unfolding anomalous filter
  anomalous_services signals = map (λ p. p.0) (filter (λ p. anomalous p.1) signals)

  unfoldable pub candidates :
      List (String × ServiceSignal F)
      → List (String × String)
      → List (EdgeSignal F)
      → List (UtilSignal F)
      → List String
  unfolding anomalous_services silent_callees is_state filter sorted_set
  candidates signals edges edge_signals util_signals =
      let hit = anomalous_services signals in
      sorted_set (
        hit
        ++ silent_callees hit hit edges
        ++ map (λ e. e.callee) (filter (λ e. is_state present e.sig_state) edge_signals)
        ++ map (λ u. u.service) (filter (λ u. is_state present u.sig_state) util_signals))

  -- `sorted(expected_extra[svc])`
  unfoldable pub expected_extra : String → List (EdgeSignal F) → List (UtilSignal F) → List String
  unfolding edge_observable_id util_observable_id filter sorted str_lt
  expected_extra svc edge_signals util_signals = sorted str_lt (
      map (λ e. edge_observable_id e.caller e.callee)
        (filter (λ e. str_eq e.callee svc) edge_signals)
      ++ map (λ u. util_observable_id u.service u.resource)
          (filter (λ u. str_eq u.service svc) util_signals))

  unfoldable pub hypothesis_of :
      {S : Type 0} → List (EdgeSignal F) → List (UtilSignal F) → String → Result (Hypothesis S)
  unfolding expect_present expected_extra
  hypothesis_of edge_signals util_signals svc = do
    expected ← expect_present (append "sig:" svc ∷ expected_extra svc edge_signals util_signals)
    model ← Expectations.post_init (record { expected = expected; contradictions = [] })
    from_observation_model (append "process:" svc) process svc model none

  unfoldable pub hypotheses_of :
      {S : Type 0}
      → List (EdgeSignal F)
      → List (UtilSignal F)
      → List String
      → Result (List (Hypothesis S))
  unfolding hypothesis_of
  hypotheses_of edge_signals util_signals [] = ok []
  hypotheses_of edge_signals util_signals (svc ∷ services) = do
    h ← hypothesis_of edge_signals util_signals svc
    hs ← hypotheses_of edge_signals util_signals services
    ok (h ∷ hs)

  unfoldable pub build_hypotheses :
      {S : Type 0}
      → List (String × ServiceSignal F)
      → List (String × String)
      → List (EdgeSignal F)
      → List (UtilSignal F)
      → Result (List (Hypothesis S))
  unfolding hypotheses_of candidates
  build_hypotheses signals edges edge_signals util_signals =
      hypotheses_of edge_signals util_signals (candidates signals edges edge_signals util_signals)
