-- ===== src/Rca/Hypothesis.antt =====
-- src/core/rca/hypothesis.py. The provenance of a hypothesis, a ranked candidate, is a type
-- parameter `S`: the inference must not read it. Its defensive copies and the serialisation to a
-- dict are left out.
use raglogs.Base.{
  str_mem, str_eq, String, Bool, true, false, not, ◌&&◌, ◌||◌, Option, none, some, List, [], ◌∷◌,
}
use Prim.Native.String.{◌++◌ as append}
use raglogs.Rca.Result.{Result, ok, require, ◌>>=◌, ◌>>◌}
use raglogs.Rca.Observable.{Observable, lookup}
use raglogs.Rca.Expectations.{
  ObservationModel, ExpectedObservation, Contradiction, Strength, usually, often, maybe,
  not_required, all, is_empty, Support, states,
}
use raglogs.Rca.Expectations

pub data Kind : Type 0 where
  process edge resource infra_event change external : Kind

pub record Hypothesis (S : Type 0) : Type 0 where
  pub id : String
  pub kind : Kind
  pub localization : String
  pub predictions : List (String × String)
  pub observation_model : Option ObservationModel
  pub source : Option S

-- Equality of dicts of texts: the same pairs, in any order. The keys of a dict are distinct.
unfoldable pub is_entry : List (String × String) → String × String → Bool
is_entry m (k, v) = elim (lookup k m) [ none ↦ false | some w ↦ str_eq v w ]

unfoldable pub same_mapping : List (String × String) → List (String × String) → Bool
unfolding is_entry
same_mapping a b = all (is_entry b) a && all (is_entry a) b

-- the model's own expectations, or the mapping that was supplied if there is no model
unfoldable pub authoritative :
    List (String × String) → Option ObservationModel → Result (List (String × String))
unfolding same_mapping
authoritative supplied none = ok supplied
authoritative supplied (some m) = do
  require (is_empty supplied || same_mapping supplied (Expectations.predictions m))
  ok (Expectations.predictions m)

unfoldable pub incompatible : Option ObservationModel → List Observable → Result Bool
incompatible none os = ok false
incompatible (some m) os = Expectations.hard_incompatibility m os

unfoldable pub supported : Option ObservationModel → List Observable → Result Support
supported none os = ok (record { gained = 0; lost = 0 })
supported (some m) os = Expectations.soft_support m os

module _ {S : Type 0} where
  -- `__post_init__`
  unfoldable pub post_init : Hypothesis S → Result (Hypothesis S)
  unfolding authoritative
  post_init h = do
    require (not (str_eq h.id ""))
    require (not (str_eq h.localization ""))
    supplied ← authoritative h.predictions h.observation_model
    ok (record h { predictions = supplied })

  unfoldable pub hard_incompatibility : Hypothesis S → List Observable → Result Bool
  unfolding incompatible
  hard_incompatibility h os = incompatible h.observation_model os

  unfoldable pub soft_support : Hypothesis S → List Observable → Result Support
  unfolding supported
  soft_support h os = supported h.observation_model os

  unfoldable pub from_observation_model :
      String → Kind → String → ObservationModel → Option S → Result (Hypothesis S)
  from_observation_model id kind localization model source = post_init (record {
    id = id;
    kind = kind;
    localization = localization;
    predictions = Expectations.predictions model;
    observation_model = some model;
    source = source;
  })

  -- `process_hypothesis_from_candidate`, given the service of the candidate
  unfoldable pub process_hypothesis_from_candidate : (S → String) → S → Result (Hypothesis S)
  process_hypothesis_from_candidate service candidate = post_init (record {
    id = append "process:" (service candidate);
    kind = process;
    localization = service candidate;
    predictions = [];
    observation_model = none;
    source = some candidate;
  })

  unfoldable pub hypotheses_from_candidates : (S → String) → List S → Result (List (Hypothesis S))
  hypotheses_from_candidates service [] = ok []
  hypotheses_from_candidates service (c ∷ cs) = do
    h ← process_hypothesis_from_candidate service c
    hs ← hypotheses_from_candidates service cs
    ok (h ∷ hs)

-- Equality of what `_identity` names, part by part.
unfoldable pub kind_eq : Kind → Kind → Bool
kind_eq process process = true
kind_eq edge edge = true
kind_eq resource resource = true
kind_eq infra_event infra_event = true
kind_eq change change = true
kind_eq external external = true
kind_eq _ _ = false

unfoldable pub strength_eq : Strength → Strength → Bool
strength_eq usually usually = true
strength_eq often often = true
strength_eq maybe maybe = true
strength_eq not_required not_required = true
strength_eq _ _ = false

unfoldable pub expected_eq : List ExpectedObservation → List ExpectedObservation → Bool
unfolding strength_eq
expected_eq [] [] = true
expected_eq (d ∷ ds) (e ∷ es) =
    str_eq d.observable_id e.observable_id
    && str_eq d.expected_state e.expected_state
    && strength_eq d.strength e.strength
    && expected_eq ds es
expected_eq _ _ = false

-- `states` is a frozenset
unfoldable pub contradictions_eq : List Contradiction → List Contradiction → Bool
contradictions_eq [] [] = true
contradictions_eq (c ∷ cs) (d ∷ ds) =
    str_eq c.observable_id d.observable_id
    && all (λ s. str_mem s d.states) c.states
    && all (λ s. str_mem s c.states) d.states
    && contradictions_eq cs ds
contradictions_eq _ _ = false

unfoldable pub model_eq : Option ObservationModel → Option ObservationModel → Bool
unfolding expected_eq contradictions_eq
model_eq none none = true
model_eq (some a) (some b) =
    expected_eq a.expected b.expected && contradictions_eq a.contradictions b.contradictions
model_eq _ _ = false

-- `__eq__`: everything but the provenance.
unfoldable pub hypothesis_eq : {S : Type 0} → Hypothesis S → Hypothesis S → Bool
unfolding kind_eq model_eq same_mapping
hypothesis_eq g h =
    str_eq g.id h.id
    && kind_eq g.kind h.kind
    && str_eq g.localization h.localization
    && same_mapping g.predictions h.predictions
    && model_eq g.observation_model h.observation_model
