-- ===== src/Rca/Builder/Tests.antt =====
-- Concrete signals for src/core/rca/structural_model.py.
use raglogs.Base.{
  filter, str_mem, ℕ, String, ◌≡◌, refl, inl, inr, Bool, true, false, Option, none, some, List, [],
  ◌∷◌, In,
}
use raglogs.Rca.Partition.{
  UsabilityPolicy, usable_observations, EquivalenceClass, Partition, distinct, partition, tau_for,
  is_trusted, find_id, distinct_from,
}
use raglogs.Rca.Builder.Partitioned.{build_hypotheses-partition}
use raglogs.Rca.Result.{ok, ◌>>=◌}
use raglogs.Rca.Observable.{
  one, observed_observable, lookup, observed, Observable, is_usable, by_id_from, by_id,
  usable_observables,
}
use raglogs.Rca.Expectations.{
  post_init as check_model, maybe, ExpectedObservation, predictions, is_empty, distinct_ids,
  is_coherent, all,
}
use raglogs.Rca.Builder.{
  ServiceSignal, EdgeSignal, signals_of, services_of, combine_signals, build_observables,
  build_hypotheses,
}
use raglogs.Rca.Builder.Witness.{IsWitness}
use raglogs.Rca.Builder.Complete.{combine_signals_complete}
use raglogs.Rca.Hypothesis.{
  post_init as check_hypothesis, process, Hypothesis, from_observation_model,
}

abbrev sig : String → Option String → String × ServiceSignal ℕ
sig service state = (
  service,
  record {
    service = service;
    error_rate = 0;
    latency_ratio = 1;
    error_measured = true;
    latency_measured = true;
    sig_state = state;
  },
)

-- One modality proves "db" anomalous, the other one measured it as normal; "web" is unknown.
abbrev spans : List (String × ServiceSignal ℕ)
spans = sig "web" none ∷ sig "db" (some "absent") ∷ []

abbrev metrics : List (String × ServiceSignal ℕ)
metrics = sig "db" (some "present") ∷ []

combine_test :
    combine_signals (spans ∷ metrics ∷ []) ≡ sig "db" (some "present") ∷ sig "web" none ∷ []
unfolding combine_signals
combine_test = refl

combine_signals_complete_example :
    (w : ServiceSignal ℕ) × In ("db", w) (combine_signals (spans ∷ metrics ∷ []))
    × IsWitness (signals_of "db" (spans ∷ metrics ∷ [])) w
unfolding services_of
combine_signals_complete_example =
    combine_signals_complete (spans ∷ metrics ∷ []) "db" (inr (inl refl))

abbrev edge : EdgeSignal ℕ
edge = record {
  caller = "web";
  callee = "db";
  error_rate = 0;
  latency_ratio = 3;
  error_measured = false;
  latency_measured = true;
  sig_state = some "present";
}

abbrev expected_present : String → ExpectedObservation
expected_present id = record { observable_id = id; expected_state = "present"; strength = maybe }

abbrev db_process : Hypothesis ℕ
db_process = record {
  id = "process:db";
  kind = process;
  localization = "db";
  predictions = ("sig:db", "present") ∷ ("edge:web->db", "present") ∷ [];
  observation_model = some (record {
    expected = expected_present "sig:db" ∷ expected_present "edge:web->db" ∷ [];
    contradictions = [];
  });
  source = none;
}

build_test : build_hypotheses metrics (("web", "db") ∷ []) (edge ∷ []) [] ≡ ok (db_process ∷ [])
unfolding build_hypotheses check_model distinct_ids all is_coherent from_observation_model
    check_hypothesis is_empty predictions lookup
build_test = refl

observables_test :
    build_observables {F = ℕ} spans [] []
    ≡ observed_observable "sig:db" "absent" one >>= (λ o. ok (o ∷ []))
unfolding build_observables
observables_test = refl

-- The database is seen as normal, which its hypothesis does not predict.
abbrev seen : Observable
seen = record {
  id = "sig:db";
  collectable = true;
  availability = observed;
  state = some "absent";
  measurement_confidence = 1000000;
}

abbrev policy : UsabilityPolicy
policy = record { default_tau = 500000; tau = [] }

abbrev same_source : Option ℕ → Option ℕ → Bool
same_source a b = true

seen_usable : usable_observations policy (seen ∷ []) ≡ ok (seen ∷ [])
unfolding usable_observations usable_observables by_id by_id_from str_mem filter is_usable
    is_trusted tau_for
seen_usable = refl

one_kept : distinct same_source (db_process ∷ []) ≡ ok (db_process ∷ [])
unfolding distinct distinct_from find_id
one_kept = refl

build_hypotheses-partition_example :
    (p : Partition ℕ) × (partition same_source (db_process ∷ []) (seen ∷ []) policy ≡ ok p)
    × (p.eliminated ≡ [])
    × ((c : EquivalenceClass ℕ) × In c p.classes × In db_process c.members)
unfolding build_hypotheses check_model distinct_ids all is_coherent from_observation_model
    check_hypothesis is_empty predictions lookup
build_hypotheses-partition_example =
    build_hypotheses-partition same_source metrics (("web", "db") ∷ []) (edge ∷ []) []
      (db_process ∷ []) (db_process ∷ []) (seen ∷ []) (seen ∷ []) policy db_process refl seen_usable
      one_kept (inl refl)
