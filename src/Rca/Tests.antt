-- ===== src/Rca/Tests.antt =====
-- A concrete inference, for src/core/rca: three hypotheses over two coordinates, of which one is
-- measured.
use raglogs.Base.{
  sorted, filter, any, str_mem, ℕ, ◌≡◌, refl, ◌↔◌, inl, inr, Bool, true, false, ◌&&◌, Option, none,
  some, List, [], ◌∷◌, map, ◌==◌, In,
}
use raglogs.Rca.Outcome.{
  StructuralResult, resolve, classify, ClassView, EliminatedView, member_view, contradictions_of,
  identified,
}
use raglogs.Rca.Outcome.Resolve.{resolve-total}
use raglogs.Rca.Result.{ok}
use raglogs.Rca.Observable.{
  Observable, observed, usable_observables, by_id_from, by_id, is_usable, lookup, integration_gaps,
}
use raglogs.Rca.Expectations.{
  is_empty, states, ExpectedObservation, Contradiction, ObservationModel, Strength, usually, maybe,
  hard_incompatibility, contradicts, post_init, distinct_ids, all, is_coherent, observed_states,
}
use raglogs.Rca.Expectations.Models.{process_dead_model, edge_network_failure_model}
use raglogs.Rca.Expectations.Layers.{Refutes, hard_incompatibility_iff, post_init-coherent}
use raglogs.Rca.Hypothesis
use raglogs.Rca.Hypothesis.{Hypothesis, process, edge, resource}
use raglogs.Rca.Partition.{
  Partition, EquivalenceClass, UsabilityPolicy, usable_observations, is_trusted, threshold, tau_for,
  partition, distinct, distinct_from, find_id, signature, sorted_ids, d_missing,
}
use raglogs.Rca.Partition.Classes.{IsPartition, partition_lem}
use raglogs.Rca.Partition.SameClass.{same_class_iff}
use raglogs.Rca.Partition.Evidence.{partition_drop}
use raglogs.Rca.Partition.Missing.{Separates, SomePair, In-d_missing}

abbrev latency : Observable
latency = record {
  id = "latency";
  collectable = true;
  availability = observed;
  state = some "high";
  measurement_confidence = 900000;
}

-- Measured, but hardly trusted.
abbrev pool : Observable
pool = record {
  id = "pool";
  collectable = true;
  availability = observed;
  state = some "full";
  measurement_confidence = 100000;
}

abbrev expects_high : ExpectedObservation
expects_high = record { observable_id = "latency"; expected_state = "high"; strength = usually }

abbrev never_high : Contradiction
never_high = record { observable_id = "latency"; states = "high" ∷ [] }

abbrev never_low : Contradiction
never_low = record { observable_id = "latency"; states = "low" ∷ [] }

abbrev slow_model : ObservationModel
slow_model = record { expected = expects_high ∷ []; contradictions = never_low ∷ [] }

abbrev fast_model : ObservationModel
fast_model = record { expected = []; contradictions = never_high ∷ [] }

abbrev slow_db : Hypothesis ℕ
slow_db = record {
  id = "slow_db";
  kind = resource;
  localization = "db";
  predictions = ("latency", "high") ∷ [];
  observation_model = some slow_model;
  source = none;
}

abbrev slow_api : Hypothesis ℕ
slow_api = record {
  id = "slow_api";
  kind = process;
  localization = "api";
  predictions = ("latency", "high") ∷ ("pool", "full") ∷ [];
  observation_model = none;
  source = some 1;
}

abbrev fast_path : Hypothesis ℕ
fast_path = record {
  id = "fast_path";
  kind = edge;
  localization = "api";
  predictions = [];
  observation_model = some fast_model;
  source = none;
}

abbrev suspects : List (Hypothesis ℕ)
suspects = slow_db ∷ slow_api ∷ fast_path ∷ []

abbrev same_source : Option ℕ → Option ℕ → Bool
same_source none none = true
same_source (some m) (some n) = m == n
same_source _ _ = false

abbrev policy : UsabilityPolicy
policy = record { default_tau = 500000; tau = [] }

usable_latency : usable_observations policy (latency ∷ pool ∷ []) ≡ ok (latency ∷ [])
unfolding usable_observations usable_observables by_id by_id_from str_mem filter is_usable
    is_trusted tau_for
usable_latency = refl

all_distinct : distinct same_source suspects ≡ ok suspects
unfolding distinct distinct_from find_id
all_distinct = refl

found :
    (p : Partition ℕ) × (partition same_source suspects (latency ∷ pool ∷ []) policy ≡ ok p)
    × IsPartition (latency ∷ []) suspects p
found =
    partition_lem same_source suspects suspects (latency ∷ pool ∷ []) (latency ∷ []) policy slow_db
      usable_latency all_distinct (inl refl)

slow_db-survives : Hypothesis.hard_incompatibility slow_db (latency ∷ []) ≡ ok false
unfolding Hypothesis.hard_incompatibility hard_incompatibility observed_states usable_observables
    by_id by_id_from str_mem any contradicts lookup filter is_usable
slow_db-survives = refl

slow_api-survives : Hypothesis.hard_incompatibility slow_api (latency ∷ []) ≡ ok false
unfolding Hypothesis.hard_incompatibility
slow_api-survives = refl

class_of_db : (c : EquivalenceClass ℕ) × In c found.0.classes × In slow_db c.members
class_of_db = found.2.covers slow_db (inl refl) slow_db-survives

class_of_api : (c : EquivalenceClass ℕ) × In c found.0.classes × In slow_api c.members
class_of_api = found.2.covers slow_api (inr (inl refl)) slow_api-survives

same_class_iff_example : (class_of_db.0 ≡ class_of_api.0) ↔ (
    signature (sorted_ids (latency ∷ [])) slow_db ≡ signature (sorted_ids (latency ∷ [])) slow_api)
same_class_iff_example =
    same_class_iff same_source suspects suspects (latency ∷ pool ∷ []) (latency ∷ []) policy found.0
      class_of_db.0 class_of_api.0 slow_db slow_api usable_latency all_distinct found.1
      class_of_db.1 class_of_api.1 class_of_db.2 class_of_api.2

partition_lem_example :
    (p : Partition ℕ) × (partition same_source suspects (latency ∷ pool ∷ []) policy ≡ ok p)
    × IsPartition (latency ∷ []) suspects p
partition_lem_example =
    partition_lem same_source suspects suspects (latency ∷ pool ∷ []) (latency ∷ []) policy slow_db
      usable_latency all_distinct (inl refl)

pool_untrusted : is_usable pool && is_trusted policy pool ≡ false
unfolding is_trusted threshold is_usable tau_for
pool_untrusted = refl

partition_drop_example :
    partition same_source suspects (latency ∷ []) policy
    ≡ partition same_source suspects (latency ∷ pool ∷ []) policy
partition_drop_example =
    partition_drop same_source suspects (latency ∷ []) pool [] (latency ∷ []) policy usable_latency
      pool_untrusted

In-d_missing_example :
    In "pool" (d_missing (slow_db ∷ slow_api ∷ []) ("latency" ∷ []))
    ↔ SomePair (Separates ("latency" ∷ []) "pool") (slow_db ∷ slow_api ∷ [])
In-d_missing_example = In-d_missing (slow_db ∷ slow_api ∷ []) ("latency" ∷ []) "pool"

fast_refuted : hard_incompatibility fast_model (latency ∷ pool ∷ []) ≡ ok true
unfolding hard_incompatibility observed_states usable_observables by_id by_id_from str_mem any
    contradicts lookup filter is_usable
fast_refuted = refl

hard_incompatibility_iff_example :
    ◌≡◌ {A = Bool} true true ↔ Refutes fast_model (latency ∷ pool ∷ [])
hard_incompatibility_iff_example =
    hard_incompatibility_iff fast_model (latency ∷ pool ∷ []) true fast_refuted

abbrev always_maybe : ExpectedObservation → Strength
always_maybe e = maybe

slow_model-accepted : post_init slow_model ≡ ok slow_model
unfolding post_init distinct_ids str_mem all is_coherent
slow_model-accepted = refl

latency_found : lookup "latency" (("latency", "high") ∷ []) ≡ some "high"
unfolding lookup
latency_found = refl

post_init-coherent_example : contradicts (("latency", "high") ∷ []) never_low ≡ false
post_init-coherent_example =
    post_init-coherent slow_model slow_model (("latency", "high") ∷ []) expects_high never_low
      slow_model-accepted (inl refl) (inl refl) refl latency_found

dead_api-accepted : post_init (process_dead_model "api") ≡ ok (process_dead_model "api")
unfolding post_init process_dead_model distinct_ids str_mem all is_coherent
dead_api-accepted = refl

edge-accepted :
    post_init (edge_network_failure_model "web" "api") ≡ ok (edge_network_failure_model "web" "api")
unfolding post_init edge_network_failure_model distinct_ids str_mem all is_coherent
edge-accepted = refl

-- The class of the slow database, with the fast path eliminated.
abbrev slow_class : EquivalenceClass ℕ
slow_class = record { signature = ("latency", "high") ∷ []; members = slow_db ∷ []; d_missing = [] }

abbrev verdict : Partition ℕ
verdict = record { classes = slow_class ∷ []; usable = latency ∷ []; eliminated = fast_path ∷ [] }

verdict-some : is_empty verdict.classes && is_empty verdict.eliminated ≡ false
unfolding is_empty
verdict-some = refl

slow_class-populated : is_empty slow_class.members ≡ false
unfolding is_empty
slow_class-populated = refl

fast_path-refuted :
    any (contradicts (states verdict.usable)) (contradictions_of fast_path.observation_model) ≡ true
unfolding any contradicts states contradictions_of lookup str_mem
fast_path-refuted = refl

no_gaps : integration_gaps (latency ∷ []) ≡ ok []
unfolding integration_gaps by_id by_id_from filter sorted str_mem
no_gaps = refl

all_populated : (c : EquivalenceClass ℕ) → In c verdict.classes → is_empty c.members ≡ false
all_populated c (inl e) = rw e slow_class-populated
all_populated c (inr later) = absurd later

all_refuted :
    (h : Hypothesis ℕ)
    → In h verdict.eliminated
    → any (contradicts (states verdict.usable)) (contradictions_of h.observation_model) ≡ true
all_refuted h (inl e) = rw e fast_path-refuted
all_refuted h (inr later) = absurd later

resolve-total_example :
    (r : StructuralResult) × (resolve verdict (latency ∷ []) ≡ ok r)
    × (r.outcome ≡ classify verdict)
    × (map (λ (v : ClassView). v.signature) r.classes ≡ (("latency", "high") ∷ []) ∷ [])
    × (map (λ (v : EliminatedView). v.member) r.eliminated ≡ member_view fast_path ∷ [])
    × (r.integration_gaps ≡ [])
resolve-total_example =
    resolve-total verdict (latency ∷ []) [] verdict-some all_populated all_refuted no_gaps

verdict-identified : classify verdict ≡ identified
unfolding classify
verdict-identified = refl
