-- ===== src/Rca/Expectations/Models.antt =====
-- The two observation models that src/core/rca/expectations.py builds.
use raglogs.Base.{String, [], ◌∷◌}
use Prim.Native.String.{◌++◌ as append}
use raglogs.Rca.Expectations.{ObservationModel, usually, often, maybe}

abbrev continuous : String
continuous = "true"

unfoldable pub process_dead_model : String → ObservationModel
process_dead_model service = record {
  expected =
      record {
        observable_id = append service ".error_log";
        expected_state = "present";
        strength = usually;
      }
      ∷ record {
        observable_id = append service ".restart";
        expected_state = "present";
        strength = often;
      }
      ∷ record {
        observable_id = append service ".oom";
        expected_state = "present";
        strength = maybe;
      }
      ∷ [];
  contradictions =
      record {
        observable_id = append service ".serving_throughout_window";
        states = continuous ∷ [];
      }
      ∷ [];
}

unfoldable pub edge_network_failure_model : String → String → ObservationModel
edge_network_failure_model caller callee =
    let edge = append caller (append "->" callee) in
    record {
      expected =
          record {
            observable_id = append edge ".conn_error";
            expected_state = "present";
            strength = usually;
          }
          ∷ record {
            observable_id = append edge ".timeout";
            expected_state = "present";
            strength = often;
          }
          ∷ record {
            observable_id = append callee ".error_log";
            expected_state = "absent";
            strength = maybe;
          }
          ∷ [];
      contradictions =
          record {
            observable_id = append edge ".connected_throughout_window";
            states = continuous ∷ [];
          }
          ∷ [];
    }
