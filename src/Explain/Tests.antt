-- ===== src/Explain/Tests.antt =====
-- The default settings of src/config/settings.py on concrete packets.
use raglogs.Base.{str_eq, String, ◌≡◌, refl, true, none, some, [], ◌∷◌}
use raglogs.Explain.Confidence.{
  ConfidenceSettings, EvidencePacket, label_from_calibrated_probability, compute_confidence_points,
  compute_confidence, compute_confidence_score,
}
use raglogs.Explain.Confidence.Labels.{deserves_high, compute_confidence-high}

abbrev defaults : ConfidenceSettings
defaults = record {
  count_high = 50;
  count_low = 10;
  change_ratio_high = 10000;
  change_ratio_low = 3000;
  points_count_high = 2;
  points_count_low = 1;
  points_change_high = 2;
  points_change_low = 1;
  points_trigger = 2;
  points_secondary = 1;
  points_multiservice = 1;
  threshold_high = 5;
  threshold_medium_high = 4;
  threshold_medium = 2;
  calibrated_high = 800;
  calibrated_medium_high = 650;
  calibrated_medium = 450;
  score_low = 250;
  score_medium = 500;
  score_medium_high = 720;
  score_high = 900;
}

abbrev outage : EvidencePacket String
outage = record {
  primary_cluster = some (record { count = 60; baseline_count = 4; change_ratio = 15000 });
  secondary_clusters = [];
  trigger_candidates = "deploy 42" ∷ [];
  services_affected = "api" ∷ [];
  trigger_found = none;
}

outage-points : compute_confidence_points defaults outage ≡ 6
unfolding compute_confidence_points
outage-points = refl

outage-score : compute_confidence_score defaults outage ≡ 900
unfolding compute_confidence_score
outage-score = refl

rare_outage-label :
    compute_confidence defaults (record outage { trigger_found = some true }) ≡ "medium-high"
unfolding compute_confidence
rare_outage-label = refl

calibrated-label : label_from_calibrated_probability defaults 650 ≡ "medium-high"
unfolding label_from_calibrated_probability
calibrated-label = refl

compute_confidence-high_example :
    str_eq (compute_confidence defaults outage) "high" ≡ deserves_high defaults outage
compute_confidence-high_example = compute_confidence-high defaults outage
