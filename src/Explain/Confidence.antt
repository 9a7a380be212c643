-- ===== src/Explain/Confidence.antt =====
-- src/core/explain/confidence.py. A ratio, a score and a probability are whole numbers of
-- thousandths; the points and thresholds of the settings, integers there, are not negative. Of a
-- packet only what the points read is kept; its lists have any items.
pub mod Labels
use raglogs.Base.{
  length, str_eq, ℕ, ◌+◌, String, Bool, true, false, not, ◌&&◌, Option, none, some, List, [], ◌∷◌,
  ltb, leb, if◌then◌else◌,
}

pub record ConfidenceSettings : Type 0 where
  pub count_high : ℕ
  pub count_low : ℕ
  pub change_ratio_high : ℕ
  pub change_ratio_low : ℕ
  pub points_count_high : ℕ
  pub points_count_low : ℕ
  pub points_change_high : ℕ
  pub points_change_low : ℕ
  pub points_trigger : ℕ
  pub points_secondary : ℕ
  pub points_multiservice : ℕ
  pub threshold_high : ℕ
  pub threshold_medium_high : ℕ
  pub threshold_medium : ℕ
  pub calibrated_high : ℕ
  pub calibrated_medium_high : ℕ
  pub calibrated_medium : ℕ
  pub score_low : ℕ
  pub score_medium : ℕ
  pub score_medium_high : ℕ
  pub score_high : ℕ

pub record PrimaryCluster : Type 0 where
  pub count : ℕ
  pub baseline_count : ℕ
  pub change_ratio : ℕ

pub record EvidencePacket (I : Type 0) : Type 0 where
  pub primary_cluster : Option PrimaryCluster
  pub secondary_clusters : List I
  pub trigger_candidates : List I
  pub services_affected : List String
  pub trigger_found : Option Bool

-- `_label_scores().get(label, 0.0)`
unfoldable pub score_from_label : ConfidenceSettings → String → ℕ
score_from_label s label =
    if str_eq label "low"
    then s.score_low
    else if str_eq label "medium"
    then s.score_medium
    else if str_eq label "medium-high"
    then s.score_medium_high
    else if str_eq label "high"
    then s.score_high
    else 0

unfoldable pub label_from_calibrated_probability : ConfidenceSettings → ℕ → String
label_from_calibrated_probability s p =
    if leb s.calibrated_high p
    then "high"
    else if leb s.calibrated_medium_high p
    then "medium-high"
    else if leb s.calibrated_medium p
    then "medium"
    else "low"

unfoldable pub count_points : ConfidenceSettings → PrimaryCluster → ℕ
count_points s pc =
    if leb s.count_high pc.count
    then s.points_count_high
    else if leb s.count_low pc.count
    then s.points_count_low
    else 0

unfoldable pub change_points : ConfidenceSettings → PrimaryCluster → ℕ
change_points s pc =
    if not (ltb 0 pc.baseline_count)
    then 0
    else if ltb s.change_ratio_high pc.change_ratio
    then s.points_change_high
    else if ltb s.change_ratio_low pc.change_ratio
    then s.points_change_low
    else 0

-- `bool(xs)`
unfoldable pub is_nonempty : {A : Type 0} → List A → Bool
is_nonempty [] = false
is_nonempty (x ∷ xs) = true

unfoldable pub is_legacy : Option Bool → Bool
is_legacy none = true
is_legacy (some found) = false

-- the points of a packet with this primary cluster
unfoldable pub points_of : {I : Type 0} → ConfidenceSettings → EvidencePacket I → PrimaryCluster → ℕ
unfolding count_points change_points is_nonempty is_legacy
points_of s packet pc =
    count_points s pc
    + change_points s pc
    + (if is_legacy packet.trigger_found && is_nonempty packet.trigger_candidates
        then s.points_trigger
        else 0)
    + (if is_nonempty packet.secondary_clusters then s.points_secondary else 0)
    + (if ltb 1 (length packet.services_affected) then s.points_multiservice else 0)

unfoldable pub compute_confidence_points : {I : Type 0} → ConfidenceSettings → EvidencePacket I → ℕ
unfolding points_of
compute_confidence_points s packet = elim packet.primary_cluster [
  | none ↦ 0
  | some pc ↦ points_of s packet pc
]

-- with a rare-event trigger evaluated, and without
unfoldable pub rare_label : ConfidenceSettings → ℕ → String
rare_label s score =
    if leb s.threshold_medium_high score
    then "medium-high"
    else if leb s.threshold_medium score
    then "medium"
    else "low"

unfoldable pub legacy_label : ConfidenceSettings → Bool → ℕ → String
legacy_label s has_trigger score =
    if leb s.threshold_high score && has_trigger
    then "high"
    else if leb s.threshold_medium_high score
    then "medium-high"
    else if leb s.threshold_medium score
    then "medium"
    else "low"

unfoldable pub label_of : ConfidenceSettings → Option Bool → Bool → ℕ → String
unfolding rare_label legacy_label
label_of s none has_trigger score = legacy_label s has_trigger score
label_of s (some found) has_trigger score = rare_label s score

unfoldable pub compute_confidence : {I : Type 0} → ConfidenceSettings → EvidencePacket I → String
unfolding label_of compute_confidence_points
compute_confidence s packet = elim packet.primary_cluster [
  | none ↦ "low"
  | some pc ↦
      label_of s packet.trigger_found (is_nonempty packet.trigger_candidates)
        (compute_confidence_points s packet)
]

unfoldable pub compute_confidence_score : {I : Type 0} → ConfidenceSettings → EvidencePacket I → ℕ
unfolding compute_confidence score_from_label
compute_confidence_score s packet = elim packet.primary_cluster [
  | none ↦ 0
  | some pc ↦ score_from_label s (compute_confidence s packet)
]
