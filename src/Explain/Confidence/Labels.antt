-- ===== src/Explain/Confidence/Labels.antt =====
-- What the labels of src/core/explain/confidence.py claim.
use raglogs.Base.{
  str_eq, ℕ, ◌+◌, ◌≤◌, max, String, ◌≡◌, refl, inl, inr, Bool, true, false, ◌&&◌, Option, none,
  some, arith, leb, if◌then◌else◌, Bool-cases, Option-cases,
}
use raglogs.Explain.Confidence.{
  ConfidenceSettings, EvidencePacket, count_points, change_points, is_nonempty, is_legacy,
  points_of, compute_confidence_points, rare_label, legacy_label, label_of, compute_confidence,
  PrimaryCluster,
}

-- The labels in their order; any other text is below them all.
unfoldable pub rank : String → ℕ
rank label =
    if str_eq label "high"
    then 4
    else if str_eq label "medium-high"
    then 3
    else if str_eq label "medium"
    then 2
    else if str_eq label "low"
    then 1
    else 0

-- Whether an evidence packet meets what the label `high` asks for.
abbrev pub deserves_high : {I : Type 0} → ConfidenceSettings → EvidencePacket I → Bool
deserves_high s packet =
    elim packet.primary_cluster [ none ↦ false | some pc ↦ true ]
    && is_legacy packet.trigger_found
    && leb s.threshold_high (compute_confidence_points s packet)
    && is_nonempty packet.trigger_candidates

rare_label-high : (s : ConfidenceSettings) (score : ℕ) → str_eq (rare_label s score) "high" ≡ false
unfolding rare_label
rare_label-high s score = elim (Bool-cases (leb s.threshold_medium_high score)) [
  | inl a ↦ rw (rare_label, a) refl
  | inr a ↦ elim (Bool-cases (leb s.threshold_medium score)) [
    | inl b ↦ rw (rare_label, a, b) refl
    | inr b ↦ rw (rare_label, a, b) refl
  ]
]

label_of-high :
    (s : ConfidenceSettings) (found : Option Bool) (has_trigger : Bool) (score : ℕ)
    → str_eq (label_of s found has_trigger score) "high"
      ≡ is_legacy found && leb s.threshold_high score && has_trigger
unfolding label_of is_legacy legacy_label rare_label
label_of-high s none has_trigger score =
    elim (Bool-cases (leb s.threshold_high score && has_trigger)) [
      | inl high ↦ rw high refl
      | inr low ↦ rw low (rare_label-high s score)
    ]
label_of-high s (some found) has_trigger score = rare_label-high s score

-- The label is `high` exactly when there is a primary cluster, no rare-event trigger was evaluated,
-- there is a trigger candidate, and the points reach the threshold.
pub compute_confidence-high :
    {I : Type 0} (s : ConfidenceSettings) (packet : EvidencePacket I)
    → str_eq (compute_confidence s packet) "high" ≡ deserves_high s packet
unfolding compute_confidence
compute_confidence-high s packet = elim (Option-cases packet.primary_cluster) [
  | inl absent ↦ simp (compute_confidence, absent)
  | inr (pc, here) ↦
      simp (compute_confidence, here)
        (label_of-high s packet.trigger_found (is_nonempty packet.trigger_candidates)
          (compute_confidence_points s packet))
]

rare_label-rank :
    (s : ConfidenceSettings) (score : ℕ)
    → rank (rare_label s score) ≡ (
        if leb s.threshold_medium_high score
        then 3
        else if leb s.threshold_medium score
        then 2
        else 1)
unfolding rare_label rank
rare_label-rank s score = elim (Bool-cases (leb s.threshold_medium_high score)) [
  | inl a ↦ rw (rare_label, a) refl
  | inr a ↦ elim (Bool-cases (leb s.threshold_medium score)) [
    | inl b ↦ rw (rare_label, a, b) refl
    | inr b ↦ rw (rare_label, a, b) refl
  ]
]

legacy_label-rank :
    (s : ConfidenceSettings) (has_trigger : Bool) (score : ℕ)
    → rank (legacy_label s has_trigger score)
      ≡ (if leb s.threshold_high score && has_trigger then 4 else rank (rare_label s score))
unfolding legacy_label rare_label rank
legacy_label-rank s has_trigger score =
    elim (Bool-cases (leb s.threshold_high score && has_trigger)) [
      | inl high ↦ rw (legacy_label, high) refl
      | inr low ↦ rw (legacy_label, low) refl
    ]

rare_label-monotone :
    (s : ConfidenceSettings) (score more : ℕ)
    → score ≤ more
    → (rank (rare_label s score) ≤ rank (rare_label s more)) × (rank (rare_label s score) ≤ 4)
rare_label-monotone s score more h =
    rw (rare_label-rank s score, rare_label-rank s more) (ground arith, ground arith)

-- For one mode of triggers the label never falls when the points rise, in whatever order the
-- thresholds of the settings stand.
pub label_of-monotone :
    (s : ConfidenceSettings) (found : Option Bool) (has_trigger : Bool) (score more : ℕ)
    → score ≤ more
    → rank (label_of s found has_trigger score) ≤ rank (label_of s found has_trigger more)
unfolding label_of
label_of-monotone s none has_trigger score more h =
    let m = rare_label-monotone s score more h in
    rw (legacy_label-rank s has_trigger score, legacy_label-rank s has_trigger more) (ground arith)
label_of-monotone s (some found) has_trigger score more h = (rare_label-monotone s score more h).0

count_points-le :
    (s : ConfidenceSettings) (pc : PrimaryCluster)
    → count_points s pc ≤ max s.points_count_high s.points_count_low
unfolding count_points
count_points-le s pc = ground arith

change_points-le :
    (s : ConfidenceSettings) (pc : PrimaryCluster)
    → change_points s pc ≤ max s.points_change_high s.points_change_low
unfolding change_points
change_points-le s pc = ground arith

-- The points never exceed the sum of the largest weight of each kind of evidence.
pub compute_confidence_points-le :
    {I : Type 0} (s : ConfidenceSettings) (packet : EvidencePacket I)
    → compute_confidence_points s packet
      ≤ max s.points_count_high s.points_count_low
        + max s.points_change_high s.points_change_low
        + s.points_trigger
        + s.points_secondary
        + s.points_multiservice
unfolding compute_confidence_points points_of
compute_confidence_points-le s packet = elim (Option-cases packet.primary_cluster) [
  | inl absent ↦ simp (compute_confidence_points, absent) (omega arith)
  | inr (pc, here) ↦
      let a = count_points-le s pc in
      let b = change_points-le s pc in simp (compute_confidence_points, here) (ground arith)
]
