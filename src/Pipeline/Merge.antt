-- ===== src/Pipeline/Merge.antt =====
-- internal/pipeline/dedup.go: what an incident is after an emission has been merged into it.
use nevr_anticheat.Prelude.{◌⊎◌, ◌≡◌, Bool, not, ◌&&◌, ◌||◌, if◌then◌else◌}
use nevr_anticheat.Prelude.Int.{◌≤ℤ◌, ◌+ℤ◌}
use nevr_anticheat.Prelude.Float.{Float, lit}
use nevr_anticheat.Model.Event.{DetectionEvent}

-- The description of m is that of e, but for the enforcement fields, which an abstention clears.
pub record IsDescribedBy {ℓ} {W : Type ℓ} (m e : DetectionEvent W) : Type ℓ where
  same_severity : m.severity ≡ e.severity
  same_confidence : m.confidence ≡ e.confidence
  same_evidence : m.evidence ≡ e.evidence
  same_frame : m.frame_index ≡ e.frame_index
  same_timestamp : m.timestamp ≡ e.timestamp
  same_attribution : m.attribution ≡ e.attribution
  same_observed : m.observed_value ≡ e.observed_value
  same_expected : m.expected_range ≡ e.expected_range
  same_baseline : m.baseline_comparison ≡ e.baseline_comparison

-- The incident keeps what it was before: its identifiers and the player and type of its key.
pub record IsSameIncident {ℓ} {W : Type ℓ} (m e : DetectionEvent W) : Type ℓ where
  same_event : m.event_id ≡ e.event_id
  same_detector : m.detector_id ≡ e.detector_id
  same_version : m.detector_version ≡ e.detector_version
  same_match : m.match_id ≡ e.match_id
  same_player : m.player_id ≡ e.player_id
  same_key_player : m.causal_key.key_player_id ≡ e.causal_key.key_player_id
  same_anomaly : m.causal_key.anomaly_type ≡ e.causal_key.anomaly_type

module _ {ℓ} {W : Type ℓ} ⦃f : Float W⦄ where
  pub record IsMerge (inc ev m : DetectionEvent W) : Type ℓ where
    starts_first :
        (m.frame_range_start ≤ℤ inc.frame_range_start)
        × (m.frame_range_start ≤ℤ ev.frame_range_start)
    ends_last :
        (inc.frame_range_end ≤ℤ m.frame_range_end) × (ev.frame_range_end ≤ℤ m.frame_range_end)
    starts_at_one :
        (m.frame_range_start ≡ inc.frame_range_start) ⊎ (m.frame_range_start ≡ ev.frame_range_start)
    ends_at_one :
        (m.frame_range_end ≡ inc.frame_range_end) ⊎ (m.frame_range_end ≡ ev.frame_range_end)
    counts_added : m.merged_count ≡ inc.merged_count +ℤ ev.merged_count
    same_incident : IsSameIncident m inc
    key_start : m.causal_key.frame_start ≡ m.frame_range_start
    key_end : m.causal_key.frame_end ≡ m.frame_range_end
    one_description :
        if f.lt (f.mul inc.severity inc.confidence) (f.mul ev.severity ev.confidence)
        then IsDescribedBy m ev
        else IsDescribedBy m inc
    shadow_kept : m.is_shadow ≡ (inc.is_shadow || ev.is_shadow)
    auto_kept : m.auto_enforce ≡ (
        not (inc.is_shadow || ev.is_shadow)
        && (if f.lt (f.mul inc.severity inc.confidence) (f.mul ev.severity ev.confidence)
            then ev.auto_enforce
            else inc.auto_enforce))
    weight_kept : m.enforcement_weight ≡ (
        if inc.is_shadow || ev.is_shadow
        then lit 0
        else if f.lt (f.mul inc.severity inc.confidence) (f.mul ev.severity ev.confidence)
        then ev.enforcement_weight
        else inc.enforcement_weight)

  abbrev is_stronger : DetectionEvent W → DetectionEvent W → Bool
  is_stronger inc ev = f.lt (f.mul inc.severity inc.confidence) (f.mul ev.severity ev.confidence)
