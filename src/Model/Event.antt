-- ===== src/Model/Event.antt =====
-- internal/model/detection.go: a detection event, its validation and its causal key.
use nevr_anticheat.Prelude.{String, Bool, false, not, ◌&&◌, ◌||◌, Option, none, some, if◌then◌else◌}
use nevr_anticheat.Prelude.Int.{ℤ, pos, leb_ℤ, ltb_ℤ}
use nevr_anticheat.Prelude.Dict.{text_eq}
use nevr_anticheat.Prelude.Float.{Float, lit}

pub record CausalKey : Type 0 where
  pub key_player_id : String
  pub frame_start : ℤ
  pub frame_end : ℤ
  pub anomaly_type : String

-- The evidence and the attribution are carried and never looked into: their serialized texts.
pub record DetectionEvent {ℓ} (W : Type ℓ) : Type ℓ where
  pub event_id : String
  pub detector_id : String
  pub detector_version : String
  pub match_id : String
  pub player_id : String
  pub frame_index : ℤ
  pub frame_range_start : ℤ
  pub frame_range_end : ℤ
  pub timestamp : W
  pub severity : W
  pub confidence : W
  pub evidence : String
  pub observed_value : String
  pub expected_range : String
  pub baseline_comparison : String
  pub causal_key : CausalKey
  pub enforcement_weight : W
  pub auto_enforce : Bool
  pub attribution : Option String
  pub is_shadow : Bool
  pub merged_count : ℤ

pub data EventError : Type 0 where
  missing_event_id missing_detector_id missing_detector_version missing_match_id : EventError
  missing_player_id negative_frame_index range_reversed invalid_timestamp : EventError
  severity_range confidence_range weight_range missing_observed incomplete_key : EventError

-- CausalKey.Overlaps
unfoldable pub overlaps : CausalKey → CausalKey → Bool
overlaps c other =
    if not (text_eq c.key_player_id other.key_player_id)
      || not (text_eq c.anomaly_type other.anomaly_type)
    then false
    else leb_ℤ c.frame_start other.frame_end && leb_ℤ other.frame_start c.frame_end

module _ {ℓ} {W : Type ℓ} ⦃f : Float W⦄ where
  abbrev pub outside_unit : W → Bool
  outside_unit x = f.is_nan x || (f.is_inf x || (f.lt x (lit 0) || f.lt (lit 1) x))

  -- Validate; `none` is the nil error.
  unfoldable pub validate_event : DetectionEvent W → Option EventError
  validate_event e =
      if text_eq e.event_id ""
      then some missing_event_id
      else if text_eq e.detector_id ""
      then some missing_detector_id
      else if text_eq e.detector_version ""
      then some missing_detector_version
      else if text_eq e.match_id ""
      then some missing_match_id
      else if text_eq e.player_id ""
      then some missing_player_id
      else if ltb_ℤ e.frame_index (pos 0)
      then some negative_frame_index
      else if ltb_ℤ e.frame_range_end e.frame_range_start
      then some range_reversed
      else if f.is_nan e.timestamp || f.is_inf e.timestamp
      then some invalid_timestamp
      else if outside_unit e.severity
      then some severity_range
      else if outside_unit e.confidence
      then some confidence_range
      else if outside_unit e.enforcement_weight
      then some weight_range
      else if text_eq e.observed_value ""
      then some missing_observed
      else if text_eq e.causal_key.key_player_id "" || text_eq e.causal_key.anomaly_type ""
      then some incomplete_key
      else none
