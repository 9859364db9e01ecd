-- ===== src/Examples/Samples.antt =====
-- A configuration, events and tables for the examples.
use nevr_anticheat.Prelude.{ℕ, String, true, false, some, none}
use nevr_anticheat.Prelude.Int.{pos}
use nevr_anticheat.Prelude.Float.{Milli, milli_float, lit}
use nevr_anticheat.Model.Event.{DetectionEvent}
use nevr_anticheat.Model.Level.{LevelTable}
use nevr_anticheat.Scoring.Scorer.{ScorerConfig}

abbrev pub sample_levels : LevelTable Milli
sample_levels = record {
  informational_from = lit 20;
  suspicious_from = lit 40;
  high_risk_from = lit 60;
  critical_from = lit 80;
  action_worthy_from = lit 95;
}

abbrev pub sample_config : ScorerConfig Milli
sample_config = record {
  max_single_contribution = lit 40;
  max_contrib_per_detector = pos 2;
  same_category_diminishing = some 500;
  config_review_threshold = lit 60;
  config_auto_threshold = lit 95;
  half_life_hours = lit 24;
  cooldown_frames = pos 10;
  correlation_bonus_cap = lit 15;
  base_levels = sample_levels;
}

-- An event with an id, a detector and a frame.
abbrev pub sample_event : String → String → ℕ → DetectionEvent Milli
sample_event id detector frame = record {
  event_id = id;
  detector_id = detector;
  detector_version = "1";
  match_id = "m1";
  player_id = "p1";
  frame_index = pos frame;
  frame_range_start = pos frame;
  frame_range_end = pos frame;
  timestamp = lit 1;
  severity = some 900;
  confidence = some 990;
  evidence = "{}";
  observed_value = "9";
  expected_range = "0-5";
  baseline_comparison = "";
  causal_key = record {
    key_player_id = "p1";
    frame_start = pos frame;
    frame_end = pos frame;
    anomaly_type = "speed";
  };
  enforcement_weight = lit 1;
  auto_enforce = true;
  attribution = none;
  is_shadow = false;
  merged_count = pos 0;
}

abbrev pub shadow_event : DetectionEvent Milli
shadow_event = record (sample_event "e9" "MOV_001" 90) { is_shadow = true }
