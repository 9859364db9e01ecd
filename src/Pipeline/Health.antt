-- ===== src/Pipeline/Health.antt =====
-- internal/pipeline/data_health.go: the health of each player's feed, and which detectors its faults
-- keep from counting. The lists of a summary are left in the order of the faults and of the detectors.
pub mod Recovery
pub mod Watermark
use nevr_anticheat.Prelude.{
  ℕ, suc, ◌-◌, max, String, Bool, true, false, not, ◌&&◌, ◌||◌, Option, none, some, List, [], ◌∷◌,
  ltb, ◌==◌, if◌then◌else◌,
}
use nevr_anticheat.Prelude.Int.{ℤ, pos, leb_ℤ, ltb_ℤ, pos_part, neg_part}
use nevr_anticheat.Prelude.Dict.{text_eq, lookup, insert}
use nevr_anticheat.Prelude.Text.{contains_text, codes, has_prefix}
use nevr_anticheat.Prelude.Float.{Float, lit}
use nevr_anticheat.Model.Vector.{is_zero_vec, is_unit}
use nevr_anticheat.Model.Observation.{Observation, is_valid_source, same_observation_source}
use nevr_anticheat.Pipeline.Validator.{
  Telemetry, Repair, nan_hand_position, far_hand_position, invalid_rotation, zero_rotation,
  negative_delta_time, invalid_disc, disc_out_of_range, invalid_ping, invalid_game_last_throw,
  invalid_reported_velocity, invalid_head_position, invalid_disc_observation,
}
use nevr_anticheat.Pipeline.Faults.{
  Fault, invalid_hand_rotation, missing_disc, missing_hand_tracking, missing_reported_velocity,
  missing_source_context, non_advancing_observation, rejected_observation, sampling_gap,
  sanitized_observation, shared_orientation_jump, source_binding_invalid, source_discontinuity,
  all_faults, Previous, Sample, health_affects, has_fault,
}

pub data HealthState : Type 0 where
  healthy degraded blind : HealthState

pub record DataHealth : Type 0 where
  pub revision : ℕ
  pub state : HealthState
  pub reasons : List Fault
  pub affected_detectors : List String
  pub recovery_samples_remaining : ℕ
  pub healthy_samples : ℕ
  pub degraded_samples : ℕ
  pub blind_samples : ℕ
  pub last_frame : ℤ

-- What is left of each fault, with 0 for a missing key; and the last frame at which a detector was
-- affected.
pub record HealthEntry : Type 0 where
  pub summary : DataHealth
  pub faults : Fault → ℕ
  pub last_affected : List (String × ℤ)

abbrev pub health_recovery_samples : ℕ
health_recovery_samples = 8

-- The keys of enforcementNeeds: the detectors for which CapabilityFor has an answer.
abbrev pub catalog : List String
catalog =
    "THROW_001" ∷ "THROW_002" ∷ "THROW_003" ∷ "THROW_004" ∷ "THROW_005" ∷ "THROW_006" ∷ "THROW_007"
    ∷ "THROW_008" ∷ "MOV_001" ∷ "MOV_002" ∷ "MOV_003" ∷ "MOV_004" ∷ "MOV_005" ∷ "MOV_006"
    ∷ "STATE_001" ∷ "STATE_002" ∷ "STATE_003" ∷ "STATE_004" ∷ "STATE_005" ∷ "STATE_006"
    ∷ "STATE_007" ∷ "STATE_008" ∷ "BIO_001" ∷ "BIO_002" ∷ "BIO_003" ∷ "BIO_004" ∷ "PAT_001"
    ∷ "PAT_002" ∷ "PAT_003" ∷ "PAT_004" ∷ "PAT_005" ∷ []

unfoldable pub has_capability : String → Bool
has_capability id = contains_text id catalog

-- The two loops over the faults: a fault seen now is set anew, any other counts down and goes.
unfoldable pub counted : (Fault → Bool) → (Fault → ℕ) → Fault → ℕ
counted seen old r = if seen r then health_recovery_samples else old r - 1

unfoldable pub live_faults : (Fault → ℕ) → List Fault → List Fault
live_faults left [] = []
live_faults left (r ∷ rs) =
    let rest = live_faults left rs in if ltb 0 (left r) then r ∷ rest else rest

unfoldable pub most_left : (Fault → ℕ) → List Fault → ℕ
most_left left [] = 0
most_left left (r ∷ rs) = max (left r) (most_left left rs)

abbrev blinds : Fault → Bool
blinds missing_source_context = true
blinds source_binding_invalid = true
blinds rejected_observation = true
blinds non_advancing_observation = true
blinds other = false

abbrev any_blinds : List Fault → Bool
any_blinds [] = false
any_blinds (r ∷ rs) = blinds r || any_blinds rs

unfoldable pub health_state : List Fault → HealthState
health_state [] = healthy
health_state (r ∷ rs) = if any_blinds (r ∷ rs) then blind else degraded

-- Does a live fault affect the detector?
unfoldable pub is_affected : List Fault → String → Bool
is_affected [] id = false
is_affected (r ∷ rs) id = health_affects r id || is_affected rs id

-- The loop over the detectors, by their ids.
unfoldable pub affected_of : List Fault → List String → List String
affected_of live [] = []
affected_of live (id ∷ ids) =
    let rest = affected_of live ids in
    if has_capability id && is_affected live id then id ∷ rest else rest

unfoldable pub insert_all : List String → ℤ → List (String × ℤ) → List (String × ℤ)
insert_all [] frame m = m
insert_all (id ∷ ids) frame m = insert_all ids frame (insert id frame m)

abbrev count_if : Bool → ℕ → ℕ
count_if true n = suc n
count_if false n = n

abbrev is_healthy : HealthState → Bool
is_healthy healthy = true
is_healthy other = false

abbrev is_degraded : HealthState → Bool
is_degraded degraded = true
is_degraded other = false

abbrev is_blind : HealthState → Bool
is_blind blind = true
is_blind other = false

unfoldable pub fresh_entry : HealthEntry
fresh_entry = record {
  summary = record {
    revision = 0;
    state = healthy;
    reasons = [];
    affected_detectors = [];
    recovery_samples_remaining = 0;
    healthy_samples = 0;
    degraded_samples = 0;
    blind_samples = 0;
    last_frame = pos 0;
  };
  faults = λ r. 0;
  last_affected = [];
}

abbrev pub or_fresh_entry : Option HealthEntry → HealthEntry
or_fresh_entry none = fresh_entry
or_fresh_entry (some h) = h

module _ {ℓ} {W : Type ℓ} ⦃f : Float W⦄ where
  -- One sample of the entry's player, given the ids of the pipeline's detectors.
  unfoldable pub observe : W → List String → HealthEntry → Sample W → HealthEntry
  observe max_dt ids h s =
      let left = counted (has_fault max_dt s) h.faults in
      let live = live_faults left all_faults in
      let now = health_state live in
      let affected = affected_of live ids in
      let last =
        if ltb_ℤ h.summary.last_frame s.frame.frame_index
        then s.frame.frame_index
        else h.summary.last_frame in
      record {
        summary = record {
          revision = suc h.summary.revision;
          state = now;
          reasons = live;
          affected_detectors = affected;
          recovery_samples_remaining = most_left left all_faults;
          healthy_samples = count_if (is_healthy now) h.summary.healthy_samples;
          degraded_samples = count_if (is_degraded now) h.summary.degraded_samples;
          blind_samples = count_if (is_blind now) h.summary.blind_samples;
          last_frame = last;
        };
        faults = left;
        last_affected = insert_all affected last h.last_affected;
      }

  -- observeHealth
  unfoldable pub observe_health :
      W → List String → List (String × HealthEntry) → Sample W → List (String × HealthEntry)
  observe_health max_dt ids health s =
      let player = s.frame.player_id in
      insert player (observe max_dt ids (or_fresh_entry (lookup player health)) s) health
