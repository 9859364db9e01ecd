-- ===== src/Pipeline/Faults.antt =====
-- internal/pipeline/data_health.go: what is wrong with a sample, and which detectors that affects.
use nevr_anticheat.Prelude.{
  ℕ, String, Bool, true, false, not, ◌&&◌, ◌||◌, Option, none, some, List, [], ◌∷◌, ltb,
  if◌then◌else◌,
}
use nevr_anticheat.Prelude.Int.{ℤ, leb_ℤ}
use nevr_anticheat.Prelude.Dict.{text_eq}
use nevr_anticheat.Prelude.Text.{contains_text, codes, has_prefix}
use nevr_anticheat.Prelude.Float.{Float, lit}
use nevr_anticheat.Model.Vector.{is_zero_vec, is_unit}
use nevr_anticheat.Model.Observation.{Observation, is_valid_source, same_observation_source}
use nevr_anticheat.Pipeline.Validator.{
  Telemetry, Repair, nan_hand_position, far_hand_position, invalid_rotation, zero_rotation,
  invalid_disc, disc_out_of_range, invalid_reported_velocity, invalid_head_position,
  invalid_disc_observation,
}

pub data Fault : Type 0 where
  invalid_hand_rotation missing_disc missing_hand_tracking missing_reported_velocity : Fault
  missing_source_context non_advancing_observation rejected_observation sampling_gap : Fault
  sanitized_observation shared_orientation_jump source_binding_invalid source_discontinuity : Fault

abbrev pub all_faults : List Fault
all_faults =
    invalid_hand_rotation ∷ missing_disc ∷ missing_hand_tracking ∷ missing_reported_velocity
    ∷ missing_source_context ∷ non_advancing_observation ∷ rejected_observation ∷ sampling_gap
    ∷ sanitized_observation ∷ shared_orientation_jump ∷ source_binding_invalid
    ∷ source_discontinuity ∷ []

-- What the pipeline reads of a player's state; `W` is float64.
pub record Previous {ℓ} (W : Type ℓ) : Type ℓ where
  pub frame_count : ℕ
  pub last_frame_idx : ℤ
  pub last_timestamp : W
  pub last_observation : Option (Observation W)

-- The arguments of observeHealth.
pub record Sample {ℓ} (W : Type ℓ) : Type ℓ where
  pub frame : Telemetry W
  pub previous : Option (Previous W)
  pub was_rejected : Bool
  pub sanitized : List Repair
  pub shared_jump : Bool

abbrev starts_with : String → String → Bool
starts_with prefix id = has_prefix (codes id) (codes prefix)

-- healthAffects
unfoldable pub health_affects : Fault → String → Bool
health_affects missing_disc id =
    starts_with "THROW_" id || (text_eq id "STATE_001" || text_eq id "STATE_008")
health_affects missing_reported_velocity id = text_eq id "MOV_006"
health_affects missing_hand_tracking id =
    starts_with "BIO_" id
    || contains_text id (
        "MOV_006" ∷ "PAT_002" ∷ "PAT_005" ∷ "STATE_001" ∷ "STATE_007" ∷ "STATE_008" ∷ "THROW_003"
        ∷ [])
health_affects invalid_hand_rotation id = text_eq id "BIO_001" || text_eq id "BIO_004"
health_affects shared_orientation_jump id = text_eq id "BIO_001" || text_eq id "BIO_004"
health_affects other id = true

abbrev pub any_repair : (Repair → Bool) → List Repair → Bool
any_repair p [] = false
any_repair p (r ∷ rs) = p r || any_repair p rs

abbrev is_disc_repair : Repair → Bool
is_disc_repair invalid_disc = true
is_disc_repair disc_out_of_range = true
is_disc_repair invalid_disc_observation = true
is_disc_repair other = false

abbrev is_velocity_repair : Repair → Bool
is_velocity_repair invalid_reported_velocity = true
is_velocity_repair other = false

abbrev is_hand_repair : Repair → Bool
is_hand_repair nan_hand_position = true
is_hand_repair far_hand_position = true
is_hand_repair invalid_head_position = true
is_hand_repair other = false

abbrev is_rotation_repair : Repair → Bool
is_rotation_repair invalid_rotation = true
is_rotation_repair zero_rotation = true
is_rotation_repair other = false

abbrev is_other_repair : Repair → Bool
is_other_repair r =
    not (is_disc_repair r || (is_velocity_repair r || (is_hand_repair r || is_rotation_repair r)))

abbrev pub is_missing {κ} : {A : Type κ} → Option A → Bool
is_missing none = true
is_missing (some a) = false

-- A pointer to a Boolean that is nil or points to false.
abbrev not_true : Option Bool → Bool
not_true none = true
not_true (some b) = not b

abbrev pub eq_ℤ : ℤ → ℤ → Bool
eq_ℤ a b = leb_ℤ a b && leb_ℤ b a

module _ {ℓ} {W : Type ℓ} ⦃f : Float W⦄ where
  -- `previous != nil && previous.FrameCount > 0`, and a test of it.
  abbrev of_previous : (Previous W → Bool) → Option (Previous W) → Bool
  of_previous test none = false
  of_previous test (some p) = ltb 0 p.frame_count && test p

  -- A sample that does not advance both the index and the time.
  unfoldable pub not_advancing : Telemetry W → Previous W → Bool
  not_advancing fr p = leb_ℤ fr.frame_index p.last_frame_idx || f.le fr.timestamp p.last_timestamp

  abbrev bound_wrongly : Telemetry W → Option (Observation W) → Bool
  bound_wrongly fr none = false
  bound_wrongly fr (some o) =
      not (eq_ℤ o.observed_index fr.frame_index) || not (f.eq o.observed_time fr.timestamp)

  unfoldable pub gap_limit : W → W
  gap_limit max_dt = if f.le max_dt (lit 0) then f.ratio 1 4 else max_dt

  -- The set of faults that observeHealth fills, at the configured MaxFrameDt.
  unfoldable pub has_fault : W → Sample W → Fault → Bool
  has_fault max_dt s rejected_observation = s.was_rejected
  has_fault max_dt s missing_source_context = not (is_valid_source s.frame.observation)
  has_fault max_dt s source_binding_invalid =
      is_valid_source s.frame.observation && bound_wrongly s.frame s.frame.observation
  has_fault max_dt s non_advancing_observation = of_previous (not_advancing s.frame) s.previous
  has_fault max_dt s source_discontinuity =
      of_previous (λ p. not (same_observation_source p.last_observation s.frame.observation))
        s.previous
  has_fault max_dt s sampling_gap =
      of_previous (λ p. f.lt (gap_limit max_dt) (f.sub s.frame.timestamp p.last_timestamp))
        s.previous
  has_fault max_dt s missing_disc = is_missing s.frame.disc || any_repair is_disc_repair s.sanitized
  has_fault max_dt s missing_reported_velocity =
      is_missing s.frame.reported_velocity || any_repair is_velocity_repair s.sanitized
  has_fault max_dt s missing_hand_tracking =
      (is_zero_vec s.frame.left_hand || is_zero_vec s.frame.right_hand)
      || any_repair is_hand_repair s.sanitized
  has_fault max_dt s invalid_hand_rotation =
      ((not_true s.frame.left_rotation_valid || not (is_unit s.frame.left_rotation))
        || (not_true s.frame.right_rotation_valid || not (is_unit s.frame.right_rotation)))
      || any_repair is_rotation_repair s.sanitized
  has_fault max_dt s sanitized_observation = any_repair is_other_repair s.sanitized
  has_fault max_dt s shared_orientation_jump = s.shared_jump
