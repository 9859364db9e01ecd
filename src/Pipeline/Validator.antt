-- ===== src/Pipeline/Validator.antt =====
-- internal/pipeline/validator.go and orientation.go: which frames are rejected, and what is repaired in
-- the others. A frame has the fields that the pipeline reads or writes.
use nevr_anticheat.Prelude.{
  String, Bool, true, false, not, ◌&&◌, ◌||◌, Option, none, some, List, [], ◌∷◌, if◌then◌else◌,
}
use nevr_anticheat.Prelude.Int.{ℤ}
use nevr_anticheat.Prelude.Dict.{text_eq}
use nevr_anticheat.Prelude.Float.{Float, lit}
use nevr_anticheat.Model.Observation.{Observation}
use nevr_anticheat.Model.Vector.{
  Vec3, Quat, magnitude, is_zero_vec, has_nan, has_inf, zero_quat, quat_is_zero, quat_not_finite,
  quat_magnitude, normalize_quat, normalized_rotation,
}

pub data Reason : Type 0 where
  missing_player_id zero_position invalid_position invalid_timestamp : Reason
  dt_out_of_range out_of_arena_bounds : Reason

pub data Repair : Type 0 where
  nan_hand_position far_hand_position invalid_rotation zero_rotation : Repair
  negative_delta_time invalid_disc disc_out_of_range invalid_ping : Repair
  invalid_game_last_throw invalid_reported_velocity invalid_head_position : Repair
  invalid_disc_observation : Repair

pub record Physics {ℓ} (W : Type ℓ) : Type ℓ where
  pub arena_width : W
  pub arena_height : W
  pub arena_length : W
  pub disc_speed_cap : W

-- The engine's record of a throw: the total speed, and the other values.
pub record GameThrow {ℓ} (W : Type ℓ) : Type ℓ where
  pub total_speed : W
  pub values : List W

pub record DiscState {ℓ} (W : Type ℓ) : Type ℓ where
  pub disc_position : Vec3 W
  pub disc_velocity : Vec3 W
  pub speed : W
  pub bounce_count : Option ℤ
  pub possession_known : Bool
  pub sampled_player_count : ℤ

pub record Telemetry {ℓ} (W : Type ℓ) : Type ℓ where
  pub player_id : String
  pub frame_index : ℤ
  pub team : String
  pub game_phase : String
  pub observation : Option (Observation W)
  pub position : Vec3 W
  pub timestamp : W
  pub delta : W
  pub rotation : Quat W
  pub left_rotation : Quat W
  pub left_rotation_valid : Option Bool
  pub right_rotation : Quat W
  pub right_rotation_valid : Option Bool
  pub left_hand : Vec3 W
  pub right_hand : Vec3 W
  pub ping : W
  pub game_last_throw : Option (GameThrow W)
  pub reported_velocity : Option (Vec3 W)
  pub head_position : Option (Vec3 W)
  pub disc : Option (DiscState W)

-- The accepted bounds of |x|, |y| and |z|.
pub record Extents {ℓ} (W : Type ℓ) : Type ℓ where
  pub half_x : W
  pub half_y : W
  pub half_z : W

pub data Validated {ℓ} (W : Type ℓ) : Type ℓ where
  rejected : Reason → Validated W
  accepted : Telemetry W → List Repair → Validated W

module _ {ℓ} {W : Type ℓ} ⦃f : Float W⦄ where
  -- DefaultPhysics
  unfoldable pub default_physics : Physics W
  default_physics = record {
    arena_width = lit 32;
    arena_height = lit 20;
    arena_length = lit 154;
    disc_speed_cap = f.ratio 189 10;
  }

  unfoldable pub positive_or : W → W → W
  positive_or v def = if f.le v (lit 0) then def else v

  -- arenaHalfExtents
  unfoldable pub arena_half_extents : Physics W → Extents W
  arena_half_extents ph = record {
    half_x = f.add (f.div (positive_or ph.arena_width (lit 32)) (lit 2)) (lit 5);
    half_y = f.add (f.div (positive_or ph.arena_height (lit 20)) (lit 2)) (lit 5);
    half_z = f.add (f.div (positive_or ph.arena_length (lit 154)) (lit 2)) (lit 5);
  }

  unfoldable pub out_of_bounds : Extents W → Vec3 W → Bool
  out_of_bounds e v =
      f.lt e.half_x (f.abs v.x) || (f.lt e.half_y (f.abs v.y) || f.lt e.half_z (f.abs v.z))

  unfoldable pub not_finite : W → Bool
  not_finite v = f.is_nan v || f.is_inf v

  unfoldable pub vec_not_finite : Vec3 W → Bool
  vec_not_finite v = has_nan v || has_inf v

  unfoldable pub bad_time : W → Bool
  bad_time t = not_finite t || f.lt t (lit 0)

  unfoldable pub dt_too_far : W → W → Bool
  dt_too_far min_dt dt =
      f.lt (lit 0) dt && (f.lt dt (f.mul min_dt (f.ratio 1 2)) || f.lt (lit 60) dt)

  -- The rejections of Validate, in their order.
  unfoldable pub rejection : W → Extents W → Telemetry W → Option Reason
  rejection min_dt e fr =
      if text_eq fr.player_id ""
      then some missing_player_id
      else if is_zero_vec fr.position
      then some zero_position
      else if vec_not_finite fr.position
      then some invalid_position
      else if bad_time fr.timestamp
      then some invalid_timestamp
      else if not_finite fr.delta
      then some dt_out_of_range
      else if dt_too_far min_dt fr.delta
      then some dt_out_of_range
      else if out_of_bounds e fr.position
      then some out_of_arena_bounds
      else none

  -- sanitizeQuat
  unfoldable pub sanitize_quat : Quat W → Quat W × Bool
  sanitize_quat q =
      let (normalized, ok) = normalized_rotation q in
      if quat_not_finite q
      then (zero_quat, true)
      else if ok
      then (normalized, false)
      else if f.lt (f.ratio 1 10) (quat_magnitude q) && not (f.is_inf (quat_magnitude q))
      then (normalize_quat q, false)
      else if quat_is_zero q
      then (q, false)
      else (zero_quat, true)

  unfoldable pub throw_values_finite : List W → Bool
  throw_values_finite [] = true
  throw_values_finite (v ∷ vs) = if not_finite v then false else throw_values_finite vs

  -- GameThrowDetails.Valid
  unfoldable pub valid_throw : GameThrow W → Bool
  valid_throw g =
      if f.le g.total_speed (lit 0) then false else throw_values_finite (g.total_speed ∷ g.values)

  unfoldable pub disc_is_finite : DiscState W → Bool
  disc_is_finite d =
      if vec_not_finite d.disc_position || vec_not_finite d.disc_velocity
      then false
      else if not_finite d.speed
      then false
      else true

  unfoldable pub disc_in_range : DiscState W → Physics W → Extents W → Bool
  disc_in_range d ph e =
      let limit = f.mul (lit 4) (positive_or ph.disc_speed_cap (f.ratio 189 10)) in
      if out_of_bounds e d.disc_position
      then false
      else f.le (magnitude d.disc_velocity) limit && f.le (f.abs d.speed) limit
