-- ===== src/Examples/Frames.antt =====
-- The validator's theorem at a frame with a lost hand and too long a latency.
use nevr_anticheat.Prelude.{ℕ, ◌≡◌, refl, true, some, none}
use nevr_anticheat.Prelude.Int.{pos}
use nevr_anticheat.Prelude.Float.{Milli, milli_float, Milli-IsOrdered, lit}
use nevr_anticheat.Model.Vector.{Vec3, zero_quat, quat_identity, is_zero_vec, has_nan, has_inf}
use nevr_anticheat.Pipeline.Validator.{
  Physics, Telemetry, accepted, default_physics, arena_half_extents, positive_or, rejection,
  out_of_bounds, not_finite, vec_not_finite, bad_time, dt_too_far,
}
use nevr_anticheat.Pipeline.Repairs.{repair_all, validate_frame}
use nevr_anticheat.Pipeline.Sound.{IsSound, validate_frame-IsSound}

abbrev pub at : ℕ → Vec3 Milli
at n = record { x = lit n; y = lit 1; z = lit 2 }

abbrev pub frame : Telemetry Milli
frame = record {
  player_id = "p1";
  frame_index = pos 4;
  team = "blue";
  game_phase = "playing";
  observation = none;
  position = at 3;
  timestamp = lit 10;
  delta = lit 0;
  rotation = quat_identity;
  left_rotation = quat_identity;
  left_rotation_valid = some true;
  right_rotation = zero_quat;
  right_rotation_valid = none;
  left_hand = at 3;
  right_hand = record { x = none; y = lit 0; z = lit 0 };
  ping = lit 5000;
  game_last_throw = none;
  reported_velocity = some (at 1);
  head_position = some (at 3);
  disc = some (record {
    disc_position = at 2;
    disc_velocity = at 4;
    speed = lit 4;
    bounce_count = some (pos 1);
    possession_known = true;
    sampled_player_count = pos 0;
  });
}

abbrev physics : Physics Milli
physics = default_physics

passes :
    validate_frame (some 10) physics frame
    ≡ accepted
        (repair_all physics (arena_half_extents physics) frame).0
        (repair_all physics (arena_half_extents physics) frame).1
unfolding validate_frame rejection is_zero_vec vec_not_finite has_nan has_inf bad_time not_finite
    dt_too_far out_of_bounds arena_half_extents positive_or default_physics
passes = refl

validate_frame-IsSound_example :
    IsSound (some 10) physics (repair_all physics (arena_half_extents physics) frame).0
validate_frame-IsSound_example =
    validate_frame-IsSound Milli-IsOrdered (some 10) physics frame
      (repair_all physics (arena_half_extents physics) frame).0
      (repair_all physics (arena_half_extents physics) frame).1 passes
