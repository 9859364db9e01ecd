-- ===== src/Pipeline/Repairs.antt =====
-- internal/pipeline/validator.go: the repairs of a frame that is not rejected, in their order.
use nevr_anticheat.Prelude.{
  Bool, false, not, ◌&&◌, ◌||◌, ◌==◌, Option, none, some, List, [], ◌∷◌, ◌++◌, if◌then◌else◌,
}
use nevr_anticheat.Prelude.Int.{ℤ, pos, ltb_ℤ, pos_part, neg_part}
use nevr_anticheat.Prelude.Float.{Float, lit}
use nevr_anticheat.Model.Vector.{
  Vec3, zero_vec, distance, is_zero_vec, quat_is_zero, sanitize_observed_hand_rotation,
}
use nevr_anticheat.Pipeline.Validator.{
  Repair, nan_hand_position, far_hand_position, invalid_rotation, zero_rotation,
  negative_delta_time, invalid_disc, disc_out_of_range, invalid_ping, invalid_game_last_throw,
  invalid_reported_velocity, invalid_head_position, invalid_disc_observation, Reason, Physics,
  DiscState, Telemetry, Extents, Validated, rejected, accepted, arena_half_extents, out_of_bounds,
  not_finite, vec_not_finite, rejection, sanitize_quat, valid_throw, disc_is_finite, disc_in_range,
}

-- `if did { sanitized = append(sanitized, code) }`
abbrev pub noted : Bool → Repair → List Repair
noted did code = if did then code ∷ [] else []

abbrev pub is_negative : Option ℤ → Bool
is_negative none = false
is_negative (some n) = ltb_ℤ n (pos 0)

-- An optional field is there and bad.
abbrev pub is_bad {κ} : {A : Type κ} → (A → Bool) → Option A → Bool
is_bad bad none = false
is_bad bad (some a) = bad a

abbrev pub is_zero_count : ℤ → Bool
is_zero_count n = pos_part n == 0 && neg_part n == 0

module _ {ℓ} {W : Type ℓ} ⦃f : Float W⦄ where
  unfoldable pub repair_delta : Telemetry W → Telemetry W × List Repair
  repair_delta fr =
      if f.lt fr.delta (lit 0)
      then (record fr { delta = lit 0 }, negative_delta_time ∷ [])
      else (fr, [])

  unfoldable pub repair_rotations : Telemetry W → Telemetry W × List Repair
  repair_rotations fr =
      let (left, left_valid, left_fixed) =
        sanitize_observed_hand_rotation fr.left_rotation fr.left_rotation_valid in
      let (right, right_valid, right_fixed) =
        sanitize_observed_hand_rotation fr.right_rotation fr.right_rotation_valid in
      let (q, q_fixed) = sanitize_quat fr.rotation in
      let (l, l_fixed) = sanitize_quat left in
      let (r, r_fixed) = sanitize_quat right in
      (
        record fr {
          rotation = q;
          left_rotation = l;
          left_rotation_valid = left_valid;
          right_rotation = r;
          right_rotation_valid = right_valid;
        },
        noted
              ((left_fixed || right_fixed)
                || (q_fixed || ((l_fixed || left_fixed) || (r_fixed || right_fixed))))
              invalid_rotation
            ++ noted
                ((not q_fixed && quat_is_zero q)
                  || ((not (l_fixed || left_fixed) && quat_is_zero l)
                      || (not (r_fixed || right_fixed) && quat_is_zero r)))
                zero_rotation,
      )

  abbrev pub is_far : Vec3 W → Vec3 W → Bool
  is_far hand body = not (is_zero_vec hand) && f.lt (lit 3) (distance hand body)

  -- A hand, by the position of the body.
  unfoldable pub repair_hand : Vec3 W → Vec3 W → Vec3 W
  repair_hand body hand =
      if vec_not_finite hand then zero_vec else if is_far hand body then zero_vec else hand

  unfoldable pub repair_hands : Telemetry W → Telemetry W × List Repair
  repair_hands fr = (
    record fr {
      left_hand = repair_hand fr.position fr.left_hand;
      right_hand = repair_hand fr.position fr.right_hand;
    },
    noted (vec_not_finite fr.left_hand || vec_not_finite fr.right_hand) nan_hand_position
        ++ noted
            ((not (vec_not_finite fr.left_hand) && is_far fr.left_hand fr.position)
              || (not (vec_not_finite fr.right_hand) && is_far fr.right_hand fr.position))
            far_hand_position,
  )

  unfoldable pub repair_ping : Telemetry W → Telemetry W × List Repair
  repair_ping fr =
      if not_finite fr.ping || f.lt fr.ping (lit 0)
      then (record fr { ping = lit 0 }, invalid_ping ∷ [])
      else if f.lt (lit 1000) fr.ping
      then (record fr { ping = lit 1000 }, invalid_ping ∷ [])
      else (fr, [])

  unfoldable pub repair_throw : Telemetry W → Telemetry W × List Repair
  repair_throw fr =
      if is_bad (λ g. not (valid_throw g)) fr.game_last_throw
      then (record fr { game_last_throw = none }, invalid_game_last_throw ∷ [])
      else (fr, [])

  unfoldable pub repair_velocity : Telemetry W → Telemetry W × List Repair
  repair_velocity fr =
      if is_bad vec_not_finite fr.reported_velocity
      then (record fr { reported_velocity = none }, invalid_reported_velocity ∷ [])
      else (fr, [])

  abbrev pub bad_head : Extents W → Vec3 W → Bool
  bad_head e v = is_zero_vec v || (vec_not_finite v || out_of_bounds e v)

  unfoldable pub repair_head : Extents W → Telemetry W → Telemetry W × List Repair
  repair_head e fr =
      if is_bad (bad_head e) fr.head_position
      then (record fr { head_position = none }, invalid_head_position ∷ [])
      else (fr, [])

  unfoldable pub repair_disc : Physics W → Extents W → Telemetry W → Telemetry W × List Repair
  repair_disc ph e fr =
      if is_bad (λ d. not (disc_is_finite d)) fr.disc
      then (record fr { disc = none }, invalid_disc ∷ [])
      else if is_bad (λ d. not (disc_in_range d ph e)) fr.disc
      then (record fr { disc = none }, disc_out_of_range ∷ [])
      else (fr, [])

  abbrev pub invalid_bounce : DiscState W → Bool
  invalid_bounce d = is_negative d.bounce_count

  abbrev pub invalid_count : DiscState W → Bool
  invalid_count d =
      ltb_ℤ d.sampled_player_count (pos 0)
      || (d.possession_known && is_zero_count d.sampled_player_count)

  unfoldable pub repaired_disc : DiscState W → DiscState W
  repaired_disc d =
      let d' = if invalid_bounce d then record d { bounce_count = none } else d in
      if invalid_count d
      then record d' { sampled_player_count = pos 0; possession_known = false }
      else d'

  unfoldable pub observed : Telemetry W → Option (DiscState W) → Telemetry W × List Repair
  observed fr none = (fr, [])
  observed fr (some d) =
      if invalid_bounce d || invalid_count d
      then (record fr { disc = some (repaired_disc d) }, invalid_disc_observation ∷ [])
      else (fr, [])

  unfoldable pub repair_observation : Telemetry W → Telemetry W × List Repair
  repair_observation fr = observed fr fr.disc

  -- One repair after the other, with their codes.
  unfoldable pub after :
      (Telemetry W → Telemetry W × List Repair)
      → Telemetry W × List Repair
      → Telemetry W × List Repair
  after repair (fr, codes) = let (fr', more) = repair fr in (fr', codes ++ more)

  unfoldable pub repair_all : Physics W → Extents W → Telemetry W → Telemetry W × List Repair
  repair_all ph e fr = after repair_observation (
      after (repair_disc ph e) (
        after (repair_head e) (
          after repair_velocity (
            after repair_throw (
              after repair_ping (after repair_hands (after repair_rotations (repair_delta fr))))))))

  abbrev pub unless_rejected : Option Reason → Telemetry W × List Repair → Validated W
  unless_rejected (some reason) repaired = rejected reason
  unless_rejected none (fr, codes) = accepted fr codes

  -- Validate
  unfoldable pub validate_frame : W → Physics W → Telemetry W → Validated W
  validate_frame min_dt ph fr =
      let e = arena_half_extents ph in unless_rejected (rejection min_dt e fr) (repair_all ph e fr)
