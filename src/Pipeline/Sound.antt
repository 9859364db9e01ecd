-- ===== src/Pipeline/Sound.antt =====
-- internal/pipeline/validator.go: a frame that is accepted is fit for the detectors.
use nevr_anticheat.Prelude.{
  ℕ, ◌≡◌, ◌≤◌, refl, sym, subst, ◌∙◌, true, false, not, ◌||◌, Option, none, some, List, arith, ◌&&◌,
  inl, inr, Bool-cases,
}
use nevr_anticheat.Prelude.Dict.{text_eq}
use nevr_anticheat.Prelude.Float.{Float, IsOrdered, lit, max_exact}
use nevr_anticheat.Model.Vector.{Vec3, zero_vec, is_zero_vec}
use nevr_anticheat.Pipeline.Validator.{
  Repair, Reason, Physics, DiscState, Telemetry, Extents, accepted, arena_half_extents, dt_too_far,
  out_of_bounds, not_finite, vec_not_finite, bad_time, rejection, valid_throw, disc_is_finite,
  disc_in_range,
}
use nevr_anticheat.Pipeline.Repairs.{
  is_bad, bad_head, repaired_disc, repair_rotations, repair_hand, repair_hands, repair_all,
  unless_rejected, validate_frame,
}
use nevr_anticheat.Pipeline.Settled.{
  bad_hand, bad_ping, bad_disc, bad_observation, fixed_delta, fixed_ping, fixed_disc,
  fixed_observation, kept_lem, settled, repair_all-settled,
}

module _ {ℓ} {W : Type ℓ} ⦃f : Float W⦄ where
  -- What the detectors may take for granted of a frame.
  pub record IsSound (min_dt : W) (ph : Physics W) (fr : Telemetry W) : Type 0 where
    named : text_eq fr.player_id "" ≡ false
    somewhere : is_zero_vec fr.position ≡ false
    finite : vec_not_finite fr.position ≡ false
    inside : out_of_bounds (arena_half_extents ph) fr.position ≡ false
    timed : bad_time fr.timestamp ≡ false
    spaced : (not_finite fr.delta || f.lt fr.delta (lit 0)) ≡ false
    -- A spacing that is known is at least half of `min_dt`, and at most a minute.
    not_short : (f.lt (lit 0) fr.delta && f.lt fr.delta (f.mul min_dt (f.ratio 1 2))) ≡ false
    not_long : f.lt (lit 60) fr.delta ≡ false
    left : bad_hand fr.position fr.left_hand ≡ false
    right : bad_hand fr.position fr.right_hand ≡ false
    pinged : bad_ping fr.ping ≡ false
    throws : is_bad (λ g. not (valid_throw g)) fr.game_last_throw ≡ false
    moves : is_bad vec_not_finite fr.reported_velocity ≡ false
    looks : is_bad (bad_head (arena_half_extents ph)) fr.head_position ≡ false
    disc_seen : is_bad (bad_disc ph (arena_half_extents ph)) fr.disc ≡ false
    disc_observed : is_bad bad_observation fr.disc ≡ false

  module _ (o : IsOrdered W) where
    lit_lem : (n : ℕ) → n ≤ max_exact → not_finite {W = W} (lit n) ≡ false
    unfolding not_finite
    lit_lem n h = ground (arith, o.lit_number n, o.lit_finite n h, o.is_nan_lem (lit n))

    lit_irrefl : (n : ℕ) → f.lt (lit n) (lit n) ≡ false
    lit_irrefl n = ground (arith, o.lit_number n, o.not_le_of_lt (lit n) (lit n))

    not_lt_zero : f.lt (lit 1000) (lit 0) ≡ false
    not_lt_zero = ground (
      arith,
      o.lit_lt 0 1000 (omega arith) (omega arith),
      o.le_of_lt (lit 0) (lit 1000),
      o.not_le_of_lt (lit 1000) (lit 0),
    )

    zero_vec_lem : is_zero_vec (zero_vec {W = W}) ≡ true
    unfolding is_zero_vec zero_vec
    zero_vec_lem = ground (arith, o.lit_number 0, o.eq_of_le (lit 0) (lit 0))

    above_zero : (d : W) → f.lt (lit 60) d ≡ true → f.lt (lit 0) d ≡ true
    above_zero d h =
        let low = o.lit_lt 0 60 (omega arith) (omega arith) in
        let high = o.le_of_lt (lit 60) d h in
        o.lt_of_not_le (lit 0) d (o.lit_number 0) (o.number_of_le _ _ high).1
          (elim (Bool-cases (f.le d (lit 0))) [
            | inl e ↦ absurd (
                let back = o.le_trans d (lit 0) (lit 60) e (o.le_of_lt _ _ low) in
                ground (arith, back, o.not_le_of_lt (lit 60) d h))
            | inr e ↦ e
          ])

    fixed_delta_lem :
        (d : W)
        → not_finite d ≡ false
        → (not_finite (fixed_delta d) || f.lt (fixed_delta d) (lit 0)) ≡ false
    fixed_delta_lem d h = ground (arith, lit_lem 0 (omega arith), lit_irrefl 0)

    short_lem :
        (min_dt d : W)
        → dt_too_far min_dt d ≡ false
        → (f.lt (lit 0) (fixed_delta d) && f.lt (fixed_delta d) (f.mul min_dt (f.ratio 1 2)))
          ≡ false
    unfolding dt_too_far
    short_lem min_dt d h = ground (arith, lit_irrefl 0)

    -- What is above 60 is above 0.
    long_lem : (min_dt d : W) → dt_too_far min_dt d ≡ false → f.lt (lit 60) (fixed_delta d) ≡ false
    unfolding dt_too_far
    long_lem min_dt d h =
        let low = o.lit_lt 0 60 (omega arith) (omega arith) in
        ground (
          arith,
          o.le_of_lt (lit 0) (lit 60) low,
          o.not_le_of_lt (lit 0) (lit 60) low,
          o.le_of_lt (lit 60) (lit 0),
          above_zero d,
        )

    fixed_ping_lem : (p : W) → bad_ping (fixed_ping p) ≡ false
    fixed_ping_lem p = ground (
      arith,
      lit_lem 0 (omega arith),
      lit_irrefl 0,
      lit_lem 1000 (omega arith),
      lit_irrefl 1000,
      not_lt_zero,
    )

    repair_hand_lem : (body hand : Vec3 W) → bad_hand body (repair_hand body hand) ≡ false
    unfolding repair_hand
    repair_hand_lem body hand = ground (arith, zero_vec_lem)

    fixed_disc_lem :
        (ph : Physics W) (e : Extents W) (d : Option (DiscState W))
        → is_bad (bad_disc ph e) (fixed_disc ph e d) ≡ false
    fixed_disc_lem ph e none = refl
    fixed_disc_lem ph e (some d) = ground arith

    fixed_observation_disc :
        (ph : Physics W) (e : Extents W) (d : Option (DiscState W))
        → is_bad (bad_disc ph e) d ≡ false
        → is_bad (bad_disc ph e) (fixed_observation d) ≡ false
    unfolding repaired_disc disc_is_finite disc_in_range
    fixed_observation_disc ph e none h = refl
    fixed_observation_disc ph e (some d) h = ground arith

    repaired_disc_lem : (d : DiscState W) → bad_observation (repaired_disc d) ≡ false
    unfolding repaired_disc
    repaired_disc_lem d = ground arith

    fixed_observation_lem :
        (d : Option (DiscState W)) → is_bad bad_observation (fixed_observation d) ≡ false
    fixed_observation_lem none = refl
    fixed_observation_lem (some d) = ground (arith, repaired_disc_lem d)

    -- What a frame that is not rejected fulfils already.
    record Passes (min_dt : W) (ph : Physics W) (fr : Telemetry W) : Type 0 where
      named : text_eq fr.player_id "" ≡ false
      somewhere : is_zero_vec fr.position ≡ false
      finite : vec_not_finite fr.position ≡ false
      inside : out_of_bounds (arena_half_extents ph) fr.position ≡ false
      timed : bad_time fr.timestamp ≡ false
      spaced : not_finite fr.delta ≡ false
      near : dt_too_far min_dt fr.delta ≡ false

    rejection-Passes :
        (min_dt : W) (ph : Physics W) (fr : Telemetry W)
        → rejection min_dt (arena_half_extents ph) fr ≡ none
        → Passes min_dt ph fr
    unfolding rejection
    rejection-Passes min_dt ph fr h = ground arith

    settled-IsSound :
        (min_dt : W) (ph : Physics W) (fr : Telemetry W)
        → Passes min_dt ph fr
        → IsSound min_dt ph (settled ph (arena_half_extents ph) fr)
    unfolding repair_hands repair_rotations
    settled-IsSound min_dt ph fr h =
        let e = arena_half_extents ph in
        record {
          named = h.named;
          somewhere = h.somewhere;
          finite = h.finite;
          inside = h.inside;
          timed = h.timed;
          spaced = fixed_delta_lem fr.delta h.spaced;
          not_short = short_lem min_dt fr.delta h.near;
          not_long = long_lem min_dt fr.delta h.near;
          left = repair_hand_lem fr.position fr.left_hand;
          right = repair_hand_lem fr.position fr.right_hand;
          pinged = fixed_ping_lem fr.ping;
          throws = kept_lem _ fr.game_last_throw;
          moves = kept_lem _ fr.reported_velocity;
          looks = kept_lem _ fr.head_position;
          disc_seen = fixed_observation_disc ph e _ (fixed_disc_lem ph e fr.disc);
          disc_observed = fixed_observation_lem (fixed_disc ph e fr.disc);
        }

    accepted_cases :
        (r : Option Reason) (p : Telemetry W × List Repair) (g : Telemetry W) (codes : List Repair)
        → unless_rejected r p ≡ accepted g codes
        → (r ≡ none) × (p.0 ≡ g)
    accepted_cases none p g codes h = (refl, cc)
    accepted_cases (some reason) p g codes h = absurd cc

    -- Where the comparisons order the numbers, every frame that Validate accepts is sound: it names a
    -- player; its position is finite, not zero and inside the arena; timestamp and latency are
    -- finite and in their ranges; the spacing is 0 for unknown, or at least half of the configured least
    -- one and at most 60 seconds; each hand is the zero sentinel or finite and near the body; and the
    -- throw record, the velocity, the head and the disc are absent or valid, the disc's counters included.
    pub validate_frame-IsSound :
        (min_dt : W) (ph : Physics W) (fr g : Telemetry W) (codes : List Repair)
        → validate_frame min_dt ph fr ≡ accepted g codes
        → IsSound min_dt ph g
    unfolding validate_frame
    validate_frame-IsSound min_dt ph fr g codes h =
        let e = arena_half_extents ph in
        let (passed, same) =
          accepted_cases (rejection min_dt e fr) (repair_all ph e fr) g codes h in
        subst (IsSound min_dt ph) (sym (repair_all-settled ph e fr) ∙ same)
          (settled-IsSound min_dt ph fr (rejection-Passes min_dt ph fr passed))
