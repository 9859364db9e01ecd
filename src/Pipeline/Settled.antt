-- ===== src/Pipeline/Settled.antt =====
-- internal/pipeline/validator.go: the repairs, field by field.
use nevr_anticheat.Prelude.{
  ◌≡◌, refl, Bool, false, not, ◌||◌, Option, none, some, if◌then◌else◌, inl, inr, Bool-cases, arith,
}
use nevr_anticheat.Prelude.Float.{Float, lit}
use nevr_anticheat.Model.Vector.{Vec3, is_zero_vec}
use nevr_anticheat.Pipeline.Validator.{
  Physics, DiscState, Telemetry, Extents, not_finite, vec_not_finite, valid_throw, disc_is_finite,
  disc_in_range,
}
use nevr_anticheat.Pipeline.Repairs.{
  is_bad, is_far, bad_head, invalid_bounce, invalid_count, repaired_disc, repair_delta,
  repair_rotations, repair_hands, repair_ping, repair_throw, repair_velocity, repair_head,
  repair_disc, observed, repair_observation, after, repair_all,
}

module _ {ℓ} {W : Type ℓ} ⦃f : Float W⦄ where
  -- A hand that is tracked is finite and near the body.
  abbrev pub bad_hand : Vec3 W → Vec3 W → Bool
  bad_hand body hand = if is_zero_vec hand then false else vec_not_finite hand || is_far hand body

  abbrev pub bad_ping : W → Bool
  bad_ping p = not_finite p || (f.lt p (lit 0) || f.lt (lit 1000) p)

  abbrev pub bad_disc : Physics W → Extents W → DiscState W → Bool
  bad_disc ph e d = not (disc_is_finite d) || not (disc_in_range d ph e)

  abbrev pub bad_observation : DiscState W → Bool
  bad_observation d = invalid_bounce d || invalid_count d

  -- Each repair replaces one field.
  abbrev pub fixed_delta : W → W
  fixed_delta d = if f.lt d (lit 0) then lit 0 else d

  abbrev pub fixed_ping : W → W
  fixed_ping p =
      if not_finite p || f.lt p (lit 0) then lit 0 else if f.lt (lit 1000) p then lit 1000 else p

  abbrev pub fixed_disc : Physics W → Extents W → Option (DiscState W) → Option (DiscState W)
  fixed_disc ph e o =
      if is_bad (λ d. not (disc_is_finite d)) o
      then none
      else if is_bad (λ d. not (disc_in_range d ph e)) o
      then none
      else o

  abbrev pub fixed_observation : Option (DiscState W) → Option (DiscState W)
  fixed_observation none = none
  fixed_observation (some d) = some (if bad_observation d then repaired_disc d else d)

abbrev pub kept {κ} : {A : Type κ} → (A → Bool) → Option A → Option A
kept bad o = if is_bad bad o then none else o

pub kept_lem {κ} : {A : Type κ} (bad : A → Bool) (o : Option A) → is_bad bad (kept bad o) ≡ false
kept_lem bad none = refl
kept_lem bad (some a) = elim (Bool-cases (bad a)) [ inl e ↦ rw e refl | inr e ↦ rw e e ]

module _ {ℓ} {W : Type ℓ} ⦃f : Float W⦄ where
  repair_delta-eq :
      (fr : Telemetry W) → (repair_delta fr).0 ≡ record fr { delta = fixed_delta fr.delta }
  unfolding repair_delta
  repair_delta-eq fr = ground arith

  repair_ping-eq : (fr : Telemetry W) → (repair_ping fr).0 ≡ record fr { ping = fixed_ping fr.ping }
  unfolding repair_ping
  repair_ping-eq fr = ground arith

  repair_throw-eq :
      (fr : Telemetry W)
      → (repair_throw fr).0
        ≡ record fr { game_last_throw = kept (λ g. not (valid_throw g)) fr.game_last_throw }
  unfolding repair_throw
  repair_throw-eq fr = ground arith

  repair_velocity-eq :
      (fr : Telemetry W)
      → (repair_velocity fr).0
        ≡ record fr { reported_velocity = kept vec_not_finite fr.reported_velocity }
  unfolding repair_velocity
  repair_velocity-eq fr = ground arith

  repair_head-eq :
      (e : Extents W) (fr : Telemetry W)
      → (repair_head e fr).0 ≡ record fr { head_position = kept (bad_head e) fr.head_position }
  unfolding repair_head
  repair_head-eq e fr = ground arith

  repair_disc-eq :
      (ph : Physics W) (e : Extents W) (fr : Telemetry W)
      → (repair_disc ph e fr).0 ≡ record fr { disc = fixed_disc ph e fr.disc }
  unfolding repair_disc
  repair_disc-eq ph e fr = ground arith

  observed-eq :
      (fr : Telemetry W) (o : Option (DiscState W))
      → fr.disc ≡ o
      → (observed fr o).0 ≡ record fr { disc = fixed_observation o }
  unfolding observed
  observed-eq fr none e = ground arith
  observed-eq fr (some d) e = ground arith

  -- The frame that repair_all gives, as one update after the other.
  abbrev pub settled : Physics W → Extents W → Telemetry W → Telemetry W
  settled ph e fr =
      let turned =
        (repair_hands (repair_rotations (record fr { delta = fixed_delta fr.delta })).0).0 in
      record turned {
        ping = fixed_ping fr.ping;
        game_last_throw = kept (λ g. not (valid_throw g)) fr.game_last_throw;
        reported_velocity = kept vec_not_finite fr.reported_velocity;
        head_position = kept (bad_head e) fr.head_position;
        disc = fixed_observation (fixed_disc ph e fr.disc);
      }

  pub repair_all-settled :
      (ph : Physics W) (e : Extents W) (fr : Telemetry W) → (repair_all ph e fr).0 ≡ settled ph e fr
  unfolding repair_all after repair_observation repair_rotations repair_hands
  repair_all-settled ph e fr =
      simp
        (
          repair_delta-eq, repair_ping-eq, repair_throw-eq, repair_velocity-eq, repair_head-eq,
          repair_disc-eq,
        )
        (observed-eq _ _ refl)
