-- ===== src/Model/Vector.antt =====
-- internal/model/vec3.go, quat.go and orientation.go: what the validator uses of vectors and rotations.
use nevr_anticheat.Prelude.{Bool, true, false, not, ◌&&◌, ◌||◌, Option, none, some, if◌then◌else◌}
use nevr_anticheat.Prelude.Float.{Float, lit}

pub record Vec3 {ℓ} (W : Type ℓ) : Type ℓ where
  pub x : W
  pub y : W
  pub z : W

pub record Quat {ℓ} (W : Type ℓ) : Type ℓ where
  pub qx : W
  pub qy : W
  pub qz : W
  pub qw : W

-- The flag of the hand after sanitizeObservedHandRotation.
unfoldable pub flag_after : Option Bool → Bool → Option Bool
flag_after none valid = none
flag_after (some observed) valid = some valid

unfoldable pub not_valid : Option Bool → Bool → Bool
not_valid none valid = true
not_valid (some observed) valid = not valid

module _ {ℓ} {W : Type ℓ} ⦃f : Float W⦄ where
  unfoldable pub zero_vec : Vec3 W
  zero_vec = record { x = lit 0; y = lit 0; z = lit 0 }

  unfoldable pub sub_vec : Vec3 W → Vec3 W → Vec3 W
  sub_vec v o = record { x = f.sub v.x o.x; y = f.sub v.y o.y; z = f.sub v.z o.z }

  unfoldable pub magnitude : Vec3 W → W
  magnitude v = f.sqrt (f.add (f.add (f.mul v.x v.x) (f.mul v.y v.y)) (f.mul v.z v.z))

  unfoldable pub distance : Vec3 W → Vec3 W → W
  distance v o = magnitude (sub_vec v o)

  -- Vec3.IsZero
  unfoldable pub is_zero_vec : Vec3 W → Bool
  is_zero_vec v = f.eq v.x (lit 0) && (f.eq v.y (lit 0) && f.eq v.z (lit 0))

  unfoldable pub has_nan : Vec3 W → Bool
  has_nan v = f.is_nan v.x || (f.is_nan v.y || f.is_nan v.z)

  unfoldable pub has_inf : Vec3 W → Bool
  has_inf v = f.is_inf v.x || (f.is_inf v.y || f.is_inf v.z)

  unfoldable pub zero_quat : Quat W
  zero_quat = record { qx = lit 0; qy = lit 0; qz = lit 0; qw = lit 0 }

  -- `q == model.Quat{}`
  unfoldable pub quat_is_zero : Quat W → Bool
  quat_is_zero q =
      f.eq q.qx (lit 0) && (f.eq q.qy (lit 0) && (f.eq q.qz (lit 0) && f.eq q.qw (lit 0)))

  -- A component is NaN or infinite.
  unfoldable pub quat_not_finite : Quat W → Bool
  quat_not_finite q =
      ((f.is_nan q.qx || f.is_inf q.qx) || (f.is_nan q.qy || f.is_inf q.qy))
      || ((f.is_nan q.qz || f.is_inf q.qz) || (f.is_nan q.qw || f.is_inf q.qw))

  unfoldable pub quat_magnitude : Quat W → W
  quat_magnitude q = f.sqrt (
      f.add (f.add (f.add (f.mul q.qx q.qx) (f.mul q.qy q.qy)) (f.mul q.qz q.qz)) (f.mul q.qw q.qw))

  -- Quat.IsUnit
  unfoldable pub is_unit : Quat W → Bool
  is_unit q = f.le (f.ratio 99 100) (quat_magnitude q) && f.le (quat_magnitude q) (f.ratio 101 100)

  unfoldable pub quat_over : Quat W → W → Quat W
  quat_over q m = record {
    qx = f.div q.qx m;
    qy = f.div q.qy m;
    qz = f.div q.qz m;
    qw = f.div q.qw m;
  }

  unfoldable pub quat_identity : Quat W
  quat_identity = record { qx = lit 0; qy = lit 0; qz = lit 0; qw = lit 1 }

  -- Quat.Normalize
  unfoldable pub normalize_quat : Quat W → Quat W
  normalize_quat q =
      let m = quat_magnitude q in
      if f.lt m (f.ratio 1 1_000_000_000_000) then quat_identity else quat_over q m

  -- Quat.NormalizedRotation
  unfoldable pub normalized_rotation : Quat W → Quat W × Bool
  normalized_rotation q =
      let m = quat_magnitude q in
      if quat_not_finite q
      then (zero_quat, false)
      else if (f.lt m (f.ratio 99 100) || f.lt (f.ratio 101 100) m) || (f.is_nan m || f.is_inf m)
      then (zero_quat, false)
      else (quat_over q m, true)

  -- ObservedHandRotation
  unfoldable pub observed_hand_rotation : Quat W → Option Bool → Quat W × Bool
  observed_hand_rotation q none = (zero_quat, false)
  observed_hand_rotation q (some observed) =
      if observed then normalized_rotation q else (zero_quat, false)

  -- sanitizeObservedHandRotation: the rotation, its flag, and whether it was replaced.
  unfoldable pub sanitize_observed_hand_rotation :
      Quat W → Option Bool → Quat W × Option Bool × Bool
  sanitize_observed_hand_rotation q observed =
      let (normalized, valid) = observed_hand_rotation q observed in
      (normalized, flag_after observed valid, not_valid observed valid && not (quat_is_zero q))
