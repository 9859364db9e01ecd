-- ===== src/Pipeline/Weaken/Bounds.antt =====
-- internal/model/math_helpers.go: Clamp, on values between 0 and 1.
use nevr_anticheat.Prelude.{◌≡◌, false, inl, inr, arith, Bool-cases}
use nevr_anticheat.Prelude.Float.{Float, IsOrdered, lit, IsNumber, ◌⩽◌, ◌⋖◌}
use nevr_anticheat.Model.Event.{outside_unit}
use nevr_anticheat.Pipeline.Emission.{clamp}

module _ {ℓ} {W : Type ℓ} ⦃f : Float W⦄ where
  abbrev pub IsUnit : W → Type 0
  IsUnit x = (lit 0 ⩽ x) × (x ⩽ lit 1)

module _ {ℓ} {W : Type ℓ} ⦃f : Float W⦄ (o : IsOrdered W) where
  -- A number that is not below another is at least as large.
  le_of_not_lt : (x y : W) → IsNumber x → IsNumber y → f.lt x y ≡ false → y ⩽ x
  le_of_not_lt x y p q h = elim (Bool-cases (f.le y x)) [
    | inl e ↦ e
    | inr e ↦ let lower : x ⋖ y = o.lt_of_not_le x y p q e in cc
  ]

  clamp_number :
      (v lo hi : W) → f.is_nan v ≡ false → lo ⩽ hi → (lo ⩽ clamp v lo hi) × (clamp v lo hi ⩽ hi)
  unfolding clamp
  clamp_number v lo hi n h =
      let number = o.number_lem v n in
      let (low, high) = o.number_of_le lo hi h in
      elim (Bool-cases (f.lt v lo)) [
        | inl e ↦ rw (n, e) (low, h)
        | inr e ↦ elim (Bool-cases (f.lt hi v)) [
          | inl g ↦ rw (n, e, g) (h, high)
          | inr g ↦ rw (n, e, g) (le_of_not_lt v lo number low e, le_of_not_lt hi v high number g)
        ]
      ]

  -- Whatever is clamped to a range lies in it.
  pub clamp_range : (v lo hi : W) → lo ⩽ hi → (lo ⩽ clamp v lo hi) × (clamp v lo hi ⩽ hi)
  clamp_range v lo hi h = elim (Bool-cases (f.is_nan v)) [
    | inl n ↦ unfold clamp in rw n ((o.number_of_le lo hi h).0, h)
    | inr n ↦ clamp_number v lo hi n h
  ]

  -- Clamping a value between 0 and x, where x is at most 1, does not raise it above x.
  pub clamp_le : (v x : W) → lit 0 ⩽ v → v ⩽ x → x ⩽ lit 1 → clamp v (lit 0) (lit 1) ⩽ x
  unfolding clamp
  clamp_le v x p q r =
      let zero_le = o.le_trans (lit 0) v x p q in
      let v_le = o.le_trans v x (lit 1) q r in
      elim (Bool-cases (f.is_nan v)) [
        | inl n ↦ rw n zero_le
        | inr n ↦ elim (Bool-cases (f.lt v (lit 0))) [
          | inl e ↦ rw (n, e) zero_le
          | inr e ↦ elim (Bool-cases (f.lt (lit 1) v)) [
            | inl g ↦ let refuted = o.not_le_of_lt (lit 1) v g in cc
            | inr g ↦ rw (n, e, g) q
          ]
        ]
      ]

  -- A value that validation accepts.
  pub IsUnit-of_valid : (x : W) → outside_unit x ≡ false → IsUnit x
  IsUnit-of_valid x h =
      let n : f.is_nan x ≡ false = ground (arith, h) in
      let low : f.lt x (lit 0) ≡ false = ground (arith, h) in
      let high : f.lt (lit 1) x ≡ false = ground (arith, h) in
      let number = o.number_lem x n in
      (
        le_of_not_lt x (lit 0) number (o.lit_number 0) low,
        le_of_not_lt (lit 1) x (o.lit_number 1) number high,
      )

  pub zero_le_one : ◌⩽◌ {W = W} (lit 0) (lit 1)
  zero_le_one = o.le_of_lt (lit 0) (lit 1) (o.lit_lt 0 1 (omega arith) (omega arith))

  pub quarter_le_one : ◌⩽◌ {W = W} (f.ratio 1 4) (lit 1)
  quarter_le_one = (o.ratio_unit 1 4 (omega arith) (omega arith)).1

  pub one-IsUnit : IsUnit {W = W} (lit 1)
  one-IsUnit = (zero_le_one, o.lit_number 1)
