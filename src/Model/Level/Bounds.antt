-- ===== src/Model/Level/Bounds.antt =====
-- Which tables Validate accepts, and that a review threshold keeps them accepted.
use nevr_anticheat.Prelude.{◌≡◌, refl, false, none, inl, inr, arith, Bool-cases, if◌then◌else◌}
use nevr_anticheat.Prelude.Float.{Float, IsOrdered, IsNumber, lit, ◌⩽◌, ◌⋖◌}
use nevr_anticheat.Model.Level.{LevelTable, validate, cap_at, raise_to, with_review_threshold}

module _ {ℓ} {W : Type ℓ} ⦃f : Float W⦄ where
  -- No boundary is NaN.
  pub record IsNumeric (t : LevelTable W) : Type 0 where
    pub informational_number : IsNumber t.informational_from
    pub suspicious_number : IsNumber t.suspicious_from
    pub high_risk_number : IsNumber t.high_risk_from
    pub critical_number : IsNumber t.critical_from
    pub action_worthy_number : IsNumber t.action_worthy_from

  -- Strictly positive and non-decreasing boundaries.
  pub record IsMonotone (t : LevelTable W) : Type 0 where
    pub positive : lit 0 ⋖ t.informational_from
    pub informational_le : t.informational_from ⩽ t.suspicious_from
    pub suspicious_le : t.suspicious_from ⩽ t.high_risk_from
    pub high_risk_le : t.high_risk_from ⩽ t.critical_from
    pub critical_le : t.critical_from ⩽ t.action_worthy_from

module _ {ℓ} {W : Type ℓ} ⦃f : Float W⦄ (o : IsOrdered W) where
  le_of_not_lt : (x y : W) → IsNumber x → IsNumber y → f.lt y x ≡ false → x ⩽ y
  le_of_not_lt x y hx hy h = elim (Bool-cases (f.le x y)) [
    | inl le ↦ le
    | inr more ↦ absurd (clash (o.lt_of_not_le y x hy hx more))
  ]
    where
      clash : y ⋖ x → ⊥
      clash lt = cc (lt, h)

  lt_zero_of_not_le : (x : W) → IsNumber x → f.le x (lit 0) ≡ false → lit 0 ⋖ x
  lt_zero_of_not_le x hx h = o.lt_of_not_le (lit 0) x (o.lit_number 0) hx h

  -- A table without NaN that Validate accepts is strictly positive and non-decreasing.
  pub validate-IsMonotone : (t : LevelTable W) → IsNumeric t → validate t ≡ none → IsMonotone t
  unfolding validate
  validate-IsMonotone t n h = ground (
    arith,
    lt_zero_of_not_le t.informational_from,
    le_of_not_lt t.informational_from t.suspicious_from,
    le_of_not_lt t.suspicious_from t.high_risk_from,
    le_of_not_lt t.high_risk_from t.critical_from,
    le_of_not_lt t.critical_from t.action_worthy_from,
  )

  le_zero_trans : (x y : W) → lit 0 ⋖ x → x ⩽ y → f.le y (lit 0) ≡ false
  le_zero_trans x y p q = elim (Bool-cases (f.le y (lit 0))) [
    | inl le ↦ absurd (clash (o.le_trans x y (lit 0) q le))
    | inr more ↦ more
  ]
    where
      clash : x ⩽ lit 0 → ⊥
      clash le = cc (le, o.not_le_of_lt (lit 0) x p)

  pub not_lt_of_le : (x y : W) → x ⩽ y → f.lt y x ≡ false
  not_lt_of_le x y h = elim (Bool-cases (f.lt y x)) [
    | inl lt ↦ absurd (clash (o.not_le_of_lt y x lt))
    | inr more ↦ more
  ]
    where
      clash : f.le x y ≡ false → ⊥
      clash e = cc (h, e)

  -- Every strictly positive, non-decreasing table is accepted.
  pub IsMonotone-validate : (t : LevelTable W) → IsMonotone t → validate t ≡ none
  unfolding validate
  IsMonotone-validate t m =
      let i = t.informational_from in
      let s = t.suspicious_from in
      let h = t.high_risk_from in
      let c = t.critical_from in
      let a = t.action_worthy_from in
      let is = m.informational_le in
      let ih = o.le_trans i s h is m.suspicious_le in
      let ic = o.le_trans i h c ih m.high_risk_le in
      let ia = o.le_trans i c a ic m.critical_le in
      rw (o.not_le_of_lt (lit 0) i m.positive) (
        rw (le_zero_trans i s m.positive is, not_lt_of_le i s is)
          (rw (le_zero_trans i h m.positive ih, not_lt_of_le s h m.suspicious_le)
            (rw (le_zero_trans i c m.positive ic, not_lt_of_le h c m.high_risk_le)
              (rw (le_zero_trans i a m.positive ia, not_lt_of_le c a m.critical_le)))))

  cap_at_le : (a b : W) → IsNumber a → IsNumber b → (cap_at a b ⩽ a) × (cap_at a b ⩽ b)
  unfolding cap_at
  cap_at_le a b ha hb = ground (arith, o.le_of_lt b a, le_of_not_lt a b)

  raise_to_le : (a b : W) → IsNumber a → IsNumber b → (a ⩽ raise_to a b) × (b ⩽ raise_to a b)
  unfolding raise_to
  raise_to_le a b ha hb = ground (arith, o.le_of_lt a b, le_of_not_lt b a)

  cap_at_pos : (a b : W) → lit 0 ⋖ a → lit 0 ⋖ b → lit 0 ⋖ cap_at a b
  unfolding cap_at
  cap_at_pos a b ha hb = ground arith

  lt_of_lt_le : (x y z : W) → x ⋖ y → y ⩽ z → x ⋖ z
  lt_of_lt_le x y z p q =
      o.lt_of_not_le x z (o.number_of_le x y (o.le_of_lt x y p)).0 (o.number_of_le y z q).1
        (elim (Bool-cases (f.le z x)) [
          | inl le ↦ absurd (clash (o.le_trans y z x q le))
          | inr more ↦ more
        ])
    where
      clash : y ⩽ x → ⊥
      clash le = cc (le, o.not_le_of_lt x y p)

  -- The new boundaries, once the threshold is positive.
  moved :
      (t : LevelTable W) (threshold : W)
      → IsMonotone t
      → IsNumber threshold
      → f.le threshold (lit 0) ≡ false
      → IsMonotone (with_review_threshold t threshold)
  unfolding with_review_threshold
  moved t threshold m n more = rw more (record {
    positive = cap_at_pos t.informational_from sus m.positive (
        cap_at_pos t.suspicious_from threshold
          (lt_of_lt_le (lit 0) t.informational_from t.suspicious_from m.positive m.informational_le)
          (lt_zero_of_not_le threshold n more));
    informational_le = (cap_at_le t.informational_from sus inf_number sus_number).1;
    suspicious_le = sus_le.1;
    high_risk_le = crit_le.1;
    critical_le = (raise_to_le t.action_worthy_from crit act_number crit_number).1;
  })
    where
      sus : W
      sus = cap_at t.suspicious_from threshold

      crit : W
      crit = raise_to t.critical_from threshold

      inf_number : IsNumber t.informational_from
      inf_number = (o.number_of_le t.informational_from t.suspicious_from m.informational_le).0

      act_number : IsNumber t.action_worthy_from
      act_number = (o.number_of_le t.critical_from t.action_worthy_from m.critical_le).1

      sus_le : (sus ⩽ t.suspicious_from) × (sus ⩽ threshold)
      sus_le =
          cap_at_le t.suspicious_from threshold
            (o.number_of_le t.suspicious_from t.high_risk_from m.suspicious_le).0 n

      sus_number : IsNumber sus
      sus_number = (o.number_of_le sus threshold sus_le.1).0

      crit_le : (t.critical_from ⩽ crit) × (threshold ⩽ crit)
      crit_le =
          raise_to_le t.critical_from threshold
            (o.number_of_le t.critical_from t.action_worthy_from m.critical_le).0 n

      crit_number : IsNumber crit
      crit_number = (o.number_of_le threshold crit crit_le.1).1

  pub with_review_threshold-IsMonotone :
      (t : LevelTable W) (threshold : W)
      → IsMonotone t
      → IsNumber threshold
      → IsMonotone (with_review_threshold t threshold)
  unfolding with_review_threshold
  with_review_threshold-IsMonotone t threshold m n = elim (Bool-cases (f.le threshold (lit 0))) [
    | inl off ↦ rw off m
    | inr on ↦ moved t threshold m n on
  ]

  -- Mapping a review threshold that is not NaN onto an accepted table without NaN gives a table that
  -- Validate accepts again; a positive threshold becomes the review boundary exactly, and any other
  -- leaves it as it was.
  pub with_review_threshold-valid :
      (t : LevelTable W) (threshold : W)
      → IsNumeric t
      → IsNumber threshold
      → validate t ≡ none
      → (validate (with_review_threshold t threshold) ≡ none)
        × ((with_review_threshold t threshold).high_risk_from
            ≡ (if f.le threshold (lit 0) then t.high_risk_from else threshold))
  with_review_threshold-valid t threshold n h v = (
    IsMonotone-validate _
        (with_review_threshold-IsMonotone t threshold (validate-IsMonotone t n v) h),
    review_boundary,
  )
    where
      review_boundary :
          (with_review_threshold t threshold).high_risk_from
          ≡ (if f.le threshold (lit 0) then t.high_risk_from else threshold)
      review_boundary =
          unfold with_review_threshold in
          elim (Bool-cases (f.le threshold (lit 0))) [ inl e ↦ rw e refl | inr e ↦ rw e refl ]

  -- A table whose boundaries are all NaN is accepted: every comparison in Validate is false of NaN.
  validate_accepts_nan :
      (x : W)
      → f.le x x ≡ false
      → validate (record {
        informational_from = x;
        suspicious_from = x;
        high_risk_from = x;
        critical_from = x;
        action_worthy_from = x;
      })
        ≡ none
  unfolding validate
  validate_accepts_nan x h = ground (arith, o.nan_le x (lit 0) h, o.nan_lt x x h)
