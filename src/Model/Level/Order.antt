-- ===== src/Model/Level/Order.antt =====
-- How tiers follow scores.
use nevr_anticheat.Prelude.{◌≡◌, ◌≤◌, Bool, true, none, arith}
use nevr_anticheat.Prelude.Float.{Float, IsOrdered, ◌⩽◌}
use nevr_anticheat.Model.Level.{
  ScoringLevel, clean, informational, suspicious, high_risk, critical, action_worthy, LevelTable,
  rank, at_least, tier, level_for, validate,
}
use nevr_anticheat.Model.Level.Bounds.{IsMonotone, IsNumeric, validate-IsMonotone}

module _ {ℓ} {W : Type ℓ} ⦃f : Float W⦄ where
  -- The score has reached the lower bound of the tier.
  abbrev pub reached : LevelTable W → ScoringLevel → W → Bool
  reached t clean score = true
  reached t informational score = f.le t.informational_from score
  reached t suspicious score = f.le t.suspicious_from score
  reached t high_risk score = f.le t.high_risk_from score
  reached t critical score = f.le t.critical_from score
  reached t action_worthy score = f.le t.action_worthy_from score

module _ {ℓ} {W : Type ℓ} ⦃f : Float W⦄ (o : IsOrdered W) where
  tier_mono : (t : LevelTable W) (x y : W) → x ⩽ y → rank (tier t x) ≤ rank (tier t y)
  unfolding tier rank
  tier_mono t x y h = ground (
    arith,
    o.le_trans t.informational_from x y,
    o.le_trans t.suspicious_from x y,
    o.le_trans t.high_risk_from x y,
    o.le_trans t.critical_from x y,
    o.le_trans t.action_worthy_from x y,
  )

  -- A higher score never has a lower tier, whatever the table.
  pub level_for_mono :
      (t : LevelTable W) (x y : W) → x ⩽ y → rank (level_for t x) ≤ rank (level_for t y)
  unfolding level_for
  level_for_mono t x y h = tier_mono _ x y h

  tier-reached :
      (t : LevelTable W) (l : ScoringLevel) (score : W)
      → IsMonotone t
      → at_least (tier t score) l ≡ reached t l score
  unfolding tier at_least
  tier-reached t clean score m = ground arith
  tier-reached t informational score m = ground (
    arith,
    o.le_trans t.informational_from t.suspicious_from score,
    o.le_trans t.suspicious_from t.high_risk_from score,
    o.le_trans t.high_risk_from t.critical_from score,
    o.le_trans t.critical_from t.action_worthy_from score,
  )
  tier-reached t suspicious score m = ground (
    arith,
    o.le_trans t.suspicious_from t.high_risk_from score,
    o.le_trans t.high_risk_from t.critical_from score,
    o.le_trans t.critical_from t.action_worthy_from score,
  )
  tier-reached t high_risk score m = ground (
    arith,
    o.le_trans t.high_risk_from t.critical_from score,
    o.le_trans t.critical_from t.action_worthy_from score,
  )
  tier-reached t critical score m =
      ground (arith, o.le_trans t.critical_from t.action_worthy_from score)
  tier-reached t action_worthy score m = ground arith

  -- In an accepted table without NaN, a score is of at least a tier exactly when it has reached
  -- the inclusive lower bound of that tier.
  pub level_for-reached :
      (t : LevelTable W) (l : ScoringLevel) (score : W)
      → IsNumeric t
      → validate t ≡ none
      → at_least (level_for t score) l ≡ reached t l score
  unfolding level_for
  level_for-reached t l score n v = rw v (tier-reached t l score (validate-IsMonotone o t n v))
