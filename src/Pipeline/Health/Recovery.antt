-- ===== src/Pipeline/Health/Recovery.antt =====
-- internal/pipeline/data_health.go: how long a fault of a feed is remembered.
use nevr_anticheat.Prelude.{
  ℕ, zero, suc, ◌-◌, ◌≡◌, refl, Bool, false, ◌||◌, List, [], ◌∷◌, take, inl, inr, arith, ltb,
  Bool-cases, String,
}
use nevr_anticheat.Prelude.Float.{Float}
use nevr_anticheat.Pipeline.Faults.{Fault, Sample, has_fault}
use nevr_anticheat.Pipeline.Health.{
  HealthEntry, counted, health_recovery_samples, observe, fresh_entry,
}

module _ {ℓ} {W : Type ℓ} ⦃f : Float W⦄ where
  -- The entry after a player's samples, the newest first.
  unfoldable pub after_samples : W → List String → List (Sample W) → HealthEntry
  after_samples max_dt ids [] = fresh_entry
  after_samples max_dt ids (s ∷ ss) = observe max_dt ids (after_samples max_dt ids ss) s

  -- Does one of the samples show the fault?
  abbrev pub any_shows : W → Fault → List (Sample W) → Bool
  any_shows max_dt r [] = false
  any_shows max_dt r (s ∷ ss) = has_fault max_dt s r || any_shows max_dt r ss

  -- What is left exceeds n exactly if one of the newest samples but n shows the fault.
  left_over :
      (max_dt : W) (ids : List String) (r : Fault) (ss : List (Sample W)) (n k : ℕ)
      → k ≡ health_recovery_samples - n
      → ltb n ((after_samples max_dt ids ss).faults r) ≡ any_shows max_dt r (take k ss)
  unfolding after_samples observe counted fresh_entry
  left_over max_dt ids r [] n zero e = ground arith
  left_over max_dt ids r [] n (suc k) e = ground arith
  left_over max_dt ids r (s ∷ ss) n zero e = elim (Bool-cases (has_fault max_dt s r)) [
    | inl h ↦ ground (arith, h)
    | inr h ↦ ground (arith, h, left_over max_dt ids r ss (suc n) 0)
  ]
  left_over max_dt ids r (s ∷ ss) n (suc k) e = elim (Bool-cases (has_fault max_dt s r)) [
    | inl h ↦ ground (arith, h)
    | inr h ↦ ground (arith, h, left_over max_dt ids r ss (suc n) k)
  ]

  -- After any samples of a player a fault is live exactly if one of the last eight of them shows it,
  -- whatever the others were: eight samples without it clear it, and seven do not.
  pub live_lem :
      (max_dt : W) (ids : List String) (r : Fault) (ss : List (Sample W))
      → ltb 0 ((after_samples max_dt ids ss).faults r) ≡ any_shows max_dt r (take 8 ss)
  live_lem max_dt ids r ss = left_over max_dt ids r ss 0 8 refl
