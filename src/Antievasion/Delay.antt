-- ===== src/Antievasion/Delay.antt =====
-- internal/antievasion/antievasion.go: actions are held back for a time that their identifier fixes.
use nevr_anticheat.Prelude.{ℕ, ◌%◌, List, [], ◌∷◌, ◌++◌, if◌then◌else◌, length}
use nevr_anticheat.Prelude.Int.{ℤ, pos, pos_part, ◌+ℤ◌, ◌-ℤ◌, leb_ℤ, ltb_ℤ}
use nevr_anticheat.Prelude.Float.{Float, lit}
use nevr_anticheat.Prelude.Text.{bytes}
use nevr_anticheat.Enforce.Action.{EnforcementAction}
use nevr_anticheat.Antievasion.Window.{fnv64, mix64}

pub record PendingAction {ℓ} (W : Type ℓ) : Type ℓ where
  pub action : EnforcementAction W
  pub execute_at : ℤ

pub record DelayedEnforcement {ℓ} (W : Type ℓ) : Type ℓ where
  pub pending : List (PendingAction W)
  pub min_delay : ℤ
  pub max_delay : ℤ

-- The least and the greatest delay, in range.
abbrev pub least_delay : ℤ → ℤ
least_delay min_delay = if ltb_ℤ min_delay (pos 0) then pos 0 else min_delay

abbrev pub greatest_delay : ℤ → ℤ → ℤ
greatest_delay max_delay least = if ltb_ℤ max_delay least then least else max_delay

module _ {ℓ} {W : Type ℓ} where
  unfoldable pub new_delayed_enforcement : ℤ → ℤ → DelayedEnforcement W
  new_delayed_enforcement min_delay max_delay = record {
    pending = [];
    min_delay = least_delay min_delay;
    max_delay = greatest_delay max_delay (least_delay min_delay);
  }

  -- Pending
  unfoldable pub pending_count : DelayedEnforcement W → ℕ
  pending_count de = length de.pending

  -- The loop of Ready: what is ready, and what remains, both in the order of the queue.
  unfoldable pub split_ready :
      ℤ → List (PendingAction W) → List (EnforcementAction W) × List (PendingAction W)
  split_ready now [] = ([], [])
  split_ready now (p ∷ ps) =
      let (ready, remaining) = split_ready now ps in
      if leb_ℤ p.execute_at now then (p.action ∷ ready, remaining) else (ready, p ∷ remaining)

  -- Ready
  unfoldable pub ready :
      DelayedEnforcement W → ℤ → DelayedEnforcement W × List (EnforcementAction W)
  ready de now =
      let (out, remaining) = split_ready now de.pending in (record de { pending = remaining }, out)

module _ {ℓ} {W : Type ℓ} ⦃f : Float W⦄ where
  -- The delay that Queue takes for a hash: the range times a fraction in thousandths. The range is not
  -- negative, by the constructor.
  unfoldable pub delay_of : DelayedEnforcement W → ℕ → ℤ
  delay_of de h =
      de.min_delay
      +ℤ f.trunc (
          f.mul (lit (pos_part (de.max_delay -ℤ de.min_delay))) (f.div (lit (h % 1000)) (lit 1000)))

  -- Queue
  unfoldable pub queue : DelayedEnforcement W → EnforcementAction W → ℤ → DelayedEnforcement W
  queue de action now =
      let delay = delay_of de (mix64 (fnv64 (bytes action.action_id))) in
      record de {
        pending = de.pending ++ (record { action = action; execute_at = now +ℤ delay } ∷ []);
      }
