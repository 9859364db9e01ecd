-- ===== src/Enforce/Policy.antt =====
-- internal/enforce/policy.go: the stateless policy. Its clock is an argument, and the reason, a text
-- for the moderator, is left out.
pub mod Laws
use nevr_anticheat.Prelude.{
  ℕ, String, Bool, true, false, ◌&&◌, Option, none, some, List, [], ◌∷◌, leb, if◌then◌else◌,
}
use mathlib.Core.Option
use nevr_anticheat.Prelude.Int.{ℤ, pos}
use nevr_anticheat.Prelude.Text.{codes, same_codes}
use nevr_anticheat.Prelude.Float.{Float}
use nevr_anticheat.Model.Level.{
  LevelTable, suspicious, high_risk, critical, action_worthy, at_least, level_for, is_zero,
  default_table,
}
use nevr_anticheat.Model.Event.{DetectionEvent}
use nevr_anticheat.Model.Score.{SuspicionScore}
use nevr_anticheat.Model.Phase.{lowered}
use nevr_anticheat.Enforce.Action.{
  EnforcementAction, ActionType, temp_ban, restrict, review_queue, flag, Identity,
  recommendation_id,
}
use nevr_anticheat.Enforce.Evidence.{player_events, event_ids, match_ids_for, has_hard}
use nevr_anticheat.Enforce.Engine.{
  Mode, shadow_mode, flag_mode, review_mode, enforce_mode, unknown_mode,
}

pub record Policy {ℓ} (W : Type ℓ) : Type ℓ where
  pub policy_mode : Mode
  pub policy_levels : LevelTable W
  pub policy_ban_duration : ℤ

-- The mode of NewPolicy: that of the text, trimmed and in lower case, and shadow for any other text.
unfoldable pub effective_mode : String → Mode
effective_mode text =
    let mode = lowered text in
    if same_codes mode (codes "flag")
    then flag_mode
    else if same_codes mode (codes "review")
    then review_mode
    else if same_codes mode (codes "enforce")
    then enforce_mode
    else shadow_mode

module _ {ℓ} {W : Type ℓ} where
  abbrev policy_duration : Policy W → ActionType → ℤ
  policy_duration p temp_ban = p.policy_ban_duration
  policy_duration p _ = pos 0

  -- Policy.action, with the duration that Evaluate adds after the id was computed.
  unfoldable pub policy_action :
      (Identity → String)
      → ℤ
      → Policy W
      → String
      → SuspicionScore W
      → List (DetectionEvent W)
      → ActionType
      → EnforcementAction W
  policy_action digest now p player score es type =
      let a : EnforcementAction W = record {
        action_id = "";
        action_player = player;
        action_type = type;
        duration = policy_duration p type;
        issued_by = "auto";
        issued_at = now;
        evidence_ids = event_ids es;
        action_matches = match_ids_for "" score;
        score_at_time = score.total_score;
      } in
      record a { action_id = recommendation_id digest a }

module _ {ℓ} {W : Type ℓ} ⦃f : Float W⦄ where
  -- NewPolicy
  unfoldable pub new_policy : String → Policy W
  new_policy text = record {
    policy_mode = effective_mode text;
    policy_levels = default_table;
    policy_ban_duration = pos 604_800_000_000_000;
  }

  -- WithLevels
  unfoldable pub with_levels : Policy W → LevelTable W → Policy W
  with_levels p t = if is_zero t then p else record p { policy_levels = t }

  -- The conservative switch of the enforce mode.
  unfoldable pub enforce_type :
      Policy W → SuspicionScore W → List (DetectionEvent W) → Option ActionType
  enforce_type p score es =
      let level = level_for p.policy_levels score.total_score in
      if at_least level action_worthy
      then if has_hard es && leb 2 score.match_count then some temp_ban else some restrict
      else if at_least level critical
      then some restrict
      else if at_least level high_risk
      then some review_queue
      else none

  unfoldable pub policy_type :
      Mode → Policy W → SuspicionScore W → List (DetectionEvent W) → Option ActionType
  policy_type shadow_mode p score es = none
  policy_type flag_mode p score es =
      if at_least (level_for p.policy_levels score.total_score) suspicious then some flag else none
  policy_type review_mode p score es =
      if at_least (level_for p.policy_levels score.total_score) high_risk
      then some review_queue
      else none
  policy_type enforce_mode p score es = enforce_type p score es
  policy_type unknown_mode p score es = none

  -- Evaluate
  unfoldable pub policy_evaluate :
      (Identity → String)
      → ℤ
      → Policy W
      → String
      → SuspicionScore W
      → List (DetectionEvent W)
      → Option (EnforcementAction W)
  policy_evaluate digest now p player score events =
      let es = player_events player events in
      Option.map (policy_action digest now p player score es) (policy_type p.policy_mode p score es)

  -- ShouldCreateCase
  unfoldable pub should_create_case : Policy W → SuspicionScore W → Bool
  should_create_case p score = at_least (level_for p.policy_levels score.total_score) suspicious
