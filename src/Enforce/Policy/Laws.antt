-- ===== src/Enforce/Policy/Laws.antt =====
-- internal/enforce/policy.go: how the policy follows the score, and that the engine bans no more than
-- the policy does.
use nevr_anticheat.Prelude.{
  ℕ, ◌≤◌, ◌≡◌, refl, ap, ◌∙◌, String, true, Option, none, some, List, inl, inr, arith, Option-cases,
}
use mathlib.Core.Option
use nevr_anticheat.Prelude.Int.{ℤ, pos, ◌≤ℤ◌}
use nevr_anticheat.Prelude.Float.{Float, IsOrdered, ◌⩽◌}
use nevr_anticheat.Model.Level.{at_least}
use nevr_anticheat.Model.Level.Order.{level_for_mono}
use nevr_anticheat.Model.Event.{DetectionEvent}
use nevr_anticheat.Model.Score.{SuspicionScore}
use nevr_anticheat.Enforce.Action.{
  EnforcementAction, ActionType, temp_ban, restrict, review_queue, flag, Identity,
}
use nevr_anticheat.Enforce.Evidence.{player_events}
use nevr_anticheat.Enforce.Engine.{Mode, enforce_mode, Engine, decide, ban_gate}
use nevr_anticheat.Enforce.Gates.{decided-recommended, recommended_ban}
use nevr_anticheat.Enforce.Policy.{
  Policy, policy_type, enforce_type, policy_evaluate, policy_action,
}

-- How far an answer goes.
abbrev pub severity_of : Option ActionType → ℕ
severity_of none = 0
severity_of (some flag) = 1
severity_of (some review_queue) = 2
severity_of (some restrict) = 3
severity_of (some temp_ban) = 4
severity_of (some _) = 5

module _ {ℓ} {W : Type ℓ} ⦃f : Float W⦄ where
  type_lem :
      (digest : Identity → String) (now : ℤ) (p : Policy W) (player : String)
      (score : SuspicionScore W) (events : List (DetectionEvent W))
      → Option.map
          (λ (a : EnforcementAction W). a.action_type)
          (policy_evaluate digest now p player score events)
        ≡ policy_type p.policy_mode p score (player_events player events)
  unfolding policy_evaluate policy_action
  type_lem digest now p player score events =
      elim (Option-cases (policy_type p.policy_mode p score (player_events player events))) [
        | inl e ↦ rw e refl
        | inr (t, e) ↦ rw e refl
      ]

  policy_type_mono :
      IsOrdered W
      → (m : Mode) (p : Policy W) (low high : SuspicionScore W) (es : List (DetectionEvent W))
      → low.total_score ⩽ high.total_score
      → low.match_count ≤ high.match_count
      → severity_of (policy_type m p low es) ≤ severity_of (policy_type m p high es)
  unfolding policy_type enforce_type at_least
  policy_type_mono o m p low high es h n =
      ground (arith, level_for_mono o p.policy_levels low.total_score high.total_score h)

  -- The same events of a player with a score and a match count that are not lower never give a milder
  -- answer: nothing, a flag, the review queue, a restriction, a temporary ban, in this order.
  policy_evaluate_mono :
      IsOrdered W
      → (digest : Identity → String) (now : ℤ) (p : Policy W) (player : String)
        (low high : SuspicionScore W) (events : List (DetectionEvent W))
      → low.total_score ⩽ high.total_score
      → low.match_count ≤ high.match_count
      → severity_of (
          Option.map
            (λ (a : EnforcementAction W). a.action_type)
            (policy_evaluate digest now p player low events))
        ≤ severity_of (
            Option.map
              (λ (a : EnforcementAction W). a.action_type)
              (policy_evaluate digest now p player high events))
  policy_evaluate_mono o digest now p player low high events h n =
      rw (type_lem digest now p player low events, type_lem digest now p player high events)
        (policy_type_mono o p.policy_mode p low high (player_events player events) h n)

  gate_type :
      (s : Engine W) (p : Policy W) (score : SuspicionScore W) (es : List (DetectionEvent W))
      → p.policy_levels ≡ s.levels
      → pos 2 ≤ℤ s.min_matches_for_ban
      → ban_gate s score es ≡ true
      → enforce_type p score es ≡ some temp_ban
  unfolding ban_gate enforce_type
  gate_type s p score es l m g = rw l (ground arith)

  -- An engine that asks for at least two matches bans only where the policy with the same tiers, in
  -- enforce mode, would.
  pub decide_ban-policy_evaluate :
      (digest : Identity → String) (now : ℤ) (s : Engine W) (p : Policy W) (player match : String)
      (score : SuspicionScore W) (events : List (DetectionEvent W)) (a : EnforcementAction W)
      → p.policy_mode ≡ enforce_mode
      → p.policy_levels ≡ s.levels
      → pos 2 ≤ℤ s.min_matches_for_ban
      → (decide digest now s player match score events).1 ≡ some a
      → a.action_type ≡ temp_ban
      → Option.map
          (λ (b : EnforcementAction W). b.action_type)
          (policy_evaluate digest now p player score events)
        ≡ some temp_ban
  unfolding policy_type enforce_type
  decide_ban-policy_evaluate digest now s p player match score events a m l c h t =
      let es = player_events player events in
      let (on, gate) =
        recommended_ban s.mode s score es
          (decided-recommended digest now s player match score events a h ∙ ap some t) in
      type_lem digest now p player score events ∙ rw m (gate_type s p score es l c gate)
