-- ===== src/Enforce/Engine.antt =====
-- internal/enforce/engine.go: the engine. Its clock is an argument; the durable store's answer to a
-- claim is a parameter.
use nevr_anticheat.Prelude.{
  String, Bool, true, false, not, ◌&&◌, Option, none, some, List, [], ◌∷◌, length, if◌then◌else◌,
}
use mathlib.Core.Option
use nevr_anticheat.Prelude.Int.{ℤ, pos, ◌-ℤ◌, ltb_ℤ, leb_ℤ}
use nevr_anticheat.Prelude.Dict.{lookup, insert, delete, retain}
use nevr_anticheat.Prelude.Float.{Float}
use nevr_anticheat.Model.Level.{
  LevelTable, suspicious, high_risk, critical, action_worthy, at_least, level_for,
}
use nevr_anticheat.Model.Event.{DetectionEvent}
use nevr_anticheat.Model.Score.{SuspicionScore}
use nevr_anticheat.Scoring.Scorer.{is_zero_time}
use nevr_anticheat.Enforce.Action.{
  EnforcementAction, ActionType, temp_ban, review_queue, flag, kick, Identity, recommendation_id,
}
use nevr_anticheat.Enforce.Evidence.{
  player_events, categories, event_ids, match_ids_for, average_confidence, has_hard,
}

-- A Mode that is none of the four takes no case of the switch.
pub data Mode : Type 0 where
  shadow_mode flag_mode review_mode enforce_mode unknown_mode : Mode

pub record Engine {ℓ} (W : Type ℓ) : Type ℓ where
  pub mode : Mode
  pub levels : LevelTable W
  pub cooldown : ℤ
  pub min_categories_for_kick : ℤ
  pub min_categories_for_ban : ℤ
  pub min_matches_for_ban : ℤ
  pub min_confidence_for_ban : W
  pub ban_duration : ℤ
  -- Player to the time of the last recommendation.
  pub cooldowns : List (String × ℤ)
  pub last_prune : ℤ

-- What StoreEnforcementActionOnce answers: recorded, recorded before, or an error.
pub data Claim : Type 0 where
  created duplicate failed : Claim

-- The store of the engine: nil, one without durable claims, or one that claims durably.
pub data Store {ℓ} (W : Type ℓ) : Type ℓ where
  no_store undurable : Store W
  durable : (EnforcementAction W → Claim) → Store W

abbrev pub recent : ℤ → ℤ → Option ℤ → Bool
recent now limit none = false
recent now limit (some last) = ltb_ℤ (now -ℤ last) limit

abbrev pub is_flag : ActionType → Bool
is_flag flag = true
is_flag _ = false

module _ {ℓ} {W : Type ℓ} where
  -- pruneCooldownsLocked
  unfoldable pub prune : ℤ → Engine W → Engine W
  prune now s =
      if leb_ℤ s.cooldown (pos 0)
      then record s { cooldowns = [] }
      else if not (is_zero_time s.last_prune) && ltb_ℤ (now -ℤ s.last_prune) s.cooldown
      then s
      else record s {
        last_prune = now;
        cooldowns = retain (λ at. not (leb_ℤ s.cooldown (now -ℤ at))) s.cooldowns;
      }

  -- The player had a recommendation within the cooldown.
  unfoldable pub is_cooling_down : ℤ → Engine W → String → Bool
  is_cooling_down now s player = recent now s.cooldown (lookup player s.cooldowns)

module _ {ℓ} {W : Type ℓ} ⦃f : Float W⦄ where
  -- The conditions of the temp_ban case.
  unfoldable pub ban_gate : Engine W → SuspicionScore W → List (DetectionEvent W) → Bool
  ban_gate s score es =
      at_least (level_for s.levels score.total_score) action_worthy
      && (has_hard es
          && (leb_ℤ s.min_matches_for_ban (pos score.match_count)
              && (leb_ℤ s.min_categories_for_ban (pos (length (categories es)))
                  && f.le s.min_confidence_for_ban (average_confidence es))))

  -- The switch over the mode: the action that is recommended, if any.
  unfoldable pub recommended :
      Mode → Engine W → SuspicionScore W → List (DetectionEvent W) → Option ActionType
  recommended shadow_mode s score es = none
  recommended flag_mode s score es =
      if at_least (level_for s.levels score.total_score) suspicious then some flag else none
  recommended review_mode s score es =
      if at_least (level_for s.levels score.total_score) high_risk then some review_queue else none
  recommended enforce_mode s score es =
      let level = level_for s.levels score.total_score in
      if ban_gate s score es
      then some temp_ban
      else if at_least level critical
          && leb_ℤ s.min_categories_for_kick (pos (length (categories es)))
      then some kick
      else if at_least level high_risk
      then some review_queue
      else none
  recommended unknown_mode s score es = none

  abbrev duration_of : Engine W → ActionType → ℤ
  duration_of s temp_ban = s.ban_duration
  duration_of s _ = pos 0

  -- newAction, with the duration and the id that decide adds.
  unfoldable pub new_action :
      (Identity → String)
      → ℤ
      → Engine W
      → String
      → String
      → SuspicionScore W
      → List (DetectionEvent W)
      → ActionType
      → EnforcementAction W
  new_action digest now s player match score es type =
      let a : EnforcementAction W = record {
        action_id = "";
        action_player = player;
        action_type = type;
        duration = duration_of s type;
        issued_by = "auto";
        issued_at = now;
        evidence_ids = event_ids es;
        action_matches = match_ids_for match score;
        score_at_time = score.total_score;
      } in
      record a { action_id = recommendation_id digest a }

  -- The body of decide after the cooldown check: the action and the player's events.
  unfoldable pub weigh :
      (Identity → String)
      → ℤ
      → Engine W
      → String
      → String
      → SuspicionScore W
      → List (DetectionEvent W)
      → Option (EnforcementAction W)
  weigh digest now s player match score [] = none
  weigh digest now s player match score (e ∷ es) =
      Option.map (new_action digest now s player match score (e ∷ es))
        (recommended s.mode s score (e ∷ es))

  abbrev pub reserve : ℤ → Engine W → String → Option (EnforcementAction W) → Engine W
  reserve now s player none = s
  reserve now s player (some a) = record s { cooldowns = insert player now s.cooldowns }

  -- decide
  unfoldable pub decide :
      (Identity → String)
      → ℤ
      → Engine W
      → String
      → String
      → SuspicionScore W
      → List (DetectionEvent W)
      → Engine W × Option (EnforcementAction W)
  decide digest now s player match score events =
      let s' = prune now s in
      let action = weigh digest now s' player match score (player_events player events) in
      if is_cooling_down now s' player then (s', none) else (reserve now s' player action, action)

module _ {ℓ} {W : Type ℓ} where
  -- releaseFailedReservation
  abbrev pub release_if : String → ℤ → Engine W → Option ℤ → Engine W
  release_if player at s none = s
  release_if player at s (some held) =
      if leb_ℤ held at && leb_ℤ at held
      then record s { cooldowns = delete player s.cooldowns }
      else s

  unfoldable pub release_failed : String → ℤ → Engine W → Engine W
  release_failed player at s = release_if player at s (lookup player s.cooldowns)

  -- A callback that Evaluate runs: OnFlag is the only one that it can name.
  unfoldable pub notified : EnforcementAction W → Bool
  notified a = is_flag a.action_type

  unfoldable pub settle :
      Claim
      → String
      → Engine W
      → EnforcementAction W
      → Engine W × Option (EnforcementAction W) × Bool
  settle created player s a = (s, some a, notified a)
  settle duplicate player s a = (s, none, false)
  settle failed player s a = (release_failed player a.issued_at s, none, false)

  unfoldable pub dispatch :
      Store W
      → String
      → Engine W
      → Option (EnforcementAction W)
      → Engine W × Option (EnforcementAction W) × Bool
  dispatch store player s none = (s, none, false)
  dispatch no_store player s (some a) = (s, some a, false)
  dispatch undurable player s (some a) = (release_failed player a.issued_at s, none, false)
  dispatch (durable claim) player s (some a) = settle (claim a) player s a

module _ {ℓ} {W : Type ℓ} ⦃f : Float W⦄ where
  -- Evaluate: the engine, the recommendation returned, and whether OnFlag is called.
  unfoldable pub evaluate :
      (Identity → String)
      → Store W
      → ℤ
      → Engine W
      → String
      → String
      → SuspicionScore W
      → List (DetectionEvent W)
      → Engine W × Option (EnforcementAction W) × Bool
  evaluate digest store now s player match score events =
      let (s', action) = decide digest now s player match score events in
      dispatch store player s' action
