-- ===== src/Examples/Enforce.antt =====
-- The recommendations' theorems at a player with hard evidence in two categories and two matches.
use nevr_anticheat.Prelude.{
  arith, ℕ, ◌+◌, ◌≡◌, ◌≤◌, refl, if◌then◌else◌, String, true, some, none, List, [], ◌∷◌,
}
use mathlib.Core.Option
use nevr_anticheat.Prelude.Int.{pos, ◌≤ℤ◌, ◌-ℤ◌, ltb_ℤ}
use nevr_anticheat.Prelude.Float.{Milli, milli_float, lit}
use nevr_anticheat.Prelude.Dict.{text_eq, lookup, insert, retain}
use nevr_anticheat.Prelude.Text.{to_upper, has_prefix, contains_text, same_codes, before}
use nevr_anticheat.Model.Level.{level_for, at_least, validate, validate_rest, tier, rank}
use nevr_anticheat.Model.Event.{DetectionEvent}
use nevr_anticheat.Model.Score.{SuspicionScore, zero_score}
use nevr_anticheat.Scoring.Category.{is_meta_detector}
use nevr_anticheat.Enforce.Action.{
  EnforcementAction, temp_ban, Identity, insert_text, unique, recommendation_id,
}
use nevr_anticheat.Enforce.Evidence.{
  prefix_category, player_events, categories, event_ids, match_ids_for, total_confidence,
  average_confidence, is_hard, has_hard,
}
use nevr_anticheat.Enforce.Engine.{
  Engine, enforce_mode, no_store, decide, new_action, prune, is_cooling_down, ban_gate, recommended,
  weigh, dispatch, evaluate,
}
use nevr_anticheat.Enforce.Gates.{IsBanGrounded, decide-IsBanGrounded}
use nevr_anticheat.Enforce.Cooldown.{Evaluation, evaluated, evaluate_all}
use nevr_anticheat.Enforce.Cooldown.Rest.{evaluate_rests}
use nevr_anticheat.Enforce.Policy.{Policy, policy_evaluate}
use nevr_anticheat.Enforce.Policy.Laws.{decide_ban-policy_evaluate}
use nevr_anticheat.Storage.Shared.{Turn, present, returned_times, returned_once}
use nevr_anticheat.Examples.Samples.{sample_event, sample_levels}

abbrev digest : Identity → String
digest d = "id"

abbrev engine : Engine Milli
engine = record {
  mode = enforce_mode;
  levels = sample_levels;
  cooldown = pos 1000;
  min_categories_for_kick = pos 2;
  min_categories_for_ban = pos 2;
  min_matches_for_ban = pos 2;
  min_confidence_for_ban = some 900;
  ban_duration = pos 5000;
  cooldowns = [];
  last_prune = pos 0;
}

abbrev policy : Policy Milli
policy = record {
  policy_mode = enforce_mode;
  policy_levels = sample_levels;
  policy_ban_duration = pos 5000;
}

abbrev score_of : ℕ → SuspicionScore Milli
score_of n = record (zero_score "p1" sample_levels) {
  total_score = lit n;
  match_count = 2;
  match_ids = "m1" ∷ "m2" ∷ [];
}

abbrev events : List (DetectionEvent Milli)
events = sample_event "e1" "MOV_001" 10 ∷ sample_event "e2" "THROW_002" 20 ∷ []

abbrev action : EnforcementAction Milli
action = new_action digest (pos 50) engine "p1" "m2" (score_of 97) events temp_ban

banned : (decide digest (pos 50) engine "p1" "m2" (score_of 97) events).1 ≡ some action
unfolding lookup insert retain to_upper has_prefix contains_text same_codes before level_for
    at_least validate validate_rest tier rank zero_score is_meta_detector insert_text unique
    recommendation_id prefix_category player_events categories event_ids match_ids_for
    total_confidence average_confidence is_hard has_hard decide new_action prune is_cooling_down
    ban_gate recommended weigh ◌-ℤ◌
banned = refl

ban_type : action.action_type ≡ temp_ban
unfolding new_action
ban_type = refl

decide-IsBanGrounded_example : IsBanGrounded engine "p1" (score_of 97) events
decide-IsBanGrounded_example =
    decide-IsBanGrounded digest (pos 50) engine "p1" "m2" (score_of 97) events action banned
      ban_type

two : pos 2 ≤ℤ pos 2
two = ground arith

decide_ban-policy_evaluate_example :
    Option.map
      (λ (b : EnforcementAction Milli). b.action_type)
      (policy_evaluate digest (pos 50) policy "p1" (score_of 97) events)
    ≡ some temp_ban
decide_ban-policy_evaluate_example =
    decide_ban-policy_evaluate digest (pos 50) engine policy "p1" "m2" (score_of 97) events action
      refl refl two banned ban_type

same_matches : 2 ≤ 2
same_matches = ground arith

abbrev call_at : ℕ → Evaluation Milli
call_at n = record {
  store = no_store;
  at = pos n;
  player = "p1";
  match = "m2";
  score = score_of 97;
  events = events;
}

recommended_at_first : (evaluated digest engine (call_at 50)).1 ≡ some action
unfolding evaluate dispatch
recommended_at_first = rw banned refl

soon : ltb_ℤ (pos 400 -ℤ pos 50) (pos 1000) ≡ true
unfolding ◌-ℤ◌
soon = refl

later : ltb_ℤ (pos 900 -ℤ pos 50) (pos 1000) ≡ true
unfolding ◌-ℤ◌
later = refl

evaluate_rests_example :
    (evaluated digest
      (evaluate_all digest (evaluated digest engine (call_at 50)).0 (call_at 400 ∷ []))
      (call_at 900)).1
    ≡ none
evaluate_rests_example =
    evaluate_rests digest engine (call_at 50) (call_at 900) (call_at 400 ∷ []) action refl
      recommended_at_first (soon, tt) refl later

-- Two engines that share a database and find the same recommendation.
abbrev turn_at : ℕ → Turn Milli
turn_at n = record {
  digest = digest;
  engine = engine;
  now = pos n;
  player = "p1";
  match_id = "m2";
  score = score_of 97;
  detections = events;
  db = record { begins = true; inserts = true; commits = true };
  known = λ id. some ("p1", if text_eq id "e1" then "m1" else "m2");
}

returned_once_example : returned_times "id" [] (turn_at 50 ∷ turn_at 60 ∷ []) + present "id" [] ≤ 1
returned_once_example = returned_once "id" [] (turn_at 50 ∷ turn_at 60 ∷ [])
