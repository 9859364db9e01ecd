-- ===== src/Examples/Review.antt =====
-- The queue's theorems at a case that is taken up, decided, and decided again.
use mathlib.Core.List.{Memᴰ}
use nevr_anticheat.Prelude.{if◌then◌else◌}
use nevr_anticheat.Prelude.Dict.{insert}
use nevr_anticheat.Prelude.Float.{Milli, milli_float, lit}
use nevr_anticheat.Model.Level.{
  high_risk, is_zero, default_table, level_for, at_least, validate, validate_rest, tier, rank,
}
use nevr_anticheat.Model.Score.{zero_score}
use nevr_anticheat.Enforce.Action.{insert_text}
use nevr_anticheat.Review.Cases.{
  MatchResult, Candidate, build_cases, candidates, candidate_of, group, events_of, sorted_keys,
}
use nevr_anticheat.Review.Cases.Laws.{IsGrounded, build_cases-IsGrounded}
use nevr_anticheat.Examples.Samples.{sample_levels, sample_event, shadow_event}
use nevr_anticheat.Prelude.{◌≡◌, ◌≤◌, refl, true, some, List, [], ◌∷◌}
use nevr_anticheat.Prelude.Dict.{lookup}
use nevr_anticheat.Review.Status.{pending, in_review, assigned, ModeratorDecision, confirmed_cheat}
use nevr_anticheat.Review.Queue.{Tables, transition}
use nevr_anticheat.Review.Laws.{MoveResult, transition-MoveResult}
use nevr_anticheat.Review.Reanalysis.{CaseRow, is_pending}
use nevr_anticheat.Review.Untouched.{
  Write, stores, closes, wrote_all, IsTaken, Keeps, wrote_all-Keeps,
}
use nevr_anticheat.Review.Once.{
  QueueCall, assign_call, start_call, decide_call, apply_all, decisions_on, has_room, decided_once,
}

abbrev one_case : Tables
one_case = record {
  cases =
      (
        "c1",
        record {
          case_player = "p1";
          case_match = "m1";
          status = pending;
          assigned_to = "";
          updated_at = 0;
        },
      )
      ∷ [];
  decisions = [];
}

abbrev verdict_on_c1 : ModeratorDecision
verdict_on_c1 = record {
  decision_id = "d1";
  decision_case = "c1";
  moderator_id = "ann";
  verdict = confirmed_cheat;
  decided_at = 5;
  feedback = [];
}

abbrev calls : List QueueCall
calls =
    decide_call true true 7 verdict_on_c1
    ∷ decide_call true true 6 verdict_on_c1
    ∷ start_call true 4 "c1" "ann"
    ∷ assign_call true 3 "c1" "ann"
    ∷ []

room_at_first : has_room (lookup "c1" one_case.cases) (decisions_on "c1" one_case.decisions) ≡ true
unfolding lookup decisions_on
room_at_first = refl

decided_once_example : decisions_on "c1" (apply_all calls one_case).decisions ≤ 1
decided_once_example = decided_once "c1" calls one_case room_at_first

transition-MoveResult_example :
    MoveResult one_case "c1" assigned (transition true 3 one_case "c1" assigned "ann")
transition-MoveResult_example = transition-MoveResult true 3 one_case "c1" assigned "ann"

abbrev played : MatchResult Milli
played = record {
  detection_events =
      sample_event "e1" "MOV_001" 10 ∷ shadow_event ∷ sample_event "e2" "BIO_001" 20 ∷ [];
  player_scores = ("p1", record (zero_score "p1" sample_levels) { total_score = lit 70 }) ∷ [];
}

abbrev case_of_p1 : Candidate Milli
case_of_p1 = record {
  candidate_player = "p1";
  candidate_score = record (zero_score "p1" sample_levels) { total_score = lit 70 };
  candidate_events = sample_event "e1" "MOV_001" 10 ∷ sample_event "e2" "BIO_001" 20 ∷ [];
}

built : build_cases sample_levels high_risk played ≡ case_of_p1 ∷ []
unfolding build_cases candidates candidate_of group events_of sorted_keys insert_text is_zero
    level_for at_least validate validate_rest tier rank zero_score lookup insert
built = refl

build_cases-IsGrounded_example :
    IsGrounded
      (if is_zero sample_levels then default_table else sample_levels)
      high_risk
      played
      case_of_p1
build_cases-IsGrounded_example =
    build_cases-IsGrounded sample_levels high_risk played case_of_p1 (rw built (Memᴰ.head refl))

abbrev in_hand : CaseRow
in_hand = record {
  review = record {
    case_player = "p1";
    case_match = "m1";
    status = in_review;
    assigned_to = "ann";
    updated_at = 4;
  };
  close_reason = "";
}

in_hand-IsTaken : IsTaken in_hand
unfolding is_pending
in_hand-IsTaken = record { past = refl; unclosed = refl }

-- A new analysis of the match finds the player again, and another finds nobody.
abbrev two_analyses : List Write
two_analyses =
    stores true 10 "c1" (record in_hand.review { status = pending; assigned_to = "" })
    ∷ closes true 11 "m1" [] ""
    ∷ []

wrote_all-Keeps_example :
    (row' : CaseRow) × (lookup "c1" (wrote_all (("c1", in_hand) ∷ []) two_analyses) ≡ some row')
    × Keeps in_hand row'
unfolding lookup
wrote_all-Keeps_example =
    wrote_all-Keeps "c1" in_hand (("c1", in_hand) ∷ []) two_analyses in_hand-IsTaken refl
