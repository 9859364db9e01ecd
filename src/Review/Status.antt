-- ===== src/Review/Status.antt =====
-- internal/model/review.go and internal/review/queue.go: case statuses, their transitions, and the
-- validation of a moderator's decision. A status or verdict outside the vocabulary is kept as read.
use nevr_anticheat.Prelude.{
  ℕ, String, Bool, true, false, Option, none, some, List, [], ◌∷◌, if◌then◌else◌,
}
use nevr_anticheat.Prelude.Dict.{text_eq}

pub data CaseStatus : Type 0 where
  pending assigned in_review decided appealed closed : CaseStatus
  other_status : String → CaseStatus

pub data Verdict : Type 0 where
  confirmed_cheat false_positive inconclusive needs_more_data : Verdict
  other_verdict : String → Verdict

pub data Correct : Type 0 where
  correct_yes correct_no uncertain : Correct
  other_correct : String → Correct

-- ValidTransition
unfoldable pub valid_transition : CaseStatus → CaseStatus → Bool
valid_transition pending assigned = true
valid_transition pending in_review = true
valid_transition pending decided = true
valid_transition pending closed = true
valid_transition assigned in_review = true
valid_transition assigned decided = true
valid_transition assigned pending = true
valid_transition assigned closed = true
valid_transition in_review decided = true
valid_transition in_review assigned = true
valid_transition in_review closed = true
valid_transition decided appealed = true
valid_transition decided closed = true
valid_transition appealed decided = true
valid_transition appealed closed = true
valid_transition _ _ = false

pub record DetectorVerdict : Type 0 where
  pub feedback_detector : String
  pub correct : Correct

pub record ModeratorDecision : Type 0 where
  pub decision_id : String
  pub decision_case : String
  pub moderator_id : String
  pub verdict : Verdict
  pub decided_at : ℕ
  pub feedback : List DetectorVerdict

pub data DecisionError : Type 0 where
  missing_case missing_moderator unknown_verdict missing_detector unknown_correct : DecisionError

abbrev known_verdict : Verdict → Bool
known_verdict (other_verdict s) = false
known_verdict _ = true

abbrev known_correct : Correct → Bool
known_correct (other_correct s) = false
known_correct _ = true

unfoldable pub validate_feedback : List DetectorVerdict → Option DecisionError
validate_feedback [] = none
validate_feedback (fb ∷ rest) =
    if text_eq fb.feedback_detector ""
    then some missing_detector
    else if known_correct fb.correct
    then validate_feedback rest
    else some unknown_correct

-- ModeratorDecision.Validate; `none` is the nil error.
unfoldable pub validate_decision : ModeratorDecision → Option DecisionError
unfolding validate_feedback
validate_decision d =
    if text_eq d.decision_case ""
    then some missing_case
    else if text_eq d.moderator_id ""
    then some missing_moderator
    else if known_verdict d.verdict
    then validate_feedback d.feedback
    else some unknown_verdict
