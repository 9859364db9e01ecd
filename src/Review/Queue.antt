-- ===== src/Review/Queue.antt =====
-- internal/review/queue.go over internal/storage/sqlite/store.go: the lifecycle of a case. The tables
-- are an association list and a list; a write takes the database's answer, whether it was carried
-- out, and a transaction that was not leaves the tables as they were. Times are arguments.
use nevr_anticheat.Prelude.{
  ℕ, String, Bool, true, false, Option, none, some, List, ◌∷◌, if◌then◌else◌,
}
use nevr_anticheat.Prelude.Dict.{text_eq, lookup, insert}
use nevr_anticheat.Review.Status.{
  CaseStatus, assigned, in_review, decided, closed, other_status, valid_transition,
  ModeratorDecision, DecisionError, validate_decision,
}

-- The columns that the lifecycle reads or writes; the evidence of the case is carried beside them.
pub record ReviewCase : Type 0 where
  pub case_player : String
  pub case_match : String
  pub status : CaseStatus
  pub assigned_to : String
  pub updated_at : ℕ

pub record Tables : Type 0 where
  pub cases : List (String × ReviewCase)
  pub decisions : List ModeratorDecision

pub data ReviewError : Type 0 where
  moderator_required not_found not_decidable write_failed bad_status : ReviewError
  invalid_transition : CaseStatus → CaseStatus → ReviewError
  invalid_decision : DecisionError → ReviewError

-- The new tables, and the case or the error.
pub data Reply : Type 0 where
  reply : ReviewCase → Reply
  refuse : ReviewError → Reply

-- validCaseStatuses
abbrev pub is_known : CaseStatus → Bool
is_known (other_status s) = false
is_known _ = true

-- CASE WHEN ? = '' THEN assigned_to ELSE ? END
abbrev pub or_keep : String → String → String
or_keep new old = if text_eq new "" then old else new

-- The row that updateCaseStatusTx writes.
unfoldable pub moved : ReviewCase → CaseStatus → String → ℕ → ReviewCase
moved rc to who at = record rc {
  status = to;
  assigned_to = or_keep who rc.assigned_to;
  updated_at = at;
}

unfoldable pub update_row : Tables → String → ReviewCase → CaseStatus → String → ℕ → Tables
update_row db id rc to who at = record db { cases = insert id (moved rc to who at) db.cases }

-- Queue.transition with Store.UpdateReviewCaseStatusAt, once the case has been loaded.
unfoldable pub move_loaded :
    Bool → ℕ → Tables → String → CaseStatus → String → ReviewCase → Tables × Reply
move_loaded written now db id to who rc =
    let who' = if text_eq who "" then rc.assigned_to else who in
    if valid_transition rc.status to
    then if is_known to
      then if written
        then (
          update_row db id rc to who' now,
          reply (record rc { status = to; assigned_to = who'; updated_at = now }),
        )
        else (db, refuse write_failed)
      else (db, refuse bad_status)
    else (db, refuse (invalid_transition rc.status to))

abbrev pub loaded : Tables → Option ReviewCase → (ReviewCase → Tables × Reply) → Tables × Reply
loaded db none k = (db, refuse not_found)
loaded db (some rc) k = k rc

-- Queue.transition
unfoldable pub transition : Bool → ℕ → Tables → String → CaseStatus → String → Tables × Reply
transition written now db id to who =
    loaded db (lookup id db.cases) (move_loaded written now db id to who)

-- Queue.Assign
unfoldable pub assign : Bool → ℕ → Tables → String → String → Tables × Reply
assign written now db id moderator =
    if text_eq moderator ""
    then (db, refuse moderator_required)
    else transition written now db id assigned moderator

-- Queue.Start
unfoldable pub start : Bool → ℕ → Tables → String → String → Tables × Reply
start written now db id moderator = transition written now db id in_review moderator

-- `status == decided || status == closed` of Store.StoreModeratorDecision
abbrev pub is_final : CaseStatus → Bool
is_final decided = true
is_final closed = true
is_final _ = false

-- Store.StoreModeratorDecision on a case of the table: one transaction.
unfoldable pub store_decision : Bool → Tables → ReviewCase → ModeratorDecision → Option Tables
store_decision committed db rc d =
    if is_final rc.status
    then none
    else if committed
    then some (record (update_row db d.decision_case rc decided d.moderator_id d.decided_at) {
      decisions = d ∷ db.decisions;
    })
    else none

-- The second write of Queue.Decide, after the decision has been stored.
unfoldable pub finish :
    Bool → ℕ → ReviewCase → ModeratorDecision → Option Tables → Tables → Tables × Reply
finish written now rc d none db = (db, refuse write_failed)
finish written now rc d (some db') db =
    let who = if text_eq rc.assigned_to "" then d.moderator_id else rc.assigned_to in
    let stored = moved rc decided d.moderator_id d.decided_at in
    if written
    then (
      update_row db' d.decision_case stored decided who now,
      reply (record rc { status = decided; assigned_to = who; updated_at = now }),
    )
    else (db', refuse write_failed)

unfoldable pub decide_loaded :
    Bool → Bool → ℕ → Tables → ModeratorDecision → ReviewCase → Tables × Reply
decide_loaded committed written now db d rc =
    if valid_transition rc.status decided
    then finish written now rc d (store_decision committed db rc d) db
    else (db, refuse (invalid_transition rc.status decided))

abbrev pub checked : Tables → Option DecisionError → Tables × Reply → Tables × Reply
checked db none r = r
checked db (some e) r = (db, refuse (invalid_decision e))

-- Queue.Decide
unfoldable pub decide : Bool → Bool → ℕ → Tables → ModeratorDecision → Tables × Reply
decide committed written now db d =
    checked db (validate_decision d)
      (loaded db (lookup d.decision_case db.cases) (decide_loaded committed written now db d))
