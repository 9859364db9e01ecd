-- ===== src/Review/Reanalysis.antt =====
-- internal/storage/sqlite/store.go: what a repeated analysis writes to the table of cases. A row is what
-- the lifecycle reads and, beside it, the column close_reason; the evidence columns are left out.
use nevr_anticheat.Prelude.{
  ℕ, suc, String, Bool, true, false, not, ◌&&◌, ◌||◌, Option, none, some, List, [], ◌∷◌,
  if◌then◌else◌,
}
use nevr_anticheat.Prelude.Dict.{text_eq, lookup, insert}
use nevr_anticheat.Prelude.Text.{contains_text}
use nevr_anticheat.Review.Status.{
  CaseStatus, pending, assigned, in_review, decided, appealed, closed, other_status,
}
use nevr_anticheat.Review.Queue.{ReviewCase, or_keep}

pub record CaseRow : Type 0 where
  pub review : ReviewCase
  pub close_reason : String

abbrev pub Rows : Type 0
Rows = List (String × CaseRow)

unfoldable pub is_pending : CaseStatus → Bool
is_pending pending = true
is_pending assigned = false
is_pending in_review = false
is_pending decided = false
is_pending appealed = false
is_pending closed = false
is_pending (other_status s) = false

-- `if status == "" { status = CaseStatusPending }`
abbrev pub status_or_pending : CaseStatus → CaseStatus
status_or_pending pending = pending
status_or_pending assigned = assigned
status_or_pending in_review = in_review
status_or_pending decided = decided
status_or_pending appealed = appealed
status_or_pending closed = closed
status_or_pending (other_status s) = if text_eq s "" then pending else other_status s

-- The INSERT of StoreReviewCase, by the row that stands there already.
unfoldable pub upserted : ReviewCase → ℕ → Option CaseRow → CaseRow
upserted rc now none = record {
  review = record rc { status = status_or_pending rc.status; updated_at = now };
  close_reason = "";
}
upserted rc now (some old) = record {
  review = record rc {
    status =
        if is_pending old.review.status || not (text_eq old.close_reason "")
        then status_or_pending rc.status
        else old.review.status;
    assigned_to = or_keep old.review.assigned_to rc.assigned_to;
    updated_at = now;
  };
  close_reason = "";
}

-- StoreReviewCase, of which the database says whether it was carried out.
unfoldable pub store_review_case : Bool → ℕ → Rows → String → ReviewCase → Rows
store_review_case written now rows id rc =
    if written then insert id (upserted rc now (lookup id rows)) rows else rows

-- The WHERE of CloseStaleReviewCases.
unfoldable pub is_stale_case : String → List String → CaseRow → Bool
is_stale_case match_id keep row =
    (text_eq row.review.case_match match_id && is_pending row.review.status)
    && not (contains_text row.review.case_player keep)

unfoldable pub close_rows : ℕ → String → List String → String → Rows → Rows × ℕ
close_rows now match_id keep reason [] = ([], 0)
close_rows now match_id keep reason ((id, row) ∷ rest) =
    let (rest', count) = close_rows now match_id keep reason rest in
    if is_stale_case match_id keep row
    then (
      (
        id,
        record row {
          review = record row.review { status = closed; updated_at = now };
          close_reason = reason;
        },
      )
          ∷ rest',
      suc count,
    )
    else ((id, row) ∷ rest', count)

abbrev pub reason_or_default : String → String
reason_or_default reason = if text_eq reason "" then "not flagged by re-analysis" else reason

-- CloseStaleReviewCases: the rows, and how many were closed; nothing without a match.
unfoldable pub close_stale_review_cases : Bool → ℕ → Rows → String → List String → String → Rows × ℕ
close_stale_review_cases written now rows match_id keep reason =
    if text_eq match_id "" || not written
    then (rows, 0)
    else close_rows now match_id keep (reason_or_default reason) rows
