-- ===== src/Review/Untouched.antt =====
-- internal/storage/sqlite/store.go: a repeated analysis leaves alone what a moderator has taken up.
use nevr_anticheat.Prelude.{
  ℕ, ◌≡◌, refl, ◌∙◌, String, Bool, true, false, some, List, [], ◌∷◌, if◌then◌else◌, inl, inr,
  Bool-cases, arith,
}
use text.Mathlib.TextEquality.{eq_iff}
use nevr_anticheat.Prelude.Dict.{text_eq, lookup, lookup-insert}
use nevr_anticheat.Review.Queue.{ReviewCase}
use nevr_anticheat.Review.Reanalysis.{
  CaseRow, Rows, is_pending, upserted, store_review_case, is_stale_case, close_rows,
  reason_or_default, close_stale_review_cases,
}

-- What an analysis writes: a case, or the closing of the cases of a match but for some players.
pub data Write : Type 0 where
  stores : Bool → ℕ → String → ReviewCase → Write
  closes : Bool → ℕ → String → List String → String → Write

unfoldable pub wrote : Rows → Write → Rows
wrote rows (stores written now id rc) = store_review_case written now rows id rc
wrote rows (closes written now match_id keep reason) =
    (close_stale_review_cases written now rows match_id keep reason).0

abbrev pub wrote_all : Rows → List Write → Rows
wrote_all rows [] = rows
wrote_all rows (w ∷ ws) = wrote_all (wrote rows w) ws

-- A case that is past pending and was not closed by an analysis.
pub record IsTaken (row : CaseRow) : Type 0 where
  pub past : is_pending row.review.status ≡ false
  pub unclosed : text_eq row.close_reason "" ≡ true

-- The status stays, and the moderator where there is one.
pub record Keeps (row row' : CaseRow) : Type 0 where
  same_status : row'.review.status ≡ row.review.status
  same_moderator :
      (if text_eq row.review.assigned_to ""
        then row.review.assigned_to
        else row'.review.assigned_to)
      ≡ row.review.assigned_to
  taken : IsTaken row'

upserted-Keeps :
    (row : CaseRow) (rc : ReviewCase) (now : ℕ)
    → IsTaken row
    → Keeps row (upserted rc now (some row))
unfolding upserted
upserted-Keeps row rc now h = ground (arith, h.past, h.unclosed)

lookup-close_rows :
    (id : String) (row : CaseRow) (now : ℕ) (match_id : String) (keep : List String)
    (reason : String) (rows : Rows)
    → IsTaken row
    → lookup id rows ≡ some row
    → lookup id (close_rows now match_id keep reason rows).0 ≡ some row
unfolding close_rows lookup is_stale_case
lookup-close_rows id row now match_id keep reason [] h e = e
lookup-close_rows id row now match_id keep reason ((at, old) ∷ rest) h e =
    ground (arith, e, h.past, lookup-close_rows id row now match_id keep reason rest h)

Keeps-refl : (row : CaseRow) → IsTaken row → Keeps row row
Keeps-refl row h = record { same_status = refl; same_moderator = ground arith; taken = h }

Keeps-trans : (a b c : CaseRow) → Keeps a b → Keeps b c → Keeps a c
Keeps-trans a b c p q = record {
  same_status = q.same_status ∙ p.same_status;
  same_moderator = ground (arith, p.same_moderator, q.same_moderator);
  taken = q.taken;
}

wrote-Keeps :
    (id : String) (row : CaseRow) (rows : Rows) (w : Write)
    → IsTaken row
    → lookup id rows ≡ some row
    → (row' : CaseRow) × (lookup id (wrote rows w) ≡ some row') × Keeps row row'
unfolding wrote store_review_case close_stale_review_cases
wrote-Keeps id row rows (stores false now at rc) h e = (row, e, Keeps-refl row h)
wrote-Keeps id row rows (stores true now at rc) h e = elim (Bool-cases (text_eq at id)) [
  | inl same ↦ (
    upserted rc now (some row),
    ground
        (arith, lookup-insert at id (upserted rc now (lookup at rows)) rows, eq_iff at id, e, same),
    upserted-Keeps row rc now h,
  )
  | inr other ↦ (row, lookup-insert at id _ rows ∙ rw other e, Keeps-refl row h)
]
wrote-Keeps id row rows (closes written now match_id keep reason) h e = (
  row,
  ground (arith, e, lookup-close_rows id row now match_id keep (reason_or_default reason) rows h),
  Keeps-refl row h,
)

-- Whatever cases repeated analyses store and whatever they close: a case that is past pending and was
-- not closed by an analysis stays in the table, keeps its status and, if it has one, its moderator.
pub wrote_all-Keeps :
    (id : String) (row : CaseRow) (rows : Rows) (ws : List Write)
    → IsTaken row
    → lookup id rows ≡ some row
    → (row' : CaseRow) × (lookup id (wrote_all rows ws) ≡ some row') × Keeps row row'
wrote_all-Keeps id row rows [] h e = (row, e, Keeps-refl row h)
wrote_all-Keeps id row rows (w ∷ ws) h e =
    let (row', e', keeps) = wrote-Keeps id row rows w h e in
    let (last, found, more) = wrote_all-Keeps id row' (wrote rows w) ws keeps.taken e' in
    (last, found, Keeps-trans row row' last keeps more)
