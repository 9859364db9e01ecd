-- ===== src/Review/Laws.antt =====
-- The life of a case: which statuses follow which, and that a case is decided once.
use nevr_anticheat.Prelude.{
  ℕ, ◌≡◌, ◌⊎◌, refl, String, Bool, true, false, some, inl, inr, arith, Bool-cases, Option-cases,
  if◌then◌else◌,
}
use mathlib.Core.Bool.{false≢true}
use nevr_anticheat.Prelude.Dict.{text_eq, lookup, lookup-insert}
use nevr_anticheat.Review.Status.{
  CaseStatus, pending, assigned, in_review, decided, appealed, closed, other_status,
  valid_transition,
}
use nevr_anticheat.Review.Queue.{
  ReviewCase, Tables, ReviewError, Reply, reply, refuse, moved, update_row, move_loaded, transition,
  is_known,
}

-- The statuses that can follow a status.
data Reaches (from : CaseStatus) : CaseStatus → Type 0 where
  here : Reaches from from
  next : {mid to : CaseStatus} → Reaches from mid → valid_transition mid to ≡ true → Reaches from to

abbrev after_decision : CaseStatus → Bool
after_decision decided = true
after_decision appealed = true
after_decision closed = true
after_decision _ = false

after_step :
    (a b : CaseStatus)
    → after_decision a ≡ true
    → valid_transition a b ≡ true
    → after_decision b ≡ true
unfolding valid_transition
after_step a b h t = ground arith

after :
    {from to : CaseStatus} → after_decision from ≡ true → Reaches from to → after_decision to ≡ true
after h here = h
after h (next r t) = after_step _ _ (after h r) t

named_after :
    (to : CaseStatus) → after_decision to ≡ true → (to ≡ decided) ⊎ (to ≡ appealed) ⊎ (to ≡ closed)
named_after decided h = inl refl
named_after appealed h = inr (inl refl)
named_after closed h = inr (inr refl)
named_after pending h = absurd (false≢true h)
named_after assigned h = absurd (false≢true h)
named_after in_review h = absurd (false≢true h)
named_after (other_status s) h = absurd (false≢true h)

-- A case that is decided is never in the open queue again: over any number of valid transitions its
-- status is decided, appealed or closed.
decided-Reaches :
    {to : CaseStatus} → Reaches decided to → (to ≡ decided) ⊎ (to ≡ appealed) ⊎ (to ≡ closed)
decided-Reaches {to} r = named_after to (after refl r)

-- What a change of status can do to the tables and answer.
pub data MoveResult (db : Tables) (id : String) (to : CaseStatus) : Tables × Reply → Type 0 where
  unchanged : (e : ReviewError) → MoveResult db id to (db, refuse e)
  along_edge :
      (rc rc' new : ReviewCase) (db' : Tables)
      → lookup id db.cases ≡ some rc
      → valid_transition rc.status to ≡ true
      → rc'.status ≡ to
      → new.status ≡ to
      → db'.decisions ≡ db.decisions
      → ((j : String) → lookup j db'.cases ≡ (if text_eq id j then some new else lookup j db.cases))
      → MoveResult db id to (db', reply rc')

move_loaded-MoveResult :
    (written : Bool) (now : ℕ) (db : Tables) (id : String) (to : CaseStatus) (who : String)
    (rc : ReviewCase)
    → lookup id db.cases ≡ some rc
    → MoveResult db id to (move_loaded written now db id to who rc)
unfolding move_loaded update_row moved
move_loaded-MoveResult written now db id to who rc h =
    elim (Bool-cases (valid_transition rc.status to)) [
      | inr e ↦ rw e (unchanged _)
      | inl v ↦ elim (Bool-cases (is_known to)) [
        | inr e ↦ rw (v, e) (unchanged _)
        | inl k ↦ elim (Bool-cases written) [
          | inr e ↦ rw (v, k, e) (unchanged _)
          | inl w ↦
              rw (v, k, w)
                (along_edge rc _ _ _ h v refl refl refl (λ j. lookup-insert id j _ db.cases))
        ]
      ]
    ]

-- A change of status either refuses, and then no row has been written, or the case was there, the
-- edge from its status is a valid one, its row and the answer have the new status, no other row has
-- changed and no decision has been added.
pub transition-MoveResult :
    (written : Bool) (now : ℕ) (db : Tables) (id : String) (to : CaseStatus) (who : String)
    → MoveResult db id to (transition written now db id to who)
unfolding transition
transition-MoveResult written now db id to who = elim (Option-cases (lookup id db.cases)) [
  | inl e ↦ rw e (unchanged _)
  | inr (rc, e) ↦ rw e (move_loaded-MoveResult written now db id to who rc e)
]
