-- ===== src/Review/Once.antt =====
-- internal/review/queue.go: a case that is not under appeal is decided at most once.
use nevr_anticheat.Prelude.{
  ℕ, ◌≤◌, ◌+◌, ◌≡◌, ◌⊎◌, refl, String, Bool, true, false, Option, none, some, List, [], ◌∷◌, inl,
  inr, arith, Bool-cases, Option-cases, leb, ◌==◌, ◌∙◌, if◌then◌else◌,
}
use mathlib.Core.Path.{subst}
use nevr_anticheat.Prelude.Dict.{text_eq, text_eq_sound, lookup, insert, lookup-insert}
use nevr_anticheat.Review.Status.{
  CaseStatus, assigned, in_review, decided, appealed, closed, valid_transition, ModeratorDecision,
  validate_decision,
}
use nevr_anticheat.Review.Queue.{
  ReviewCase, Tables, Reply, moved, update_row, assign, start, is_final, store_decision, finish,
  decide_loaded, decide,
}
use nevr_anticheat.Review.Laws.{MoveResult, unchanged, along_edge, transition-MoveResult}

-- A call of the queue, with the database's answers, the clock and the arguments.
pub data QueueCall : Type 0 where
  assign_call start_call : Bool → ℕ → String → String → QueueCall
  decide_call : Bool → Bool → ℕ → ModeratorDecision → QueueCall

unfoldable pub apply : QueueCall → Tables → Tables
apply (assign_call written now id who) db = (assign written now db id who).0
apply (start_call written now id who) db = (start written now db id who).0
apply (decide_call committed written now d) db = (decide committed written now db d).0

-- The tables after the calls, the first of the list last.
unfoldable pub apply_all : List QueueCall → Tables → Tables
apply_all [] db = db
apply_all (c ∷ cs) db = apply c (apply_all cs db)

-- How many decisions on a case are stored.
unfoldable pub decisions_on : String → List ModeratorDecision → ℕ
decisions_on id [] = 0
decisions_on id (d ∷ ds) =
    if text_eq d.decision_case id then 1 + decisions_on id ds else decisions_on id ds

-- None while the case is open, at most one once it is decided or closed, and no case under appeal.
abbrev pub has_room : Option ReviewCase → ℕ → Bool
has_room none n = n == 0
has_room (some rc) n = room rc.status
  where
    room : CaseStatus → Bool
    room decided = leb n 1
    room closed = leb n 1
    room appealed = false
    room _ = n == 0

abbrev pub IsDecidedOnce : String → Tables → Type 0
IsDecidedOnce k db = has_room (lookup k db.cases) (decisions_on k db.decisions) ≡ true

room_le : (o : Option ReviewCase) (n : ℕ) → has_room o n ≡ true → n ≤ 1
room_le none n h = ground arith
room_le (some rc) n h = ground arith

moved-has_room :
    (rc new : ReviewCase) (to : CaseStatus) (n : ℕ)
    → valid_transition rc.status to ≡ true
    → new.status ≡ to
    → (to ≡ assigned) ⊎ (to ≡ in_review)
    → has_room (some rc) n ≡ true
    → has_room (some new) n ≡ true
unfolding valid_transition
moved-has_room rc new to n v e t h = ground arith

move-IsDecidedOnce :
    (k : String) (db : Tables) (id : String) (to : CaseStatus) (r : Tables × Reply)
    → (to ≡ assigned) ⊎ (to ≡ in_review)
    → MoveResult db id to r
    → IsDecidedOnce k db
    → IsDecidedOnce k r.0
move-IsDecidedOnce k db id to r t (unchanged e) h = h
move-IsDecidedOnce k db id to r t (along_edge rc rc' new db' found v s s' same rows) h =
    elim (Bool-cases (text_eq id k)) [
      | inr miss ↦
          let here : lookup k db'.cases ≡ lookup k db.cases = rows k ∙ rw miss refl in
          rw (here, same) h
      | inl hit ↦
          let here : lookup k db'.cases ≡ some new = rows k ∙ rw hit refl in
          let e : lookup k db.cases ≡ some rc =
            subst (λ j. lookup j db.cases ≡ some rc) (text_eq_sound id k hit) found in
          let h' : has_room (some rc) (decisions_on k db.decisions) ≡ true = rw e at h in
          rw (here, same) (moved-has_room rc new to _ v s' t h')
    ]

decided-has_room :
    (rc new : ReviewCase) (n : ℕ)
    → valid_transition rc.status decided ≡ true
    → new.status ≡ decided
    → has_room (some rc) n ≡ true
    → is_final rc.status ≡ false
    → has_room (some new) (1 + n) ≡ true
unfolding valid_transition
decided-has_room rc new n v e h f = ground arith

stored-IsDecidedOnce :
    (k : String) (db db' : Tables) (d : ModeratorDecision) (rc new : ReviewCase)
    → lookup d.decision_case db.cases ≡ some rc
    → valid_transition rc.status decided ≡ true
    → is_final rc.status ≡ false
    → new.status ≡ decided
    → db'.decisions ≡ d ∷ db.decisions
    → lookup k db'.cases ≡ (if text_eq d.decision_case k then some new else lookup k db.cases)
    → IsDecidedOnce k db
    → IsDecidedOnce k db'
unfolding decisions_on
stored-IsDecidedOnce k db db' d rc new found v f s ds row h =
    elim (Bool-cases (text_eq d.decision_case k)) [
      | inr miss ↦
          let same : lookup k db'.cases ≡ lookup k db.cases = row ∙ rw miss refl in
          rw (same, ds, miss) h
      | inl hit ↦
          let same : lookup k db'.cases ≡ some new = row ∙ rw hit refl in
          let was : lookup k db.cases ≡ some rc =
            subst (λ j. lookup j db.cases ≡ some rc) (text_eq_sound d.decision_case k hit) found in
          let h' : has_room (some rc) (decisions_on k db.decisions) ≡ true = rw was at h in
          rw (same, ds, hit) (decided-has_room rc new _ v s h' f)
    ]

lookup-insert_twice :
    {V : Type 0} (k j : String) (v w : V) (m : List (String × V))
    → lookup j (insert k v (insert k w m)) ≡ (if text_eq k j then some v else lookup j m)
lookup-insert_twice k j v w m = lookup-insert k j v _ ∙ ground (arith, lookup-insert k j w m)

decide_loaded-IsDecidedOnce :
    (k : String) (committed written : Bool) (now : ℕ) (db : Tables) (d : ModeratorDecision)
    (rc : ReviewCase)
    → lookup d.decision_case db.cases ≡ some rc
    → IsDecidedOnce k db
    → IsDecidedOnce k (decide_loaded committed written now db d rc).0
unfolding decide_loaded store_decision finish update_row moved
decide_loaded-IsDecidedOnce k committed written now db d rc found h =
    elim (Bool-cases (valid_transition rc.status decided)) [
      | inr e ↦ rw e h
      | inl v ↦ elim (Bool-cases (is_final rc.status)) [
        | inl f ↦ rw (v, f) h
        | inr f ↦ elim (Bool-cases committed) [
          | inr c ↦ rw (v, f, c) h
          | inl c ↦ elim (Bool-cases written) [
            | inr w ↦
                rw (v, f, c, w)
                  (stored-IsDecidedOnce k db _ d rc _ found v f refl refl
                    (lookup-insert d.decision_case k _ db.cases) h)
            | inl w ↦
                rw (v, f, c, w)
                  (stored-IsDecidedOnce k db _ d rc _ found v f refl refl
                    (lookup-insert_twice d.decision_case k _ _ db.cases) h)
          ]
        ]
      ]
    ]

decide-IsDecidedOnce :
    (k : String) (committed written : Bool) (now : ℕ) (db : Tables) (d : ModeratorDecision)
    → IsDecidedOnce k db
    → IsDecidedOnce k (decide committed written now db d).0
unfolding decide
decide-IsDecidedOnce k committed written now db d h = elim (Option-cases (validate_decision d)) [
  | inr (e, bad) ↦ rw bad h
  | inl fine ↦ elim (Option-cases (lookup d.decision_case db.cases)) [
    | inl e ↦ rw (fine, e) h
    | inr (rc, e) ↦ rw (fine, e) (decide_loaded-IsDecidedOnce k committed written now db d rc e h)
  ]
]

apply-IsDecidedOnce :
    (k : String) (c : QueueCall) (db : Tables) → IsDecidedOnce k db → IsDecidedOnce k (apply c db)
unfolding apply assign start
apply-IsDecidedOnce k (assign_call written now id who) db h = elim (Bool-cases (text_eq who "")) [
  | inl e ↦ rw (apply, e) h
  | inr e ↦
      rw (apply, e)
        (move-IsDecidedOnce k db id _ _ (inl refl) (transition-MoveResult written now db id _ who)
          h)
]
apply-IsDecidedOnce k (start_call written now id who) db h =
    move-IsDecidedOnce k db id _ _ (inr refl) (transition-MoveResult written now db id _ who) h
apply-IsDecidedOnce k (decide_call committed written now d) db h =
    decide-IsDecidedOnce k committed written now db d h

apply_all-IsDecidedOnce :
    (k : String) (cs : List QueueCall) (db : Tables)
    → IsDecidedOnce k db
    → IsDecidedOnce k (apply_all cs db)
unfolding apply_all
apply_all-IsDecidedOnce k [] db h = h
apply_all-IsDecidedOnce k (c ∷ cs) db h =
    apply-IsDecidedOnce k c _ (apply_all-IsDecidedOnce k cs db h)

-- From tables in which a case is absent or open without a decision, or decided or closed with at most
-- one, no sequence of Assign, Start
-- and Decide, whatever the database answers, leaves more than one decision on that case.
pub decided_once :
    (k : String) (cs : List QueueCall) (db : Tables)
    → has_room (lookup k db.cases) (decisions_on k db.decisions) ≡ true
    → decisions_on k (apply_all cs db).decisions ≤ 1
decided_once k cs db h = room_le _ _ (apply_all-IsDecidedOnce k cs db h)
