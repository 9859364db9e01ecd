-- ===== src/Storage/Shared.antt =====
-- internal/storage/sqlite/recommendation_claim.go, internal/enforce/engine.go: engines that share a
-- database return a recommendation once.
use nevr_anticheat.Prelude.{
  ℕ, ◌+◌, ◌≤◌, ◌≡◌, refl, String, Bool, true, false, Option, none, some, List, [], ◌∷◌,
  if◌then◌else◌, arith,
}
use text.Mathlib.TextEquality.{eq_iff}
use nevr_anticheat.Prelude.Int.{ℤ}
use nevr_anticheat.Prelude.Dict.{text_eq, lookup, lookup-insert}
use nevr_anticheat.Prelude.Float.{Float}
use nevr_anticheat.Model.Score.{SuspicionScore}
use nevr_anticheat.Model.Event.{DetectionEvent}
use nevr_anticheat.Enforce.Action.{EnforcementAction, Identity}
use nevr_anticheat.Enforce.Engine.{
  Engine, Claim, created, duplicate, failed, durable, decide, dispatch, settle, evaluate,
}
use nevr_anticheat.Storage.Claim.{
  Answers, Events, Table, ActionRow, inserted, store_enforcement_action_once, row_of,
}

abbrev some_row : Option ActionRow → ℕ
some_row none = 0
some_row (some row) = 1

-- 1 if the identifier is in the table, or else 0.
abbrev pub present : String → Table → ℕ
present id table = some_row (lookup id table)

abbrev is_created : Claim → Bool
is_created created = true
is_created duplicate = false
is_created failed = false

module _ {ℓ} {W : Type ℓ} where
  -- A claim adds the identifier exactly if it answers that it did.
  inserted-present :
      (id : String) (table : Table) (a : EnforcementAction W) (commits : Bool)
      (row : Option ActionRow)
      → row ≡ lookup a.action_id table
      → present id (inserted table a commits row).0
        ≡ present id table
          + (if is_created (inserted table a commits row).1
              then if text_eq a.action_id id then 1 else 0
              else 0)
  inserted-present id table a false none e = ground arith
  inserted-present id table a true none e =
      ground (arith, lookup-insert a.action_id id (row_of a) table, eq_iff a.action_id id)
  inserted-present id table a commits (some row) e = ground arith

  added : String → EnforcementAction W → Claim → ℕ
  added id a claim = if is_created claim then if text_eq a.action_id id then 1 else 0 else 0

  store_enforcement_action_once-present :
      (id : String) (db : Answers) (events : Events) (table : Table) (a : EnforcementAction W)
      → present id (store_enforcement_action_once db events table a).0
        ≡ present id table + added id a (store_enforcement_action_once db events table a).1
  unfolding store_enforcement_action_once added
  store_enforcement_action_once-present id db events table a =
      ground (arith, inserted-present id table a db.commits (lookup a.action_id table) refl)

  -- 1 if the action that an evaluation returns has the identifier, or else 0.
  abbrev of_id : String → Option (EnforcementAction W) → ℕ
  of_id id none = 0
  of_id id (some a) = if text_eq a.action_id id then 1 else 0

  settle-added :
      (id : String) (claim : Claim) (player : String) (s : Engine W) (a : EnforcementAction W)
      → of_id id (settle claim player s a).1 ≡ added id a claim
  unfolding settle added
  settle-added id created player s a = refl
  settle-added id duplicate player s a = refl
  settle-added id failed player s a = refl

  -- The table after an evaluation, by the action that it decides on.
  abbrev table_after : Answers → Events → Table → Option (EnforcementAction W) → Table
  table_after db events table none = table
  table_after db events table (some a) = (store_enforcement_action_once db events table a).0

  dispatch-present :
      (id : String) (db : Answers) (events : Events) (table : Table) (player : String)
      (s : Engine W) (action : Option (EnforcementAction W))
      → present id (table_after db events table action)
        ≡ present id table
          + of_id id
              (dispatch
                (durable (λ a. (store_enforcement_action_once db events table a).1))
                player
                s
                action).1
  unfolding dispatch
  dispatch-present id db events table player s none = omega arith
  dispatch-present id db events table player s (some a) = omega (
    arith,
    store_enforcement_action_once-present id db events table a,
    settle-added id (store_enforcement_action_once db events table a).1 player s a,
  )

-- An evaluation by some engine, with the database's answers to the claim.
pub record Turn {ℓ} (W : Type ℓ) : Type ℓ where
  pub digest : Identity → String
  pub engine : Engine W
  pub now : ℤ
  pub player : String
  pub match_id : String
  pub score : SuspicionScore W
  pub detections : List (DetectionEvent W)
  pub db : Answers
  pub known : Events

present_le : (id : String) (table : Table) → present id table ≤ 1
present_le id table = go (lookup id table)
  where
    go : (row : Option ActionRow) → some_row row ≤ 1
    go none = omega arith
    go (some row) = omega arith

module _ {ℓ} {W : Type ℓ} ⦃f : Float W⦄ where
  -- The recommendation that the turn's engine returns.
  abbrev pub returned : Table → Turn W → Option (EnforcementAction W)
  returned table t =
      (evaluate t.digest (durable (λ a. (store_enforcement_action_once t.db t.known table a).1))
        t.now t.engine t.player t.match_id t.score t.detections).1

  abbrev pub next_table : Table → Turn W → Table
  next_table table t =
      table_after t.db t.known table
        (decide t.digest t.now t.engine t.player t.match_id t.score t.detections).1

  -- How many of the turns return a recommendation of the identifier.
  abbrev pub returned_times : String → Table → List (Turn W) → ℕ
  returned_times id table [] = 0
  returned_times id table (t ∷ ts) =
      of_id id (returned table t) + returned_times id (next_table table t) ts

  -- Whatever engines share a database, in whatever order they evaluate, whatever they have in their
  -- cooldown tables and whatever the database answers: the evaluations that return a recommendation of
  -- one identifier, and the row that may stand in the table before, are at most one.
  pub returned_once :
      (id : String) (table : Table) (turns : List (Turn W))
      → returned_times id table turns + present id table ≤ 1
  unfolding evaluate
  returned_once id table [] = omega (arith, present_le id table)
  returned_once id table (t ∷ ts) =
      let decided = decide t.digest t.now t.engine t.player t.match_id t.score t.detections in
      omega (
        arith,
        dispatch-present id t.db t.known table t.player decided.0 decided.1,
        returned_once id (next_table table t) ts,
      )
