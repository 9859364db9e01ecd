-- ===== src/Storage/Claim.antt =====
-- internal/storage/sqlite/recommendation_claim.go: a recommendation is claimed once. The table is a map
-- from the identifier; whether the database carries out each statement, and what it knows of an event,
-- are arguments. The encoding of a list as JSON is the list itself.
use nevr_anticheat.Prelude.{
  String, Bool, true, false, not, ◌&&◌, ◌||◌, Option, none, some, List, [], ◌∷◌, if◌then◌else◌,
}
use nevr_anticheat.Prelude.Dict.{text_eq, lookup, insert}
use nevr_anticheat.Prelude.Text.{contains_text}
use nevr_anticheat.Enforce.Action.{
  ActionType, warn, temp_ban, perm_ban, dismiss, escalate, restrict, review_queue, flag, kick,
  EnforcementAction, unique,
}
use nevr_anticheat.Enforce.Engine.{Claim, created, duplicate, failed}

-- The columns of enforcement_actions that are compared.
pub record ActionRow : Type 0 where
  pub row_player : String
  pub row_type : ActionType
  pub row_evidence : List String
  pub row_matches : List String

-- Whether BeginTx, the INSERT and Commit succeed.
pub record Answers : Type 0 where
  pub begins : Bool
  pub inserts : Bool
  pub commits : Bool

abbrev pub Table : Type 0
Table = List (String × ActionRow)

-- The texts of the action types, which the column holds.
abbrev pub type_text : ActionType → String
type_text warn = "warn"
type_text temp_ban = "temp_ban"
type_text perm_ban = "perm_ban"
type_text dismiss = "dismiss"
type_text escalate = "escalate"
type_text restrict = "restrict"
type_text review_queue = "review_queue"
type_text flag = "flag"
type_text kick = "kick"

abbrev pub same_texts : List String → List String → Bool
same_texts [] [] = true
same_texts [] (t ∷ ts) = false
same_texts (s ∷ ss) [] = false
same_texts (s ∷ ss) (t ∷ ts) = text_eq s t && same_texts ss ts

abbrev pub is_empty : List String → Bool
is_empty [] = true
is_empty (t ∷ ts) = false

-- The player and the match of an event that still counts for scoring.
abbrev pub Events : Type 0
Events = String → Option (String × String)

abbrev pub in_scope : String → List String → Option (String × String) → Bool
in_scope player matches none = false
in_scope player matches (some (of_player, of_match)) =
    text_eq of_player player && contains_text of_match matches

-- The loop over the evidence.
unfoldable pub all_in_scope : Events → String → List String → List String → Bool
all_in_scope events player matches [] = true
all_in_scope events player matches (id ∷ ids) =
    if not (in_scope player matches (events id))
    then false
    else all_in_scope events player matches ids

unfoldable pub same_row : ActionRow → ActionRow → Bool
same_row r q =
    (text_eq r.row_player q.row_player && text_eq (type_text r.row_type) (type_text q.row_type))
    && (same_texts r.row_evidence q.row_evidence && same_texts r.row_matches q.row_matches)

module _ {ℓ} {W : Type ℓ} where
  abbrev pub row_of : EnforcementAction W → ActionRow
  row_of a = record {
    row_player = a.action_player;
    row_type = a.action_type;
    row_evidence = unique a.evidence_ids;
    row_matches = unique a.action_matches;
  }

  -- The checks before the transaction.
  unfoldable pub is_complete : EnforcementAction W → Bool
  is_complete a =
      not ((text_eq a.action_id "" || text_eq a.action_player "") || is_empty a.evidence_ids)
      && not (is_empty (unique a.evidence_ids) || is_empty (unique a.action_matches))

  -- The INSERT and what follows, by the row that stands there already.
  abbrev pub inserted : Table → EnforcementAction W → Bool → Option ActionRow → Table × Claim
  inserted table a commits none =
      if commits then (insert a.action_id (row_of a) table, created) else (table, failed)
  inserted table a commits (some row) =
      if not (same_row row (row_of a))
      then (table, failed)
      else if commits
      then (table, duplicate)
      else (table, failed)

  -- StoreEnforcementActionOnce: the table, and the answer.
  unfoldable pub store_enforcement_action_once :
      Answers → Events → Table → EnforcementAction W → Table × Claim
  store_enforcement_action_once db events table a =
      if not (is_complete a) || not db.begins
      then (table, failed)
      else if not
          (all_in_scope events a.action_player (unique a.action_matches) (unique a.evidence_ids))
      then (table, failed)
      else if not db.inserts
      then (table, failed)
      else inserted table a db.commits (lookup a.action_id table)
