-- ===== src/Enforce/Action.antt =====
-- internal/model/scoring.go and internal/enforce/identity.go: a recommended action and its identity.
-- The reason, a text for the moderator, is left out. The digest (SHA-256 of the JSON document) is a
-- parameter.
use nevr_anticheat.Prelude.{String, List, [], ◌∷◌, if◌then◌else◌}
use nevr_anticheat.Prelude.Int.{ℤ}
use nevr_anticheat.Prelude.Dict.{text_eq}
use Prim.Native.String.{compare}
use text.Mathlib.Text.{is_lt}

pub data ActionType : Type 0 where
  warn temp_ban perm_ban dismiss escalate restrict review_queue flag kick : ActionType

pub record EnforcementAction {ℓ} (W : Type ℓ) : Type ℓ where
  pub action_id : String
  pub action_player : String
  pub action_type : ActionType
  -- Nanoseconds; 0 for an action without a time limit.
  pub duration : ℤ
  pub issued_by : String
  pub issued_at : ℤ
  pub evidence_ids : List String
  pub action_matches : List String
  pub score_at_time : W

-- A set of texts, sorted: what a Go map's keys are after sort.Strings.
unfoldable pub insert_text : String → List String → List String
insert_text t [] = t ∷ []
insert_text t (u ∷ us) =
    if text_eq t u then u ∷ us else if is_lt (compare t u) then t ∷ u ∷ us else u ∷ insert_text t us

-- The function `unique` of recommendationID: the distinct texts that are not empty, sorted.
unfoldable pub unique : List String → List String
unfolding insert_text
unique [] = []
unique (t ∷ ts) = let rest = unique ts in if text_eq t "" then rest else insert_text t rest

-- What recommendationID hashes.
pub record Identity : Type 0 where
  pub identity_player : String
  pub identity_action : ActionType
  pub identity_evidence : List String
  pub identity_matches : List String

module _ {ℓ} {W : Type ℓ} (digest : Identity → String) where
  unfoldable pub recommendation_id : EnforcementAction W → String
  recommendation_id a = digest (record {
    identity_player = a.action_player;
    identity_action = a.action_type;
    identity_evidence = unique a.evidence_ids;
    identity_matches = unique a.action_matches;
  })
