-- ===== src/Review/Cases.antt =====
-- internal/review/queue.go: which players of a match get a review case, and the stores of the cases.
-- A case is here what the evidence builder is given: the player, the score and the events.
pub mod Laws
use nevr_anticheat.Prelude.{
  ◌≡◌, ◌≢◌, refl, sym, ap, ◌∙◌, String, Bool, true, false, Option, none, some, List, [], ◌∷◌, ◌++◌,
  inl, inr, arith, Bool-cases, Option-cases, if◌then◌else◌,
}
use mathlib.Core.List.{Memᴰ}
use mathlib.Core.Path.{subst}
use text.Mathlib.TextEquality.{eq_iff}
use nevr_anticheat.Prelude.Dict.{text_eq, text_eq_sound, lookup, insert, lookup-insert}
use nevr_anticheat.Prelude.Float.{Float}
use nevr_anticheat.Model.Level.{
  LevelTable, ScoringLevel, level_for, at_least, is_zero, default_table,
}
use nevr_anticheat.Model.Event.{DetectionEvent}
use nevr_anticheat.Model.Score.{SuspicionScore}
use nevr_anticheat.Enforce.Action.{insert_text}
use nevr_anticheat.Enforce.Evidence.{player_events}

pub record MatchResult {ℓ} (W : Type ℓ) : Type ℓ where
  pub detection_events : List (DetectionEvent W)
  pub player_scores : List (String × SuspicionScore W)

pub record Candidate {ℓ} (W : Type ℓ) : Type ℓ where
  pub candidate_player : String
  pub candidate_score : SuspicionScore W
  pub candidate_events : List (DetectionEvent W)

-- The keys of a map, sorted.
unfoldable pub sorted_keys {ℓ} : {V : Type ℓ} → List (String × V) → List String
sorted_keys [] = []
sorted_keys ((k, v) ∷ rest) = insert_text k (sorted_keys rest)

module _ {ℓ} {W : Type ℓ} where
  abbrev pub or_empty : Option (List (DetectionEvent W)) → List (DetectionEvent W)
  or_empty none = []
  or_empty (some es) = es

  -- `byPlayer[pid]`
  unfoldable pub events_of :
      String → List (String × List (DetectionEvent W)) → List (DetectionEvent W)
  events_of player groups = or_empty (lookup player groups)

  -- The loop that fills byPlayer.
  unfoldable pub group :
      List (String × List (DetectionEvent W))
      → List (DetectionEvent W)
      → List (String × List (DetectionEvent W))
  group groups [] = groups
  group groups (e ∷ es) =
      let groups' = insert e.player_id (events_of e.player_id groups ++ e ∷ []) groups in
      group (if e.is_shadow then groups else groups') es

module _ {ℓ} {W : Type ℓ} ⦃f : Float W⦄ where
  -- The body of the loop over the players: the case, if there is one.
  unfoldable pub candidate_of :
      LevelTable W
      → ScoringLevel
      → String
      → List (DetectionEvent W)
      → Option (SuspicionScore W)
      → List (Candidate W)
  candidate_of table min player [] o = []
  candidate_of table min player (e ∷ es) none = []
  candidate_of table min player (e ∷ es) (some score) =
      if at_least (level_for table score.total_score) min
      then record { candidate_player = player; candidate_score = score; candidate_events = e ∷ es }
        ∷ []
      else []

  unfoldable pub candidates :
      LevelTable W
      → ScoringLevel
      → MatchResult W
      → List (String × List (DetectionEvent W))
      → List String
      → List (Candidate W)
  candidates table min result groups [] = []
  candidates table min result groups (player ∷ players) =
      candidate_of table min player (events_of player groups) (lookup player result.player_scores)
      ++ candidates table min result groups players

  -- BuildCasesFromResult of a result that is not nil.
  unfoldable pub build_cases : LevelTable W → ScoringLevel → MatchResult W → List (Candidate W)
  build_cases table min result =
      candidates (if is_zero table then default_table else table) min result
        (group [] result.detection_events) (sorted_keys result.player_scores)

module _ {ℓ} {W : Type ℓ} where
  -- The loop of CreateCasesFromResult: the cases that the store took.
  unfoldable pub create_cases : (Candidate W → Bool) → List (Candidate W) → List (Candidate W)
  create_cases stored [] = []
  create_cases stored (c ∷ cs) =
      let rest = create_cases stored cs in if stored c then c ∷ rest else rest
