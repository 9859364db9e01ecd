-- ===== src/Enforce/Evidence.antt =====
-- internal/enforce/engine.go: the evidence that an evaluation counts.
use nevr_anticheat.Prelude.{
  String, Bool, true, false, not, ◌&&◌, List, [], ◌∷◌, length, if◌then◌else◌,
}
use nevr_anticheat.Prelude.Dict.{text_eq}
use nevr_anticheat.Prelude.Text.{codes, to_upper, has_prefix}
use nevr_anticheat.Prelude.Float.{Float, lit}
use nevr_anticheat.Model.Event.{DetectionEvent}
use nevr_anticheat.Model.Score.{SuspicionScore}
use nevr_anticheat.Scoring.Category.{is_meta_detector}
use nevr_anticheat.Enforce.Action.{insert_text, unique}

-- detectorCategory of this package goes by the prefix of the whole identifier.
unfoldable pub prefix_category : String → String
prefix_category id =
    let upper = to_upper (codes id) in
    if has_prefix upper (codes "THROW")
    then "throw"
    else if has_prefix upper (codes "BIO")
    then "bio"
    else if has_prefix upper (codes "MOV")
    then "movement"
    else if has_prefix upper (codes "STATE")
    then "state"
    else if has_prefix upper (codes "PAT")
    then "pattern"
    else "unknown"

module _ {ℓ} {W : Type ℓ} where
  -- The events of the player that are not shadow.
  unfoldable pub player_events : String → List (DetectionEvent W) → List (DetectionEvent W)
  player_events player [] = []
  player_events player (e ∷ es) =
      let rest = player_events player es in
      if text_eq e.player_id player && not e.is_shadow then e ∷ rest else rest

  -- The categories of the events whose detector is not a meta-detector.
  unfoldable pub categories : List (DetectionEvent W) → List String
  categories [] = []
  categories (e ∷ es) =
      let rest = categories es in
      if is_meta_detector e.detector_id
      then rest
      else insert_text (prefix_category e.detector_id) rest

  -- eventIDs
  unfoldable pub event_ids : List (DetectionEvent W) → List String
  event_ids [] = []
  event_ids (e ∷ es) =
      let rest = event_ids es in if text_eq e.event_id "" then rest else e.event_id ∷ rest

  -- matchIDsFor: the distinct ids that are not empty, sorted.
  unfoldable pub match_ids_for : String → SuspicionScore W → List String
  match_ids_for match score = unique (match ∷ score.match_ids)

module _ {ℓ} {W : Type ℓ} ⦃f : Float W⦄ where
  -- totalConf, summed in the order of the events.
  unfoldable pub total_confidence : W → List (DetectionEvent W) → W
  total_confidence acc [] = acc
  total_confidence acc (e ∷ es) = total_confidence (f.add acc e.confidence) es

  unfoldable pub average_confidence : List (DetectionEvent W) → W
  average_confidence es = f.div (total_confidence (lit 0) es) (lit (length es))

  -- Hard evidence: AutoEnforce, and a confidence above 0.95.
  unfoldable pub is_hard : DetectionEvent W → Bool
  is_hard e = e.auto_enforce && f.lt (f.ratio 95 100) e.confidence

  unfoldable pub has_hard : List (DetectionEvent W) → Bool
  has_hard [] = false
  has_hard (e ∷ es) = if is_hard e then true else has_hard es
