-- ===== src/Scoring/Ingest.antt =====
-- internal/scoring/scorer.go: how an event changes its player's score.
use nevr_anticheat.Prelude.{
  ℕ, ◌+◌, String, Bool, true, false, not, ◌&&◌, ◌||◌, Option, none, some, List, ◌∷◌, ltb,
  if◌then◌else◌,
}
use nevr_anticheat.Prelude.Int.{ℤ, ltb_ℤ}
use nevr_anticheat.Prelude.Dict.{text_eq, lookup, insert, count_at}
use nevr_anticheat.Prelude.Text.{contains_text}
use nevr_anticheat.Prelude.Float.{Float, lit}
use nevr_anticheat.Model.Event.{DetectionEvent}
use nevr_anticheat.Model.Score.{SuspicionScore}
use nevr_anticheat.Scoring.Category.{detector_category, is_meta_detector}
use nevr_anticheat.Scoring.Scorer.{
  ScorerConfig, Scorer, is_zero_time, event_time, recompute, get_or_create, put_player,
}
use nevr_anticheat.Scoring.Gates.{ids_of, is_cooling, is_seen, is_capped}

module _ {ℓ} {W : Type ℓ} ⦃f : Float W⦄ where
  -- The contribution before the diminishing of repeated categories.
  unfoldable pub contribution : ScorerConfig W → DetectionEvent W → W
  contribution c e =
      let raw = f.mul (f.mul (f.mul e.severity e.confidence) e.enforcement_weight) (lit 100) in
      let nonneg = if f.lt raw (lit 0) || f.is_nan raw then lit 0 else raw in
      if f.lt (lit 0) c.max_single_contribution && f.lt c.max_single_contribution nonneg
      then c.max_single_contribution
      else nonneg

  unfoldable pub diminish : ScorerConfig W → ℕ → W → W
  diminish c count x =
      if ltb 0 count && f.lt (lit 0) c.same_category_diminishing
      then f.mul x (f.pow c.same_category_diminishing (lit count))
      else x

  -- `m[k] += x`, where a missing key reads as 0.
  abbrev float_at : Option W → W
  float_at none = lit 0
  float_at (some x) = x

  unfoldable pub add_at : String → W → List (String × W) → List (String × W)
  add_at k x m = insert k (f.add (float_at (lookup k m)) x) m

unfoldable pub bump_at : String → List (String × ℕ) → List (String × ℕ)
bump_at k m = insert k (count_at k m + 1) m

unfoldable pub mark_seen :
    String → String → List (String × List String) → List (String × List String)
mark_seen player id seen =
    if text_eq id "" then seen else insert player (id ∷ ids_of (lookup player seen)) seen

-- What becomes of an event: nothing, its frame is noted for the cooldown, or it is scored.
pub data Outcome : Type 0 where
  refused framed scored : Outcome

module _ {ℓ} {W : Type ℓ} ⦃f : Float W⦄ where
  -- Everything that an accepted event changes in its player's record, before recompute.
  unfoldable pub accumulate : ℤ → SuspicionScore W → DetectionEvent W → W → SuspicionScore W
  accumulate at sc e x =
      let category = detector_category e.detector_id in
      let new_match = not (text_eq e.match_id "") && not (contains_text e.match_id sc.match_ids) in
      let highest = f.lt sc.highest_single_event x in
      record sc {
        base_score = f.add sc.base_score x;
        score_by_detector = add_at e.detector_id x sc.score_by_detector;
        score_by_category = add_at category x sc.score_by_category;
        detector_counts = bump_at e.detector_id sc.detector_counts;
        category_counts = bump_at category sc.category_counts;
        event_count = sc.event_count + 1;
        match_ids = if new_match then e.match_id ∷ sc.match_ids else sc.match_ids;
        match_count = if new_match then sc.match_count + 1 else sc.match_count;
        first_event_time =
            if is_zero_time sc.first_event_time || ltb_ℤ at sc.first_event_time
            then at
            else sc.first_event_time;
        last_event_time = if ltb_ℤ sc.last_event_time at then at else sc.last_event_time;
        highest_single_event = if highest then x else sc.highest_single_event;
        highest_single_detector = if highest then e.detector_id else sc.highest_single_detector;
      }

  unfoldable pub accept :
      ℤ
      → ℤ
      → Scorer W
      → SuspicionScore W
      → DetectionEvent W
      → W
      → Scorer W × SuspicionScore W × Bool
  accept now snapshot s sc e x =
      let count = count_at (detector_category e.detector_id) sc.category_counts in
      let grown = accumulate (event_time s now e) sc e (diminish s.config count x) in
      let done = record (recompute s grown) { snapshot_time = snapshot } in
      let s' = record s { seen_events = mark_seen e.player_id e.event_id s.seen_events } in
      (put_player s' e.player_id done, done, true)

  -- The early returns of IngestEventWithResult, in order.
  unfoldable pub outcome_of : Scorer W → SuspicionScore W → DetectionEvent W → Outcome
  outcome_of s sc e =
      if e.is_shadow || is_meta_detector e.detector_id
      then refused
      else if is_seen s e
      then refused
      else if is_cooling s sc e
      then refused
      else if is_capped s sc e
      then refused
      else if f.eq (contribution s.config e) (lit 0)
      then framed
      else scored

  unfoldable pub mark_frame : SuspicionScore W → DetectionEvent W → SuspicionScore W
  mark_frame sc e = record sc {
    last_event_frames = insert e.detector_id e.frame_index sc.last_event_frames;
  }

  unfoldable pub conclude :
      Outcome
      → ℤ
      → ℤ
      → Scorer W
      → SuspicionScore W
      → DetectionEvent W
      → Scorer W × SuspicionScore W × Bool
  conclude refused now snapshot s sc e = (put_player s e.player_id sc, sc, false)
  conclude framed now snapshot s sc e =
      (put_player s e.player_id (mark_frame sc e), mark_frame sc e, false)
  conclude scored now snapshot s sc e =
      accept now snapshot s (mark_frame sc e) e (contribution s.config e)

  -- IngestEventWithResult: the scorer, the player's score, and whether the event was scored. The
  -- clock is read for the event's time and for the snapshot.
  unfoldable pub ingest : ℤ → ℤ → Scorer W → DetectionEvent W → Scorer W × SuspicionScore W × Bool
  ingest now snapshot s e =
      let sc = get_or_create s e.player_id in conclude (outcome_of s sc e) now snapshot s sc e
