-- ===== src/Pipeline/Emit.antt =====
-- internal/pipeline/pipeline.go: from the emissions of a frame to the retained and scored incidents.
-- The log is left out; the clock is read once for each retained event, by its place in the result.
use nevr_anticheat.Prelude.{
  ℕ, ◌+◌, ◌-◌, String, Bool, not, ◌&&◌, ◌||◌, Option, none, some, List, [], ◌∷◌, ◌++◌, length,
  if◌then◌else◌,
}
use nevr_anticheat.Prelude.Int.{ℤ, ltb_ℤ, pos}
use nevr_anticheat.Prelude.Dict.{text_eq, lookup, insert, count_at}
use nevr_anticheat.Prelude.Float.{Float}
use nevr_anticheat.Model.Event.{DetectionEvent}
use nevr_anticheat.Scoring.Scorer.{Scorer}
use nevr_anticheat.Scoring.Ingest.{ingest}
use nevr_anticheat.Scoring.Bonus.{add_text}
use nevr_anticheat.Pipeline.Dedup.{Deduplicator, deduplicate, flush}
use nevr_anticheat.Pipeline.RateLimit.{RateLimiter, filter}
use nevr_anticheat.Pipeline.Emission.{Knowledge, apply_evidence_safety, accept_emissions}

-- A detector as emit sees it. The categories of the players are there if it is a *pattern.Pat004.
pub record Watcher : Type 0 where
  pub watcher_id : String
  pub watcher_category : String
  pub player_categories : Option (List (String × List String))

-- The part of a pipeline that changes while incidents are emitted.
pub record Sink {ℓ} (W : Type ℓ) : Type ℓ where
  pub scorer : Scorer W
  pub dedup : Deduplicator W
  pub rate_limiter : RateLimiter
  pub watchers : List Watcher

-- The part of a MatchResult that the emission of incidents fills.
pub record Report {ℓ} (W : Type ℓ) : Type ℓ where
  pub retained : List (DetectionEvent W)
  pub events_merged : ℕ
  pub events_rate_limited : ℕ
  pub rate_limited_by_key : List (String × ℕ)
  pub events_invalid : ℕ

unfoldable pub new_report {ℓ} : {W : Type ℓ} → Report W
new_report = record {
  retained = [];
  events_merged = 0;
  events_rate_limited = 0;
  rate_limited_by_key = [];
  events_invalid = 0;
}

-- detectorCategory: the category that the detector reports, or its id.
unfoldable pub watcher_category_of : List Watcher → String → String
watcher_category_of [] id = id
watcher_category_of (w ∷ ws) id =
    if text_eq w.watcher_id id then w.watcher_category else watcher_category_of ws id

abbrev or_no_texts : Option (List String) → List String
or_no_texts none = []
or_no_texts (some ts) = ts

abbrev recorded :
    String → String → Option (List (String × List String)) → Option (List (String × List String))
recorded player category none = none
recorded player category (some m) =
    some (insert player (add_text category (or_no_texts (lookup player m))) m)

-- RecordDetection, of every detector that is a Pat004.
unfoldable pub record_detection : String → String → List Watcher → List Watcher
record_detection player category [] = []
record_detection player category (w ∷ ws) =
    record w { player_categories = recorded player category w.player_categories }
    ∷ record_detection player category ws

-- The loop over the drops of a filter call.
unfoldable pub add_drops {ℓ} : {W : Type ℓ} → Report W → List (String × ℕ) → Report W
add_drops r [] = r
add_drops r ((key, n) ∷ drops) =
    add_drops
      (record r {
        events_rate_limited = r.events_rate_limited + n;
        rate_limited_by_key =
            insert key (count_at key r.rate_limited_by_key + n) r.rate_limited_by_key;
      })
      drops

module _ {ℓ} {W : Type ℓ} ⦃f : Float W⦄ where
  -- The events that the composite detector is told of: confidence of 0.7 at least, not its own.
  unfoldable pub feeds_composite : DetectionEvent W → Bool
  feeds_composite ev = f.le (f.ratio 7 10) ev.confidence && not (text_eq ev.detector_id "PAT_004")

  unfoldable pub feed : Bool → DetectionEvent W → List Watcher → List Watcher
  feed scored ev ws =
      if ev.is_shadow || not scored
      then ws
      else if feeds_composite ev
      then record_detection ev.player_id (watcher_category_of ws ev.detector_id) ws
      else ws

  -- One retained event of emit.
  unfoldable pub emit_one :
      (ℕ → ℤ × ℤ) → Knowledge W → Sink W × Report W → DetectionEvent W → Sink W × Report W
  emit_one clock k (p, r) raw =
      let ev = apply_evidence_safety k raw in
      let (now, snapshot) = clock (length r.retained) in
      let (scorer', total, scored) = ingest now snapshot p.scorer ev in
      (
        record p { scorer = scorer'; watchers = feed scored ev p.watchers },
        record r { retained = r.retained ++ ev ∷ [] },
      )

  unfoldable pub emit_each :
      (ℕ → ℤ × ℤ) → Knowledge W → Sink W × Report W → List (DetectionEvent W) → Sink W × Report W
  emit_each clock k s [] = s
  emit_each clock k s (ev ∷ evs) = emit_each clock k (emit_one clock k s ev) evs

  -- emit; for no events the filter keeps and drops nothing.
  unfoldable pub emit :
      (ℕ → ℤ × ℤ) → Knowledge W → Sink W × Report W → List (DetectionEvent W) → Sink W × Report W
  emit clock k (p, r) evs =
      let filtered = filter p.rate_limiter evs in
      emit_each clock k
        (record p { rate_limiter = filtered.limiter }, add_drops r filtered.dropped_now)
        filtered.kept

  -- dedupAndEmit
  unfoldable pub dedup_and_emit :
      (ℕ → ℤ × ℤ)
      → Knowledge W
      → Sink W × Report W
      → List (DetectionEvent W)
      → ℤ
      → Sink W × Report W
  dedup_and_emit clock k (p, r) evs frame =
      let (dedup', closed) = deduplicate p.dedup evs frame in
      emit clock k
        (
          record p { dedup = dedup' },
          record r { events_merged = r.events_merged + (dedup'.merged - p.dedup.merged) },
        )
        closed

  -- The emissions of the detectors at one frame, one list for each call, taken in one after another.
  unfoldable pub accept_all :
      Knowledge W → List (List (DetectionEvent W)) → List (DetectionEvent W) × ℕ
  accept_all k [] = ([], 0)
  accept_all k (evs ∷ rest) =
      let (kept, invalid) = accept_emissions k evs in
      let (more, others) = accept_all k rest in (kept ++ more, invalid + others)

  -- The end of a frame of ProcessMatch: what its detectors emitted is accepted, merged and emitted.
  unfoldable pub take_in :
      (ℕ → ℤ × ℤ)
      → Knowledge W
      → Sink W × Report W
      → List (List (DetectionEvent W))
      → ℤ
      → Sink W × Report W
  take_in clock k (p, r) raws frame =
      let (kept, invalid) = accept_all k raws in
      dedup_and_emit clock k (p, record r { events_invalid = r.events_invalid + invalid }) kept
        frame

  -- `p.emit(p.dedup.Flush(), result)`
  unfoldable pub flush_and_emit : (ℕ → ℤ × ℤ) → Knowledge W → Sink W × Report W → Sink W × Report W
  flush_and_emit clock k (p, r) =
      let (dedup', closed) = flush p.dedup in emit clock k (record p { dedup = dedup' }, r) closed

  -- `if len(events) == 0 { return }`
  unfoldable pub unless_empty :
      (ℕ → ℤ × ℤ)
      → Knowledge W
      → Sink W × Report W
      → List (DetectionEvent W)
      → ℤ
      → Sink W × Report W
  unless_empty clock k s [] last = s
  unless_empty clock k s (ev ∷ evs) last = dedup_and_emit clock k s (ev ∷ evs) last

  -- flushTracks: the emissions of the track flushers, as of the last frame with a valid sample.
  unfoldable pub flush_tracks :
      (ℕ → ℤ × ℤ)
      → Knowledge W
      → Sink W × Report W
      → List (List (DetectionEvent W))
      → ℤ
      → Sink W × Report W
  flush_tracks clock k (p, r) raws last =
      let (kept, invalid) = accept_all k raws in
      let r' = record r { events_invalid = r.events_invalid + invalid } in
      if ltb_ℤ last (pos 0) then (p, r) else unless_empty clock k (p, r') kept last
