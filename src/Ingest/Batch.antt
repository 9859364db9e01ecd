-- ===== src/Ingest/Batch.antt =====
-- internal/ingest/live_pipeline.go: a batch of live frames, from its arrival to the ticks that are closed
-- by it. What a call does to the log, the metrics, the teams and the raw payload is left out.
pub mod Account
pub mod Split
pub mod Ticks
use nevr_anticheat.Prelude.{
  ℕ, ◌+◌, ◌-◌, String, Bool, true, false, not, ◌&&◌, ◌||◌, leb, Option, none, some, List, [], ◌∷◌,
  ◌++◌, length, if◌then◌else◌,
}
use nevr_anticheat.Prelude.Int.{ℤ, ltb_ℤ}
use nevr_anticheat.Prelude.Dict.{lookup, insert}
use nevr_anticheat.Prelude.Text.{contains_text}
use nevr_anticheat.Prelude.Float.{Float}
use nevr_anticheat.Enforce.Action.{insert_text}
use nevr_anticheat.Pipeline.Validator.{Telemetry}
use nevr_anticheat.Ingest.Live.{LiveMatch, FrameResult, Answers, Fresh, fresh_live_frames}

-- `last, seen := lastPlayerIndex[id]; !seen || index > last`
abbrev pub is_later : ℤ → Option ℤ → Bool
is_later index none = true
is_later index (some last) = ltb_ℤ last index

-- A handled batch: the match, the counts, and the frames handed to the pipeline.
pub record Handled {ℓ} (W : Type ℓ) : Type ℓ where
  pub match_after : LiveMatch W
  pub result : FrameResult
  pub processed : List (Telemetry W)

module _ {ℓ} {W : Type ℓ} where
  -- The roster loop: the players, the frames that stay, and how many are rejected by the cap.
  unfoldable pub admit : ℕ → List String → List (Telemetry W) → List String × List (Telemetry W) × ℕ
  admit most players [] = (players, [], 0)
  admit most players (fr ∷ frs) =
      let known = contains_text fr.player_id players in
      let refused = not known && leb most (length players) in
      let players' = if known || refused then players else insert_text fr.player_id players in
      let (all, kept, n) = admit most players' frs in
      if refused then (all, kept, n + 1) else (all, fr ∷ kept, n)

  -- The highest index present, from a first one on.
  unfoldable pub highest : ℤ → List (Telemetry W) → ℤ
  highest top [] = top
  highest top (fr ∷ frs) = highest (if ltb_ℤ top fr.frame_index then fr.frame_index else top) frs

  unfoldable pub split_at : ℤ → List (Telemetry W) → List (Telemetry W) × List (Telemetry W)
  split_at top [] = ([], [])
  split_at top (fr ∷ frs) =
      let (ready, held) = split_at top frs in
      if ltb_ℤ fr.frame_index top then (fr ∷ ready, held) else (ready, fr ∷ held)

  -- splitClosedTicks
  unfoldable pub split_closed_ticks : List (Telemetry W) → List (Telemetry W) × List (Telemetry W)
  split_closed_ticks [] = ([], [])
  split_closed_ticks (fr ∷ frs) = split_at (highest fr.frame_index frs) (fr ∷ frs)

module _ {ℓ} {W : Type ℓ} ⦃f : Float W⦄ where
  -- The body of the loop of noteStored.
  unfoldable pub note_one : LiveMatch W → Telemetry W → LiveMatch W
  note_one m fr =
      let advanced = record m {
        last_frame_index =
            if ltb_ℤ m.last_frame_index fr.frame_index then fr.frame_index else m.last_frame_index;
        last_player_index =
            if is_later fr.frame_index (lookup fr.player_id m.last_player_index)
            then insert fr.player_id fr.frame_index m.last_player_index
            else m.last_player_index;
      } in
      if m.have_timestamp
      then record advanced {
        first_timestamp =
            if f.lt fr.timestamp m.first_timestamp then fr.timestamp else m.first_timestamp;
        last_timestamp =
            if f.lt m.last_timestamp fr.timestamp then fr.timestamp else m.last_timestamp;
      }
      else record advanced {
        first_timestamp = fr.timestamp;
        last_timestamp = fr.timestamp;
        have_timestamp = true;
      }

  -- noteStored
  unfoldable pub note_stored : LiveMatch W → List (Telemetry W) → LiveMatch W
  note_stored m [] = m
  note_stored m (fr ∷ frs) = note_stored (note_one m fr) frs

  -- processLocked: a suspended match processes nothing, and a failure to record suspends it.
  unfoldable pub process_locked :
      Answers W → LiveMatch W → List (Telemetry W) → LiveMatch W × List (Telemetry W)
  process_locked db m [] = (m, [])
  process_locked db m (fr ∷ frs) =
      if m.analysis_incomplete
      then (m, [])
      else (record m { analysis_incomplete = not (db.derived (fr ∷ frs)) }, fr ∷ frs)

  -- Tick assembly: the frames join those pending, and the closed ticks are processed.
  unfoldable pub assemble : Answers W → LiveMatch W → FrameResult → List (Telemetry W) → Handled W
  assemble db m res frames =
      let (ready, held) = split_closed_ticks (m.pending ++ frames) in
      let (m', done) = process_locked db (record m { pending = held }) ready in
      record { match_after = m'; result = res; processed = done }

  -- By the answer of StoreTelemetryFramesWithRaw.
  unfoldable pub on_stored :
      Answers W → LiveMatch W → FrameResult → List (Telemetry W) → Option ℕ → Handled W
  on_stored db m res frames none = record {
    match_after = m;
    result = record res { rejected = res.rejected + length frames };
    processed = [];
  }
  on_stored db m res frames (some n) =
      assemble db (note_stored (record m { rows_stored = m.rows_stored + n }) frames)
        (record res { accepted = res.accepted + n; ignored = res.ignored + (length frames - n) })
        frames

  -- `if len(frames) == 0 { return res }`, or the store is asked.
  unfoldable pub store_batch :
      Answers W → LiveMatch W → FrameResult → List (Telemetry W) → Handled W
  store_batch db m res [] = record { match_after = m; result = res; processed = [] }
  store_batch db m res (fr ∷ frs) = on_stored db m res (fr ∷ frs) (db.inserted (fr ∷ frs))

  -- HandleFramesWithRaw of a match that is there, under its cap on players. For no frames left it
  -- changes nothing more.
  unfoldable pub handle_frames : ℕ → Answers W → LiveMatch W → List (Telemetry W) → Handled W
  handle_frames most db m input =
      let fresh = fresh_live_frames db m input in
      let m' = record m { analysis_incomplete = m.analysis_incomplete || fresh.suspended } in
      let (players, frames, refused) = admit most m.player_ids fresh.frames in
      let res = record fresh.counts { rejected = fresh.counts.rejected + refused } in
      store_batch db (record m' { player_ids = players }) res frames
