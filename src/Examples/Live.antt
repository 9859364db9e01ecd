-- ===== src/Examples/Live.antt =====
-- The theorems on live frames at a match of three ticks.
use nevr_anticheat.Prelude.{
  ℕ, ◌≡◌, refl, true, false, some, [], ◌∷◌, length, arith, sort_stable, place_by,
}
use mathlib.Core.List.{Memᴰ}
use nevr_anticheat.Prelude.Int.{pos, negsuc, ◌<ℤ◌}
use nevr_anticheat.Prelude.Dict.{lookup, insert}
use nevr_anticheat.Prelude.Text.{contains_text}
use nevr_anticheat.Prelude.Float.{Milli, milli_float, lit}
use nevr_anticheat.Enforce.Action.{insert_text}
use nevr_anticheat.Pipeline.Validator.{Telemetry}
use nevr_anticheat.Ingest.Live.{
  LiveMatch, Answers, not_stored, fresh_live_frames, fresh_loop, judge, malformed, find_seen,
  by_batch, in_order, out_of_order, last_of, add_verdict, last_after, seen_after, same_identity,
  frame_before,
}
use nevr_anticheat.Ingest.Batch.{
  handle_frames, admit, store_batch, on_stored, assemble, note_stored, note_one, split_closed_ticks,
  highest, split_at, process_locked,
}
use nevr_anticheat.Ingest.Batch.Account.{total, handle_frames-total}
use nevr_anticheat.Ingest.Batch.Ticks.{after_batches, handed_over, closed_for_good}
use nevr_anticheat.Examples.Frames.{frame}

abbrev sample : ℕ → Telemetry Milli
sample n = record frame { frame_index = pos n; timestamp = lit n }

abbrev fresh_match : LiveMatch Milli
fresh_match = record {
  player_ids = [];
  last_frame_index = negsuc 0;
  last_player_index = [];
  first_timestamp = lit 0;
  last_timestamp = lit 0;
  have_timestamp = false;
  pending = [];
  rows_stored = 0;
  analysis_incomplete = false;
}

abbrev answers : Answers Milli
answers = record {
  same = λ a b. some true;
  prior = λ fr. not_stored;
  inserted = λ frs. some (length frs);
  derived = λ frs. true;
}

handle_frames-total_example :
    total (handle_frames 8 answers fresh_match (sample 2 ∷ sample 1 ∷ sample 1 ∷ [])).result ≡ 3
handle_frames-total_example =
    handle_frames-total 8 answers fresh_match (sample 2 ∷ sample 1 ∷ sample 1 ∷ [])
      (λ frames n e. ground arith)

closed_for_good_example : pos 1 <ℤ pos 2
unfolding handle_frames fresh_live_frames fresh_loop judge malformed find_seen by_batch in_order
    out_of_order last_of add_verdict last_after seen_after same_identity frame_before admit
    store_batch on_stored assemble note_stored note_one split_closed_ticks highest split_at
    process_locked after_batches handed_over sort_stable place_by contains_text insert_text lookup
    insert
closed_for_good_example =
    closed_for_good 8 fresh_match ((answers, sample 1 ∷ []) ∷ []) answers (sample 2 ∷ [])
      ((answers, sample 3 ∷ []) ∷ []) (sample 1) (sample 2) refl (Memᴰ.head refl) (Memᴰ.head refl)
