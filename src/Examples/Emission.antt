-- ===== src/Examples/Emission.antt =====
-- The theorems on emissions at a gated match, a faulted feed and a busy player.
use nevr_anticheat.Prelude.{
  ◌+◌, ◌≡◌, refl, String, true, false, none, some, List, [], ◌∷◌, ltb, take, arith, sort_stable,
  place_by,
}
use mathlib.Core.List.{Memᴰ}
use nevr_anticheat.Prelude.Int.{pos}
use nevr_anticheat.Prelude.Dict.{lookup, insert, count_at}
use nevr_anticheat.Prelude.Text.{contains_text, has_prefix, joined}
use nevr_anticheat.Prelude.Float.{Milli, milli_float, Milli-IsOrdered, lit}
use nevr_anticheat.Model.Event.{DetectionEvent, validate_event}
use nevr_anticheat.Model.Observation.{is_valid_source}
use nevr_anticheat.Model.Vector.{is_unit, quat_magnitude, quat_identity, is_zero_vec}
use nevr_anticheat.Scoring.Scorer.{new_scorer, get_or_create}
use nevr_anticheat.Pipeline.Dedup.{new_deduplicator}
use nevr_anticheat.Pipeline.RateLimit.{new_rate_limiter, filter, filter_from, limit_key}
use nevr_anticheat.Pipeline.Faults.{
  Sample, not_advancing, gap_limit, missing_source_context, has_fault, health_affects,
}
use nevr_anticheat.Pipeline.Health.{
  has_capability, observe_health, observe, insert_all, affected_of, is_affected, live_faults,
  counted, fresh_entry,
}
use nevr_anticheat.Pipeline.Health.Recovery.{after_samples, any_shows, live_lem}
use nevr_anticheat.Pipeline.Health.Watermark.{observe_all}
use nevr_anticheat.Pipeline.Emission.{
  Knowledge, Quality, accept_emissions, accept_loop, taken, adjusted, apply_evidence_safety,
  causal_start,
}
use nevr_anticheat.Pipeline.Emit.{Sink, new_report, emit, emit_each, emit_one, add_drops}
use nevr_anticheat.Pipeline.Run.{Moment, frame_ends, tracks_end, incidents_end, run}
use nevr_anticheat.Pipeline.Gated.{gated_silent}
use nevr_anticheat.Pipeline.Ledger.{accounted, emitted_in, accounted-run}
use nevr_anticheat.Pipeline.Quarantine.{emit_quarantined}
use nevr_anticheat.Pipeline.Weaken.{IsFrom, accept_emissions-IsFrom}
use nevr_anticheat.Examples.Samples.{sample_event, sample_config}
use nevr_anticheat.Examples.Frames.{frame}

abbrev sink : Sink Milli
sink = record {
  scorer = new_scorer sample_config;
  dedup = new_deduplicator (pos 5);
  rate_limiter = new_rate_limiter (pos 1);
  watchers =
      record { watcher_id = "PAT_004"; watcher_category = "pattern"; player_categories = some [] }
      ∷ [];
}

abbrev knowing : Quality Milli → Knowledge Milli
knowing q = record {
  detector_ids = "MOV_001" ∷ "BIO_001" ∷ [];
  shadow_ids = "BIO_001" ∷ [];
  quality = q;
  contexts = [];
  health = [];
}

abbrev emissions_now : List (List (DetectionEvent Milli))
emissions_now =
    (sample_event "e1" "MOV_001" 10 ∷ sample_event "" "MOV_001" 11 ∷ [])
    ∷ (sample_event "e3" "BIO_001" 10 ∷ [])
    ∷ []

abbrev match_of : Quality Milli → List (Moment Milli)
match_of q =
    record {
      clock = λ n. (pos 1, pos 1);
      known = knowing q;
      step = frame_ends emissions_now (pos 10);
    }
    ∷ record {
      clock = λ n. (pos 2, pos 2);
      known = knowing q;
      step = tracks_end emissions_now (pos 10);
    }
    ∷ record { clock = λ n. (pos 3, pos 3); known = knowing q; step = incidents_end }
    ∷ []

abbrev gated_quality : Quality Milli
gated_quality = record { gated = true; confidence_multiplier = some 250 }

abbrev good_quality : Quality Milli
good_quality = record { gated = false; confidence_multiplier = some 900 }

gated_silent_example :
    ((player : String)
      → get_or_create (run (sink, new_report) (match_of gated_quality)).0.scorer player
        ≡ get_or_create (new_scorer sample_config) player)
    × ((run (sink, new_report) (match_of gated_quality)).0.watchers ≡ sink.watchers)
unfolding new_deduplicator
gated_silent_example =
    gated_silent (sink, new_report) (match_of gated_quality) tt (refl, (refl, (refl, tt)))

accounted-run_example :
    accounted (run (sink, new_report) (match_of good_quality))
    ≡ accounted (sink, new_report) + emitted_in (match_of good_quality)
accounted-run_example = accounted-run (sink, new_report) (match_of good_quality)

abbrev faulted : Sample Milli
faulted = record {
  frame = frame;
  previous = none;
  was_rejected = false;
  sanitized = [];
  shared_jump = false;
}

live_lem_example :
    ltb 0 (
      (after_samples (some 250) ("MOV_001" ∷ []) (faulted ∷ faulted ∷ [])).faults
        missing_source_context)
    ≡ any_shows (some 250) missing_source_context (take 8 (faulted ∷ faulted ∷ []))
live_lem_example =
    live_lem (some 250) ("MOV_001" ∷ []) missing_source_context (faulted ∷ faulted ∷ [])

abbrev accused : DetectionEvent Milli
accused = sample_event "e1" "MOV_001" 3

accept_emissions-IsFrom_example :
    IsFrom Milli-IsOrdered (accused ∷ []) (adjusted (knowing good_quality) accused)
unfolding accept_emissions accept_loop taken validate_event sort_stable place_by
accept_emissions-IsFrom_example =
    accept_emissions-IsFrom Milli-IsOrdered (knowing good_quality) (accused ∷ [])
      (adjusted (knowing good_quality) accused) (Memᴰ.head refl)

abbrev wary : Knowledge Milli
wary = record (knowing good_quality) {
  health = observe_all (some 250) ("MOV_001" ∷ "BIO_001" ∷ []) [] (faulted ∷ []);
}

abbrev held : DetectionEvent Milli
held = apply_evidence_safety wary accused

emit_quarantined_example :
    (held.is_shadow ≡ true) × (held.enforcement_weight ≡ lit 0) × (held.auto_enforce ≡ false)
unfolding emit emit_each emit_one add_drops filter filter_from new_report new_rate_limiter
    apply_evidence_safety has_fault health_affects has_capability is_valid_source contains_text
    lookup observe_all observe_health insert observe insert_all affected_of is_affected live_faults
    counted is_unit quat_magnitude quat_identity fresh_entry is_zero_vec causal_start has_prefix
    limit_key joined count_at not_advancing gap_limit
emit_quarantined_example =
    emit_quarantined (some 250) ("MOV_001" ∷ "BIO_001" ∷ []) (faulted ∷ []) [] faulted
      missing_source_context wary (λ n. (pos 1, pos 1)) sink (accused ∷ []) held (Memᴰ.head refl)
      refl refl refl refl refl refl (Memᴰ.head refl) refl (omega arith)
