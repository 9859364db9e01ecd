-- ===== src/Pipeline/Ledger.antt =====
-- internal/pipeline: every emission of a match is accounted for in its result.
mod Counts
use nevr_anticheat.Prelude.{
  ℕ, suc, ◌+◌, ◌-◌, ◌≤◌, ◌≡◌, refl, ◌∙◌, ap, String, Bool, true, false, Option, none, some, List,
  [], ◌∷◌, ◌++◌, map, inl, inr, arith, Bool-cases, if◌then◌else◌, length, length-append,
  sort_stable, length-sort_stable, in_if,
}
use nevr_anticheat.Prelude.Int.{ℤ, ltb_ℤ, ◌+ℤ◌, pos}
use nevr_anticheat.Prelude.Dict.{text_eq, lookup, insert, count_at, count_or_zero}
use nevr_anticheat.Prelude.Float.{Float}
use nevr_anticheat.Model.Event.{DetectionEvent, EventError, validate_event}
use nevr_anticheat.Pipeline.Dedup.{
  Deduplicator, deduplicate, flush, fold_all, fold_emission, fold_into, close_stale, sort_incidents,
  place, is_before, at_least_one, merge_into, belongs, causal_key_text,
}
use nevr_anticheat.Pipeline.RateLimit.{
  RateLimiter, filter, filter_from, filter_one, at_cap, increment, limit_key,
}
use nevr_anticheat.Pipeline.Emission.{
  Knowledge, apply_evidence_safety, adjusted, accept_loop, taken, accept_emissions, emitted_before,
}
use nevr_anticheat.Pipeline.Emit.{
  Sink, Report, emit, emit_each, emit_one, dedup_and_emit, take_in, accept_all, add_drops,
  flush_and_emit, flush_tracks, unless_empty,
}
use nevr_anticheat.Pipeline.Run.{
  Step, frame_ends, tracks_end, incidents_end, Moment, take_step, run,
}
use nevr_anticheat.Pipeline.Ledger.Counts.{
  sum_counts, length-filter_from, length-sort_incidents, length-values, in_dedup,
  length-deduplicate,
}

module _ {ℓ} {W : Type ℓ} ⦃f : Float W⦄ where
  -- Everything that a sink and a report hold of what was emitted.
  unfoldable pub accounted : Sink W × Report W → ℕ
  accounted s =
      s.1.events_invalid
      + (s.1.events_merged
          + (s.1.events_rate_limited + (length s.1.retained + length s.0.dedup.open_incidents)))

  length-emit_each :
      (clock : ℕ → ℤ × ℤ) (k : Knowledge W) (evs : List (DetectionEvent W)) (s : Sink W × Report W)
      → accounted (emit_each clock k s evs) ≡ accounted s + length evs
  unfolding emit_each emit_one accounted
  length-emit_each clock k [] s = omega arith
  length-emit_each clock k (ev ∷ evs) s = omega (
    arith,
    length-emit_each clock k evs (emit_one clock k s ev),
    length-append s.1.retained (apply_evidence_safety k ev ∷ []),
  )

  accounted-add_drops :
      (p : Sink W) (r : Report W) (drops : List (String × ℕ))
      → accounted (p, add_drops r drops) ≡ accounted (p, r) + sum_counts drops
  unfolding add_drops accounted
  accounted-add_drops p r [] = omega arith
  accounted-add_drops p r ((key, n) ∷ drops) = omega (
    arith,
    accounted-add_drops p
        (record r {
          events_rate_limited = r.events_rate_limited + n;
          rate_limited_by_key =
              insert key (count_at key r.rate_limited_by_key + n) r.rate_limited_by_key;
        })
        drops,
  )

  accounted-emit :
      (clock : ℕ → ℤ × ℤ) (k : Knowledge W) (p : Sink W) (r : Report W)
      (evs : List (DetectionEvent W))
      → accounted (emit clock k (p, r) evs) ≡ accounted (p, r) + length evs
  unfolding emit filter
  accounted-emit clock k p r evs =
      let filtered = filter_from p.rate_limiter [] evs in
      let p' = record p { rate_limiter = filtered.limiter } in
      let same : accounted (p', r) ≡ accounted (p, r) = unfold accounted in refl in
      omega (
        arith,
        length-emit_each clock k filtered.kept (p', add_drops r filtered.dropped_now),
        accounted-add_drops p' r filtered.dropped_now,
        same,
        length-filter_from p.rate_limiter [] evs,
      )

  accounted-dedup_and_emit :
      (clock : ℕ → ℤ × ℤ) (k : Knowledge W) (p : Sink W) (r : Report W)
      (evs : List (DetectionEvent W)) (frame : ℤ)
      → accounted (dedup_and_emit clock k (p, r) evs frame) ≡ accounted (p, r) + length evs
  unfolding dedup_and_emit
  accounted-dedup_and_emit clock k p r evs frame =
      let folded = length-deduplicate p.dedup evs frame in
      let (dedup', closed) = deduplicate p.dedup evs frame in
      let p' = record p { dedup = dedup' } in
      let r' = record r { events_merged = r.events_merged + (dedup'.merged - p.dedup.merged) } in
      let before : accounted (p', r') + length closed ≡ accounted (p, r) + length evs =
        unfold accounted in omega (arith, folded.0, folded.1) in
      accounted-emit clock k p' r' closed ∙ before

  length-accept_loop :
      (k : Knowledge W) (evs : List (DetectionEvent W))
      → length (accept_loop k evs).0 + (accept_loop k evs).1 ≡ length evs
  unfolding accept_loop
  length-accept_loop k [] = refl
  length-accept_loop k (ev ∷ evs) =
      one (validate_event ev) (accept_loop k evs) ∙ ap suc (length-accept_loop k evs)
    where
      one :
          (o : Option EventError) (rest : List (DetectionEvent W) × ℕ)
          → length (taken o (adjusted k ev) rest).0 + (taken o (adjusted k ev) rest).1
            ≡ suc (length rest.0 + rest.1)
      one none rest = unfold taken in omega arith
      one (some e) rest = unfold taken in omega arith

  abbrev pub total_length : List (List (DetectionEvent W)) → ℕ
  total_length [] = 0
  total_length (evs ∷ rest) = length evs + total_length rest

  length-accept_all :
      (k : Knowledge W) (raws : List (List (DetectionEvent W)))
      → length (accept_all k raws).0 + (accept_all k raws).1 ≡ total_length raws
  unfolding accept_all accept_emissions
  length-accept_all k [] = refl
  length-accept_all k (evs ∷ raws) = omega (
    arith,
    length-accept_loop k (sort_stable emitted_before evs),
    length-sort_stable emitted_before evs,
    length-accept_all k raws,
    length-append (accept_loop k (sort_stable emitted_before evs)).0 (accept_all k raws).0,
  )

  -- How many emissions a step takes in; track judgements count from the first frame on.
  abbrev pub emitted_by : Step W → ℕ
  emitted_by (frame_ends raws frame) = total_length raws
  emitted_by (tracks_end raws last) = if ltb_ℤ last (pos 0) then 0 else total_length raws
  emitted_by incidents_end = 0

  abbrev pub emitted_in : List (Moment W) → ℕ
  emitted_in [] = 0
  emitted_in (m ∷ ms) = emitted_by m.step + emitted_in ms

  accounted-invalid :
      (p : Sink W) (r : Report W) (n : ℕ)
      → accounted (p, record r { events_invalid = r.events_invalid + n }) ≡ accounted (p, r) + n
  unfolding accounted
  accounted-invalid p r n = omega arith

  accounted-unless_empty :
      (clock : ℕ → ℤ × ℤ) (k : Knowledge W) (p : Sink W) (r : Report W)
      (evs : List (DetectionEvent W)) (last : ℤ)
      → accounted (unless_empty clock k (p, r) evs last) ≡ accounted (p, r) + length evs
  unfolding unless_empty
  accounted-unless_empty clock k p r [] last = omega arith
  accounted-unless_empty clock k p r (ev ∷ evs) last =
      accounted-dedup_and_emit clock k p r (ev ∷ evs) last

  accounted-take_step :
      (clock : ℕ → ℤ × ℤ) (k : Knowledge W) (p : Sink W) (r : Report W) (step : Step W)
      → accounted (take_step clock k (p, r) step) ≡ accounted (p, r) + emitted_by step
  unfolding take_step take_in flush_tracks flush_and_emit flush
  accounted-take_step clock k p r (frame_ends raws frame) =
      let (kept, invalid) = accept_all k raws in
      let r' = record r { events_invalid = r.events_invalid + invalid } in
      omega (
        arith,
        accounted-dedup_and_emit clock k p r' kept frame,
        accounted-invalid p r invalid,
        length-accept_all k raws,
      )
  accounted-take_step clock k p r (tracks_end raws last) =
      let (kept, invalid) = accept_all k raws in
      let r' = record r { events_invalid = r.events_invalid + invalid } in
      elim (Bool-cases (ltb_ℤ last (pos 0))) [
        | inl e ↦ rw e (omega arith)
        | inr e ↦ rw e (
            omega (
              arith,
              accounted-unless_empty clock k p r' kept last,
              accounted-invalid p r invalid,
              length-accept_all k raws,
            ))
      ]
  accounted-take_step clock k p r incidents_end =
      let closed = sort_incidents (map (λ q. q.1) p.dedup.open_incidents) in
      let p' = record p { dedup = record p.dedup { open_incidents = [] } } in
      let count = length-sort_incidents _ ∙ length-values p.dedup.open_incidents in
      let before : accounted (p', r) + length closed ≡ accounted (p, r) =
        unfold accounted in omega (arith, count) in
      accounted-emit clock k p' r closed ∙ before ∙ omega arith

  -- Over any sequence of frame ends, track judgements and flushes, every emission that a detector
  -- returned is counted exactly once: as invalid, as merged, as rate limited, as retained, or it is
  -- an incident that is still open; and what was counted before stays counted.
  pub accounted-run :
      (s : Sink W × Report W) (ms : List (Moment W))
      → accounted (run s ms) ≡ accounted s + emitted_in ms
  unfolding run
  accounted-run s [] = omega arith
  accounted-run s (m ∷ ms) = omega (
    arith,
    accounted-run (take_step m.clock m.known s m.step) ms,
    accounted-take_step m.clock m.known s.0 s.1 m.step,
  )
