-- ===== src/Pipeline/Gated.antt =====
-- internal/pipeline: input whose quality is gated raises no score, from the emissions of the detectors
-- to the scorer.
use nevr_anticheat.Prelude.{
  ℕ, ◌≡◌, refl, ◌∙◌, sym, subst, String, true, Option, none, some, List, [], ◌∷◌, inl, arith,
  length, in_if,
}
use nevr_anticheat.Prelude.Int.{ℤ, ltb_ℤ, pos}
use nevr_anticheat.Prelude.Dict.{AllValues}
use nevr_anticheat.Prelude.Float.{Float}
use nevr_anticheat.Model.Event.{DetectionEvent, EventError, validate_event}
use nevr_anticheat.Scoring.Scorer.{get_or_create}
use nevr_anticheat.Scoring.Silent.{shadow_silent}
use nevr_anticheat.Pipeline.Dedup.{at_least_one, merge_into, flush}
use nevr_anticheat.Pipeline.RateLimit.{filter}
use nevr_anticheat.Pipeline.Through.{All, All-append, deduplicate-All, flush-All, filter-All}
use nevr_anticheat.Pipeline.Emission.{
  Knowledge, Quality, apply_evidence_safety, apply_legal_context, gate, adjusted, accept_loop,
  taken, accept_emissions,
}
use nevr_anticheat.Pipeline.Emit.{
  Sink, Report, emit, emit_each, emit_one, feed, dedup_and_emit, take_in, accept_all, add_drops,
  flush_and_emit, flush_tracks, unless_empty,
}
use nevr_anticheat.Pipeline.Run.{
  Step, frame_ends, tracks_end, incidents_end, Moment, take_step, run,
}

module _ {ℓ} {W : Type ℓ} where
  abbrev pub IsShadow : DetectionEvent W → Type 0
  IsShadow ev = ev.is_shadow ≡ true

  IsShadow-at_least_one : (ev : DetectionEvent W) → IsShadow ev → IsShadow (at_least_one ev)
  unfolding at_least_one
  IsShadow-at_least_one ev s = s

module _ {ℓ} {W : Type ℓ} ⦃f : Float W⦄ where
  IsShadow-merge_into :
      (inc ev : DetectionEvent W) → IsShadow inc → IsShadow ev → IsShadow (merge_into inc ev)
  unfolding merge_into
  IsShadow-merge_into inc ev s t = rw s refl

  IsShadow-apply_evidence_safety :
      (k : Knowledge W) (ev : DetectionEvent W)
      → IsShadow ev
      → IsShadow (apply_evidence_safety k ev)
  unfolding apply_evidence_safety
  IsShadow-apply_evidence_safety k ev s = ground (arith, s)

  IsShadow-apply_legal_context :
      (k : Knowledge W) (ev : DetectionEvent W) → IsShadow ev → IsShadow (apply_legal_context k ev)
  unfolding apply_legal_context
  IsShadow-apply_legal_context k ev s = ground (arith, s)

  IsShadow-gate : (q : Quality W) (ev : DetectionEvent W) → q.gated ≡ true → IsShadow (gate q ev)
  unfolding gate
  IsShadow-gate q ev g = rw g refl

  IsShadow-adjusted :
      (k : Knowledge W) (ev : DetectionEvent W) → k.quality.gated ≡ true → IsShadow (adjusted k ev)
  unfolding adjusted
  IsShadow-adjusted k ev g =
      IsShadow-apply_evidence_safety k _
        (IsShadow-apply_legal_context k _ (IsShadow-gate k.quality _ g))

  IsShadow-taken :
      (o : Option EventError) (ev : DetectionEvent W) (rest : List (DetectionEvent W) × ℕ)
      → IsShadow ev
      → All IsShadow rest.0
      → All IsShadow (taken o ev rest).0
  unfolding taken
  IsShadow-taken (some e) ev rest s q = q
  IsShadow-taken none ev rest s q = (s, q)

  module _ (k : Knowledge W) (g : k.quality.gated ≡ true) where
    IsShadow-accept_loop : (evs : List (DetectionEvent W)) → All IsShadow (accept_loop k evs).0
    unfolding accept_loop
    IsShadow-accept_loop [] = tt
    IsShadow-accept_loop (ev ∷ evs) =
        IsShadow-taken (validate_event ev) (adjusted k ev) (accept_loop k evs)
          (IsShadow-adjusted k ev g) (IsShadow-accept_loop evs)

    IsShadow-accept_all :
        (raws : List (List (DetectionEvent W))) → All IsShadow (accept_all k raws).0
    unfolding accept_all accept_emissions
    IsShadow-accept_all [] = tt
    IsShadow-accept_all (evs ∷ raws) =
        All-append IsShadow _ _ (IsShadow-accept_loop _) (IsShadow-accept_all raws)

    -- No player's score is changed, and no composite detector is told of anything.
    record IsUntouched (s t : Sink W × Report W) : Type ℓ where
      same_scores :
          (player : String) → get_or_create t.0.scorer player ≡ get_or_create s.0.scorer player
      same_watchers : t.0.watchers ≡ s.0.watchers
      same_dedup : t.0.dedup ≡ s.0.dedup

    emit_one-IsUntouched :
        (clock : ℕ → ℤ × ℤ) (s : Sink W × Report W) (ev : DetectionEvent W)
        → IsShadow ev
        → IsUntouched s (emit_one clock k s ev)
    unfolding emit_one feed
    emit_one-IsUntouched clock (p, r) ev h =
        let safe = apply_evidence_safety k ev in
        let shadow = IsShadow-apply_evidence_safety k ev h in
        record {
          same_scores = λ player.
              (shadow_silent (clock (length r.retained)).0 (clock (length r.retained)).1 p.scorer
                safe player (inl shadow)).1;
          same_watchers = rw shadow refl;
          same_dedup = refl;
        }

    emit_each-IsUntouched :
        (clock : ℕ → ℤ × ℤ) (evs : List (DetectionEvent W)) (s : Sink W × Report W)
        → All IsShadow evs
        → IsUntouched s (emit_each clock k s evs)
    unfolding emit_each
    emit_each-IsUntouched clock [] s h = record {
      same_scores = λ player. refl;
      same_watchers = refl;
      same_dedup = refl;
    }
    emit_each-IsUntouched clock (ev ∷ evs) s h =
        let now = emit_one-IsUntouched clock s ev h.0 in
        let rest = emit_each-IsUntouched clock evs (emit_one clock k s ev) h.1 in
        record {
          same_scores = λ player. rest.same_scores player ∙ now.same_scores player;
          same_watchers = rest.same_watchers ∙ now.same_watchers;
          same_dedup = rest.same_dedup ∙ now.same_dedup;
        }

    abbrev OpenShadow : Sink W × Report W → Type 0
    OpenShadow s = AllValues IsShadow s.0.dedup.open_incidents

    emit-IsUntouched :
        (clock : ℕ → ℤ × ℤ) (s : Sink W × Report W) (evs : List (DetectionEvent W))
        → All IsShadow evs
        → IsUntouched s (emit clock k s evs)
    unfolding emit
    emit-IsUntouched clock (p, r) evs h =
        let filtered = filter p.rate_limiter evs in
        let done =
          emit_each-IsUntouched clock filtered.kept
            (record p { rate_limiter = filtered.limiter }, add_drops r filtered.dropped_now)
            (filter-All IsShadow p.rate_limiter evs h) in
        record {
          same_scores = done.same_scores;
          same_watchers = done.same_watchers;
          same_dedup = done.same_dedup;
        }

    -- The open incidents stay in shadow too.
    abbrev IsSilent : Sink W × Report W → Sink W × Report W → Type ℓ
    IsSilent s t =
        ((player : String) → get_or_create t.0.scorer player ≡ get_or_create s.0.scorer player)
        × (t.0.watchers ≡ s.0.watchers)
        × OpenShadow t

    emit-IsSilent :
        (clock : ℕ → ℤ × ℤ) (s : Sink W × Report W) (evs : List (DetectionEvent W))
        → All IsShadow evs
        → OpenShadow s
        → IsSilent s (emit clock k s evs)
    emit-IsSilent clock s evs h o =
        let done = emit-IsUntouched clock s evs h in
        (
          done.same_scores,
          done.same_watchers,
          subst (λ d. AllValues IsShadow d.open_incidents) (sym done.same_dedup) o,
        )

    dedup_and_emit-IsSilent :
        (clock : ℕ → ℤ × ℤ) (s : Sink W × Report W) (evs : List (DetectionEvent W)) (frame : ℤ)
        → All IsShadow evs
        → OpenShadow s
        → IsSilent s (dedup_and_emit clock k s evs frame)
    unfolding dedup_and_emit
    dedup_and_emit-IsSilent clock (p, r) evs frame h o =
        let over =
          deduplicate-All IsShadow IsShadow-at_least_one IsShadow-merge_into p.dedup evs frame o
            h in
        emit-IsSilent clock _ _ over.1 over.0

    unless_empty-IsSilent :
        (clock : ℕ → ℤ × ℤ) (s : Sink W × Report W) (evs : List (DetectionEvent W)) (last : ℤ)
        → All IsShadow evs
        → OpenShadow s
        → IsSilent s (unless_empty clock k s evs last)
    unfolding unless_empty
    unless_empty-IsSilent clock s [] last h o = (λ player. refl, refl, o)
    unless_empty-IsSilent clock s (ev ∷ evs) last h o =
        dedup_and_emit-IsSilent clock s (ev ∷ evs) last h o

    take_step-IsSilent :
        (clock : ℕ → ℤ × ℤ) (s : Sink W × Report W) (step : Step W)
        → OpenShadow s
        → IsSilent s (take_step clock k s step)
    unfolding take_step take_in flush_and_emit flush_tracks flush
    take_step-IsSilent clock (p, r) (frame_ends raws frame) o =
        dedup_and_emit-IsSilent clock _ _ frame (IsShadow-accept_all raws) o
    take_step-IsSilent clock (p, r) (tracks_end raws last) o =
        in_if (IsSilent (p, r)) (ltb_ℤ last (pos 0)) (λ e. (λ player. refl, refl, o))
          (λ e. unless_empty-IsSilent clock _ _ last (IsShadow-accept_all raws) o)
    take_step-IsSilent clock (p, r) incidents_end o =
        emit-IsSilent clock _ _ (flush-All IsShadow p.dedup o) tt

  -- Over any sequence of frame ends, track judgements and flushes whose input is gated, from a state
  -- whose open incidents are in shadow, no player's score changes and no composite detector is told of anything,
  -- whatever the detectors emit, the clock says and the knowledge of the pipeline becomes meanwhile.
  pub gated_silent :
      (s : Sink W × Report W) (ms : List (Moment W))
      → AllValues IsShadow s.0.dedup.open_incidents
      → All (λ m. m.known.quality.gated ≡ true) ms
      → ((player : String)
          → get_or_create (run s ms).0.scorer player ≡ get_or_create s.0.scorer player)
        × ((run s ms).0.watchers ≡ s.0.watchers)
  unfolding run
  gated_silent s [] o g = (λ player. refl, refl)
  gated_silent s (m ∷ ms) o g =
      let now = take_step-IsSilent m.known g.0 m.clock s m.step o in
      let rest = gated_silent (take_step m.clock m.known s m.step) ms now.2 g.1 in
      (λ player. rest.0 player ∙ now.0 player, rest.1 ∙ now.1)
