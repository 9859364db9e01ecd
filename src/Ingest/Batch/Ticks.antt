-- ===== src/Ingest/Batch/Ticks.antt =====
-- internal/ingest/live_pipeline.go: a tick that was handed to the pipeline is closed for good.
use nevr_anticheat.Prelude.{
  ℕ, ◌+◌, ◌≡◌, refl, ◌∙◌, sym, ap, subst, Option, none, some, List, [], ◌∷◌, ◌++◌, inl, inr, arith,
  Bool-cases, if◌then◌else◌,
}
use mathlib.Core.List.{Memᴰ}
use nevr_anticheat.Prelude.Int.{ℤ, ◌≤ℤ◌, ◌<ℤ◌, ltb_ℤ}
use nevr_anticheat.Prelude.Float.{Float}
use nevr_anticheat.Pipeline.Validator.{Telemetry}
use nevr_anticheat.Pipeline.Through.{All, All-append}
use nevr_anticheat.Ingest.Live.{LiveMatch, FrameResult, Answers, fresh_live_frames}
use nevr_anticheat.Ingest.Live.Order.{fresh_live_frames-le}
use nevr_anticheat.Ingest.Batch.{
  Handled, admit, highest, split_closed_ticks, note_one, note_stored, process_locked, assemble,
  on_stored, store_batch, handle_frames,
}
use nevr_anticheat.Ingest.Batch.Split.{IsHeld, admit-All, split_closed_ticks-bounds, highest-ge}

module _ {ℓ} {W : Type ℓ} where
  -- What a call does to the ticks: it hands over whole ticks from the last one on, and a new last tick
  -- is the one that waits.
  record IsAdvance (m : LiveMatch W) (h : Handled W) : Type ℓ where
    held : IsHeld h.match_after
    grows : m.last_frame_index ≤ℤ h.match_after.last_frame_index
    within :
        All
          (λ x.
            (m.last_frame_index ≤ℤ x.frame_index)
            × (x.frame_index <ℤ h.match_after.last_frame_index))
          h.processed

module _ {ℓ} {W : Type ℓ} ⦃f : Float W⦄ where
  note_one_index :
      (m : LiveMatch W) (fr : Telemetry W)
      → ((note_one m fr).last_frame_index ≡ (
          if ltb_ℤ m.last_frame_index fr.frame_index then fr.frame_index else m.last_frame_index))
        × ((note_one m fr).pending ≡ m.pending)
  unfolding note_one
  note_one_index m fr = (ground arith, ground arith)

  note_stored_index :
      (frs : List (Telemetry W)) (m : LiveMatch W)
      → ((note_stored m frs).last_frame_index ≡ highest m.last_frame_index frs)
        × ((note_stored m frs).pending ≡ m.pending)
  unfolding note_stored highest
  note_stored_index [] m = (refl, refl)
  note_stored_index (fr ∷ frs) m =
      let one = note_one_index m fr in
      let rest = note_stored_index frs (note_one m fr) in
      (rest.0 ∙ ap (λ t. highest t frs) one.0, rest.1 ∙ one.1)

  process_locked-IsAdvance :
      (db : Answers W) (m : LiveMatch W) (res : FrameResult) (low : LiveMatch W)
      (ready : List (Telemetry W))
      → IsHeld m
      → low.last_frame_index ≤ℤ m.last_frame_index
      → All
          (λ x. (low.last_frame_index ≤ℤ x.frame_index) × (x.frame_index <ℤ m.last_frame_index))
          ready
      → IsAdvance low (record {
        match_after = (process_locked db m ready).0;
        result = res;
        processed = (process_locked db m ready).1;
      })
  unfolding process_locked
  process_locked-IsAdvance db m res low [] h g w = record { held = h; grows = g; within = tt }
  process_locked-IsAdvance db m res low (fr ∷ frs) h g w = elim (Bool-cases m.analysis_incomplete) [
    | inl e ↦ rw e (record { held = h; grows = g; within = tt })
    | inr e ↦ rw e (record { held = h; grows = g; within = w })
  ]

  assemble-IsAdvance :
      (db : Answers W) (low m : LiveMatch W) (res : FrameResult) (frs : List (Telemetry W))
      → IsHeld low
      → m.last_frame_index ≡ highest low.last_frame_index frs
      → m.pending ≡ low.pending
      → All (λ x. low.last_frame_index ≤ℤ x.frame_index) frs
      → IsAdvance low (assemble db m res frs)
  unfolding assemble
  assemble-IsAdvance db low m res frs h last same le =
      let top = highest low.last_frame_index frs in
      let bounds = split_closed_ticks-bounds low.last_frame_index low.pending frs h le in
      let ready = (split_closed_ticks (m.pending ++ frs)).0 in
      let waits = (split_closed_ticks (m.pending ++ frs)).1 in
      let m' = record m { pending = waits } in
      let held : IsHeld m' = rw (same, last) bounds.1 in
      let grows : low.last_frame_index ≤ℤ m'.last_frame_index =
        rw last (highest-ge low.last_frame_index frs) in
      let within : All
          (λ x. (low.last_frame_index ≤ℤ x.frame_index) × (x.frame_index <ℤ m'.last_frame_index))
          ready =
        rw (same, last) bounds.0 in
      process_locked-IsAdvance db m' res low ready held grows within

  unchanged-IsAdvance :
      (low m : LiveMatch W) (res : FrameResult)
      → IsHeld low
      → m.last_frame_index ≡ low.last_frame_index
      → m.pending ≡ low.pending
      → IsAdvance low (record { match_after = m; result = res; processed = [] })
  unchanged-IsAdvance low m res h last same = record {
    held = rw (same, last) h;
    grows = rw last (omega arith);
    within = tt;
  }

  store_batch-IsAdvance :
      (db : Answers W) (low m : LiveMatch W) (res : FrameResult) (frs : List (Telemetry W))
      → IsHeld low
      → m.last_frame_index ≡ low.last_frame_index
      → m.pending ≡ low.pending
      → All (λ x. low.last_frame_index ≤ℤ x.frame_index) frs
      → IsAdvance low (store_batch db m res frs)
  unfolding store_batch
  store_batch-IsAdvance db low m res [] h last same le = unchanged-IsAdvance low m res h last same
  store_batch-IsAdvance db low m res (fr ∷ frs) h last same le = by_answer (db.inserted (fr ∷ frs))
    where
      by_answer : (o : Option ℕ) → IsAdvance low (on_stored db m res (fr ∷ frs) o)
      by_answer none = unfold on_stored in unchanged-IsAdvance low m _ h last same
      by_answer (some n) =
          unfold on_stored in
          let m' = record m { rows_stored = m.rows_stored + n } in
          let noted = note_stored_index (fr ∷ frs) m' in
          assemble-IsAdvance db low (note_stored m' (fr ∷ frs)) _ (fr ∷ frs) h
            (noted.0 ∙ ap (λ t. highest t (fr ∷ frs)) last) (noted.1 ∙ same) le

  handle_frames-IsAdvance :
      (most : ℕ) (db : Answers W) (m : LiveMatch W) (input : List (Telemetry W))
      → IsHeld m
      → IsAdvance m (handle_frames most db m input)
  unfolding handle_frames
  handle_frames-IsAdvance most db m input h =
      let fresh = fresh_live_frames db m input in
      store_batch-IsAdvance db m _ _ (admit most m.player_ids fresh.frames).1 h refl refl (
        admit-All (λ x. m.last_frame_index ≤ℤ x.frame_index) most fresh.frames m.player_ids
          (fresh_live_frames-le db m input))

  -- The match after some batches, and what was handed to the pipeline meanwhile, batch by batch.
  unfoldable pub after_batches :
      ℕ → LiveMatch W → List (Answers W × List (Telemetry W)) → LiveMatch W
  after_batches most m [] = m
  after_batches most m ((db, input) ∷ rest) =
      after_batches most (handle_frames most db m input).match_after rest

  unfoldable pub handed_over :
      ℕ → LiveMatch W → List (Answers W × List (Telemetry W)) → List (Telemetry W)
  handed_over most m [] = []
  handed_over most m ((db, input) ∷ rest) =
      let h = handle_frames most db m input in h.processed ++ handed_over most h.match_after rest

  after_batches-IsHeld :
      (most : ℕ) (batches : List (Answers W × List (Telemetry W))) (m : LiveMatch W)
      → IsHeld m
      → IsHeld (after_batches most m batches)
  unfolding after_batches
  after_batches-IsHeld most [] m h = h
  after_batches-IsHeld most ((db, input) ∷ rest) m h =
      after_batches-IsHeld most rest (handle_frames most db m input).match_after
        (handle_frames-IsAdvance most db m input h).held

  handed_over-ge :
      (most : ℕ) (batches : List (Answers W × List (Telemetry W))) (m : LiveMatch W) (low : ℤ)
      → IsHeld m
      → low ≤ℤ m.last_frame_index
      → All (λ x. low ≤ℤ x.frame_index) (handed_over most m batches)
  unfolding handed_over
  handed_over-ge most [] m low h le = tt
  handed_over-ge most ((db, input) ∷ rest) m low h le =
      let step = handle_frames-IsAdvance most db m input h in
      let later =
        handed_over-ge most rest (handle_frames most db m input).match_after low step.held
          (omega (arith, le, step.grows)) in
      All-append _ _ _ (above _ (handle_frames most db m input).processed step.within) later
    where
      above :
          (top : ℤ) (xs : List (Telemetry W))
          → All (λ x. (m.last_frame_index ≤ℤ x.frame_index) × (x.frame_index <ℤ top)) xs
          → All (λ x. low ≤ℤ x.frame_index) xs
      above top [] w = tt
      above top (x ∷ xs) w = (omega (arith, le, w.0.0), above top xs w.1)

  member_All :
      (P : Telemetry W → Type 0) (xs : List (Telemetry W)) (x : Telemetry W)
      → Memᴰ x xs
      → All P xs
      → P x
  member_All P [] x n q = elim n [ ]
  member_All P (y ∷ ys) x (Memᴰ.head e) q = subst P (sym e) q.0
  member_All P (y ∷ ys) x (Memᴰ.tail n) q = member_All P ys x n q.1

  -- After any batches of a match that began with no frame waiting, every frame that a further batch
  -- hands to the pipeline has a lower index than every frame handed over by any batch after it: no tick
  -- is handed over in parts, twice, or after a later one, whatever the producer sends and the store
  -- answers.
  pub closed_for_good :
      (most : ℕ) (m : LiveMatch W) (before : List (Answers W × List (Telemetry W))) (db : Answers W)
      (input : List (Telemetry W)) (rest : List (Answers W × List (Telemetry W)))
      (x y : Telemetry W)
      → m.pending ≡ []
      → Memᴰ x (handle_frames most db (after_batches most m before) input).processed
      → Memᴰ y (
          handed_over most
            (handle_frames most db (after_batches most m before) input).match_after
            rest)
      → x.frame_index <ℤ y.frame_index
  closed_for_good most m before db input rest x y none_waits xs ys =
      let start : IsHeld m = rw none_waits tt in
      let m' = after_batches most m before in
      let step =
        handle_frames-IsAdvance most db m' input (after_batches-IsHeld most before m start) in
      let next = (handle_frames most db m' input).match_after in
      let low = member_All _ _ x xs step.within in
      let high =
        member_All _ _ y ys
          (handed_over-ge most rest next next.last_frame_index step.held (omega arith)) in
      omega (arith, low.1, high)
