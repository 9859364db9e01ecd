-- ===== src/Ingest/Live/Order.antt =====
-- internal/ingest/live_ordering.go: no kept frame lies before the last frame of the match.
use nevr_anticheat.Prelude.{
  ◌≡◌, refl, Bool, true, false, Option, none, some, List, [], ◌∷◌, inl, inr, arith, Bool-cases,
}
use nevr_anticheat.Prelude.Int.{ℤ, ◌≤ℤ◌}
use nevr_anticheat.Prelude.Float.{Float}
use nevr_anticheat.Pipeline.Validator.{Telemetry}
use nevr_anticheat.Pipeline.Through.{All}
use nevr_anticheat.Ingest.Live.{
  LiveMatch, Answers, Last, Prior, lookup_failed, not_stored, stored, Verdict, kept, dropped,
  repeated, conflicting, of_comparison, out_of_order, in_order, by_store, by_batch, judge,
  malformed, find_seen, add_verdict, last_after, seen_after, fresh_loop, last_of, fresh_live_frames,
}

of_comparison-ne-kept : (o : Option Bool) → of_comparison o ≡ kept → ⊥
of_comparison-ne-kept none h = cc
of_comparison-ne-kept (some true) h = cc
of_comparison-ne-kept (some false) h = cc

module _ {ℓ} {W : Type ℓ} ⦃f : Float W⦄ where
  in_order-kept :
      (last : Last W) (fr : Telemetry W) → in_order last fr ≡ kept → out_of_order last fr ≡ false
  unfolding in_order
  in_order-kept last fr h = ground (arith, h)

  by_store-kept :
      (p : Prior) (last : Last W) (fr : Telemetry W)
      → by_store p last fr ≡ kept
      → out_of_order last fr ≡ false
  unfolding by_store
  by_store-kept lookup_failed last fr h = cc
  by_store-kept not_stored last fr h = in_order-kept last fr h
  by_store-kept (stored o) last fr h = absurd (of_comparison-ne-kept o h)

  by_batch-kept :
      (o : Option (Telemetry W)) (db : Answers W) (m : LiveMatch W) (last : Last W)
      (fr : Telemetry W)
      → by_batch o db m last fr ≡ kept
      → out_of_order last fr ≡ false
  unfolding by_batch
  by_batch-kept (some g) db m last fr h = absurd (of_comparison-ne-kept (db.same g fr) h)
  by_batch-kept none db m last fr h =
      ground (arith, h, by_store-kept (db.prior fr) last fr, in_order-kept last fr)

  -- A frame that is kept is well formed and in order.
  pub judge-kept :
      (db : Answers W) (m : LiveMatch W) (seen : List (Telemetry W)) (last : Last W)
      (fr : Telemetry W)
      → judge db m seen last fr ≡ kept
      → (malformed fr ≡ false) × (out_of_order last fr ≡ false)
  unfolding judge
  judge-kept db m seen last fr h = elim (Bool-cases (malformed fr)) [
    | inl e ↦ let no : dropped ≡ kept = rw e at h in cc
    | inr e ↦
        let yes : by_batch (find_seen fr seen) db m last fr ≡ kept = rw e at h in
        (e, by_batch-kept (find_seen fr seen) db m last fr yes)
  ]

  out_of_order-le :
      (last : Last W) (fr : Telemetry W)
      → out_of_order last fr ≡ false
      → last.index ≤ℤ fr.frame_index
  unfolding out_of_order
  out_of_order-le last fr h = ground (arith, h)

  fresh_loop-le :
      (db : Answers W) (m : LiveMatch W) (low : ℤ) (frs : List (Telemetry W))
      (seen : List (Telemetry W)) (last : Last W)
      → low ≤ℤ last.index
      → All (λ fr. low ≤ℤ fr.frame_index) (fresh_loop db m seen last frs).frames
  unfolding fresh_loop
  fresh_loop-le db m low [] seen last le = tt
  fresh_loop-le db m low (fr ∷ frs) seen last le =
      by_verdict (judge db m seen last fr) refl
        (λ seen' last'. fresh_loop-le db m low frs seen' last')
    where
      by_verdict :
          (v : Verdict)
          → judge db m seen last fr ≡ v
          → ((seen' : List (Telemetry W)) (last' : Last W)
              → low ≤ℤ last'.index
              → All (λ g. low ≤ℤ g.frame_index) (fresh_loop db m seen' last' frs).frames)
          → All
              (λ g. low ≤ℤ g.frame_index)
              (add_verdict v fr
                (fresh_loop db m (seen_after v fr seen) (last_after v fr last) frs)).frames
      by_verdict kept h rest =
          unfold add_verdict last_after seen_after in
          let up = out_of_order-le last fr (judge-kept db m seen last fr h).1 in
          (omega (arith, up, le), rest (fr ∷ seen) _ (omega (arith, up, le)))
      by_verdict dropped h rest = unfold add_verdict last_after seen_after in rest seen last le
      by_verdict repeated h rest = unfold add_verdict last_after seen_after in rest seen last le
      by_verdict conflicting h rest = unfold add_verdict last_after seen_after in rest seen last le

  -- What freshLiveFrames keeps does not lie before the last frame of the match.
  pub fresh_live_frames-le :
      (db : Answers W) (m : LiveMatch W) (input : List (Telemetry W))
      → All (λ fr. m.last_frame_index ≤ℤ fr.frame_index) (fresh_live_frames db m input).frames
  unfolding fresh_live_frames last_of
  fresh_live_frames-le db m input = fresh_loop-le db m m.last_frame_index _ [] _ (omega arith)
