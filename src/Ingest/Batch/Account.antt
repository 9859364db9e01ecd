-- ===== src/Ingest/Batch/Account.antt =====
-- internal/ingest/live_pipeline.go: the counts that acknowledge a batch.
use nevr_anticheat.Prelude.{
  ℕ, suc, ◌+◌, ◌≤◌, ◌≡◌, refl, String, not, ◌&&◌, Option, none, some, List, [], ◌∷◌, leb, inl, inr,
  arith, length, length-sort_stable, sort_stable, Bool-cases,
}
use nevr_anticheat.Prelude.Text.{contains_text}
use nevr_anticheat.Prelude.Float.{Float}
use nevr_anticheat.Pipeline.Validator.{Telemetry}
use nevr_anticheat.Ingest.Live.{
  LiveMatch, FrameResult, Answers, Fresh, Last, Verdict, kept, dropped, repeated, conflicting,
  judge, add_verdict, last_after, seen_after, fresh_loop, last_of, frame_before, fresh_live_frames,
}
use nevr_anticheat.Ingest.Batch.{admit, assemble, on_stored, store_batch, handle_frames}

abbrev pub total : FrameResult → ℕ
total r = r.accepted + (r.rejected + r.ignored)

module _ {ℓ} {W : Type ℓ} where
  length-admit :
      (most : ℕ) (frs : List (Telemetry W)) (players : List String)
      → length (admit most players frs).1 + (admit most players frs).2 ≡ length frs
  unfolding admit
  length-admit most [] players = refl
  length-admit most (fr ∷ frs) players =
      let known = contains_text fr.player_id players in
      let refused = not known && leb most (length players) in
      elim (Bool-cases refused) [
        | inl e ↦ rw e (omega (arith, length-admit most frs _))
        | inr e ↦ rw e (omega (arith, length-admit most frs _))
      ]

module _ {ℓ} {W : Type ℓ} ⦃f : Float W⦄ where
  length-add_verdict :
      (v : Verdict) (fr : Telemetry W) (r : Fresh W)
      → length (add_verdict v fr r).frames + total (add_verdict v fr r).counts
        ≡ suc (length r.frames + total r.counts)
  unfolding add_verdict
  length-add_verdict kept fr r = omega arith
  length-add_verdict dropped fr r = omega arith
  length-add_verdict repeated fr r = omega arith
  length-add_verdict conflicting fr r = omega arith

  length-fresh_loop :
      (db : Answers W) (m : LiveMatch W) (frs : List (Telemetry W)) (seen : List (Telemetry W))
      (last : Last W)
      → length (fresh_loop db m seen last frs).frames + total (fresh_loop db m seen last frs).counts
        ≡ length frs
  unfolding fresh_loop
  length-fresh_loop db m [] seen last = refl
  length-fresh_loop db m (fr ∷ frs) seen last =
      let v = judge db m seen last fr in
      omega (
        arith,
        length-fresh_loop db m frs (seen_after v fr seen) (last_after v fr last),
        length-add_verdict v fr (fresh_loop db m (seen_after v fr seen) (last_after v fr last) frs),
      )

  total-on_stored :
      (db : Answers W) (m : LiveMatch W) (res : FrameResult) (frs : List (Telemetry W))
      (o : Option ℕ)
      → db.inserted frs ≡ o
      → ((frames : List (Telemetry W)) (n : ℕ) → db.inserted frames ≡ some n → n ≤ length frames)
      → total (on_stored db m res frs o).result ≡ total res + length frs
  unfolding on_stored assemble
  total-on_stored db m res frs none e within = omega arith
  total-on_stored db m res frs (some n) e within = omega (arith, within frs n e)

  total-store_batch :
      (db : Answers W) (m : LiveMatch W) (res : FrameResult) (frs : List (Telemetry W))
      → ((frames : List (Telemetry W)) (n : ℕ) → db.inserted frames ≡ some n → n ≤ length frames)
      → total (store_batch db m res frs).result ≡ total res + length frs
  unfolding store_batch
  total-store_batch db m res [] within = omega arith
  total-store_batch db m res (fr ∷ frs) within =
      total-on_stored db m res (fr ∷ frs) (db.inserted (fr ∷ frs)) refl within

  -- Where the store inserts no more frames than it was given, every frame of a batch is counted exactly
  -- once, as accepted, rejected or ignored, whatever the match, the batch and the other answers are.
  pub handle_frames-total :
      (most : ℕ) (db : Answers W) (m : LiveMatch W) (input : List (Telemetry W))
      → ((frames : List (Telemetry W)) (n : ℕ) → db.inserted frames ≡ some n → n ≤ length frames)
      → total (handle_frames most db m input).result ≡ length input
  unfolding handle_frames fresh_live_frames
  handle_frames-total most db m input within =
      let sorted = sort_stable frame_before input in
      let fresh = fresh_loop db m [] (last_of m) sorted in
      let (players, frames, refused) = admit most m.player_ids fresh.frames in
      omega (
        arith,
        total-store_batch db _ (record fresh.counts { rejected = fresh.counts.rejected + refused })
            frames within,
        length-admit most fresh.frames m.player_ids,
        length-fresh_loop db m sorted [] (last_of m),
        length-sort_stable frame_before input,
      )
