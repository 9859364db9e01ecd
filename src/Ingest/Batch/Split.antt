-- ===== src/Ingest/Batch/Split.antt =====
-- internal/ingest/live_pipeline.go: the ticks of the frames that wait and of those that follow.
use nevr_anticheat.Prelude.{
  ℕ, ◌≡◌, refl, ◌∙◌, ap, subst, String, true, false, not, ◌&&◌, leb, List, [], ◌∷◌, ◌++◌, length,
  ◌⊎◌, inl, inr, arith, Bool-cases, if◌then◌else◌,
}
use nevr_anticheat.Prelude.Int.{ℤ, ◌≤ℤ◌, ◌<ℤ◌, ltb_ℤ, eq_of_parts, pos_part, neg_part}
use nevr_anticheat.Prelude.Text.{contains_text}
use nevr_anticheat.Pipeline.Validator.{Telemetry}
use nevr_anticheat.Pipeline.Through.{All, All-append}
use nevr_anticheat.Ingest.Live.{LiveMatch}
use nevr_anticheat.Ingest.Batch.{admit, highest, split_at, split_closed_ticks}

module _ {ℓ} {W : Type ℓ} where
  pub admit-All :
      (P : Telemetry W → Type 0) (most : ℕ) (frs : List (Telemetry W)) (players : List String)
      → All P frs
      → All P (admit most players frs).1
  unfolding admit
  admit-All P most [] players h = tt
  admit-All P most (fr ∷ frs) players h =
      let known = contains_text fr.player_id players in
      let refused = not known && leb most (length players) in
      elim (Bool-cases refused) [
        | inl e ↦ rw e (admit-All P most frs _ h.1)
        | inr e ↦ rw e (h.0, admit-All P most frs _ h.1)
      ]

  highest-append :
      (xs ys : List (Telemetry W)) (top : ℤ) → highest top (xs ++ ys) ≡ highest (highest top xs) ys
  unfolding highest
  highest-append [] ys top = refl
  highest-append (x ∷ xs) ys top = highest-append xs ys _

  -- Frames that all have one index leave it the highest.
  highest-constant :
      (top : ℤ) (xs : List (Telemetry W)) → All (λ x. x.frame_index ≡ top) xs → highest top xs ≡ top
  unfolding highest
  highest-constant top [] h = refl
  highest-constant top (x ∷ xs) h =
      let stays : (if ltb_ℤ top x.frame_index then x.frame_index else top) ≡ top =
        ground (arith, h.0) in
      rw stays (highest-constant top xs h.1)

  pub highest-ge : (top : ℤ) (xs : List (Telemetry W)) → top ≤ℤ highest top xs
  unfolding highest
  highest-ge top [] = omega arith
  highest-ge top (x ∷ xs) =
      let step : top ≤ℤ (if ltb_ℤ top x.frame_index then x.frame_index else top) = ground arith in
      omega (arith, step, highest-ge (if ltb_ℤ top x.frame_index then x.frame_index else top) xs)

  highest-All : (top : ℤ) (xs : List (Telemetry W)) → All (λ x. x.frame_index ≤ℤ highest top xs) xs
  unfolding highest
  highest-All top [] = tt
  highest-All top (x ∷ xs) =
      let next = if ltb_ℤ top x.frame_index then x.frame_index else top in
      let step : x.frame_index ≤ℤ next = ground arith in
      (omega (arith, step, highest-ge next xs), highest-All next xs)

  -- The two parts of a split, of frames between a lower bound and the top.
  split_at-bounds :
      (low top : ℤ) (xs : List (Telemetry W))
      → All (λ x. low ≤ℤ x.frame_index) xs
      → All (λ x. x.frame_index ≤ℤ top) xs
      → All (λ x. (low ≤ℤ x.frame_index) × (x.frame_index <ℤ top)) (split_at top xs).0
        × All (λ x. x.frame_index ≡ top) (split_at top xs).1
  unfolding split_at
  split_at-bounds low top [] p q = (tt, tt)
  split_at-bounds low top (x ∷ xs) p q =
      let deeper = split_at-bounds low top xs p.1 q.1 in
      elim (Bool-cases (ltb_ℤ x.frame_index top)) [
        | inl e ↦
            let below : x.frame_index <ℤ top = ground (arith, e) in
            rw e (((p.0, below), deeper.0), deeper.1)
        | inr e ↦
            let at : x.frame_index ≡ top = eq_of_parts _ _ (ground (arith, e, q.0)) in
            rw e (deeper.0, (at, deeper.1))
      ]

  -- The frames that wait all belong to the last tick.
  abbrev pub IsHeld : LiveMatch W → Type 0
  IsHeld m = All (λ x. x.frame_index ≡ m.last_frame_index) m.pending

  at_index :
      (low : ℤ) (xs : List (Telemetry W))
      → All (λ x. x.frame_index ≡ low) xs
      → All (λ x. low ≤ℤ x.frame_index) xs
  at_index low [] h = tt
  at_index low (x ∷ xs) h = (omega (arith, ap pos_part h.0, ap neg_part h.0), at_index low xs h.1)

  -- The top of the frames that wait and of those that follow is the highest from the last frame on.
  pub split_closed_ticks-bounds :
      (last : ℤ) (pending frames : List (Telemetry W))
      → All (λ x. x.frame_index ≡ last) pending
      → All (λ x. last ≤ℤ x.frame_index) frames
      → let top = highest last frames in
        All
          (λ x. (last ≤ℤ x.frame_index) × (x.frame_index <ℤ top))
          (split_closed_ticks (pending ++ frames)).0
        × All (λ x. x.frame_index ≡ top) (split_closed_ticks (pending ++ frames)).1
  unfolding split_closed_ticks
  split_closed_ticks-bounds last [] [] h le = (tt, tt)
  split_closed_ticks-bounds last [] (y ∷ ys) h le =
      let same : highest last (y ∷ ys) ≡ highest y.frame_index ys =
        unfold highest in ap (λ t. highest t ys) (next (Bool-cases (ltb_ℤ last y.frame_index))) in
      rw same (
        split_at-bounds last (highest y.frame_index ys) (y ∷ ys) le
          (highest-ge y.frame_index ys, highest-All y.frame_index ys))
    where
      next :
          (ltb_ℤ last y.frame_index ≡ true) ⊎ (ltb_ℤ last y.frame_index ≡ false)
          → (if ltb_ℤ last y.frame_index then y.frame_index else last) ≡ y.frame_index
      next (inl e) = rw e refl
      next (inr e) = rw e (eq_of_parts _ _ (ground (arith, e, le.0)))
  split_closed_ticks-bounds last (x ∷ xs) frames h le =
      let same : highest x.frame_index (xs ++ frames) ≡ highest last frames = rw h.0 (
        highest-append xs frames last
        ∙ ap (λ t. highest t frames) (highest-constant last xs h.1)) in
      rw same (
        split_at-bounds last (highest last frames) ((x ∷ xs) ++ frames)
          (All-append _ (x ∷ xs) frames (at_index last (x ∷ xs) h) le)
          (subst (λ t. All (λ z. z.frame_index ≤ℤ t) ((x ∷ xs) ++ frames)) same
            (highest-ge x.frame_index (xs ++ frames), highest-All x.frame_index (xs ++ frames))))
