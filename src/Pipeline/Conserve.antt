-- ===== src/Pipeline/Conserve.antt =====
-- internal/pipeline/dedup.go: no emission is lost and none is counted twice.
use nevr_anticheat.Prelude.{
  ℕ, ◌≡◌, refl, ◌∙◌, ap, ◌||◌, String, Option, none, some, List, [], ◌∷◌, ◌++◌, map, inl, inr,
  Bool-cases,
}
use nevr_anticheat.Prelude.Int.{ℤ, pos, ◌+ℤ◌, ltb_ℤ, int_laws, eq_of_parts, pos_part, neg_part}
use nevr_anticheat.Prelude.Dict.{text_eq, lookup, insert}
use nevr_anticheat.Prelude.Float.{Float}
use nevr_anticheat.Model.Event.{DetectionEvent}
use nevr_anticheat.Pipeline.Dedup.{
  Deduplicator, reset, at_least_one, belongs, is_before, place, sort_incidents, merge_into,
  fold_into, fold_emission, fold_all, close_stale, deduplicate, flush, stronger, widened,
}

module _ {ℓ} {W : Type ℓ} where
  -- The raw emissions that the events stand for.
  unfoldable pub emissions : List (DetectionEvent W) → ℤ
  emissions [] = pos 0
  emissions (e ∷ es) = e.merged_count +ℤ emissions es

  unfoldable pub emissions_open : List (String × DetectionEvent W) → ℤ
  emissions_open incs = emissions (map (λ p. p.1) incs)

  -- Those of the raw events of a frame, each at least one.
  unfoldable pub emissions_raw : List (DetectionEvent W) → ℤ
  emissions_raw es = emissions (map at_least_one es)

  emissions-append :
      (xs ys : List (DetectionEvent W)) → emissions (xs ++ ys) ≡ emissions xs +ℤ emissions ys
  unfolding emissions
  emissions-append [] ys = eq_of_parts _ _ (omega int_laws)
  emissions-append (x ∷ xs) ys = rw (emissions-append xs ys) (eq_of_parts _ _ (omega int_laws))

  emissions-place :
      (a : DetectionEvent W) (bs : List (DetectionEvent W))
      → emissions (place a bs) ≡ a.merged_count +ℤ emissions bs
  unfolding emissions place
  emissions-place a [] = refl
  emissions-place a (b ∷ bs) = elim (Bool-cases (is_before b a)) [
    | inl e ↦ rw (e, emissions-place a bs) (eq_of_parts _ _ (omega int_laws))
    | inr e ↦ rw e refl
  ]

  emissions-sort_incidents :
      (es : List (DetectionEvent W)) → emissions (sort_incidents es) ≡ emissions es
  unfolding emissions sort_incidents
  emissions-sort_incidents [] = refl
  emissions-sort_incidents (a ∷ rest) =
      emissions-place a (sort_incidents rest) ∙ rw (emissions-sort_incidents rest) refl

  abbrev held : Option (DetectionEvent W) → ℤ
  held none = pos 0
  held (some e) = e.merged_count

  emissions_open-insert :
      (k : String) (v : DetectionEvent W) (m : List (String × DetectionEvent W))
      → emissions_open (insert k v m) +ℤ held (lookup k m) ≡ emissions_open m +ℤ v.merged_count
  unfolding emissions_open emissions insert lookup
  emissions_open-insert k v [] = eq_of_parts _ _ (omega int_laws)
  emissions_open-insert k v ((j, w) ∷ m) = elim (Bool-cases (text_eq j k)) [
    | inl e ↦ rw e (eq_of_parts _ _ (omega int_laws))
    | inr e ↦ rw e (
        eq_of_parts _ _ (
          omega (
            int_laws,
            ap pos_part (emissions_open-insert k v m),
            ap neg_part (emissions_open-insert k v m),
          )))
  ]

  emissions-close_stale :
      (window : ℕ) (frame : ℤ) (incs : List (String × DetectionEvent W))
      → emissions_open (close_stale window frame incs).0
          +ℤ emissions (close_stale window frame incs).1
        ≡ emissions_open incs
  unfolding emissions_open emissions close_stale
  emissions-close_stale window frame [] = eq_of_parts _ _ (omega int_laws)
  emissions-close_stale window frame ((key, inc) ∷ incs) =
      let left = emissions-close_stale window frame incs in
      elim (Bool-cases (ltb_ℤ (inc.frame_range_end +ℤ pos window) frame)) [
        | inl e ↦ rw e (eq_of_parts _ _ (omega (int_laws, ap pos_part left, ap neg_part left)))
        | inr e ↦ rw e (eq_of_parts _ _ (omega (int_laws, ap pos_part left, ap neg_part left)))
      ]

module _ {ℓ} {W : Type ℓ} ⦃f : Float W⦄ where
  merged_count-stronger :
      (inc ev : DetectionEvent W) → (stronger inc ev).merged_count ≡ inc.merged_count
  unfolding stronger
  merged_count-stronger inc ev =
      elim (Bool-cases
        (f.lt (f.mul inc.severity inc.confidence) (f.mul ev.severity ev.confidence))) [
          | inl e ↦ rw e refl
          | inr e ↦ rw e refl
        ]

  merged_count-widened :
      (inc ev : DetectionEvent W)
      → (widened inc ev).merged_count ≡ inc.merged_count +ℤ ev.merged_count
  unfolding widened
  merged_count-widened inc ev = refl

  merged_count-merge_into :
      (inc ev : DetectionEvent W)
      → (merge_into inc ev).merged_count ≡ inc.merged_count +ℤ ev.merged_count
  unfolding merge_into
  merged_count-merge_into inc ev = elim (Bool-cases (inc.is_shadow || ev.is_shadow)) [
    | inl e ↦ rw (e, merged_count-widened (stronger inc ev) ev, merged_count-stronger inc ev) refl
    | inr e ↦ rw (e, merged_count-widened (stronger inc ev) ev, merged_count-stronger inc ev) refl
  ]

  emissions_open-replace :
      (d : Deduplicator W) (key : String) (v : DetectionEvent W) (o : Option (DetectionEvent W))
      → o ≡ lookup key d.open_incidents
      → emissions_open (insert key v d.open_incidents) +ℤ held o
        ≡ emissions_open d.open_incidents +ℤ v.merged_count
  emissions_open-replace d key v o h = rw h (emissions_open-insert key v d.open_incidents)

  emissions-fold_into :
      (d : Deduplicator W) (key : String) (ev : DetectionEvent W) (o : Option (DetectionEvent W))
      → o ≡ lookup key d.open_incidents
      → emissions_open (fold_into d key ev o).0.open_incidents +ℤ emissions (fold_into d key ev o).1
        ≡ emissions_open d.open_incidents +ℤ ev.merged_count
  unfolding fold_into emissions
  emissions-fold_into d key ev none h = emissions_open-replace d key ev none h
  emissions-fold_into d key ev (some inc) h = elim (Bool-cases (belongs d.merge_window inc ev)) [
    | inl e ↦ rw e (
        let r : emissions_open (insert key (merge_into inc ev) d.open_incidents) +ℤ inc.merged_count
            ≡ emissions_open d.open_incidents +ℤ (inc.merged_count +ℤ ev.merged_count) =
          emissions_open-replace d key (merge_into inc ev) (some inc) h
          ∙ ap (λ x. emissions_open d.open_incidents +ℤ x) (merged_count-merge_into inc ev) in
        eq_of_parts _ _ (omega (int_laws, ap pos_part r, ap neg_part r)))
    | inr e ↦ rw e (
        let r = emissions_open-replace d key ev (some inc) h in
        eq_of_parts _ _ (omega (int_laws, ap pos_part r, ap neg_part r)))
  ]

  emissions-fold_emission :
      (d : Deduplicator W) (raw : DetectionEvent W)
      → emissions_open (fold_emission d raw).0.open_incidents +ℤ emissions (fold_emission d raw).1
        ≡ emissions_open d.open_incidents +ℤ (at_least_one raw).merged_count
  unfolding fold_emission
  emissions-fold_emission d raw = emissions-fold_into d _ (at_least_one raw) _ refl

  emissions-fold_all :
      (raws : List (DetectionEvent W)) (d : Deduplicator W)
      → emissions_open (fold_all d raws).0.open_incidents +ℤ emissions (fold_all d raws).1
        ≡ emissions_open d.open_incidents +ℤ emissions_raw raws
  unfolding fold_all emissions emissions_raw
  emissions-fold_all [] d = refl
  emissions-fold_all (raw ∷ raws) d =
      let one = emissions-fold_emission d raw in
      let rest = emissions-fold_all raws (fold_emission d raw).0 in
      let joint =
        emissions-append (fold_emission d raw).1 (fold_all (fold_emission d raw).0 raws).1 in
      rw joint (
        eq_of_parts _ _
          (omega (int_laws, ap pos_part one, ap neg_part one, ap pos_part rest, ap neg_part rest)))

  emissions-deduplicate :
      (d : Deduplicator W) (raws : List (DetectionEvent W)) (frame : ℤ)
      → emissions_open (deduplicate d raws frame).0.open_incidents
          +ℤ emissions (deduplicate d raws frame).1
        ≡ emissions_open d.open_incidents +ℤ emissions_raw raws
  unfolding deduplicate
  emissions-deduplicate d raws frame =
      let all = emissions-fold_all raws d in
      let stale = emissions-close_stale d.merge_window frame (fold_all d raws).0.open_incidents in
      let (left, over) = close_stale d.merge_window frame (fold_all d raws).0.open_incidents in
      let sorted =
        emissions-sort_incidents ((fold_all d raws).1 ++ over)
        ∙ emissions-append (fold_all d raws).1 over in
      rw sorted (
        eq_of_parts _ _ (
          omega (int_laws, ap pos_part all, ap neg_part all, ap pos_part stale, ap neg_part stale)))

  -- The frames of a match, then the flush at its end: the events emitted.
  unfoldable pub deduplicated :
      Deduplicator W → List (List (DetectionEvent W) × ℤ) → List (DetectionEvent W)
  deduplicated d [] = (flush d).1
  deduplicated d ((raws, frame) ∷ frames) =
      let (d', out) = deduplicate d raws frame in out ++ deduplicated d' frames

  abbrev pub emissions_of_frames : List (List (DetectionEvent W) × ℤ) → ℤ
  emissions_of_frames [] = pos 0
  emissions_of_frames ((raws, frame) ∷ frames) = emissions_raw raws +ℤ emissions_of_frames frames

  emissions-deduplicated :
      (frames : List (List (DetectionEvent W) × ℤ)) (d : Deduplicator W)
      → emissions (deduplicated d frames)
        ≡ emissions_open d.open_incidents +ℤ emissions_of_frames frames
  unfolding deduplicated flush emissions_open
  emissions-deduplicated [] d = emissions-sort_incidents _ ∙ eq_of_parts _ _ (omega int_laws)
  emissions-deduplicated ((raws, frame) ∷ frames) d =
      let now = emissions-deduplicate d raws frame in
      let rest = emissions-deduplicated frames (deduplicate d raws frame).0 in
      rw
        (
          emissions-append (deduplicate d raws frame).1
              (deduplicated (deduplicate d raws frame).0 frames),
          rest,
        )
        (eq_of_parts _ _ (omega (int_laws, ap pos_part now, ap neg_part now)))

  -- Over the frames of a match, from a reset to the flush at its end, whatever the merge window and the frame
  -- indices, the merged counts of the incidents emitted add up to those of the raw emissions, which
  -- count one where theirs is not positive: none is lost and none is counted twice.
  pub deduplicated_conserves :
      (d : Deduplicator W) (frames : List (List (DetectionEvent W) × ℤ))
      → emissions (deduplicated (reset d) frames) ≡ emissions_of_frames frames
  unfolding reset emissions_open emissions
  deduplicated_conserves d frames =
      emissions-deduplicated frames (reset d) ∙ eq_of_parts _ _ (omega int_laws)
