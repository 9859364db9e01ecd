-- ===== src/Pipeline/Dedup.antt =====
-- internal/pipeline/dedup.go: the emissions of a sustained anomaly become one incident. The open
-- incidents are an association list, ranged over in its order; the observer of merges gets the merged
-- emissions and is no part of the state.
use Prim.Native.String.{compare as compare_text}
use Prim.Native.Nat.{Ordering}
use nevr_anticheat.Prelude.{
  ℕ, suc, String, Bool, true, false, ◌&&◌, ◌||◌, not, Option, none, some, List, [], ◌∷◌, ◌++◌, map,
  if◌then◌else◌,
}
use nevr_anticheat.Prelude.Int.{ℤ, pos, ◌+ℤ◌, ◌-ℤ◌, leb_ℤ, ltb_ℤ, pos_part}
use nevr_anticheat.Prelude.Dict.{text_eq, lookup, insert}
use nevr_anticheat.Prelude.Text.{joined}
use nevr_anticheat.Prelude.Float.{Float, lit}
use nevr_anticheat.Model.Event.{CausalKey, DetectionEvent, overlaps}

pub record Deduplicator {ℓ} (W : Type ℓ) : Type ℓ where
  pub merge_window : ℕ
  pub open_incidents : List (String × DetectionEvent W)
  pub merged : ℕ

-- `s < t` on texts
abbrev pub ltb_text : String → String → Bool
ltb_text s t = elim (compare_text s t) [ Ordering.lt ↦ true | _ ↦ false ]

-- CausalKey.Key
unfoldable pub causal_key_text : CausalKey → String
causal_key_text c = joined c.key_player_id c.anomaly_type

module _ {ℓ} {W : Type ℓ} where
  -- NewDeduplicator
  unfoldable pub new_deduplicator : ℤ → Deduplicator W
  new_deduplicator window = record {
    merge_window = pos_part window;
    open_incidents = [];
    merged = 0;
  }

  -- Reset
  unfoldable pub reset : Deduplicator W → Deduplicator W
  reset d = record d { open_incidents = []; merged = 0 }

  -- `if ev.MergedCount <= 0 { ev.MergedCount = 1 }`
  unfoldable pub at_least_one : DetectionEvent W → DetectionEvent W
  at_least_one ev = record ev {
    merged_count = if leb_ℤ ev.merged_count (pos 0) then pos 1 else ev.merged_count;
  }

  -- belongs
  unfoldable pub belongs : ℕ → DetectionEvent W → DetectionEvent W → Bool
  belongs window inc ev =
      overlaps inc.causal_key ev.causal_key
      || (leb_ℤ ev.frame_range_start (inc.frame_range_end +ℤ pos window)
          && leb_ℤ (inc.frame_range_start -ℤ pos window) ev.frame_range_end)

  -- The order of sortIncidents.
  unfoldable pub is_before : DetectionEvent W → DetectionEvent W → Bool
  is_before a b =
      if ltb_ℤ a.frame_range_start b.frame_range_start
      then true
      else if ltb_ℤ b.frame_range_start a.frame_range_start
      then false
      else if not (text_eq a.player_id b.player_id)
      then ltb_text a.player_id b.player_id
      else if not (text_eq a.detector_id b.detector_id)
      then ltb_text a.detector_id b.detector_id
      else ltb_ℤ a.frame_index b.frame_index

  unfoldable pub place : DetectionEvent W → List (DetectionEvent W) → List (DetectionEvent W)
  place a [] = a ∷ []
  place a (b ∷ bs) = let rest = place a bs in if is_before b a then b ∷ rest else a ∷ b ∷ bs

  -- sortIncidents: a stable sort
  unfoldable pub sort_incidents : List (DetectionEvent W) → List (DetectionEvent W)
  sort_incidents [] = []
  sort_incidents (a ∷ rest) = place a (sort_incidents rest)

  -- The second loop of Deduplicate: the incidents that are over, and those still open.
  unfoldable pub close_stale :
      ℕ
      → ℤ
      → List (String × DetectionEvent W)
      → List (String × DetectionEvent W) × List (DetectionEvent W)
  close_stale window frame [] = ([], [])
  close_stale window frame ((key, inc) ∷ incs) =
      let (left, out) = close_stale window frame incs in
      if ltb_ℤ (inc.frame_range_end +ℤ pos window) frame
      then (left, inc ∷ out)
      else ((key, inc) ∷ left, out)

  -- Flush
  unfoldable pub flush : Deduplicator W → Deduplicator W × List (DetectionEvent W)
  flush d = (record d { open_incidents = [] }, sort_incidents (map (λ p. p.1) d.open_incidents))

module _ {ℓ} {W : Type ℓ} ⦃f : Float W⦄ where
  -- The fields that the stronger of the two emissions decides.
  unfoldable pub stronger : DetectionEvent W → DetectionEvent W → DetectionEvent W
  stronger inc ev =
      if f.lt (f.mul inc.severity inc.confidence) (f.mul ev.severity ev.confidence)
      then record inc {
        severity = ev.severity;
        confidence = ev.confidence;
        evidence = ev.evidence;
        observed_value = ev.observed_value;
        expected_range = ev.expected_range;
        baseline_comparison = ev.baseline_comparison;
        attribution = ev.attribution;
        frame_index = ev.frame_index;
        timestamp = ev.timestamp;
        auto_enforce = ev.auto_enforce;
        enforcement_weight = ev.enforcement_weight;
      }
      else inc

  unfoldable pub widened : DetectionEvent W → DetectionEvent W → DetectionEvent W
  widened inc ev =
      let first =
        if ltb_ℤ ev.frame_range_start inc.frame_range_start
        then ev.frame_range_start
        else inc.frame_range_start in
      let last =
        if ltb_ℤ inc.frame_range_end ev.frame_range_end
        then ev.frame_range_end
        else inc.frame_range_end in
      record inc {
        frame_range_start = first;
        frame_range_end = last;
        causal_key = record inc.causal_key { frame_start = first; frame_end = last };
        merged_count = inc.merged_count +ℤ ev.merged_count;
      }

  -- mergeInto
  unfoldable pub merge_into : DetectionEvent W → DetectionEvent W → DetectionEvent W
  merge_into inc ev =
      let whole = widened (stronger inc ev) ev in
      if inc.is_shadow || ev.is_shadow
      then record whole { is_shadow = true; auto_enforce = false; enforcement_weight = lit 0 }
      else whole

  -- One emission of a frame: what it leaves of the deduplicator, and what it closes.
  unfoldable pub fold_into :
      Deduplicator W
      → String
      → DetectionEvent W
      → Option (DetectionEvent W)
      → Deduplicator W × List (DetectionEvent W)
  fold_into d key ev none = (record d { open_incidents = insert key ev d.open_incidents }, [])
  fold_into d key ev (some inc) =
      if belongs d.merge_window inc ev
      then (
        record d {
          open_incidents = insert key (merge_into inc ev) d.open_incidents;
          merged = suc d.merged;
        },
        [],
      )
      else (record d { open_incidents = insert key ev d.open_incidents }, inc ∷ [])

  unfoldable pub fold_emission :
      Deduplicator W → DetectionEvent W → Deduplicator W × List (DetectionEvent W)
  fold_emission d raw =
      let ev = at_least_one raw in
      let key = causal_key_text ev.causal_key in fold_into d key ev (lookup key d.open_incidents)

  unfoldable pub fold_all :
      Deduplicator W → List (DetectionEvent W) → Deduplicator W × List (DetectionEvent W)
  fold_all d [] = (d, [])
  fold_all d (raw ∷ raws) =
      let (d', closed) = fold_emission d raw in
      let (d'', rest) = fold_all d' raws in (d'', closed ++ rest)

  -- Deduplicate
  unfoldable pub deduplicate :
      Deduplicator W → List (DetectionEvent W) → ℤ → Deduplicator W × List (DetectionEvent W)
  deduplicate d raws frame =
      let (d', closed) = fold_all d raws in
      let (left, over) = close_stale d.merge_window frame d'.open_incidents in
      (record d' { open_incidents = left }, sort_incidents (closed ++ over))
