-- ===== src/Scoring/Gates.antt =====
-- internal/scoring/scorer.go: what keeps an event from being scored.
use nevr_anticheat.Prelude.{
  ◌%◌, String, Bool, false, not, ◌&&◌, Option, none, some, List, [], ◌++◌, if◌then◌else◌,
}
use nevr_anticheat.Prelude.Int.{ℤ, pos, sub_ℕ, ◌+ℤ◌, ◌-ℤ◌, ltb_ℤ, leb_ℤ}
use nevr_anticheat.Prelude.Dict.{text_eq, lookup, count_at}
use nevr_anticheat.Prelude.Text.{bytes, contains_text}
use nevr_anticheat.Prelude.Float.{Float}
use nevr_anticheat.Model.Event.{DetectionEvent}
use nevr_anticheat.Model.Score.{SuspicionScore}
use nevr_anticheat.Scoring.Category.{hash_string}
use nevr_anticheat.Scoring.Scorer.{Scorer}

abbrev pub ids_of : Option (List String) → List String
ids_of none = []
ids_of (some ids) = ids

abbrev within : ℤ → ℤ → Option ℤ → Bool
within frame limit none = false
within frame limit (some last) = ltb_ℤ (frame -ℤ last) limit

module _ {ℓ} {W : Type ℓ} ⦃f : Float W⦄ where
  -- int(hashString(player + detector) % 101) - 50
  unfoldable pub cooldown_jitter : DetectionEvent W → ℤ
  cooldown_jitter e = sub_ℕ (hash_string (bytes e.player_id ++ bytes e.detector_id) % 101) 50

  unfoldable pub effective_cooldown : Scorer W → DetectionEvent W → ℤ
  effective_cooldown s e =
      let c = s.config.cooldown_frames +ℤ cooldown_jitter e in
      if ltb_ℤ c (pos 100) then pos 100 else c

  unfoldable pub is_cooling : Scorer W → SuspicionScore W → DetectionEvent W → Bool
  is_cooling s sc e =
      within e.frame_index (effective_cooldown s e) (lookup e.detector_id sc.last_event_frames)

  unfoldable pub is_seen : Scorer W → DetectionEvent W → Bool
  is_seen s e =
      not (text_eq e.event_id "")
      && contains_text e.event_id (ids_of (lookup e.player_id s.seen_events))

  unfoldable pub is_capped : Scorer W → SuspicionScore W → DetectionEvent W → Bool
  is_capped s sc e =
      ltb_ℤ (pos 0) s.config.max_contrib_per_detector
      && leb_ℤ s.config.max_contrib_per_detector (pos (count_at e.detector_id sc.detector_counts))
