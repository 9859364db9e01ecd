-- ===== src/Scoring/Silent.antt =====
-- What an event that is not scored leaves alone.
use nevr_anticheat.Prelude.{
  ◌≡◌, refl, ap, String, true, false, ◌⊎◌, inl, inr, arith, Bool-cases, if◌then◌else◌,
}
use nevr_anticheat.Prelude.Int.{ℤ}
use nevr_anticheat.Prelude.Dict.{text_eq, text_eq_sound, insert, lookup-insert}
use nevr_anticheat.Prelude.Float.{Float}
use nevr_anticheat.Model.Event.{DetectionEvent}
use nevr_anticheat.Model.Score.{SuspicionScore}
use nevr_anticheat.Scoring.Category.{is_meta_detector}
use nevr_anticheat.Scoring.Scorer.{Scorer, fresh_score, get_or_create, put_player}
use nevr_anticheat.Scoring.Ingest.{refused, ingest, outcome_of, conclude}

module _ {ℓ} {W : Type ℓ} ⦃f : Float W⦄ where
  -- The record with the frame noted for the event's detector, if the record is that of its player.
  abbrev pub noted : DetectionEvent W → String → SuspicionScore W → SuspicionScore W
  noted e player sc =
      if text_eq e.player_id player
      then record sc { last_event_frames = insert e.detector_id e.frame_index sc.last_event_frames }
      else sc

  -- Storing a record shows it for its player, and what was there for the others.
  get_or_create-put_player :
      (s : Scorer W) (player other : String) (sc : SuspicionScore W)
      → get_or_create (put_player s player sc) other
        ≡ (if text_eq player other then sc else get_or_create s other)
  unfolding get_or_create put_player fresh_score
  get_or_create-put_player s player other sc =
      ground (arith, lookup-insert player other sc s.players)

  put_same :
      (s : Scorer W) (player other : String)
      → get_or_create (put_player s player (get_or_create s player)) other ≡ get_or_create s other
  put_same s player other = rw get_or_create-put_player (split (Bool-cases (text_eq player other)))
    where
      split :
          (text_eq player other ≡ true) ⊎ (text_eq player other ≡ false)
          → (if text_eq player other then get_or_create s player else get_or_create s other)
            ≡ get_or_create s other
      split (inl e) = rw e (ap (get_or_create s) (text_eq_sound player other e))
      split (inr e) = rw e

  -- A shadow event, and an event of a meta-detector, is never accepted, and every player's record is
  -- then exactly what it was.
  pub shadow_silent :
      (now snapshot : ℤ) (s : Scorer W) (e : DetectionEvent W) (player : String)
      → (e.is_shadow ≡ true) ⊎ (is_meta_detector e.detector_id ≡ true)
      → ((ingest now snapshot s e).2 ≡ false)
        × (get_or_create (ingest now snapshot s e).0 player ≡ get_or_create s player)
  unfolding ingest
  shadow_silent now snapshot s e player h =
      rw refuses (unfold conclude in (refl, put_same s e.player_id player))
    where
      refuses : outcome_of s (get_or_create s e.player_id) e ≡ refused
      refuses = unfold outcome_of in ground arith
