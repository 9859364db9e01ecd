-- ===== src/Pipeline/Run.antt =====
-- internal/pipeline/pipeline.go: the calls that take emissions in over a match, in any order. What the
-- pipeline knows, and the clock, may change from call to call.
use nevr_anticheat.Prelude.{ℕ, List, [], ◌∷◌}
use nevr_anticheat.Prelude.Int.{ℤ}
use nevr_anticheat.Prelude.Float.{Float}
use nevr_anticheat.Model.Event.{DetectionEvent}
use nevr_anticheat.Pipeline.Emission.{Knowledge}
use nevr_anticheat.Pipeline.Emit.{Sink, Report, take_in, flush_tracks, flush_and_emit}

-- The end of a frame, the judgement of open tracks, or the close of all incidents.
pub data Step {ℓ} (W : Type ℓ) : Type ℓ where
  frame_ends : List (List (DetectionEvent W)) → ℤ → Step W
  tracks_end : List (List (DetectionEvent W)) → ℤ → Step W
  incidents_end : Step W

pub record Moment {ℓ} (W : Type ℓ) : Type ℓ where
  pub clock : ℕ → ℤ × ℤ
  pub known : Knowledge W
  pub step : Step W

module _ {ℓ} {W : Type ℓ} ⦃f : Float W⦄ where
  unfoldable pub take_step :
      (ℕ → ℤ × ℤ) → Knowledge W → Sink W × Report W → Step W → Sink W × Report W
  take_step clock k s (frame_ends raws frame) = take_in clock k s raws frame
  take_step clock k s (tracks_end raws last) = flush_tracks clock k s raws last
  take_step clock k s incidents_end = flush_and_emit clock k s

  unfoldable pub run : Sink W × Report W → List (Moment W) → Sink W × Report W
  run s [] = s
  run s (m ∷ ms) = run (take_step m.clock m.known s m.step) ms
