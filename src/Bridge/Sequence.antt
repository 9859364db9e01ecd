-- ===== src/Bridge/Sequence.antt =====
-- cmd/bridge/epoch.go: the frames of a match are numbered one by one and never go back in time.
use nevr_anticheat.Prelude.{
  ℕ, suc, ◌≡◌, refl, sym, ◌∙◌, String, false, Option, none, some, List, [], ◌∷◌, inl, inr,
  Bool-cases,
}
use mathlib.Core.Option
use mathlib.Core.Bool.{true≢false}
use nevr_anticheat.Prelude.Int.{ℤ, ◌-ℤ◌}
use nevr_anticheat.Prelude.Dict.{insert}
use nevr_anticheat.Prelude.Float.{Float, IsOrdered, IsNumber, ◌⩽◌}
use nevr_anticheat.Bridge.Epoch.{
  Binding, Frame, Epoch, seconds, stamp, stamp_frame, stamp_frames, start_of, time_of, rebind,
}

module _ {ℓ} {W : Type ℓ} where
  -- The binding, where there is one, carries the index and the timestamp of the frame.
  abbrev IsBound : ℕ → W → Option (Binding W) → Type ℓ
  IsBound idx ts none = Unit
  IsBound idx ts (some b) = (b.bound_index ≡ idx) × (b.bound_timestamp ≡ ts)

  pub record IsStamped (idx : ℕ) (ts : W) (fr : Frame W) : Type ℓ where
    numbered : fr.frame_number ≡ idx
    timed : fr.frame_time ≡ ts
    bound : IsBound idx ts fr.observation
    bound_throw : IsBound idx ts fr.throw_provenance

  abbrev AllStamped : ℕ → W → List (Frame W) → Type ℓ
  AllStamped idx ts [] = Unit
  AllStamped idx ts (fr ∷ frs) = IsStamped idx ts fr × AllStamped idx ts frs

module _ {ℓ} {W : Type ℓ} ⦃f : Float W⦄ where
  -- The samples carry consecutive indices from idx, and timestamps that never fall from last.
  abbrev pub IsSequence : ℕ → W → List (List (Frame W)) → Type ℓ
  IsSequence idx last [] = Unit
  IsSequence idx last (frs ∷ rest) =
      (ts : W) × (last ⩽ ts) × AllStamped idx ts frs × IsSequence (suc idx) ts rest

  -- The samples of a match, by their wall-clock times.
  unfoldable pub stamp_all : Epoch W → List (ℤ × List (Frame W)) → List (List (Frame W))
  stamp_all e [] = []
  stamp_all e ((sample, frs) ∷ samples) =
      let (e', stamped) = stamp e sample frs in stamped ∷ stamp_all e' samples

  bound_lem :
      (idx : ℕ) (ts : W) (o : Option (Binding W)) → IsBound idx ts (Option.map (rebind idx ts) o)
  unfolding rebind
  bound_lem idx ts none = tt
  bound_lem idx ts (some b) = (refl, refl)

  stamp_frames-AllStamped :
      (idx : ℕ) (ts : W) (seen : List (String × W)) (frs : List (Frame W))
      → AllStamped idx ts (stamp_frames idx ts seen frs).1
  unfolding stamp_frames stamp_frame
  stamp_frames-AllStamped idx ts seen [] = tt
  stamp_frames-AllStamped idx ts seen (fr ∷ frs) = (
    record {
      numbered = refl;
      timed = refl;
      bound = bound_lem idx ts fr.observation;
      bound_throw = bound_lem idx ts fr.throw_provenance;
    },
    stamp_frames-AllStamped idx ts (insert fr.frame_player ts seen) frs,
  )

  module _ (o : IsOrdered W) (seconds_number : (d : ℤ) → IsNumber {W = W} (seconds d)) where
    le_of_not_lt : (x y : W) → IsNumber x → IsNumber y → f.lt y x ≡ false → x ⩽ y
    le_of_not_lt x y n m h = elim (Bool-cases (f.le x y)) [
      | inl e ↦ e
      | inr e ↦ absurd (true≢false (sym (o.lt_of_not_le y x m n e) ∙ h))
    ]

    le-time_of : (e : Epoch W) (sample : ℤ) → IsNumber e.last_ts → e.last_ts ⩽ time_of e sample
    unfolding time_of
    le-time_of e sample n =
        let ts = seconds (sample -ℤ start_of e sample) in
        elim (Bool-cases (f.lt ts e.last_ts)) [
          | inl back ↦ rw back n
          | inr on ↦ rw on (le_of_not_lt e.last_ts ts n (seconds_number _) on)
        ]

    -- Whatever the wall clock does, also backwards, where no duration in seconds is NaN: the samples
    -- of an epoch are stamped with consecutive indices and with timestamps that never fall, and all
    -- frames of a sample, with what is bound to them, carry the sample's index and timestamp.
    pub stamp_all-IsSequence :
        (e : Epoch W) (samples : List (ℤ × List (Frame W)))
        → IsNumber e.last_ts
        → IsSequence e.next_index e.last_ts (stamp_all e samples)
    unfolding stamp_all stamp
    stamp_all-IsSequence e [] n = tt
    stamp_all-IsSequence e ((sample, frs) ∷ samples) n =
        let up = le-time_of e sample n in
        (
          time_of e sample,
          up,
          stamp_frames-AllStamped e.next_index (time_of e sample) e.player_ts frs,
          stamp_all-IsSequence (stamp e sample frs).0 samples (o.number_of_le _ _ up).1,
        )
