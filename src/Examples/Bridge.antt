-- ===== src/Examples/Bridge.antt =====
-- The bridge's theorems at three samples, one of them from a clock that went back.
use nevr_anticheat.Prelude.{◌≡◌, refl, String, some, none, List, [], ◌∷◌, arith}
use nevr_anticheat.Prelude.Int.{ℤ, pos, negsuc, ◌-ℤ◌, ◌≤ℤ◌}
use nevr_anticheat.Prelude.Dict.{lookup}
use nevr_anticheat.Prelude.Float.{Milli, milli_float, Milli-IsOrdered, IsNumber, lit}
use nevr_anticheat.Bridge.Epoch.{Frame, Epoch, new_epoch, seconds}
use nevr_anticheat.Bridge.Sequence.{IsSequence, stamp_all, stamp_all-IsSequence}

abbrev frame_of : String → Frame Milli
frame_of player = record {
  frame_player = player;
  frame_number = 0;
  frame_time = lit 0;
  delta_time = lit 0;
  observation = none;
  throw_provenance = none;
}

abbrev samples : List (ℤ × List (Frame Milli))
samples =
    (pos 1_000_000_000, frame_of "p1" ∷ frame_of "p2" ∷ [])
    ∷ (pos 3_500_000_000, frame_of "p1" ∷ [])
    ∷ (pos 2_000_000_000, frame_of "p1" ∷ [])
    ∷ []

seconds-IsNumber : (d : ℤ) → IsNumber {W = Milli} (seconds d)
unfolding seconds
seconds-IsNumber (pos n) = ground arith
seconds-IsNumber (negsuc n) = ground arith

starts_at_zero : IsNumber (new_epoch {W = Milli} (pos 0)).last_ts
unfolding new_epoch
starts_at_zero = refl

stamp_all-IsSequence_example :
    IsSequence
      (new_epoch {W = Milli} (pos 0)).next_index
      (new_epoch {W = Milli} (pos 0)).last_ts
      (stamp_all (new_epoch (pos 0)) samples)
stamp_all-IsSequence_example =
    stamp_all-IsSequence Milli-IsOrdered seconds-IsNumber (new_epoch (pos 0)) samples starts_at_zero

abbrev registry : List (String × Epoch Milli)
registry = ("m1", new_epoch (pos 0)) ∷ []

registered : lookup "m1" registry ≡ some (new_epoch (pos 0))
unfolding lookup
registered = refl

within_ttl : pos 100 -ℤ pos 50 ≤ℤ pos 60
unfolding ◌-ℤ◌
within_ttl = ground arith
