-- ===== src/Antievasion/Window.antt =====
-- internal/antievasion/antievasion.go: which frames a detector evaluates. A uint64 is a natural number
-- below 2 ^ 64, and the wrap-around of its operations is written out.
use Prim.Native.Nat.{bit_xor}
use nevr_anticheat.Prelude.{
  ℕ, ◌+◌, ◌*◌, ◌/◌, ◌%◌, ◌^◌, String, Bool, true, ◌==◌, ◌||◌, List, [], ◌∷◌, if◌then◌else◌,
}
use nevr_anticheat.Prelude.Int.{ℤ, pos, pos_part, leb_ℤ, ltb_ℤ}
use nevr_anticheat.Prelude.Text.{bytes}

unfoldable pub fnv_from : ℕ → List ℕ → ℕ
fnv_from h [] = h
fnv_from h (c ∷ cs) = fnv_from (bit_xor h c * 1_099_511_628_211 % 2 ^ 64) cs

unfoldable pub fnv64 : List ℕ → ℕ
fnv64 = fnv_from 14_695_981_039_346_656_037

-- `(x ^ (x >> by)) * factor`
unfoldable pub stir : ℕ → ℕ → ℕ → ℕ
stir x by factor = bit_xor x (x / 2 ^ by) * factor % 2 ^ 64

unfoldable pub mix64 : ℕ → ℕ
mix64 x =
    let added = (x + 0x9E3779B97F4A7C15) % 2 ^ 64 in
    let once = stir added 30 0xBF58476D1CE4E5B9 in
    let twice = stir once 27 0x94D049BB133111EB in bit_xor twice (twice / 2 ^ 31)

pub record WindowRandomizer : Type 0 where
  pub seed : ℕ

unfoldable pub new_window_randomizer_with_secret : String → List ℕ → WindowRandomizer
new_window_randomizer_with_secret match_id secret = record {
  seed = mix64 (bit_xor (fnv64 secret) (fnv64 (bytes match_id)));
}

unfoldable pub new_window_randomizer : String → WindowRandomizer
new_window_randomizer match_id = new_window_randomizer_with_secret match_id []

-- The frame of a block that is evaluated.
unfoldable pub pick_of : WindowRandomizer → String → ℕ → ℕ → ℕ
pick_of wr detector_id interval block =
    mix64 (
      bit_xor wr.seed
        (mix64 (bit_xor (fnv64 (bytes detector_id)) (block * 0x9E3779B97F4A7C15 % 2 ^ 64))))
    % interval

unfoldable pub should_evaluate : WindowRandomizer → String → ℤ → ℤ → Bool
should_evaluate wr detector_id frame_idx base_interval =
    if leb_ℤ base_interval (pos 1) || ltb_ℤ frame_idx (pos 0)
    then true
    else pos_part frame_idx % pos_part base_interval
      == pick_of wr detector_id (pos_part base_interval)
          (pos_part frame_idx / pos_part base_interval)
