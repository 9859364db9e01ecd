-- ===== src/Antievasion/Schedule.antt =====
-- internal/antievasion/antievasion.go: exactly one frame of each block is evaluated.
use nevr_anticheat.Prelude.{
  ℕ, zero, suc, ◌+◌, ◌*◌, ◌/◌, ◌%◌, ◌<◌, ◌≡◌, ap, ◌∙◌, String, ◌==◌, if◌then◌else◌, ltb, leb, ◌&&◌,
  arith,
}
use nevr_anticheat.Prelude.Int.{pos}
use nevr_anticheat.Antievasion.Window.{WindowRandomizer, pick_of, should_evaluate}
use native.Mathlib.Nat.{mod-lt, mod-add-div', mul-add-div_right, div-eq_of_lt}

-- How many of `len` frames from `from` on are evaluated.
abbrev pub evaluated : WindowRandomizer → String → ℕ → ℕ → ℕ → ℕ
evaluated wr detector_id interval from zero = 0
evaluated wr detector_id interval from (suc len) =
    (if should_evaluate wr detector_id (pos from) (pos interval) then 1 else 0)
    + evaluated wr detector_id interval (suc from) len

div_in_block : (n b k : ℕ) → k < n → (b * n + k) / n ≡ b
div_in_block n b k h = omega (arith, mul-add-div_right {m = n} (omega arith) b k, div-eq_of_lt h)

mod_in_block : (n b k : ℕ) → k < n → (b * n + k) % n ≡ k
mod_in_block n b k h =
    omega (arith, mod-add-div' (b * n + k) n, ap (λ q. q * n) (div_in_block n b k h))

should_evaluate-in_block :
    (wr : WindowRandomizer) (detector_id : String) (n b k : ℕ)
    → 1 < n
    → k < n
    → should_evaluate wr detector_id (pos (b * n + k)) (pos n) ≡ (k == pick_of wr detector_id n b)
unfolding should_evaluate
should_evaluate-in_block wr detector_id n b k h lt =
    ground (arith, div_in_block n b k lt, mod_in_block n b k lt)

evaluated-in_block :
    (len : ℕ) (wr : WindowRandomizer) (detector_id : String) (n b k : ℕ)
    → 1 < n
    → k + len ≡ n
    → evaluated wr detector_id n (b * n + k) len
      ≡ (if leb k (pick_of wr detector_id n b) && ltb (pick_of wr detector_id n b) n then 1 else 0)
evaluated-in_block zero wr detector_id n b k h e = ground arith
evaluated-in_block (suc len) wr detector_id n b k h e = ground (
  arith,
  should_evaluate-in_block wr detector_id n b k h (omega arith),
  ap (λ from. evaluated wr detector_id n from len) (the_next (b * n) k),
  evaluated-in_block len wr detector_id n b (suc k) h (omega arith),
)
  where
    the_next : (a j : ℕ) → suc (a + j) ≡ a + suc j
    the_next a j = omega arith

pick_of_lt :
    (wr : WindowRandomizer) (detector_id : String) (n b : ℕ)
    → 0 < n
    → pick_of wr detector_id n b < n
unfolding pick_of
pick_of_lt wr detector_id n b h = mod-lt _ h

-- With an interval above 1, exactly one frame of every block of so many consecutive frames is
-- evaluated, whatever the seed and the detector.
pub evaluated_once :
    (wr : WindowRandomizer) (detector_id : String) (interval block : ℕ)
    → 1 < interval
    → evaluated wr detector_id interval (block * interval) interval ≡ 1
evaluated_once wr detector_id n b h =
    ap (λ from. evaluated wr detector_id n from n) (start (b * n))
    ∙ evaluated-in_block n wr detector_id n b 0 h (omega arith)
    ∙ ground (arith, pick_of_lt wr detector_id n b (omega arith))
  where
    start : (a : ℕ) → a ≡ a + 0
    start a = omega arith
