-- ===== src/Desktop/Signals.antt =====
-- cmd/desktop/heartbeat.go: what a history of signals says by itself.
use nevr_anticheat.Prelude.{ℕ, ◌+◌, Bool, true, false, List, [], ◌∷◌, ◌||◌, arith}
use nevr_anticheat.Prelude.Int.{ℤ, ◌≤ℤ◌}
use nevr_anticheat.Desktop.Heartbeat.{Signal, beaten, started, finished, ticked}

-- How many requests a signal starts, and how many it finishes.
abbrev pub starting : Signal → ℕ
starting (started t) = 1
starting (beaten t l) = 0
starting (finished t) = 0
starting (ticked t b) = 0

abbrev pub finishing : Signal → ℕ
finishing (finished t) = 1
finishing (started t) = 0
finishing (beaten t l) = 0
finishing (ticked t b) = 0

abbrev pub starts : List Signal → ℕ
starts [] = 0
starts (sig ∷ sigs) = starting sig + starts sigs

abbrev pub finishes : List Signal → ℕ
finishes [] = 0
finishes (sig ∷ sigs) = finishing sig + finishes sigs

abbrev pub is_beat : Signal → Bool
is_beat (beaten t l) = true
is_beat (started t) = false
is_beat (finished t) = false
is_beat (ticked t b) = false

abbrev pub has_beat : List Signal → Bool
has_beat [] = false
has_beat (sig ∷ sigs) = is_beat sig || has_beat sigs

abbrev pub time_of : Signal → ℤ
time_of (beaten t l) = t
time_of (started t) = t
time_of (finished t) = t
time_of (ticked t b) = t

-- A heartbeat, the start or the end of a request, or a tick that saw background work, is at most `bound`.
abbrev pub LifeBy : ℤ → Signal → Type 0
LifeBy bound (ticked t false) = Unit
LifeBy bound (ticked t true) = t ≤ℤ bound
LifeBy bound (beaten t l) = t ≤ℤ bound
LifeBy bound (started t) = t ≤ℤ bound
LifeBy bound (finished t) = t ≤ℤ bound

abbrev pub LifeUntil : ℤ → List Signal → Type 0
LifeUntil bound [] = Unit
LifeUntil bound (sig ∷ sigs) = LifeBy bound sig × LifeUntil bound sigs

-- The clock never goes back, from `from` on.
abbrev pub InOrder : ℤ → List Signal → Type 0
InOrder from [] = Unit
InOrder from (sig ∷ sigs) = (from ≤ℤ time_of sig) × InOrder (time_of sig) sigs

pub LifeBy-mono : (a b : ℤ) (sig : Signal) → a ≤ℤ b → LifeBy a sig → LifeBy b sig
LifeBy-mono a b (beaten t l) h e = omega arith
LifeBy-mono a b (started t) h e = omega arith
LifeBy-mono a b (finished t) h e = omega arith
LifeBy-mono a b (ticked t true) h e = omega arith
LifeBy-mono a b (ticked t false) h e = tt

pub LifeBy-of_time : (b : ℤ) (sig : Signal) → time_of sig ≤ℤ b → LifeBy b sig
LifeBy-of_time b (beaten t l) e = e
LifeBy-of_time b (started t) e = e
LifeBy-of_time b (finished t) e = e
LifeBy-of_time b (ticked t true) e = e
LifeBy-of_time b (ticked t false) e = tt

pub LifeUntil-mono : (a b : ℤ) (sigs : List Signal) → a ≤ℤ b → LifeUntil a sigs → LifeUntil b sigs
LifeUntil-mono a b [] h e = tt
LifeUntil-mono a b (sig ∷ sigs) h e = (LifeBy-mono a b sig h e.0, LifeUntil-mono a b sigs h e.1)
