-- ===== src/Examples/Antievasion.antt =====
-- The schedule's and the delay's theorems at a small interval and two actions.
use nevr_anticheat.Prelude.{
  ℕ, ◌+◌, ◌*◌, ◌/◌, ◌≤◌, ◌<◌, ◌≡◌, String, Bool, some, List, [], ◌∷◌, arith,
}
use native.Mathlib.Nat.{mul-le-mul_left}
use nevr_anticheat.Prelude.Dict.{text_eq}
use nevr_anticheat.Prelude.Int.{pos, ◌+ℤ◌, ◌≤ℤ◌}
use nevr_anticheat.Prelude.Float.{Milli, milli_float, lit}
use nevr_anticheat.Enforce.Action.{EnforcementAction, temp_ban}
use nevr_anticheat.Antievasion.Window.{new_window_randomizer}
use nevr_anticheat.Antievasion.Schedule.{evaluated, evaluated_once}
use nevr_anticheat.Antievasion.Delay.{new_delayed_enforcement, ready}
use nevr_anticheat.Antievasion.Release.{
  Call, queues, readies, count, queued, after_calls, released_once,
}

evaluated_once_example : evaluated (new_window_randomizer "m1") "THROW_1" 5 (3 * 5) 5 ≡ 1
evaluated_once_example = evaluated_once (new_window_randomizer "m1") "THROW_1" 5 3 (omega arith)

abbrev action_of : String → EnforcementAction Milli
action_of id = record {
  action_id = id;
  action_player = "p1";
  action_type = temp_ban;
  duration = pos 0;
  issued_by = "engine";
  issued_at = pos 0;
  evidence_ids = [];
  action_matches = [];
  score_at_time = some 0;
}

abbrev calls : List (Call Milli)
calls = queues (action_of "a1") (pos 10) ∷ readies (pos 20) ∷ queues (action_of "a2") (pos 30) ∷ []

abbrev is_first : EnforcementAction Milli → Bool
is_first a = text_eq a.action_id "a1"

Milli-trunc_within :
    (n k : ℕ)
    → k < 1000
    → milli_float.trunc (milli_float.mul (lit n) (milli_float.div (lit k) (lit 1000))) ≤ℤ pos n
Milli-trunc_within n k h = omega (arith, mul-le-mul_left (n * 1000 / 1) small)
  where
    small : k * 1000 / 1 * 1000 / 1000000 ≤ 1000
    small = omega arith

released_once_example :
    ((ready (after_calls (new_delayed_enforcement (pos 5) (pos 50)) calls).0 (pos 80)).0.pending
      ≡ [])
    × (count is_first (after_calls (new_delayed_enforcement (pos 5) (pos 50)) calls).1
          + count is_first
              (ready (after_calls (new_delayed_enforcement (pos 5) (pos 50)) calls).0 (pos 80)).1
        ≡ count is_first (queued calls))
unfolding ◌+ℤ◌
released_once_example =
    released_once Milli-trunc_within is_first (pos 5) (pos 50) calls (pos 80) (omega arith)
