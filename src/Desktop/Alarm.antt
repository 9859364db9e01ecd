-- ===== src/Desktop/Alarm.antt =====
-- cmd/desktop/heartbeat.go: silence ends the application.
use nevr_anticheat.Prelude.{
  ℕ, zero, suc, ◌*◌, ◌≡◌, refl, true, false, List, [], ◌∷◌, inl, inr, Bool-cases, arith,
}
use nevr_anticheat.Prelude.Int.{ℤ, pos, ◌+ℤ◌, ◌-ℤ◌, ◌≤ℤ◌, leb_ℤ, +ℤ_parts, -ℤ_parts, int_laws}
use nevr_anticheat.Desktop.Heartbeat.{
  HeartbeatWatchdog, Signal, ticked, should_exit, is_working, limit_of, handle, run,
}

-- The watchdog polls every `p` nanoseconds from `t` on, and nothing else happens.
abbrev pub ticks : ℕ → ℤ → ℕ → List Signal
ticks zero t p = []
ticks (suc n) t p = ticked t false ∷ ticks n (t +ℤ pos p) p

late_test :
    (w : HeartbeatWatchdog) (t : ℤ) (p : ℕ)
    → limit_of w +ℤ w.last ≤ℤ t +ℤ pos (0 * p)
    → leb_ℤ (limit_of w) (t -ℤ w.last) ≡ true
late_test w t p h =
    ground (arith, h, -ℤ_parts t w.last, +ℤ_parts (limit_of w) w.last, +ℤ_parts t (pos (0 * p)))

idle_tick :
    (w : HeartbeatWatchdog) (t : ℤ)
    → w.disabled ≡ false
    → w.seen ≡ true
    → w.inflight ≡ 0
    → handle w (ticked t false) ≡ (w, leb_ℤ (limit_of w) (t -ℤ w.last))
unfolding handle should_exit is_working
idle_tick w t d s i = ground arith

-- On a watchdog that is not disabled, once a heartbeat has come and no request is open, silence ends
-- the run: if only idle ticks follow, every `p` nanoseconds from `t` on, one of the first n + 1 exits
-- where the last of them comes no earlier than the limit after the last sign of life.
pub run-ticks :
    (n : ℕ) (w : HeartbeatWatchdog) (t : ℤ) (p : ℕ)
    → w.disabled ≡ false
    → w.seen ≡ true
    → w.inflight ≡ 0
    → limit_of w +ℤ w.last ≤ℤ t +ℤ pos (n * p)
    → (run w (ticks (suc n) t p)).1 ≡ true
unfolding run
run-ticks zero w t p d s i h =
    let late : leb_ℤ (limit_of w) (t -ℤ w.last) ≡ true = late_test w t p h in
    rw (idle_tick w t d s i, late) refl
run-ticks (suc n) w t p d s i h =
    rw (idle_tick w t d s i) (elim (Bool-cases (leb_ℤ (limit_of w) (t -ℤ w.last))) [
      | inl late ↦ rw late refl
      | inr early ↦ rw early (run-ticks n w (t +ℤ pos p) p d s i (omega int_laws))
    ])
