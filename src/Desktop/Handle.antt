-- ===== src/Desktop/Handle.antt =====
-- cmd/desktop/heartbeat.go: what one signal does to the watchdog.
use nevr_anticheat.Prelude.{◌+◌, ◌≤◌, ◌≡◌, refl, Bool, true, false, ◌||◌, arith}
use nevr_anticheat.Prelude.Int.{ℤ, ◌-ℤ◌, ◌≤ℤ◌}
use nevr_anticheat.Desktop.Heartbeat.{
  HeartbeatWatchdog, Signal, beaten, started, finished, ticked, beat, request_started,
  request_finished, should_exit, is_working, limit_of, handle,
}
use nevr_anticheat.Desktop.Signals.{starting, finishing, is_beat, time_of, LifeBy}

-- What one signal does to the counter of requests, to `disabled` and to `seen`.
pub handle-inflight :
    (w : HeartbeatWatchdog) (sig : Signal)
    → starting sig + w.inflight ≤ (handle w sig).0.inflight + finishing sig
unfolding handle request_started request_finished should_exit beat
handle-inflight w (beaten t l) = omega arith
handle-inflight w (started t) = omega arith
handle-inflight w (finished t) = ground arith
handle-inflight w (ticked t b) = ground arith

pub handle-disabled :
    (w : HeartbeatWatchdog) (sig : Signal) → (handle w sig).0.disabled ≡ w.disabled
unfolding handle request_started request_finished should_exit beat
handle-disabled w (beaten t l) = refl
handle-disabled w (started t) = refl
handle-disabled w (finished t) = refl
handle-disabled w (ticked t b) = ground arith

pub handle-seen :
    (w : HeartbeatWatchdog) (sig : Signal) → (handle w sig).0.seen ≡ (is_beat sig || w.seen)
unfolding handle request_started request_finished should_exit beat
handle-seen w (beaten t l) = refl
handle-seen w (started t) = refl
handle-seen w (finished t) = refl
handle-seen w (ticked t b) = ground arith

-- The time of the last sign of life rises, but not past the clock.
pub handle-last :
    (w : HeartbeatWatchdog) (sig : Signal)
    → w.last ≤ℤ time_of sig
    → (w.last ≤ℤ (handle w sig).0.last) × ((handle w sig).0.last ≤ℤ time_of sig)
unfolding handle request_started request_finished should_exit beat
handle-last w (beaten t l) h = omega arith
handle-last w (started t) h = omega arith
handle-last w (finished t) h = omega arith
handle-last w (ticked t b) h = ground arith

pub handle-LifeBy :
    (w : HeartbeatWatchdog) (sig : Signal)
    → w.disabled ≡ false
    → (handle w sig).0.seen ≡ true
    → LifeBy (handle w sig).0.last sig
unfolding is_working handle request_started request_finished should_exit beat
handle-LifeBy w (beaten t l) d e = omega arith
handle-LifeBy w (started t) d e = omega arith
handle-LifeBy w (finished t) d e = omega arith
handle-LifeBy w (ticked t true) d e = ground arith
handle-LifeBy w (ticked t false) d e = tt

pub first_beat :
    (w : HeartbeatWatchdog) (sig : Signal)
    → w.seen ≡ false
    → (handle w sig).0.seen ≡ true
    → time_of sig ≤ℤ (handle w sig).0.last
unfolding handle request_started request_finished should_exit beat
first_beat w (beaten t l) u e = omega arith
first_beat w (started t) u e = omega arith
first_beat w (finished t) u e = omega arith
first_beat w (ticked t b) u e = ground arith

pub exit_cases :
    (w : HeartbeatWatchdog) (now : ℤ) (busy : Bool)
    → (should_exit w now busy).1 ≡ true
    → (w.seen ≡ true) × (w.inflight ≡ 0) × (busy ≡ false) × (limit_of w ≤ℤ now -ℤ w.last)
unfolding should_exit is_working
exit_cases w now busy e = ground arith

pub handle-timings : (w : HeartbeatWatchdog) (sig : Signal) → (handle w sig).0.timings ≡ w.timings
unfolding handle request_started request_finished should_exit beat
handle-timings w (beaten t l) = refl
handle-timings w (started t) = refl
handle-timings w (finished t) = refl
handle-timings w (ticked t b) = ground arith
