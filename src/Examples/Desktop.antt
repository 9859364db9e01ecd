-- ===== src/Examples/Desktop.antt =====
-- The desktop's theorems: a window that is closed while a request runs, and a gate with two handlers.
use nevr_anticheat.Prelude.{ℕ, ◌≤◌, ◌*◌, ◌≡◌, refl, true, false, List, [], ◌∷◌, arith}
use nevr_anticheat.Prelude.Int.{ℤ, pos, ◌+ℤ◌, ◌-ℤ◌}
use nevr_anticheat.Desktop.Heartbeat.{
  HeartbeatWatchdog, Signal, beaten, started, finished, ticked, default_heartbeat_timings,
  new_heartbeat_watchdog, run, should_exit, handle, beat, request_started, is_working,
  request_finished, limit_of,
}
use nevr_anticheat.Desktop.Signals.{has_beat, starts, finishes, LifeUntil}
use nevr_anticheat.Desktop.Quiet.{should_exit-run}
use nevr_anticheat.Desktop.Alarm.{ticks, run-ticks}
use nevr_anticheat.Desktop.Shutdown.{
  RequestGate, new_gate, enter, leave, wait, stop, closed, stopped_with,
}
use nevr_anticheat.Desktop.Drain.{
  arrives, returns, stops, waits, Steps, rests, arrived, returned, stopped, waited, stop_drains,
}

abbrev sec : ℕ → ℤ
sec n = pos (n * 1_000_000_000)

abbrev closed_window : List Signal
closed_window =
    beaten (sec 1) false
    ∷ started (sec 2)
    ∷ beaten (sec 3) true
    ∷ ticked (sec 20) false
    ∷ finished (sec 21)
    ∷ ticked (sec 22) false
    ∷ []

abbrev watched : HeartbeatWatchdog
watched = record {
  timings = default_heartbeat_timings;
  disabled = false;
  seen = true;
  last = sec 21;
  leaving = true;
  inflight = 0;
}

should_exit-run_example :
    (has_beat closed_window ≡ true)
    × (starts closed_window ≤ finishes closed_window)
    × (false ≡ false)
    × LifeUntil (sec 29 -ℤ pos 8_000_000_000) closed_window
unfolding run should_exit handle beat request_started new_heartbeat_watchdog is_working
    request_finished limit_of ◌-ℤ◌
should_exit-run_example =
    should_exit-run default_heartbeat_timings closed_window (sec 29) false (omega arith)
      (omega arith) refl refl

run-ticks_example : (run watched (ticks 8 (sec 22) 1_000_000_000)).1 ≡ true
unfolding ◌+ℤ◌ limit_of
run-ticks_example = run-ticks 7 watched (sec 22) 1_000_000_000 refl refl refl (omega arith)

abbrev two_running : RequestGate
two_running = (enter (enter new_gate).0).0

abbrev one_left : RequestGate
one_left = leave (stop two_running)

abbrev drained : RequestGate
drained = wait (leave one_left)

begun : Steps two_running new_gate (arrives ∷ arrives ∷ [])
begun = arrived (arrived rests)

ended : Steps (leave one_left) (stop two_running) (returns ∷ arrives ∷ returns ∷ [])
unfolding enter stop leave stopped_with
ended = returned (omega arith) (arrived (returned (omega arith) rests))

whole : Steps drained new_gate (arrives ∷ arrives ∷ stops ∷ returns ∷ returns ∷ waits ∷ [])
unfolding enter stop leave stopped_with
whole = arrived (arrived (stopped (returned (omega arith) (returned (omega arith) (waited rests)))))

stop_drains_example : ((leave one_left).work ≡ 0) × ((wait (leave one_left)).done ≡ closed)
unfolding enter
stop_drains_example = stop_drains begun ended refl
