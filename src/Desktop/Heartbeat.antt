-- ===== src/Desktop/Heartbeat.antt =====
-- cmd/desktop/heartbeat.go: the watchdog that quits the application once its window has gone quiet.
-- Each method reads the clock once, so its time is an argument; the page, the requests and the ticker
-- are a sequence of signals in the order in which they take the lock.
use nevr_anticheat.Prelude.{
  ℕ, suc, ◌-◌, String, Bool, true, false, not, ◌||◌, List, [], ◌∷◌, ◌++◌, if◌then◌else◌, ltb,
}
use nevr_anticheat.Prelude.Int.{ℤ, pos, ◌-ℤ◌, leb_ℤ}
use nevr_anticheat.Prelude.Dict.{text_eq}
use nevr_anticheat.Prelude.Text.{codes, has_suffix}

pub record HeartbeatTimings : Type 0 where
  pub silence : ℤ
  pub leaving_silence : ℤ
  pub poll : ℤ

abbrev pub default_heartbeat_timings : HeartbeatTimings
default_heartbeat_timings = record {
  silence = pos 90_000_000_000;
  leaving_silence = pos 8_000_000_000;
  poll = pos 1_000_000_000;
}

pub record HeartbeatWatchdog : Type 0 where
  pub timings : HeartbeatTimings
  pub disabled : Bool
  pub seen : Bool
  pub last : ℤ
  pub leaving : Bool
  pub inflight : ℕ

unfoldable pub new_heartbeat_watchdog : HeartbeatTimings → HeartbeatWatchdog
new_heartbeat_watchdog timings = record {
  timings = timings;
  disabled = false;
  seen = false;
  last = pos 0;
  leaving = false;
  inflight = 0;
}

unfoldable pub beat : HeartbeatWatchdog → ℤ → Bool → HeartbeatWatchdog
beat w now leaving = record w { seen = true; last = now; leaving = leaving }

unfoldable pub request_started : HeartbeatWatchdog → ℤ → HeartbeatWatchdog
request_started w now = record w { inflight = suc w.inflight; last = now; leaving = false }

unfoldable pub request_finished : HeartbeatWatchdog → ℤ → HeartbeatWatchdog
request_finished w now = record w {
  inflight = if ltb 0 w.inflight then w.inflight - 1 else w.inflight;
  last = now;
}

unfoldable pub limit_of : HeartbeatWatchdog → ℤ
limit_of w = if w.leaving then w.timings.leaving_silence else w.timings.silence

unfoldable pub is_working : HeartbeatWatchdog → Bool → Bool
is_working w busy = busy || ltb 0 w.inflight

-- shouldExit: the watchdog, and whether to exit.
unfoldable pub should_exit : HeartbeatWatchdog → ℤ → Bool → HeartbeatWatchdog × Bool
should_exit w now busy =
    if w.disabled || not w.seen
    then (w, false)
    else if is_working w busy
    then (record w { last = now }, false)
    else (w, leb_ℤ (limit_of w) (now -ℤ w.last))

-- What reaches the watchdog, with the time of the clock.
pub data Signal : Type 0 where
  beaten : ℤ → Bool → Signal
  started : ℤ → Signal
  finished : ℤ → Signal
  -- A tick, and whether there is work in the background.
  ticked : ℤ → Bool → Signal

unfoldable pub handle : HeartbeatWatchdog → Signal → HeartbeatWatchdog × Bool
handle w (beaten now leaving) = (beat w now leaving, false)
handle w (started now) = (request_started w now, false)
handle w (finished now) = (request_finished w now, false)
handle w (ticked now busy) = should_exit w now busy

-- run: the signals until it exits, or until `done` is closed at their end. The watchdog, and whether
-- exit was called.
unfoldable pub run : HeartbeatWatchdog → List Signal → HeartbeatWatchdog × Bool
run w [] = (w, false)
run w (sig ∷ sigs) =
    let (w', exits) = handle w sig in let rest = run w' sigs in if exits then (w', true) else rest

-- track: the signals of a request to a path, with those of the handler's own work in between.
unfoldable pub track : String → ℤ → ℤ → List Signal → List Signal
track path at until during =
    if has_suffix (codes path) (codes "/api/heartbeat")
    then during
    else started at ∷ (during ++ (finished until ∷ []))

-- handleHeartbeat, by the value of the parameter `leaving`.
unfoldable pub handle_heartbeat : HeartbeatWatchdog → ℤ → String → HeartbeatWatchdog
handle_heartbeat w now value = beat w now (text_eq value "1")

-- What the server knows of its background work.
pub record Background : Type 0 where
  pub analysis_active : Bool
  pub update_in_progress : Bool
  pub recovering : Bool
  pub watch_status : String
  pub analyze_locked : Bool

unfoldable pub background_work_active : Background → Bool
background_work_active b =
    (b.analysis_active || b.update_in_progress)
    || ((b.recovering || text_eq b.watch_status "scanning") || b.analyze_locked)
