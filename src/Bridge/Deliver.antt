-- ===== src/Bridge/Deliver.antt =====
-- cmd/bridge/sender.go: the bounded queue, the outcomes of a delivery and the monitor of the link.
use nevr_anticheat.Prelude.{
  ℕ, suc, ◌+◌, String, Bool, true, false, ◌&&◌, [], ◌∷◌, ◌++◌, length, if◌then◌else◌, ltb,
}
use nevr_anticheat.Prelude.Int.{ℤ, ◌-ℤ◌, leb_ℤ, ltb_ℤ}
use nevr_anticheat.Bridge.Sender.{OutboundMsg, BridgeStats, WsSender, remove_inflight, drop_conn}
use nevr_anticheat.Bridge.Dial.{DialResult, dialed, rejected, failed}

abbrev has_room : WsSender → Bool
has_room s = ltb (length s.queue) s.capacity

unfoldable pub queued : WsSender → OutboundMsg → WsSender
queued s msg = record s { queue = s.queue ++ (msg ∷ []); pending = suc s.pending }

-- enqueueBatch: the sender, and whether there was room.
unfoldable pub enqueue_batch : WsSender → ℕ → String → WsSender × Bool
enqueue_batch s frames match_id =
    if has_room s
    then (queued s (record { frames = frames; control = false; match_id = match_id }), true)
    else (
      record s {
        stats = record s.stats {
          total_frames_dropped = s.stats.total_frames_dropped + frames;
          total_batches_dropped = suc s.stats.total_batches_dropped;
        };
      },
      false,
    )

-- enqueueControl, at the end of its wait.
unfoldable pub enqueue_control : WsSender → String → WsSender × Bool
enqueue_control s match_id =
    if has_room s
    then (queued s (record { frames = 0; control = true; match_id = match_id }), true)
    else (
      record s { stats = record s.stats { control_dropped = suc s.stats.control_dropped } },
      false,
    )

-- A message that was not written.
abbrev pub count_unsent : BridgeStats → OutboundMsg → BridgeStats
count_unsent st msg = record st {
  total_send_failures = suc st.total_send_failures;
  total_frames_dropped = st.total_frames_dropped + msg.frames;
  control_dropped = if msg.control then suc st.control_dropped else st.control_dropped;
}

-- onDialFailure, less its wait and its log lines; the first rejection is the one that is logged.
unfoldable pub on_dial_failure : WsSender → OutboundMsg → DialResult → WsSender
on_dial_failure s msg rejected = record s {
  stats = count_unsent s.stats msg;
  dial_failures = suc s.dial_failures;
  auth_fail_logged = true;
}
on_dial_failure s msg failed = record s {
  stats = count_unsent s.stats msg;
  dial_failures = suc s.dial_failures;
}
on_dial_failure s msg dialed = s

-- deliver, after a write that failed: what it takes back and counts, and the drop of the connection.
unfoldable pub take_back : WsSender → OutboundMsg → WsSender
take_back s msg =
    let back = remove_inflight s msg.frames in record back { stats = count_unsent back.stats msg }

unfoldable pub write_failed : WsSender → OutboundMsg → ℕ → WsSender
write_failed s msg of_gen = drop_conn (take_back s msg) of_gen

-- deliver, after a write that succeeded.
unfoldable pub write_done : WsSender → OutboundMsg → ℤ → WsSender
write_done s msg now =
    if msg.control
    then record s {
      last_send = now;
      stats = record s.stats { control_sent = suc s.stats.control_sent };
    }
    else record s {
      last_send = now;
      stats = record s.stats {
        total_batches_sent = suc s.stats.total_batches_sent;
        total_frames_sent = s.stats.total_frames_sent + msg.frames;
      };
    }

-- writePing
unfoldable pub write_ping : WsSender → ℤ → Bool → WsSender
write_ping s now sent = if sent then record s { last_send = now } else drop_conn s s.gen

abbrev pub count_timeout : WsSender → WsSender
count_timeout s = record s { stats = record s.stats { ack_timeouts = suc s.stats.ack_timeouts } }

-- monitorTick
unfoldable pub monitor_tick : WsSender → ℤ → Bool → WsSender
monitor_tick s now sent =
    if s.linked
    then if ltb 0 s.inflight && ltb_ℤ s.ack_timeout (now -ℤ s.inflight_since)
      then count_timeout (drop_conn s s.gen)
      else if leb_ℤ s.keepalive (now -ℤ s.last_send)
      then write_ping s now sent
      else s
    else s
