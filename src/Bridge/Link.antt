-- ===== src/Bridge/Link.antt =====
-- cmd/bridge/sender.go: the writer's goroutine between its critical sections, and what may happen while it
-- dials or writes. The monitor runs on the writer's goroutine, so only when no message is being delivered.
use nevr_anticheat.Prelude.{ℕ, ◌-◌, String, Bool, true, false, List, [], ◌∷◌, if◌then◌else◌}
use nevr_anticheat.Prelude.Int.{ℤ}
use nevr_anticheat.Bridge.Sender.{
  OutboundMsg, WsSender, ControlMessage, add_inflight, adopt, drop_conn, handle_control,
}
use nevr_anticheat.Bridge.Dial.{Hello, DialResult, dialed, rejected, failed, dial}
use nevr_anticheat.Bridge.Deliver.{
  enqueue_batch, enqueue_control, on_dial_failure, take_back, write_done, monitor_tick,
}

-- Where deliver is: before the first look at the connection, with no connection, with a new one that
-- is not adopted yet, before the second look, with a connection and its generation, in the write, and
-- before the drop of the connection whose write failed.
pub data Writer : Type 0 where
  idle : Writer
  looking : OutboundMsg → Writer
  dialing : OutboundMsg → Writer
  adopting : OutboundMsg → Writer
  adopted : OutboundMsg → Writer
  holding : OutboundMsg → ℕ → Writer
  writing : OutboundMsg → ℕ → Writer
  dropping : ℕ → Writer

pub record Link : Type 0 where
  pub sender : WsSender
  pub writer : Writer

-- `defer s.pending.Add(-1)`
unfoldable pub finish : WsSender → Link
finish s = record { sender = record s { pending = s.pending - 1 }; writer = idle }

abbrev pub at : WsSender → Writer → Link
at s w = record { sender = s; writer = w }

-- writerLoop takes a message.
unfoldable pub take_message : WsSender → List OutboundMsg → Link
take_message s [] = at s idle
take_message s (msg ∷ rest) = at (record s { queue = rest }) (looking msg)

unfoldable pub dial_ends : WsSender → OutboundMsg → DialResult → Link
dial_ends s msg dialed = at s (adopting msg)
dial_ends s msg rejected = finish (on_dial_failure s msg rejected)
dial_ends s msg failed = finish (on_dial_failure s msg failed)

unfoldable pub write_ends : WsSender → OutboundMsg → ℕ → ℤ → Bool → Link
write_ends s msg of_gen now sent =
    if sent then finish (write_done s msg now) else at (take_back s msg) (dropping of_gen)

-- writerLoop and deliver: the next critical section. `hello` answers a dial, and `sent` is whether the
-- write succeeds; the frames are in flight before the write begins.
unfoldable pub writer_step : WsSender → ℤ → Hello → Bool → Writer → Link
writer_step s now hello sent idle = take_message s s.queue
writer_step s now hello sent (looking msg) =
    if s.linked then at s (holding msg s.gen) else at s (dialing msg)
writer_step s now hello sent (dialing msg) = dial_ends (dial s hello).0 msg (dial s hello).1
writer_step s now hello sent (adopting msg) = at (adopt s now) (adopted msg)
writer_step s now hello sent (adopted msg) = if s.linked then at s (holding msg s.gen) else finish s
writer_step s now hello sent (holding msg of_gen) =
    at (add_inflight s msg.frames now) (writing msg of_gen)
writer_step s now hello sent (writing msg of_gen) = write_ends s msg of_gen now sent
writer_step s now hello sent (dropping of_gen) = finish (drop_conn s of_gen)

-- What happens to the link, one after the other.
pub data LinkEvent : Type 0 where
  batch_offered : ℕ → String → LinkEvent
  control_offered : String → LinkEvent
  -- The writer goes through its next critical section.
  writer_goes : ℤ → Hello → Bool → LinkEvent
  control_received : ControlMessage → ℤ → LinkEvent
  -- The read loop of a connection fails.
  read_failed : ℕ → LinkEvent
  monitor_ticks : ℤ → Bool → LinkEvent

abbrev pub is_idle : Writer → Bool
is_idle idle = true
is_idle (looking msg) = false
is_idle (dialing msg) = false
is_idle (adopting msg) = false
is_idle (adopted msg) = false
is_idle (holding msg g) = false
is_idle (writing msg g) = false
is_idle (dropping g) = false

-- writerLoop and readLoop, by what they select.
unfoldable pub on_event : Link → LinkEvent → Link
on_event l (batch_offered n match_id) = record l { sender = (enqueue_batch l.sender n match_id).0 }
on_event l (control_offered match_id) = record l { sender = (enqueue_control l.sender match_id).0 }
on_event l (writer_goes now hello sent) = writer_step l.sender now hello sent l.writer
on_event l (control_received msg now) = record l { sender = handle_control l.sender msg now }
on_event l (read_failed of_gen) = record l { sender = drop_conn l.sender of_gen }
on_event l (monitor_ticks now sent) =
    if is_idle l.writer then record l { sender = monitor_tick l.sender now sent } else l
