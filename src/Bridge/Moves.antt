-- ===== src/Bridge/Moves.antt =====
-- cmd/bridge/sender.go: no critical section of the link loses a frame from sight.
pub mod Peers
use nevr_anticheat.Prelude.{
  ℕ, ◌+◌, ◌-◌, ◌≤◌, ◌≡◌, refl, ap, Bool, true, false, List, [], ◌∷◌, if◌then◌else◌, arith, ◌==◌,
  ◌&&◌,
}
use nevr_anticheat.Prelude.Int.{ℤ}
use nevr_anticheat.Bridge.Sender.{
  OutboundMsg, WsSender, reset_inflight, add_inflight, remove_inflight, adopt, drop_conn,
}
use nevr_anticheat.Bridge.Dial.{
  Hello, DialResult, dialed, rejected, failed, dial, dial_result, count_rejection,
}
use nevr_anticheat.Bridge.Deliver.{on_dial_failure, take_back, write_done}
use nevr_anticheat.Bridge.Link.{
  Writer, idle, looking, dialing, adopting, adopted, holding, writing, dropping, Link, at, finish,
  take_message, dial_ends, write_ends, writer_step,
}

abbrev pub frames_in : List OutboundMsg → ℕ
frames_in [] = 0
frames_in (msg ∷ msgs) = msg.frames + frames_in msgs

-- Frames that were answered, lost or dropped.
abbrev pub gone : WsSender → ℕ
gone s =
    s.stats.total_frames_acked + s.stats.total_frames_rejected + s.stats.total_frames_ignored
    + s.stats.total_frames_unacked_lost + s.stats.total_frames_dropped

-- The frames that the writer has taken and not yet registered as in flight.
abbrev pub carried : Writer → ℕ
carried idle = 0
carried (looking msg) = msg.frames
carried (dialing msg) = msg.frames
carried (adopting msg) = msg.frames
carried (adopted msg) = msg.frames
carried (holding msg g) = msg.frames
carried (writing msg g) = 0
carried (dropping g) = 0

-- Where the frames are: in the queue, with the writer, in flight, or gone.
abbrev pub accounted : Link → ℕ
accounted l = frames_in l.sender.queue + carried l.writer + l.sender.inflight + gone l.sender

-- The connection that the writer has seen is still there.
abbrev pub Ready : WsSender → Writer → Type 0
Ready s idle = Unit
Ready s (looking msg) = Unit
Ready s (dialing msg) = s.linked ≡ false
Ready s (adopting msg) = s.linked ≡ false
Ready s (adopted msg) = s.linked ≡ true
Ready s (holding msg g) = (s.linked ≡ true) × (s.gen ≡ g)
Ready s (writing msg g) = (s.linked ≡ true) × (s.gen ≡ g)
Ready s (dropping g) = Unit

-- A link that is not closed, and without a connection nothing is in flight; `wire` frames have been
-- handed to the connection and not been answered.
pub record IsSteady (l : Link) (wire : ℕ) : Type 0 where
  pub running : l.sender.closed ≡ false
  pub settled : (if l.sender.linked then 0 else l.sender.inflight) ≡ 0
  pub wired : wire ≡ l.sender.inflight
  pub ready : Ready l.sender l.writer

-- Nothing is lost from sight, and what is in flight is what is on the wire.
pub record Moves (l l' : Link) (wire : ℕ) (n : ℕ) : Type 0 where
  pub sum : accounted l' ≡ accounted l + n
  pub steady : IsSteady l' wire

-- What a connection takes with it when the one of the generation is dropped.
abbrev pub wire_dropped : WsSender → ℕ → ℕ → ℕ
wire_dropped s of_gen wire = if s.linked && s.gen == of_gen then 0 else wire

-- What the writer's next critical section hands to the connection, or takes back.
abbrev pub wire_written : WsSender → Writer → Bool → ℕ → ℕ
wire_written s idle sent wire = wire
wire_written s (looking msg) sent wire = wire
wire_written s (dialing msg) sent wire = wire
wire_written s (adopting msg) sent wire = 0
wire_written s (adopted msg) sent wire = wire
wire_written s (holding msg g) sent wire = wire + msg.frames
wire_written s (writing msg g) sent wire = if sent then wire else wire - msg.frames
wire_written s (dropping g) sent wire = wire_dropped s g wire

-- A batch whose write fails has not been answered.
abbrev pub Unanswered : Writer → Bool → ℕ → Type 0
Unanswered idle sent wire = Unit
Unanswered (looking msg) sent wire = Unit
Unanswered (dialing msg) sent wire = Unit
Unanswered (adopting msg) sent wire = Unit
Unanswered (adopted msg) sent wire = Unit
Unanswered (holding msg g) sent wire = Unit
Unanswered (writing msg g) sent wire = (if sent then 0 else msg.frames) ≤ wire
Unanswered (dropping g) sent wire = Unit

take_message-Moves :
    (s : WsSender) (msgs : List OutboundMsg) (wire : ℕ)
    → s.queue ≡ msgs
    → IsSteady (at s idle) wire
    → Moves (at s idle) (take_message s msgs) wire 0
unfolding take_message
take_message-Moves s [] wire e h = record { sum = omega arith; steady = h }
take_message-Moves s (msg ∷ rest) wire e h = record {
  sum = omega (arith, ap frames_in e);
  steady = record { running = h.running; settled = h.settled; wired = h.wired; ready = tt };
}

dial_ends-Moves :
    (s : WsSender) (msg : OutboundMsg) (r : DialResult) (wire : ℕ)
    → IsSteady (at s (dialing msg)) wire
    → Moves (at s (dialing msg)) (dial_ends (count_rejection s r) msg r) wire 0
unfolding dial_ends count_rejection on_dial_failure finish
dial_ends-Moves s msg dialed wire h = record {
  sum = omega arith;
  steady = record { running = h.running; settled = h.settled; wired = h.wired; ready = h.ready };
}
dial_ends-Moves s msg rejected wire h = record {
  sum = omega arith;
  steady = record { running = h.running; settled = h.settled; wired = h.wired; ready = tt };
}
dial_ends-Moves s msg failed wire h = record {
  sum = omega arith;
  steady = record { running = h.running; settled = h.settled; wired = h.wired; ready = tt };
}

pub writer_step-Moves :
    (s : WsSender) (now : ℤ) (hello : Hello) (sent : Bool) (w : Writer) (wire : ℕ)
    → IsSteady (at s w) wire
    → Unanswered w sent wire
    → Moves (at s w) (writer_step s now hello sent w) (wire_written s w sent wire) 0
unfolding writer_step dial adopt reset_inflight add_inflight write_ends write_done take_back
    remove_inflight drop_conn finish
writer_step-Moves s now hello sent idle wire h u = take_message-Moves s s.queue wire refl h
writer_step-Moves s now hello sent (looking msg) wire h u =
    ground (arith, h.running, h.settled, h.wired)
writer_step-Moves s now hello sent (dialing msg) wire h u =
    dial_ends-Moves s msg (dial_result hello) wire h
writer_step-Moves s now hello sent (adopting msg) wire h u =
    ground (arith, h.running, h.settled, h.wired, h.ready)
writer_step-Moves s now hello sent (adopted msg) wire h u =
    ground (arith, h.running, h.settled, h.wired, h.ready)
writer_step-Moves s now hello sent (holding msg g) wire h u =
    ground (arith, h.running, h.settled, h.wired, h.ready)
writer_step-Moves s now hello sent (writing msg g) wire h u =
    ground (arith, h.running, h.settled, h.wired, h.ready, u)
writer_step-Moves s now hello sent (dropping g) wire h u =
    ground (arith, h.running, h.settled, h.wired)
