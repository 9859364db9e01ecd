-- ===== src/Bridge/Account.antt =====
-- cmd/bridge/sender.go: every frame that is offered to the link is accounted for once.
use nevr_anticheat.Prelude.{ℕ, ◌+◌, ◌-◌, List, [], ◌∷◌, if◌then◌else◌}
use nevr_anticheat.Bridge.Deliver.{monitor_tick}
use nevr_anticheat.Bridge.Link.{
  is_idle, Link, LinkEvent, batch_offered, control_offered, writer_goes, control_received,
  read_failed, monitor_ticks, on_event,
}
use nevr_anticheat.Bridge.Moves.{Moves, wire_dropped, wire_written, Unanswered}
use nevr_anticheat.Bridge.Moves.Peers.{IsFair, answered, Spared}

-- An answer is one to frames on the wire, no batch whose write fails has been answered, and no read loop
-- drops the connection between the writer's adopting or choosing it and the end of the write.
abbrev pub FairEvent : Link → LinkEvent → ℕ → Type 0
FairEvent l (control_received msg now) wire = IsFair msg wire
FairEvent l (batch_offered n match_id) wire = Unit
FairEvent l (control_offered match_id) wire = Unit
FairEvent l (writer_goes now hello sent) wire = Unanswered l.writer sent wire
FairEvent l (read_failed g) wire = Spared l.sender l.writer g
FairEvent l (monitor_ticks now sent) wire = Unit

-- The frames that are handed to the connection and not answered, after the event. They are told from
-- where the writer is and from what the server answers, not from the sender's own count.
abbrev pub wire_after : Link → LinkEvent → ℕ → ℕ
wire_after l (control_received msg now) wire = wire - answered msg
wire_after l (batch_offered n match_id) wire = wire
wire_after l (control_offered match_id) wire = wire
wire_after l (writer_goes now hello sent) wire = wire_written l.sender l.writer sent wire
wire_after l (read_failed g) wire = wire_dropped l.sender g wire
wire_after l (monitor_ticks now sent) wire =
    if is_idle l.writer then if (monitor_tick l.sender now sent).linked then wire else 0 else wire

abbrev frames_offered : LinkEvent → ℕ
frames_offered (batch_offered n match_id) = n
frames_offered (control_offered match_id) = 0
frames_offered (writer_goes now hello sent) = 0
frames_offered (control_received msg now) = 0
frames_offered (read_failed g) = 0
frames_offered (monitor_ticks now sent) = 0

abbrev pub after : Link → List LinkEvent → Link
after l [] = l
after l (ev ∷ evs) = after (on_event l ev) evs

abbrev pub FairEvents : List LinkEvent → Link → ℕ → Type 0
FairEvents [] l wire = Unit
FairEvents (ev ∷ evs) l wire =
    FairEvent l ev wire × FairEvents evs (on_event l ev) (wire_after l ev wire)

abbrev pub offered : List LinkEvent → ℕ
offered [] = 0
offered (ev ∷ evs) = frames_offered ev + offered evs
