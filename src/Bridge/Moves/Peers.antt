-- ===== src/Bridge/Moves/Peers.antt =====
-- cmd/bridge/sender.go: what the read loop, the monitor and the answers do to what is in flight.
use nevr_anticheat.Prelude.{ℕ, ◌+◌, ◌-◌, ◌≤◌, ◌≡◌, ◌∙◌, Bool, false, if◌then◌else◌, arith, ◌==◌}
use nevr_anticheat.Prelude.Int.{ℤ, pos, neg_part, pos_part, ◌+ℤ◌, +ℤ_parts, -ℤ_parts}
use nevr_anticheat.Prelude.Dict.{text_eq}
use nevr_anticheat.Bridge.Sender.{
  WsSender, ControlMessage, reset_inflight, settle_inflight, drop_conn, acked, handle_control,
}
use nevr_anticheat.Bridge.Deliver.{write_ping, monitor_tick}
use nevr_anticheat.Bridge.Link.{
  Writer, idle, looking, dialing, adopting, adopted, holding, writing, dropping, at,
}
use nevr_anticheat.Bridge.Moves.{frames_in, gone, Ready, IsSteady, Moves, wire_dropped}

-- Whatever the writer is doing, a step of another goroutine that keeps the connection keeps it ready.
pub Ready-same :
    (s s' : WsSender) (w : Writer) → s'.linked ≡ s.linked → s'.gen ≡ s.gen → Ready s w → Ready s' w
Ready-same s s' idle p q h = tt
Ready-same s s' (looking msg) p q h = tt
Ready-same s s' (dialing msg) p q h = p ∙ h
Ready-same s s' (adopting msg) p q h = p ∙ h
Ready-same s s' (adopted msg) p q h = p ∙ h
Ready-same s s' (holding msg g) p q h = (p ∙ h.0, q ∙ h.1)
Ready-same s s' (writing msg g) p q h = (p ∙ h.0, q ∙ h.1)
Ready-same s s' (dropping g) p q h = tt

-- No read loop drops the connection that the writer is about to use or is using.
abbrev pub Spared : WsSender → Writer → ℕ → Type 0
Spared s idle of_gen = Unit
Spared s (looking msg) of_gen = Unit
Spared s (dialing msg) of_gen = Unit
Spared s (adopting msg) of_gen = Unit
Spared s (adopted msg) of_gen = (s.gen == of_gen) ≡ false
Spared s (holding msg g) of_gen = (s.gen == of_gen) ≡ false
Spared s (writing msg g) of_gen = (s.gen == of_gen) ≡ false
Spared s (dropping g) of_gen = Unit

drop_conn-Ready :
    (s : WsSender) (of_gen : ℕ) (w : Writer)
    → Spared s w of_gen
    → Ready s w
    → Ready (drop_conn s of_gen) w
unfolding drop_conn reset_inflight
drop_conn-Ready s of_gen idle p h = tt
drop_conn-Ready s of_gen (looking msg) p h = tt
drop_conn-Ready s of_gen (dialing msg) p h = ground (arith, h)
drop_conn-Ready s of_gen (adopting msg) p h = ground (arith, h)
drop_conn-Ready s of_gen (adopted msg) p h = ground (arith, h, p)
drop_conn-Ready s of_gen (holding msg g) p h = ground (arith, h, p)
drop_conn-Ready s of_gen (writing msg g) p h = ground (arith, h, p)
drop_conn-Ready s of_gen (dropping g) p h = tt

pub read_failed-Moves :
    (s : WsSender) (w : Writer) (of_gen wire : ℕ)
    → Spared s w of_gen
    → IsSteady (at s w) wire
    → Moves (at s w) (at (drop_conn s of_gen) w) (wire_dropped s of_gen wire) 0
read_failed-Moves s w of_gen wire p h =
    let (total, running, settled, wired) = numbers in
    record {
      sum = omega (arith, total);
      steady = record {
        running = running;
        settled = settled;
        wired = wired;
        ready = drop_conn-Ready s of_gen w p h.ready;
      };
    }
  where
    numbers :
        let s' = drop_conn s of_gen in
        (frames_in s'.queue + s'.inflight + gone s' ≡ frames_in s.queue + s.inflight + gone s)
        × (s'.closed ≡ false)
        × ((if s'.linked then 0 else s'.inflight) ≡ 0)
        × (wire_dropped s of_gen wire ≡ s'.inflight)
    numbers = unfold drop_conn reset_inflight in ground (arith, h.running, h.settled, h.wired)

-- The monitor keeps the connection, or drops it with what is in flight.
pub monitor_tick-Moves :
    (s : WsSender) (now : ℤ) (sent : Bool) (wire : ℕ)
    → IsSteady (at s idle) wire
    → let s' = monitor_tick s now sent in
      Moves (at s idle) (at s' idle) (if s'.linked then wire else 0) 0
unfolding monitor_tick write_ping drop_conn reset_inflight
monitor_tick-Moves s now sent wire h = ground (arith, h.running, h.settled, h.wired)

-- The frames that a message of the server answers.
abbrev pub answered : ControlMessage → ℕ
answered msg =
    if text_eq msg.kind "ack"
    then pos_part msg.accepted + pos_part msg.rejected + pos_part msg.ignored
    else 0

-- The message answers frames that are on the wire.
pub record IsFair (msg : ControlMessage) (wire : ℕ) : Type 0 where
  pub counts : neg_part msg.accepted + neg_part msg.rejected + neg_part msg.ignored ≡ 0
  pub within : pos_part msg.accepted + pos_part msg.rejected + pos_part msg.ignored ≤ wire

handle_control-same :
    (s : WsSender) (msg : ControlMessage) (now : ℤ)
    → ((handle_control s msg now).linked ≡ s.linked) × ((handle_control s msg now).gen ≡ s.gen)
unfolding handle_control settle_inflight reset_inflight
handle_control-same s msg now = ground arith

pub handle_control-Moves :
    (s : WsSender) (w : Writer) (msg : ControlMessage) (now : ℤ) (wire : ℕ)
    → IsFair msg wire
    → IsSteady (at s w) wire
    → Moves (at s w) (at (handle_control s msg now) w) (wire - answered msg) 0
handle_control-Moves s w msg now wire fair h =
    let (total, running, settled, wired) = numbers in
    let (linked, gen) = handle_control-same s msg now in
    record {
      sum = omega (arith, total);
      steady = record {
        running = running;
        settled = settled;
        wired = wired;
        ready = Ready-same s (handle_control s msg now) w linked gen h.ready;
      };
    }
  where
    numbers :
        let s' = handle_control s msg now in
        (frames_in s'.queue + s'.inflight + gone s' ≡ frames_in s.queue + s.inflight + gone s)
        × (s'.closed ≡ false)
        × ((if s'.linked then 0 else s'.inflight) ≡ 0)
        × (wire - answered msg ≡ s'.inflight)
    numbers =
        unfold handle_control settle_inflight reset_inflight acked in
        ground (
          arith,
          h.running,
          h.settled,
          h.wired,
          fair.counts,
          fair.within,
          +ℤ_parts msg.accepted msg.rejected,
          +ℤ_parts (msg.accepted +ℤ msg.rejected) msg.ignored,
          -ℤ_parts (pos s.inflight) ((msg.accepted +ℤ msg.rejected) +ℤ msg.ignored),
        )
