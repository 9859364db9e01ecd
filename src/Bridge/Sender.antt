-- ===== src/Bridge/Sender.antt =====
-- cmd/bridge/sender.go: the state of the bridge's link to the ingest server, what it counts, and what a
-- control message does. Counters are natural numbers without bounds; the in-flight count is never
-- negative, since the code clamps it at 0. Each critical section is one step.
use nevr_anticheat.Prelude.{
  ℕ, suc, ◌+◌, ◌-◌, ◌==◌, String, Bool, true, false, not, ◌||◌, List, [], if◌then◌else◌, ltb,
}
use nevr_anticheat.Prelude.Int.{ℤ, pos, pos_part, ◌+ℤ◌, ◌-ℤ◌, leb_ℤ, ltb_ℤ}
use nevr_anticheat.Prelude.Dict.{text_eq}

-- The payload is not looked at: it is a batch of so many frames, or a control message.
pub record OutboundMsg : Type 0 where
  pub frames : ℕ
  pub control : Bool
  pub match_id : String

-- The counters of bridgeStats that the link moves.
pub record BridgeStats : Type 0 where
  pub total_batches_sent : ℕ
  pub total_batches_dropped : ℕ
  pub total_frames_sent : ℕ
  pub total_frames_forwarded : ℕ
  pub total_frames_acked : ℕ
  pub total_frames_rejected : ℕ
  pub total_frames_ignored : ℕ
  pub total_frames_dropped : ℕ
  pub total_frames_unacked_lost : ℕ
  pub total_send_failures : ℕ
  pub acks_received : ℕ
  pub ack_timeouts : ℕ
  pub reconnects : ℕ
  pub auth_failures : ℕ
  pub control_sent : ℕ
  pub control_dropped : ℕ

-- `linked` is whether conn is not nil.
pub record WsSender : Type 0 where
  pub queue : List OutboundMsg
  pub capacity : ℕ
  pub linked : Bool
  pub gen : ℕ
  pub closed : Bool
  pub inflight : ℕ
  pub inflight_since : ℤ
  pub last_send : ℤ
  pub connected : Bool
  pub pending : ℕ
  pub ack_timeout : ℤ
  pub keepalive : ℤ
  pub auth_fail_logged : Bool
  pub dial_failures : ℕ
  pub stats : BridgeStats

-- The fields of a control message that the bridge reads.
pub record ControlMessage : Type 0 where
  pub kind : String
  pub reason : String
  pub auth : String
  pub accepted : ℤ
  pub rejected : ℤ
  pub ignored : ℤ

abbrev pub no_stats : BridgeStats
no_stats = record {
  total_batches_sent = 0;
  total_batches_dropped = 0;
  total_frames_sent = 0;
  total_frames_forwarded = 0;
  total_frames_acked = 0;
  total_frames_rejected = 0;
  total_frames_ignored = 0;
  total_frames_dropped = 0;
  total_frames_unacked_lost = 0;
  total_send_failures = 0;
  acks_received = 0;
  ack_timeouts = 0;
  reconnects = 0;
  auth_failures = 0;
  control_sent = 0;
  control_dropped = 0;
}

unfoldable pub or_duration : ℤ → ℤ → ℤ
or_duration v def = if leb_ℤ v (pos 0) then def else v

abbrev pub capacity_of : ℤ → ℕ
capacity_of size = if leb_ℤ size (pos 0) then 256 else pos_part size

-- newWSSender, by the queue size, the acknowledgement timeout and the keepalive of the configuration.
unfoldable pub new_ws_sender : ℤ → ℤ → ℤ → WsSender
new_ws_sender queue_size ack_timeout keepalive = record {
  queue = [];
  capacity = capacity_of queue_size;
  linked = false;
  gen = 0;
  closed = false;
  inflight = 0;
  inflight_since = pos 0;
  last_send = pos 0;
  connected = false;
  pending = 0;
  ack_timeout = or_duration ack_timeout (pos 30_000_000_000);
  keepalive = or_duration keepalive (pos 20_000_000_000);
  auth_fail_logged = false;
  dial_failures = 0;
  stats = no_stats;
}

-- resetInflight(0), whose result is the old count.
unfoldable pub reset_inflight : WsSender → WsSender
reset_inflight s = record s { inflight = 0; inflight_since = pos 0 }

unfoldable pub add_inflight : WsSender → ℕ → ℤ → WsSender
add_inflight s n now = if n == 0 then s else record s {
  inflight = s.inflight + n;
  inflight_since = if s.inflight == 0 then now else s.inflight_since;
}

unfoldable pub remove_inflight : WsSender → ℕ → WsSender
remove_inflight s n =
    if n == 0
    then s
    else if ltb n s.inflight
    then record s { inflight = s.inflight - n }
    else reset_inflight s

unfoldable pub settle_inflight : WsSender → ℤ → ℤ → WsSender
settle_inflight s n now =
    let left = pos s.inflight -ℤ n in
    if leb_ℤ left (pos 0)
    then reset_inflight s
    else record s { inflight = pos_part left; inflight_since = now }

-- adopt
unfoldable pub adopt : WsSender → ℤ → WsSender
adopt s now = if s.closed then s else record (reset_inflight s) {
  linked = true;
  gen = suc s.gen;
  connected = true;
  last_send = now;
  auth_fail_logged = false;
  dial_failures = 0;
  stats = record s.stats { reconnects = suc s.stats.reconnects };
}

-- dropConn
unfoldable pub drop_conn : WsSender → ℕ → WsSender
drop_conn s of_gen =
    if not s.linked || not (s.gen == of_gen) then s else record (reset_inflight s) {
      linked = false;
      connected = false;
      stats = record s.stats {
        total_frames_unacked_lost = s.stats.total_frames_unacked_lost + s.inflight;
      };
    }

-- `if n > 0 { counter.Add(n) }`
abbrev pub count_up : ℕ → ℤ → ℕ
count_up counter n = if ltb_ℤ (pos 0) n then counter + pos_part n else counter

unfoldable pub acked : BridgeStats → ControlMessage → BridgeStats
acked st msg = record st {
  acks_received = suc st.acks_received;
  total_frames_acked = count_up st.total_frames_acked msg.accepted;
  total_frames_forwarded = count_up st.total_frames_forwarded msg.accepted;
  total_frames_rejected = count_up st.total_frames_rejected msg.rejected;
  total_frames_ignored = count_up st.total_frames_ignored msg.ignored;
}

-- handleControl, of a message that could be decoded: only an ack changes anything.
unfoldable pub handle_control : WsSender → ControlMessage → ℤ → WsSender
handle_control s msg now =
    if text_eq msg.kind "ack"
    then settle_inflight (record s { stats = acked s.stats msg })
        ((msg.accepted +ℤ msg.rejected) +ℤ msg.ignored) now
    else s

-- close, with its two critical sections and nothing in between.
unfoldable pub close : WsSender → WsSender
close s = if s.closed then s else record s { closed = true; linked = false; connected = false }
