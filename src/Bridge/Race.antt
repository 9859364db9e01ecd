-- ===== src/Bridge/Race.antt =====
-- cmd/bridge/sender.go: the read loop may drop the connection while a batch is being written.
use nevr_anticheat.Prelude.{◌+◌, ◌≡◌, true, arith}
use nevr_anticheat.Prelude.Int.{ℤ}
use nevr_anticheat.Bridge.Sender.{
  OutboundMsg, WsSender, reset_inflight, add_inflight, remove_inflight, drop_conn,
}
use nevr_anticheat.Bridge.Deliver.{write_failed, take_back}
use nevr_anticheat.Bridge.Moves.{gone}

-- If the read loop drops the connection after the writer has registered a batch as in flight, and the
-- write then fails, what was in flight before is counted as gone once, but the frames of the batch
-- twice, as lost without an answer and as dropped.
pub write_failed-drop_conn :
    (s : WsSender) (msg : OutboundMsg) (now : ℤ)
    → s.linked ≡ true
    → gone (write_failed (drop_conn (add_inflight s msg.frames now) s.gen) msg s.gen)
      ≡ gone s + s.inflight + (msg.frames + msg.frames)
unfolding write_failed take_back add_inflight remove_inflight drop_conn reset_inflight
write_failed-drop_conn s msg now e = ground arith
