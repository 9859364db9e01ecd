-- ===== src/Examples/Sender.antt =====
-- The link's theorems at a bridge with two batches, one of them sent over a link that breaks.
use nevr_anticheat.Prelude.{ℕ, zero, suc, ◌+◌, ◌≡◌, refl, true, false, List, [], ◌∷◌, arith}
use nevr_anticheat.Prelude.Int.{pos}
use nevr_anticheat.Bridge.Sender.{
  OutboundMsg, WsSender, ControlMessage, new_ws_sender, add_inflight, adopt, drop_conn,
}
use nevr_anticheat.Bridge.Dial.{Hello, greeted, dial_failed, connect}
use nevr_anticheat.Bridge.Deliver.{write_failed}
use nevr_anticheat.Bridge.Link.{
  Link, LinkEvent, idle, at, batch_offered, writer_goes, control_received, read_failed,
}
use nevr_anticheat.Bridge.Moves.{gone}
use nevr_anticheat.Bridge.Race.{write_failed-drop_conn}
use nevr_anticheat.Bridge.Attempts.{IsOutcome, connect-IsOutcome}

abbrev fresh : WsSender
fresh = new_ws_sender (pos 0) (pos 0) (pos 0)

abbrev unused : Link
unused = at fresh idle

abbrev hello_ok : ControlMessage
hello_ok = record {
  kind = "hello";
  reason = "";
  auth = "ok";
  accepted = pos 0;
  rejected = pos 0;
  ignored = pos 0;
}

abbrev ack_of_two : ControlMessage
ack_of_two = record {
  kind = "ack";
  reason = "";
  auth = "";
  accepted = pos 1;
  rejected = pos 1;
  ignored = pos 0;
}

abbrev goes : LinkEvent
goes = writer_goes (pos 1) (greeted hello_ok true) true

-- The server answers two of the three frames while the writer still waits for the end of its write.
abbrev session : List LinkEvent
session =
    batch_offered 3 "m1"
    ∷ batch_offered 4 "m1"
    ∷ goes
    ∷ goes
    ∷ goes
    ∷ goes
    ∷ goes
    ∷ goes
    ∷ control_received ack_of_two (pos 2)
    ∷ goes
    ∷ read_failed 1
    ∷ goes
    ∷ goes
    ∷ writer_goes (pos 3) dial_failed true
    ∷ []

abbrev batch : OutboundMsg
batch = record { frames = 3; control = false; match_id = "m1" }

adopted : (adopt fresh (pos 1)).linked ≡ true
unfolding adopt new_ws_sender
adopted = refl

write_failed-drop_conn_example :
    gone (
      write_failed
        (drop_conn (add_inflight (adopt fresh (pos 1)) 3 (pos 2)) (adopt fresh (pos 1)).gen)
        batch
        (adopt fresh (pos 1)).gen)
    ≡ gone (adopt fresh (pos 1)) + (adopt fresh (pos 1)).inflight + (3 + 3)
write_failed-drop_conn_example = write_failed-drop_conn (adopt fresh (pos 1)) batch (pos 2) adopted

abbrev second_works : ℕ → Hello
second_works zero = dial_failed
second_works (suc k) = greeted hello_ok true

connect-IsOutcome_example :
    IsOutcome 3 second_works 0 (connect 3 fresh (pos 1) second_works (λ k. false) 0)
connect-IsOutcome_example =
    connect-IsOutcome 3 fresh (pos 1) second_works (λ k. false) 0 (omega arith)
