-- ===== src/Bridge/Dial.antt =====
-- cmd/bridge/sender.go: the handshake that opens a link, and the bounded attempts at it.
use nevr_anticheat.Prelude.{ℕ, zero, suc, String, Bool, not, ◌||◌, if◌then◌else◌}
use nevr_anticheat.Prelude.Int.{ℤ}
use nevr_anticheat.Prelude.Dict.{text_eq}
use nevr_anticheat.Prelude.Text.{codes, has_prefix}
use nevr_anticheat.Bridge.Sender.{WsSender, ControlMessage, adopt}

-- How the network answers a dial, up to the first message from the server.
pub data Hello : Type 0 where
  dial_failed : Hello
  deadline_failed : Hello
  -- Receive failed, with a context that was cancelled, at the end of the stream, by a timeout, or else.
  cancelled : Hello
  ended : Hello
  timed_out : Hello
  broken : Hello
  malformed : Hello
  -- The message, and whether the deadline could be cleared after it.
  greeted : ControlMessage → Bool → Hello

-- `rejected` is an error that wraps errAuthRejected.
pub data DialResult : Type 0 where
  dialed : DialResult
  rejected : DialResult
  failed : DialResult

-- isAuthRejection
unfoldable pub is_auth_rejection : String → Bool
is_auth_rejection reason = text_eq reason "unauthorized" || has_prefix (codes reason) (codes "auth")

unfoldable pub greeting : ControlMessage → Bool → DialResult
greeting msg cleared =
    if text_eq msg.kind "hello"
    then if not (text_eq msg.auth "ok") then rejected else if cleared then dialed else failed
    else if text_eq msg.kind "error"
    then if is_auth_rejection msg.reason then rejected else failed
    else failed

-- dial: the result by the answer of the network.
unfoldable pub dial_result : Hello → DialResult
dial_result dial_failed = failed
dial_result deadline_failed = failed
dial_result cancelled = failed
dial_result ended = rejected
dial_result timed_out = rejected
dial_result broken = failed
dial_result malformed = failed
dial_result (greeted msg cleared) = greeting msg cleared

unfoldable pub count_rejection : WsSender → DialResult → WsSender
count_rejection s rejected = record s {
  stats = record s.stats { auth_failures = suc s.stats.auth_failures };
}
count_rejection s dialed = s
count_rejection s failed = s

-- dial: the sender, of which it counts a rejection, and the result.
unfoldable pub dial : WsSender → Hello → WsSender × DialResult
dial s hello = (count_rejection s (dial_result hello), dial_result hello)

-- A turn of connect's loop: the sender after a dial, its result, whether the context is cancelled
-- before the next dial, and what the next turns give.
unfoldable pub after_dial :
    WsSender → DialResult → ℤ → Bool → WsSender × DialResult × ℕ → WsSender × DialResult × ℕ
after_dial s dialed now cancels next = (adopt s now, dialed, 1)
after_dial s rejected now cancels next = (s, rejected, 1)
after_dial s failed now cancels next =
    if cancels then (s, failed, 1) else (next.0, next.1, suc next.2)

-- connect: `left` attempts are left, from number `k` on; the network's answer to each, and whether the
-- context is cancelled after it. The sender, the last result, and how many dials were made.
unfoldable pub connect : ℕ → WsSender → ℤ → (ℕ → Hello) → (ℕ → Bool) → ℕ → WsSender × DialResult × ℕ
connect zero s now hellos cancels k = (s, failed, 0)
connect (suc left) s now hellos cancels k =
    let (s', result) = dial s (hellos k) in
    after_dial s' result now (cancels k) (connect left s' now hellos cancels (suc k))
