-- ===== src/Desktop/Shutdown.antt =====
-- cmd/desktop/shutdown.go: the gate that stops the admission of requests before the store is closed.
-- Each critical section of a handler is one step, and so is the goroutine that waits for the work.
use nevr_anticheat.Prelude.{
  ℕ, suc, ◌-◌, ◌==◌, Bool, true, false, Option, none, some, List, [], ◌∷◌, if◌then◌else◌,
}

-- The channel `done`: nil, made, or closed.
pub data Channel : Type 0 where
  unmade : Channel
  open_yet : Channel
  closed : Channel

-- `work` is the counter of the wait group.
pub record RequestGate : Type 0 where
  pub work : ℕ
  pub stopping : Bool
  pub done : Channel

abbrev pub new_gate : RequestGate
new_gate = record { work = 0; stopping = false; done = unmade }

-- wrap, up to the call of the handler: the gate, and whether the request is admitted. A request that
-- is not is answered with 503.
unfoldable pub enter : RequestGate → RequestGate × Bool
enter g = if g.stopping then (g, false) else (record g { work = suc g.work }, true)

-- `work.Done()`, after the handler has returned.
unfoldable pub leave : RequestGate → RequestGate
leave g = record g { work = g.work - 1 }

unfoldable pub stopped_with : RequestGate → Channel → RequestGate
stopped_with g unmade = record g { stopping = true; done = open_yet }
stopped_with g open_yet = g
stopped_with g closed = g

-- stop
unfoldable pub stop : RequestGate → RequestGate
stop g = stopped_with g g.done

-- The goroutine of stop: Wait returns once the counter is 0.
unfoldable pub closed_with : RequestGate → Channel → RequestGate
closed_with g open_yet = if g.work == 0 then record g { done = closed } else g
closed_with g unmade = g
closed_with g closed = g

unfoldable pub wait : RequestGate → RequestGate
wait g = closed_with g g.done

-- What the loop of shutdownDesktop selects, one after the other.
pub data Selected : Type 0 where
  handlers_done : Selected
  workers_done : Selected
  context_done : Selected

-- The loop: `handlers` and `workers` are the channels that are not nil yet. `none` while it waits.
unfoldable pub await : Bool → Bool → List Selected → Option Bool
await false false rest = some true
await false true [] = none
await true workers [] = none
await false true (handlers_done ∷ rest) = await false true rest
await false true (workers_done ∷ rest) = some true
await false true (context_done ∷ rest) = some false
await true workers (handlers_done ∷ rest) = await false workers rest
await true workers (workers_done ∷ rest) = await true false rest
await true workers (context_done ∷ rest) = some false
