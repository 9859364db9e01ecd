-- ===== src/Desktop/Drain.antt =====
-- cmd/desktop/shutdown.go: no handler runs once the gate has drained, and after a stop it drains.
use nevr_anticheat.Prelude.{
  ℕ, suc, ◌+◌, ◌<◌, ◌≡◌, refl, sym, ap, subst, ◌∙◌, Bool, true, false, List, [], ◌∷◌, arith,
}
use nevr_anticheat.Desktop.Shutdown.{
  Channel, unmade, open_yet, closed, RequestGate, new_gate, enter, leave, stop, stopped_with, wait,
  closed_with,
}

-- What happens to the gate, in the order of its lock.
pub data Action : Type 0 where
  arrives : Action
  returns : Action
  stops : Action
  waits : Action

-- A handler returns only where one is running.
pub data Steps (g' : RequestGate) : RequestGate → List Action → Type 0 where
  rests : Steps g' g' []
  arrived :
      {g : RequestGate} {acts : List Action}
      → Steps g' (enter g).0 acts
      → Steps g' g (arrives ∷ acts)
  returned :
      {g : RequestGate} {acts : List Action}
      → 0 < g.work
      → Steps g' (leave g) acts
      → Steps g' g (returns ∷ acts)
  stopped :
      {g : RequestGate} {acts : List Action} → Steps g' (stop g) acts → Steps g' g (stops ∷ acts)
  waited :
      {g : RequestGate} {acts : List Action} → Steps g' (wait g) acts → Steps g' g (waits ∷ acts)

abbrev pub count_returns : List Action → ℕ
count_returns [] = 0
count_returns (returns ∷ acts) = suc (count_returns acts)
count_returns (arrives ∷ acts) = count_returns acts
count_returns (stops ∷ acts) = count_returns acts
count_returns (waits ∷ acts) = count_returns acts

-- The channel is made by stop, and closed only without work.
abbrev is_made : Channel → Bool
is_made unmade = false
is_made open_yet = true
is_made closed = true

abbrev work_after : Channel → ℕ → ℕ
work_after closed work = work
work_after unmade work = 0
work_after open_yet work = 0

record Sound (g : RequestGate) : Type 0 where
  halted : is_made g.done ≡ g.stopping
  empty : work_after g.done g.work ≡ 0

enter-Sound : (g : RequestGate) → Sound g → Sound (enter g).0
unfolding enter
enter-Sound g s = ground arith

leave-Sound : (g : RequestGate) → Sound g → Sound (leave g)
unfolding leave
leave-Sound g s = ground arith

stop-Sound : (g : RequestGate) → Sound g → Sound (stop g)
unfolding stop stopped_with
stop-Sound g s = ground arith

wait-Sound : (g : RequestGate) → Sound g → Sound (wait g)
unfolding wait closed_with
wait-Sound g s = ground arith

Steps-Sound : {g' g : RequestGate} (acts : List Action) → Steps g' g acts → Sound g → Sound g'
Steps-Sound _ rests s = s
Steps-Sound _ (arrived st) s = Steps-Sound _ st (enter-Sound _ s)
Steps-Sound _ (returned p st) s = Steps-Sound _ st (leave-Sound _ s)
Steps-Sound _ (stopped st) s = Steps-Sound _ st (stop-Sound _ s)
Steps-Sound _ (waited st) s = Steps-Sound _ st (wait-Sound _ s)

-- Once closed, the gate never changes.
enter-closed : (g : RequestGate) → Sound g → g.done ≡ closed → enter g ≡ (g, false)
unfolding enter
enter-closed g s e = ground arith

stop-closed : (g : RequestGate) → g.done ≡ closed → stop g ≡ g
unfolding stop stopped_with
stop-closed g e = ground arith

wait-closed : (g : RequestGate) → g.done ≡ closed → wait g ≡ g
unfolding wait closed_with
wait-closed g e = ground arith

Steps-closed :
    {g' g : RequestGate} (acts : List Action) → Steps g' g acts → Sound g → g.done ≡ closed → g' ≡ g
Steps-closed _ rests s e = refl
Steps-closed _ (arrived st) s e =
    let same = ap (λ r. r.0) (enter-closed _ s e) in
    Steps-closed _ st (enter-Sound _ s) (ap (λ g. g.done) same ∙ e) ∙ same
Steps-closed _ (returned p st) s e = absurd (ground arith)
Steps-closed _ (stopped st) s e =
    let same = stop-closed _ e in
    Steps-closed _ st (stop-Sound _ s) (ap (λ g. g.done) same ∙ e) ∙ same
Steps-closed _ (waited st) s e =
    let same = wait-closed _ e in
    Steps-closed _ st (wait-Sound _ s) (ap (λ g. g.done) same ∙ e) ∙ same

new_gate-Sound : Sound new_gate
new_gate-Sound = record { halted = refl; empty = refl }

-- Once the wait of a stop has ended, no handler is running and none ever will be: in whatever order
-- handlers arrive and return, and stop and wait are called, before and after, the gate stays as it is,
-- its work is 0 and the next arrival is refused.
drained_for_good :
    {g' g : RequestGate} {before after : List Action}
    → Steps g new_gate before
    → g.done ≡ closed
    → Steps g' g after
    → (g'.work ≡ 0) × (enter g' ≡ (g', false))
drained_for_good {g'} {g} before e after =
    let s = Steps-Sound _ before new_gate-Sound in
    let same = Steps-closed _ after s e in
    subst (λ t. (t.work ≡ 0) × (enter t ≡ (t, false))) (sym same)
      (ground (arith, s.empty, e), enter-closed g s e)

enter-stopping : (g : RequestGate) → g.stopping ≡ true → (enter g).0 ≡ g
unfolding enter
enter-stopping g e = ground arith

stop-stopping : (g : RequestGate) → g.stopping ≡ true → Sound g → stop g ≡ g
unfolding stop stopped_with
stop-stopping g e s = ground (arith, s.halted)

wait-work : (g : RequestGate) → ((wait g).work ≡ g.work) × ((wait g).stopping ≡ g.stopping)
unfolding wait closed_with
wait-work g = ground arith

Steps-work :
    {g' g : RequestGate} (acts : List Action)
    → Steps g' g acts
    → Sound g
    → g.stopping ≡ true
    → (g'.work + count_returns acts ≡ g.work) × (g'.stopping ≡ true)
unfolding leave
Steps-work _ rests s e = (omega arith, e)
Steps-work _ (arrived st) s e =
    let same = enter-stopping _ e in
    let h = Steps-work _ st (enter-Sound _ s) (ap (λ g. g.stopping) same ∙ e) in
    (h.0 ∙ ap (λ g. g.work) same, h.1)
Steps-work _ (returned p st) s e =
    let h = Steps-work _ st (leave-Sound _ s) e in (omega (arith, h.0, p), h.1)
Steps-work _ (stopped st) s e =
    let same = stop-stopping _ e s in
    let h = Steps-work _ st (stop-Sound _ s) (ap (λ g. g.stopping) same ∙ e) in
    (h.0 ∙ ap (λ g. g.work) same, h.1)
Steps-work _ (waited st) s e =
    let (work, stopping) = wait-work _ in
    let h = Steps-work _ st (wait-Sound _ s) (stopping ∙ e) in (h.0 ∙ work, h.1)

stop-work : (g : RequestGate) → Sound g → ((stop g).work ≡ g.work) × ((stop g).stopping ≡ true)
unfolding stop stopped_with
stop-work g s = ground (arith, s.halted)

wait-drained : (g : RequestGate) → Sound g → g.stopping ≡ true → g.work ≡ 0 → (wait g).done ≡ closed
unfolding wait closed_with
wait-drained g s e w = ground (arith, s.halted)

-- A stop drains, in whatever order requests still arrive after it: once as many handlers have returned
-- as were running when it came, no work is left and the wait ends and closes the channel.
pub stop_drains :
    {g' g : RequestGate} {before after : List Action}
    → Steps g new_gate before
    → Steps g' (stop g) after
    → count_returns after ≡ g.work
    → (g'.work ≡ 0) × ((wait g').done ≡ closed)
stop_drains {g'} {g} {after} before after_stop all =
    let s = Steps-Sound _ before new_gate-Sound in
    let (work, stopping) = stop-work g s in
    let (left, still) = Steps-work _ after_stop (stop-Sound g s) stopping in
    let idle : g'.work ≡ 0 = omega (arith, left, work, all) in
    (idle, wait-drained g' (Steps-Sound _ after_stop (stop-Sound g s)) still idle)
