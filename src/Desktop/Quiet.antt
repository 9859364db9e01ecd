-- ===== src/Desktop/Quiet.antt =====
-- cmd/desktop/heartbeat.go: the application quits only after real silence.
use nevr_anticheat.Prelude.{
  ◌+◌, ◌≤◌, ◌≡◌, refl, sym, ap, subst, ◌∙◌, Bool, true, false, List, [], ◌∷◌, ◌||◌, inl, inr,
  Bool-cases, arith,
}
use nevr_anticheat.Prelude.Int.{ℤ, pos, ◌-ℤ◌, ◌≤ℤ◌, int_laws}
use nevr_anticheat.Desktop.Heartbeat.{
  HeartbeatTimings, HeartbeatWatchdog, Signal, should_exit, limit_of, handle, run,
  new_heartbeat_watchdog,
}
use nevr_anticheat.Desktop.Signals.{
  starts, finishes, has_beat, time_of, LifeUntil, InOrder, LifeBy-mono, LifeBy-of_time,
  LifeUntil-mono,
}
use nevr_anticheat.Desktop.Handle.{
  handle-inflight, handle-disabled, handle-seen, handle-last, handle-LifeBy, first_beat, exit_cases,
  handle-timings,
}

run_quiet :
    (w : HeartbeatWatchdog) (sig : Signal) (sigs : List Signal)
    → (run w (sig ∷ sigs)).1 ≡ false
    → ((handle w sig).1 ≡ false) × (run w (sig ∷ sigs) ≡ run (handle w sig).0 sigs)
unfolding run
run_quiet w sig sigs h = elim (Bool-cases (handle w sig).1) [
  | inl e ↦ absurd (ground (arith, h, e))
  | inr e ↦ (e, rw e refl)
]

run-inflight :
    (w : HeartbeatWatchdog) (sigs : List Signal)
    → (run w sigs).1 ≡ false
    → starts sigs + w.inflight ≤ (run w sigs).0.inflight + finishes sigs
unfolding run
run-inflight w [] h = omega arith
run-inflight w (sig ∷ sigs) h =
    ground (arith, handle-inflight w sig, run-inflight (handle w sig).0 sigs)

run-seen :
    (w : HeartbeatWatchdog) (sigs : List Signal)
    → (run w sigs).1 ≡ false
    → (run w sigs).0.seen ≡ (has_beat sigs || w.seen)
unfolding run
run-seen w [] h = refl
run-seen w (sig ∷ sigs) h = ground (arith, handle-seen w sig, run-seen (handle w sig).0 sigs)

run-last :
    (w : HeartbeatWatchdog) (c : ℤ) (sigs : List Signal)
    → (run w sigs).1 ≡ false
    → w.last ≤ℤ c
    → InOrder c sigs
    → w.last ≤ℤ (run w sigs).0.last
unfolding run
run-last w c [] h le o = omega arith
run-last w c (sig ∷ sigs) h le o =
    ground (arith, handle-last w sig, o.0, o.1, run-last (handle w sig).0 (time_of sig) sigs)

-- Before the first heartbeat a sign of life may go unnoticed, but the heartbeat comes after it.
run-reached :
    (w : HeartbeatWatchdog) (c : ℤ) (sigs : List Signal)
    → (run w sigs).1 ≡ false
    → w.last ≤ℤ c
    → InOrder c sigs
    → w.seen ≡ false
    → (run w sigs).0.seen ≡ true
    → c ≤ℤ (run w sigs).0.last
unfolding run
run-reached w c [] h le o u e = ground arith
run-reached w c (sig ∷ sigs) h le o u e =
    let (quiet, same) = run_quiet w sig sigs h in
    let h' = sym (ap (λ r. r.1) same) ∙ h in
    let e' = sym (ap (λ r. r.0.seen) same) ∙ e in
    rw same (elim (Bool-cases (handle w sig).0.seen) [
      | inl met ↦ omega (
        arith,
        o.0,
        first_beat w sig u met,
        run-last (handle w sig).0 (time_of sig) sigs h' (handle-last w sig (omega (arith, o.0))).1
            o.1,
      )
      | inr unmet ↦ omega (
        arith,
        o.0,
        run-reached (handle w sig).0 (time_of sig) sigs h'
            (handle-last w sig (omega (arith, o.0))).1 o.1 unmet e',
      )
    ])

run-LifeUntil :
    (w : HeartbeatWatchdog) (c : ℤ) (sigs : List Signal)
    → w.disabled ≡ false
    → (run w sigs).1 ≡ false
    → w.last ≤ℤ c
    → InOrder c sigs
    → (run w sigs).0.seen ≡ true
    → LifeUntil (run w sigs).0.last sigs
unfolding run
run-LifeUntil w c [] d h le o e = tt
run-LifeUntil w c (sig ∷ sigs) d h le o e =
    let (quiet, same) = run_quiet w sig sigs h in
    let h' = sym (ap (λ r. r.1) same) ∙ h in
    let e' = sym (ap (λ r. r.0.seen) same) ∙ e in
    let at = (handle-last w sig (omega (arith, o.0))).1 in
    subst (λ r. LifeUntil r.0.last (sig ∷ sigs)) (sym same)
      (
        elim (Bool-cases (handle w sig).0.seen) [
          | inl met ↦
              LifeBy-mono _ _ sig (run-last (handle w sig).0 (time_of sig) sigs h' at o.1)
                (handle-LifeBy w sig d met)
          | inr unmet ↦
              LifeBy-of_time _ sig
                (run-reached (handle w sig).0 (time_of sig) sigs h' at o.1 unmet e')
        ],
        run-LifeUntil (handle w sig).0 (time_of sig) sigs (handle-disabled w sig ∙ d) h' at o.1 e',
      )

run-timings :
    (w : HeartbeatWatchdog) (sigs : List Signal)
    → (run w sigs).1 ≡ false
    → (run w sigs).0.timings ≡ w.timings
unfolding run
run-timings w [] h = refl
run-timings w (sig ∷ sigs) h =
    ground (arith, handle-timings w sig, run-timings (handle w sig).0 sigs)

leaving_silence-le-limit_of :
    (w : HeartbeatWatchdog)
    → w.timings.leaving_silence ≤ℤ w.timings.silence
    → w.timings.leaving_silence ≤ℤ limit_of w
unfolding limit_of
leaving_silence-le-limit_of w h = ground arith

-- The watchdog of a new server exits at a tick only after real silence. If its limit for a leaving page
-- is at most its other limit, the clock did not go back, no tick among the signals exited, and the tick
-- at `now` exits, then: a heartbeat is among the signals, at least as many requests were finished as
-- started, nothing works in the background, and every sign of life among them - a heartbeat, the start
-- or end of a request, a tick that saw background work - is at least the leaving limit ago.
pub should_exit-run :
    (timings : HeartbeatTimings) (sigs : List Signal) (now : ℤ) (busy : Bool)
    → InOrder (pos 0) sigs
    → timings.leaving_silence ≤ℤ timings.silence
    → (run (new_heartbeat_watchdog timings) sigs).1 ≡ false
    → (should_exit (run (new_heartbeat_watchdog timings) sigs).0 now busy).1 ≡ true
    → (has_beat sigs ≡ true)
      × (starts sigs ≤ finishes sigs)
      × (busy ≡ false)
      × LifeUntil (now -ℤ timings.leaving_silence) sigs
unfolding new_heartbeat_watchdog
should_exit-run timings sigs now busy o le h e =
    let w = new_heartbeat_watchdog timings in
    let w' = (run w sigs).0 in
    let (met, idle, free, late) = exit_cases w' now busy e in
    let same : w'.timings ≡ timings = run-timings w sigs h in
    let least : timings.leaving_silence ≤ℤ limit_of w' =
      subst (λ t. t.leaving_silence ≤ℤ limit_of w') same
        (leaving_silence-le-limit_of w'
          (subst (λ t. t.leaving_silence ≤ℤ t.silence) (sym same) le)) in
    (
      ground (arith, run-seen w sigs h, met),
      omega (arith, idle, run-inflight w sigs h),
      free,
      LifeUntil-mono w'.last (now -ℤ timings.leaving_silence) sigs (omega int_laws)
          (run-LifeUntil w (pos 0) sigs refl h (omega arith) o met),
    )
