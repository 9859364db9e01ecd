-- ===== src/Antievasion/Release.antt =====
-- internal/antievasion/antievasion.go: every queued action is released once, and in the end.
use nevr_anticheat.Prelude.{
  ℕ, ◌+◌, ◌%◌, ◌<◌, ◌≡◌, refl, ap, Bool, true, List, [], ◌∷◌, ◌++◌, if◌then◌else◌, inl, inr,
  Bool-cases, arith,
}
use nevr_anticheat.Prelude.Int.{
  ℤ, pos, pos_part, neg_part, ◌+ℤ◌, ◌-ℤ◌, ◌≤ℤ◌, leb_ℤ, +ℤ_parts, -ℤ_parts,
}
use nevr_anticheat.Prelude.Float.{Float, lit}
use nevr_anticheat.Prelude.Text.{bytes}
use nevr_anticheat.Enforce.Action.{EnforcementAction}
use nevr_anticheat.Antievasion.Window.{fnv64, mix64}
use nevr_anticheat.Antievasion.Delay.{
  PendingAction, DelayedEnforcement, least_delay, greatest_delay, new_delayed_enforcement,
  split_ready, ready, delay_of, queue,
}

neg_part-sub : (a b : ℤ) → b ≤ℤ a → neg_part (a -ℤ b) ≡ 0
unfolding ◌-ℤ◌
neg_part-sub a b h = ground arith

-- A call of Queue, or of Ready, at a time.
pub data Call {ℓ} (W : Type ℓ) : Type ℓ where
  queues : EnforcementAction W → ℤ → Call W
  readies : ℤ → Call W

module _ {ℓ} {W : Type ℓ} where
  -- How many of the actions a test accepts.
  abbrev pub count : (EnforcementAction W → Bool) → List (EnforcementAction W) → ℕ
  count test [] = 0
  count test (a ∷ rest) = (if test a then 1 else 0) + count test rest

  abbrev pub queued : List (Call W) → List (EnforcementAction W)
  queued [] = []
  queued (queues a now ∷ calls) = a ∷ queued calls
  queued (readies now ∷ calls) = queued calls

  abbrev count_pending : (EnforcementAction W → Bool) → List (PendingAction W) → ℕ
  count_pending test [] = 0
  count_pending test (p ∷ ps) = (if test p.action then 1 else 0) + count_pending test ps

  -- Every call of Queue is followed by the longest delay before `until`.
  abbrev pub QueuedBy : ℤ → ℤ → List (Call W) → Type 0
  QueuedBy until longest [] = Unit
  QueuedBy until longest (queues a now ∷ calls) =
      (now +ℤ longest ≤ℤ until) × QueuedBy until longest calls
  QueuedBy until longest (readies now ∷ calls) = QueuedBy until longest calls

  count-append :
      (test : EnforcementAction W → Bool) (xs ys : List (EnforcementAction W))
      → count test (xs ++ ys) ≡ count test xs + count test ys
  count-append test [] ys = omega arith
  count-append test (x ∷ xs) ys = omega (arith, count-append test xs ys)

  count_pending-append :
      (test : EnforcementAction W → Bool) (ps : List (PendingAction W)) (p : PendingAction W)
      → count_pending test (ps ++ (p ∷ []))
        ≡ count_pending test ps + (if test p.action then 1 else 0)
  count_pending-append test [] p = omega arith
  count_pending-append test (q ∷ ps) p = omega (arith, count_pending-append test ps p)

  split_ready-count :
      (test : EnforcementAction W → Bool) (now : ℤ) (ps : List (PendingAction W))
      → count test (split_ready now ps).0 + count_pending test (split_ready now ps).1
        ≡ count_pending test ps
  unfolding split_ready
  split_ready-count test now [] = refl
  split_ready-count test now (p ∷ ps) = elim (Bool-cases (leb_ℤ p.execute_at now)) [
    | inl due ↦ rw due (omega (arith, split_ready-count test now ps))
    | inr early ↦ rw early (omega (arith, split_ready-count test now ps))
  ]

  -- No action waits for longer than `until`.
  abbrev DueBy : ℤ → List (PendingAction W) → Type 0
  DueBy until [] = Unit
  DueBy until (p ∷ ps) = (p.execute_at ≤ℤ until) × DueBy until ps

  DueBy-append :
      (until : ℤ) (ps : List (PendingAction W)) (p : PendingAction W)
      → DueBy until ps
      → p.execute_at ≤ℤ until
      → DueBy until (ps ++ (p ∷ []))
  DueBy-append until [] p h e = (e, tt)
  DueBy-append until (q ∷ ps) p h e = (h.0, DueBy-append until ps p h.1 e)

  split_ready-DueBy :
      (until now : ℤ) (ps : List (PendingAction W))
      → DueBy until ps
      → DueBy until (split_ready now ps).1
  unfolding split_ready
  split_ready-DueBy until now [] h = tt
  split_ready-DueBy until now (p ∷ ps) h = elim (Bool-cases (leb_ℤ p.execute_at now)) [
    | inl due ↦ rw due (split_ready-DueBy until now ps h.1)
    | inr early ↦ rw early (h.0, split_ready-DueBy until now ps h.1)
  ]

  split_ready_all :
      (now : ℤ) (ps : List (PendingAction W)) → DueBy now ps → (split_ready now ps).1 ≡ []
  unfolding split_ready
  split_ready_all now [] h = refl
  split_ready_all now (p ∷ ps) h =
      let due : leb_ℤ p.execute_at now ≡ true = ground (arith, h.0) in
      rw due (split_ready_all now ps h.1)

module _ {ℓ} {W : Type ℓ} ⦃f : Float W⦄ where
  -- The calls one after the other: the state, and all that Ready returned.
  abbrev pub after_calls :
      DelayedEnforcement W → List (Call W) → DelayedEnforcement W × List (EnforcementAction W)
  after_calls de [] = (de, [])
  after_calls de (queues a now ∷ calls) = after_calls (queue de a now) calls
  after_calls de (readies now ∷ calls) =
      let (de', out) = ready de now in
      let (last, more) = after_calls de' calls in (last, out ++ more)

  after_calls-count :
      (test : EnforcementAction W → Bool) (de : DelayedEnforcement W) (calls : List (Call W))
      → count test (after_calls de calls).1 + count_pending test (after_calls de calls).0.pending
        ≡ count_pending test de.pending + count test (queued calls)
  unfolding ready queue
  after_calls-count test de [] = omega arith
  after_calls-count test de (queues a now ∷ calls) = omega (
    arith,
    after_calls-count test (queue de a now) calls,
    count_pending-append test de.pending (record { action = a; execute_at = _ }),
  )
  after_calls-count test de (readies now ∷ calls) = omega (
    arith,
    after_calls-count test (ready de now).0 calls,
    count-append test (ready de now).1 (after_calls (ready de now).0 calls).1,
    split_ready-count test now de.pending,
  )

  module _
      (trunc_within : (n k : ℕ)
        → k < 1000
        → f.trunc (f.mul (lit n) (f.div (lit k) (lit 1000))) ≤ℤ pos n) where
    delay_of_within :
        (de : DelayedEnforcement W) (h : ℕ)
        → de.min_delay ≤ℤ de.max_delay
        → delay_of de h ≤ℤ de.max_delay
    unfolding delay_of
    delay_of_within de h le = omega (
      arith,
      neg_part-sub de.max_delay de.min_delay le,
      trunc_within (pos_part (de.max_delay -ℤ de.min_delay)) (h % 1000) (omega arith),
      +ℤ_parts de.min_delay (
          f.trunc (
            f.mul (lit (pos_part (de.max_delay -ℤ de.min_delay)))
              (f.div (lit (h % 1000)) (lit 1000)))),
      -ℤ_parts de.max_delay de.min_delay,
    )

    after_calls-DueBy :
        (until : ℤ) (de : DelayedEnforcement W) (calls : List (Call W))
        → de.min_delay ≤ℤ de.max_delay
        → QueuedBy until de.max_delay calls
        → DueBy until de.pending
        → DueBy until (after_calls de calls).0.pending
    unfolding ready queue
    after_calls-DueBy until de [] le q h = h
    after_calls-DueBy until de (queues a now ∷ calls) le q h =
        after_calls-DueBy until (queue de a now) calls le q.1 (
          DueBy-append until de.pending _ h (
            omega (
              arith,
              q.0,
              delay_of_within de (mix64 (fnv64 (bytes a.action_id))) le,
              +ℤ_parts now (delay_of de (mix64 (fnv64 (bytes a.action_id)))),
              +ℤ_parts now de.max_delay,
            )))
    after_calls-DueBy until de (readies now ∷ calls) le q h =
        after_calls-DueBy until (ready de now).0 calls le q
          (split_ready-DueBy until now de.pending h)

    -- If the fraction of a duration never exceeds it: after any calls of Queue and Ready on a new
    -- enforcer, a call of Ready at a time that is at least the longest delay after every call of Queue
    -- leaves nothing pending, and all that the calls of Ready have returned is what was queued, each
    -- action as often as it was queued, by any test of actions.
    pub released_once :
        (test : EnforcementAction W → Bool) (min_delay max_delay : ℤ) (calls : List (Call W))
        (now : ℤ)
        → QueuedBy now (greatest_delay max_delay (least_delay min_delay)) calls
        → ((ready (after_calls (new_delayed_enforcement min_delay max_delay) calls).0 now).0.pending
            ≡ [])
          × (count test (after_calls (new_delayed_enforcement min_delay max_delay) calls).1
                + count test
                    (ready
                      (after_calls (new_delayed_enforcement min_delay max_delay) calls).0
                      now).1
              ≡ count test (queued calls))
    unfolding new_delayed_enforcement ready
    released_once test min_delay max_delay calls now q =
        let de = new_delayed_enforcement min_delay max_delay in
        let last = (after_calls de calls).0 in
        let none_left =
          split_ready_all now last.pending (after_calls-DueBy now de calls (ground arith) q tt) in
        (
          none_left,
          omega (
            arith,
            after_calls-count test de calls,
            split_ready-count test now last.pending,
            ap (count_pending test) none_left,
          ),
        )
