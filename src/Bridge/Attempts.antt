-- ===== src/Bridge/Attempts.antt =====
-- cmd/bridge/sender.go: the synchronous connection gives up after a bounded number of dials.
use nevr_anticheat.Prelude.{
  ℕ, zero, suc, ◌+◌, ◌<◌, ◌≡◌, refl, sym, ap, ◌∙◌, ◌⊎◌, Bool, true, false, inl, inr, arith,
}
use nevr_anticheat.Prelude.Int.{ℤ}
use nevr_anticheat.Bridge.Sender.{WsSender}
use nevr_anticheat.Bridge.Dial.{
  Hello, DialResult, dialed, rejected, failed, dial, dial_result, after_dial, connect,
}

-- `count` dials from number `k` on failed, and none was a rejection.
abbrev pub AllFailed : ℕ → (ℕ → Hello) → ℕ → Type 0
AllFailed zero hellos k = Unit
AllFailed (suc count) hellos k = (dial_result (hellos k) ≡ failed) × AllFailed count hellos (suc k)

-- What connect reports: `i` dials failed, and then the result is that of one more.
abbrev pub IsOutcome : ℕ → (ℕ → Hello) → ℕ → WsSender × DialResult × ℕ → Type 0
IsOutcome n hellos k (s, result, dials) =
    (i : ℕ) × (i < n)
    × (dials ≡ suc i)
    × AllFailed i hellos k
    × (result ≡ dial_result (hellos (k + i)))

after_dial-IsOutcome :
    (left : ℕ) (s : WsSender) (now : ℤ) (hellos : ℕ → Hello) (cancels : Bool) (k : ℕ)
    (r : DialResult) (next : WsSender × DialResult × ℕ)
    → r ≡ dial_result (hellos k)
    → (next ≡ (s, failed, 0)) ⊎ IsOutcome left hellos (suc k) next
    → IsOutcome (suc left) hellos k (after_dial s r now cancels next)
unfolding after_dial
after_dial-IsOutcome left s now hellos cancels k dialed next e o =
    (0, omega arith, refl, tt, e ∙ ap (λ j. dial_result (hellos j)) (omega arith))
after_dial-IsOutcome left s now hellos cancels k rejected next e o =
    (0, omega arith, refl, tt, e ∙ ap (λ j. dial_result (hellos j)) (omega arith))
after_dial-IsOutcome left s now hellos true k failed next e o =
    (0, omega arith, refl, tt, e ∙ ap (λ j. dial_result (hellos j)) (omega arith))
after_dial-IsOutcome left s now hellos false k failed next e (inl none_left) = (
  0,
  omega arith,
  ap (λ t. suc t.2) none_left,
  tt,
  ap (λ t. t.1) none_left ∙ e ∙ ap (λ j. dial_result (hellos j)) (omega arith),
)
after_dial-IsOutcome left s now hellos false k failed next e (inr (i, lt, count, all, last)) = (
  suc i,
  omega arith,
  ap suc count,
  (sym e, all),
  last ∙ ap (λ j. dial_result (hellos j)) (omega arith),
)

-- With n attempts, one at least, connect makes no more than n dials: all but the last of them failed
-- without a rejection, and its result is that of the last.
pub connect-IsOutcome :
    (n : ℕ) (s : WsSender) (now : ℤ) (hellos : ℕ → Hello) (cancels : ℕ → Bool) (k : ℕ)
    → 0 < n
    → IsOutcome n hellos k (connect n s now hellos cancels k)
unfolding connect dial
connect-IsOutcome zero s now hellos cancels k h = absurd (omega arith)
connect-IsOutcome (suc zero) s now hellos cancels k h =
    after_dial-IsOutcome 0 _ now hellos (cancels k) k _ _ refl (inl refl)
connect-IsOutcome (suc (suc n)) s now hellos cancels k h =
    after_dial-IsOutcome (suc n) _ now hellos (cancels k) k _ _ refl (
      inr
        (connect-IsOutcome (suc n) (dial s (hellos k)).0 now hellos cancels (suc k) (omega arith)))
