-- ===== src/Scoring/Idempotent.antt =====
-- Applying the correlation bonus again, with no event or decay in between, changes nothing.
use nevr_anticheat.Prelude.{
  ℕ, ◌≡◌, refl, String, true, false, List, [], ◌∷◌, inl, inr, arith, Bool-cases, ap, ◌∙◌, ◌⊎◌, ◌-◌,
}
use nevr_anticheat.Prelude.Dict.{
  text_eq, lookup, lookup-insert, lookup-insert_self, has_key, Distinct,
}
use nevr_anticheat.Prelude.Float.{Float, IsOrdered, IsNumber, lit}
use nevr_anticheat.Model.Score.{SuspicionScore}
use nevr_anticheat.Scoring.Scorer.{ScorerConfig, Scorer, new_scorer, recompute}
use nevr_anticheat.Scoring.Bonus.{
  bonus_of, independent_categories, same_basis, bonus_step, bonus_loop, apply_correlation_bonus,
}
use nevr_anticheat.Scoring.History.{Call, history}
use nevr_anticheat.Scoring.Keys.{history-Distinct}

module _ {ℓ} {W : Type ℓ} ⦃f : Float W⦄ where
  -- The basis already holds the bonus that the player's categories give.
  abbrev IsBased : ScorerConfig W → List (String × W) → String → SuspicionScore W → Type 0
  IsBased c basis player sc =
      same_basis (lookup player basis) (bonus_of c (independent_categories sc)) ≡ true

  abbrev AllBased : ScorerConfig W → List (String × W) → List (String × SuspicionScore W) → Type 0
  AllBased c basis [] = Unit
  AllBased c basis ((player, sc) ∷ rest) = IsBased c basis player sc × AllBased c basis rest

  bonus_loop-based :
      (s : Scorer W) (basis : List (String × W)) (players : List (String × SuspicionScore W))
      → AllBased s.config basis players
      → bonus_loop s basis players ≡ (players, basis)
  unfolding bonus_loop bonus_step
  bonus_loop-based s basis [] all = refl
  bonus_loop-based s basis ((player, sc) ∷ rest) all =
      rw all.0 (rw (bonus_loop-based s basis rest all.1))

  -- The loop leaves the entries of other players alone.
  bonus_step_frame :
      (s : Scorer W) (basis : List (String × W)) (player other : String) (sc : SuspicionScore W)
      → text_eq player other ≡ false
      → lookup other (bonus_step s basis player sc).1 ≡ lookup other basis
  unfolding bonus_step
  bonus_step_frame s basis player other sc h =
      ground
        (arith, h, lookup-insert player other (bonus_of s.config (independent_categories sc)) basis)

  bonus_loop_frame :
      (s : Scorer W) (basis : List (String × W)) (players : List (String × SuspicionScore W))
      (other : String)
      → has_key other players ≡ false
      → lookup other (bonus_loop s basis players).1 ≡ lookup other basis
  unfolding bonus_loop has_key
  bonus_loop_frame s basis [] other h = refl
  bonus_loop_frame s basis ((player, sc) ∷ rest) other h =
      elim (Bool-cases (text_eq player other)) [
        | inl e ↦ absurd (ground (arith, h, e))
        | inr e ↦
            bonus_loop_frame s (bonus_step s basis player sc).1 rest other (rw e at h)
            ∙ bonus_step_frame s basis player other sc e
      ]

  bonus_step_categories :
      (s : Scorer W) (basis : List (String × W)) (player : String) (sc : SuspicionScore W)
      → independent_categories (bonus_step s basis player sc).0 ≡ independent_categories sc
  unfolding bonus_step recompute independent_categories
  bonus_step_categories s basis player sc = ground arith

module _ {ℓ} {W : Type ℓ} ⦃f : Float W⦄ (o : IsOrdered W) where
  bonus_of-IsNumber : (c : ScorerConfig W) (n : ℕ) → IsNumber (bonus_of c n)
  unfolding bonus_of
  bonus_of-IsNumber c n = ground (
    arith,
    o.number_of_le (lit 0) c.correlation_bonus_cap,
    o.lit-mul_number (n - 1) 5 (omega arith) (omega arith),
    o.lit_number 0,
  )

  bonus_step-IsBased :
      (s : Scorer W) (basis : List (String × W)) (player : String) (sc : SuspicionScore W)
      → IsBased s.config (bonus_step s basis player sc).1 player (bonus_step s basis player sc).0
  bonus_step-IsBased s basis player sc = rw bonus_step_categories (fresh (Bool-cases _))
    where
      bonus : W
      bonus = bonus_of s.config (independent_categories sc)

      self : f.eq bonus bonus ≡ true
      self =
          let n = bonus_of-IsNumber s.config (independent_categories sc) in
          o.eq_of_le bonus bonus n n

      fresh :
          (same_basis (lookup player basis) bonus ≡ true)
            ⊎ (same_basis (lookup player basis) bonus ≡ false)
          → same_basis (lookup player (bonus_step s basis player sc).1) bonus ≡ true
      fresh h = unfold bonus_step in ground (arith, self, lookup-insert_self player bonus basis)

  -- The records of later players do not touch the basis of this one.
  bonus_loop-AllBased :
      (s : Scorer W) (basis : List (String × W)) (players : List (String × SuspicionScore W))
      → Distinct players
      → AllBased s.config (bonus_loop s basis players).1 (bonus_loop s basis players).0
  unfolding bonus_loop
  bonus_loop-AllBased s basis [] d = tt
  bonus_loop-AllBased s basis ((player, sc) ∷ rest) d = (
    rw (bonus_loop_frame s (bonus_step s basis player sc).1 rest player d.0)
        (bonus_step-IsBased s basis player sc),
    bonus_loop-AllBased s (bonus_step s basis player sc).1 rest d.1,
  )

  idempotent :
      (s : Scorer W)
      → Distinct s.players
      → apply_correlation_bonus (apply_correlation_bonus s) ≡ apply_correlation_bonus s
  unfolding apply_correlation_bonus
  idempotent s d =
      ap
        (λ (r : List (String × SuspicionScore W) × List (String × W)). record s {
          players = r.0;
          bonus_basis = r.1;
        })
        (bonus_loop-based (apply_correlation_bonus s) _ _
          (bonus_loop-AllBased s s.bonus_basis s.players d))

  -- After any sequence of events, bonuses, decays and resets, applying the bonus twice in a row is
  -- applying it once: the whole scorer is unchanged by the second call.
  pub apply_correlation_bonus_idem :
      (c : ScorerConfig W) (cs : List (Call W))
      → let s = history (new_scorer c) cs in
        apply_correlation_bonus (apply_correlation_bonus s) ≡ apply_correlation_bonus s
  apply_correlation_bonus_idem c cs = idempotent _ (history-Distinct c cs)
