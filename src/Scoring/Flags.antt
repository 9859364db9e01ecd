-- ===== src/Scoring/Flags.antt =====
-- What a caller is told of a player, and what a reset leaves.
use nevr_anticheat.Prelude.{◌≡◌, refl, sym, ap, ◌∙◌, String, List, [], inl, inr, Option-cases}
use nevr_anticheat.Prelude.Dict.{lookup}
use nevr_anticheat.Prelude.Float.{Float, IsOrdered, lit, ◌⋖◌}
use nevr_anticheat.Model.Level.{LevelTable}
use nevr_anticheat.Model.Score.{zero_score}
use nevr_anticheat.Scoring.Scorer.{
  ScorerConfig, Scorer, new_scorer, effective_levels, get_score, exceeds_review_threshold,
  exceeds_auto_enforce_threshold, reset,
}
use nevr_anticheat.Scoring.History.{Call, history, history_fixed, history-IsSettled}

module _ {ℓ} {W : Type ℓ} ⦃f : Float W⦄ where
  -- After any sequence of calls a reset leaves what a new scorer of the same configuration is, except
  -- for the match start, which it keeps.
  reset-history :
      (c : ScorerConfig W) (cs : List (Call W))
      → reset (history (new_scorer c) cs)
        ≡ record (new_scorer c) { match_start = (history (new_scorer c) cs).match_start }
  unfolding reset new_scorer
  reset-history c cs =
      let (table, config) = history_fixed (new_scorer c) cs in
      renewed (history (new_scorer c) cs) _ _ config table
    where
      renewed :
          (s : Scorer W) (k : ScorerConfig W) (t : LevelTable W)
          → s.config ≡ k
          → s.table ≡ t
          → reset s
            ≡ record s { config = k; table = t; players = []; bonus_basis = []; seen_events = [] }
      renewed s k t p q = cc

  table_of :
      (c : ScorerConfig W) (cs : List (Call W))
      → (history (new_scorer c) cs).table ≡ effective_levels c
  unfolding new_scorer
  table_of c cs = (history_fixed (new_scorer c) cs).0

  -- With a positive review boundary, after any sequence of calls, resets included, the two threshold questions are
  -- answered as the flags of the score that GetScore returns, also for a player who is not tracked.
  pub flags-history :
      IsOrdered W
      → (c : ScorerConfig W) (cs : List (Call W)) (player : String)
      → lit 0 ⋖ (effective_levels c).high_risk_from
      → let s = history (new_scorer c) cs in
        (exceeds_review_threshold s player ≡ (get_score s player).exceeds_review)
        × (exceeds_auto_enforce_threshold s player ≡ (get_score s player).exceeds_auto_enforce)
  unfolding exceeds_review_threshold exceeds_auto_enforce_threshold get_score
  flags-history o c cs player h =
      elim (Option-cases (lookup player (history (new_scorer c) cs).players)) [
        | inl e ↦ rw e (unfold zero_score in (refl, refl))
        | inr (sc, e) ↦
            let settled = history-IsSettled o c cs player sc h e in
            rw e (
              ap (λ (t : LevelTable W). f.le t.high_risk_from sc.total_score) (table_of c cs)
                  ∙ sym settled.review_flag,
              refl,
            )
      ]
