-- ===== src/Scoring/History.antt =====
-- What holds of the scorer after any sequence of its operations.
use nevr_anticheat.Prelude.{◌≡◌, ◌∙◌, refl, String, List, [], ◌∷◌, some, arith}
use nevr_anticheat.Prelude.Int.{ℤ}
use nevr_anticheat.Prelude.Dict.{AllValues-lookup, lookup}
use nevr_anticheat.Prelude.Float.{Float, IsOrdered, lit, ◌⋖◌}
use nevr_anticheat.Model.Event.{DetectionEvent}
use nevr_anticheat.Model.Score.{SuspicionScore}
use nevr_anticheat.Scoring.Scorer.{
  ScorerConfig, Scorer, effective_levels, new_scorer, put_player, reset,
}
use nevr_anticheat.Scoring.Ingest.{ingest, conclude, accept, Outcome, refused, framed, scored}
use nevr_anticheat.Scoring.Bonus.{apply_correlation_bonus, apply_decay}
use nevr_anticheat.Scoring.Total.{
  IsSettled, AllSettled, Settles, ingest-AllSettled, apply_correlation_bonus-AllSettled,
  apply_decay-AllSettled,
}

-- A call of the scorer: an event with the two readings of the clock, the bonus, a decay, a match start,
-- or a reset.
pub data Call {ℓ} (W : Type ℓ) : Type ℓ where
  ingests : ℤ → ℤ → DetectionEvent W → Call W
  bonuses : Call W
  decays : ℤ → Call W
  starts : ℤ → Call W
  resets : Call W

module _ {ℓ} {W : Type ℓ} ⦃f : Float W⦄ where
  -- SetMatchStart
  unfoldable pub set_match_start : Scorer W → ℤ → Scorer W
  set_match_start s start = record s { match_start = start }

  unfoldable pub call : Scorer W → Call W → Scorer W
  call s (ingests now snapshot e) = (ingest now snapshot s e).0
  call s bonuses = apply_correlation_bonus s
  call s (decays now) = apply_decay now s
  call s (starts at) = set_match_start s at
  call s resets = reset s

  unfoldable pub history : Scorer W → List (Call W) → Scorer W
  history s [] = s
  history s (c ∷ cs) = history (call s c) cs

  conclude_fixed :
      (o : Outcome) (now snapshot : ℤ) (s : Scorer W) (sc : SuspicionScore W) (e : DetectionEvent W)
      → let s' = (conclude o now snapshot s sc e).0 in (s'.table ≡ s.table) × (s'.config ≡ s.config)
  unfolding conclude put_player accept
  conclude_fixed refused now snapshot s sc e = (refl, refl)
  conclude_fixed framed now snapshot s sc e = (refl, refl)
  conclude_fixed scored now snapshot s sc e = (refl, refl)

  -- No call changes the table or the configuration.
  call_fixed :
      (s : Scorer W) (c : Call W) → ((call s c).table ≡ s.table) × ((call s c).config ≡ s.config)
  unfolding call ingest apply_correlation_bonus apply_decay set_match_start reset
  call_fixed s (ingests now snapshot e) = conclude_fixed _ now snapshot s _ e
  call_fixed s bonuses = (refl, refl)
  call_fixed s (decays now) = (ground arith, ground arith)
  call_fixed s (starts at) = (refl, refl)
  call_fixed s resets = (refl, refl)

  pub history_fixed :
      (s : Scorer W) (cs : List (Call W))
      → ((history s cs).table ≡ s.table) × ((history s cs).config ≡ s.config)
  unfolding history
  history_fixed s [] = (refl, refl)
  history_fixed s (c ∷ cs) =
      let rest = history_fixed (call s c) cs in
      let here = call_fixed s c in (rest.0 ∙ here.0, rest.1 ∙ here.1)

module _ {ℓ} {W : Type ℓ} ⦃f : Float W⦄ (o : IsOrdered W) where
  call-AllSettled :
      (s : Scorer W) (c : Call W)
      → lit 0 ⋖ s.table.high_risk_from
      → AllSettled s
      → AllSettled (call s c)
  unfolding call set_match_start reset
  call-AllSettled s (ingests now snapshot e) h all = ingest-AllSettled o now snapshot s e h all
  call-AllSettled s bonuses h all = apply_correlation_bonus-AllSettled o s all
  call-AllSettled s (decays now) h all = apply_decay-AllSettled o now s all
  call-AllSettled s (starts at) h all = all
  call-AllSettled s resets h all = tt

  history-AllSettled :
      (s : Scorer W) (cs : List (Call W))
      → lit 0 ⋖ s.table.high_risk_from
      → AllSettled s
      → AllSettled (history s cs)
  unfolding history
  history-AllSettled s [] h all = all
  history-AllSettled s (c ∷ cs) h all =
      history-AllSettled (call s c) cs (rw (call_fixed s c).0 h) (call-AllSettled s c h all)

  -- With a positive review boundary, after any sequence of events, bonuses, decays and resets every
  -- tracked player's total is the sum of base and bonus cut at 100, neither part is negative, the total is
  -- never above 100, and both threshold flags say exactly whether the total has reached them.
  pub history-IsSettled :
      (c : ScorerConfig W) (cs : List (Call W)) (player : String) (sc : SuspicionScore W)
      → lit 0 ⋖ (effective_levels c).high_risk_from
      → lookup player (history (new_scorer c) cs).players ≡ some sc
      → IsSettled (effective_levels c) c.config_auto_threshold sc
  unfolding new_scorer
  history-IsSettled c cs player sc h e =
      let (table, config) = history_fixed (new_scorer c) cs in
      let all = history-AllSettled (new_scorer c) cs h tt in
      let here = AllValues-lookup (Settles (history (new_scorer c) cs)) player _ all e in
      rw (table, config) at here
