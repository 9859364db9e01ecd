-- ===== src/Scoring/Keys.antt =====
-- The scorer keeps one record for each player.
use nevr_anticheat.Prelude.{◌≡◌, ◌∙◌, refl, String, List, [], ◌∷◌, Bool-cases, inl, inr}
use nevr_anticheat.Prelude.Int.{ℤ}
use nevr_anticheat.Prelude.Dict.{has_key, Distinct, insert-Distinct}
use nevr_anticheat.Prelude.Float.{Float, lit}
use nevr_anticheat.Model.Event.{DetectionEvent}
use nevr_anticheat.Model.Score.{SuspicionScore}
use nevr_anticheat.Scoring.Scorer.{ScorerConfig, Scorer, new_scorer, put_player, reset}
use nevr_anticheat.Scoring.Ingest.{Outcome, refused, framed, scored, ingest, conclude, accept}
use nevr_anticheat.Scoring.Bonus.{
  bonus_step, bonus_loop, apply_correlation_bonus, decay_loop, apply_decay,
}
use nevr_anticheat.Scoring.History.{
  Call, ingests, bonuses, decays, starts, resets, call, history, set_match_start,
}

module _ {ℓ} {W : Type ℓ} ⦃f : Float W⦄ where
  has_key-bonus_loop :
      (s : Scorer W) (basis : List (String × W)) (players : List (String × SuspicionScore W))
      (k : String)
      → has_key k (bonus_loop s basis players).0 ≡ has_key k players
  unfolding bonus_loop has_key
  has_key-bonus_loop s basis [] k = refl
  has_key-bonus_loop s basis ((player, sc) ∷ rest) k =
      rw (has_key-bonus_loop s (bonus_step s basis player sc).1 rest k)

  bonus_loop-Distinct :
      (s : Scorer W) (basis : List (String × W)) (players : List (String × SuspicionScore W))
      → Distinct players
      → Distinct (bonus_loop s basis players).0
  unfolding bonus_loop
  bonus_loop-Distinct s basis [] d = tt
  bonus_loop-Distinct s basis ((player, sc) ∷ rest) d =
      let basis' = (bonus_step s basis player sc).1 in
      (has_key-bonus_loop s basis' rest player ∙ d.0, bonus_loop-Distinct s basis' rest d.1)

  has_key-decay_loop :
      (now : ℤ) (s : Scorer W) (players : List (String × SuspicionScore W)) (k : String)
      → has_key k (decay_loop now s players) ≡ has_key k players
  unfolding decay_loop has_key
  has_key-decay_loop now s [] k = refl
  has_key-decay_loop now s ((player, sc) ∷ rest) k = rw (has_key-decay_loop now s rest k)

  decay_loop-Distinct :
      (now : ℤ) (s : Scorer W) (players : List (String × SuspicionScore W))
      → Distinct players
      → Distinct (decay_loop now s players)
  unfolding decay_loop
  decay_loop-Distinct now s [] d = tt
  decay_loop-Distinct now s ((player, sc) ∷ rest) d =
      (has_key-decay_loop now s rest player ∙ d.0, decay_loop-Distinct now s rest d.1)

  conclude-Distinct :
      (o : Outcome) (now snapshot : ℤ) (s : Scorer W) (sc : SuspicionScore W) (e : DetectionEvent W)
      → Distinct s.players
      → Distinct (conclude o now snapshot s sc e).0.players
  unfolding conclude put_player accept
  conclude-Distinct refused now snapshot s sc e d = insert-Distinct e.player_id _ s.players d
  conclude-Distinct framed now snapshot s sc e d = insert-Distinct e.player_id _ s.players d
  conclude-Distinct scored now snapshot s sc e d = insert-Distinct e.player_id _ s.players d

  call-Distinct : (s : Scorer W) (c : Call W) → Distinct s.players → Distinct (call s c).players
  unfolding call ingest apply_correlation_bonus apply_decay set_match_start reset
  call-Distinct s (ingests now snapshot e) d = conclude-Distinct _ now snapshot s _ e d
  call-Distinct s bonuses d = bonus_loop-Distinct s s.bonus_basis s.players d
  call-Distinct s (decays now) d = elim (Bool-cases (f.le s.config.half_life_hours (lit 0))) [
    | inl e ↦ rw e d
    | inr e ↦ rw e (decay_loop-Distinct now s s.players d)
  ]
  call-Distinct s (starts at) d = d
  call-Distinct s resets d = tt

  from : (s : Scorer W) (cs : List (Call W)) → Distinct s.players → Distinct (history s cs).players
  unfolding history
  from s [] d = d
  from s (c ∷ cs) d = from (call s c) cs (call-Distinct s c d)

  pub history-Distinct :
      (c : ScorerConfig W) (cs : List (Call W)) → Distinct (history (new_scorer c) cs).players
  unfolding new_scorer
  history-Distinct c cs = from (new_scorer c) cs tt
