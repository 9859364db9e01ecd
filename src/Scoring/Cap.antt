-- ===== src/Scoring/Cap.antt =====
-- internal/scoring/scorer.go: the count of a detector stays within what the configuration allows.
pub mod Scored
use nevr_anticheat.Prelude.{
  ℕ, ◌+◌, ◌≡◌, refl, ap, String, true, false, List, [], ◌∷◌, some, inl, inr, arith, Bool-cases,
  Option-cases, if◌then◌else◌,
}
use nevr_anticheat.Prelude.Int.{ℤ, pos, ltb_ℤ, leb_ℤ, ◌≤ℤ◌}
use nevr_anticheat.Prelude.Dict.{
  text_eq, lookup, lookup-insert, count_at, AllValues, AllValues-insert, AllValues-lookup,
}
use nevr_anticheat.Prelude.Float.{Float, lit}
use nevr_anticheat.Model.Event.{DetectionEvent}
use nevr_anticheat.Model.Score.{SuspicionScore, zero_score}
use nevr_anticheat.Scoring.Scorer.{
  Scorer, ScorerConfig, new_scorer, fresh_score, get_or_create, put_player, recompute, reset,
}
use nevr_anticheat.Scoring.Gates.{is_capped}
use nevr_anticheat.Scoring.Ingest.{
  Outcome, refused, framed, scored, ingest, outcome_of, conclude, accept, accumulate, bump_at,
  mark_frame,
}
use nevr_anticheat.Scoring.Bonus.{
  bonus_step, bonus_loop, apply_correlation_bonus, decay_step, decayed, decay_loop, apply_decay,
}
use nevr_anticheat.Scoring.History.{
  Call, ingests, bonuses, decays, starts, resets, call, history, history_fixed, set_match_start,
}

pub count_at-bump_at :
    (k d : String) (m : List (String × ℕ))
    → count_at d (bump_at k m) ≡ (if text_eq k d then count_at k m + 1 else count_at d m)
unfolding count_at bump_at
count_at-bump_at k d m = rw lookup-insert (ground arith)

room : (m : ℤ) (n : ℕ) → ltb_ℤ (pos 0) m ≡ true → leb_ℤ m (pos n) ≡ false → pos (n + 1) ≤ℤ m
room m n p h = ground arith

bump_within :
    (m : ℤ) (k d : String) (counts : List (String × ℕ))
    → pos (count_at k counts + 1) ≤ℤ m
    → pos (count_at d counts) ≤ℤ m
    → pos (count_at d (bump_at k counts)) ≤ℤ m
bump_within m k d counts p h =
    rw count_at-bump_at (elim (Bool-cases (text_eq k d)) [ inl e ↦ rw e p | inr e ↦ rw e h ])

module _ {ℓ} {W : Type ℓ} ⦃f : Float W⦄ where
  -- No count of the player exceeds a positive maximum.
  abbrev pub IsWithin : ℤ → SuspicionScore W → Type 0
  IsWithin m sc = (d : String) → ltb_ℤ (pos 0) m ≡ true → pos (count_at d sc.detector_counts) ≤ℤ m

  uncapped :
      (s : Scorer W) (sc : SuspicionScore W) (e : DetectionEvent W)
      → ltb_ℤ (pos 0) s.config.max_contrib_per_detector ≡ true
      → is_capped s sc e ≡ false
      → leb_ℤ s.config.max_contrib_per_detector (pos (count_at e.detector_id sc.detector_counts))
        ≡ false
  unfolding is_capped
  uncapped s sc e p h = rw p at h

  abbrev Within : Scorer W → SuspicionScore W → Type 0
  Within s = IsWithin s.config.max_contrib_per_detector

  pub bonus_step_counts :
      (s : Scorer W) (basis : List (String × W)) (player : String) (sc : SuspicionScore W)
      → (bonus_step s basis player sc).0.detector_counts ≡ sc.detector_counts
  unfolding bonus_step recompute
  bonus_step_counts s basis player sc = ground arith

  pub decay_step_counts :
      (now : ℤ) (s : Scorer W) (sc : SuspicionScore W)
      → (decay_step now s sc).detector_counts ≡ sc.detector_counts
  unfolding decay_step decayed recompute
  decay_step_counts now s sc = ground arith

  accept-IsWithin :
      (now snapshot : ℤ) (s : Scorer W) (sc : SuspicionScore W) (e : DetectionEvent W) (x : W)
      → is_capped s sc e ≡ false
      → IsWithin s.config.max_contrib_per_detector sc
      → IsWithin s.config.max_contrib_per_detector (accept now snapshot s sc e x).1
  unfolding accept accumulate recompute
  accept-IsWithin now snapshot s sc e x h k d p =
      bump_within _ e.detector_id d sc.detector_counts
        (room _ (count_at e.detector_id sc.detector_counts) p (uncapped s sc e p h)) (k d p)

  abbrev pub AllWithin : Scorer W → Type 0
  AllWithin s = AllValues (Within s) s.players

  scored-uncapped :
      (s : Scorer W) (sc : SuspicionScore W) (e : DetectionEvent W)
      → outcome_of s sc e ≡ scored
      → is_capped s (mark_frame sc e) e ≡ false
  unfolding outcome_of mark_frame is_capped
  scored-uncapped s sc e h = ground arith

  fresh-Within : (s : Scorer W) (player : String) → Within s (fresh_score s player)
  unfolding fresh_score zero_score count_at lookup
  fresh-Within s player d p = ground arith

  get_or_create-Within :
      (s : Scorer W) (player : String) → AllWithin s → Within s (get_or_create s player)
  unfolding get_or_create
  get_or_create-Within s player all = elim (Option-cases (lookup player s.players)) [
    | inl e ↦ rw e (fresh-Within s player)
    | inr (sc, e) ↦ rw e (AllValues-lookup (Within s) player s.players all e)
  ]

  conclude-Within :
      (o : Outcome) (now snapshot : ℤ) (s : Scorer W) (sc : SuspicionScore W) (e : DetectionEvent W)
      → outcome_of s sc e ≡ o
      → Within s sc
      → AllWithin s
      → AllWithin (conclude o now snapshot s sc e).0
  unfolding conclude put_player
  conclude-Within refused now snapshot s sc e h k all =
      AllValues-insert (Within s) e.player_id sc s.players k all
  conclude-Within framed now snapshot s sc e h k all =
      AllValues-insert (Within s) e.player_id (mark_frame sc e) s.players (unfold mark_frame in k)
        all
  conclude-Within scored now snapshot s sc e h k all =
      unfold accept put_player in
      AllValues-insert (Within s) e.player_id _ s.players
        (accept-IsWithin now snapshot s (mark_frame sc e) e _ (scored-uncapped s sc e h)
          (unfold mark_frame in k))
        all

  bonus_loop-Within :
      (s : Scorer W) (basis : List (String × W)) (players : List (String × SuspicionScore W))
      → AllValues (Within s) players
      → AllValues (Within s) (bonus_loop s basis players).0
  unfolding bonus_loop
  bonus_loop-Within s basis [] all = tt
  bonus_loop-Within s basis ((player, sc) ∷ rest) all = (
    λ d p. rw (bonus_step_counts s basis player sc) (all.0 d p),
    bonus_loop-Within s (bonus_step s basis player sc).1 rest all.1,
  )

  decay_loop-Within :
      (now : ℤ) (s : Scorer W) (players : List (String × SuspicionScore W))
      → AllValues (Within s) players
      → AllValues (Within s) (decay_loop now s players)
  unfolding decay_loop
  decay_loop-Within now s [] all = tt
  decay_loop-Within now s ((player, sc) ∷ rest) all =
      (λ d p. rw (decay_step_counts now s sc) (all.0 d p), decay_loop-Within now s rest all.1)

  call-Within : (s : Scorer W) (c : Call W) → AllWithin s → AllWithin (call s c)
  unfolding call ingest apply_correlation_bonus set_match_start reset
  call-Within s (ingests now snapshot e) all =
      conclude-Within _ now snapshot s _ e refl (get_or_create-Within s e.player_id all) all
  call-Within s bonuses all = bonus_loop-Within s s.bonus_basis s.players all
  call-Within s (decays now) all = elim (Bool-cases (f.le s.config.half_life_hours (lit 0))) [
    | inl e ↦ unfold apply_decay in rw e all
    | inr e ↦ unfold apply_decay in rw e (decay_loop-Within now s s.players all)
  ]
  call-Within s (starts at) all = all
  call-Within s resets all = tt

  from : (s : Scorer W) (cs : List (Call W)) → AllWithin s → AllWithin (history s cs)
  unfolding history
  from s [] all = all
  from s (c ∷ cs) all = from (call s c) cs (call-Within s c all)

  -- After any calls no count of a tracked player exceeds a positive maximum.
  pub history_within :
      (c : ScorerConfig W) (cs : List (Call W)) (player detector : String) (sc : SuspicionScore W)
      → ltb_ℤ (pos 0) c.max_contrib_per_detector ≡ true
      → lookup player (history (new_scorer c) cs).players ≡ some sc
      → pos (count_at detector sc.detector_counts) ≤ℤ c.max_contrib_per_detector
  unfolding new_scorer
  history_within c cs player detector sc p e =
      let s = history (new_scorer c) cs in
      let here = AllValues-lookup (Within s) player s.players (from (new_scorer c) cs tt) e in
      let same =
        ap (λ (k : ScorerConfig W). k.max_contrib_per_detector)
          (history_fixed (new_scorer c) cs).1 in
      rw same at (here detector (rw same p))
