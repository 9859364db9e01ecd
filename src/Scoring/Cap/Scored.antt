-- ===== src/Scoring/Cap/Scored.antt =====
-- internal/scoring/scorer.go: the cap bounds the events that are scored, since each of them is counted.
use nevr_anticheat.Prelude.{
  ℕ, ◌+◌, ◌≡◌, refl, sym, ap, ◌∙◌, ◌&&◌, String, Bool, true, Option, none, some, List, [], ◌∷◌, inl,
  inr, arith, Bool-cases, Option-cases, if◌then◌else◌,
}
use nevr_anticheat.Prelude.Int.{ℤ, pos, ltb_ℤ, ◌≤ℤ◌}
use nevr_anticheat.Prelude.Dict.{text_eq, text_eq_sound, lookup, insert, lookup-insert, count_at}
use nevr_anticheat.Prelude.Float.{Float, lit}
use nevr_anticheat.Model.Event.{DetectionEvent}
use nevr_anticheat.Model.Score.{SuspicionScore, zero_score}
use nevr_anticheat.Scoring.Scorer.{
  Scorer, ScorerConfig, new_scorer, fresh_score, get_or_create, put_player, recompute, reset,
}
use nevr_anticheat.Scoring.Ingest.{
  Outcome, refused, framed, scored, ingest, conclude, accept, accumulate, contribution, mark_frame,
}
use nevr_anticheat.Scoring.Bonus.{
  bonus_step, bonus_loop, apply_correlation_bonus, decay_loop, apply_decay,
}
use nevr_anticheat.Scoring.History.{
  Call, ingests, bonuses, decays, starts, resets, call, history, set_match_start,
}
use nevr_anticheat.Scoring.Cap.{
  count_at-bump_at, bonus_step_counts, decay_step_counts, history_within,
}

module _ {ℓ} {W : Type ℓ} ⦃f : Float W⦄ where
  abbrev counted : String → String → DetectionEvent W → Bool → ℕ → ℕ
  counted player detector e accepted n =
      if accepted && (text_eq e.player_id player && text_eq e.detector_id detector)
      then n + 1
      else n

  -- How many events of the player and detector IngestEventWithResult reports as scored, in calls from
  -- `s` on, since the last reset among them; `n` were scored before.
  abbrev pub scored_since : String → String → List (Call W) → Scorer W → ℕ → ℕ
  scored_since player d [] s n = n
  scored_since player d (ingests now snapshot e ∷ cs) s n =
      let done = ingest now snapshot s e in
      scored_since player d cs done.0 (counted player d e done.2 n)
  scored_since player d (bonuses ∷ cs) s n = scored_since player d cs (call s bonuses) n
  scored_since player d (decays now ∷ cs) s n = scored_since player d cs (call s (decays now)) n
  scored_since player d (starts at ∷ cs) s n = scored_since player d cs (call s (starts at)) n
  scored_since player d (resets ∷ cs) s n = scored_since player d cs (call s resets) 0

  abbrev counts_of : String → Option (SuspicionScore W) → ℕ
  counts_of d none = 0
  counts_of d (some sc) = count_at d sc.detector_counts

  -- What the scorer has counted for the player and detector.
  abbrev on_record : String → String → Scorer W → ℕ
  on_record player d s = counts_of d (lookup player s.players)

  get_or_create-counts :
      (s : Scorer W) (player d : String)
      → count_at d (get_or_create s player).detector_counts ≡ on_record player d s
  unfolding get_or_create fresh_score zero_score
  get_or_create-counts s player d = elim (Option-cases (lookup player s.players)) [
    | inl e ↦ rw e (unfold count_at lookup in refl)
    | inr (sc, e) ↦ rw e refl
  ]

  insert-counts :
      (at player d : String) (sc : SuspicionScore W) (m : List (String × SuspicionScore W))
      → counts_of d (lookup player (insert at sc m)) ≡ (
          if text_eq at player
          then count_at d sc.detector_counts
          else counts_of d (lookup player m))
  insert-counts at player d sc m =
      rw lookup-insert
        (elim (Bool-cases (text_eq at player)) [ inl e ↦ rw e refl | inr e ↦ rw e refl ])

  -- A record with the player's own counts changes nothing, and one with a count more adds it.
  same-counts :
      (at player d : String) (sc : SuspicionScore W) (m : List (String × SuspicionScore W))
      → count_at d sc.detector_counts ≡ counts_of d (lookup at m)
      → counts_of d (lookup player (insert at sc m)) ≡ counts_of d (lookup player m)
  same-counts at player d sc m h =
      insert-counts at player d sc m ∙ elim (Bool-cases (text_eq at player)) [
        | inl e ↦ rw e (h ∙ ap (λ p. counts_of d (lookup p m)) (text_eq_sound at player e))
        | inr e ↦ rw e refl
      ]

  accept-counts :
      (now snapshot : ℤ) (s : Scorer W) (sc : SuspicionScore W) (e : DetectionEvent W) (x : W)
      (player d : String)
      → ((k : String) → count_at k sc.detector_counts ≡ on_record e.player_id k s)
      → on_record player d (accept now snapshot s sc e x).0
        ≡ counted player d e true (on_record player d s)
  unfolding accept put_player accumulate recompute
  accept-counts now snapshot s sc e x player d h =
      insert-counts e.player_id player d _ s.players
      ∙ elim (Bool-cases (text_eq e.player_id player)) [
        | inl same ↦
            let own : counts_of d (lookup e.player_id s.players)
                ≡ counts_of d (lookup player s.players) =
              ap (λ p. counts_of d (lookup p s.players)) (text_eq_sound e.player_id player same) in
            rw (same, count_at-bump_at)
              (elim (Bool-cases (text_eq e.detector_id d)) [
                | inl hit ↦
                    let key : count_at e.detector_id sc.detector_counts
                        ≡ count_at d sc.detector_counts =
                      ap (λ k. count_at k sc.detector_counts) (text_eq_sound e.detector_id d hit) in
                    rw hit (omega (arith, key, h d, own))
                | inr miss ↦ rw miss (h d ∙ own)
              ])
        | inr other ↦ rw other refl
      ]

  conclude-counts :
      (o : Outcome) (now snapshot : ℤ) (s : Scorer W) (sc : SuspicionScore W) (e : DetectionEvent W)
      (player d : String)
      → ((k : String) → count_at k sc.detector_counts ≡ on_record e.player_id k s)
      → let done = conclude o now snapshot s sc e in
        on_record player d done.0 ≡ counted player d e done.2 (on_record player d s)
  unfolding conclude put_player mark_frame
  conclude-counts refused now snapshot s sc e player d h =
      same-counts e.player_id player d sc s.players (h d)
  conclude-counts framed now snapshot s sc e player d h =
      same-counts e.player_id player d _ s.players (h d)
  conclude-counts scored now snapshot s sc e player d h =
      accept-counts now snapshot s (mark_frame sc e) e (contribution s.config e) player d h
      ∙ unfold accept in refl

  bonus_loop-counts :
      (s : Scorer W) (basis : List (String × W)) (players : List (String × SuspicionScore W))
      (player d : String)
      → counts_of d (lookup player (bonus_loop s basis players).0)
        ≡ counts_of d (lookup player players)
  unfolding bonus_loop lookup
  bonus_loop-counts s basis [] player d = refl
  bonus_loop-counts s basis ((at, sc) ∷ rest) player d = elim (Bool-cases (text_eq at player)) [
    | inl e ↦ rw e (ap (count_at d) (bonus_step_counts s basis at sc))
    | inr e ↦ rw e (bonus_loop-counts s (bonus_step s basis at sc).1 rest player d)
  ]

  decay_loop-counts :
      (now : ℤ) (s : Scorer W) (players : List (String × SuspicionScore W)) (player d : String)
      → counts_of d (lookup player (decay_loop now s players)) ≡ counts_of d (lookup player players)
  unfolding decay_loop lookup
  decay_loop-counts now s [] player d = refl
  decay_loop-counts now s ((at, sc) ∷ rest) player d = elim (Bool-cases (text_eq at player)) [
    | inl e ↦ rw e (ap (count_at d) (decay_step_counts now s sc))
    | inr e ↦ rw e (decay_loop-counts now s rest player d)
  ]

  bonuses-counts :
      (s : Scorer W) (player d : String)
      → on_record player d (call s bonuses) ≡ on_record player d s
  unfolding call apply_correlation_bonus
  bonuses-counts s player d = bonus_loop-counts s s.bonus_basis s.players player d

  decays-counts :
      (now : ℤ) (s : Scorer W) (player d : String)
      → on_record player d (call s (decays now)) ≡ on_record player d s
  unfolding call apply_decay
  decays-counts now s player d = elim (Bool-cases (f.le s.config.half_life_hours (lit 0))) [
    | inl e ↦ rw e refl
    | inr e ↦ rw e (decay_loop-counts now s s.players player d)
  ]

  ingest-counts :
      (now snapshot : ℤ) (s : Scorer W) (e : DetectionEvent W) (player d : String)
      → let done = ingest now snapshot s e in
        on_record player d done.0 ≡ counted player d e done.2 (on_record player d s)
  unfolding ingest
  ingest-counts now snapshot s e player d =
      conclude-counts _ now snapshot s _ e player d (get_or_create-counts s e.player_id)

  scored_since-counts :
      (player d : String) (cs : List (Call W)) (s : Scorer W) (n : ℕ)
      → n ≡ on_record player d s
      → scored_since player d cs s n ≡ on_record player d (history s cs)
  unfolding history call set_match_start reset lookup
  scored_since-counts player d [] s n h = h
  scored_since-counts player d (ingests now snapshot e ∷ cs) s n h =
      scored_since-counts player d cs (ingest now snapshot s e).0 _ (
        ap (counted player d e (ingest now snapshot s e).2) h
        ∙ sym (ingest-counts now snapshot s e player d))
  scored_since-counts player d (bonuses ∷ cs) s n h =
      scored_since-counts player d cs (call s bonuses) n (h ∙ sym (bonuses-counts s player d))
  scored_since-counts player d (decays now ∷ cs) s n h =
      scored_since-counts player d cs (call s (decays now)) n
        (h ∙ sym (decays-counts now s player d))
  scored_since-counts player d (starts at ∷ cs) s n h =
      scored_since-counts player d cs (call s (starts at)) n h
  scored_since-counts player d (resets ∷ cs) s n h =
      scored_since-counts player d cs (call s resets) 0 refl

  -- Where the configuration sets a positive maximum of contributions per detector, then in any sequence
  -- of calls of a new scorer at most that many events of a player and detector are scored, as
  -- IngestEventWithResult reports it, since the last reset.
  pub scored_within :
      (c : ScorerConfig W) (cs : List (Call W)) (player detector : String)
      → ltb_ℤ (pos 0) c.max_contrib_per_detector ≡ true
      → pos (scored_since player detector cs (new_scorer c) 0) ≤ℤ c.max_contrib_per_detector
  scored_within c cs player detector p =
      rw
        (scored_since-counts player detector cs (new_scorer c) 0 (unfold new_scorer lookup in refl))
        (elim (Option-cases (lookup player (history (new_scorer c) cs).players)) [
          | inl e ↦ rw e (ground (arith, p))
          | inr (sc, e) ↦ rw e (history_within c cs player detector sc p e)
        ])
