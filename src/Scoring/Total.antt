-- ===== src/Scoring/Total.antt =====
-- What holds of a player's score after every operation of the scorer.
use nevr_anticheat.Prelude.{
  ◌≡◌, refl, String, false, ◌&&◌, List, [], ◌∷◌, inl, inr, arith, Option-cases, sym, Bool-cases,
}
use nevr_anticheat.Prelude.Int.{ℤ, ◌-ℤ◌}
use nevr_anticheat.Prelude.Dict.{AllValues, AllValues-insert, AllValues-lookup, lookup, insert}
use nevr_anticheat.Prelude.Float.{Float, IsOrdered, lit, ◌⋖◌}
use nevr_anticheat.Model.Level.{LevelTable}
use nevr_anticheat.Model.Level.Bounds.{not_lt_of_le}
use nevr_anticheat.Model.Event.{DetectionEvent}
use nevr_anticheat.Model.Score.{SuspicionScore, zero_score}
use nevr_anticheat.Scoring.Scorer.{
  Scorer, cap_hundred, floor_zero, recompute, fresh_score, get_or_create, put_player,
}
use nevr_anticheat.Scoring.Ingest.{
  ingest, accept, conclude, mark_frame, contribution, Outcome, refused, framed, scored,
}
use nevr_anticheat.Scoring.Bonus.{
  bonus_of, independent_categories, bonus_step, bonus_loop, apply_correlation_bonus, anchor_of,
  decayed, hours, decay_step, decay_loop, apply_decay,
}

module _ {ℓ} {W : Type ℓ} ⦃f : Float W⦄ where
  -- The total is the capped sum of two parts that are not negative, and the flags are derived from it.
  pub record IsSettled (table : LevelTable W) (auto : W) (sc : SuspicionScore W) : Type ℓ where
    pub base_nonneg : f.lt sc.base_score (lit 0) ≡ false
    pub bonus_nonneg : f.lt sc.correlation_bonus (lit 0) ≡ false
    pub total_sum : sc.total_score ≡ cap_hundred (f.add sc.base_score sc.correlation_bonus)
    pub total_capped : f.lt (lit 100) sc.total_score ≡ false
    pub review_flag : sc.exceeds_review ≡ f.le table.high_risk_from sc.total_score
    pub auto_flag : sc.exceeds_auto_enforce ≡ (f.lt (lit 0) auto && f.le auto sc.total_score)

  abbrev pub Settles : Scorer W → SuspicionScore W → Type ℓ
  Settles s = IsSettled s.table s.config.config_auto_threshold

  -- Every player's score is settled.
  abbrev pub AllSettled : Scorer W → Type ℓ
  AllSettled s = AllValues (Settles s) s.players

module _ {ℓ} {W : Type ℓ} ⦃f : Float W⦄ (o : IsOrdered W) where
  lit_irrefl : f.lt (lit 0) (lit 0) ≡ false
  lit_irrefl = not_lt_of_le o (lit 0) (lit 0) (o.lit_number 0)

  floor_nonneg : (x : W) → f.lt (floor_zero x) (lit 0) ≡ false
  floor_nonneg x = ground (arith, lit_irrefl)

  cap_capped : (x : W) → f.lt (lit 100) (cap_hundred x) ≡ false
  cap_capped x = ground (arith, not_lt_of_le o (lit 100) (lit 100) (o.lit_number 100))

  recompute-IsSettled : (s : Scorer W) (sc : SuspicionScore W) → Settles s (recompute s sc)
  unfolding recompute
  recompute-IsSettled s sc = record {
    base_nonneg = floor_nonneg sc.base_score;
    bonus_nonneg = floor_nonneg sc.correlation_bonus;
    total_sum = refl;
    total_capped = cap_capped _;
    review_flag = refl;
    auto_flag = refl;
  }

  fresh_score-IsSettled :
      (s : Scorer W) (player : String)
      → lit 0 ⋖ s.table.high_risk_from
      → Settles s (fresh_score s player)
  unfolding fresh_score zero_score
  fresh_score-IsSettled s player h = record {
    base_nonneg = lit_irrefl;
    bonus_nonneg = lit_irrefl;
    total_sum = rw o.zero-add-zero (ground (arith, under));
    total_capped = under;
    review_flag = sym (o.not_le_of_lt (lit 0) s.table.high_risk_from h);
    auto_flag = ground (arith, o.not_le_of_lt (lit 0) s.config.config_auto_threshold);
  }
    where
      under : f.lt (lit 100) (lit 0) ≡ false
      under =
          not_lt_of_le o (lit 0) (lit 100)
            (o.le_of_lt (lit 0) (lit 100) (o.lit_lt 0 100 (omega arith) (omega arith)))

  get_or_create-IsSettled :
      (s : Scorer W) (player : String)
      → lit 0 ⋖ s.table.high_risk_from
      → AllSettled s
      → Settles s (get_or_create s player)
  unfolding get_or_create
  get_or_create-IsSettled s player h all = elim (Option-cases (lookup player s.players)) [
    | inl e ↦ rw e (fresh_score-IsSettled s player h)
    | inr (sc, e) ↦ rw e (AllValues-lookup (Settles s) player s.players all e)
  ]

  put_player-AllSettled :
      (s : Scorer W) (player : String) (sc : SuspicionScore W)
      → Settles s sc
      → AllSettled s
      → AllSettled (put_player s player sc)
  unfolding put_player
  put_player-AllSettled s player sc h all = AllValues-insert (Settles s) player sc s.players h all

  stamped-IsSettled :
      (s : Scorer W) (sc : SuspicionScore W) (at : ℤ)
      → Settles s sc
      → Settles s (record sc { snapshot_time = at })
  stamped-IsSettled s sc at h = ground arith

  framed-IsSettled :
      (s : Scorer W) (sc : SuspicionScore W) (frames : List (String × ℤ))
      → Settles s sc
      → Settles s (record sc { last_event_frames = frames })
  framed-IsSettled s sc frames h = ground arith

  accept-AllSettled :
      (now snapshot : ℤ) (s : Scorer W) (sc : SuspicionScore W) (e : DetectionEvent W) (x : W)
      → AllSettled s
      → AllSettled (accept now snapshot s sc e x).0
  unfolding accept put_player
  accept-AllSettled now snapshot s sc e x all =
      AllValues-insert (Settles s) e.player_id _ s.players
        (stamped-IsSettled s _ snapshot (recompute-IsSettled s _)) all

  conclude-AllSettled :
      (o : Outcome) (now snapshot : ℤ) (s : Scorer W) (sc : SuspicionScore W) (e : DetectionEvent W)
      → Settles s sc
      → AllSettled s
      → AllSettled (conclude o now snapshot s sc e).0
  unfolding conclude mark_frame
  conclude-AllSettled refused now snapshot s sc e h all =
      put_player-AllSettled s e.player_id sc h all
  conclude-AllSettled framed now snapshot s sc e h all =
      put_player-AllSettled s e.player_id _
        (framed-IsSettled s sc (insert e.detector_id e.frame_index sc.last_event_frames) h) all
  conclude-AllSettled scored now snapshot s sc e h all =
      accept-AllSettled now snapshot s (mark_frame sc e) e (contribution s.config e) all

  pub ingest-AllSettled :
      (now snapshot : ℤ) (s : Scorer W) (e : DetectionEvent W)
      → lit 0 ⋖ s.table.high_risk_from
      → AllSettled s
      → AllSettled (ingest now snapshot s e).0
  unfolding ingest
  ingest-AllSettled now snapshot s e h all =
      conclude-AllSettled _ now snapshot s _ e (get_or_create-IsSettled s e.player_id h all) all

  bonus_step-IsSettled :
      (s : Scorer W) (basis : List (String × W)) (player : String) (sc : SuspicionScore W)
      → Settles s sc
      → Settles s (bonus_step s basis player sc).0
  unfolding bonus_step
  bonus_step-IsSettled s basis player sc h =
      let bonus = bonus_of s.config (independent_categories sc) in
      ground (arith, recompute-IsSettled s (record sc { correlation_bonus = bonus }))

  bonus_loop-settled :
      (s : Scorer W) (basis : List (String × W)) (players : List (String × SuspicionScore W))
      → AllValues (Settles s) players
      → AllValues (Settles s) (bonus_loop s basis players).0
  unfolding bonus_loop
  bonus_loop-settled s basis [] all = tt
  bonus_loop-settled s basis ((player, sc) ∷ rest) all = (
    bonus_step-IsSettled s basis player sc all.0,
    bonus_loop-settled s (bonus_step s basis player sc).1 rest all.1,
  )

  pub apply_correlation_bonus-AllSettled :
      (s : Scorer W) → AllSettled s → AllSettled (apply_correlation_bonus s)
  unfolding apply_correlation_bonus
  apply_correlation_bonus-AllSettled s all = bonus_loop-settled s s.bonus_basis s.players all

  anchored-IsSettled :
      (s : Scorer W) (sc : SuspicionScore W) (at : ℤ)
      → Settles s sc
      → Settles s (record sc { last_decay_time = at })
  anchored-IsSettled s sc at h = ground arith

  decayed-IsSettled :
      (now : ℤ) (s : Scorer W) (sc : SuspicionScore W) (factor : W)
      → Settles s (decayed now s sc factor)
  unfolding decayed
  decayed-IsSettled now s sc factor = recompute-IsSettled s _

  decay_step-IsSettled :
      (now : ℤ) (s : Scorer W) (sc : SuspicionScore W)
      → Settles s sc
      → Settles s (decay_step now s sc)
  unfolding decay_step
  decay_step-IsSettled now s sc h =
      let elapsed : W = hours (now -ℤ anchor_of sc) in
      ground (
        arith,
        anchored-IsSettled s sc (anchor_of sc),
        decayed-IsSettled now s sc (f.pow (f.ratio 1 2) (f.div elapsed s.config.half_life_hours)),
      )

  decay_loop-settled :
      (now : ℤ) (s : Scorer W) (players : List (String × SuspicionScore W))
      → AllValues (Settles s) players
      → AllValues (Settles s) (decay_loop now s players)
  unfolding decay_loop
  decay_loop-settled now s [] all = tt
  decay_loop-settled now s ((player, sc) ∷ rest) all =
      (decay_step-IsSettled now s sc all.0, decay_loop-settled now s rest all.1)

  pub apply_decay-AllSettled :
      (now : ℤ) (s : Scorer W) → AllSettled s → AllSettled (apply_decay now s)
  unfolding apply_decay
  apply_decay-AllSettled now s all = elim (Bool-cases (f.le s.config.half_life_hours (lit 0))) [
    | inl off ↦ rw off all
    | inr on ↦ rw on (decay_loop-settled now s s.players all)
  ]
