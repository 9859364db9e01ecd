-- ===== src/Enforce/Gates.antt =====
-- What a recommendation rests on.
use mathlib.Core.List.{Memᴰ}
use nevr_anticheat.Prelude.{
  ◌≡◌, refl, sym, ap, ◌∙◌, String, true, false, not, ◌&&◌, none, some, List, [], ◌∷◌, length, inl,
  inr, arith, Bool-cases, Option-cases,
}
use nevr_anticheat.Prelude.Int.{ℤ, pos, ◌≤ℤ◌, ◌-ℤ◌, leb_ℤ, ltb_ℤ}
use nevr_anticheat.Scoring.Scorer.{is_zero_time}
use nevr_anticheat.Prelude.Dict.{text_eq, text_eq_sound, none-ne-some}
use nevr_anticheat.Prelude.Float.{Float, ◌⩽◌}
use nevr_anticheat.Model.Level.{action_worthy, at_least, level_for}
use nevr_anticheat.Model.Event.{DetectionEvent}
use nevr_anticheat.Model.Score.{SuspicionScore}
use nevr_anticheat.Enforce.Action.{EnforcementAction, ActionType, temp_ban, Identity}
use nevr_anticheat.Enforce.Evidence.{
  player_events, categories, average_confidence, is_hard, has_hard,
}
use nevr_anticheat.Enforce.Engine.{
  Mode, shadow_mode, flag_mode, review_mode, enforce_mode, unknown_mode, Engine, prune, ban_gate,
  recommended, new_action, weigh, decide, is_cooling_down,
}

module _ {ℓ} {W : Type ℓ} ⦃f : Float W⦄ where
  hard_event :
      (es : List (DetectionEvent W))
      → has_hard es ≡ true
      → (e : DetectionEvent W) × Memᴰ e es × (is_hard e ≡ true)
  unfolding has_hard
  hard_event [] h = absurd (ground arith)
  hard_event (e ∷ es) h = elim (Bool-cases (is_hard e)) [
    | inl hit ↦ (e, Memᴰ.head refl, hit)
    | inr miss ↦ let (x, m, p) = hard_event es (rw miss at h) in (x, Memᴰ.tail m, p)
  ]

  -- An event of the whole list that is the player's and not shadow.
  abbrev IsOwn : String → List (DetectionEvent W) → DetectionEvent W → Type ℓ
  IsOwn player events e = Memᴰ e events × (e.player_id ≡ player) × (e.is_shadow ≡ false)

  IsOwn-tail :
      {player : String} {x e : DetectionEvent W} {xs : List (DetectionEvent W)}
      → IsOwn player xs e
      → IsOwn player (x ∷ xs) e
  IsOwn-tail (m, p, q) = (Memᴰ.tail m, p, q)

  IsOwn-cons :
      (player : String) (x e : DetectionEvent W) (xs rest : List (DetectionEvent W))
      → (text_eq x.player_id player && not x.is_shadow) ≡ true
      → (Memᴰ e rest → IsOwn player xs e)
      → Memᴰ e (x ∷ rest)
      → IsOwn player (x ∷ xs) e
  IsOwn-cons player x e xs rest b ih (Memᴰ.head p) = (
    Memᴰ.head p,
    ap (λ (y : DetectionEvent W). y.player_id) p
        ∙ text_eq_sound x.player_id player (ground (arith, b)),
    ap (λ (y : DetectionEvent W). y.is_shadow) p ∙ ground (arith, b),
  )
  IsOwn-cons player x e xs rest b ih (Memᴰ.tail m) = IsOwn-tail (ih m)

  player_events_mem :
      (player : String) (events : List (DetectionEvent W)) (e : DetectionEvent W)
      → Memᴰ e (player_events player events)
      → IsOwn player events e
  unfolding player_events
  player_events_mem player [] e m = elim m [ ]
  player_events_mem player (x ∷ xs) e m =
      elim (Bool-cases (text_eq x.player_id player && not x.is_shadow)) [
        | inl b ↦
            IsOwn-cons player x e xs (player_events player xs) b (player_events_mem player xs e)
              (rw b at m)
        | inr b ↦ IsOwn-tail (player_events_mem player xs e (rw b at m))
      ]

  pub recommended_ban :
      (mode : Mode) (s : Engine W) (score : SuspicionScore W) (es : List (DetectionEvent W))
      → recommended mode s score es ≡ some temp_ban
      → (mode ≡ enforce_mode) × (ban_gate s score es ≡ true)
  unfolding recommended
  recommended_ban mode s score es h = ground arith

  -- What a ban recommendation was made on.
  pub record IsBanGrounded (s : Engine W) (player : String) (score : SuspicionScore W)
      (events : List (DetectionEvent W)) : Type ℓ where
    pub enforcing : s.mode ≡ enforce_mode
    pub worthy : at_least (level_for s.levels score.total_score) action_worthy ≡ true
    pub matches : s.min_matches_for_ban ≤ℤ pos score.match_count
    pub broad : s.min_categories_for_ban ≤ℤ pos (length (categories (player_events player events)))
    pub confident : s.min_confidence_for_ban ⩽ average_confidence (player_events player events)
    pub hard : (e : DetectionEvent W) × IsOwn player events e × (is_hard e ≡ true)

  weigh_type :
      (digest : Identity → String) (now : ℤ) (s : Engine W) (player match : String)
      (score : SuspicionScore W) (es : List (DetectionEvent W)) (a : EnforcementAction W)
      → weigh digest now s player match score es ≡ some a
      → recommended s.mode s score es ≡ some a.action_type
  unfolding weigh
  weigh_type digest now s player match score [] a h = absurd (ground arith)
  weigh_type digest now s player match score (e ∷ es) a h =
      elim (Option-cases (recommended s.mode s score (e ∷ es))) [
        | inl none_yet ↦ absurd (ground (arith, none_yet))
        | inr (t, is) ↦ is ∙ ap some (ground (arith, is, new_action_type t))
      ]
    where
      new_action_type :
          (t : ActionType) → (new_action digest now s player match score (e ∷ es) t).action_type ≡ t
      new_action_type t = unfold new_action in refl

  grounds_of :
      (s : Engine W) (player : String) (score : SuspicionScore W) (events : List (DetectionEvent W))
      → (s.mode ≡ enforce_mode) × (ban_gate s score (player_events player events) ≡ true)
      → IsBanGrounded s player score events
  unfolding ban_gate
  grounds_of s player score events h = record {
    enforcing = h.0;
    worthy = ground arith;
    matches = ground arith;
    broad = ground arith;
    confident = ground arith;
    hard =
        let (e, m, p) = hard_event (player_events player events) (ground arith) in
        (e, player_events_mem player events e m, p);
  }

  recommended-times :
      (m : Mode) (s : Engine W) (score : SuspicionScore W) (es : List (DetectionEvent W)) (at : ℤ)
      (held : List (String × ℤ))
      → recommended m (record s { last_prune = at; cooldowns = held }) score es
        ≡ recommended m s score es
  unfolding recommended ban_gate
  recommended-times shadow_mode s score es at held = refl
  recommended-times flag_mode s score es at held = refl
  recommended-times review_mode s score es at held = refl
  recommended-times enforce_mode s score es at held = refl
  recommended-times unknown_mode s score es at held = refl

  recommended-prune :
      (now : ℤ) (s : Engine W) (score : SuspicionScore W) (es : List (DetectionEvent W))
      → recommended (prune now s).mode (prune now s) score es ≡ recommended s.mode s score es
  unfolding prune
  recommended-prune now s score es = elim (Bool-cases (leb_ℤ s.cooldown (pos 0))) [
    | inl e ↦ rw e (recommended-times s.mode s score es s.last_prune [])
    | inr e ↦
        rw e
          (elim (Bool-cases
            (not (is_zero_time s.last_prune) && ltb_ℤ (now -ℤ s.last_prune) s.cooldown)) [
              | inl k ↦ rw k refl
              | inr k ↦ rw k (recommended-times s.mode s score es now _)
            ])
  ]

  pub decided-recommended :
      (digest : Identity → String) (now : ℤ) (s : Engine W) (player match : String)
      (score : SuspicionScore W) (events : List (DetectionEvent W)) (a : EnforcementAction W)
      → (decide digest now s player match score events).1 ≡ some a
      → recommended s.mode s score (player_events player events) ≡ some a.action_type
  unfolding decide
  decided-recommended digest now s player match score events a h =
      sym (recommended-prune now s score (player_events player events))
      ∙ weigh_type digest now (prune now s) player match score (player_events player events) a
          (elim (Bool-cases (is_cooling_down now (prune now s) player)) [
            | inl e ↦ absurd (none-ne-some (rw e at h))
            | inr e ↦ rw e at h
          ])

  -- A temporary ban is recommended only in enforce mode, of a score in the highest tier, with enough
  -- matches, enough independent categories and enough average confidence, and only where some event
  -- of the player that is not shadow has AutoEnforce and a confidence above 0.95.
  pub decide-IsBanGrounded :
      (digest : Identity → String) (now : ℤ) (s : Engine W) (player match : String)
      (score : SuspicionScore W) (events : List (DetectionEvent W)) (a : EnforcementAction W)
      → (decide digest now s player match score events).1 ≡ some a
      → a.action_type ≡ temp_ban
      → IsBanGrounded s player score events
  decide-IsBanGrounded digest now s player match score events a h t =
      grounds_of s player score events (
        recommended_ban s.mode s score (player_events player events)
          (decided-recommended digest now s player match score events a h ∙ ap some t))

  -- In shadow mode nothing is ever recommended.
  decide_shadow :
      (digest : Identity → String) (now : ℤ) (s : Engine W) (player match : String)
      (score : SuspicionScore W) (events : List (DetectionEvent W))
      → s.mode ≡ shadow_mode
      → (decide digest now s player match score events).1 ≡ none
  decide_shadow digest now s player match score events m =
      elim (Option-cases (decide digest now s player match score events).1) [
        | inl e ↦ e
        | inr (a, e) ↦ absurd (
            none-ne-some (
              sym (silent s.mode m)
              ∙ decided-recommended digest now s player match score events a e))
      ]
    where
      silent :
          (mode : Mode)
          → mode ≡ shadow_mode
          → recommended mode s score (player_events player events) ≡ none
      silent mode e = unfold recommended in rw e
