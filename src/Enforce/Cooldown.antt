-- ===== src/Enforce/Cooldown.antt =====
-- After a recommendation its player gets no other until the cooldown has passed.
pub mod Rest
use nevr_anticheat.Prelude.{
  ◌≡◌, refl, sym, ap, String, Bool, true, false, not, ◌&&◌, Option, none, some, List, [], ◌∷◌, inl,
  inr, arith, Bool-cases,
}
use nevr_anticheat.Prelude.Int.{ℤ, pos, ◌-ℤ◌, leb_ℤ, ltb_ℤ}
use nevr_anticheat.Prelude.Dict.{
  text_eq, text_eq_sound, lookup, insert, delete, lookup-insert, lookup-delete, lookup-retain,
  lookup-insert_self, none-ne-some,
}
use nevr_anticheat.Prelude.Float.{Float}
use mathlib.Core.Path.{subst}
use nevr_anticheat.Scoring.Scorer.{is_zero_time}
use nevr_anticheat.Model.Event.{DetectionEvent}
use nevr_anticheat.Model.Score.{SuspicionScore}
use nevr_anticheat.Enforce.Action.{EnforcementAction, Identity}
use nevr_anticheat.Enforce.Engine.{
  Engine, Store, no_store, undurable, durable, Claim, created, duplicate, failed, prune,
  is_cooling_down, reserve, release_if, decide, release_failed, settle, dispatch, evaluate, recent,
}

-- One call of Evaluate.
pub record Evaluation {ℓ} (W : Type ℓ) : Type ℓ where
  pub store : Store W
  pub at : ℤ
  pub player : String
  pub match : String
  pub score : SuspicionScore W
  pub events : List (DetectionEvent W)

module _ {ℓ} {W : Type ℓ} ⦃f : Float W⦄ (digest : Identity → String) where
  -- The engine after a call, and what the call returns.
  abbrev pub evaluated : Engine W → Evaluation W → Engine W × Option (EnforcementAction W) × Bool
  evaluated s c = evaluate digest c.store c.at s c.player c.match c.score c.events

  unfoldable pub evaluate_all : Engine W → List (Evaluation W) → Engine W
  evaluate_all s [] = s
  evaluate_all s (c ∷ cs) = evaluate_all (evaluated s c).0 cs

-- The player's last recommendation was at that time, and the cooldown is positive.
pub record IsHeld {ℓ} {W : Type ℓ} (player : String) (at limit : ℤ) (s : Engine W) : Type 0 where
  pub entry : lookup player s.cooldowns ≡ some at
  pub limited : s.cooldown ≡ limit
  pub positive : leb_ℤ limit (pos 0) ≡ false

not_expired : (a b : ℤ) → ltb_ℤ a b ≡ true → not (leb_ℤ b a) ≡ true
not_expired a b h = ground arith

module _ {ℓ} {W : Type ℓ} where
  prune-IsHeld :
      (now : ℤ) (s : Engine W) (player : String) (at limit : ℤ)
      → ltb_ℤ (now -ℤ at) limit ≡ true
      → IsHeld player at limit s
      → IsHeld player at limit (prune now s)
  unfolding prune
  prune-IsHeld now s player at limit h held =
      elim (Bool-cases
        (not (is_zero_time s.last_prune) && ltb_ℤ (now -ℤ s.last_prune) s.cooldown)) [
          | inl recent ↦ rw (live, recent) held
          | inr old ↦
              rw (live, old)
                (record {
                  entry =
                      lookup-retain (λ t. not (leb_ℤ s.cooldown (now -ℤ t))) player at s.cooldowns
                        held.entry (rw held.limited (not_expired (now -ℤ at) limit h));
                  limited = held.limited;
                  positive = held.positive;
                })
        ]
    where
      live : leb_ℤ s.cooldown (pos 0) ≡ false
      live = rw held.limited held.positive

  -- Within the cooldown the player is cooling down.
  held-cooling :
      (now : ℤ) (s : Engine W) (player : String) (at limit : ℤ)
      → ltb_ℤ (now -ℤ at) limit ≡ true
      → IsHeld player at limit s
      → is_cooling_down now s player ≡ true
  unfolding is_cooling_down
  held-cooling now s player at limit h held = rw (held.entry, held.limited) h

  -- What a call for another player does to the entry.
  insert-IsHeld :
      (s : Engine W) (player other : String) (at limit now : ℤ)
      → text_eq other player ≡ false
      → IsHeld player at limit s
      → IsHeld player at limit (record s { cooldowns = insert other now s.cooldowns })
  insert-IsHeld s player other at limit now ne held = record {
    entry = rw (lookup-insert, ne) held.entry;
    limited = held.limited;
    positive = held.positive;
  }

  release-IsHeld :
      (s : Engine W) (player other : String) (at limit now : ℤ)
      → text_eq other player ≡ false
      → IsHeld player at limit s
      → IsHeld player at limit (release_failed other now s)
  unfolding release_failed
  release-IsHeld s player other at limit now ne held = go (lookup other s.cooldowns)
    where
      deleted : IsHeld player at limit (record s { cooldowns = delete other s.cooldowns })
      deleted = record {
        entry = rw (lookup-delete, ne) held.entry;
        limited = held.limited;
        positive = held.positive;
      }

      go : (o : Option ℤ) → IsHeld player at limit (release_if other now s o)
      go none = held
      go (some t) = elim (Bool-cases (leb_ℤ t now && leb_ℤ now t)) [
        | inl e ↦ rw e deleted
        | inr e ↦ rw e held
      ]

  dispatch-IsHeld :
      (store : Store W) (s : Engine W) (player other : String) (at limit : ℤ)
      (a : Option (EnforcementAction W))
      → text_eq other player ≡ false
      → IsHeld player at limit s
      → IsHeld player at limit (dispatch store other s a).0
  unfolding dispatch settle
  dispatch-IsHeld store s player other at limit none ne held = held
  dispatch-IsHeld no_store s player other at limit (some a) ne held = held
  dispatch-IsHeld undurable s player other at limit (some a) ne held =
      release-IsHeld s player other at limit a.issued_at ne held
  dispatch-IsHeld (durable claim) s player other at limit (some a) ne held = go (claim a)
    where
      go : (c : Claim) → IsHeld player at limit (settle c other s a).0
      go created = held
      go duplicate = held
      go failed = release-IsHeld s player other at limit a.issued_at ne held

module _ {ℓ} {W : Type ℓ} ⦃f : Float W⦄ (digest : Identity → String) where
  -- A call for the held player is answered by nothing, and leaves the entry.
  pub own_call :
      (s : Engine W) (c : Evaluation W) (at limit : ℤ)
      → ltb_ℤ (c.at -ℤ at) limit ≡ true
      → IsHeld c.player at limit s
      → (evaluated digest s c ≡ (prune c.at s, none, false))
        × IsHeld c.player at limit (prune c.at s)
  unfolding evaluate decide dispatch
  own_call s c at limit h held =
      let kept = prune-IsHeld c.at s c.player at limit h held in
      (rw (held-cooling c.at (prune c.at s) c.player at limit h kept), kept)

  other_call :
      (s : Engine W) (c : Evaluation W) (player : String) (at limit : ℤ)
      → text_eq c.player player ≡ false
      → ltb_ℤ (c.at -ℤ at) limit ≡ true
      → IsHeld player at limit s
      → IsHeld player at limit (evaluated digest s c).0
  unfolding evaluate decide
  other_call s c player at limit ne h held =
      elim (Bool-cases (is_cooling_down c.at (prune c.at s) c.player)) [
        | inl e ↦
            rw e (dispatch-IsHeld c.store (prune c.at s) player c.player at limit none ne kept)
        | inr e ↦ rw e (dispatch-IsHeld c.store _ player c.player at limit _ ne (reserved _))
      ]
    where
      kept : IsHeld player at limit (prune c.at s)
      kept = prune-IsHeld c.at s player at limit h held

      reserved :
          (a : Option (EnforcementAction W))
          → IsHeld player at limit (reserve c.at (prune c.at s) c.player a)
      reserved none = kept
      reserved (some a) = insert-IsHeld (prune c.at s) player c.player at limit c.at ne kept

  step-IsHeld :
      (s : Engine W) (c : Evaluation W) (player : String) (at limit : ℤ)
      → ltb_ℤ (c.at -ℤ at) limit ≡ true
      → IsHeld player at limit s
      → IsHeld player at limit (evaluated digest s c).0
  step-IsHeld s c player at limit h held = elim (Bool-cases (text_eq c.player player)) [
    | inl e ↦
        let same = text_eq_sound c.player player e in
        let (done, kept) =
          own_call s c at limit h (subst (λ p. IsHeld p at limit s) (sym same) held) in
        rw done (subst (λ p. IsHeld p at limit (prune c.at s)) same kept)
    | inr e ↦ other_call s c player at limit e h held
  ]

  -- Every call comes before the cooldown of the time has passed.
  abbrev pub AllWithin : ℤ → ℤ → List (Evaluation W) → Type 0
  AllWithin at limit [] = Unit
  AllWithin at limit (c ∷ cs) = (ltb_ℤ (c.at -ℤ at) limit ≡ true) × AllWithin at limit cs

  pub IsHeld-all :
      (s : Engine W) (cs : List (Evaluation W)) (player : String) (at limit : ℤ)
      → AllWithin at limit cs
      → IsHeld player at limit s
      → IsHeld player at limit (evaluate_all digest s cs)
  unfolding evaluate_all
  IsHeld-all s [] player at limit h held = held
  IsHeld-all s (c ∷ cs) player at limit h held =
      IsHeld-all (evaluated digest s c).0 cs player at limit h.1
        (step-IsHeld s c player at limit h.0 held)
