-- ===== src/Enforce/Cooldown/Rest.antt =====
-- internal/enforce/engine.go: a returned recommendation holds its player until the cooldown has passed.
use nevr_anticheat.Prelude.{
  ◌≡◌, refl, sym, ap, String, Bool, true, false, Option, none, some, List, inl, inr, arith,
  Bool-cases,
}
use nevr_anticheat.Prelude.Int.{ℤ, pos, ◌-ℤ◌, leb_ℤ, ltb_ℤ}
use nevr_anticheat.Prelude.Dict.{lookup-insert_self, none-ne-some}
use nevr_anticheat.Prelude.Float.{Float}
use mathlib.Core.Path.{subst}
use nevr_anticheat.Enforce.Action.{EnforcementAction, Identity}
use nevr_anticheat.Enforce.Engine.{
  Engine, Store, no_store, undurable, durable, Claim, created, duplicate, failed, prune,
  is_cooling_down, reserve, decide, settle, dispatch, evaluate,
}
use nevr_anticheat.Enforce.Cooldown.{
  Evaluation, evaluated, evaluate_all, IsHeld, own_call, AllWithin, IsHeld-all,
}

module _ {ℓ} {W : Type ℓ} ⦃f : Float W⦄ (digest : Identity → String) where
  returned_some :
      (store : Store W) (player : String) (s : Engine W) (m : Option (EnforcementAction W))
      (a : EnforcementAction W)
      → (dispatch store player s m).1 ≡ some a
      → (m ≡ some a) × ((dispatch store player s m).0 ≡ s)
  unfolding dispatch settle
  returned_some store player s none a h = absurd (none-ne-some h)
  returned_some no_store player s (some b) a h = (h, refl)
  returned_some undurable player s (some b) a h = absurd (none-ne-some h)
  returned_some (durable claim) player s (some b) a h = go (claim b) h
    where
      go :
          (c : Claim)
          → (settle c player s b).1 ≡ some a
          → (some b ≡ some a) × ((settle c player s b).0 ≡ s)
      go created e = (e, refl)
      go duplicate e = absurd (none-ne-some e)
      go failed e = absurd (none-ne-some e)

  prune-cooldown : (now : ℤ) (s : Engine W) → (prune now s).cooldown ≡ s.cooldown
  unfolding prune
  prune-cooldown now s = ground arith

  -- A returned recommendation leaves its reservation.
  returned-IsHeld :
      (s : Engine W) (c : Evaluation W) (a : EnforcementAction W)
      → leb_ℤ s.cooldown (pos 0) ≡ false
      → (evaluated digest s c).1 ≡ some a
      → IsHeld c.player c.at s.cooldown (evaluated digest s c).0
  unfolding evaluate decide
  returned-IsHeld s c a live h = elim (Bool-cases (is_cooling_down c.at (prune c.at s) c.player)) [
    | inl e ↦ absurd (none-ne-some (returned_none (rw e at h)))
    | inr e ↦ rw e (weighed _ (rw e at h))
  ]
    where
      returned_none : (dispatch c.store c.player (prune c.at s) none).1 ≡ some a → none ≡ some a
      returned_none k = (returned_some c.store c.player (prune c.at s) none a k).0

      weighed :
          (m : Option (EnforcementAction W))
          → (dispatch c.store c.player (reserve c.at (prune c.at s) c.player m) m).1 ≡ some a
          → IsHeld c.player c.at s.cooldown
              (dispatch c.store c.player (reserve c.at (prune c.at s) c.player m) m).0
      weighed none k =
          absurd (none-ne-some (returned_some c.store c.player (prune c.at s) none a k).0)
      weighed (some b) k =
          rw
            ((returned_some c.store c.player (reserve c.at (prune c.at s) c.player (some b))
              (some b) a k).1)
            (record {
              entry = lookup-insert_self c.player c.at (prune c.at s).cooldowns;
              limited = prune-cooldown c.at s;
              positive = live;
            })

  -- With a positive cooldown, once a call has returned a recommendation for a player, no later call
  -- for that player returns another while less than the cooldown has passed, whatever calls for this
  -- and other players come between, as long as they too come within that time.
  pub evaluate_rests :
      (s : Engine W) (c again : Evaluation W) (between : List (Evaluation W))
      (a : EnforcementAction W)
      → leb_ℤ s.cooldown (pos 0) ≡ false
      → (evaluated digest s c).1 ≡ some a
      → AllWithin digest c.at s.cooldown between
      → again.player ≡ c.player
      → ltb_ℤ (again.at -ℤ c.at) s.cooldown ≡ true
      → (evaluated digest (evaluate_all digest (evaluated digest s c).0 between) again).1 ≡ none
  evaluate_rests s c again between a live h all same soon =
      let held =
        IsHeld-all digest (evaluated digest s c).0 between c.player c.at s.cooldown all
          (returned-IsHeld s c a live h) in
      let last = evaluate_all digest (evaluated digest s c).0 between in
      let own = subst (λ p. IsHeld p c.at s.cooldown last) (sym same) held in
      let silent = own_call digest last again c.at s.cooldown soon own in
      ap (λ (r : Engine W × Option (EnforcementAction W) × Bool). r.1) silent.0
