-- ===== src/Pipeline/Weaken.antt =====
-- internal/pipeline/pipeline.go: the gates of acceptEmissions only weaken what a detector emitted.
mod Bounds
mod Gates
mod Relation
use nevr_anticheat.Prelude.{
  ◌≡◌, refl, sym, subst, Option, none, some, List, [], ◌∷◌, arith, sort_stable,
}
use mathlib.Core.List.{Memᴰ}
use nevr_anticheat.Prelude.Float.{Float, IsOrdered}
use nevr_anticheat.Model.Event.{DetectionEvent, EventError, validate_event}
use nevr_anticheat.Pipeline.Emission.{
  Knowledge, adjusted, taken, accept_loop, accept_emissions, emitted_before,
}
use nevr_anticheat.Prelude.Members.{member_sort_stable}
use nevr_anticheat.Pipeline.Weaken.Bounds.{IsUnit, IsUnit-of_valid}
use nevr_anticheat.Pipeline.Weaken.Relation.{IsWeaker}
use nevr_anticheat.Pipeline.Weaken.Gates.{adjusted-IsWeaker}

module _ {ℓ} {W : Type ℓ} ⦃f : Float W⦄ (o : IsOrdered W) where
  -- An accepted event: a weaker form of a valid emission among those given.
  abbrev pub IsFrom : List (DetectionEvent W) → DetectionEvent W → Type ℓ
  IsFrom evs a = (e : DetectionEvent W) × Memᴰ e evs × (validate_event e ≡ none) × IsWeaker a e

  valid-IsUnit : (e : DetectionEvent W) → validate_event e ≡ none → IsUnit e.confidence
  unfolding validate_event
  valid-IsUnit e h = IsUnit-of_valid o e.confidence (ground (arith, h))

  accept_loop-IsFrom :
      (k : Knowledge W) (evs : List (DetectionEvent W)) (a : DetectionEvent W)
      → Memᴰ a (accept_loop k evs).0
      → IsFrom evs a
  unfolding accept_loop
  accept_loop-IsFrom k [] a m = elim m [ ]
  accept_loop-IsFrom k (ev ∷ evs) a m = one (validate_event ev) refl (accept_loop-IsFrom k evs a) m
    where
      deeper : IsFrom evs a → IsFrom (ev ∷ evs) a
      deeper (e, n, valid, weaker) = (e, Memᴰ.tail n, valid, weaker)

      here :
          none ≡ validate_event ev
          → (Memᴰ a (accept_loop k evs).0 → IsFrom evs a)
          → Memᴰ a (adjusted k ev ∷ (accept_loop k evs).0)
          → IsFrom (ev ∷ evs) a
      here h rec (Memᴰ.head e) =
          let weaker = adjusted-IsWeaker o k ev (valid-IsUnit ev (sym h)) in
          (ev, Memᴰ.head refl, sym h, subst (λ x. IsWeaker x ev) (sym e) weaker)
      here h rec (Memᴰ.tail n) = deeper (rec n)

      one :
          (v : Option EventError)
          → v ≡ validate_event ev
          → (Memᴰ a (accept_loop k evs).0 → IsFrom evs a)
          → Memᴰ a (taken v (adjusted k ev) (accept_loop k evs)).0
          → IsFrom (ev ∷ evs) a
      one (some x) h rec n = deeper (rec (unfold taken in n))
      one none h rec n = here h rec (unfold taken in n)

  -- Every event that acceptEmissions keeps is a weaker form of a valid emission that it was given: the
  -- same finding with the same severity, range and causal key, a confidence between 0 and that of the
  -- emission, in shadow if that was, able to enforce only if that was, and with its weight or none.
  pub accept_emissions-IsFrom :
      (k : Knowledge W) (evs : List (DetectionEvent W)) (a : DetectionEvent W)
      → Memᴰ a (accept_emissions k evs).0
      → IsFrom evs a
  unfolding accept_emissions
  accept_emissions-IsFrom k evs a m =
      let (e, n, valid, weaker) = accept_loop-IsFrom k (sort_stable emitted_before evs) a m in
      (e, member_sort_stable emitted_before evs e n, valid, weaker)
