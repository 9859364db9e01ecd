-- ===== src/Pipeline/Weaken/Gates.antt =====
-- internal/pipeline/pipeline.go: each gate of acceptEmissions only weakens an event.
use nevr_anticheat.Prelude.{
  ℕ, ◌≤◌, refl, ◌&&◌, ◌||◌, String, Bool, true, false, Option, none, some, [], ◌∷◌, inl, inr, arith,
  if◌then◌else◌, in_if,
}
use nevr_anticheat.Prelude.Dict.{lookup}
use nevr_anticheat.Prelude.Text.{contains_text}
use nevr_anticheat.Prelude.Float.{Float, IsOrdered, lit, ◌⩽◌, ◌⋖◌}
use nevr_anticheat.Model.Event.{DetectionEvent}
use nevr_anticheat.Pipeline.Health.{has_capability}
use nevr_anticheat.Pipeline.Emission.{
  Knowledge, Quality, LegalContext, clamp, in_context, unsupported, movement, held_back,
  causal_start, apply_evidence_safety, apply_legal_context, legal_multiplier, gate,
  reduce_confidence, mark_shadow, adjusted,
}
use nevr_anticheat.Pipeline.Weaken.Bounds.{
  IsUnit, clamp_range, clamp_le, zero_le_one, quarter_le_one, one-IsUnit,
}
use nevr_anticheat.Pipeline.Weaken.Relation.{
  IsWeaker, IsWeaker-trans, flags-IsWeaker, confidence-IsWeaker,
}

module _ {ℓ} {W : Type ℓ} ⦃f : Float W⦄ (o : IsOrdered W) where
  legal_multiplier-IsUnit : (c : LegalContext W) (id : String) → IsUnit (legal_multiplier c id)
  unfolding legal_multiplier
  legal_multiplier-IsUnit c id = pick c.tracking_limited (within 55 (omega arith)) (
      pick (c.possible_head_contact && contains_text id ("THROW_003" ∷ "BIO_001" ∷ []))
        (within 35 (omega arith))
        (pick (c.possible_slap_or_push && contains_text id ("BIO_001" ∷ "BIO_002" ∷ movement))
          (within 60 (omega arith))
          (pick ((c.leaning || c.playspace_step) && contains_text id movement)
            (within 65 (omega arith))
            (pick ((c.boosting_known && c.boosting) && contains_text id movement)
              (within 75 (omega arith)) (one-IsUnit o)))))
    where
      within : (n : ℕ) → n ≤ 100 → IsUnit {W = W} (f.ratio n 100)
      within n h = o.ratio_unit n 100 h (omega arith)

      pick : (b : Bool) {x y : W} → IsUnit x → IsUnit y → IsUnit (if b then x else y)
      pick true p q = p
      pick false p q = q

  module _ (e : DetectionEvent W) (u : IsUnit e.confidence) where
    same-IsWeaker : IsWeaker e e
    same-IsWeaker = confidence-IsWeaker o e e.confidence u (o.number_of_le _ _ u.1).0

    mark_shadow-IsWeaker : (k : Knowledge W) → IsWeaker (mark_shadow k e) e
    unfolding mark_shadow
    mark_shadow-IsWeaker k =
        in_if (λ a. IsWeaker a e) (contains_text e.detector_id k.shadow_ids)
          (λ h.
            flags-IsWeaker o e true e.auto_enforce e.enforcement_weight u refl (ground arith)
              (inl refl))
          (λ h. same-IsWeaker)

    gate-IsWeaker : (q : Quality W) → IsWeaker (gate q e) e
    unfolding gate
    gate-IsWeaker q =
        in_if (λ a. IsWeaker a e) q.gated
          (λ h. flags-IsWeaker o e true false (lit 0) u refl refl (inr refl)) (λ h. same-IsWeaker)

    scaled_le :
        (m : W) → IsUnit m → IsUnit (f.mul e.confidence m) × (f.mul e.confidence m ⩽ e.confidence)
    scaled_le m v =
        let scaled = o.mul_unit e.confidence m u.0 u.1 v.0 v.1 in
        ((scaled.0, o.le_trans _ _ _ scaled.1 u.1), scaled.1)

    reduce_confidence-IsWeaker : (q : Quality W) → IsWeaker (reduce_confidence q e) e
    unfolding reduce_confidence
    reduce_confidence-IsWeaker q =
        let m = q.confidence_multiplier in
        in_if (λ a. IsWeaker a e) (f.lt (lit 0) m && f.lt m (lit 1))
          (λ h.
            let low : lit 0 ⋖ m = ground (arith, h) in
            let high : m ⋖ lit 1 = ground (arith, h) in
            let scaled = scaled_le m (o.le_of_lt _ _ low, o.le_of_lt _ _ high) in
            confidence-IsWeaker o e _ (clamp_range o _ (lit 0) (lit 1) (zero_le_one o))
              (clamp_le o _ e.confidence scaled.0.0 scaled.1 u.1))
          (λ h. same-IsWeaker)

    in_context-IsWeaker : (c : Option (LegalContext W)) → IsWeaker (in_context c e) e
    in_context-IsWeaker none = same-IsWeaker
    in_context-IsWeaker (some c) =
        let m = legal_multiplier c e.detector_id in
        let trust = clamp c.context_confidence (f.ratio 1 4) (lit 1) in
        let within = clamp_range o c.context_confidence (f.ratio 1 4) (lit 1) (quarter_le_one o) in
        let quarter = (o.ratio_unit 1 4 (omega arith) (omega arith)).0 in
        in_if (λ a. IsWeaker a e) (f.lt m (lit 1))
          (λ h.
            let first = scaled_le m (legal_multiplier-IsUnit c e.detector_id) in
            let second =
              o.mul_unit (f.mul e.confidence m) trust first.0.0 first.0.1
                (o.le_trans _ _ _ quarter within.0) within.1 in
            confidence-IsWeaker o e _ (clamp_range o _ (lit 0) (lit 1) (zero_le_one o))
              (clamp_le o _ e.confidence second.0 (o.le_trans _ _ _ second.1 first.1) u.1))
          (λ h. same-IsWeaker)

    apply_legal_context-IsWeaker : (k : Knowledge W) → IsWeaker (apply_legal_context k e) e
    unfolding apply_legal_context
    apply_legal_context-IsWeaker k = in_context-IsWeaker (lookup e.player_id k.contexts)

    apply_evidence_safety-IsWeaker : (k : Knowledge W) → IsWeaker (apply_evidence_safety k e) e
    unfolding apply_evidence_safety
    apply_evidence_safety-IsWeaker k =
        let unarmed = record e { auto_enforce = false } in
        let abstained =
          if contains_text e.detector_id unsupported
          then record unarmed { is_shadow = true; enforcement_weight = lit 0 }
          else unarmed in
        let weaker : IsWeaker abstained e =
          in_if (λ a. IsWeaker a e) (contains_text e.detector_id unsupported)
            (λ h. flags-IsWeaker o e true false (lit 0) u refl refl (inr refl))
            (λ h.
              flags-IsWeaker o e e.is_shadow false e.enforcement_weight u (ground arith) refl
                (inl refl)) in
        in_if (λ a. IsWeaker a e)
          (contains_text e.detector_id k.detector_ids && has_capability e.detector_id)
          (λ h.
            in_if (λ a. IsWeaker a e)
              (held_back e.detector_id (causal_start e) (lookup e.player_id k.health))
              (λ h.
                IsWeaker-trans o _ abstained e
                  (flags-IsWeaker o abstained true abstained.auto_enforce (lit 0)
                    weaker.confidence_unit refl (ground arith) (inr refl))
                  weaker)
              (λ h. weaker))
          (λ h. same-IsWeaker)

  pub adjusted-IsWeaker :
      (k : Knowledge W) (e : DetectionEvent W) → IsUnit e.confidence → IsWeaker (adjusted k e) e
  unfolding adjusted
  adjusted-IsWeaker k e u =
      let a = mark_shadow k e in
      let marked = mark_shadow-IsWeaker e u k in
      let b = reduce_confidence k.quality a in
      let reduced =
        IsWeaker-trans o b a e (reduce_confidence-IsWeaker a marked.confidence_unit k.quality)
          marked in
      let c = gate k.quality b in
      let gated =
        IsWeaker-trans o c b e (gate-IsWeaker b reduced.confidence_unit k.quality) reduced in
      let d = apply_legal_context k c in
      let placed =
        IsWeaker-trans o d c e (apply_legal_context-IsWeaker c gated.confidence_unit k) gated in
      IsWeaker-trans o _ d e (apply_evidence_safety-IsWeaker d placed.confidence_unit k) placed
