-- ===== src/Pipeline/Weaken/Relation.antt =====
-- internal/pipeline/pipeline.go: when an event is a weaker form of what a detector emitted.
use nevr_anticheat.Prelude.{◌≡◌, refl, ◌∙◌, ◌&&◌, ◌||◌, ◌⊎◌, Bool, inl, inr, arith}
use nevr_anticheat.Prelude.Float.{Float, IsOrdered, lit, ◌⩽◌}
use nevr_anticheat.Model.Event.{DetectionEvent}
use nevr_anticheat.Pipeline.Weaken.Bounds.{IsUnit}

module _ {ℓ} {W : Type ℓ} ⦃f : Float W⦄ where
  -- `a` describes the same finding as `e`, with no more confidence, and can do no more than `e`.
  pub record IsWeaker (a e : DetectionEvent W) : Type ℓ where
    same_event : a.event_id ≡ e.event_id
    same_detector : a.detector_id ≡ e.detector_id
    same_player : a.player_id ≡ e.player_id
    same_severity : a.severity ≡ e.severity
    same_start : a.frame_range_start ≡ e.frame_range_start
    same_end : a.frame_range_end ≡ e.frame_range_end
    same_key : a.causal_key ≡ e.causal_key
    pub confidence_unit : IsUnit a.confidence
    confidence_le : a.confidence ⩽ e.confidence
    shadow_kept : a.is_shadow ≡ (a.is_shadow || e.is_shadow)
    auto_lost : a.auto_enforce ≡ (a.auto_enforce && e.auto_enforce)
    weight_lost : (a.enforcement_weight ≡ e.enforcement_weight) ⊎ (a.enforcement_weight ≡ lit 0)

module _ {ℓ} {W : Type ℓ} ⦃f : Float W⦄ (o : IsOrdered W) where
  pub IsWeaker-trans : (a b c : DetectionEvent W) → IsWeaker a b → IsWeaker b c → IsWeaker a c
  IsWeaker-trans a b c h k = record {
    same_event = h.same_event ∙ k.same_event;
    same_detector = h.same_detector ∙ k.same_detector;
    same_player = h.same_player ∙ k.same_player;
    same_severity = h.same_severity ∙ k.same_severity;
    same_start = h.same_start ∙ k.same_start;
    same_end = h.same_end ∙ k.same_end;
    same_key = h.same_key ∙ k.same_key;
    confidence_unit = h.confidence_unit;
    confidence_le = o.le_trans _ _ _ h.confidence_le k.confidence_le;
    shadow_kept = ground (arith, h.shadow_kept, k.shadow_kept);
    auto_lost = ground (arith, h.auto_lost, k.auto_lost);
    weight_lost = weights h.weight_lost k.weight_lost;
  }
    where
      weights :
          (a.enforcement_weight ≡ b.enforcement_weight) ⊎ (a.enforcement_weight ≡ lit 0)
          → (b.enforcement_weight ≡ c.enforcement_weight) ⊎ (b.enforcement_weight ≡ lit 0)
          → (a.enforcement_weight ≡ c.enforcement_weight) ⊎ (a.enforcement_weight ≡ lit 0)
      weights (inr z) q = inr z
      weights (inl p) (inl q) = inl (p ∙ q)
      weights (inl p) (inr z) = inr (p ∙ z)

  -- A change that leaves the confidence alone.
  pub flags-IsWeaker :
      (e : DetectionEvent W) (shadow auto : Bool) (weight : W)
      → IsUnit e.confidence
      → shadow ≡ (shadow || e.is_shadow)
      → auto ≡ (auto && e.auto_enforce)
      → (weight ≡ e.enforcement_weight) ⊎ (weight ≡ lit 0)
      → IsWeaker
          (record e { is_shadow = shadow; auto_enforce = auto; enforcement_weight = weight })
          e
  flags-IsWeaker e shadow auto weight u s t w = record {
    same_event = refl;
    same_detector = refl;
    same_player = refl;
    same_severity = refl;
    same_start = refl;
    same_end = refl;
    same_key = refl;
    confidence_unit = u;
    confidence_le = (o.number_of_le _ _ u.1).0;
    shadow_kept = s;
    auto_lost = t;
    weight_lost = w;
  }

  -- A change of the confidence alone.
  pub confidence-IsWeaker :
      (e : DetectionEvent W) (c : W)
      → IsUnit c
      → c ⩽ e.confidence
      → IsWeaker (record e { confidence = c }) e
  confidence-IsWeaker e c u h = record {
    same_event = refl;
    same_detector = refl;
    same_player = refl;
    same_severity = refl;
    same_start = refl;
    same_end = refl;
    same_key = refl;
    confidence_unit = u;
    confidence_le = h;
    shadow_kept = ground arith;
    auto_lost = ground arith;
    weight_lost = inl refl;
  }
