-- ===== src/Pipeline/Quarantine.antt =====
-- internal/pipeline/data_health.go and pipeline.go: what a faulted sample does to the findings about it.
use nevr_anticheat.Prelude.{
  ℕ, ◌≡◌, refl, sym, ap, subst, ◌∙◌, String, true, false, some, List, [], ◌∷◌, ◌++◌, map, arith,
}
use mathlib.Core.List.{Memᴰ, append_assoc, append-nil}
use nevr_anticheat.Prelude.Int.{ℤ, ◌≤ℤ◌}
use nevr_anticheat.Prelude.Dict.{lookup}
use nevr_anticheat.Prelude.Text.{contains_text}
use nevr_anticheat.Prelude.Float.{Float, lit}
use nevr_anticheat.Model.Event.{DetectionEvent}
use nevr_anticheat.Pipeline.Faults.{Fault, Sample, has_fault, health_affects}
use nevr_anticheat.Pipeline.Health.{HealthEntry, has_capability}
use nevr_anticheat.Pipeline.Health.Watermark.{observe_all, observe_all-CoversIn}
use nevr_anticheat.Pipeline.RateLimit.{filter}
use nevr_anticheat.Pipeline.Emission.{Knowledge, apply_evidence_safety, causal_start}
use nevr_anticheat.Pipeline.Emit.{Sink, Report, new_report, add_drops, emit, emit_each, emit_one}

-- A member of a mapped list comes from a member of the list.
member_map {ℓ κ} :
    {A : Type ℓ} {B : Type κ} (g : A → B) (xs : List A) (y : B)
    → Memᴰ y (map g xs)
    → (x : A) × (y ≡ g x)
member_map g [] y m = elim m [ ]
member_map g (x ∷ xs) y (Memᴰ.head e) = (x, e)
member_map g (x ∷ xs) y (Memᴰ.tail m) = member_map g xs y m

module _ {ℓ} {W : Type ℓ} ⦃f : Float W⦄ where
  retained-emit_each :
      (clock : ℕ → ℤ × ℤ) (k : Knowledge W) (evs : List (DetectionEvent W)) (s : Sink W × Report W)
      → (emit_each clock k s evs).1.retained ≡ s.1.retained ++ map (apply_evidence_safety k) evs
  unfolding emit_each emit_one
  retained-emit_each clock k [] s = sym (append-nil s.1.retained)
  retained-emit_each clock k (ev ∷ evs) s =
      retained-emit_each clock k evs (emit_one clock k s ev)
      ∙ append_assoc s.1.retained (apply_evidence_safety k ev ∷ []) _

  retained-add_drops :
      (drops : List (String × ℕ)) (r : Report W) → (add_drops r drops).retained ≡ r.retained
  unfolding add_drops
  retained-add_drops [] r = refl
  retained-add_drops ((key, n) ∷ drops) r = retained-add_drops drops _

  -- What a call of emit retains are events after the safety check.
  emit-safe :
      (clock : ℕ → ℤ × ℤ) (k : Knowledge W) (p : Sink W) (evs : List (DetectionEvent W))
      (ev : DetectionEvent W)
      → Memᴰ ev (emit clock k (p, new_report) evs).1.retained
      → (raw : DetectionEvent W) × (ev ≡ apply_evidence_safety k raw)
  unfolding emit
  emit-safe clock k p evs ev m =
      let filtered = filter p.rate_limiter evs in
      let all =
        retained-emit_each clock k filtered.kept
          (record p { rate_limiter = filtered.limiter }, add_drops new_report filtered.dropped_now)
        ∙ ap (λ t. t ++ map (apply_evidence_safety k) filtered.kept)
            (retained-add_drops filtered.dropped_now new_report) in
      member_map (apply_evidence_safety k) filtered.kept ev
        (unfold new_report in subst (Memᴰ ev) all m)

  safe_when_covered :
      (k : Knowledge W) (raw : DetectionEvent W) (h : HealthEntry) (mark : ℤ)
      → contains_text raw.detector_id k.detector_ids ≡ true
      → has_capability raw.detector_id ≡ true
      → lookup raw.player_id k.health ≡ some h
      → lookup raw.detector_id h.last_affected ≡ some mark
      → causal_start raw ≤ℤ mark
      → ((apply_evidence_safety k raw).is_shadow ≡ true)
        × ((apply_evidence_safety k raw).enforcement_weight ≡ lit 0)
        × ((apply_evidence_safety k raw).auto_enforce ≡ false)
  unfolding apply_evidence_safety
  safe_when_covered k raw h mark listed able present marked le =
      rw (listed, able, present, marked) (ground (arith, le))

  -- The safety check leaves the subject of an event alone.
  apply_evidence_safety_about :
      (k : Knowledge W) (raw : DetectionEvent W)
      → ((apply_evidence_safety k raw).player_id ≡ raw.player_id)
        × ((apply_evidence_safety k raw).detector_id ≡ raw.detector_id)
        × (causal_start (apply_evidence_safety k raw) ≡ causal_start raw)
  unfolding apply_evidence_safety causal_start
  apply_evidence_safety_about k raw = (ground arith, ground arith, ground arith)

  -- After samples of which one shows a fault that affects a catalogued detector of the pipeline, no
  -- call of emit retains an incident of that detector about the sample's player which begins at or
  -- before the sample's frame, unless it is in shadow, with no weight and no automatic enforcement.
  pub emit_quarantined :
      (max_dt : W) (ids : List String) (ss : List (Sample W)) (health : List (String × HealthEntry))
      (s : Sample W) (r : Fault) (k : Knowledge W) (clock : ℕ → ℤ × ℤ) (p : Sink W)
      (evs : List (DetectionEvent W)) (ev : DetectionEvent W)
      → Memᴰ s ss
      → has_fault max_dt s r ≡ true
      → health_affects r ev.detector_id ≡ true
      → has_capability ev.detector_id ≡ true
      → contains_text ev.detector_id ids ≡ true
      → k.detector_ids ≡ ids
      → k.health ≡ observe_all max_dt ids health ss
      → Memᴰ ev (emit clock k (p, new_report) evs).1.retained
      → ev.player_id ≡ s.frame.player_id
      → causal_start ev ≤ℤ s.frame.frame_index
      → (ev.is_shadow ≡ true) × (ev.enforcement_weight ≡ lit 0) × (ev.auto_enforce ≡ false)
  emit_quarantined max_dt ids ss health s r k clock p evs ev m shown affects able listed same known
        kept player start =
      let c =
        observe_all-CoversIn max_dt ids ss health s r ev.detector_id m shown affects able listed in
      let (raw, made) = emit-safe clock k p evs ev kept in
      let about = apply_evidence_safety_about k raw in
      let id : raw.detector_id ≡ ev.detector_id = sym (ap (λ e. e.detector_id) made ∙ about.1) in
      let who : raw.player_id ≡ s.frame.player_id =
        sym (ap (λ e. e.player_id) made ∙ about.0) ∙ player in
      let from : causal_start raw ≡ causal_start ev = sym (ap causal_start made ∙ about.2) in
      let begins : causal_start raw ≤ℤ c.covered.mark =
        rw from (omega (arith, start, c.covered.reached)) in
      let held =
        safe_when_covered k raw c.entry c.covered.mark (rw (same, id) listed) (rw id able)
          (rw (known, who) c.present) (rw id c.covered.marked) begins in
      rw made held
