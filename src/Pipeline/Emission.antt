-- ===== src/Pipeline/Emission.antt =====
-- internal/pipeline/pipeline.go and data_health.go: what the pipeline does to a detector's emissions
-- before they are merged. The trace of decisions is no part of the state.
use nevr_anticheat.Prelude.{
  ℕ, suc, String, Bool, true, false, not, ◌&&◌, ◌||◌, Option, none, some, List, [], ◌∷◌,
  sort_stable, if◌then◌else◌,
}
use nevr_anticheat.Prelude.Int.{ℤ, ltb_ℤ, leb_ℤ}
use nevr_anticheat.Prelude.Dict.{text_eq, lookup}
use nevr_anticheat.Prelude.Text.{contains_text}
use nevr_anticheat.Prelude.Float.{Float, lit}
use nevr_anticheat.Model.Event.{DetectionEvent, EventError, validate_event}
use nevr_anticheat.Pipeline.Dedup.{ltb_text}
use nevr_anticheat.Pipeline.Health.{HealthEntry, has_capability}

-- What acceptEmissions reads of a TelemetryQualityReport.
pub record Quality {ℓ} (W : Type ℓ) : Type ℓ where
  pub gated : Bool
  pub confidence_multiplier : W

-- What applyLegalContext reads of a LegalMotionContext.
pub record LegalContext {ℓ} (W : Type ℓ) : Type ℓ where
  pub leaning : Bool
  pub playspace_step : Bool
  pub boosting : Bool
  pub boosting_known : Bool
  pub possible_slap_or_push : Bool
  pub possible_head_contact : Bool
  pub tracking_limited : Bool
  pub context_confidence : W

-- What the pipeline knows while it takes emissions in: its detectors' ids, the ids in shadow, the
-- quality of the input, the players' motion contexts and the health of their feeds.
pub record Knowledge {ℓ} (W : Type ℓ) : Type ℓ where
  pub detector_ids : List String
  pub shadow_ids : List String
  pub quality : Quality W
  pub contexts : List (String × LegalContext W)
  pub health : List (String × HealthEntry)

-- IsPlayspaceDetector
unfoldable pub is_playspace_detector : String → Bool
is_playspace_detector id = text_eq id "MOV_006" || text_eq id "PAT_005"

-- The loop of NewPipeline that leaves the paused detectors out.
unfoldable pub active_detectors : List String → List String
active_detectors [] = []
active_detectors (id ∷ ids) =
    let rest = active_detectors ids in if is_playspace_detector id then rest else id ∷ rest

-- The detectors whose inputs cannot support an accusation.
abbrev pub unsupported : List String
unsupported =
    "STATE_002" ∷ "STATE_003" ∷ "STATE_004" ∷ "STATE_005" ∷ "STATE_006" ∷ "STATE_007" ∷ "PAT_001"
    ∷ []

abbrev pub movement : List String
movement = "MOV_001" ∷ "MOV_002" ∷ "MOV_003" ∷ []

abbrev pub reached : ℤ → Option ℤ → Bool
reached start none = false
reached start (some last) = leb_ℤ start last

abbrev pub held_back : String → ℤ → Option HealthEntry → Bool
held_back id start none = false
held_back id start (some h) = reached start (lookup id h.last_affected)

module _ {ℓ} {W : Type ℓ} where
  -- The first frame that an event is about.
  unfoldable pub causal_start : DetectionEvent W → ℤ
  causal_start ev =
      if ltb_ℤ ev.causal_key.frame_start ev.frame_range_start
      then ev.causal_key.frame_start
      else ev.frame_range_start

  -- The order of sortEmissions.
  unfoldable pub emitted_before : DetectionEvent W → DetectionEvent W → Bool
  emitted_before a b =
      if not (text_eq a.player_id b.player_id)
      then ltb_text a.player_id b.player_id
      else if ltb_ℤ a.frame_range_start b.frame_range_start
      then true
      else if ltb_ℤ b.frame_range_start a.frame_range_start
      then false
      else ltb_text a.causal_key.anomaly_type b.causal_key.anomaly_type

module _ {ℓ} {W : Type ℓ} ⦃f : Float W⦄ where
  -- model.Clamp
  unfoldable pub clamp : W → W → W → W
  clamp v lo hi = if f.is_nan v then lo else if f.lt v lo then lo else if f.lt hi v then hi else v

  abbrev to_shadow : DetectionEvent W → DetectionEvent W
  to_shadow ev = record ev { is_shadow = true; enforcement_weight = lit 0 }

  -- applyEvidenceSafety
  unfoldable pub apply_evidence_safety : Knowledge W → DetectionEvent W → DetectionEvent W
  apply_evidence_safety k ev =
      let unarmed = record ev { auto_enforce = false } in
      let abstained =
        if contains_text ev.detector_id unsupported then to_shadow unarmed else unarmed in
      if contains_text ev.detector_id k.detector_ids && has_capability ev.detector_id
      then if held_back ev.detector_id (causal_start ev) (lookup ev.player_id k.health)
        then to_shadow abstained
        else abstained
      else ev

  -- The multiplier that the switch of applyLegalContext picks for a detector.
  unfoldable pub legal_multiplier : LegalContext W → String → W
  legal_multiplier c id =
      if c.tracking_limited
      then f.ratio 55 100
      else if c.possible_head_contact && contains_text id ("THROW_003" ∷ "BIO_001" ∷ [])
      then f.ratio 35 100
      else if c.possible_slap_or_push && contains_text id ("BIO_001" ∷ "BIO_002" ∷ movement)
      then f.ratio 60 100
      else if (c.leaning || c.playspace_step) && contains_text id movement
      then f.ratio 65 100
      else if (c.boosting_known && c.boosting) && contains_text id movement
      then f.ratio 75 100
      else lit 1

  abbrev pub in_context : Option (LegalContext W) → DetectionEvent W → DetectionEvent W
  in_context none ev = ev
  in_context (some c) ev =
      let m = legal_multiplier c ev.detector_id in
      if f.lt m (lit 1)
      then record ev {
        confidence =
            clamp (f.mul (f.mul ev.confidence m) (clamp c.context_confidence (f.ratio 1 4) (lit 1)))
              (lit 0) (lit 1);
      }
      else ev

  -- applyLegalContext
  unfoldable pub apply_legal_context : Knowledge W → DetectionEvent W → DetectionEvent W
  apply_legal_context k ev = in_context (lookup ev.player_id k.contexts) ev

  unfoldable pub mark_shadow : Knowledge W → DetectionEvent W → DetectionEvent W
  mark_shadow k ev =
      if contains_text ev.detector_id k.shadow_ids then record ev { is_shadow = true } else ev

  unfoldable pub reduce_confidence : Quality W → DetectionEvent W → DetectionEvent W
  reduce_confidence q ev =
      if f.lt (lit 0) q.confidence_multiplier && f.lt q.confidence_multiplier (lit 1)
      then record ev {
        confidence = clamp (f.mul ev.confidence q.confidence_multiplier) (lit 0) (lit 1);
      }
      else ev

  unfoldable pub gate : Quality W → DetectionEvent W → DetectionEvent W
  gate q ev =
      if q.gated
      then record ev { is_shadow = true; auto_enforce = false; enforcement_weight = lit 0 }
      else ev

  -- The body of the loop of acceptEmissions, for a valid emission.
  unfoldable pub adjusted : Knowledge W → DetectionEvent W → DetectionEvent W
  adjusted k ev =
      apply_evidence_safety k
        (apply_legal_context k (gate k.quality (reduce_confidence k.quality (mark_shadow k ev))))

  -- An emission by the answer of its validation.
  unfoldable pub taken :
      Option EventError
      → DetectionEvent W
      → List (DetectionEvent W) × ℕ
      → List (DetectionEvent W) × ℕ
  taken (some e) ev (kept, invalid) = (kept, suc invalid)
  taken none ev (kept, invalid) = (ev ∷ kept, invalid)

  unfoldable pub accept_loop : Knowledge W → List (DetectionEvent W) → List (DetectionEvent W) × ℕ
  accept_loop k [] = ([], 0)
  accept_loop k (ev ∷ evs) = taken (validate_event ev) (adjusted k ev) (accept_loop k evs)

  -- acceptEmissions: the kept events, and how many were invalid.
  unfoldable pub accept_emissions :
      Knowledge W → List (DetectionEvent W) → List (DetectionEvent W) × ℕ
  accept_emissions k evs = accept_loop k (sort_stable emitted_before evs)
