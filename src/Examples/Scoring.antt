-- ===== src/Examples/Scoring.antt =====
-- The scorer's theorems at a history of three events, a bonus and a decay.
use nevr_anticheat.Scoring.Scorer.{
  get_score, exceeds_review_threshold, exceeds_auto_enforce_threshold,
}
use nevr_anticheat.Scoring.Flags.{flags-history}
use nevr_anticheat.Prelude.{◌≡◌, if◌then◌else◌, arith, refl, true, false, some, none, List, [], ◌∷◌}
use nevr_anticheat.Prelude.Int.{pos, ◌≤ℤ◌}
use nevr_anticheat.Prelude.Dict.{lookup, insert, count_at}
use nevr_anticheat.Prelude.Float.{Milli, milli_float, Milli-IsOrdered, lit, ◌⋖◌}
use nevr_anticheat.Model.Level.{
  validate, level_for, at_least, with_review_threshold, critical, default_table,
}
use nevr_anticheat.Model.Level.Bounds.{IsNumeric, with_review_threshold-valid}
use nevr_anticheat.Model.Level.Order.{level_for-reached, reached}
use nevr_anticheat.Model.Score.{SuspicionScore}
use nevr_anticheat.Scoring.Scorer.{Scorer, new_scorer, effective_levels, get_or_create}
use nevr_anticheat.Scoring.Total.{IsSettled}
use nevr_anticheat.Scoring.History.{Call, ingests, bonuses, decays, history, history-IsSettled}
use nevr_anticheat.Scoring.Once.{ingest_once}
use nevr_anticheat.Scoring.Cap.Scored.{scored_since, scored_within}
use nevr_anticheat.Scoring.Idempotent.{apply_correlation_bonus_idem}
use nevr_anticheat.Scoring.Ingest.{ingest}
use nevr_anticheat.Scoring.Bonus.{apply_correlation_bonus}
use nevr_anticheat.Prelude.Text.{bytes, to_upper, has_prefix, before, contains_text, same_codes}
use nevr_anticheat.Prelude.Int.{◌+ℤ◌, ◌-ℤ◌}
use nevr_anticheat.Model.Level.{validate_rest, is_zero, cap_at, raise_to}
use nevr_anticheat.Model.Score.{zero_score}
use nevr_anticheat.Scoring.Category.{detector_category, is_meta_detector, hash_from, hash_string}
use nevr_anticheat.Scoring.Scorer.{event_time, fresh_score, put_player, recompute}
use nevr_anticheat.Scoring.Gates.{
  cooldown_jitter, effective_cooldown, is_cooling, is_seen, is_capped,
}
use nevr_anticheat.Scoring.Ingest.{
  contribution, diminish, add_at, bump_at, mark_seen, accumulate, accept, outcome_of, mark_frame,
  conclude,
}
use nevr_anticheat.Scoring.Bonus.{
  add_text, is_evidence, categories_of, independent_categories, bonus_of, bonus_step, bonus_loop,
  hours, scale_all, anchor_of, decayed, decay_step, decay_loop, apply_decay,
}
use nevr_anticheat.Scoring.History.{call}
use nevr_anticheat.Examples.Samples.{sample_levels, sample_config, sample_event}

abbrev calls : List (Call Milli)
calls =
    ingests (pos 100) (pos 100) (sample_event "e1" "MOV_001" 10)
    ∷ ingests (pos 200) (pos 200) (sample_event "e2" "THROW_002" 20)
    ∷ bonuses
    ∷ decays (pos 300)
    ∷ []

abbrev after : Scorer Milli
after = history (new_scorer sample_config) calls

abbrev player_after : SuspicionScore Milli
player_after = get_or_create after "p1"

tracked : lookup "p1" after.players ≡ some player_after
unfolding lookup insert count_at bytes to_upper has_prefix before contains_text same_codes ◌+ℤ◌ ◌-ℤ◌
    is_zero cap_at raise_to with_review_threshold default_table zero_score detector_category
    is_meta_detector hash_from hash_string effective_levels new_scorer event_time fresh_score
    get_or_create put_player recompute cooldown_jitter effective_cooldown is_cooling is_seen
    is_capped contribution diminish add_at bump_at mark_seen accumulate accept outcome_of mark_frame
    conclude ingest add_text is_evidence categories_of independent_categories bonus_of bonus_step
    bonus_loop apply_correlation_bonus hours scale_all anchor_of decayed decay_step decay_loop
    apply_decay history call
tracked = refl

accepted :
    (ingest (pos 100) (pos 100) (new_scorer sample_config) (sample_event "e1" "MOV_001" 10)).2
    ≡ true
unfolding lookup insert count_at bytes to_upper has_prefix before contains_text same_codes ◌+ℤ◌ ◌-ℤ◌
    is_zero cap_at raise_to with_review_threshold default_table zero_score detector_category
    is_meta_detector hash_from hash_string effective_levels new_scorer event_time fresh_score
    get_or_create put_player recompute cooldown_jitter effective_cooldown is_cooling is_seen
    is_capped contribution diminish add_at bump_at mark_seen accumulate accept outcome_of mark_frame
    conclude ingest add_text is_evidence categories_of independent_categories bonus_of bonus_step
    bonus_loop apply_correlation_bonus hours scale_all anchor_of decayed decay_step decay_loop
    apply_decay history call
accepted = refl

numeric : IsNumeric sample_levels
numeric = ground arith

valid : validate sample_levels ≡ none
unfolding validate validate_rest
valid = refl

positive : lit 0 ⋖ (effective_levels sample_config).high_risk_from
unfolding effective_levels with_review_threshold is_zero raise_to cap_at
positive = refl

with_review_threshold-valid_example :
    (validate (with_review_threshold sample_levels (lit 50)) ≡ none)
    × ((with_review_threshold sample_levels (lit 50)).high_risk_from
        ≡ (if milli_float.le (lit 50) (lit 0) then sample_levels.high_risk_from else lit 50))
with_review_threshold-valid_example =
    with_review_threshold-valid Milli-IsOrdered sample_levels (lit 50) numeric refl valid

level_for-reached_example :
    at_least (level_for sample_levels (lit 85)) critical ≡ reached sample_levels critical (lit 85)
level_for-reached_example =
    level_for-reached Milli-IsOrdered sample_levels critical (lit 85) numeric valid

history-IsSettled_example :
    IsSettled (effective_levels sample_config) sample_config.config_auto_threshold player_after
history-IsSettled_example =
    history-IsSettled Milli-IsOrdered sample_config calls "p1" player_after positive tracked

scored_within_example :
    pos (scored_since "p1" "MOV_001" calls (new_scorer sample_config) 0) ≤ℤ pos 2
scored_within_example = scored_within sample_config calls "p1" "MOV_001" refl

ingest_once_example :
    let s' =
      history
        (ingest (pos 100) (pos 100) (new_scorer sample_config) (sample_event "e1" "MOV_001" 10)).0
        calls in
    let sc = get_or_create s' "p1" in
    ingest (pos 400) (pos 400) s' (sample_event "e1" "MOV_001" 50)
    ≡ (put_player s' "p1" sc, sc, false)
ingest_once_example =
    ingest_once (pos 100) (pos 100) (pos 400) (pos 400) (new_scorer sample_config)
      (sample_event "e1" "MOV_001" 10) (sample_event "e1" "MOV_001" 50) calls tt refl refl refl
      accepted

apply_correlation_bonus_idem_example :
    apply_correlation_bonus (apply_correlation_bonus after) ≡ apply_correlation_bonus after
apply_correlation_bonus_idem_example =
    apply_correlation_bonus_idem Milli-IsOrdered sample_config calls

flags-history_example :
    (exceeds_review_threshold after "p1" ≡ (get_score after "p1").exceeds_review)
    × (exceeds_auto_enforce_threshold after "p1" ≡ (get_score after "p1").exceeds_auto_enforce)
flags-history_example = flags-history Milli-IsOrdered sample_config calls "p1" positive
