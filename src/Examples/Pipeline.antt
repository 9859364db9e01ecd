-- ===== src/Examples/Pipeline.antt =====
-- The pipeline's theorems at two frames of events under a cap of one.
use nevr_anticheat.Prelude.{refl, ◌≡◌, List, [], ◌∷◌, take, if◌then◌else◌}
use nevr_anticheat.Prelude.Int.{pos, leb_ℤ, pos_part}
use nevr_anticheat.Prelude.Float.{Milli, milli_float, Milli-IsOrdered, lit}
use nevr_anticheat.Model.Event.{DetectionEvent}
use nevr_anticheat.Model.Phase.{reset as fresh_normalizer, normalize}
use nevr_anticheat.Model.Phase.Again.{normalize_again}
use nevr_anticheat.Pipeline.RateLimit.{new_rate_limiter, reset}
use nevr_anticheat.Pipeline.RateLimit.Kept.{filter_all, flatten, of_pair, filter_all-first_wins}
use nevr_anticheat.Pipeline.Dedup.{reset as reset_dedup, new_deduplicator}
use nevr_anticheat.Pipeline.Conserve.{
  emissions, deduplicated, emissions_of_frames, deduplicated_conserves,
}
use nevr_anticheat.Examples.Samples.{sample_event}

abbrev batch : List (DetectionEvent Milli)
batch =
    sample_event "e1" "MOV_001" 10
    ∷ sample_event "e2" "MOV_001" 12
    ∷ sample_event "e3" "BIO_001" 60
    ∷ []

filter_all-first_wins_example :
    of_pair "p1" "MOV_001" (filter_all (reset (new_rate_limiter (pos 1))) (batch ∷ batch ∷ []))
    ≡ take
        (if leb_ℤ (pos 1) (pos 0) then 100 else pos_part (pos 1))
        (of_pair "p1" "MOV_001" (flatten (batch ∷ batch ∷ [])))
filter_all-first_wins_example =
    filter_all-first_wins "p1" "MOV_001" (pos 1) (batch ∷ batch ∷ []) refl
      (refl, (refl, (refl, (refl, (refl, (refl, tt))))))

deduplicated_conserves_example :
    emissions (
      deduplicated
        (reset_dedup (new_deduplicator (pos 5)))
        ((batch, pos 60) ∷ (batch, pos 61) ∷ []))
    ≡ emissions_of_frames ((batch, pos 60) ∷ (batch, pos 61) ∷ [])
deduplicated_conserves_example =
    deduplicated_conserves (new_deduplicator (pos 5)) ((batch, pos 60) ∷ (batch, pos 61) ∷ [])

normalize_again_example :
    normalize {W = Milli}
      (normalize fresh_normalizer "s1" " Score " (lit 3)).0
      "s1"
      " Score "
      (lit 3)
    ≡ normalize fresh_normalizer "s1" " Score " (lit 3)
normalize_again_example = normalize_again Milli-IsOrdered fresh_normalizer "s1" " Score " (lit 3)
