-- ===== src/Model/Observation.antt =====
-- internal/model/observation.go: the measurement path of a sample, and when two samples share it.
use nevr_anticheat.Prelude.{ℕ, String, Bool, true, false, not, ◌&&◌, ◌==◌, Option, none, some}
use nevr_anticheat.Prelude.Int.{ℤ, pos, leb_ℤ}
use nevr_anticheat.Prelude.Dict.{text_eq}
use nevr_anticheat.Prelude.Float.{Float, lit}

pub record Observation {ℓ} (W : Type ℓ) : Type ℓ where
  pub source : String
  pub source_id : String
  pub source_epoch : ℕ
  pub authority : String
  pub time_basis : String
  pub session_id : String
  pub source_player_id : String
  pub observed_index : ℤ
  pub observed_time : W
  pub freshness : String

module _ {ℓ} {W : Type ℓ} ⦃f : Float W⦄ where
  -- Valid; a nil context is not.
  unfoldable pub is_valid_source : Option (Observation W) → Bool
  is_valid_source none = false
  is_valid_source (some o) =
      not (text_eq o.source "")
      && (not (text_eq o.authority "")
          && (not (text_eq o.time_basis "")
              && (not (text_eq o.session_id "")
                  && (leb_ℤ (pos 0) o.observed_index
                      && (f.le (lit 0) o.observed_time
                          && (not (f.is_nan o.observed_time) && not (f.is_inf o.observed_time)))))))

  unfoldable pub same_path : Observation W → Observation W → Bool
  same_path o other =
      text_eq o.source other.source
      && (text_eq o.source_id other.source_id
          && (o.source_epoch == other.source_epoch
              && (text_eq o.authority other.authority
                  && (text_eq o.time_basis other.time_basis
                      && (text_eq o.session_id other.session_id
                          && text_eq o.source_player_id other.source_player_id)))))

  abbrev pub both_same : Option (Observation W) → Option (Observation W) → Bool
  both_same none b = false
  both_same (some o) none = false
  both_same (some o) (some other) = same_path o other

  -- SameSource
  unfoldable pub same_source : Option (Observation W) → Option (Observation W) → Bool
  same_source a b = is_valid_source a && (is_valid_source b && both_same a b)

  -- sameObservationSource
  unfoldable pub same_observation_source : Option (Observation W) → Option (Observation W) → Bool
  same_observation_source none none = true
  same_observation_source (some o) b = same_source (some o) b
  same_observation_source none (some o) = same_source none (some o)
