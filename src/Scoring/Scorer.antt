-- ===== src/Scoring/Scorer.antt =====
-- internal/scoring/scorer.go: the suspicion scorer. A method that locks and mutates the scorer
-- returns the new one; the clock is read by the caller and passed in. A returned Clone is the
-- player's record, which shares nothing with the scorer.
use nevr_anticheat.Prelude.{
  String, Bool, false, ◌&&◌, Option, none, some, List, [], ◌==◌, if◌then◌else◌,
}
use nevr_anticheat.Prelude.Int.{ℤ, pos, negsuc, ◌+ℤ◌}
use nevr_anticheat.Prelude.Dict.{lookup, insert}
use nevr_anticheat.Prelude.Float.{Float, lit}
use nevr_anticheat.Model.Level.{LevelTable, is_zero, default_table, with_review_threshold}
use nevr_anticheat.Model.Event.{DetectionEvent}
use nevr_anticheat.Model.Score.{SuspicionScore, zero_score}

pub record ScorerConfig {ℓ} (W : Type ℓ) : Type ℓ where
  pub max_single_contribution : W
  pub max_contrib_per_detector : ℤ
  pub same_category_diminishing : W
  pub config_review_threshold : W
  pub config_auto_threshold : W
  pub half_life_hours : W
  pub cooldown_frames : ℤ
  pub correlation_bonus_cap : W
  pub base_levels : LevelTable W

pub record Scorer {ℓ} (W : Type ℓ) : Type ℓ where
  pub config : ScorerConfig W
  pub table : LevelTable W
  pub players : List (String × SuspicionScore W)
  pub bonus_basis : List (String × W)
  -- The accepted event ids of each player.
  pub seen_events : List (String × List String)
  pub match_start : ℤ

abbrev pub is_zero_time : ℤ → Bool
is_zero_time (pos n) = n == 0
is_zero_time (negsuc n) = false

module _ {ℓ} {W : Type ℓ} ⦃f : Float W⦄ where
  -- EffectiveLevels
  unfoldable pub effective_levels : ScorerConfig W → LevelTable W
  effective_levels c =
      with_review_threshold (if is_zero c.base_levels then default_table else c.base_levels)
        c.config_review_threshold

  -- NewSuspicionScorer
  unfoldable pub new_scorer : ScorerConfig W → Scorer W
  new_scorer c = record {
    config = c;
    table = effective_levels c;
    players = [];
    bonus_basis = [];
    seen_events = [];
    match_start = pos 0;
  }

  unfoldable pub event_time : Scorer W → ℤ → DetectionEvent W → ℤ
  event_time s now e =
      if is_zero_time s.match_start
      then now
      else s.match_start +ℤ f.trunc (f.mul e.timestamp (lit 1_000_000_000))

  -- The record that getOrCreate makes for a new player.
  unfoldable pub fresh_score : Scorer W → String → SuspicionScore W
  fresh_score s player = record (zero_score player s.table) {
    review_threshold = s.table.high_risk_from;
    auto_enforce_threshold = s.config.config_auto_threshold;
    decay_half_life_hours = s.config.half_life_hours;
  }

  abbrev or_fresh : Scorer W → String → Option (SuspicionScore W) → SuspicionScore W
  or_fresh s player none = fresh_score s player
  or_fresh s player (some sc) = sc

  -- getOrCreate: the player's record, stored by `put_player` in every path that follows.
  unfoldable pub get_or_create : Scorer W → String → SuspicionScore W
  get_or_create s player = or_fresh s player (lookup player s.players)

  unfoldable pub put_player : Scorer W → String → SuspicionScore W → Scorer W
  put_player s player sc = record s { players = insert player sc s.players }

  abbrev pub floor_zero : W → W
  floor_zero x = if f.lt x (lit 0) then lit 0 else x

  abbrev pub cap_hundred : W → W
  cap_hundred x = if f.lt (lit 100) x then lit 100 else x

  -- recompute
  unfoldable pub recompute : Scorer W → SuspicionScore W → SuspicionScore W
  recompute s sc =
      let base = floor_zero sc.base_score in
      let bonus = floor_zero sc.correlation_bonus in
      let total = cap_hundred (f.add base bonus) in
      let auto = s.config.config_auto_threshold in
      record sc {
        base_score = base;
        correlation_bonus = bonus;
        total_score = total;
        exceeds_review = f.le s.table.high_risk_from total;
        exceeds_auto_enforce = f.lt (lit 0) auto && f.le auto total;
      }

  abbrev or_unknown : Scorer W → String → Option (SuspicionScore W) → SuspicionScore W
  or_unknown s player none = zero_score player s.table
  or_unknown s player (some sc) = sc

  -- GetScore
  unfoldable pub get_score : Scorer W → String → SuspicionScore W
  get_score s player = or_unknown s player (lookup player s.players)

  abbrev over_review : Scorer W → Option (SuspicionScore W) → Bool
  over_review s none = false
  over_review s (some sc) = f.le s.table.high_risk_from sc.total_score

  -- ExceedsReviewThreshold
  unfoldable pub exceeds_review_threshold : Scorer W → String → Bool
  exceeds_review_threshold s player = over_review s (lookup player s.players)

  abbrev over_auto : Option (SuspicionScore W) → Bool
  over_auto none = false
  over_auto (some sc) = sc.exceeds_auto_enforce

  -- ExceedsAutoEnforceThreshold
  unfoldable pub exceeds_auto_enforce_threshold : Scorer W → String → Bool
  exceeds_auto_enforce_threshold s player = over_auto (lookup player s.players)

  -- Reset
  unfoldable pub reset : Scorer W → Scorer W
  reset s = record s { players = []; bonus_basis = []; seen_events = [] }
