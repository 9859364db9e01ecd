-- ===== src/Model/Score.antt =====
-- internal/model/scoring.go: the scoring state of one player. Go maps are association lists, so a
-- copy of the record is the deep copy that Clone makes. Times are nanoseconds since Go's zero time.
use nevr_anticheat.Prelude.{ℕ, String, Bool, false, List, []}
use nevr_anticheat.Prelude.Int.{ℤ, pos}
use nevr_anticheat.Prelude.Float.{Float, lit}
use nevr_anticheat.Model.Level.{LevelTable}

pub record SuspicionScore {ℓ} (W : Type ℓ) : Type ℓ where
  pub score_player_id : String
  pub total_score : W
  pub base_score : W
  pub correlation_bonus : W
  pub score_by_detector : List (String × W)
  pub score_by_category : List (String × W)
  pub event_count : ℕ
  pub match_count : ℕ
  pub first_event_time : ℤ
  pub last_event_time : ℤ
  pub last_decay_time : ℤ
  pub decay_half_life_hours : W
  pub highest_single_event : W
  pub highest_single_detector : String
  pub levels : LevelTable W
  pub review_threshold : W
  pub auto_enforce_threshold : W
  pub exceeds_review : Bool
  pub exceeds_auto_enforce : Bool
  pub snapshot_time : ℤ
  pub detector_counts : List (String × ℕ)
  pub category_counts : List (String × ℕ)
  pub last_event_frames : List (String × ℤ)
  -- The keys of MatchIDs.
  pub match_ids : List String

module _ {ℓ} {W : Type ℓ} ⦃f : Float W⦄ where
  -- The zero value of the struct, its maps made by Init.
  unfoldable pub zero_score : String → LevelTable W → SuspicionScore W
  zero_score player table = record {
    score_player_id = player;
    total_score = lit 0;
    base_score = lit 0;
    correlation_bonus = lit 0;
    score_by_detector = [];
    score_by_category = [];
    event_count = 0;
    match_count = 0;
    first_event_time = pos 0;
    last_event_time = pos 0;
    last_decay_time = pos 0;
    decay_half_life_hours = lit 0;
    highest_single_event = lit 0;
    highest_single_detector = "";
    levels = table;
    review_threshold = lit 0;
    auto_enforce_threshold = lit 0;
    exceeds_review = false;
    exceeds_auto_enforce = false;
    snapshot_time = pos 0;
    detector_counts = [];
    category_counts = [];
    last_event_frames = [];
    match_ids = [];
  }
