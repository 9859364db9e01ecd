-- ===== src/Model/Level.antt =====
-- internal/model/scoring.go: the tier table, the single source of what a suspicion score means.
pub mod Bounds
pub mod Order
use nevr_anticheat.Prelude.{
  ℕ, Bool, true, false, ◌&&◌, Option, none, some, List, [], ◌∷◌, leb, if◌then◌else◌,
}
use nevr_anticheat.Prelude.Float.{Float, lit}

pub data ScoringLevel : Type 0 where
  clean informational suspicious high_risk critical action_worthy : ScoringLevel

pub record LevelTable {ℓ} (W : Type ℓ) : Type ℓ where
  pub informational_from : W
  pub suspicious_from : W
  pub high_risk_from : W
  pub critical_from : W
  pub action_worthy_from : W

-- The two messages of Validate, with the name of the boundary.
pub data LevelError : Type 0 where
  not_positive decreasing : ScoringLevel → LevelError

-- Rank: clean is 0, action_worthy 5.
unfoldable pub rank : ScoringLevel → ℕ
rank informational = 1
rank suspicious = 2
rank high_risk = 3
rank critical = 4
rank action_worthy = 5
rank clean = 0

unfoldable pub at_least : ScoringLevel → ScoringLevel → Bool
unfolding rank
at_least l other = leb (rank other) (rank l)

module _ {ℓ} {W : Type ℓ} ⦃f : Float W⦄ where
  unfoldable pub default_table : LevelTable W
  default_table = record {
    informational_from = lit 20;
    suspicious_from = lit 40;
    high_risk_from = lit 60;
    critical_from = lit 80;
    action_worthy_from = lit 95;
  }

  -- `t == LevelTable{}`
  unfoldable pub is_zero : LevelTable W → Bool
  is_zero t =
      f.eq t.informational_from (lit 0)
      && (f.eq t.suspicious_from (lit 0)
          && (f.eq t.high_risk_from (lit 0)
              && (f.eq t.critical_from (lit 0) && f.eq t.action_worthy_from (lit 0))))

  -- The loop of Validate over the boundaries after the first.
  unfoldable pub validate_rest : W → List (ScoringLevel × W) → Option LevelError
  validate_rest previous [] = none
  validate_rest previous ((name, b) ∷ rest) =
      if f.le b (lit 0)
      then some (not_positive name)
      else if f.lt b previous
      then some (decreasing name)
      else validate_rest b rest

  -- Validate; `none` is the nil error.
  unfoldable pub validate : LevelTable W → Option LevelError
  unfolding validate_rest
  validate t =
      if f.le t.informational_from (lit 0)
      then some (not_positive informational)
      else validate_rest t.informational_from (
          (suspicious, t.suspicious_from)
          ∷ (high_risk, t.high_risk_from)
          ∷ (critical, t.critical_from)
          ∷ (action_worthy, t.action_worthy_from)
          ∷ [])

  -- `if a > b { a = b }` and `if a < b { a = b }`
  unfoldable pub cap_at : W → W → W
  cap_at a b = if f.lt b a then b else a

  unfoldable pub raise_to : W → W → W
  raise_to a b = if f.lt a b then b else a

  unfoldable pub with_review_threshold : LevelTable W → W → LevelTable W
  with_review_threshold t threshold =
      let suspicious' = cap_at t.suspicious_from threshold in
      let critical' = raise_to t.critical_from threshold in
      if f.le threshold (lit 0) then t else record {
        informational_from = cap_at t.informational_from suspicious';
        suspicious_from = suspicious';
        high_risk_from = threshold;
        critical_from = critical';
        action_worthy_from = raise_to t.action_worthy_from critical';
      }

  -- The switch of LevelFor; `score >= bound` is `le bound score`.
  unfoldable pub tier : LevelTable W → W → ScoringLevel
  tier t score =
      if f.le t.action_worthy_from score
      then action_worthy
      else if f.le t.critical_from score
      then critical
      else if f.le t.high_risk_from score
      then high_risk
      else if f.le t.suspicious_from score
      then suspicious
      else if f.le t.informational_from score
      then informational
      else clean

  abbrev effective : LevelTable W → Option LevelError → LevelTable W
  effective t none = t
  effective t (some e) = default_table

  unfoldable pub level_for : LevelTable W → W → ScoringLevel
  unfolding tier
  level_for t score = tier (effective t (validate t)) score
