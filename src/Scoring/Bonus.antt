-- ===== src/Scoring/Bonus.antt =====
-- internal/scoring/scorer.go: the correlation bonus and the half-life decay.
use nevr_anticheat.Prelude.{
  ℕ, suc, ◌-◌, ◌/◌, ◌%◌, String, Bool, false, not, ◌&&◌, ◌||◌, Option, none, some, List, [], ◌∷◌,
  leb, ◌==◌, length, if◌then◌else◌,
}
use nevr_anticheat.Prelude.Int.{ℤ, pos, negsuc, ◌-ℤ◌}
use nevr_anticheat.Prelude.Dict.{lookup, insert}
use nevr_anticheat.Prelude.Text.{contains_text}
use nevr_anticheat.Prelude.Float.{Float, lit}
use nevr_anticheat.Model.Score.{SuspicionScore}
use nevr_anticheat.Scoring.Category.{detector_category, is_meta_detector}
use nevr_anticheat.Scoring.Scorer.{ScorerConfig, Scorer, is_zero_time, recompute}

-- A set of texts, as the keys of a map.
unfoldable pub add_text : String → List String → List String
add_text t set = if contains_text t set then set else t ∷ set

-- The nanoseconds of an hour.
abbrev hour : ℕ
hour = 3_600_000_000_000

module _ {ℓ} {W : Type ℓ} ⦃f : Float W⦄ where
  abbrev pub float_at : Option W → W
  float_at none = lit 0
  float_at (some x) = x

  -- The detectors whose score still counts: the `continue` of independentCategories.
  unfoldable pub is_evidence : List (String × W) → String × ℕ → Bool
  is_evidence scores (detector, n) =
      not
        (leb n 0 || (f.le (float_at (lookup detector scores)) (lit 0) || is_meta_detector detector))

  unfoldable pub categories_of : List (String × W) → List (String × ℕ) → List String
  categories_of scores [] = []
  categories_of scores ((detector, n) ∷ rest) =
      let cats = categories_of scores rest in
      if is_evidence scores (detector, n) then add_text (detector_category detector) cats else cats

  unfoldable pub independent_categories : SuspicionScore W → ℕ
  independent_categories sc = length (categories_of sc.score_by_detector sc.detector_counts)

  -- The bonus of n categories.
  unfoldable pub bonus_of : ScorerConfig W → ℕ → W
  bonus_of c n =
      let full = f.mul (lit (n - 1)) (lit 5) in
      if leb 2 n
      then if f.le (lit 0) c.correlation_bonus_cap && f.lt c.correlation_bonus_cap full
        then c.correlation_bonus_cap
        else full
      else lit 0

  abbrev pub same_basis : Option W → W → Bool
  same_basis none bonus = false
  same_basis (some basis) bonus = f.eq basis bonus

  -- The body of the loop of ApplyCorrelationBonus: the player's record and the basis map.
  unfoldable pub bonus_step :
      Scorer W
      → List (String × W)
      → String
      → SuspicionScore W
      → SuspicionScore W × List (String × W)
  bonus_step s basis player sc =
      let bonus = bonus_of s.config (independent_categories sc) in
      if same_basis (lookup player basis) bonus
      then (sc, basis)
      else if f.eq bonus sc.correlation_bonus
      then (sc, insert player bonus basis)
      else (recompute s (record sc { correlation_bonus = bonus }), insert player bonus basis)

  unfoldable pub bonus_loop :
      Scorer W
      → List (String × W)
      → List (String × SuspicionScore W)
      → List (String × SuspicionScore W) × List (String × W)
  bonus_loop s basis [] = ([], basis)
  bonus_loop s basis ((player, sc) ∷ rest) =
      let (sc', basis') = bonus_step s basis player sc in
      let (rest', basis'') = bonus_loop s basis' rest in ((player, sc') ∷ rest', basis'')

  unfoldable pub apply_correlation_bonus : Scorer W → Scorer W
  apply_correlation_bonus s =
      let (players', basis') = bonus_loop s s.bonus_basis s.players in
      record s { players = players'; bonus_basis = basis' }

  -- Duration.Hours
  unfoldable pub hours : ℤ → W
  hours (pos n) = f.add (lit (n / hour)) (f.div (lit (n % hour)) (lit hour))
  hours (negsuc n) =
      f.sub (lit 0) (f.add (lit (suc n / hour)) (f.div (lit (suc n % hour)) (lit hour)))

  unfoldable pub scale_all : W → List (String × W) → List (String × W)
  scale_all factor [] = []
  scale_all factor ((k, v) ∷ rest) = (k, f.mul v factor) ∷ scale_all factor rest

  -- The time that a decay is counted from; the loop of ApplyDecay also stores it.
  unfoldable pub anchor_of : SuspicionScore W → ℤ
  anchor_of sc = if is_zero_time sc.last_decay_time then sc.last_event_time else sc.last_decay_time

  -- What the loop does to a score once time has passed.
  unfoldable pub decayed : ℤ → Scorer W → SuspicionScore W → W → SuspicionScore W
  decayed now s sc factor = recompute s (record sc {
    base_score = f.mul sc.base_score factor;
    correlation_bonus = f.mul sc.correlation_bonus factor;
    score_by_detector = scale_all factor sc.score_by_detector;
    score_by_category = scale_all factor sc.score_by_category;
    last_decay_time = now;
  })

  -- The body of the loop of ApplyDecay.
  unfoldable pub decay_step : ℤ → Scorer W → SuspicionScore W → SuspicionScore W
  decay_step now s sc =
      let anchor = anchor_of sc in
      let elapsed = hours (now -ℤ anchor) in
      let factor = f.pow (f.ratio 1 2) (f.div elapsed s.config.half_life_hours) in
      if is_zero_time anchor || sc.event_count == 0
      then record sc { last_decay_time = anchor }
      else if f.le elapsed (lit 0)
      then record sc { last_decay_time = anchor }
      else decayed now s sc factor

  unfoldable pub decay_loop :
      ℤ → Scorer W → List (String × SuspicionScore W) → List (String × SuspicionScore W)
  decay_loop now s [] = []
  decay_loop now s ((player, sc) ∷ rest) = (player, decay_step now s sc) ∷ decay_loop now s rest

  unfoldable pub apply_decay : ℤ → Scorer W → Scorer W
  apply_decay now s =
      if f.le s.config.half_life_hours (lit 0)
      then s
      else record s { players = decay_loop now s s.players }
