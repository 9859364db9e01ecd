-- ===== src/Pipeline/RateLimit.antt =====
-- internal/pipeline/ratelimit.go: the cap on a player's events per detector in a match. The observer
-- of drops gets the dropped events and is no part of the state.
pub mod Kept
use nevr_anticheat.Prelude.{
  ℕ, zero, suc, ◌-◌, ◌+◌, ◌≡◌, refl, String, Bool, true, false, List, [], ◌∷◌, ◌++◌, leb, ◌∙◌, sym,
  ap, inl, inr, take, length, arith, if◌then◌else◌, Bool-cases,
}
use nevr_anticheat.Prelude.Int.{ℤ, pos, leb_ℤ, pos_part}
use nevr_anticheat.Prelude.Dict.{text_eq, text_eq_sound, lookup, insert, count_at, lookup-insert}
use nevr_anticheat.Prelude.Text.{joined}
use nevr_anticheat.Model.Event.{DetectionEvent}

pub record RateLimiter : Type 0 where
  pub max_per_player_per_detector : ℕ
  pub counts : List (String × ℕ)
  pub dropped : List (String × ℕ)

-- NewRateLimiter
unfoldable pub new_rate_limiter : ℤ → RateLimiter
new_rate_limiter max = record {
  max_per_player_per_detector = if leb_ℤ max (pos 0) then 100 else pos_part max;
  counts = [];
  dropped = [];
}

-- Reset
unfoldable pub reset : RateLimiter → RateLimiter
reset rl = record rl { counts = []; dropped = [] }

-- `m[key]++`
unfoldable pub increment : String → List (String × ℕ) → List (String × ℕ)
increment k m = insert k (suc (count_at k m)) m

-- Filter: the limiter, the kept events and the drops of this call, an empty map for nil.
pub record Filtered {ℓ} (W : Type ℓ) : Type ℓ where
  pub limiter : RateLimiter
  pub kept : List (DetectionEvent W)
  pub dropped_now : List (String × ℕ)

module _ {ℓ} {W : Type ℓ} where
  unfoldable pub limit_key : DetectionEvent W → String
  limit_key ev = joined ev.player_id ev.detector_id

  abbrev pub at_cap : RateLimiter → DetectionEvent W → Bool
  at_cap rl ev = leb rl.max_per_player_per_detector (count_at (limit_key ev) rl.counts)

  -- One event of the loop: what it leaves of the limiter, and of the drops of this call.
  unfoldable pub filter_one : RateLimiter → DetectionEvent W → RateLimiter
  filter_one rl ev =
      if at_cap rl ev
      then record rl { dropped = increment (limit_key ev) rl.dropped }
      else record rl { counts = increment (limit_key ev) rl.counts }

  unfoldable pub filter_from :
      RateLimiter → List (String × ℕ) → List (DetectionEvent W) → Filtered W
  filter_from rl now [] = record { limiter = rl; kept = []; dropped_now = now }
  filter_from rl now (ev ∷ evs) =
      let capped = at_cap rl ev in
      let rest =
        filter_from (filter_one rl ev) (if capped then increment (limit_key ev) now else now) evs in
      if capped then rest else record rest { kept = ev ∷ rest.kept }

  -- Filter
  unfoldable pub filter : RateLimiter → List (DetectionEvent W) → Filtered W
  filter rl evs = filter_from rl [] evs

  -- The events of one key.
  unfoldable pub of_key : String → List (DetectionEvent W) → List (DetectionEvent W)
  of_key k [] = []
  of_key k (ev ∷ evs) =
      let rest = of_key k evs in if text_eq (limit_key ev) k then ev ∷ rest else rest
