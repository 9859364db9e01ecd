-- ===== src/Pipeline/RateLimit/Kept.antt =====
-- internal/pipeline/ratelimit.go: which events are kept.
use nevr_anticheat.Prelude.{
  ℕ, zero, suc, ◌-◌, ◌≡◌, refl, String, Bool, true, false, List, [], ◌∷◌, ◌++◌, leb, ◌∙◌, sym, ap,
  inl, inr, ◌&&◌, take, arith, if◌then◌else◌, Bool-cases,
}
use nevr_anticheat.Prelude.Int.{ℤ, pos, leb_ℤ, pos_part}
use nevr_anticheat.Prelude.Dict.{text_eq, text_eq_sound, lookup, count_at, lookup-insert}
use nevr_anticheat.Prelude.Text.{joined}
use nevr_anticheat.Prelude.Joined.{is_colonless, text_eq-joined}
use nevr_anticheat.Model.Event.{DetectionEvent}
use nevr_anticheat.Pipeline.RateLimit.{
  RateLimiter, new_rate_limiter, reset, increment, limit_key, at_cap, filter_one, filter_from,
  filter, of_key,
}

count_at-increment :
    (k j : String) (m : List (String × ℕ))
    → count_at j (increment k m) ≡ (if text_eq k j then suc (count_at j m) else count_at j m)
unfolding count_at increment
count_at-increment k j m = elim (Bool-cases (text_eq k j)) [
  | inl e ↦ ground (arith, e, lookup-insert k j (suc (count_at k m)) m, text_eq_sound k j e)
  | inr e ↦ ground (arith, e, lookup-insert k j (suc (count_at k m)) m)
]

-- What is left of the budget of a key.
abbrev budget : String → RateLimiter → ℕ
budget k rl = rl.max_per_player_per_detector - count_at k rl.counts

budget-increment :
    (k j : String) (rl : RateLimiter)
    → leb rl.max_per_player_per_detector (count_at j rl.counts) ≡ false
    → budget k rl ≡ (
        let left = budget k (record rl { counts = increment j rl.counts }) in
        if text_eq j k then suc left else left)
budget-increment k j rl h = elim (Bool-cases (text_eq j k)) [
  | inl e ↦ rw e (ground (arith, e, h, text_eq_sound j k e, count_at-increment j k rl.counts))
  | inr e ↦ rw e (ground (arith, e, h, count_at-increment j k rl.counts))
]

take-nil {ℓ} : {A : Type ℓ} (n : ℕ) → take {A = A} n [] ≡ []
take-nil zero = refl
take-nil (suc n) = refl

take-budget {ℓ} :
    {A : Type ℓ} (x : A) (xs : List A) (b : Bool) (n : ℕ)
    → (if b then x ∷ take n xs else take n xs)
      ≡ take (if b then suc n else n) (if b then x ∷ xs else xs)
take-budget x xs true n = refl
take-budget x xs false n = refl

spent-budget {ℓ} :
    {A : Type ℓ} (x : A) (xs : List A) (j k : String) (rl : RateLimiter)
    → leb rl.max_per_player_per_detector (count_at j rl.counts) ≡ true
    → take (budget k rl) xs ≡ take (budget k rl) (if text_eq j k then x ∷ xs else xs)
spent-budget x xs j k rl h = elim (Bool-cases (text_eq j k)) [
  | inl e ↦ let spent : budget k rl ≡ 0 = ground (arith, h, text_eq_sound j k e) in rw spent refl
  | inr e ↦ rw e refl
]

module _ {ℓ} {W : Type ℓ} where
  filter_from-first_wins :
      (k : String) (rl : RateLimiter) (now : List (String × ℕ)) (evs : List (DetectionEvent W))
      → of_key k (filter_from rl now evs).kept ≡ take (budget k rl) (of_key k evs)
  unfolding filter_from filter_one of_key
  filter_from-first_wins k rl now [] = sym (take-nil _)
  filter_from-first_wins k rl now (ev ∷ evs) = elim (Bool-cases (at_cap rl ev)) [
    | inl c ↦
        rw c
          (filter_from-first_wins k _ _ evs ∙ spent-budget ev (of_key k evs) (limit_key ev) k rl c)
    | inr c ↦
        rw
          (
            c,
            budget-increment k (limit_key ev) rl c,
            filter_from-first_wins k (record rl { counts = increment (limit_key ev) rl.counts }) now
                evs,
          )
          (take-budget ev (of_key k evs) (text_eq (limit_key ev) k) _)
  ]

  -- The calls of Filter between two resets: what they keep, in order.
  unfoldable pub filter_all : RateLimiter → List (List (DetectionEvent W)) → List (DetectionEvent W)
  filter_all rl [] = []
  filter_all rl (evs ∷ batches) = let r = filter rl evs in r.kept ++ filter_all r.limiter batches

  abbrev pub flatten : List (List (DetectionEvent W)) → List (DetectionEvent W)
  flatten [] = []
  flatten (evs ∷ batches) = evs ++ flatten batches

  kept_lem :
      (evs : List (DetectionEvent W)) (rl : RateLimiter) (now now' : List (String × ℕ))
      → (filter_from rl now evs).kept ≡ (filter_from rl now' evs).kept
  unfolding filter_from
  kept_lem [] rl now now' = refl
  kept_lem (x ∷ xs) rl now now' = elim (Bool-cases (at_cap rl x)) [
    | inl c ↦ rw c (kept_lem xs (filter_one rl x) _ _)
    | inr c ↦ rw c (ap (◌∷◌ x) (kept_lem xs (filter_one rl x) _ _))
  ]

  filter_from-append :
      (xs : List (DetectionEvent W)) (rl : RateLimiter) (now after : List (String × ℕ))
      → (ys : List (DetectionEvent W))
      → (filter_from rl now (xs ++ ys)).kept
        ≡ (filter_from rl now xs).kept
          ++ (filter_from (filter_from rl now xs).limiter after ys).kept
  unfolding filter_from
  filter_from-append [] rl now after ys = kept_lem ys rl now after
  filter_from-append (x ∷ xs) rl now after ys = elim (Bool-cases (at_cap rl x)) [
    | inl c ↦ rw c (filter_from-append xs (filter_one rl x) _ after ys)
    | inr c ↦ rw c (ap (◌∷◌ x) (filter_from-append xs (filter_one rl x) _ after ys))
  ]

  filter_all-flatten :
      (batches : List (List (DetectionEvent W))) (rl : RateLimiter)
      → filter_all rl batches ≡ (filter rl (flatten batches)).kept
  unfolding filter_all filter filter_from
  filter_all-flatten [] rl = refl
  filter_all-flatten (evs ∷ batches) rl =
      rw (filter_all-flatten batches (filter_from rl [] evs).limiter)
        (sym (filter_from-append evs rl [] [] (flatten batches)))

  -- The events of one player and detector.
  unfoldable pub of_pair : String → String → List (DetectionEvent W) → List (DetectionEvent W)
  of_pair player detector [] = []
  of_pair player detector (ev ∷ evs) =
      let rest = of_pair player detector evs in
      if text_eq ev.player_id player && text_eq ev.detector_id detector then ev ∷ rest else rest

  -- No detector's identifier holds a colon.
  abbrev pub AllColonless : List (DetectionEvent W) → Type 0
  AllColonless [] = Unit
  AllColonless (ev ∷ evs) = (is_colonless ev.detector_id ≡ true) × AllColonless evs

  of_key-joined :
      (player detector : String) (evs : List (DetectionEvent W))
      → is_colonless detector ≡ true
      → AllColonless evs
      → of_key (joined player detector) evs ≡ of_pair player detector evs
  unfolding of_key of_pair limit_key
  of_key-joined player detector [] h all = refl
  of_key-joined player detector (ev ∷ evs) h all =
      rw
        (
          text_eq-joined ev.player_id player ev.detector_id detector all.0 h,
          of_key-joined player detector evs h all.1,
        )
        refl

  filter_from-AllColonless :
      (evs : List (DetectionEvent W)) (rl : RateLimiter) (now : List (String × ℕ))
      → AllColonless evs
      → AllColonless (filter_from rl now evs).kept
  unfolding filter_from
  filter_from-AllColonless [] rl now all = tt
  filter_from-AllColonless (ev ∷ evs) rl now all = elim (Bool-cases (at_cap rl ev)) [
    | inl c ↦ rw c (filter_from-AllColonless evs (filter_one rl ev) _ all.1)
    | inr c ↦ rw c (all.0, filter_from-AllColonless evs (filter_one rl ev) _ all.1)
  ]

  key-first_wins :
      (k : String) (max : ℤ) (batches : List (List (DetectionEvent W)))
      → of_key k (filter_all (reset (new_rate_limiter max)) batches)
        ≡ take (if leb_ℤ max (pos 0) then 100 else pos_part max) (of_key k (flatten batches))
  unfolding new_rate_limiter reset filter count_at lookup
  key-first_wins k max batches = rw (filter_all-flatten batches (reset (new_rate_limiter max))) (
      filter_from-first_wins k (reset (new_rate_limiter max)) [] (flatten batches)
      ∙ ap (λ n. take n (of_key k (flatten batches))) (omega arith))

  -- Where no detector's identifier holds a colon: of the events of a player and detector that all calls
  -- of Filter since a reset see, exactly the first ones up to the cap are kept, in order; the cap is the
  -- configured one, or 100 where that is not positive.
  pub filter_all-first_wins :
      (player detector : String) (max : ℤ) (batches : List (List (DetectionEvent W)))
      → is_colonless detector ≡ true
      → AllColonless (flatten batches)
      → of_pair player detector (filter_all (reset (new_rate_limiter max)) batches)
        ≡ take
            (if leb_ℤ max (pos 0) then 100 else pos_part max)
            (of_pair player detector (flatten batches))
  filter_all-first_wins player detector max batches h all =
      rw
        (
          sym (of_key-joined player detector (flatten batches) h all),
          sym (
              of_key-joined player detector (filter_all (reset (new_rate_limiter max)) batches) h
                kept),
        )
        (key-first_wins (joined player detector) max batches)
    where
      kept : AllColonless (filter_all (reset (new_rate_limiter max)) batches)
      kept =
          let seen =
            filter_from-AllColonless (flatten batches) (reset (new_rate_limiter max)) [] all in
          rw (filter_all-flatten batches (reset (new_rate_limiter max))) (unfold filter in seen)
