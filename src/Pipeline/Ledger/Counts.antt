-- ===== src/Pipeline/Ledger/Counts.antt =====
-- internal/pipeline/dedup.go and ratelimit.go: how many events each of the two takes in and gives out.
use nevr_anticheat.Prelude.{
  ℕ, suc, ◌+◌, ◌≤◌, ◌≡◌, refl, ◌∙◌, ap, String, Option, none, some, List, [], ◌∷◌, ◌++◌, map, inl,
  inr, arith, Bool-cases, length, length-append, in_if,
}
use nevr_anticheat.Prelude.Int.{ℤ, ltb_ℤ, ◌+ℤ◌, pos}
use nevr_anticheat.Prelude.Dict.{text_eq, lookup, insert, count_at}
use nevr_anticheat.Prelude.Float.{Float}
use nevr_anticheat.Model.Event.{DetectionEvent}
use nevr_anticheat.Pipeline.Dedup.{
  Deduplicator, deduplicate, fold_all, fold_emission, fold_into, close_stale, sort_incidents, place,
  is_before, at_least_one, merge_into, belongs, causal_key_text,
}
use nevr_anticheat.Pipeline.RateLimit.{
  RateLimiter, filter_from, filter_one, at_cap, increment, limit_key,
}

-- A place in a map that is taken anew, and one that is used again.
abbrev held {ℓ} : {A : Type ℓ} → Option A → ℕ
held none = 0
held (some a) = 1

length-insert {ℓ} :
    {V : Type ℓ} (key : String) (v : V) (m : List (String × V))
    → length (insert key v m) + held (lookup key m) ≡ suc (length m)
unfolding insert lookup
length-insert key v [] = refl
length-insert key v ((at, old) ∷ m) = elim (Bool-cases (text_eq at key)) [
  | inl e ↦ rw e (omega arith)
  | inr e ↦ rw e (omega (arith, length-insert key v m))
]

-- What a map of counts adds up to.
abbrev pub sum_counts : List (String × ℕ) → ℕ
sum_counts [] = 0
sum_counts ((key, n) ∷ m) = n + sum_counts m

sum_counts-insert :
    (key : String) (n : ℕ) (m : List (String × ℕ))
    → sum_counts (insert key n m) + count_at key m ≡ sum_counts m + n
unfolding insert lookup count_at
sum_counts-insert key n [] = omega arith
sum_counts-insert key n ((at, old) ∷ m) = elim (Bool-cases (text_eq at key)) [
  | inl e ↦ rw e (omega arith)
  | inr e ↦ rw e (omega (arith, sum_counts-insert key n m))
]

sum_counts-increment :
    (key : String) (m : List (String × ℕ)) → sum_counts (increment key m) ≡ suc (sum_counts m)
unfolding increment
sum_counts-increment key m = omega (arith, sum_counts-insert key (suc (count_at key m)) m)

module _ {ℓ} {W : Type ℓ} where
  pub length-filter_from :
      (rl : RateLimiter) (now : List (String × ℕ)) (evs : List (DetectionEvent W))
      → sum_counts (filter_from rl now evs).dropped_now + length (filter_from rl now evs).kept
        ≡ sum_counts now + length evs
  unfolding filter_from
  length-filter_from rl now [] = refl
  length-filter_from rl now (ev ∷ evs) =
      let next = filter_one rl ev in
      elim (Bool-cases (at_cap rl ev)) [
        | inl e ↦ rw e (
            omega (
              arith,
              length-filter_from next (increment (limit_key ev) now) evs,
              sum_counts-increment (limit_key ev) now,
            ))
        | inr e ↦ rw e (omega (arith, length-filter_from next now evs))
      ]

  length-place :
      (a : DetectionEvent W) (bs : List (DetectionEvent W)) → length (place a bs) ≡ suc (length bs)
  unfolding place
  length-place a [] = refl
  length-place a (b ∷ bs) =
      in_if (λ (t : List (DetectionEvent W)). length t ≡ suc (suc (length bs))) (is_before b a)
        (λ e. ap suc (length-place a bs)) (λ e. refl)

  pub length-sort_incidents :
      (bs : List (DetectionEvent W)) → length (sort_incidents bs) ≡ length bs
  unfolding sort_incidents
  length-sort_incidents [] = refl
  length-sort_incidents (b ∷ bs) =
      length-place b (sort_incidents bs) ∙ ap suc (length-sort_incidents bs)

  pub length-close_stale :
      (window : ℕ) (frame : ℤ) (m : List (String × DetectionEvent W))
      → length (close_stale window frame m).0 + length (close_stale window frame m).1 ≡ length m
  unfolding close_stale
  length-close_stale window frame [] = refl
  length-close_stale window frame ((key, inc) ∷ m) =
      elim (Bool-cases (ltb_ℤ (inc.frame_range_end +ℤ pos window) frame)) [
        | inl e ↦ rw e (omega (arith, length-close_stale window frame m))
        | inr e ↦ rw e (omega (arith, length-close_stale window frame m))
      ]

  pub length-values : (m : List (String × DetectionEvent W)) → length (map (λ p. p.1) m) ≡ length m
  length-values [] = refl
  length-values ((key, inc) ∷ m) = ap suc (length-values m)

module _ {ℓ} {W : Type ℓ} ⦃f : Float W⦄ where
  -- The merges of a deduplicator with its open incidents.
  abbrev pub in_dedup : Deduplicator W → ℕ
  in_dedup d = d.merged + length d.open_incidents

  length-fold_into :
      (d : Deduplicator W) (key : String) (ev : DetectionEvent W) (o : Option (DetectionEvent W))
      → lookup key d.open_incidents ≡ o
      → (in_dedup (fold_into d key ev o).0 + length (fold_into d key ev o).1 ≡ suc (in_dedup d))
        × (d.merged ≤ (fold_into d key ev o).0.merged)
  unfolding fold_into
  length-fold_into d key ev none e =
      let put = length-insert key ev d.open_incidents in
      let fresh : length (insert key ev d.open_incidents) + 0 ≡ suc (length d.open_incidents) =
        rw e at put in
      (omega (arith, fresh), omega arith)
  length-fold_into d key ev (some inc) e =
      let put = length-insert key ev d.open_incidents in
      let merged = length-insert key (merge_into inc ev) d.open_incidents in
      let again : length (insert key ev d.open_incidents) + 1 ≡ suc (length d.open_incidents) =
        rw e at put in
      let kept : length (insert key (merge_into inc ev) d.open_incidents) + 1
          ≡ suc (length d.open_incidents) =
        rw e at merged in
      elim (Bool-cases (belongs d.merge_window inc ev)) [
        | inl b ↦ rw b (omega (arith, kept), omega arith)
        | inr b ↦ rw b (omega (arith, again), omega arith)
      ]

  length-fold_all :
      (raws : List (DetectionEvent W)) (d : Deduplicator W)
      → (in_dedup (fold_all d raws).0 + length (fold_all d raws).1 ≡ in_dedup d + length raws)
        × (d.merged ≤ (fold_all d raws).0.merged)
  unfolding fold_all fold_emission
  length-fold_all [] d = (refl, omega arith)
  length-fold_all (raw ∷ raws) d =
      let ev = at_least_one raw in
      let now = length-fold_into d (causal_key_text ev.causal_key) ev _ refl in
      let rest = length-fold_all raws (fold_emission d raw).0 in
      let joint = length-append (fold_emission d raw).1 (fold_all (fold_emission d raw).0 raws).1 in
      (omega (arith, now.0, rest.0, joint), omega (arith, now.1, rest.1))

  pub length-deduplicate :
      (d : Deduplicator W) (raws : List (DetectionEvent W)) (frame : ℤ)
      → (in_dedup (deduplicate d raws frame).0 + length (deduplicate d raws frame).1
          ≡ in_dedup d + length raws)
        × (d.merged ≤ (deduplicate d raws frame).0.merged)
  unfolding deduplicate
  length-deduplicate d raws frame =
      let all = length-fold_all raws d in
      let d' = (fold_all d raws).0 in
      let stale = length-close_stale d.merge_window frame d'.open_incidents in
      let over = (close_stale d.merge_window frame d'.open_incidents).1 in
      let out =
        length-sort_incidents ((fold_all d raws).1 ++ over)
        ∙ length-append (fold_all d raws).1 over in
      (omega (arith, all.0, stale, out), all.1)
