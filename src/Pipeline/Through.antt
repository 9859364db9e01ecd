-- ===== src/Pipeline/Through.antt =====
-- internal/pipeline/dedup.go and ratelimit.go: what holds of every emission, and is kept by a merge,
-- holds of every incident that comes out.
use nevr_anticheat.Prelude.{
  ℕ, ◌≡◌, refl, String, Option, none, some, List, [], ◌∷◌, ◌++◌, map, inl, inr, Bool-cases,
  if◌then◌else◌, in_if,
}
use nevr_anticheat.Prelude.Int.{ℤ, ltb_ℤ, ◌+ℤ◌, pos}
use nevr_anticheat.Prelude.Dict.{lookup, AllValues, AllValues-insert, AllValues-lookup}
use nevr_anticheat.Prelude.Float.{Float}
use nevr_anticheat.Model.Event.{DetectionEvent}
use nevr_anticheat.Pipeline.Dedup.{
  Deduplicator, deduplicate, flush, fold_all, fold_emission, fold_into, close_stale, sort_incidents,
  place, is_before, at_least_one, merge_into, belongs, causal_key_text,
}
use nevr_anticheat.Pipeline.RateLimit.{
  RateLimiter, filter, filter_from, filter_one, at_cap, increment, limit_key,
}

-- A property of every element.
abbrev pub All {ℓ κ} : {A : Type ℓ} → (A → Type κ) → List A → Type κ
All P [] = Unit
All P (x ∷ xs) = P x × All P xs

pub All-append {ℓ κ} :
    {A : Type ℓ} (P : A → Type κ) (xs ys : List A) → All P xs → All P ys → All P (xs ++ ys)
All-append P [] ys p q = q
All-append P (x ∷ xs) ys p q = (p.0, All-append P xs ys p.1 q)

module _ {ℓ κ} {W : Type ℓ} (P : DetectionEvent W → Type κ) where
  place-All :
      (a : DetectionEvent W) (bs : List (DetectionEvent W)) → P a → All P bs → All P (place a bs)
  unfolding place
  place-All a [] p q = (p, tt)
  place-All a (b ∷ bs) p q =
      in_if (All P) (is_before b a) (λ e. (q.0, place-All a bs p q.1)) (λ e. (p, q))

  sort_incidents-All : (bs : List (DetectionEvent W)) → All P bs → All P (sort_incidents bs)
  unfolding sort_incidents
  sort_incidents-All [] q = tt
  sort_incidents-All (b ∷ bs) q = place-All b (sort_incidents bs) q.0 (sort_incidents-All bs q.1)

  -- What is over, and what is still open.
  close_stale-All :
      (window : ℕ) (frame : ℤ) (m : List (String × DetectionEvent W))
      → AllValues P m
      → AllValues P (close_stale window frame m).0 × All P (close_stale window frame m).1
  unfolding close_stale
  close_stale-All window frame [] q = (tt, tt)
  close_stale-All window frame ((key, inc) ∷ m) q =
      let deeper = close_stale-All window frame m q.1 in
      let over = ltb_ℤ (inc.frame_range_end +ℤ pos window) frame in
      elim (Bool-cases over) [
        | inl e ↦ rw e (deeper.0, (q.0, deeper.1))
        | inr e ↦ rw e ((q.0, deeper.0), deeper.1)
      ]

  values-All : (m : List (String × DetectionEvent W)) → AllValues P m → All P (map (λ p. p.1) m)
  values-All [] q = tt
  values-All ((key, inc) ∷ m) q = (q.0, values-All m q.1)

  pub flush-All : (d : Deduplicator W) → AllValues P d.open_incidents → All P (flush d).1
  unfolding flush
  flush-All d q = sort_incidents-All _ (values-All d.open_incidents q)

  filter_from-All :
      (rl : RateLimiter) (now : List (String × ℕ)) (evs : List (DetectionEvent W))
      → All P evs
      → All P (filter_from rl now evs).kept
  unfolding filter_from
  filter_from-All rl now [] q = tt
  filter_from-All rl now (ev ∷ evs) q =
      let rest =
        filter_from (filter_one rl ev) (if at_cap rl ev then increment (limit_key ev) now else now)
          evs in
      let deeper = filter_from-All (filter_one rl ev) _ evs q.1 in
      in_if (λ t. All P t.kept) (at_cap rl ev) {x = rest}
        {y = record rest { kept = ev ∷ rest.kept }} (λ e. deeper) (λ e. (q.0, deeper))

  pub filter-All :
      (rl : RateLimiter) (evs : List (DetectionEvent W)) → All P evs → All P (filter rl evs).kept
  unfolding filter
  filter-All rl evs q = filter_from-All rl [] evs q

module _ {ℓ κ} {W : Type ℓ} ⦃f : Float W⦄ (P : DetectionEvent W → Type κ)
    (one : (ev : DetectionEvent W) → P ev → P (at_least_one ev))
    (merged : (inc ev : DetectionEvent W) → P inc → P ev → P (merge_into inc ev)) where
  abbrev Open : Deduplicator W → Type κ
  Open d = AllValues P d.open_incidents

  fold_into-All :
      (d : Deduplicator W) (key : String) (ev : DetectionEvent W) (o : Option (DetectionEvent W))
      → lookup key d.open_incidents ≡ o
      → Open d
      → P ev
      → Open (fold_into d key ev o).0 × All P (fold_into d key ev o).1
  unfolding fold_into
  fold_into-All d key ev none e q p = (AllValues-insert P key ev d.open_incidents p q, tt)
  fold_into-All d key ev (some inc) e q p =
      let old = AllValues-lookup P key d.open_incidents q e in
      elim (Bool-cases (belongs d.merge_window inc ev)) [
        | inl b ↦ rw b (AllValues-insert P key _ d.open_incidents (merged inc ev old p) q, tt)
        | inr b ↦ rw b (AllValues-insert P key ev d.open_incidents p q, (old, tt))
      ]

  fold_all-All :
      (raws : List (DetectionEvent W)) (d : Deduplicator W)
      → Open d
      → All P raws
      → Open (fold_all d raws).0 × All P (fold_all d raws).1
  unfolding fold_all fold_emission
  fold_all-All [] d q p = (q, tt)
  fold_all-All (raw ∷ raws) d q p =
      let ev = at_least_one raw in
      let now = fold_into-All d (causal_key_text ev.causal_key) ev _ refl q (one raw p.0) in
      let rest = fold_all-All raws (fold_emission d raw).0 now.0 p.1 in
      (rest.0, All-append P _ _ now.1 rest.1)

  pub deduplicate-All :
      (d : Deduplicator W) (raws : List (DetectionEvent W)) (frame : ℤ)
      → Open d
      → All P raws
      → Open (deduplicate d raws frame).0 × All P (deduplicate d raws frame).1
  unfolding deduplicate
  deduplicate-All d raws frame q p =
      let folded = fold_all-All raws d q p in
      let over =
        close_stale-All P d.merge_window frame (fold_all d raws).0.open_incidents folded.0 in
      (over.0, sort_incidents-All P _ (All-append P _ _ folded.1 over.1))
