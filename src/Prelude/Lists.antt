-- ===== src/Prelude/Lists.antt =====
-- Lists measured and cut by native numbers, under the library's names.
use Prim.Native.Nat.{ℕ, zero, suc, ◌+◌}
use mathlib.Core.Path.{◌≡◌, refl, ap, ◌∙◌}
use mathlib.Core.Bool.{Bool}
use mathlib.Core.List.{List, [], ◌∷◌, ◌++◌}
use native.Mathlib.Omega.{arith}
use nevr_anticheat.Prelude.Tests.{if◌then◌else◌, in_if}

module _ {ℓ} {A : Type ℓ} where
  abbrev pub length : List A → ℕ
  length [] = 0
  length (x ∷ rest) = suc (length rest)

  -- The first elements, as many as there are.
  abbrev pub take : ℕ → List A → List A
  take zero rest = []
  take (suc n) [] = []
  take (suc n) (x ∷ rest) = x ∷ take n rest

  -- What follows them.
  abbrev pub drop : ℕ → List A → List A
  drop zero rest = rest
  drop (suc n) [] = []
  drop (suc n) (x ∷ rest) = drop n rest

  -- sort.SliceStable by a strict order.
  unfoldable pub place_by : (A → A → Bool) → A → List A → List A
  place_by before a [] = a ∷ []
  place_by before a (b ∷ bs) =
      let rest = place_by before a bs in if before b a then b ∷ rest else a ∷ b ∷ bs

  unfoldable pub sort_stable : (A → A → Bool) → List A → List A
  sort_stable before [] = []
  sort_stable before (a ∷ rest) = place_by before a (sort_stable before rest)

  pub length-append : (xs ys : List A) → length (xs ++ ys) ≡ length xs + length ys
  length-append [] ys = omega arith
  length-append (x ∷ xs) ys = omega (arith, length-append xs ys)

  length-place_by :
      (before : A → A → Bool) (a : A) (bs : List A)
      → length (place_by before a bs) ≡ suc (length bs)
  unfolding place_by
  length-place_by before a [] = refl
  length-place_by before a (b ∷ bs) =
      in_if (λ (t : List A). length t ≡ suc (suc (length bs))) (before b a)
        (λ e. ap suc (length-place_by before a bs)) (λ e. refl)

  pub length-sort_stable :
      (before : A → A → Bool) (xs : List A) → length (sort_stable before xs) ≡ length xs
  unfolding sort_stable
  length-sort_stable before [] = refl
  length-sort_stable before (x ∷ xs) =
      length-place_by before x (sort_stable before xs) ∙ ap suc (length-sort_stable before xs)
