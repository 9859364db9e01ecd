-- ===== src/Prelude/Members.antt =====
-- What a stable sort does to the members of a list.
use mathlib.Core.Bool.{Bool}
use mathlib.Core.Logic.{inl, inr}
use mathlib.Core.List.{List, [], ◌∷◌, Memᴰ}
use nevr_anticheat.Prelude.Tests.{Bool-cases}
use nevr_anticheat.Prelude.Lists.{place_by, sort_stable}

member_under {ℓ} :
    {A : Type ℓ} (a b : A) (xs ys : List A) (x : A)
    → (Memᴰ x ys → Memᴰ x (a ∷ xs))
    → Memᴰ x (b ∷ ys)
    → Memᴰ x (a ∷ b ∷ xs)
member_under a b xs ys x deeper (Memᴰ.head e) = Memᴰ.tail (Memᴰ.head e)
member_under a b xs ys x deeper (Memᴰ.tail n) = elim (deeper n) [
  | Memᴰ.head e ↦ Memᴰ.head e
  | Memᴰ.tail r ↦ Memᴰ.tail (Memᴰ.tail r)
]

member_place_by {ℓ} :
    {A : Type ℓ} (before : A → A → Bool) (a : A) (bs : List A) (x : A)
    → Memᴰ x (place_by before a bs)
    → Memᴰ x (a ∷ bs)
unfolding place_by
member_place_by before a [] x m = m
member_place_by before a (b ∷ bs) x m = elim (Bool-cases (before b a)) [
  | inl e ↦ member_under a b bs (place_by before a bs) x (member_place_by before a bs x) (rw e at m)
  | inr e ↦ rw e at m
]

pub member_sort_stable {ℓ} :
    {A : Type ℓ} (before : A → A → Bool) (xs : List A) (x : A)
    → Memᴰ x (sort_stable before xs)
    → Memᴰ x xs
unfolding sort_stable
member_sort_stable before [] x m = m
member_sort_stable before (y ∷ ys) x m =
    elim (member_place_by before y (sort_stable before ys) x m) [
      | Memᴰ.head e ↦ Memᴰ.head e
      | Memᴰ.tail n ↦ Memᴰ.tail (member_sort_stable before ys x n)
    ]
