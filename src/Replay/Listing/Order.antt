-- ===== src/Replay/Listing/Order.antt =====
-- internal/replay/raw_tick_spool.go: the indices of a map, sorted, ascend and are all there.
use nevr_anticheat.Prelude.{
  ℕ, ◌≡◌, refl, sym, ap, subst, true, false, List, [], ◌∷◌, map, arith, inl, inr, Bool-cases,
}
use mathlib.Core.List.{Memᴰ}
use nevr_anticheat.Prelude.Int.{ℤ, pos, negsuc, ◌<ℤ◌, leb_ℤ}
use nevr_anticheat.Replay.Spool.{RawByFrame, same_index, put_in_order, sort_ints}

-- Every index is above, or other than, the first.
abbrev pub AllAbove : ℤ → List ℤ → Type 0
AllAbove idx [] = Unit
AllAbove idx (at ∷ rest) = (idx <ℤ at) × AllAbove idx rest

abbrev pub Absent : ℤ → List ℤ → Type 0
Absent idx [] = Unit
Absent idx (at ∷ rest) = (same_index idx at ≡ false) × Absent idx rest

abbrev pub Ascending : List ℤ → Type 0
Ascending [] = Unit
Ascending (at ∷ rest) = AllAbove at rest × Ascending rest

-- A key stands in a Go map once.
abbrev pub IsMap : RawByFrame → Type 0
IsMap [] = Unit
IsMap ((at, raw) ∷ rest) = Absent at (map (λ e. e.0) rest) × IsMap rest

AllAbove-trans : (i j : ℤ) (xs : List ℤ) → i <ℤ j → AllAbove j xs → AllAbove i xs
AllAbove-trans i j [] h all = tt
AllAbove-trans i j (x ∷ xs) h all = (ground (arith, h, all.0), AllAbove-trans i j xs h all.1)

AllAbove-put : (i j : ℤ) (xs : List ℤ) → i <ℤ j → AllAbove i xs → AllAbove i (put_in_order j xs)
unfolding put_in_order
AllAbove-put i j [] h all = (h, tt)
AllAbove-put i j (x ∷ xs) h all = elim (Bool-cases (leb_ℤ j x)) [
  | inl e ↦ rw e (h, all)
  | inr e ↦ rw e (all.0, AllAbove-put i j xs h all.1)
]

Absent-put :
    (i j : ℤ) (xs : List ℤ) → same_index i j ≡ false → Absent i xs → Absent i (put_in_order j xs)
unfolding put_in_order
Absent-put i j [] h all = (h, tt)
Absent-put i j (x ∷ xs) h all = elim (Bool-cases (leb_ℤ j x)) [
  | inl e ↦ rw e (h, all)
  | inr e ↦ rw e (all.0, Absent-put i j xs h all.1)
]

Absent-sort_ints : (i : ℤ) (xs : List ℤ) → Absent i xs → Absent i (sort_ints xs)
unfolding sort_ints
Absent-sort_ints i [] all = tt
Absent-sort_ints i (x ∷ xs) all = Absent-put i x (sort_ints xs) all.0 (Absent-sort_ints i xs all.1)

below : (i x : ℤ) → same_index i x ≡ false → leb_ℤ i x ≡ true → i <ℤ x
below (pos a) (pos b) h e = ground arith
below (pos a) (negsuc b) h e = ground arith
below (negsuc a) (pos b) h e = ground arith
below (negsuc a) (negsuc b) h e = ground arith

above : (i x : ℤ) → leb_ℤ i x ≡ false → x <ℤ i
above i x e = ground arith

put-Ascending : (i : ℤ) (xs : List ℤ) → Absent i xs → Ascending xs → Ascending (put_in_order i xs)
unfolding put_in_order
put-Ascending i [] all asc = (tt, tt)
put-Ascending i (x ∷ xs) all asc = elim (Bool-cases (leb_ℤ i x)) [
  | inl e ↦ let low = below i x all.0 e in rw e ((low, AllAbove-trans i x xs low asc.0), asc)
  | inr e ↦ rw e (AllAbove-put x i xs (above i x e) asc.0, put-Ascending i xs all.1 asc.1)
]

pub sort_ints-Ascending : (m : RawByFrame) → IsMap m → Ascending (sort_ints (map (λ e. e.0) m))
unfolding sort_ints
sort_ints-Ascending [] h = tt
sort_ints-Ascending ((at, raw) ∷ rest) h =
    put-Ascending at _ (Absent-sort_ints at _ h.0) (sort_ints-Ascending rest h.1)

put_in_order-here : (i : ℤ) (xs : List ℤ) → Memᴰ i (put_in_order i xs)
unfolding put_in_order
put_in_order-here i [] = Memᴰ.head refl
put_in_order-here i (x ∷ xs) = elim (Bool-cases (leb_ℤ i x)) [
  | inl e ↦ rw e (Memᴰ.head refl)
  | inr e ↦ rw e (Memᴰ.tail (put_in_order-here i xs))
]

put_in_order-keeps : (i j : ℤ) (xs : List ℤ) → Memᴰ j xs → Memᴰ j (put_in_order i xs)
unfolding put_in_order
put_in_order-keeps i j [] n = elim n [ ]
put_in_order-keeps i j (x ∷ xs) (Memᴰ.head same) = elim (Bool-cases (leb_ℤ i x)) [
  | inl e ↦ rw e (Memᴰ.tail (Memᴰ.head same))
  | inr e ↦ rw e (Memᴰ.head same)
]
put_in_order-keeps i j (x ∷ xs) (Memᴰ.tail n) = elim (Bool-cases (leb_ℤ i x)) [
  | inl e ↦ rw e (Memᴰ.tail (Memᴰ.tail n))
  | inr e ↦ rw e (Memᴰ.tail (put_in_order-keeps i j xs n))
]

pub sort_ints-keeps :
    (m : RawByFrame) (i : ℤ) (raw : List ℕ)
    → Memᴰ (i, raw) m
    → Memᴰ i (sort_ints (map (λ e. e.0) m))
unfolding sort_ints
sort_ints-keeps [] i raw n = elim n [ ]
sort_ints-keeps ((at, r) ∷ rest) i raw (Memᴰ.head e) =
    subst (λ k. Memᴰ k (put_in_order at (sort_ints (map (λ e. e.0) rest)))) (sym (ap (λ p. p.0) e))
      (put_in_order-here at _)
sort_ints-keeps ((at, r) ∷ rest) i raw (Memᴰ.tail n) =
    put_in_order-keeps at i _ (sort_ints-keeps rest i raw n)
