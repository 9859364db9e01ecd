-- ===== src/Replay/Listing.antt =====
-- internal/replay/raw_tick_spool.go: what a write leaves in the spool lists its map, once and in order.
mod Order
use nevr_anticheat.Prelude.{
  ℕ, ◌<◌, ◌≡◌, refl, sym, ap, subst, true, false, List, [], ◌∷◌, ◌++◌, map, length, arith, inl, inr,
  Bool-cases,
}
use mathlib.Core.List.{Memᴰ}
use nevr_anticheat.Prelude.Int.{ℤ, pos, negsuc, ◌<ℤ◌}
use nevr_anticheat.Replay.Spool.{RawByFrame, same_index, raw_at, records, read_all}
use nevr_anticheat.Replay.RoundTrip.{
  entry_of, entries_from, entries, all_entries, AllWritable, write_all, read_all-write_all,
}
use nevr_anticheat.Replay.Listing.Order.{
  AllAbove, Absent, Ascending, sort_ints-Ascending, sort_ints-keeps, IsMap,
}

same_index_sound : (i j : ℤ) → same_index i j ≡ true → i ≡ j
same_index_sound (pos a) (pos b) h = ap pos (ground (arith, h))
same_index_sound (pos a) (negsuc b) h = absurd (ground (arith, h))
same_index_sound (negsuc a) (pos b) h = absurd (ground (arith, h))
same_index_sound (negsuc a) (negsuc b) h = ap negsuc (ground (arith, h))

same_index_refl : (i : ℤ) → same_index i i ≡ true
same_index_refl (pos a) = ground arith
same_index_refl (negsuc a) = ground arith

-- A payload that is read is one of the map's.
raw_at-Mem :
    (i : ℤ) (m : RawByFrame) (b : ℕ) (bs : List ℕ) → raw_at i m ≡ b ∷ bs → Memᴰ (i, b ∷ bs) m
unfolding raw_at
raw_at-Mem i [] b bs h = absurd cc
raw_at-Mem i ((at, raw) ∷ rest) b bs h = elim (Bool-cases (same_index at i)) [
  | inl e ↦
      let found : raw ≡ b ∷ bs = rw e at h in
      Memᴰ.head (λ k. (sym (same_index_sound at i e) k, sym found k))
  | inr e ↦ Memᴰ.tail (raw_at-Mem i rest b bs (rw e at h))
]

Absent-Mem :
    (i : ℤ) (m : RawByFrame) (j : ℤ) (raw : List ℕ)
    → Absent i (map (λ e. e.0) m)
    → Memᴰ (j, raw) m
    → same_index i j ≡ false
Absent-Mem i [] j raw all n = elim n [ ]
Absent-Mem i ((at, r) ∷ rest) j raw all (Memᴰ.head e) = rw (ap (λ p. p.0) e) all.0
Absent-Mem i ((at, r) ∷ rest) j raw all (Memᴰ.tail n) = Absent-Mem i rest j raw all.1 n

Mem-raw_at : (i : ℤ) (m : RawByFrame) (raw : List ℕ) → IsMap m → Memᴰ (i, raw) m → raw_at i m ≡ raw
unfolding raw_at
Mem-raw_at i [] raw h n = elim n [ ]
Mem-raw_at i ((at, r) ∷ rest) raw h (Memᴰ.head e) =
    let hit : same_index at i ≡ true =
      subst (λ k. same_index k i ≡ true) (ap (λ p. p.0) e) (same_index_refl i) in
    rw hit (sym (ap (λ p. p.1) e))
Mem-raw_at i ((at, r) ∷ rest) raw h (Memᴰ.tail n) =
    let miss = Absent-Mem at rest i raw h.0 n in rw miss (Mem-raw_at i rest raw h.1 n)

abbrev AllAfter : ℕ → List (ℕ × List ℕ) → Type 0
AllAfter n [] = Unit
AllAfter n ((k, raw) ∷ rest) = (n < k) × AllAfter n rest

abbrev AreAscending : List (ℕ × List ℕ) → Type 0
AreAscending [] = Unit
AreAscending ((n, raw) ∷ rest) = AllAfter n rest × AreAscending rest

-- The records are the entries of the map with a payload that is not empty, in the order of their indices.
pub record IsListing (m : RawByFrame) (rs : List (ℕ × List ℕ)) : Type 0 where
  ordered : AreAscending rs
  sound : (n : ℕ) (raw : List ℕ) → Memᴰ (n, raw) rs → Memᴰ (pos n, raw) m × (0 < length raw)
  complete : (n : ℕ) (raw : List ℕ) → Memᴰ (pos n, raw) m → 0 < length raw → Memᴰ (n, raw) rs

AllAfter-entry_of :
    (n : ℕ) (i : ℤ) (raw : List ℕ) (rs : List (ℕ × List ℕ))
    → pos n <ℤ i
    → AllAfter n rs
    → AllAfter n (entry_of i raw rs)
AllAfter-entry_of n i [] rs h all = all
AllAfter-entry_of n (negsuc k) (b ∷ bs) rs h all = all
AllAfter-entry_of n (pos k) (b ∷ bs) rs h all = (ground (arith, h), all)

entries_from-AllAfter :
    (n : ℕ) (idxs : List ℤ) (m : RawByFrame)
    → AllAbove (pos n) idxs
    → AllAfter n (entries_from idxs m)
entries_from-AllAfter n [] m all = tt
entries_from-AllAfter n (i ∷ idxs) m all =
    AllAfter-entry_of n i (raw_at i m) _ all.0 (entries_from-AllAfter n idxs m all.1)

entry_of-AreAscending :
    (i : ℤ) (raw : List ℕ) (idxs : List ℤ) (m : RawByFrame)
    → AllAbove i idxs
    → AreAscending (entries_from idxs m)
    → AreAscending (entry_of i raw (entries_from idxs m))
entry_of-AreAscending i [] idxs m all asc = asc
entry_of-AreAscending (negsuc n) (b ∷ bs) idxs m all asc = asc
entry_of-AreAscending (pos n) (b ∷ bs) idxs m all asc = (entries_from-AllAfter n idxs m all, asc)

entries_from-AreAscending :
    (idxs : List ℤ) (m : RawByFrame) → Ascending idxs → AreAscending (entries_from idxs m)
entries_from-AreAscending [] m asc = tt
entries_from-AreAscending (i ∷ idxs) m asc =
    entry_of-AreAscending i (raw_at i m) idxs m asc.0 (entries_from-AreAscending idxs m asc.1)

-- The record is in the map, and has a payload.
abbrev IsEntry : RawByFrame → ℕ → List ℕ → Type 0
IsEntry m n raw = Memᴰ (pos n, raw) m × (0 < length raw)

entry_of-IsEntry :
    (m : RawByFrame) (i : ℤ) (at : List ℕ) (rs : List (ℕ × List ℕ)) (n : ℕ) (raw : List ℕ)
    → raw_at i m ≡ at
    → (Memᴰ (n, raw) rs → IsEntry m n raw)
    → Memᴰ (n, raw) (entry_of i at rs)
    → IsEntry m n raw
entry_of-IsEntry m i [] rs n raw e rec k = rec k
entry_of-IsEntry m (negsuc j) (b ∷ bs) rs n raw e rec k = rec k
entry_of-IsEntry m (pos j) (b ∷ bs) rs n raw e rec (Memᴰ.tail k) = rec k
entry_of-IsEntry m (pos j) (b ∷ bs) rs n raw e rec (Memᴰ.head same) =
    subst (λ p. IsEntry m p.0 p.1) (sym same) (raw_at-Mem (pos j) m b bs e, omega arith)

entries_from-IsEntry :
    (idxs : List ℤ) (m : RawByFrame) (n : ℕ) (raw : List ℕ)
    → Memᴰ (n, raw) (entries_from idxs m)
    → IsEntry m n raw
entries_from-IsEntry [] m n raw k = elim k [ ]
entries_from-IsEntry (i ∷ idxs) m n raw k =
    entry_of-IsEntry m i (raw_at i m) _ n raw refl (entries_from-IsEntry idxs m n raw) k

entry_of-deeper :
    (i : ℤ) (at : List ℕ) (rs : List (ℕ × List ℕ)) (r : ℕ × List ℕ)
    → Memᴰ r rs
    → Memᴰ r (entry_of i at rs)
entry_of-deeper i [] rs r k = k
entry_of-deeper (negsuc n) (b ∷ bs) rs r k = k
entry_of-deeper (pos n) (b ∷ bs) rs r k = Memᴰ.tail k

entry_of-here :
    (n : ℕ) (raw : List ℕ) (rs : List (ℕ × List ℕ))
    → 0 < length raw
    → Memᴰ (n, raw) (entry_of (pos n) raw rs)
entry_of-here n [] rs h = absurd (omega (arith, h))
entry_of-here n (b ∷ bs) rs h = Memᴰ.head refl

entries_from-finds :
    (idxs : List ℤ) (m : RawByFrame) (n : ℕ) (raw : List ℕ)
    → raw_at (pos n) m ≡ raw
    → 0 < length raw
    → Memᴰ (pos n) idxs
    → Memᴰ (n, raw) (entries_from idxs m)
entries_from-finds [] m n raw e h k = elim k [ ]
entries_from-finds (i ∷ idxs) m n raw e h (Memᴰ.head same) =
    subst (λ j. Memᴰ (n, raw) (entry_of j (raw_at j m) (entries_from idxs m))) same
      (subst (λ r. Memᴰ (n, raw) (entry_of (pos n) r (entries_from idxs m))) (sym e)
        (entry_of-here n raw _ h))
entries_from-finds (i ∷ idxs) m n raw e h (Memᴰ.tail k) =
    entry_of-deeper i (raw_at i m) _ (n, raw) (entries_from-finds idxs m n raw e h k)

entries-IsListing : (m : RawByFrame) → IsMap m → IsListing m (entries m)
entries-IsListing m h = record {
  ordered = entries_from-AreAscending _ m (sort_ints-Ascending m h);
  sound = entries_from-IsEntry _ m;
  complete = λ n raw k p.
      entries_from-finds _ m n raw (Mem-raw_at (pos n) m raw h k) p
        (sort_ints-keeps m (pos n) raw k);
}

abbrev pub AllMaps : List RawByFrame → Type 0
AllMaps [] = Unit
AllMaps (m ∷ ms) = IsMap m × AllMaps ms

-- The records are those of the maps, map by map.
abbrev pub AreListings : List RawByFrame → List (ℕ × List ℕ) → Type 0
AreListings [] rs = rs ≡ []
AreListings (m ∷ ms) rs =
    (own : List (ℕ × List ℕ)) × (rest : List (ℕ × List ℕ)) × (rs ≡ own ++ rest)
    × IsListing m own
    × AreListings ms rest

all_entries-AreListings : (ms : List RawByFrame) → AllMaps ms → AreListings ms (all_entries ms)
all_entries-AreListings [] h = refl
all_entries-AreListings (m ∷ ms) h =
    (entries m, all_entries ms, refl, entries-IsListing m h.0, all_entries-AreListings ms h.1)

-- After any number of writes of maps in which a key stands once, whose payloads have indices that are not
-- negative and lengths within the limit of a record, or are empty, the spool reads back, with no error,
-- one record for each entry of the maps whose payload is not empty, with its index and payload, and no
-- other: write by write, and within a write with strictly rising indices.
pub read_all-listing :
    (ms : List RawByFrame)
    → AllWritable ms
    → AllMaps ms
    → (rs : List (ℕ × List ℕ)) × (read_all (write_all [] ms) ≡ records rs) × AreListings ms rs
read_all-listing ms h maps =
    (all_entries ms, read_all-write_all ms h, all_entries-AreListings ms maps)
