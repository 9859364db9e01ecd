-- ===== src/Replay/RoundTrip.antt =====
-- internal/replay/raw_tick_spool.go: what was written is read back, record by record.
use nevr_anticheat.Prelude.{
  ℕ, zero, suc, ◌≤◌, ◌<◌, ◌≡◌, refl, sym, ap, subst, ◌∙◌, true, List, [], ◌∷◌, ◌++◌, map, length,
  arith,
}
use nevr_anticheat.Prelude.Int.{ℤ, pos, negsuc}
use nevr_anticheat.Replay.Spool.{
  RawByFrame, raw_at, sort_ints, header, write_one, write_from, write, max_int,
  default_max_line_bytes, next, Records, records, with_record, read_from, read_loop, read_all,
}
use mathlib.Core.List.{append-nil, append_assoc}
use nevr_anticheat.Replay.Header.{length-append, length-header, next-append, next_nil}

-- What the map says of one index.
abbrev pub entry_of : ℤ → List ℕ → List (ℕ × List ℕ) → List (ℕ × List ℕ)
entry_of idx [] rest = rest
entry_of (negsuc n) (b ∷ bs) rest = rest
entry_of (pos n) (b ∷ bs) rest = (n, b ∷ bs) ∷ rest

abbrev pub entries_from : List ℤ → RawByFrame → List (ℕ × List ℕ)
entries_from [] m = []
entries_from (idx ∷ idxs) m = entry_of idx (raw_at idx m) (entries_from idxs m)

-- The payloads of the map that are not empty, in the order of their indices.
abbrev pub entries : RawByFrame → List (ℕ × List ℕ)
entries m = entries_from (sort_ints (map (λ e. e.0) m)) m

-- An index that is not negative and fits 63 bits, and a payload within the limit, or an empty one.
abbrev pub Fits : ℤ → List ℕ → Type 0
Fits idx [] = Unit
Fits (negsuc n) (b ∷ bs) = ⊥
Fits (pos n) (b ∷ bs) = (n ≤ max_int) × (length (b ∷ bs) ≤ default_max_line_bytes)

abbrev AllFit : List ℤ → RawByFrame → Type 0
AllFit [] m = Unit
AllFit (idx ∷ idxs) m = Fits idx (raw_at idx m) × AllFit idxs m

abbrev pub IsWritable : RawByFrame → Type 0
IsWritable m = AllFit (sort_ints (map (λ e. e.0) m)) m

-- The bytes of records, and their count bounds the fuel.
abbrev pub encoded : List (ℕ × List ℕ) → List ℕ
encoded [] = []
encoded ((idx, raw) ∷ rs) = header idx raw ++ (raw ++ encoded rs)

abbrev pub AreReadable : List (ℕ × List ℕ) → Type 0
AreReadable [] = Unit
AreReadable ((idx, raw) ∷ rs) =
    (idx ≤ max_int) × (length raw ≤ default_max_line_bytes) × AreReadable rs

-- A tail at which the loop ends leaves the records before it.
pub read_loop-append :
    (fuel : ℕ) (rs : List (ℕ × List ℕ)) (tail : List ℕ)
    → AreReadable rs
    → length rs < fuel
    → ((further : List ℕ → Records) → read_from (next tail) further ≡ records [])
    → read_loop fuel (encoded rs ++ tail) ≡ records rs
unfolding read_loop read_from
read_loop-append zero rs tail h lt ends = absurd (omega arith)
read_loop-append (suc fuel) [] tail h lt ends = ends _
read_loop-append (suc fuel) ((idx, raw) ∷ rs) tail h lt ends =
    let next_entry =
      ap (with_record (idx, raw)) (read_loop-append fuel rs tail h.2 (omega arith) ends) in
    ap (λ n. read_from n (λ file. read_loop fuel file))
      (ap next (
          append_assoc (header idx raw) (raw ++ encoded rs) tail
          ∙ ap (λ t. header idx raw ++ t) (append_assoc raw (encoded rs) tail))
        ∙ next-append idx raw (encoded rs ++ tail) h.0 h.1)
    ∙ next_entry

encoded-append : (rs qs : List (ℕ × List ℕ)) → encoded (rs ++ qs) ≡ encoded rs ++ encoded qs
encoded-append [] qs = refl
encoded-append ((idx, raw) ∷ rs) qs =
    rw (encoded-append rs qs, append_assoc (header idx raw), append_assoc raw) refl

length-encoded : (rs : List (ℕ × List ℕ)) → length rs ≤ length (encoded rs)
length-encoded [] = omega arith
length-encoded ((idx, raw) ∷ rs) = omega (
  arith,
  length-append (header idx raw) (raw ++ encoded rs),
  length-header idx raw,
  length-append raw (encoded rs),
  length-encoded rs,
)

-- Whatever bytes follow at which the loop ends.
pub read_all-append :
    (rs : List (ℕ × List ℕ)) (tail : List ℕ)
    → AreReadable rs
    → ((further : List ℕ → Records) → read_from (next tail) further ≡ records [])
    → read_all (encoded rs ++ tail) ≡ records rs
unfolding read_all
read_all-append rs tail h ends =
    read_loop-append _ rs tail h (omega (arith, length-encoded rs, length-append (encoded rs) tail))
      ends

nil_ends : (further : List ℕ → Records) → read_from (next []) further ≡ records []
unfolding read_from
nil_ends further = rw next_nil refl

read_all-encoded : (rs : List (ℕ × List ℕ)) → AreReadable rs → read_all (encoded rs) ≡ records rs
read_all-encoded rs h =
    ap read_all (sym (append-nil (encoded rs))) ∙ read_all-append rs [] h nil_ends

write_one-entry_of :
    (idx : ℤ) (raw : List ℕ) (rs : List (ℕ × List ℕ))
    → Fits idx raw
    → write_one idx raw (encoded rs, true) ≡ (encoded (entry_of idx raw rs), true)
unfolding write_one
write_one-entry_of idx [] rs h = refl
write_one-entry_of (negsuc n) (b ∷ bs) rs h = absurd h
write_one-entry_of (pos n) (b ∷ bs) rs h = refl

entry_of-AreReadable :
    (idx : ℤ) (raw : List ℕ) (rs : List (ℕ × List ℕ))
    → Fits idx raw
    → AreReadable rs
    → AreReadable (entry_of idx raw rs)
entry_of-AreReadable idx [] rs h r = r
entry_of-AreReadable (negsuc n) (b ∷ bs) rs h r = r
entry_of-AreReadable (pos n) (b ∷ bs) rs h r = (h.0, h.1, r)

write_from-entries_from :
    (idxs : List ℤ) (m : RawByFrame)
    → AllFit idxs m
    → (write_from idxs m ≡ (encoded (entries_from idxs m), true))
      × AreReadable (entries_from idxs m)
unfolding write_from
write_from-entries_from [] m h = (refl, tt)
write_from-entries_from (idx ∷ idxs) m h =
    let (same, readable) = write_from-entries_from idxs m h.1 in
    (
      ap (write_one idx (raw_at idx m)) same ∙ write_one-entry_of idx (raw_at idx m) _ h.0,
      entry_of-AreReadable idx (raw_at idx m) _ h.0 readable,
    )

AreReadable-append :
    (rs qs : List (ℕ × List ℕ)) → AreReadable rs → AreReadable qs → AreReadable (rs ++ qs)
AreReadable-append [] qs h r = r
AreReadable-append ((idx, raw) ∷ rs) qs h r = (h.0, h.1, AreReadable-append rs qs h.2 r)

-- The calls of write during an analysis.
abbrev pub write_all : List ℕ → List RawByFrame → List ℕ
write_all file [] = file
write_all file (m ∷ ms) = write_all (write file m).0 ms

abbrev pub AllWritable : List RawByFrame → Type 0
AllWritable [] = Unit
AllWritable (m ∷ ms) = IsWritable m × AllWritable ms

abbrev pub all_entries : List RawByFrame → List (ℕ × List ℕ)
all_entries [] = []
all_entries (m ∷ ms) = entries m ++ all_entries ms

pub write_all-encoded :
    (ms : List RawByFrame) (rs : List (ℕ × List ℕ))
    → AllWritable ms
    → AreReadable rs
    → (write_all (encoded rs) ms ≡ encoded (rs ++ all_entries ms))
      × AreReadable (rs ++ all_entries ms)
unfolding write
write_all-encoded [] rs h r = rw (append-nil rs) (refl, r)
write_all-encoded (m ∷ ms) rs h r =
    let (same, readable) = write_from-entries_from (sort_ints (map (λ e. e.0) m)) m h.0 in
    let joined = ap (λ t. encoded rs ++ t.0) same ∙ sym (encoded-append rs (entries m)) in
    let (more, rest) =
      write_all-encoded ms (rs ++ entries m) h.1 (AreReadable-append rs (entries m) r readable) in
    subst (λ q. (write_all (write (encoded rs) m).0 ms ≡ encoded q) × AreReadable q)
      (append_assoc rs (entries m) (all_entries ms))
      (ap (λ file. write_all file ms) joined ∙ more, rest)

-- The spool reads back what `entries` says of the maps that were written.
pub read_all-write_all :
    (ms : List RawByFrame) → AllWritable ms → read_all (write_all [] ms) ≡ records (all_entries ms)
read_all-write_all ms h =
    let (same, readable) = write_all-encoded ms [] h tt in
    ap read_all same ∙ read_all-encoded (all_entries ms) readable
