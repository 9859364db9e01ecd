-- ===== src/Replay/Header.antt =====
-- internal/replay/raw_tick_spool.go: a record is read back from its header and its payload.
use nevr_anticheat.Prelude.{
  ℕ, zero, suc, ◌+◌, ◌/◌, ◌^◌, ◌≤◌, ◌<◌, ◌≡◌, refl, ap, ◌∙◌, List, [], ◌∷◌, ◌++◌, length, take,
  drop, arith,
}
use nevr_anticheat.Replay.Spool.{
  put_uint, get_uint, header, full, read_full, max_int, default_max_line_bytes, entry, ended,
  next_payload, next_header, next,
}

pub length-put_uint : (k v : ℕ) → length (put_uint k v) ≡ k
unfolding put_uint
length-put_uint zero v = refl
length-put_uint (suc k) v = ap suc (length-put_uint k (v / 256))

pub get_uint-put_uint : (k v : ℕ) → v < 256 ^ k → get_uint (put_uint k v) ≡ v
unfolding put_uint get_uint
get_uint-put_uint zero v h = omega arith
get_uint-put_uint (suc k) v h = omega (arith, get_uint-put_uint k (v / 256) (omega arith))

pub take-append : (n : ℕ) (xs ys : List ℕ) → length xs ≡ n → take n (xs ++ ys) ≡ xs
take-append zero [] ys e = refl
take-append zero (x ∷ xs) ys e = absurd (omega arith)
take-append (suc n) [] ys e = absurd (omega arith)
take-append (suc n) (x ∷ xs) ys e = ap (λ t. x ∷ t) (take-append n xs ys (omega arith))

pub drop-append : (n : ℕ) (xs ys : List ℕ) → length xs ≡ n → drop n (xs ++ ys) ≡ ys
drop-append zero [] ys e = refl
drop-append zero (x ∷ xs) ys e = absurd (omega arith)
drop-append (suc n) [] ys e = absurd (omega arith)
drop-append (suc n) (x ∷ xs) ys e = drop-append n xs ys (omega arith)

pub length-append : (xs ys : List ℕ) → length (xs ++ ys) ≡ length xs + length ys
length-append [] ys = omega arith
length-append (x ∷ xs) ys = omega (arith, length-append xs ys)

pub read_full-append :
    (n : ℕ) (xs ys : List ℕ) → length xs ≡ n → read_full n (xs ++ ys) ≡ full xs ys
unfolding read_full
read_full-append n [] [] e = ground (arith, e)
read_full-append n [] (y ∷ ys) e =
    ground (arith, e, take-append n [] (y ∷ ys) e, drop-append n [] (y ∷ ys) e)
read_full-append n (x ∷ xs) ys e =
    ground (arith, e, length-append xs ys, take-append n (x ∷ xs) ys e, drop-append n (x ∷ xs) ys e)

pub length-header : (idx : ℕ) (raw : List ℕ) → length (header idx raw) ≡ 16
unfolding header
length-header idx raw = omega (
  arith,
  length-append (put_uint 8 idx) (put_uint 8 (length raw)),
  length-put_uint 8 idx,
  length-put_uint 8 (length raw),
)

pub take-header : (idx : ℕ) (raw : List ℕ) → take 8 (header idx raw) ≡ put_uint 8 idx
unfolding header
take-header idx raw = take-append 8 (put_uint 8 idx) _ (length-put_uint 8 idx)

pub drop-header : (idx : ℕ) (raw : List ℕ) → drop 8 (header idx raw) ≡ put_uint 8 (length raw)
unfolding header
drop-header idx raw = drop-append 8 (put_uint 8 idx) _ (length-put_uint 8 idx)

-- The index and the size, as the header says them.
pub index-header :
    (idx : ℕ) (raw : List ℕ) → idx ≤ max_int → get_uint (take 8 (header idx raw)) ≡ idx
index-header idx raw h = ap get_uint (take-header idx raw) ∙ get_uint-put_uint 8 idx (omega arith)

pub size-header :
    (idx : ℕ) (raw : List ℕ)
    → length raw ≤ default_max_line_bytes
    → get_uint (drop 8 (header idx raw)) ≡ length raw
size-header idx raw h =
    ap get_uint (drop-header idx raw) ∙ get_uint-put_uint 8 (length raw) (omega arith)

pub next-append :
    (idx : ℕ) (raw rest : List ℕ)
    → idx ≤ max_int
    → length raw ≤ default_max_line_bytes
    → next (header idx raw ++ (raw ++ rest)) ≡ entry idx raw rest
unfolding next next_header next_payload
next-append idx raw rest hi hs =
    rw (read_full-append 16 (header idx raw) (raw ++ rest) (length-header idx raw)) (
      ground (
        arith,
        index-header idx raw hi,
        size-header idx raw hs,
        read_full-append (length raw) raw rest refl,
      ))

pub next_nil : next [] ≡ ended
unfolding next next_header read_full
next_nil = refl
