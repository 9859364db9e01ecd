-- ===== src/Replay/Spool.antt =====
-- internal/replay/raw_tick_spool.go: the binary records of a spool. The file and its buffers are one
-- sequence of bytes whose reads and writes succeed; a payload is its bytes.
use nevr_anticheat.Prelude.{
  ℕ, zero, suc, ◌+◌, ◌*◌, ◌/◌, ◌%◌, Bool, true, false, List, [], ◌∷◌, ◌++◌, map, length, take, drop,
  if◌then◌else◌, ltb, ◌==◌, ◌&&◌,
}
use nevr_anticheat.Prelude.Int.{ℤ, pos, negsuc, pos_part, neg_part, leb_ℤ}

-- rawByFrame, a map, whose keys stand in it once.
abbrev pub RawByFrame : Type 0
RawByFrame = List (ℤ × List ℕ)

abbrev pub same_index : ℤ → ℤ → Bool
same_index i j = pos_part i == pos_part j && neg_part i == neg_part j

-- `rawByFrame[idx]`, empty where the key is missing.
unfoldable pub raw_at : ℤ → RawByFrame → List ℕ
raw_at idx [] = []
raw_at idx ((at, raw) ∷ rest) = if same_index at idx then raw else raw_at idx rest

-- sort.Ints
unfoldable pub put_in_order : ℤ → List ℤ → List ℤ
put_in_order idx [] = idx ∷ []
put_in_order idx (at ∷ rest) = if leb_ℤ idx at then idx ∷ at ∷ rest else at ∷ put_in_order idx rest

unfoldable pub sort_ints : List ℤ → List ℤ
sort_ints [] = []
sort_ints (idx ∷ rest) = put_in_order idx (sort_ints rest)

-- binary.LittleEndian.PutUint64, of so many bytes.
unfoldable pub put_uint : ℕ → ℕ → List ℕ
put_uint zero v = []
put_uint (suc k) v = v % 256 ∷ put_uint k (v / 256)

-- binary.LittleEndian.Uint64
unfoldable pub get_uint : List ℕ → ℕ
get_uint [] = 0
get_uint (b ∷ bs) = b + 256 * get_uint bs

unfoldable pub header : ℕ → List ℕ → List ℕ
header idx raw = put_uint 8 idx ++ put_uint 8 (length raw)

-- The loop of write: what it appends, and whether it came to its end without a negative index.
unfoldable pub write_one : ℤ → List ℕ → List ℕ × Bool → List ℕ × Bool
write_one idx [] rest = rest
write_one (negsuc n) (b ∷ bs) rest = ([], false)
write_one (pos n) (b ∷ bs) rest = (header n (b ∷ bs) ++ ((b ∷ bs) ++ rest.0), rest.1)

unfoldable pub write_from : List ℤ → RawByFrame → List ℕ × Bool
write_from [] m = ([], true)
write_from (idx ∷ idxs) m = write_one idx (raw_at idx m) (write_from idxs m)

-- write, to a spool that holds `file`.
unfoldable pub write : List ℕ → RawByFrame → List ℕ × Bool
write file m = let (more, ok) = write_from (sort_ints (map (λ e. e.0) m)) m in (file ++ more, ok)

-- io.ReadFull: io.EOF where nothing could be read, io.ErrUnexpectedEOF where something was missing.
pub data ReadFull : Type 0 where
  full : List ℕ → List ℕ → ReadFull
  at_end : ReadFull
  cut_short : ReadFull

unfoldable pub read_full : ℕ → List ℕ → ReadFull
read_full n [] = if n == 0 then full [] [] else at_end
read_full n (b ∷ bs) =
    if ltb (length (b ∷ bs)) n then cut_short else full (take n (b ∷ bs)) (drop n (b ∷ bs))

pub data SpoolError : Type 0 where
  header_cut : SpoolError
  index_limit : SpoolError
  size_limit : SpoolError
  -- The payload is missing altogether, so that the error wraps io.EOF, or in part.
  payload_missing : SpoolError
  payload_cut : SpoolError

-- What a call of the iterator gives: a record and what follows it, the end, or an error.
pub data Next : Type 0 where
  entry : ℕ → List ℕ → List ℕ → Next
  ended : Next
  failed : SpoolError → Next

abbrev pub max_int : ℕ
max_int = 9_223_372_036_854_775_807

-- adapter.DefaultMaxLineBytes
abbrev pub default_max_line_bytes : ℕ
default_max_line_bytes = 8_388_608

unfoldable pub next_payload : ℕ → ReadFull → Next
next_payload idx (full raw rest) = entry idx raw rest
next_payload idx at_end = failed payload_missing
next_payload idx cut_short = failed payload_cut

unfoldable pub next_header : ReadFull → Next
next_header at_end = ended
next_header cut_short = failed header_cut
next_header (full head rest) =
    if ltb max_int (get_uint (take 8 head))
    then failed index_limit
    else if ltb default_max_line_bytes (get_uint (drop 8 head))
    then failed size_limit
    else next_payload (get_uint (take 8 head)) (read_full (get_uint (drop 8 head)) rest)

-- The iterator's function.
unfoldable pub next : List ℕ → Next
next file = next_header (read_full 16 file)

-- The loop of store, as long as its context lasts: the records, and the error that ended it. An error
-- that wraps io.EOF ends it like the end of the file.
pub data Records : Type 0 where
  records : List (ℕ × List ℕ) → Records
  spool_error : SpoolError → Records
  out_of_fuel : Records

abbrev pub with_record : ℕ × List ℕ → Records → Records
with_record r (records rs) = records (r ∷ rs)
with_record r (spool_error e) = spool_error e
with_record r out_of_fuel = out_of_fuel

abbrev pub end_with : SpoolError → Records
end_with payload_missing = records []
end_with header_cut = spool_error header_cut
end_with index_limit = spool_error index_limit
end_with size_limit = spool_error size_limit
end_with payload_cut = spool_error payload_cut

unfoldable pub read_from : Next → (List ℕ → Records) → Records
read_from ended further = records []
read_from (failed e) further = end_with e
read_from (entry idx raw rest) further = with_record (idx, raw) (further rest)

unfoldable pub read_loop : ℕ → List ℕ → Records
read_loop zero file = out_of_fuel
read_loop (suc fuel) file = read_from (next file) (λ rest. read_loop fuel rest)

-- A record takes 16 bytes at least, so the length of the file is fuel enough.
unfoldable pub read_all : List ℕ → Records
read_all file = read_loop (suc (length file)) file
