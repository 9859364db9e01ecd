-- ===== src/Replay/Cut.antt =====
-- internal/replay/raw_tick_spool.go: a spool whose last payload is missing.
use nevr_anticheat.Prelude.{ℕ, ◌≤◌, ◌<◌, ◌≡◌, sym, ap, ◌∙◌, List, [], ◌++◌, length, arith}
use nevr_anticheat.Replay.Spool.{
  RawByFrame, header, read_full, full, max_int, default_max_line_bytes, next, next_header,
  next_payload, Records, records, read_from, read_all,
}
use nevr_anticheat.Replay.Header.{length-header, read_full-append, index-header, size-header}
use nevr_anticheat.Replay.RoundTrip.{
  AllWritable, all_entries, write_all, write_all-encoded, read_all-append,
}
use mathlib.Core.List.{append-nil}

header_ends :
    (idx : ℕ) (raw : List ℕ)
    → idx ≤ max_int
    → 0 < length raw
    → length raw ≤ default_max_line_bytes
    → (further : List ℕ → Records) → read_from (next (header idx raw)) further ≡ records []
unfolding read_from next next_header next_payload read_full
header_ends idx raw hi hp hs further =
    rw (whole) (ground (arith, index-header idx raw hi, size-header idx raw hs))
  where
    whole : read_full 16 (header idx raw) ≡ full (header idx raw) []
    whole =
        ap (read_full 16) (sym (append-nil (header idx raw)))
        ∙ read_full-append 16 (header idx raw) [] (length-header idx raw)

-- A spool that breaks off right after the header of a record, whose index and length are within their
-- limits and whose payload is not empty, is read as if it had ended before that record: the records
-- before it come back and no error is reported.
pub read_all_cut :
    (ms : List RawByFrame) (idx : ℕ) (raw : List ℕ)
    → AllWritable ms
    → idx ≤ max_int
    → 0 < length raw
    → length raw ≤ default_max_line_bytes
    → read_all (write_all [] ms ++ header idx raw) ≡ records (all_entries ms)
read_all_cut ms idx raw h hi hp hs =
    let (same, readable) = write_all-encoded ms [] h tt in
    ap (λ file. read_all (file ++ header idx raw)) same
    ∙ read_all-append (all_entries ms) (header idx raw) readable (header_ends idx raw hi hp hs)
