-- ===== src/Examples/Replay.antt =====
-- The spool's theorems at two writes of small payloads.
use nevr_anticheat.Prelude.{ℕ, refl, ◌≡◌, List, [], ◌∷◌, ◌++◌, arith}
use nevr_anticheat.Prelude.Int.{pos}
use nevr_anticheat.Replay.Spool.{
  RawByFrame, raw_at, sort_ints, put_in_order, header, records, read_all,
}
use nevr_anticheat.Replay.RoundTrip.{AllWritable, all_entries, write_all}
use nevr_anticheat.Replay.Listing.{AllMaps, AreListings, read_all-listing}
use nevr_anticheat.Replay.Cut.{read_all_cut}

abbrev two_writes : List RawByFrame
two_writes =
    ((pos 7, 123 ∷ 125 ∷ []) ∷ (pos 3, []) ∷ (pos 5, 91 ∷ []) ∷ [])
    ∷ ((pos 300, 0 ∷ 255 ∷ 10 ∷ []) ∷ [])
    ∷ []

two_writes-AllWritable : AllWritable two_writes
unfolding raw_at sort_ints put_in_order
two_writes-AllWritable = omega arith

two_writes-AllMaps : AllMaps two_writes
two_writes-AllMaps = (((refl, (refl, tt)), ((refl, tt), (tt, tt))), ((tt, tt), tt))

read_all-listing_example :
    (rs : List (ℕ × List ℕ)) × (read_all (write_all [] two_writes) ≡ records rs)
    × AreListings two_writes rs
read_all-listing_example = read_all-listing two_writes two_writes-AllWritable two_writes-AllMaps

read_all_cut_example :
    read_all (write_all [] two_writes ++ header 301 (1 ∷ 2 ∷ [])) ≡ records (all_entries two_writes)
read_all_cut_example =
    read_all_cut two_writes 301 (1 ∷ 2 ∷ []) two_writes-AllWritable (omega arith) (omega arith)
      (omega arith)
