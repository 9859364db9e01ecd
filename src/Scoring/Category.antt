-- ===== src/Scoring/Category.antt =====
-- internal/scoring/scorer.go: evidence categories, meta-detectors and the cooldown hash.
use nevr_anticheat.Prelude.{ℕ, ◌+◌, ◌*◌, ◌%◌, ◌^◌, String, Bool, ◌||◌, List, [], ◌∷◌, if◌then◌else◌}
use nevr_anticheat.Prelude.Text.{codes, to_upper, same_codes, before}

-- detectorCategory: what stands before the first underscore, in upper case.
unfoldable pub detector_category : String → String
detector_category id =
    let head = to_upper (before b'_' (codes id)) in
    if same_codes head (codes "THROW")
    then "throw"
    else if same_codes head (codes "BIO")
    then "bio"
    else if same_codes head (codes "MOV")
    then "movement"
    else if same_codes head (codes "STATE")
    then "state"
    else if same_codes head (codes "PAT")
    then "pattern"
    else "unknown"

unfoldable pub is_meta_detector : String → Bool
is_meta_detector id =
    let upper = to_upper (codes id) in
    same_codes upper (codes "PAT_003") || same_codes upper (codes "PAT_004")

-- The loop of hashString, on uint64.
unfoldable pub hash_from : ℕ → List ℕ → ℕ
hash_from h [] = h
hash_from h (b ∷ bs) = hash_from ((h * 31 % 2 ^ 64 + b) % 2 ^ 64) bs

unfoldable pub hash_string : List ℕ → ℕ
unfolding hash_from
hash_string bs = hash_from 0 bs
