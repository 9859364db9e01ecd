-- ===== src/Prelude/Text.antt =====
-- What the program uses of package strings: bytes, upper case, prefixes, over code points.
use Prim.Native.Nat.{ℕ, ◌+◌, ◌-◌, ◌/◌, ◌%◌}
use Prim.Native.Char.{code}
use Prim.Native.String.{String}
use Prim.Native.String as Append
use mathlib.Core.Bool.{Bool, true, false, ◌&&◌}
use mathlib.Core.List.{List, [], ◌∷◌, ◌++◌, map, reverse}
use nevr_anticheat.Prelude.Tests.{ltb, leb, ◌==◌, if◌then◌else◌}
use nevr_anticheat.Prelude.Dict.{text_eq}

-- The code points of a text. `String` has its own `[]` and `∷`.
abbrev pub codes : String → List ℕ
codes String.[] = []
codes (String.◌∷◌ letter rest) = code letter ∷ codes rest

-- The UTF-8 bytes of a code point.
abbrev pub utf8 : ℕ → List ℕ
utf8 c =
    if ltb c 0x80
    then c ∷ []
    else if ltb c 0x800
    then (0xc0 + c / 64) ∷ (0x80 + c % 64) ∷ []
    else if ltb c 0x1_0000
    then (0xe0 + c / 4096) ∷ (0x80 + c / 64 % 64) ∷ (0x80 + c % 64) ∷ []
    else (0xf0 + c / 262144) ∷ (0x80 + c / 4096 % 64) ∷ (0x80 + c / 64 % 64) ∷ (0x80 + c % 64) ∷ []

abbrev pub utf8_all : List ℕ → List ℕ
utf8_all [] = []
utf8_all (c ∷ cs) = utf8 c ++ utf8_all cs

-- `[]byte(s)`
unfoldable pub bytes : String → List ℕ
bytes s = utf8_all (codes s)

-- strings.ToUpper on the letters a to z, which is all that identifiers hold.
unfoldable pub to_upper : List ℕ → List ℕ
to_upper = map λ c. if leb b'a' c && leb c b'z' then c - 32 else c

unfoldable pub same_codes : List ℕ → List ℕ → Bool
same_codes [] [] = true
same_codes (c ∷ cs) (d ∷ ds) = c == d && same_codes cs ds
same_codes _ _ = false

-- strings.HasPrefix
unfoldable pub has_prefix : List ℕ → List ℕ → Bool
has_prefix s [] = true
has_prefix [] (d ∷ ds) = false
has_prefix (c ∷ cs) (d ∷ ds) = c == d && has_prefix cs ds

-- strings.HasSuffix
unfoldable pub has_suffix : List ℕ → List ℕ → Bool
has_suffix s t = has_prefix (reverse s) (reverse t)

-- strings.SplitN(s, sep, 2)[0]: what stands before the first separator.
unfoldable pub before : ℕ → List ℕ → List ℕ
before sep [] = []
before sep (c ∷ cs) = if c == sep then [] else c ∷ before sep cs

-- Is the text one of the set?
unfoldable pub contains_text : String → List String → Bool
contains_text s [] = false
contains_text s (t ∷ ts) = if text_eq t s then true else contains_text s ts

-- `s + ":" + t`
unfoldable pub joined : String → String → String
joined s t = Append.◌++◌ s (Append.◌++◌ ":" t)
