-- ===== src/Strconv.antt =====
-- The parts of Go's strconv and strings packages that the program uses on numbers and number sets:
-- FormatUint, ParseUint in base 10, Split and IndexRune with the slices on its two sides. Texts are lists
-- of bytes.
pub mod Laws
pub mod Bytes
pub mod Runes
pub mod Sort
use Prim.Native.Char.{code}
use Prim.Native.String.{String}
use go_imap.Prelude.{
  ℕ, zero, suc, ◌+◌, ◌-◌, ◌*◌, ◌/◌, ◌%◌, ◌^◌, Bool, true, false, ◌&&◌, ◌||◌, List, [], ◌∷◌, ltb,
  leb, ◌==◌, if◌then◌else◌, Option, none, some, ◌≡◌, refl,
}

abbrev pub Bytes : Type 0
Bytes = List ℕ

-- The code points of a literal, which are its bytes if the text is ASCII.
abbrev pub codes : String → Bytes
codes String.[] = []
codes (String.◌∷◌ c s) = code c ∷ codes s

pub digits : ℕ → ℕ → Bytes → Bytes
digits zero n out = out
digits (suc fuel) n out =
    let rest = digits fuel (n / 10) ((b'0' + n % 10) ∷ out) in
    if ltb n 10 then (b'0' + n) ∷ out else rest

-- strconv.FormatUint(n, 10); twenty digits are enough for 64 bits.
unfoldable pub format_uint : ℕ → Bytes
unfolding digits
format_uint n = digits 20 n []

abbrev pub is_digit : ℕ → Bool
is_digit c = leb b'0' c && leb c b'9'

unfoldable pub scan : ℕ → Bytes → ℕ → Option ℕ
scan limit [] n = some n
scan limit (c ∷ s) n =
    let m = n * 10 + (c - b'0') in
    let rest = scan limit s m in if is_digit c then (if leb m limit then rest else none) else none

-- strconv.ParseUint(s, 10, w), where `limit` is the largest number of w bits
unfoldable pub parse_uint : ℕ → Bytes → Option ℕ
unfolding scan
parse_uint limit [] = none
parse_uint limit (c ∷ s) = scan limit (c ∷ s) 0

abbrev onto_first : ℕ → List Bytes → List Bytes
onto_first c [] = (c ∷ []) ∷ []
onto_first c (p ∷ ps) = (c ∷ p) ∷ ps

-- strings.Split by one byte
unfoldable pub split : ℕ → Bytes → List Bytes
split sep [] = [] ∷ []
split sep (c ∷ s) = let rest = split sep s in if c == sep then [] ∷ rest else onto_first c rest

abbrev before : ℕ → Option (Bytes × Bytes) → Option (Bytes × Bytes)
before c none = none
before c (some (a, b)) = some (c ∷ a, b)

-- v[:i] and v[i+1:] for the first index i of a byte
unfoldable pub cut : ℕ → Bytes → Option (Bytes × Bytes)
cut sep [] = none
cut sep (c ∷ s) = let rest = cut sep s in if c == sep then some ([], s) else before c rest

test_format : format_uint 4294967295 ≡ codes "4294967295"
unfolding format_uint
test_format = refl

test_parse :
    (parse_uint 4294967295 (codes "4294967296") ≡ none)
    × (parse_uint 4294967295 (codes "042") ≡ some 42)
unfolding parse_uint
test_parse = (refl, refl)

test_split : split b',' (codes "a,,b") ≡ codes "a" ∷ [] ∷ codes "b" ∷ []
unfolding split
test_split = refl
