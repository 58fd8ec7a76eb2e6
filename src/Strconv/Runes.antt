-- ===== src/Strconv/Runes.antt =====
-- The parts of Go's unicode/utf8 and unicode/utf16 packages that the program uses: EncodeRune, DecodeRune and
-- ValidString, and the surrogate pairs
pub mod Laws
use go_imap.Prelude.{
  ℕ, zero, suc, ◌+◌, ◌-◌, ◌*◌, ◌/◌, ◌%◌, Bool, true, false, not, ◌&&◌, ◌||◌, [], ◌∷◌, ltb, leb,
  ◌==◌, if◌then◌else◌, length, drop,
}
use go_imap.Strconv.{Bytes}

-- string(r): the UTF-8 text of a rune, and of U+FFFD for a number that is none
unfoldable pub rune_string : ℕ → Bytes
rune_string r =
    if ltb r 0x80
    then r ∷ []
    else if ltb r 0x800
    then (0xc0 + r / 64) ∷ (0x80 + r % 64) ∷ []
    else if ltb 0x10ffff r || leb 0xd800 r && ltb r 0xe000
    then 0xef ∷ 0xbf ∷ 0xbd ∷ []
    else if ltb r 0x10000
    then (0xe0 + r / 4096) ∷ (0x80 + r / 64 % 64) ∷ (0x80 + r % 64) ∷ []
    else (0xf0 + r / 262144) ∷ (0x80 + r / 4096 % 64) ∷ (0x80 + r / 64 % 64) ∷ (0x80 + r % 64) ∷ []

-- What DecodeRune makes of bytes that are no UTF-8
abbrev pub rune_error : ℕ × ℕ
rune_error = (0xfffd, 1)

abbrev pub continues : ℕ → Bool
continues b = leb 0x80 b && ltb b 0xc0

abbrev pub two_bytes : ℕ → Bytes → ℕ × ℕ
two_bytes a (b ∷ s) = if continues b then ((a - 0xc0) * 64 + (b - 0x80), 2) else rune_error
two_bytes a _ = rune_error

-- The second byte excludes texts that are too long, and surrogates.
abbrev pub second_of_three : ℕ → ℕ → Bool
second_of_three a b = continues b && not (a == 0xe0 && ltb b 0xa0) && not (a == 0xed && leb 0xa0 b)

abbrev pub three_bytes : ℕ → Bytes → ℕ × ℕ
three_bytes a (b ∷ c ∷ s) =
    if second_of_three a b && continues c
    then ((a - 0xe0) * 4096 + (b - 0x80) * 64 + (c - 0x80), 3)
    else rune_error
three_bytes a _ = rune_error

abbrev pub second_of_four : ℕ → ℕ → Bool
second_of_four a b = continues b && not (a == 0xf0 && ltb b 0x90) && not (a == 0xf4 && leb 0x90 b)

abbrev pub four_bytes : ℕ → Bytes → ℕ × ℕ
four_bytes a (b ∷ c ∷ e ∷ s) =
    if second_of_four a b && continues c && continues e
    then ((a - 0xf0) * 262144 + (b - 0x80) * 4096 + (c - 0x80) * 64 + (e - 0x80), 4)
    else rune_error
four_bytes a _ = rune_error

-- utf8.DecodeRune: a rune and how many bytes it takes
unfoldable pub decode_rune : Bytes → ℕ × ℕ
decode_rune [] = (0xfffd, 0)
decode_rune (a ∷ s) =
    if ltb a 0x80
    then (a, 1)
    else if ltb a 0xc2 || ltb 0xf4 a
    then rune_error
    else if ltb a 0xe0
    then two_bytes a s
    else if ltb a 0xf0
    then three_bytes a s
    else four_bytes a s

pub valid_runes : ℕ → Bytes → Bool
valid_runes zero s = length s == 0
valid_runes (suc fuel) [] = true
valid_runes (suc fuel) (a ∷ s) =
    let (r, size) = decode_rune (a ∷ s) in
    let rest = valid_runes fuel (drop size (a ∷ s)) in
    if r == 0xfffd && leb size 1 then false else rest

-- utf8.ValidString
unfoldable pub valid_string : Bytes → Bool
unfolding valid_runes decode_rune
valid_string s = valid_runes (length s) s

abbrev pub is_surrogate : ℕ → Bool
is_surrogate r = leb 0xd800 r && ltb r 0xe000
