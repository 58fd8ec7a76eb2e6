-- ===== src/Utf7.antt =====
-- internal/utf7: modified UTF-7, in which the names of mailboxes are written (encoder.go, decoder.go)
pub mod Base64
pub mod Units
pub mod Parts
pub mod RoundTrip
pub mod Tests
use go_imap.Prelude.{
  ℕ, zero, suc, ◌+◌, ◌-◌, ◌*◌, ◌/◌, ◌%◌, Bool, true, false, not, ◌&&◌, ◌||◌, [], ◌∷◌, ◌++◌, ltb,
  leb, ◌==◌, if◌then◌else◌, Option, none, some, length, drop,
}
use go_imap.Strconv.{Bytes}
use go_imap.Strconv.Runes.{rune_string, decode_rune, valid_string, is_surrogate}
use go_imap.Utf7.Base64.{encode64, decode64}

-- min <= b && b <= max
abbrev pub is_printable : ℕ → Bool
is_printable b = leb 0x20 b && leb b 0x7e

-- The two units of utf16.EncodeRune, or the one unit of a rune that needs no pair
unfoldable pub units : ℕ → Bytes
units r =
    if leb 0x10000 r && leb r 0x10ffff
    then (0xd800 + (r - 0x10000) / 1024) ∷ (0xdc00 + (r - 0x10000) % 1024) ∷ []
    else r ∷ []

unfoldable pub big_endian : Bytes → Bytes
big_endian [] = []
big_endian (u ∷ us) = (u / 256 % 256) ∷ (u % 256) ∷ big_endian us

unfoldable pub utf16 : ℕ → Bytes → Bytes
utf16 zero s = []
utf16 (suc fuel) [] = []
utf16 (suc fuel) (b ∷ s) =
    let (r, size) = decode_rune (b ∷ s) in
    let rest = utf16 fuel (drop size (b ∷ s)) in units r ++ rest

-- encode, which writes a part of a text in base64, between the shifts
unfoldable pub encode_part : Bytes → Bytes
unfolding utf16 big_endian encode64 units decode_rune
encode_part s = b'&' ∷ encode64 (big_endian (utf16 (length s) s)) ++ b'-' ∷ []

unfoldable pub hidden_part : Bytes → Bytes × Bytes
hidden_part [] = ([], [])
hidden_part (b ∷ s) =
    let (run, rest) = hidden_part s in if is_printable b then ([], b ∷ s) else (b ∷ run, rest)

unfoldable pub encode_from : ℕ → Bytes → Bytes
encode_from zero s = []
encode_from (suc fuel) [] = []
encode_from (suc fuel) (b ∷ s) =
    let after = encode_from fuel s in
    let (run, rest) = hidden_part s in
    let after_part = encode_from fuel rest in
    if is_printable b
    then (if b == b'&' then b ∷ b'-' ∷ after else b ∷ after)
    else encode_part (b ∷ run) ++ after_part

-- Encode
unfoldable pub encode : Bytes → Bytes
unfolding encode_from encode_part hidden_part
encode s = encode_from (length s) s

-- The UTF-8 text of UTF-16 units, unless one of them is printable or half of a pair
abbrev pub onto : Bytes → Option Bytes → Option Bytes
onto s none = none
onto s (some t) = some (s ++ t)

abbrev pub is_pair : ℕ → ℕ → Bool
is_pair r r2 = leb 0xd800 r && ltb r 0xdc00 && leb 0xdc00 r2 && ltb r2 0xe000

unfoldable pub from_units : Bytes → Option Bytes
from_units [] = some []
from_units (r ∷ []) = if is_surrogate r || is_printable r then none else some (rune_string r)
from_units (r ∷ r2 ∷ us) =
    let pair = onto (rune_string ((r - 0xd800) * 1024 + (r2 - 0xdc00) + 0x10000)) (from_units us) in
    let single = onto (rune_string r) (from_units (r2 ∷ us)) in
    if is_surrogate r
    then (if is_pair r r2 then pair else none)
    else if is_printable r
    then none
    else single

abbrev pub onto_unit : ℕ → Option Bytes → Option Bytes
onto_unit u none = none
onto_unit u (some us) = some (u ∷ us)

-- An odd number of bytes is no UTF-16.
unfoldable pub to_units : Bytes → Option Bytes
to_units [] = some []
to_units (a ∷ []) = none
to_units (a ∷ b ∷ s) = onto_unit (a * 256 + b) (to_units s)

abbrev pub then_decode : Option Bytes → (Bytes → Option Bytes) → Option Bytes
then_decode none f = none
then_decode (some s) f = f s

-- decode, which reads a part in base64
unfoldable pub decode_part : Bytes → Option Bytes
unfolding decode64 to_units from_units
decode_part s = then_decode (then_decode (decode64 s) to_units) from_units

abbrev pub before : ℕ → Option (Bytes × Bytes) → Option (Bytes × Bytes)
before b none = none
before b (some (seg, rest)) = some (b ∷ seg, rest)

-- What stands before the next `-`, and what follows it
unfoldable pub segment : Bytes → Option (Bytes × Bytes)
segment [] = none
segment (b ∷ s) =
    let later = before b (segment s) in
    if b == b'-' then some ([], s) else if b == 13 || b == 10 then none else later

-- Nothing is decoded from the part: decode returned nil.
abbrev pub not_nil : Option Bytes → Option Bytes
not_nil none = none
not_nil (some []) = none
not_nil (some (b ∷ s)) = some (b ∷ s)

-- A `&` was read: `more` is the rest of the loop.
abbrev pub decode_shift :
    (Bool → Bytes → Option Bytes) → Bool → Option (Bytes × Bytes) → Option Bytes
decode_shift more ascii none = none
decode_shift more ascii (some ([], rest)) = onto (b'&' ∷ []) (more true rest)
decode_shift more ascii (some (b ∷ seg, rest)) =
    if not ascii
    then none
    else then_decode (not_nil (decode_part (b ∷ seg))) (λ t. onto t (more false rest))

unfoldable pub decode_from : ℕ → Bool → Bytes → Option Bytes
decode_from zero ascii s = none
decode_from (suc fuel) ascii [] = some []
decode_from (suc fuel) ascii (b ∷ s) =
    let later = onto (b ∷ []) (decode_from fuel true s) in
    if ltb b 0x20 || ltb 0x7e b && ltb b 0x80
    then none
    else if not (b == b'&')
    then later
    else decode_shift (decode_from fuel) ascii (segment s)

-- Decode
unfoldable pub decode : Bytes → Option Bytes
unfolding valid_string decode_from decode_part segment
decode s = if not (valid_string s) then none else decode_from (suc (length s)) true s
