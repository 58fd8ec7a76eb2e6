-- ===== src/Utf7/Tests.antt =====
-- internal/utf7: concrete texts
use go_imap.Prelude.{◌≡◌, refl, none, some, [], ◌∷◌, inl, inr, arith}
use go_imap.Strconv.{Bytes, codes}
use go_imap.Strconv.Runes.{rune_string, valid_string}
use go_imap.Utf7.{encode, decode, decode_from, segment}
use go_imap.Utf7.Units.{text_of}
use go_imap.Utf7.RoundTrip.{decode-encode}

-- Two Chinese letters, an ampersand, and a rune that takes a surrogate pair
abbrev name : Bytes
name = 0x53f0 ∷ 0x5317 ∷ b'&' ∷ b'a' ∷ 0x1f600 ∷ []

test_encode : encode (text_of name) ≡ codes "&U,BTFw-&-a&2D3eAA-"
unfolding encode text_of rune_string
test_encode = refl

test_decode : decode (codes "a&-b") ≡ some (codes "a&b")
unfolding decode valid_string decode_from segment
test_decode = refl

-- A printable letter in base64, two shifts without a text between them, and a shift that does not end
test_reject :
    (decode (codes "&AGE-") ≡ none)
    × (decode (codes "&U,A-&U,A-") ≡ none)
    × (decode (codes "&U,A") ≡ none)
unfolding decode rune_string
test_reject = (refl, refl, refl)

decode-encode_example : decode (encode (text_of name)) ≡ some (text_of name)
decode-encode_example = decode-encode name (
  inl (omega arith),
  (
    inl (omega arith),
    (inl (omega arith), (inl (omega arith), (inr (omega arith, omega arith), tt))),
  ),
)
