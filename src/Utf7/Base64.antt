-- ===== src/Utf7/Base64.antt =====
-- The base64 encoding of internal/utf7/utf7.go, whose texts have no padding: encoder.go removes it, and decoder.go
-- adds it. A text that holds a `=` is none.
use go_imap.Prelude.{
  ℕ, ◌+◌, ◌-◌, ◌*◌, ◌/◌, ◌%◌, ◌≡◌, refl, ◌<◌, ◌&&◌, [], ◌∷◌, ◌++◌, ltb, leb, ◌==◌, if◌then◌else◌,
  Option, none, some, arith, All,
}
use go_imap.Strconv.{Bytes}

-- b64Enc
unfoldable pub letter : ℕ → ℕ
letter v =
    if ltb v 26
    then b'A' + v
    else if ltb v 52
    then b'a' + (v - 26)
    else if ltb v 62
    then b'0' + (v - 52)
    else if v == 62
    then b'+'
    else b','

unfoldable pub value : ℕ → Option ℕ
value b =
    if leb b'A' b && leb b b'Z'
    then some (b - b'A')
    else if leb b'a' b && leb b b'z'
    then some (b - b'a' + 26)
    else if leb b'0' b && leb b b'9'
    then some (b - b'0' + 52)
    else if b == b'+'
    then some 62
    else if b == b','
    then some 63
    else none

unfoldable pub encode64 : Bytes → Bytes
unfolding letter
encode64 [] = []
encode64 (a ∷ []) = letter (a / 4) ∷ letter (a % 4 * 16) ∷ []
encode64 (a ∷ b ∷ []) = letter (a / 4) ∷ letter (a % 4 * 16 + b / 16) ∷ letter (b % 16 * 4) ∷ []
encode64 (a ∷ b ∷ c ∷ s) =
    letter (a / 4)
    ∷ letter (a % 4 * 16 + b / 16)
    ∷ letter (b % 16 * 4 + c / 64)
    ∷ letter (c % 64)
    ∷ encode64 s

abbrev pub with_value : Option ℕ → Option Bytes → Option Bytes
with_value (some v) (some vs) = some (v ∷ vs)
with_value _ _ = none

abbrev pub values : Bytes → Option Bytes
values [] = some []
values (b ∷ s) = with_value (value b) (values s)

abbrev pub quantum : Bytes → Option Bytes → Option Bytes
quantum out none = none
quantum out (some s) = some (out ++ s)

-- Bits that fill the last letter are left out.
unfoldable pub from_values : Bytes → Option Bytes
from_values [] = some []
from_values (v ∷ []) = none
from_values (v ∷ w ∷ []) = some ((v * 4 + w / 16) ∷ [])
from_values (v ∷ w ∷ x ∷ []) = some ((v * 4 + w / 16) ∷ (w % 16 * 16 + x / 4) ∷ [])
from_values (v ∷ w ∷ x ∷ y ∷ s) =
    quantum ((v * 4 + w / 16) ∷ (w % 16 * 16 + x / 4) ∷ (x % 4 * 64 + y) ∷ []) (from_values s)

abbrev pub all_values : Option Bytes → Option Bytes
all_values none = none
all_values (some vs) = from_values vs

unfoldable pub decode64 : Bytes → Option Bytes
unfolding value from_values
decode64 s = all_values (values s)

pub value-letter : (v : ℕ) → v < 64 → value (letter v) ≡ some v
unfolding value letter
value-letter v h = ground arith

quantum-encode64 :
    (a b c : ℕ) (s : Bytes) (vs : Option Bytes)
    → a < 256
    → b < 256
    → c < 256
    → all_values vs ≡ some s
    → all_values (
        with_value (some (a / 4)) (
          with_value
            (some (a % 4 * 16 + b / 16))
            (with_value (some (b % 16 * 4 + c / 64)) (with_value (some (c % 64)) vs))))
      ≡ some (a ∷ b ∷ c ∷ s)
unfolding from_values
quantum-encode64 a b c s none ha hb hc h = cc h
quantum-encode64 a b c s (some vs) ha hb hc h = rw h (ground arith)

pub decode64-encode64 : (s : Bytes) → All (λ b. b < 256) s → decode64 (encode64 s) ≡ some s
unfolding decode64 encode64 from_values
decode64-encode64 [] h = refl
decode64-encode64 (a ∷ []) (ha, _) =
    rw (value-letter (a / 4) (omega arith), value-letter (a % 4 * 16) (omega arith)) (ground arith)
decode64-encode64 (a ∷ b ∷ []) (ha, (hb, _)) =
    rw
      (
        value-letter (a / 4) (omega arith),
        value-letter (a % 4 * 16 + b / 16) (omega arith),
        value-letter (b % 16 * 4) (omega arith),
      )
      (ground arith)
decode64-encode64 (a ∷ b ∷ c ∷ s) (ha, (hb, (hc, hs))) =
    rw
      (
        value-letter (a / 4) (omega arith),
        value-letter (a % 4 * 16 + b / 16) (omega arith),
        value-letter (b % 16 * 4 + c / 64) (omega arith),
        value-letter (c % 64) (omega arith),
      )
      (quantum-encode64 a b c s (values (encode64 s)) ha hb hc (decode64-encode64 s hs))
