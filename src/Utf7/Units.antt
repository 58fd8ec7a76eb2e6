-- ===== src/Utf7/Units.antt =====
-- internal/utf7: a part of a text that is written in base64 is read back. A text is the UTF-8 of its runes.
use go_imap.Prelude.{
  ℕ, zero, suc, ◌+◌, ◌-◌, ◌*◌, ◌/◌, ◌%◌, ◌≡◌, refl, ◌<◌, ◌≤◌, inl, inr, true, false, ◌&&◌, [], ◌∷◌,
  ◌++◌, leb, some, length, length-append, drop-append, arith, All, All-append, append-nil,
  Bool-cases,
}
use go_imap.Strconv.{Bytes}
use go_imap.Strconv.Runes.{rune_string, decode_rune, is_surrogate}
use go_imap.Strconv.Runes.Laws.{IsScalar, decode_rune-rune_string, rune_string-starts}
use go_imap.Utf7.Base64.{encode64, decode64-encode64}
use go_imap.Utf7.{
  is_printable, units, big_endian, utf16, from_units, to_units, onto, is_pair, decode_part,
}

-- The UTF-8 text of runes
unfoldable pub text_of : Bytes → Bytes
unfolding rune_string
text_of [] = []
text_of (r ∷ rs) = rune_string r ++ text_of rs

unfoldable pub all_units : Bytes → Bytes
unfolding units
all_units [] = []
all_units (r ∷ rs) = units r ++ all_units rs

-- A rune that is written in base64
abbrev pub IsHidden : ℕ → Type 0
IsHidden r = IsScalar r × (is_printable r ≡ false)

pub rune_string-pos : (r : ℕ) → 0 < length (rune_string r)
rune_string-pos r = ground (arith, rune_string-starts r)

utf16-step :
    (fuel r : ℕ) (p w : Bytes)
    → 0 < length p
    → decode_rune (p ++ w) ≡ (r, length p)
    → utf16 (suc fuel) (p ++ w) ≡ units r ++ utf16 fuel w
unfolding utf16
utf16-step fuel r [] w h e = absurd (omega (arith, h))
utf16-step fuel r (b ∷ p) w h e = rw (e, drop-append (b ∷ p) w)

utf16-empty : utf16 0 [] ≡ []
unfolding utf16
utf16-empty = refl

utf16-none : (fuel : ℕ) → utf16 (suc fuel) [] ≡ []
unfolding utf16
utf16-none fuel = refl

pub utf16-text_of :
    (fuel : ℕ) (rs : Bytes)
    → length (text_of rs) ≤ fuel
    → All IsScalar rs
    → utf16 fuel (text_of rs) ≡ all_units rs
unfolding text_of all_units
utf16-text_of zero [] h _ = utf16-empty
utf16-text_of zero (r ∷ rs) h _ =
    absurd (omega (arith, length-append (rune_string r) (text_of rs), rune_string-pos r))
utf16-text_of (suc fuel) [] h _ = utf16-none fuel
utf16-text_of (suc fuel) (r ∷ rs) h (hr, hs) = rw (
  utf16-step fuel r (rune_string r) (text_of rs) (rune_string-pos r)
      (decode_rune-rune_string r (text_of rs) hr),
  utf16-text_of fuel rs
      (omega (arith, length-append (rune_string r) (text_of rs), rune_string-pos r)) hs,
)

from_units-single :
    (r : ℕ) (us : Bytes)
    → is_surrogate r ≡ false
    → is_printable r ≡ false
    → from_units (r ∷ us) ≡ onto (rune_string r) (from_units us)
unfolding from_units
from_units-single r [] h h' = rw (h, h', append-nil (rune_string r))
from_units-single r (r2 ∷ us) h h' = rw (h, h')

from_units-pair :
    (r : ℕ) (us : Bytes)
    → 0x10000 ≤ r
    → r ≤ 0x10ffff
    → from_units (units r ++ us) ≡ onto (rune_string r) (from_units us)
unfolding from_units units
from_units-pair r us lo hi =
    let e : (leb 0x10000 r && leb r 0x10ffff) ≡ true = ground arith in
    let hi_unit : is_surrogate (0xd800 + (r - 0x10000) / 1024) ≡ true = ground arith in
    let pair : is_pair (0xd800 + (r - 0x10000) / 1024) (0xdc00 + (r - 0x10000) % 1024) ≡ true =
      ground arith in
    let value : (0xd800 + (r - 0x10000) / 1024 - 0xd800) * 1024
          + (0xdc00 + (r - 0x10000) % 1024 - 0xdc00)
          + 0x10000
        ≡ r =
      omega arith in
    rw e (rw (hi_unit, pair, value))

from_units-units :
    (r : ℕ) (us : Bytes)
    → IsHidden r
    → from_units (units r ++ us) ≡ onto (rune_string r) (from_units us)
unfolding units
from_units-units r us (h, h') = elim (Bool-cases (leb 0x10000 r && leb r 0x10ffff)) [
  | inl e ↦ from_units-pair r us (ground arith) (ground arith)
  | inr e ↦ rw e (from_units-single r us (ground arith) h')
]

from_units-all_units :
    (rs : Bytes) → All IsHidden rs → from_units (all_units rs) ≡ some (text_of rs)
unfolding from_units all_units text_of
from_units-all_units [] _ = refl
from_units-all_units (r ∷ rs) (h, hs) =
    rw (from_units-units r (all_units rs) h, from_units-all_units rs hs)

to_units-big_endian : (us : Bytes) → All (λ u. u < 65536) us → to_units (big_endian us) ≡ some us
unfolding to_units big_endian
to_units-big_endian [] _ = refl
to_units-big_endian (u ∷ us) (h, hs) =
    let e : u / 256 % 256 * 256 + u % 256 ≡ u = omega arith in rw (to_units-big_endian us hs, e)

big_endian-All : (us : Bytes) → All (λ b. b < 256) (big_endian us)
unfolding big_endian
big_endian-All [] = tt
big_endian-All (u ∷ us) = (omega arith, (omega arith, big_endian-All us))

units-All : (r : ℕ) → IsScalar r → All (λ u. u < 65536) (units r)
unfolding units
units-All r h = ground (arith, h)

all_units-All : (rs : Bytes) → All IsHidden rs → All (λ u. u < 65536) (all_units rs)
unfolding all_units
all_units-All [] _ = tt
all_units-All (r ∷ rs) ((h, _), hs) =
    All-append _ (units r) (all_units rs) (units-All r h) (all_units-All rs hs)

pub decode_part-text_of :
    (rs : Bytes)
    → All IsHidden rs
    → decode_part (encode64 (big_endian (all_units rs))) ≡ some (text_of rs)
unfolding decode_part
decode_part-text_of rs h = rw (
  decode64-encode64 (big_endian (all_units rs)) (big_endian-All (all_units rs)),
  to_units-big_endian (all_units rs) (all_units-All rs h),
  from_units-all_units rs h,
)
