-- ===== src/Utf7/Parts.antt =====
-- internal/utf7: the parts of a text, by their bytes and by their runes
use go_imap.Prelude.{
  ℕ, suc, ◌+◌, ◌*◌, ◌/◌, ◌%◌, ◌≡◌, refl, sym, ◌<◌, ◌≤◌, ◌≢◌, inl, inr, Bool, true, false, ◌&&◌,
  ◌||◌, [], ◌∷◌, ◌++◌, ltb, ◌==◌, some, length, arith, All, All-append, append_assoc,
}
use go_imap.Strconv.{Bytes}
use go_imap.Strconv.Runes.{rune_string}
use go_imap.Strconv.Runes.Laws.{rune_string-starts}
use go_imap.Utf7.Base64.{encode64, letter}
use go_imap.Utf7.Units.{text_of, IsHidden}
use go_imap.Utf7.{is_printable, hidden_part, encode_part, encode_from, segment, onto, decode_from}

abbrev pub IsPrintable : ℕ → Type 0
IsPrintable b = is_printable b ≡ true

-- A byte of a base64 text: not a dash, and no end of a line
abbrev pub IsInside : ℕ → Type 0
IsInside b = (b ≢ b'-') × ((b ≢ 13) × ((b ≢ 10) × IsPrintable b))

pub letter-IsInside : (v : ℕ) → IsInside (letter v)
unfolding letter
letter-IsInside v = grind arith

pub encode64-IsInside : (s : Bytes) → All IsInside (encode64 s)
unfolding encode64
encode64-IsInside [] = tt
encode64-IsInside (a ∷ []) = (letter-IsInside (a / 4), (letter-IsInside (a % 4 * 16), tt))
encode64-IsInside (a ∷ b ∷ []) = (
  letter-IsInside (a / 4),
  (letter-IsInside (a % 4 * 16 + b / 16), (letter-IsInside (b % 16 * 4), tt)),
)
encode64-IsInside (a ∷ b ∷ c ∷ s) = (
  letter-IsInside (a / 4),
  (
    letter-IsInside (a % 4 * 16 + b / 16),
    (letter-IsInside (b % 16 * 4 + c / 64), (letter-IsInside (c % 64), encode64-IsInside s)),
  ),
)

pub segment-IsInside : (s t : Bytes) → All IsInside s → segment (s ++ b'-' ∷ t) ≡ some (s, t)
unfolding segment
segment-IsInside [] t h = refl
segment-IsInside (b ∷ s) t (h, hs) = ground (arith, segment-IsInside s t hs, h)

-- The text begins with a byte that stands for itself, or is empty.
abbrev pub Stops : Bytes → Type 0
Stops [] = Unit
Stops (b ∷ s) = is_printable b ≡ true

pub hidden_part-Stops :
    (p w : Bytes) → All (λ b. is_printable b ≡ false) p → Stops w → hidden_part (p ++ w) ≡ (p, w)
unfolding hidden_part
hidden_part-Stops [] [] h st = refl
hidden_part-Stops [] (b ∷ w) h st = ground (arith, st)
hidden_part-Stops (b ∷ p) w (h, hs) st = ground (arith, hidden_part-Stops p w hs st, h)

pub encode_from-hidden :
    (fuel : ℕ) (p w : Bytes)
    → 0 < length p
    → All (λ b. is_printable b ≡ false) p
    → Stops w
    → encode_from (suc fuel) (p ++ w) ≡ encode_part p ++ encode_from fuel w
unfolding encode_from
encode_from-hidden fuel [] w h _ st = absurd (omega (arith, h))
encode_from-hidden fuel (b ∷ p) w _ (h, hs) st = rw (h, hidden_part-Stops p w hs st)

pub high-hidden : (s : Bytes) → All (λ b. 0x80 ≤ b) s → All (λ b. is_printable b ≡ false) s
high-hidden [] h = tt
high-hidden (b ∷ s) (h, hs) = (ground arith, high-hidden s hs)

pub rune_string-hidden :
    (r : ℕ) → is_printable r ≡ false → All (λ b. is_printable b ≡ false) (rune_string r)
rune_string-hidden r h = elim (rune_string-starts r) [
  | inl (_, e) ↦ rw e (h, tt)
  | inr (_, high, _) ↦ high-hidden (rune_string r) high
]

pub text_of-hidden : (rs : Bytes) → All IsHidden rs → All (λ b. is_printable b ≡ false) (text_of rs)
unfolding text_of
text_of-hidden [] h = tt
text_of-hidden (r ∷ rs) ((_, h), hs) =
    All-append _ (rune_string r) (text_of rs) (rune_string-hidden r h) (text_of-hidden rs hs)

pub rune_string-printable : (r : ℕ) → is_printable r ≡ true → rune_string r ≡ r ∷ []
rune_string-printable r h = elim (rune_string-starts r) [
  | inl (_, e) ↦ e
  | inr (high, _, _) ↦ absurd (ground (arith, h))
]

pub text_of-plain : (r : ℕ) (rs : Bytes) → is_printable r ≡ true → text_of (r ∷ rs) ≡ r ∷ text_of rs
unfolding text_of
text_of-plain r rs h = rw (rune_string-printable r h)

pub text_of-empty : Stops (text_of [])
unfolding text_of
text_of-empty = tt

pub text_of-Stops : (rs : Bytes) → Stops rs → Stops (text_of rs)
text_of-Stops [] h = text_of-empty
text_of-Stops (r ∷ rs) h = rw (text_of-plain r rs h) h

pub text_of-append : (rs ts : Bytes) → text_of (rs ++ ts) ≡ text_of rs ++ text_of ts
unfolding text_of
text_of-append [] ts = refl
text_of-append (r ∷ rs) ts =
    rw (text_of-append rs ts) (sym (append_assoc (rune_string r) (text_of rs) (text_of ts)))

pub decode_from-plain :
    (room r : ℕ) (ascii : Bool) (s : Bytes)
    → is_printable r ≡ true
    → (r == b'&') ≡ false
    → decode_from (suc room) ascii (r ∷ s) ≡ onto (r ∷ []) (decode_from room true s)
unfolding decode_from
decode_from-plain room r ascii s h h' =
    let allowed : (ltb r 0x20 || ltb 0x7e r && ltb r 0x80) ≡ false = ground (arith, h) in
    rw (allowed, h')

pub printable-ascii : (s : Bytes) → All IsPrintable s → All (λ b. b < 0x80) s
printable-ascii [] h = tt
printable-ascii (b ∷ s) (h, hs) = (ground (arith, h), printable-ascii s hs)

pub decode_from-empty : (ascii : Bool) → decode_from 1 ascii [] ≡ some []
unfolding decode_from
decode_from-empty ascii = refl
