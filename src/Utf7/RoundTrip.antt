-- ===== src/Utf7/RoundTrip.antt =====
-- internal/utf7: Decode gives back what Encode was given.
use go_imap.Prelude.{
  ℕ, zero, suc, ◌≡◌, refl, ap, ◌<◌, ◌≤◌, ◌⊎◌, inl, inr, Bool, true, false, [], ◌∷◌, ◌++◌, ◌==◌,
  some, length, length-append, arith, All, All-append, append_assoc, Bool-cases,
}
use go_imap.Strconv.{Bytes}
use go_imap.Strconv.Runes.{rune_string}
use go_imap.Strconv.Runes.Laws.{IsScalar, valid_string-ascii}
use go_imap.Utf7.Base64.{encode64, decode64}
use go_imap.Utf7.Units.{
  text_of, all_units, IsHidden, rune_string-pos, utf16-text_of, decode_part-text_of,
}
use go_imap.Utf7.{
  is_printable, big_endian, utf16, hidden_part, encode_part, encode_from, encode, segment, onto,
  decode_part, to_units, from_units, decode_from, decode,
}
use go_imap.Utf7.Parts.{
  decode_from-plain, printable-ascii, IsPrintable, IsInside, encode64-IsInside, segment-IsInside,
  Stops, encode_from-hidden, text_of-hidden, text_of-plain, text_of-Stops, text_of-append,
}

-- How a text begins
data View : Bytes → Type 0 where
  ended : View []
  plain : (r : ℕ) (rs : Bytes) → is_printable r ≡ true → All IsScalar rs → View (r ∷ rs)
  hidden :
      (r : ℕ) (run rest : Bytes)
      → All IsHidden (r ∷ run)
      → Stops rest
      → All IsScalar rest
      → View (r ∷ run ++ rest)

printable-IsScalar : (r : ℕ) → is_printable r ≡ true → IsScalar r
printable-IsScalar r h = inl (ground (arith, h))

view_onto : (r : ℕ) (rs : Bytes) → IsHidden r → View rs → View (r ∷ rs)
view_onto r _ h ended = hidden r [] [] (h, tt) tt tt
view_onto r _ h (plain x rs hx hs) = hidden r [] (x ∷ rs) (h, tt) hx (printable-IsScalar x hx, hs)
view_onto r _ h (hidden x run rest hx st hs) = hidden r (x ∷ run) rest (h, hx) st hs

view : (rs : Bytes) → All IsScalar rs → View rs
view [] h = ended
view (r ∷ rs) (h, hs) = elim (Bool-cases (is_printable r)) [
  | inl e ↦ plain r rs e hs
  | inr e ↦ view_onto r rs (h, e) (view rs hs)
]

encode_from-plain :
    (fuel r : ℕ) (s : Bytes)
    → is_printable r ≡ true
    → (r == b'&') ≡ false
    → encode_from (suc fuel) (r ∷ s) ≡ r ∷ encode_from fuel s
unfolding encode_from
encode_from-plain fuel r s h h' = rw (h, h')

encode_from-amp :
    (fuel : ℕ) (s : Bytes) → encode_from (suc fuel) (b'&' ∷ s) ≡ b'&' ∷ b'-' ∷ encode_from fuel s
unfolding encode_from
encode_from-amp fuel s = refl

decode_from-amp :
    (room : ℕ) (ascii : Bool) (s : Bytes)
    → decode_from (suc room) ascii (b'&' ∷ b'-' ∷ s) ≡ onto (b'&' ∷ []) (decode_from room true s)
unfolding decode_from segment
decode_from-amp room ascii s = refl

decode_from-shift :
    (room b : ℕ) (seg t s : Bytes)
    → All IsInside seg
    → decode_part seg ≡ some (b ∷ t)
    → 0 < length seg
    → decode_from (suc room) true (b'&' ∷ seg ++ b'-' ∷ s) ≡ onto (b ∷ t) (decode_from room false s)
unfolding decode_from
decode_from-shift room b [] t s h e pos = absurd (omega (arith, pos))
decode_from-shift room b (x ∷ seg) t s h e _ = rw (segment-IsInside (x ∷ seg) s h, e)

decode_part-pos : (b : ℕ) (seg t : Bytes) → decode_part seg ≡ some (b ∷ t) → 0 < length seg
unfolding decode_part decode64 to_units from_units
decode_part-pos b [] t h = cc h
decode_part-pos b (x ∷ seg) t h = omega arith

decode_from-seg :
    (room : ℕ) (p seg s : Bytes)
    → All IsInside seg
    → decode_part seg ≡ some p
    → 0 < length p
    → decode_from (suc room) true (b'&' ∷ seg ++ b'-' ∷ s) ≡ onto p (decode_from room false s)
decode_from-seg room [] seg s _ _ pos = absurd (omega (arith, pos))
decode_from-seg room (b ∷ t) seg s h e _ =
    decode_from-shift room b seg t s h e (decode_part-pos b seg t e)

text_of-pos : (r : ℕ) (rs : Bytes) → 0 < length (text_of (r ∷ rs))
unfolding text_of
text_of-pos r rs = omega (arith, length-append (rune_string r) (text_of rs), rune_string-pos r)

hidden-IsScalar : (rs : Bytes) → All IsHidden rs → All IsScalar rs
hidden-IsScalar [] h = tt
hidden-IsScalar (r ∷ rs) ((h, _), hs) = (h, hidden-IsScalar rs hs)

decode_from-hidden_part :
    (room r : ℕ) (rs s : Bytes)
    → All IsHidden (r ∷ rs)
    → decode_from (suc room) true (encode_part (text_of (r ∷ rs)) ++ s)
      ≡ onto (text_of (r ∷ rs)) (decode_from room false s)
unfolding encode_part
decode_from-hidden_part room r rs s h =
    let p = text_of (r ∷ rs) in
    let seg = encode64 (big_endian (all_units (r ∷ rs))) in
    let e : utf16 (length p) p ≡ all_units (r ∷ rs) =
      utf16-text_of (length p) (r ∷ rs) (omega arith) (hidden-IsScalar (r ∷ rs) h) in
    rw (e, append_assoc seg (b'-' ∷ []) s)
      (decode_from-seg room p seg s (encode64-IsInside (big_endian (all_units (r ∷ rs))))
        (decode_part-text_of (r ∷ rs) h) (text_of-pos r rs))

-- A part that is not empty is longer than its text.
encode_part-pos : (p s : Bytes) → length s < length (encode_part p ++ s)
unfolding encode_part
encode_part-pos p s = omega (arith, length-append (encode_part p) s)

loops-ended :
    (fuel room : ℕ) (ascii : Bool)
    → decode_from (suc room) ascii (encode_from fuel (text_of [])) ≡ some (text_of [])
unfolding decode_from encode_from text_of
loops-ended zero room ascii = refl
loops-ended (suc fuel) room ascii = refl

-- One round of both loops, where the next round gives back what is left
loops-amp :
    (fuel room : ℕ) (ascii : Bool) (s : Bytes)
    → length (encode_from (suc fuel) (b'&' ∷ s)) < suc room
    → (length (encode_from fuel s) < room → decode_from room true (encode_from fuel s) ≡ some s)
    → decode_from (suc room) ascii (encode_from (suc fuel) (b'&' ∷ s)) ≡ some (b'&' ∷ s)
loops-amp fuel room ascii s h next = rw (
  encode_from-amp fuel s,
  decode_from-amp room ascii (encode_from fuel s),
  next (omega (arith, ap length (encode_from-amp fuel s))),
)

loops-plain :
    (fuel room r : ℕ) (ascii : Bool) (s : Bytes)
    → is_printable r ≡ true
    → length (encode_from (suc fuel) (r ∷ s)) < suc room
    → (length (encode_from fuel s) < room → decode_from room true (encode_from fuel s) ≡ some s)
    → decode_from (suc room) ascii (encode_from (suc fuel) (r ∷ s)) ≡ some (r ∷ s)
loops-plain fuel room r ascii s hr h next = elim (Bool-cases (r == b'&')) [
  | inl e ↦
      let amp : r ≡ b'&' = ground (arith, e) in
      rw amp (loops-amp fuel room ascii s (rw amp at h) next)
  | inr e ↦ rw (
    encode_from-plain fuel r s hr e,
    decode_from-plain room r ascii (encode_from fuel s) hr e,
    next (omega (arith, ap length (encode_from-plain fuel r s hr e))),
  )
]

loops-hidden :
    (fuel room r : ℕ) (run s : Bytes)
    → All IsHidden (r ∷ run)
    → Stops s
    → length (encode_from (suc fuel) (text_of (r ∷ run) ++ s)) < suc room
    → (length (encode_from fuel s) < room → decode_from room false (encode_from fuel s) ≡ some s)
    → decode_from (suc room) true (encode_from (suc fuel) (text_of (r ∷ run) ++ s))
      ≡ some (text_of (r ∷ run) ++ s)
loops-hidden fuel room r run s hr st h next =
    let p = text_of (r ∷ run) in
    let e : encode_from (suc fuel) (p ++ s) ≡ encode_part p ++ encode_from fuel s =
      encode_from-hidden fuel p s (text_of-pos r run) (text_of-hidden (r ∷ run) hr) st in
    rw (
      e,
      decode_from-hidden_part room r run (encode_from fuel s) hr,
      next (omega (arith, ap length e, encode_part-pos p (encode_from fuel s))),
    )

-- Enough fuel for both loops, by the length of what is left
decode_from-encode_from :
    (fuel room : ℕ) (ascii : Bool) (rs : Bytes)
    → View rs
    → length (text_of rs) ≤ fuel
    → length (encode_from fuel (text_of rs)) < room
    → (ascii ≡ true) ⊎ Stops rs
    → decode_from room ascii (encode_from fuel (text_of rs)) ≡ some (text_of rs)
decode_from-encode_from fuel zero ascii rs v h h' _ = absurd (omega arith)
decode_from-encode_from fuel (suc room) ascii [] ended h h' _ = loops-ended fuel room ascii
decode_from-encode_from zero (suc room) ascii _ (plain r rs hr hs) h h' _ =
    absurd (omega (arith, text_of-pos r rs))
decode_from-encode_from zero (suc room) ascii _ (hidden r run rest hr st hs) h h' _ =
    absurd (omega (arith, text_of-pos r (run ++ rest)))
decode_from-encode_from (suc fuel) (suc room) ascii _ (plain r rs hr hs) h h' _ =
    let e = text_of-plain r rs hr in
    rw e (
      loops-plain fuel room r ascii (text_of rs) hr (rw e at h') λ enough.
        decode_from-encode_from fuel room true rs (view rs hs) (omega (arith, h, ap length e))
          enough (inl refl))
decode_from-encode_from (suc fuel) (suc room) true _ (hidden r run rest hr st hs) h h' a =
    let e = text_of-append (r ∷ run) rest in
    let le = length-append (text_of (r ∷ run)) (text_of rest) in
    rw e (
      loops-hidden fuel room r run (text_of rest) hr (text_of-Stops rest st) (rw e at h') λ enough.
        decode_from-encode_from fuel room false rest (view rest hs)
          (omega (arith, h, ap length e, le, text_of-pos r run)) enough (inr st))
decode_from-encode_from (suc fuel) (suc room) false _ (hidden r run rest hr st hs) h h' a =
    absurd (ground (arith, a, hr))

inside-IsPrintable : (s : Bytes) → All IsInside s → All IsPrintable s
inside-IsPrintable [] h = tt
inside-IsPrintable (b ∷ s) ((_, (_, (_, h))), hs) = (h, inside-IsPrintable s hs)

encode_part-IsPrintable : (p : Bytes) → All IsPrintable (encode_part p)
unfolding encode_part
encode_part-IsPrintable p =
    let seg = encode64 (big_endian (utf16 (length p) p)) in
    (
      refl,
      All-append _ seg (b'-' ∷ [])
          (inside-IsPrintable seg (encode64-IsInside (big_endian (utf16 (length p) p)))) (refl, tt),
    )

encode_from-IsPrintable : (fuel : ℕ) (s : Bytes) → All IsPrintable (encode_from fuel s)
unfolding encode_from
encode_from-IsPrintable zero s = tt
encode_from-IsPrintable (suc fuel) [] = tt
encode_from-IsPrintable (suc fuel) (b ∷ s) = elim (Bool-cases (is_printable b)) [
  | inl e ↦ rw e (elim (Bool-cases (b == b'&')) [
    | inl amp ↦ rw amp (e, (refl, encode_from-IsPrintable fuel s))
    | inr amp ↦ rw amp (e, encode_from-IsPrintable fuel s)
  ])
  | inr e ↦ rw e (
      All-append _ (encode_part (b ∷ (hidden_part s).0)) (encode_from fuel (hidden_part s).1)
        (encode_part-IsPrintable (b ∷ (hidden_part s).0))
        (encode_from-IsPrintable fuel (hidden_part s).1))
]

-- What Encode writes is printable ASCII, whatever the bytes that it is given.
pub encode-IsPrintable : (s : Bytes) → All IsPrintable (encode s)
unfolding encode
encode-IsPrintable s = encode_from-IsPrintable (length s) s

-- Decode of modified UTF-7 undoes Encode on every text in UTF-8.
pub decode-encode :
    (rs : Bytes) → All IsScalar rs → decode (encode (text_of rs)) ≡ some (text_of rs)
unfolding decode encode
decode-encode rs h =
    let s = text_of rs in
    rw
      (valid_string-ascii (encode_from (length s) s)
        (printable-ascii (encode_from (length s) s) (encode_from-IsPrintable (length s) s)))
      (decode_from-encode_from (length s) (suc (length (encode_from (length s) s))) true rs
        (view rs h) (omega arith) (omega arith) (inl refl))
