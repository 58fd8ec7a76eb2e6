-- ===== src/Wire/RoundTrip/Forms.antt =====
-- internal/imapwire: Decoder.ExpectAString on the three forms of an astring
use go_imap.Prelude.{
  ℕ, ◌≤◌, ◌≡◌, refl, Bool, true, false, [], ◌∷◌, ◌++◌, none, some, Option, length, arith, ◌==◌,
}
use go_imap.Strconv.{Bytes}
use go_imap.Wire.{
  WireError, Settings, Decoder, Parser, conn_side_server, is_atom_char, is_astring_char, else_try,
}
use go_imap.Wire.Strings.{literal, expect_astring}
use go_imap.Wire.Encoder.{all_bytes, escaped}
use go_imap.Wire.Read.{IsReady, at, Takes, func-at}
use go_imap.Wire.RoundTrip.Quoted.{quoted-at, quoted-other}
use go_imap.Wire.RoundTrip.Literal.{IsRead, IsAllowed, literal_text, literal-IsRead, literal-other}

pub all_bytes-Takes : (s : Bytes) → all_bytes is_atom_char s ≡ true → Takes is_astring_char s
unfolding all_bytes
all_bytes-Takes [] h = tt
all_bytes-Takes (b ∷ s) h = (ground (arith, h), all_bytes-Takes s (ground (arith, h)))

-- No form but the last begins with a byte that a bare string may hold.
astring_char-quote : (b : ℕ) → is_astring_char b ≡ true → (b == 34) ≡ false
unfolding is_atom_char
astring_char-quote b h = ground (arith, h)

astring_char-brace : (b : ℕ) → is_astring_char b ≡ true → (b == b'{') ≡ false
unfolding is_atom_char
astring_char-brace b h = ground (arith, h)

IsRead-first :
    (e : Option WireError) (r : Decoder × Option Bytes) (q : Parser Bytes) (s t : Bytes)
    → IsRead e r s t
    → IsRead e (else_try r q) s t
IsRead-first e (d, some a) q s t h = h
IsRead-first e (d, none) q s t h = cc (h.0)

module _ {c : Settings} {d : Decoder} where
  pub expect_astring-bare :
      (x : ℕ) (p : Bytes) {b : ℕ} (t : Bytes) (n : ℕ)
      → Takes is_astring_char (x ∷ p)
      → is_astring_char b ≡ false
      → IsReady c (x ∷ p ++ b ∷ t) n d
      → IsRead d.err (expect_astring c (at (x ∷ p ++ b ∷ t) n d)) (x ∷ p) (b ∷ t)
  unfolding expect_astring at
  expect_astring-bare x p {b} t n (vx, vp) stop r =
      rw
        (
          quoted-other x (p ++ b ∷ t) n (astring_char-quote x vx) r,
          literal-other x (p ++ b ∷ t) n (astring_char-brace x vx) r,
          func-at is_astring_char x p t (vx, vp) stop r,
        )
        (refl, refl, refl, r.closed)

  pub expect_astring-quoted :
      (s t : Bytes) (n : ℕ)
      → IsReady c (34 ∷ escaped s ++ t) n d
      → IsRead d.err (expect_astring c (at (34 ∷ escaped s ++ t) n d)) s t
  unfolding expect_astring at
  expect_astring-quoted s t n r = rw (quoted-at s t n r) (refl, refl, refl, r.closed)

  pub expect_astring-literal :
      (non_sync : Bool) (s t : Bytes) (n : ℕ)
      → (non_sync ≡ true → c.side ≡ conn_side_server)
      → length s ≤ 1073741824
      → IsAllowed c (length s) non_sync
      → IsReady c (literal_text non_sync s t) n d
      → IsRead d.err (expect_astring c (at (literal_text non_sync s t) n d)) s t
  unfolding expect_astring
  expect_astring-literal non_sync s t n side h allowed r = rw (quoted-other b'{' _ n refl r) (
      IsRead-first d.err (literal c (at (literal_text non_sync s t) n d)) _ s t
        (literal-IsRead non_sync s t n side h allowed r))
