-- ===== src/Wire/RoundTrip/Astring.antt =====
-- internal/imapwire: what Encoder.AString writes, Decoder.ExpectAString reads.
use go_imap.Prelude.{
  ℕ, ◌≤◌, ◌≡◌, Bool, true, false, not, ◌&&◌, ◌||◌, [], ◌∷◌, ◌++◌, none, some, Option, length, arith,
  ltb, if◌then◌else◌, append_assoc, Bool-cases, inl, inr, ◌⊎◌,
}
use go_imap.Strconv.{Bytes, format_uint}
use go_imap.Wire.{Settings, Decoder, conn_side_server, is_astring_char}
use go_imap.Wire.Strings.{expect_astring}
use go_imap.Wire.Encoder.{
  Options, is_client, announce, clean, payload, write_string, valid_quoted, string_literal,
  sync_literal, set_err, string, astring, escaped, quoted, is_atom, number,
}
use go_imap.Wire.Read.{IsReady, at}
use go_imap.Wire.RoundTrip.Forms.{
  all_bytes-Takes, expect_astring-bare, expect_astring-quoted, expect_astring-literal,
}
use go_imap.Wire.RoundTrip.Literal.{IsRead, IsAllowed, announced}

-- A client announces a literal of this size with a `+`; a server never does.
abbrev pub non_sync : Options → ℕ → Bool
non_sync o size = is_client o.side && ((o.literal_minus && not (ltb 4096 size)) || o.literal_plus)

-- The literal needs no continuation request, or is granted one.
abbrev pub IsSent : Options → ℕ → Type 0
IsSent o size = (non_sync o size ≡ true) ⊎ ((o.side ≡ conn_side_server) ⊎ (o.answers ≡ some true))

-- The text of a string, and that of an astring
unfoldable pub written_string : Options → Bytes → Bytes
unfolding valid_quoted escaped format_uint
written_string o s =
    if valid_quoted o s then 34 ∷ escaped s else announced (non_sync o (length s)) (length s) s

unfoldable pub written : Options → Bytes → Bytes
unfolding is_atom written_string
written o s = if is_atom s then s else written_string o s

announced-append :
    (plus : Bool) (size : ℕ) (s t : Bytes)
    → announced plus size s ++ t ≡ announced plus size (s ++ t)
announced-append true size s t = simp (append_assoc)
announced-append false size s t = simp (append_assoc)

announce-clean :
    (o : Options) (sync : Bool) (size : ℕ) (out : Bytes)
    → announce o sync size (clean out)
      ≡ clean (out ++ announced (not sync && is_client o.side) size [])
unfolding write_string number
announce-clean o sync size out = elim (Bool-cases (not sync && is_client o.side)) [
  | inl e ↦ rw e (simp (append_assoc))
  | inr e ↦ rw e (simp (append_assoc))
]

payload-clean :
    (plus : Bool) (s out : Bytes)
    → payload s (clean (out ++ announced plus (length s) []))
      ≡ clean (out ++ announced plus (length s) s)
payload-clean plus s out =
    rw (append_assoc out (announced plus (length s) []) s, announced-append plus (length s) [] s)

payload-announce :
    (o : Options) (sync : Bool) (s out : Bytes)
    → payload s (announce o sync (length s) (clean out))
      ≡ clean (out ++ announced (not sync && is_client o.side) (length s) s)
payload-announce o sync s out =
    rw (announce-clean o sync (length s) out) (payload-clean (not sync && is_client o.side) s out)

-- A continuation request is made for this size.
abbrev asks : Options → ℕ → Bool
asks o size = is_client o.side && (not o.literal_minus || ltb 4096 size) && not o.literal_plus

asks-false : (o : Options) (size : ℕ) → asks o size ≡ false → non_sync o size ≡ is_client o.side
asks-false o size h = ground (arith, h)

asks-true : (o : Options) (size : ℕ) → asks o size ≡ true → non_sync o size ≡ false
asks-true o size h = ground (arith, h)

asks-granted : (o : Options) (size : ℕ) → IsSent o size → asks o size ≡ true → o.answers ≡ some true
asks-granted o size h e = ground (arith, h, e)

sync_literal-granted :
    (o : Options) (a : Option Bool) (s out : Bytes)
    → a ≡ some true
    → sync_literal o a s (clean out) ≡ clean (out ++ announced false (length s) s)
unfolding set_err
sync_literal-granted o none s out h = cc
sync_literal-granted o (some false) s out h = cc
sync_literal-granted o (some true) s out h =
    rw (announce-clean o true (length s) out) (payload-clean false s out)

string_literal-clean :
    (o : Options) (s out : Bytes)
    → IsSent o (length s)
    → string_literal o s (clean out) ≡ clean (out ++ announced (non_sync o (length s)) (length s) s)
unfolding string_literal
string_literal-clean o s out sent = elim (Bool-cases (asks o (length s))) [
  | inl e ↦ rw (
    e,
    asks-true o (length s) e,
    sync_literal-granted o o.answers s out (asks-granted o (length s) sent e),
  )
  | inr e ↦ rw (e, asks-false o (length s) e, payload-announce o false s out)
]

pub string-clean :
    (o : Options) (s out : Bytes)
    → IsSent o (length s)
    → string o s (clean out) ≡ clean (out ++ written_string o s)
unfolding string written_string quoted write_string
string-clean o s out sent = elim (Bool-cases (valid_quoted o s)) [
  | inl v ↦ rw v
  | inr v ↦ rw (v, string_literal-clean o s out sent)
]

pub astring-clean :
    (o : Options) (s out : Bytes)
    → IsSent o (length s)
    → astring o s (clean out) ≡ clean (out ++ written o s)
unfolding astring written write_string
astring-clean o s out sent = elim (Bool-cases (is_atom s)) [
  | inl e ↦ rw e
  | inr e ↦ rw (e, string-clean o s out sent)
]

-- A bare string is not empty.
expect_astring-atom :
    (c : Settings) (s : Bytes) (b : ℕ) (t : Bytes) (n : ℕ) (d : Decoder)
    → is_atom s ≡ true
    → is_astring_char b ≡ false
    → IsReady c (s ++ b ∷ t) n d
    → IsRead d.err (expect_astring c (at (s ++ b ∷ t) n d)) s (b ∷ t)
unfolding is_atom
expect_astring-atom c [] b t n d h stop r = cc
expect_astring-atom c (x ∷ p) b t n d h stop r =
    expect_astring-bare x p t n (all_bytes-Takes (x ∷ p) h) stop r

written_string-cases :
    (o : Options) (s : Bytes)
    → (written_string o s ≡ 34 ∷ escaped s)
      ⊎ (written_string o s ≡ announced (non_sync o (length s)) (length s) s)
unfolding written_string
written_string-cases o s = elim (Bool-cases (valid_quoted o s)) [
  | inl v ↦ inl (rw v)
  | inr v ↦ inr (rw v)
]

pub expect_astring-written_string :
    (o : Options) (c : Settings) (s t : Bytes) (n : ℕ) (d : Decoder)
    → (non_sync o (length s) ≡ true → c.side ≡ conn_side_server)
    → length s ≤ 1073741824
    → IsAllowed c (length s) (non_sync o (length s))
    → IsReady c (written_string o s ++ t) n d
    → IsRead d.err (expect_astring c (at (written_string o s ++ t) n d)) s t
expect_astring-written_string o c s t n d server small allowed r = elim (written_string-cases o s) [
  | inl e ↦ rw e (expect_astring-quoted s t n (rw e at r))
  | inr e ↦
      let plus = non_sync o (length s) in
      rw (e, announced-append plus (length s) s t)
        (expect_astring-literal plus s t n server small allowed
          (rw (announced-append plus (length s) s t) at (rw e at r)))
]

expect_astring-written :
    (o : Options) (c : Settings) (s : Bytes) (b : ℕ) (t : Bytes) (n : ℕ) (d : Decoder)
    → (non_sync o (length s) ≡ true → c.side ≡ conn_side_server)
    → length s ≤ 1073741824
    → IsAllowed c (length s) (non_sync o (length s))
    → is_astring_char b ≡ false
    → IsReady c (written o s ++ b ∷ t) n d
    → IsRead d.err (expect_astring c (at (written o s ++ b ∷ t) n d)) s (b ∷ t)
unfolding written
expect_astring-written o c s b t n d server small allowed stop r = elim (Bool-cases (is_atom s)) [
  | inl e ↦ rw e (expect_astring-atom c s b t n d e stop (rw e at r))
  | inr e ↦ rw e (expect_astring-written_string o c s (b ∷ t) n d server small allowed (rw e at r))
]

-- What Encoder.AString writes, as an atom, a quoted string or a literal, where literals of its length are sent and
-- allowed, is read back by ExpectAString on the other side, up to a following byte that ends an atom.
pub expect_astring-astring :
    (o : Options) (c : Settings) (s out : Bytes) (b : ℕ) (t : Bytes) (n : ℕ) (d : Decoder)
    → IsSent o (length s)
    → (non_sync o (length s) ≡ true → c.side ≡ conn_side_server)
    → length s ≤ 1073741824
    → IsAllowed c (length s) (non_sync o (length s))
    → is_astring_char b ≡ false
    → IsReady c (written o s ++ b ∷ t) n d
    → (astring o s (clean out) ≡ clean (out ++ written o s))
      × IsRead d.err (expect_astring c (at (written o s ++ b ∷ t) n d)) s (b ∷ t)
expect_astring-astring o c s out b t n d sent server small allowed stop r =
    (astring-clean o s out sent, expect_astring-written o c s b t n d server small allowed stop r)
