-- ===== src/Wire/RoundTrip/Mailbox.antt =====
-- internal/imapwire: what Encoder.Mailbox writes, Decoder.ExpectMailbox reads.
use go_imap.Prelude.{
  ℕ, suc, ◌≤◌, ◌≡◌, ◌∙◌, refl, ap, sym, Bool, true, false, [], ◌∷◌, ◌++◌, none, some, Option,
  length, arith, if◌then◌else◌, ◌==◌, Bool-cases, inl, inr, All,
}
use go_imap.Strconv.{Bytes, codes}
use go_imap.Strconv.Bytes.{same_bytes_iff, to_lower}
use go_imap.Strconv.Runes.Laws.{IsScalar, valid_string-ascii}
use go_imap.Utf7.{encode, decode, decode_from}
use go_imap.Utf7.Units.{text_of}
use go_imap.Utf7.Parts.{decode_from-plain, decode_from-empty, printable-ascii, IsPrintable}
use go_imap.Utf7.RoundTrip.{decode-encode}
use go_imap.Wire.{WireError, Settings, Decoder, Parser, conn_side_server, is_astring_char, and_then}
use go_imap.Wire.Encoder.{Options, clean, write_string}
use go_imap.Wire.Strings.{expect_astring}
use go_imap.Wire.Mailbox.{is_inbox, inbox, mailbox, expect_mailbox, decoded}
use go_imap.Wire.Read.{IsReady, at}
use go_imap.Wire.RoundTrip.Forms.{expect_astring-bare}
use go_imap.Wire.RoundTrip.Literal.{IsRead, IsAllowed}
use go_imap.Wire.RoundTrip.Astring.{
  IsSent, non_sync, written_string, string-clean, expect_astring-written_string,
}

-- A byte that stands for itself in modified UTF-7
abbrev IsPlain : ℕ → Type 0
IsPlain b = IsPrintable b × ((b == b'&') ≡ false)

decode_from-IsPlain :
    (s : Bytes) (ascii : Bool) → All IsPlain s → decode_from (suc (length s)) ascii s ≡ some s
decode_from-IsPlain [] ascii h = decode_from-empty ascii
decode_from-IsPlain (b ∷ s) ascii ((h, h'), hs) =
    rw (decode_from-plain (suc (length s)) b ascii s h h', decode_from-IsPlain s true hs)

plain-IsPrintable : (s : Bytes) → All IsPlain s → All IsPrintable s
plain-IsPrintable [] h = tt
plain-IsPrintable (b ∷ s) ((h, _), hs) = (h, plain-IsPrintable s hs)

decode-IsPlain : (s : Bytes) → All IsPlain s → decode s ≡ some s
unfolding decode
decode-IsPlain s h =
    rw (valid_string-ascii s (printable-ascii s (plain-IsPrintable s h)))
      (decode_from-IsPlain s true h)

-- A text with a lower case of letters only is one of letters.
to_lower-IsPlain :
    (s v : Bytes) → All (λ b. (b'a' ≤ b) × (b ≤ b'z')) v → to_lower s ≡ v → All IsPlain s
unfolding to_lower
to_lower-IsPlain [] v hv e = tt
to_lower-IsPlain (b ∷ s) [] hv e = cc e
to_lower-IsPlain (b ∷ s) (x ∷ v) (hx, hv) e =
    ((ground (arith, e, hx), ground (arith, e, hx)), to_lower-IsPlain s v hv (ground (arith, e)))

is_inbox-IsPlain : (s : Bytes) → is_inbox s ≡ true → All IsPlain s
unfolding is_inbox
is_inbox-IsPlain s h =
    to_lower-IsPlain s (codes "inbox") (ground arith)
      ((same_bytes_iff (to_lower s) (codes "inbox")).0 h)

-- No name but INBOX is written as INBOX.
is_inbox-encode :
    (rs : Bytes)
    → All IsScalar rs
    → is_inbox (text_of rs) ≡ false
    → is_inbox (encode (text_of rs)) ≡ false
is_inbox-encode rs h e = elim (Bool-cases (is_inbox (encode (text_of rs)))) [
  | inl yes_inbox ↦
      let same : some (encode (text_of rs)) ≡ some (text_of rs) =
        sym
          (decode-IsPlain (encode (text_of rs)) (is_inbox-IsPlain (encode (text_of rs)) yes_inbox))
        ∙ decode-encode rs h in
      let same' : encode (text_of rs) ≡ text_of rs = cc same in rw same' e
  | inr no_inbox ↦ no_inbox
]

IsRead-then :
    (e : Option WireError) (r : Decoder × Option Bytes) (k : Bytes → Parser Bytes) (w v t : Bytes)
    → IsRead e r w t
    → ((d : Decoder) → k w d ≡ (d, some v))
    → IsRead e (and_then r k) v t
IsRead-then e (d, none) k w v t h f = cc (h.0)
IsRead-then e (d, some a) k w v t h f =
    let same : a ≡ w = cc (h.0) in rw (same, f d) (refl, h.1, h.2, h.3)

-- What goes over the wire for a name
abbrev pub on_wire : Options → Bytes → Bytes
on_wire o name = if o.quoted_utf8 then name else encode name

unfoldable pub written_mailbox : Options → Bytes → Bytes
unfolding is_inbox written_string encode
written_mailbox o name = if is_inbox name then inbox else written_string o (on_wire o name)

mailbox-clean :
    (o : Options) (name out : Bytes)
    → IsSent o (length (on_wire o name))
    → mailbox o name (clean out) ≡ clean (out ++ written_mailbox o name)
unfolding mailbox written_mailbox write_string
mailbox-clean o name out sent = elim (Bool-cases (is_inbox name)) [
  | inl e ↦ rw e
  | inr e ↦ rw (e, string-clean o (on_wire o name) out sent)
]

expect_mailbox-inbox :
    (c : Settings) (b : ℕ) (t : Bytes) (n : ℕ) (d : Decoder)
    → is_astring_char b ≡ false
    → IsReady c (inbox ++ b ∷ t) n d
    → IsRead d.err (expect_mailbox c (at (inbox ++ b ∷ t) n d)) inbox (b ∷ t)
unfolding expect_mailbox
expect_mailbox-inbox c b t n d stop r =
    IsRead-then d.err (expect_astring c (at (inbox ++ b ∷ t) n d)) _ inbox inbox (b ∷ t)
      (expect_astring-bare b'I' (codes "NBOX") t n (refl, (refl, (refl, (refl, (refl, tt))))) stop
        r)
      (λ d. refl)

decoded-some :
    (v : Option Bytes) (name : Bytes) (d : Decoder) → v ≡ some name → decoded v d ≡ (d, some name)
decoded-some v name d e = rw e

-- The names that are not INBOX
expect_mailbox-other :
    (e' : Option WireError) (c : Settings) (d : Decoder) (w name t : Bytes)
    → IsRead e' (expect_astring c d) w t
    → is_inbox w ≡ false
    → (if c.quoted_utf8 then some w else decode w) ≡ some name
    → IsRead e' (expect_mailbox c d) name t
unfolding expect_mailbox
expect_mailbox-other e' c d w name t r e h = elim (Bool-cases c.quoted_utf8) [
  | inl q ↦
      IsRead-then e' (expect_astring c d) _ w name t r
        (λ d'. rw (e, q) (ap (λ x. (d', x)) (rw q at h)))
  | inr q ↦
      IsRead-then e' (expect_astring c d) _ w name t r
        (λ d'. rw (e, q) (decoded-some (decode w) name d' (rw q at h)))
]

on_wire-is_inbox :
    (o : Options) (rs : Bytes)
    → All IsScalar rs
    → is_inbox (text_of rs) ≡ false
    → is_inbox (on_wire o (text_of rs)) ≡ false
on_wire-is_inbox o rs h e = elim (Bool-cases o.quoted_utf8) [
  | inl q ↦ rw q e
  | inr q ↦ rw q (is_inbox-encode rs h e)
]

on_wire-decode :
    (o : Options) (utf8 : Bool) (rs : Bytes)
    → All IsScalar rs
    → utf8 ≡ o.quoted_utf8
    → (if utf8 then some (on_wire o (text_of rs)) else decode (on_wire o (text_of rs)))
      ≡ some (text_of rs)
on_wire-decode o utf8 rs h e = elim (Bool-cases o.quoted_utf8) [
  | inl q ↦ rw (e, q)
  | inr q ↦ rw (e, q) (decode-encode rs h)
]

-- A name in UTF-8 that Encoder.Mailbox writes, where both sides agree on quoted UTF-8, literals of its length are
-- sent and allowed, and a byte that ends an astring follows, is read back by ExpectMailbox on the other side,
-- and INBOX in any case as INBOX; the input is left at that byte, without an error.
pub expect_mailbox-mailbox :
    (o : Options) (c : Settings) (rs out : Bytes) (b : ℕ) (t : Bytes) (n : ℕ) (d : Decoder)
    → All IsScalar rs
    → c.quoted_utf8 ≡ o.quoted_utf8
    → IsSent o (length (on_wire o (text_of rs)))
    → (non_sync o (length (on_wire o (text_of rs))) ≡ true → c.side ≡ conn_side_server)
    → length (on_wire o (text_of rs)) ≤ 1073741824
    → IsAllowed c (length (on_wire o (text_of rs))) (non_sync o (length (on_wire o (text_of rs))))
    → is_astring_char b ≡ false
    → IsReady c (written_mailbox o (text_of rs) ++ b ∷ t) n d
    → (mailbox o (text_of rs) (clean out) ≡ clean (out ++ written_mailbox o (text_of rs)))
      × IsRead d.err
          (expect_mailbox c (at (written_mailbox o (text_of rs) ++ b ∷ t) n d))
          (if is_inbox (text_of rs) then inbox else text_of rs)
          (b ∷ t)
unfolding written_mailbox
expect_mailbox-mailbox o c rs out b t n d h utf8 sent server small allowed stop r =
    let name = text_of rs in
    (
      mailbox-clean o name out sent,
      elim (Bool-cases (is_inbox name)) [
        | inl e ↦ rw e (expect_mailbox-inbox c b t n d stop (rw e at r))
        | inr e ↦ rw e (
            expect_mailbox-other d.err c _ (on_wire o name) name (b ∷ t)
              (expect_astring-written_string o c (on_wire o name) (b ∷ t) n d server small allowed
                (rw e at r))
              (on_wire-is_inbox o rs h e) (on_wire-decode o c.quoted_utf8 rs h utf8))
      ],
    )
