-- ===== src/Wire/RoundTrip/Literal.antt =====
-- internal/imapwire: a text that is written as a literal is read back.
use go_imap.Prelude.{
  ℕ, ◌+◌, ◌≤◌, ◌≡◌, refl, Bool, true, false, ◌∷◌, ◌++◌, none, some, length, arith, ltb, leb,
  length-append, take-append, drop-append, Option, not, ◌==◌,
}
use go_imap.Strconv.{Bytes, format_uint}
use go_imap.Wire.{
  WireError, Settings, Decoder, ConnSide, conn_side_client, conn_side_server, crlf, expect, ◌>>=◌,
  ◌>>◌, accept_byte,
}
use go_imap.Wire.Strings.{
  literal_reader, copy_literal, cancel, literal, LiteralReader, new_literal, plus, buffered, opened,
  refuses,
}
use go_imap.Wire.Read.{IsReady, at, tail-IsReady, drop-IsReady, accept_byte-at, accept_byte-other}
use go_imap.Wire.RoundTrip.Number.{number_below-at}

-- `{n}` or `{n+}` and the octets
abbrev pub plus_sign : Bool → Bytes → Bytes
plus_sign true s = b'+' ∷ s
plus_sign false s = s

abbrev pub announced : Bool → ℕ → Bytes → Bytes
announced non_sync size t = b'{' ∷ format_uint size ++ plus_sign non_sync (b'}' ∷ 13 ∷ 10 ∷ t)

abbrev pub literal_text : Bool → Bytes → Bytes → Bytes
literal_text non_sync s t = announced non_sync (length s) (s ++ t)

-- The state after a line
unfoldable pub at_line : Bytes → ℕ → Decoder → Decoder
unfolding at
at_line t n d = record (at t n d) { crlf = true }

-- What the method stored, where the input goes on, and that the decoder has the error that it had (none, unless it
-- discards) and no open literal
abbrev pub IsRead : Option WireError → Decoder × Option Bytes → Bytes → Bytes → Type 0
IsRead e (d, r) s t = (r ≡ some s) × (d.input ≡ t) × (d.err ≡ e) × (d.literal ≡ false)

abbrev pub admits : Option (ℕ → Bool → Bool) → ℕ → Bool → Bool
admits none size non_sync = leb size 4194304
admits (some check) size non_sync = not (check size non_sync)

-- The checks of the decoder let a literal of this size pass.
abbrev pub IsAllowed : Settings → ℕ → Bool → Type 0
IsAllowed c size non_sync =
    (refuses c.check_literal size ≡ false) × (admits c.check_buffered_literal size non_sync ≡ true)

buffered-allowed :
    (c : Settings) (check : Option (ℕ → Bool → Bool)) (lit : LiteralReader) (d' : Decoder)
    → admits check lit.size lit.non_sync ≡ true
    → buffered c check lit d' ≡ copy_literal c lit d'
buffered-allowed c none lit d' h = ground (arith, h)
buffered-allowed c (some check) lit d' h = ground (arith, h)

copy_literal-at :
    (c : Settings) (s t : Bytes) (non_sync : Bool) (d' : Decoder)
    → d'.input ≡ s ++ t
    → IsRead d'.err (copy_literal c (new_literal (length s) non_sync) d') s t
unfolding copy_literal cancel
copy_literal-at c s t non_sync d' input =
    let enough : ltb (length (s ++ t)) (length s) ≡ false = ground (arith, length-append s t) in
    rw (input, enough, take-append s t, drop-append s t) (refl, refl, refl, refl)

pub opened-IsRead :
    (c : Settings) (d : Decoder) (s t : Bytes) (non_sync : Bool) (n : ℕ)
    → IsAllowed c (length s) non_sync
    → IsRead d.err
        ((opened c (length s) non_sync >>= buffered c c.check_buffered_literal)
          (at_line (s ++ t) n d))
        s
        t
unfolding at_line at
opened-IsRead c d s t non_sync n (h, h') =
    rw (h, buffered-allowed c c.check_buffered_literal (new_literal (length s) non_sync) _ h')
      (copy_literal-at c s t non_sync _ refl)

module _ {c : Settings} {d : Decoder} where
  pub crlf-at :
      (t : Bytes) (n : ℕ)
      → IsReady c (13 ∷ 10 ∷ t) n d
      → crlf c (at (13 ∷ 10 ∷ t) n d) ≡ (at_line t (n + 1 + 1) d, some tt)
  unfolding crlf at_line
  crlf-at t n r =
      rw (accept_byte-other b' ' refl r, accept_byte-at r, accept_byte-at (tail-IsReady r))

  -- The announcement up to the closing brace, which is then expected
  closed-at :
      (size : ℕ) (non_sync : Bool) (t : Bytes) (n : ℕ)
      → IsReady c (b'}' ∷ 13 ∷ 10 ∷ t) n d
      → (do expect (accept_byte c b'}'); expect (crlf c); opened c size non_sync)
          (at (b'}' ∷ 13 ∷ 10 ∷ t) n d)
        ≡ opened c size non_sync (at_line t (n + 1 + 1 + 1) d)
  closed-at size non_sync t n r = rw (accept_byte-at r, crlf-at t (n + 1) (tail-IsReady r))

  -- Where the side reads no `+`, or none is there
  plus-none :
      (side : ConnSide) (t : Bytes) (n : ℕ)
      → IsReady c (b'}' ∷ t) n d
      → plus c side (at (b'}' ∷ t) n d) ≡ (at (b'}' ∷ t) n d, some false)
  plus-none conn_side_client t n r = refl
  plus-none conn_side_server t n r = rw (accept_byte-other b'+' refl r)

  pub literal_reader-sync :
      (v : ℕ) (t : Bytes) (n : ℕ)
      → v ≤ 1073741824
      → IsReady c (announced false v t) n d
      → literal_reader c (at (announced false v t) n d)
        ≡ opened c v false (at_line t (n + 1 + length (format_uint v) + 1 + 1 + 1) d)
  unfolding literal_reader
  literal_reader-sync v t n h r =
      let large : ltb 1073741824 v ≡ false = ground arith in
      let r' = drop-IsReady (format_uint v) _ _ (tail-IsReady r) in
      rw
        (
          accept_byte-at r,
          number_below-at 9223372036854775807 v b'}' (13 ∷ 10 ∷ t) (n + 1) (omega arith)
              (omega arith) refl (tail-IsReady r),
          plus-none c.side (13 ∷ 10 ∷ t) _ r',
        )
        (rw large (closed-at v false t _ r'))

  pub literal_reader-non_sync :
      (v : ℕ) (t : Bytes) (n : ℕ)
      → c.side ≡ conn_side_server
      → v ≤ 1073741824
      → IsReady c (announced true v t) n d
      → literal_reader c (at (announced true v t) n d)
        ≡ opened c v true (at_line t (n + 1 + length (format_uint v) + 1 + 1 + 1 + 1) d)
  unfolding literal_reader
  literal_reader-non_sync v t n side h r =
      let large : ltb 1073741824 v ≡ false = ground arith in
      let r' = drop-IsReady (format_uint v) _ _ (tail-IsReady r) in
      rw
        (
          accept_byte-at r,
          number_below-at 9223372036854775807 v b'+' (b'}' ∷ 13 ∷ 10 ∷ t) (n + 1) (omega arith)
              (omega arith) refl (tail-IsReady r),
          side,
          accept_byte-at r',
        )
        (rw large (closed-at v true t _ (tail-IsReady r')))

  -- A literal of at most 1 GiB that the checks let pass
  pub literal-IsRead :
      (non_sync : Bool) (s t : Bytes) (n : ℕ)
      → (non_sync ≡ true → c.side ≡ conn_side_server)
      → length s ≤ 1073741824
      → IsAllowed c (length s) non_sync
      → IsReady c (literal_text non_sync s t) n d
      → IsRead d.err (literal c (at (literal_text non_sync s t) n d)) s t
  unfolding literal
  literal-IsRead false s t n side h allowed r =
      rw (literal_reader-sync (length s) (s ++ t) n h r) (opened-IsRead c d s t false _ allowed)
  literal-IsRead true s t n side h allowed r =
      rw (literal_reader-non_sync (length s) (s ++ t) n (side refl) h r)
        (opened-IsRead c d s t true _ allowed)

  pub literal-other :
      (b : ℕ) (t : Bytes) (n : ℕ)
      → (b == b'{') ≡ false
      → IsReady c (b ∷ t) n d
      → literal c (at (b ∷ t) n d) ≡ (at (b ∷ t) n d, none)
  unfolding literal literal_reader
  literal-other b t n h r = rw (accept_byte-other b'{' h r)
