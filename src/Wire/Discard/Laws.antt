-- ===== src/Wire/Discard/Laws.antt =====
-- internal/imapwire/decoder.go: where Decoder.DiscardLine leaves the input
use go_imap.Prelude.{
  ℕ, suc, ◌+◌, ◌≤◌, ◌<◌, ◌≡◌, refl, Bool, true, false, not, ◌&&◌, ◌||◌, [], ◌∷◌, ◌++◌, length,
  length-append, drop, drop-append, arith, ltb, ◌==◌, ◌⊎◌, ◌∙◌, ◌-◌, ◌^◌, sym, ap, append_assoc,
  take-append, none, some, All,
}
use go_imap.Strconv.{Bytes, codes, format_uint, parse_uint}
use go_imap.Strconv.Bytes.{same_bytes_iff}
use go_imap.Strconv.Laws.{IsDigit, format_uint-IsDigit, parse_uint-format_uint}
use go_imap.ListMatch.{has_suffix}
use go_imap.Wire.{conn_side_server, Settings, Decoder, text, is_some}
use go_imap.Wire.Discard.{
  after_brace, parses_int, sized, discard_line, skip_line, skip_pending, line_skipped,
  ends_with_non_sync_literal, is_server,
}
use go_imap.Wire.Read.{IsReady, at, Takes, func-at, func-stop, drop-IsReady, add_zero}
use go_imap.Wire.RoundTrip.Literal.{at_line, crlf-at}

-- A byte of a line
abbrev pub is_line_byte : ℕ → Bool
is_line_byte b = not (b == 13 || b == 10)

abbrev pub end_of_line : Bytes → Bytes
end_of_line rest = 13 ∷ 10 ∷ rest

-- The state in which the decoder discards
abbrev pub discard : Decoder → Decoder
discard d = record d { discarding = true }

-- The next command starts at `rest`, and nothing else has changed but what was skipped.
abbrev pub IsResynced : Decoder → Bytes → Decoder → Type 0
IsResynced d rest d' =
    (d'.input ≡ rest)
    × (d'.desynced ≡ d.desynced)
    × (d'.err ≡ d.err)
    × (d'.pending_literal ≡ 0)
    × (d'.discarding ≡ false)

abbrev stop_discarding : Decoder → Decoder
stop_discarding d = record d { discarding = false }

module _ {c : Settings} {d : Decoder} where
  line_skipped-at :
      (line rest : Bytes) (n : ℕ)
      → Takes is_line_byte line
      → (is_server c.side && ends_with_non_sync_literal line) ≡ false
      → IsReady c (line ++ end_of_line rest) n d
      → line_skipped c (text c (at (line ++ end_of_line rest) n d))
        ≡ at_line rest (n + length line + 1 + 1) d
  unfolding text
  line_skipped-at [] rest n v safe r =
      rw (func-stop is_line_byte refl r, crlf-at rest n r, safe) (rw (add_zero n))
  line_skipped-at (b ∷ line) rest n v safe r = rw (
    func-at is_line_byte b line (10 ∷ rest) v refl r,
    crlf-at rest (n + suc (length line)) (drop-IsReady (b ∷ line) (end_of_line rest) n r),
    safe,
  )

  skip_line-at :
      (line rest : Bytes) (n : ℕ)
      → Takes is_line_byte line
      → (is_server c.side && ends_with_non_sync_literal line) ≡ false
      → IsReady c (line ++ end_of_line rest) n d
      → skip_line c (at (line ++ end_of_line rest) n d) ≡ at_line rest (n + length line + 1 + 1) d
  unfolding skip_line at
  skip_line-at line rest n v safe r = line_skipped-at line rest n v safe r

-- The octets are not counted.
skip_pending-at :
    (c : Settings) (d : Decoder) (octets line rest : Bytes) (n : ℕ) (ended : Bool)
    → d.pending_literal ≡ length octets
    → length octets ≤ 65536
    → Takes is_line_byte line
    → (is_server c.side && ends_with_non_sync_literal line) ≡ false
    → IsReady c (octets ++ (line ++ end_of_line rest)) n d
    → skip_pending c (record (at (octets ++ (line ++ end_of_line rest)) n d) { crlf = ended })
      ≡ at_line rest (n + length line + 1 + 1) (record d { pending_literal = 0 })
unfolding skip_pending at
skip_pending-at c d octets line rest n ended e small v safe r =
    let s = line ++ end_of_line rest in
    let allowed : ltb 65536 d.pending_literal ≡ false = ground arith in
    let enough : ltb (length (octets ++ s)) d.pending_literal ≡ false =
      ground (arith, length-append octets s) in
    let skipped : drop d.pending_literal (octets ++ s) ≡ s = rw e (drop-append octets s) in
    rw (allowed, enough, skipped)
      (skip_line-at {c = c} {d = record d { pending_literal = 0 }} line rest n v safe (record {
        sound = r.sound;
        closed = r.closed;
        room = λ h. omega (arith, r.room h, length-append octets s);
      }))

-- DiscardLine, of a decoder that is ready to read, skips of what is left of a command the octets of an abandoned
-- literal (at most 64 KiB) and the line behind them, and leaves the input at the next command, after an error
-- too; unless the line, on a server, ends in an announcement of a non-synchronizing literal. Where octets are left,
-- this holds whether or not the decoder takes the line for ended (`crlf`), as it does behind the announcement of
-- the literal; where none are, the line must not be taken for ended.
pub discard_line-IsResynced :
    (c : Settings) (d : Decoder) (octets line rest : Bytes) (n : ℕ) (ended : Bool)
    → (octets ≡ [] → ended ≡ false)
    → d.pending_literal ≡ length octets
    → length octets ≤ 65536
    → Takes is_line_byte line
    → (is_server c.side && ends_with_non_sync_literal line) ≡ false
    → IsReady c (octets ++ (line ++ end_of_line rest)) n (discard d)
    → IsResynced d rest
        (discard_line c (record (at (octets ++ (line ++ end_of_line rest)) n d) { crlf = ended }))
unfolding discard_line skip_pending at at_line
discard_line-IsResynced c d [] line rest n ended open_line e small v safe r =
    let no_literal : ltb 0 d.pending_literal ≡ false = ground arith in
    rw (no_literal, open_line refl, skip_line-at {d = discard d} line rest n v safe r)
      (refl, refl, refl, e, refl)
discard_line-IsResynced c d (b ∷ octets) line rest n ended open_line e small v safe r =
    let literal_left : ltb 0 d.pending_literal ≡ true = ground arith in
    rw (literal_left, skip_pending-at c (discard d) (b ∷ octets) line rest n ended e small v safe r)
      (refl, refl, refl, refl, refl)

-- A literal that is too large, or of which the input ends before the octets do, leaves a stream that is given up.
pub discard_line-desynced :
    (c : Settings) (d : Decoder)
    → (65536 < d.pending_literal) ⊎ (length d.input < d.pending_literal)
    → ((discard_line c d).desynced ≡ true)
      × ((discard_line c d).pending_literal ≡ 0)
      × ((discard_line c d).discarding ≡ false)
unfolding discard_line skip_pending
discard_line-desynced c d h = ground (arith, h)

line_skipped-announced :
    (c : Settings) (d : Decoder) (line rest : Bytes) (n : ℕ)
    → Takes is_line_byte line
    → c.side ≡ conn_side_server
    → ends_with_non_sync_literal line ≡ true
    → IsReady c (line ++ end_of_line rest) n d
    → (line_skipped c (text c (at (line ++ end_of_line rest) n d))).desynced ≡ true
unfolding text ends_with_non_sync_literal has_suffix
line_skipped-announced c d [] rest n v side e r = cc e
line_skipped-announced c d (b ∷ line) rest n v side e r =
    rw (func-at is_line_byte b line (10 ∷ rest) v refl r, side, e)

-- `{n+}`
abbrev pub announcement : ℕ → Bytes
announcement n = b'{' ∷ (format_uint n ++ codes "+}")

after_brace-digits :
    (s t : Bytes) → All IsDigit s → after_brace t ≡ none → after_brace (s ++ t) ≡ none
unfolding after_brace
after_brace-digits [] t h e = e
after_brace-digits (b ∷ s) t ((lo, hi), h) e =
    let other : (b == b'{') ≡ false = ground arith in rw (after_brace-digits s t h e, other) refl

after_brace-last : (p t : Bytes) → after_brace t ≡ none → after_brace (p ++ b'{' ∷ t) ≡ some t
unfolding after_brace
after_brace-last [] t e = rw e refl
after_brace-last (b ∷ p) t e = rw (after_brace-last p t e) refl

parses_int-digits :
    (s : Bytes) → All IsDigit s → parses_int s ≡ is_some (parse_uint 9223372036854775807 s)
unfolding parses_int parse_uint
parses_int-digits [] h = refl
parses_int-digits (b ∷ s) ((lo, hi), h) =
    let no_minus : (b == b'-') ≡ false = ground arith in
    let no_plus : (b == b'+') ≡ false = ground arith in rw (no_minus, no_plus) refl

parses_int-format_uint : (n : ℕ) → n < 2 ^ 63 → parses_int (format_uint n) ≡ true
parses_int-format_uint n h =
    let read = parse_uint-format_uint 9223372036854775807 n (omega arith) (omega arith) in
    parses_int-digits (format_uint n) (format_uint-IsDigit n) ∙ rw read refl

sized-announced : (n : ℕ) → n < 2 ^ 63 → sized (some (format_uint n ++ codes "+}")) ≡ true
sized-announced n h =
    let size : length (format_uint n ++ codes "+}") - 2 ≡ length (format_uint n) =
      omega (arith, length-append (format_uint n) (codes "+}")) in
    rw (size, take-append (format_uint n) (codes "+}")) (parses_int-format_uint n h)

has_suffix-append : (p s : Bytes) → has_suffix (p ++ s) s ≡ true
unfolding has_suffix
has_suffix-append p s =
    let rest : length (p ++ s) - length s ≡ length p = omega (arith, length-append p s) in
    rw (rest, drop-append p s) (ground (arith, length-append p s, same_bytes_iff s s))

announcement-append :
    (p : Bytes) (n : ℕ) → p ++ announcement n ≡ (p ++ b'{' ∷ format_uint n) ++ codes "+}"
announcement-append p n = sym (append_assoc p (b'{' ∷ format_uint n) (codes "+}"))

ends_with_non_sync_literal-announced :
    (p : Bytes) (n : ℕ) → n < 2 ^ 63 → ends_with_non_sync_literal (p ++ announcement n) ≡ true
unfolding ends_with_non_sync_literal
ends_with_non_sync_literal-announced p n h =
    let t = format_uint n ++ codes "+}" in
    let suffix : has_suffix (p ++ announcement n) (codes "+}") ≡ true =
      ap (λ s. has_suffix s (codes "+}")) (announcement-append p n)
      ∙ has_suffix-append (p ++ b'{' ∷ format_uint n) (codes "+}") in
    let brace = after_brace-last p t (
      after_brace-digits (format_uint n) (codes "+}") (format_uint-IsDigit n)
        (unfold after_brace in refl)) in
    rw (suffix, brace) (sized-announced n h)

-- On a server, DiscardLine of a line that ends in the announcement `{n+}` of a non-synchronizing literal, of any size
-- below 2^63 and with whatever stands in front of it, braces too, leaves a stream that is given up.
pub discard_line-announced :
    (c : Settings) (d : Decoder) (p rest : Bytes) (n k : ℕ)
    → d.pending_literal ≡ 0
    → Takes is_line_byte (p ++ announcement n)
    → n < 2 ^ 63
    → c.side ≡ conn_side_server
    → IsReady c ((p ++ announcement n) ++ end_of_line rest) k (discard d)
    → (discard_line c (at ((p ++ announcement n) ++ end_of_line rest) k d)).desynced ≡ true
unfolding discard_line skip_line at
discard_line-announced c d p rest n k e v h side r =
    let no_literal : ltb 0 d.pending_literal ≡ false = ground arith in
    let ends = ends_with_non_sync_literal-announced p n h in
    rw no_literal (line_skipped-announced c (discard d) (p ++ announcement n) rest k v side ends r)
