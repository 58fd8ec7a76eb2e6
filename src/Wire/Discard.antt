-- ===== src/Wire/Discard.antt =====
-- internal/imapwire/decoder.go: Decoder.DiscardLine, which finds the next command after an error
pub mod Laws
use go_imap.Prelude.{
  ℕ, ◌-◌, Bool, true, false, not, ◌&&◌, ◌||◌, List, [], ◌∷◌, ltb, leb, ◌==◌, if◌then◌else◌, Option,
  none, some, length, take, drop,
}
use go_imap.Strconv.{Bytes, codes, parse_uint}
use go_imap.ListMatch.{has_suffix}
use go_imap.Wire.{
  ConnSide, conn_side_client, conn_side_server, Settings, Decoder, return_err, is_some, crlf, text,
}

-- What follows the last `{`
unfoldable pub after_brace : Bytes → Option Bytes
after_brace [] = none
after_brace (b ∷ s) = elim (after_brace s) [
  | some t ↦ some t
  | none ↦ if b == b'{' then some s else none
]

-- strconv.ParseInt(s, 10, 64) succeeds.
unfoldable pub parses_int : Bytes → Bool
unfolding parse_uint
parses_int [] = false
parses_int (b ∷ s) =
    if b == b'-'
    then is_some (parse_uint 9223372036854775808 s)
    else if b == b'+'
    then is_some (parse_uint 9223372036854775807 s)
    else is_some (parse_uint 9223372036854775807 (b ∷ s))

abbrev pub sized : Option Bytes → Bool
sized none = false
sized (some t) = parses_int (take (length t - 2) t)

-- endsWithNonSyncLiteral
unfoldable pub ends_with_non_sync_literal : Bytes → Bool
unfolding after_brace parses_int has_suffix
ends_with_non_sync_literal s =
    if not (has_suffix s (codes "+}")) then false else sized (after_brace s)

abbrev pub text_or_empty : Option Bytes → Bytes
text_or_empty none = []
text_or_empty (some s) = s

abbrev pub is_server : ConnSide → Bool
is_server conn_side_client = false
is_server conn_side_server = true

module _ (c : Settings) where
  abbrev pub line_skipped : Decoder × Option Bytes → Decoder
  line_skipped (d, s) =
      let d' = (crlf c d).0 in
      if is_server c.side && ends_with_non_sync_literal (text_or_empty s)
      then record d' { desynced = true }
      else d'

  unfoldable pub skip_line : Decoder → Decoder
  unfolding crlf text ends_with_non_sync_literal
  skip_line d = if d.crlf then d else line_skipped (text c d)

  -- Octets of an abandoned literal are on the wire.
  unfoldable pub skip_pending : Decoder → Decoder
  unfolding return_err
  skip_pending d =
      let n = d.pending_literal in
      let d' = record d { pending_literal = 0 } in
      if ltb 65536 n
      then record d' { desynced = true }
      else if ltb (length d.input) n
      then record (return_err c.ending (record d' { input = [] })) { desynced = true }
      else skip_line (record d' { input = drop n d.input; crlf = false })

  -- Decoder.DiscardLine
  unfoldable pub discard_line : Decoder → Decoder
  discard_line d =
      let d' = record d { discarding = true } in
      record (if ltb 0 d.pending_literal then skip_pending d' else skip_line d') {
        discarding = false;
      }
