-- ===== src/Wire/Strings.antt =====
-- internal/imapwire/decoder.go: quoted strings, literals and what is read as one or the other, and
-- limit_reader.go
use go_imap.Prelude.{
  ℕ, zero, suc, ◌+◌, ◌-◌, Bool, true, false, [], ◌∷◌, ◌++◌, ltb, ◌==◌, if◌then◌else◌, Option, none,
  some, length, take, drop,
}
use go_imap.Strconv.{Bytes, codes}
use go_imap.Strconv.Bytes.{same_bytes}
use go_imap.Wire.{
  ConnSide, conn_side_client, conn_side_server, expect_error, refused, unexpected, Settings,
  Decoder, Parser, return_err, is_some, succeed, fail, fail_with, or_else, expect, ◌>>=◌, ◌>>◌,
  is_atom_char, is_astring_char, read_byte, accept_byte, crlf, func, atom, number64, number_below,
}

-- A LiteralReader of the decoder's input: `left` is what its limitReader has left.
pub record LiteralReader : Type 0 where
  pub size : ℕ
  pub non_sync : Bool
  pub left : ℕ

abbrev pub new_literal : ℕ → Bool → LiteralReader
new_literal size non_sync = record { size = size; non_sync = non_sync; left = size }

-- LiteralReader.cancel without an error
unfoldable pub cancel : LiteralReader → Decoder → Decoder
cancel lit d = record d {
  literal = false;
  pending_literal = d.pending_literal + (if lit.non_sync then lit.left else 0);
}

-- Whether the method reports true, in place of what it stores
abbrev pub tried {ℓ} : {A : Type ℓ} → Decoder × Option A → Decoder × Option Bool
tried (d, r) = (d, some (is_some r))

abbrev pub refuses : Option (ℕ → Bool) → ℕ → Bool
refuses none size = false
refuses (some check) size = check size

module _ (c : Settings) where
  -- The loop of Decoder.quoted
  unfoldable pub quoted_rest : ℕ → Bytes → Parser Bytes
  quoted_rest zero out = fail
  quoted_rest (suc fuel) out = do
    b ← read_byte c
    elim (b == 34) [
      | true ↦ succeed out
      | false ↦ elim (b == 92) [
        | true ↦ do escaped ← read_byte c; quoted_rest fuel (out ++ escaped ∷ [])
        | false ↦ quoted_rest fuel (out ++ b ∷ [])
      ]
    ]

  -- At most so many quotes are skipped, without a look at the decoder's error.
  abbrev pub drop_quotes : ℕ → Bytes → Bytes
  drop_quotes zero s = s
  drop_quotes (suc k) [] = []
  drop_quotes (suc k) (b ∷ s) = if b == 34 then drop_quotes k s else b ∷ s

  unfoldable pub skip_stray : Bool → Bytes → Parser Bytes
  skip_stray false out d = (d, some out)
  skip_stray true out d =
      let rest = drop_quotes 2 d.input in
      (
        record d { input = rest; read_bytes = d.read_bytes + (length d.input - length rest) },
        some out,
      )

  -- Decoder.quoted; Quoted is `quoted false`.
  unfoldable pub quoted : Bool → Parser Bytes
  unfolding accept_byte quoted_rest skip_stray
  quoted allow_stray = do
    accept_byte c 34
    out ← λ d. quoted_rest (suc (length d.input)) [] d
    skip_stray allow_stray out

  abbrev pub plus : ConnSide → Parser Bool
  plus conn_side_client d = (d, some false)
  plus conn_side_server d = tried (accept_byte c b'+' d)

  -- The end of Decoder.LiteralReader: the literal is open, until CheckLiteralFunc refuses it.
  abbrev pub opened : ℕ → Bool → Parser LiteralReader
  opened size non_sync d =
      let lit = new_literal size non_sync in
      let d' = record d { literal = true } in
      if refuses c.check_literal size
      then (return_err refused (cancel lit d'), none)
      else (d', some lit)

  abbrev pub out_of_bounds : Bool → Parser LiteralReader
  out_of_bounds non_sync d =
      fail_with expect_error (if non_sync then record d { desynced = true } else d)

  -- Decoder.LiteralReader
  unfoldable pub literal_reader : Parser LiteralReader
  unfolding accept_byte number_below crlf return_err cancel
  literal_reader = do
    accept_byte c b'{'
    size ← expect (number64 c)
    non_sync ← plus c.side
    if ltb 1073741824 size
        then out_of_bounds non_sync
        else (do expect (accept_byte c b'}'); expect (crlf c); opened size non_sync)

  -- io.Copy of the whole literal: a short input fails with what ends it.
  unfoldable pub copy_literal : LiteralReader → Parser Bytes
  unfolding cancel return_err
  copy_literal lit d =
      if ltb (length d.input) lit.left
      then (let lit' = record lit { left = lit.left - length d.input } in
          fail_with (unexpected c.ending) (cancel lit' (record d { input = [] })))
      else (
        cancel (record lit { left = 0 }) (record d { input = drop lit.left d.input }),
        some (take lit.left d.input),
      )

  -- Decoder.Literal
  abbrev pub buffered : Option (ℕ → Bool → Bool) → LiteralReader → Parser Bytes
  buffered none lit d =
      if ltb 4194304 lit.size then fail_with expect_error (cancel lit d) else copy_literal lit d
  buffered (some check) lit d =
      if check lit.size lit.non_sync then fail_with refused (cancel lit d) else copy_literal lit d

  unfoldable pub literal : Parser Bytes
  unfolding literal_reader copy_literal cancel return_err
  literal = do lit ← literal_reader; buffered c.check_buffered_literal lit

  -- Decoder.String
  unfoldable pub string : Parser Bytes
  unfolding quoted literal
  string = or_else (quoted false) literal

  -- Decoder.ExpectAString
  unfoldable pub expect_astring : Parser Bytes
  unfolding quoted literal func is_atom_char
  expect_astring = or_else (quoted false) (or_else literal (expect (func c is_astring_char)))

  abbrev pub string_or_stray : Bool → Parser Bytes
  string_or_stray allow_stray = or_else (quoted allow_stray) literal

  abbrev pub nil_or : Decoder × Option Bytes → Parser Bytes → Decoder × Option Bytes
  nil_or (d, some s) p =
      if same_bytes s (codes "NIL") then (d, some []) else fail_with expect_error d
  nil_or (d, none) p = p d

  -- Decoder.ExpectNString is `expect_nstring false`, ExpectNStringAllowStrayQuotes is `expect_nstring true`.
  unfoldable pub expect_nstring : Bool → Parser Bytes
  unfolding quoted literal func is_atom_char same_bytes
  expect_nstring allow_stray d = nil_or (atom c d) (expect (string_or_stray allow_stray))

  -- Decoder.ExpectString is `expect_string false`, ExpectStringAllowStrayQuotes is `expect_string true`.
  unfoldable pub expect_string : Bool → Parser Bytes
  unfolding quoted literal
  expect_string allow_stray = expect (string_or_stray allow_stray)
