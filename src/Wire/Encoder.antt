-- ===== src/Wire/Encoder.antt =====
-- internal/imapwire/encoder.go: the encoder. The buffered writer is the text written so far, and takes all
-- that it is given; the answer to a continuation request is an argument.
use go_imap.Prelude.{
  ℕ, Bool, true, false, not, ◌&&◌, ◌||◌, [], ◌∷◌, ◌++◌, ltb, ◌==◌, if◌then◌else◌, Option, none,
  some, length,
}
use go_imap.Strconv.{Bytes, codes, format_uint}
use go_imap.Strconv.Bytes.{same_bytes}
use go_imap.Wire.{ConnSide, conn_side_client, conn_side_server, is_atom_char}

pub data EncodeError : Type 0 where
  literal_open cannot_sync cancelled empty_set invalid_flag invalid_attr : EncodeError

-- What the caller sets on an Encoder. `answers` is what a continuation request that NewContinuationRequest
-- makes is answered with (true: Done), or `none` if it makes none.
pub record Options : Type 0 where
  pub side : ConnSide
  pub quoted_utf8 : Bool
  pub literal_minus : Bool
  pub literal_plus : Bool
  pub answers : Option Bool

-- The state of an Encoder
pub record Encoder : Type 0 where
  pub out : Bytes
  pub err : Option EncodeError
  pub literal : Bool

-- An encoder that has written this and is in good order; NewEncoder makes `clean []`.
abbrev pub clean : Bytes → Encoder
clean out = record { out = out; err = none; literal = false }

abbrev pub first_error : Option EncodeError → EncodeError → Option EncodeError
first_error none e = some e
first_error (some e') e = some e'

-- Encoder.setErr
unfoldable pub set_err : EncodeError → Encoder → Encoder
set_err e enc = record enc { err = first_error enc.err e }

abbrev write : Option EncodeError → Bytes → Encoder → Encoder
write (some e) s enc = enc
write none s enc =
    if enc.literal
    then record enc { err = some literal_open }
    else record enc { out = enc.out ++ s }

-- Encoder.writeString, and Atom and Text, which call it
unfoldable pub write_string : Bytes → Encoder → Encoder
write_string s enc = write enc.err s enc

abbrev escape : ℕ → Bytes → Bytes
escape b rest = if b == 34 || b == 92 then 92 ∷ b ∷ rest else b ∷ rest

unfoldable pub escaped : Bytes → Bytes
escaped [] = 34 ∷ []
escaped (b ∷ s) = escape b (escaped s)

-- Encoder.Quoted
unfoldable pub quoted : Bytes → Encoder → Encoder
unfolding write_string escaped
quoted s = write_string (34 ∷ escaped s)

-- Encoder.Number; Number64 and ModSeq write alike.
unfoldable pub number : ℕ → Encoder → Encoder
unfolding write_string format_uint
number v = write_string (format_uint v)

unfoldable pub all_bytes : (ℕ → Bool) → Bytes → Bool
all_bytes ok [] = true
all_bytes ok (b ∷ s) = ok b && all_bytes ok s

-- isAtom
unfoldable pub is_atom : Bytes → Bool
unfolding all_bytes is_atom_char
is_atom [] = false
is_atom (b ∷ s) = all_bytes is_atom_char (b ∷ s)

abbrev pub is_client : ConnSide → Bool
is_client conn_side_client = true
is_client conn_side_server = false

-- The octets go to the buffered writer itself, and the literal writer is closed.
abbrev pub payload : Bytes → Encoder → Encoder
payload s enc = record enc { out = enc.out ++ s; literal = false }

-- After the request is answered
abbrev pub answered : Bool → Option EncodeError → Bytes → Encoder → Encoder
answered granted (some e) s enc = set_err e enc
answered true none s enc = payload s enc
answered false none s enc = set_err cancelled enc

module _ (o : Options) where
  abbrev pub quotable : ℕ → Bool
  quotable b = if b == 0 || b == 13 || b == 10 then false else not (not o.quoted_utf8 && ltb 127 b)

  -- Encoder.validQuoted
  unfoldable pub valid_quoted : Bytes → Bool
  unfolding all_bytes
  valid_quoted s = if ltb 4096 (length s) then false else all_bytes quotable s

  -- What Encoder.Literal announces
  abbrev pub announce : Bool → ℕ → Encoder → Encoder
  announce sync size enc =
      let enc' = number size (write_string (codes "{") enc) in
      let enc'' = if not sync && is_client o.side then write_string (codes "+") enc' else enc' in
      write_string (13 ∷ 10 ∷ []) (write_string (codes "}") enc'')

  abbrev pub sync_literal : Option Bool → Bytes → Encoder → Encoder
  sync_literal none s enc = set_err cannot_sync enc
  sync_literal (some granted) s enc =
      let enc' = announce true (length s) enc in answered granted enc'.err s enc'

  -- Encoder.stringLiteral, with the Encoder.Literal and the literalWriter that it uses
  unfoldable pub string_literal : Bytes → Encoder → Encoder
  unfolding number write_string set_err
  string_literal s enc =
      if is_client o.side && (not o.literal_minus || ltb 4096 (length s)) && not o.literal_plus
      then sync_literal o.answers s enc
      else payload s (announce false (length s) enc)

  -- Encoder.String
  unfoldable pub string : Bytes → Encoder → Encoder
  unfolding valid_quoted string_literal quoted
  string s enc = if not (valid_quoted s) then string_literal s enc else quoted s enc

  -- Encoder.AString
  unfoldable pub astring : Bytes → Encoder → Encoder
  unfolding is_atom string write_string
  astring s enc = if is_atom s then write_string s enc else string s enc

abbrev valid_rest : Bytes → Bool
valid_rest [] = true
valid_rest (b ∷ s) = if b == 92 then false else is_atom_char b && valid_rest s

-- isValidFlag
unfoldable pub is_valid_flag : Bytes → Bool
unfolding is_atom_char
is_valid_flag [] = false
is_valid_flag (b ∷ s) = if b == 92 then valid_rest s else is_atom_char b && valid_rest s

-- Encoder.Flag
unfoldable pub flag : Bytes → Encoder → Encoder
unfolding is_valid_flag same_bytes write_string set_err
flag f enc =
    if not (same_bytes f (92 ∷ b'*' ∷ [])) && not (is_valid_flag f)
    then set_err invalid_flag enc
    else write_string f enc

abbrev starts_with_backslash : Bytes → Bool
starts_with_backslash [] = false
starts_with_backslash (b ∷ s) = b == 92

-- Encoder.MailboxAttr
unfoldable pub mailbox_attr : Bytes → Encoder → Encoder
unfolding is_valid_flag write_string set_err
mailbox_attr a enc =
    if not (starts_with_backslash a) || not (is_valid_flag a)
    then set_err invalid_attr enc
    else write_string a enc

-- The text of Encoder.NumSet
unfoldable pub num_set_text : Bytes → Encoder → Encoder
unfolding write_string set_err
num_set_text s enc = if length s == 0 then set_err empty_set enc else write_string s enc
