-- ===== src/Wire.antt =====
-- internal/imapwire/decoder.go: the decoder's state and the elements that need no string. The buffered
-- reader is the list of the bytes that are to come and the error that ends them. A method that stores what
-- it read through a pointer and reports success returns an option; the text of an error is left out.
pub mod Read
pub mod Func
pub mod Tests
pub mod Strings
pub mod Discard
pub mod Encoder
pub mod Mailbox
pub mod RoundTrip
use go_imap.Prelude.{
  ℕ, zero, suc, ◌+◌, ◌-◌, map, Bool, true, false, not, ◌&&◌, ◌||◌, List, [], ◌∷◌, ◌++◌, ltb, leb,
  ◌==◌, if◌then◌else◌, Option, none, some, length,
}
use go_imap.Strconv.{Bytes, codes, is_digit, parse_uint}
use go_imap.Strconv.Bytes.{same_bytes, to_lower}

-- ConnSide
pub data ConnSide : Type 0 where
  conn_side_client conn_side_server : ConnSide

-- What stops a decoder: DecoderExpectError, the two errors of readByte, the ends of the input, and the errors of
-- the two checks of literals
pub data WireError : Type 0 where
  expect_error max_size_exceeded literal_open end_of_file unexpected_eof read_failed refused :
      WireError

-- What the caller sets on a Decoder, and how its input ends. A check that is `none` is nil.
pub record Settings : Type 0 where
  pub side : ConnSide
  pub max_size : ℕ
  pub quoted_utf8 : Bool
  pub check_literal : Option (ℕ → Bool)
  pub check_buffered_literal : Option (ℕ → Bool → Bool)
  pub ending : WireError

-- The state of a Decoder. The source's readBytes is `read_bytes` less `uncounted`, which EOF raises.
pub record Decoder : Type 0 where
  pub input : Bytes
  pub err : Option WireError
  pub literal : Bool
  pub pending_literal : ℕ
  pub discarding : Bool
  pub desynced : Bool
  pub crlf : Bool
  pub list_depth : ℕ
  pub read_bytes : ℕ
  pub uncounted : ℕ

-- A method of the decoder that stores an A and reports whether it did
abbrev pub Parser {ℓ} : Type ℓ → Type ℓ
Parser A = Decoder → Decoder × Option A

-- NewDecoder
unfoldable pub new_decoder : Bytes → Decoder
new_decoder input = record {
  input = input;
  err = none;
  literal = false;
  pending_literal = 0;
  discarding = false;
  desynced = false;
  crlf = false;
  list_depth = 0;
  read_bytes = 0;
  uncounted = 0;
}

-- Decoder.mustUnreadByte, right after the byte was read
unfoldable pub unread : ℕ → Decoder → Decoder
unread b d = record d { input = b ∷ d.input; read_bytes = d.read_bytes - 1 }

abbrev pub first_error : Option WireError → WireError → WireError
first_error none e = e
first_error (some e') e = e'

-- Decoder.returnErr of an error that is not nil
unfoldable pub return_err : WireError → Decoder → Decoder
return_err e d = record d { err = some (first_error d.err e) }

abbrev pub is_some {ℓ} : {A : Type ℓ} → Option A → Bool
is_some none = false
is_some (some a) = true

abbrev pub when : Bool → Option (Unit {0})
when true = some tt
when false = none

module _ {ℓ} {A : Type ℓ} where
  abbrev pub succeed : A → Parser A
  succeed a d = (d, some a)

  -- The method reports false, with an error or without one of its own.
  abbrev pub fail : Parser A
  fail d = (d, none)

  abbrev pub fail_with : WireError → Parser A
  fail_with e d = (return_err e d, none)

  abbrev pub else_try : Decoder × Option A → Parser A → Decoder × Option A
  else_try (d, some a) q = (d, some a)
  else_try (d, none) q = q d

  -- p || q
  abbrev pub or_else : Parser A → Parser A → Parser A
  or_else p q = λ d. else_try (p d) q

  -- Decoder.Expect
  abbrev pub expect : Parser A → Parser A
  expect p = or_else p (fail_with expect_error)

module _ {ℓ κ} {A : Type ℓ} {B : Type κ} where
  abbrev pub and_then : Decoder × Option A → (A → Parser B) → Decoder × Option B
  and_then (d, some a) f = f a d
  and_then (d, none) f = (d, none)

  -- p && q
  infixl 5 ◌>>=◌ ◌>>◌
  abbrev pub ◌>>=◌ : Parser A → (A → Parser B) → Parser B
  p >>= f = λ d. and_then (p d) f

  abbrev pub ◌>>◌ : Parser A → Parser B → Parser B
  p >> q = p >>= λ _. q

-- io.EOF becomes io.ErrUnexpectedEOF.
abbrev pub unexpected : WireError → WireError
unexpected end_of_file = unexpected_eof
unexpected e = e

-- Decoder.ResetCount
unfoldable pub reset_count : Decoder → Decoder
reset_count d = record d { read_bytes = 0; uncounted = 0 }

abbrev pub next_byte : WireError → Bytes → Parser ℕ
next_byte ending [] d = (return_err (unexpected ending) d, none)
next_byte ending (b ∷ rest) d = (record d { input = rest; read_bytes = d.read_bytes + 1 }, some b)

abbrev pub one_of : ℕ → Bytes → Bool
one_of b [] = false
one_of b (x ∷ xs) = b == x || one_of b xs

-- IsAtomChar; a byte is a control character if it is below 32 or one of 127 to 159.
unfoldable pub is_atom_char : ℕ → Bool
is_atom_char b =
    if one_of b (b'(' ∷ b')' ∷ b'{' ∷ b' ' ∷ b'%' ∷ b'*' ∷ 34 ∷ 92 ∷ b']' ∷ [])
    then false
    else not (ltb b 32 || (leb 127 b && leb b 159))

abbrev pub is_astring_char : ℕ → Bool
is_astring_char b = is_atom_char b || b == b']'

module _ (c : Settings) where
  -- Decoder.readByte
  unfoldable pub read_byte : Parser ℕ
  unfolding return_err
  read_byte d =
      if is_some d.err && not d.discarding
      then (d, none)
      else if ltb 0 c.max_size && ltb (c.max_size + d.uncounted) d.read_bytes
      then (return_err max_size_exceeded d, none)
      else if d.literal
      then (return_err literal_open (record d { crlf = false }), none)
      else next_byte c.ending d.input (record d { crlf = false })

  abbrev pub at_end : WireError → Bytes → Decoder → Decoder × Bool
  at_end end_of_file [] d = (d, true)
  at_end e [] d = (return_err e d, false)
  at_end e (b ∷ s) d = (record d { uncounted = d.uncounted + 1 }, false)

  -- Decoder.EOF, which puts back a byte that was not counted
  unfoldable pub eof : Decoder → Decoder × Bool
  unfolding return_err
  eof d = at_end c.ending d.input d

  abbrev pub accepted : ℕ → ℕ → Parser (Unit {0})
  accepted want got d = if got == want then (d, some tt) else (unread got d, none)

  -- Decoder.acceptByte, and Special, which calls it
  unfoldable pub accept_byte : ℕ → Parser (Unit {0})
  unfolding read_byte unread
  accept_byte want = do got ← read_byte; accepted want got

  -- A byte is read and put back.
  unfoldable pub peek_byte : (ℕ → Bool) → Parser (Unit {0})
  unfolding read_byte unread
  peek_byte ok = do b ← read_byte; λ d. (unread b d, when (ok b))

  -- Decoder.NextByteIs
  unfoldable pub next_byte_is : ℕ → Parser (Unit {0})
  unfolding accept_byte unread
  next_byte_is want = do accept_byte want; λ d. (unread want d, some tt)

  abbrev pub after_sp : Decoder × Option (Unit {0}) → Decoder × Option (Unit {0})
  after_sp (d, some u) = peek_byte (λ b. not (b == 13) && not (b == 10)) d
  after_sp (d, none) = peek_byte (λ b. b == b'(') d

  -- Decoder.SP
  unfoldable pub sp : Parser (Unit {0})
  unfolding accept_byte peek_byte
  sp d = after_sp (accept_byte b' ' d)

  abbrev pub line_ended : Parser (Unit {0})
  line_ended d = (record d { crlf = true }, some tt)

  -- Decoder.CRLF
  unfoldable pub crlf : Parser (Unit {0})
  unfolding accept_byte
  crlf d = (accept_byte 10 >> line_ended) (accept_byte 13 (accept_byte b' ' d).0).0

  -- The loop of a method that gathers bytes: `out` is what the builder holds.
  unfoldable pub gather : ℕ → (ℕ → Bool) → Bytes → Parser Bytes
  gather zero valid out = fail
  gather (suc fuel) valid out = do
    b ← read_byte
    elim (valid b) [
      | true ↦ gather fuel valid (out ++ b ∷ [])
      | false ↦ λ d. succeed out (unread b d)
    ]

  abbrev pub not_empty : Bytes → Parser Bytes
  not_empty [] = fail
  not_empty (b ∷ s) = succeed (b ∷ s)

  -- Decoder.Func
  unfoldable pub func : (ℕ → Bool) → Parser Bytes
  unfolding gather
  func valid d = (gather (suc (length d.input)) valid [] >>= not_empty) d

  -- Decoder.Atom
  abbrev pub atom : Parser Bytes
  atom = func is_atom_char

  -- Decoder.Text
  unfoldable pub text : Parser Bytes
  unfolding func
  text = func (λ b. not (b == 13 || b == 10))

  abbrev pub nil_only : Bytes → Parser (Unit {0})
  nil_only s d = if same_bytes s (codes "NIL") then (d, some tt) else fail_with expect_error d

  -- Decoder.ExpectNIL
  unfoldable pub expect_nil : Parser (Unit {0})
  unfolding func is_atom_char same_bytes
  expect_nil = do s ← expect atom; nil_only s

  -- Decoder.DiscardUntilByte
  unfoldable pub discard_until_byte : ℕ → Decoder → Decoder
  unfolding gather
  discard_until_byte until d = (gather (suc (length d.input)) (λ b. not (b == until)) [] d).0

  -- Decoder.numberStr
  unfoldable pub number_str : Parser Bytes
  unfolding func
  number_str = func is_digit

  abbrev pub parsed : Option ℕ → Parser ℕ
  parsed v d = (d, v)

  unfoldable pub number_below : ℕ → Parser ℕ
  unfolding number_str parse_uint
  number_below limit = do s ← number_str; parsed (parse_uint limit s)

  -- Decoder.Number, Number64 and ModSeq
  abbrev pub number : Parser ℕ
  number = number_below 4294967295

  abbrev pub number64 : Parser ℕ
  number64 = number_below 9223372036854775807

  abbrev pub mod_seq : Parser ℕ
  mod_seq = number_below 18446744073709551615

  abbrev pub minus_one : Decoder × Option (Unit {0}) → Decoder × Option ℕ
  minus_one (d, some u) = (expect (accept_byte b'1') >> succeed 0) d
  minus_one (d, none) = expect number d

  -- Decoder.ExpectBodyFldOctets
  unfoldable pub expect_body_fld_octets : Parser ℕ
  unfolding accept_byte number_below
  expect_body_fld_octets d = minus_one (accept_byte b'-' d)

  abbrev pub nil_as_zero : Bytes → Parser ℕ
  nil_as_zero s d = if same_bytes (to_lower s) (codes "nil") then (d, some 0) else (d, none)

  -- Decoder.ExpectBodyFldLines
  unfoldable pub expect_body_fld_lines : Parser ℕ
  unfolding number_below func is_atom_char same_bytes to_lower
  expect_body_fld_lines = or_else number64 (expect (atom >>= nil_as_zero))
