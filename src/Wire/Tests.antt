-- ===== src/Wire/Tests.antt =====
-- internal/imapwire: concrete inputs
use go_imap.Prelude.{
  ◌≡◌, refl, Bool, ◌&&◌, true, false, none, some, [], ◌∷◌, ◌++◌, arith, inl, length, if◌then◌else◌,
}
use go_imap.Strconv.{Bytes, codes, format_uint, is_digit}
use go_imap.Strconv.Runes.{rune_string}
use go_imap.Utf7.{encode}
use go_imap.Utf7.Units.{text_of}
use go_imap.NumSet.{Set}
use go_imap.NumSet.Text.{set_string}
use go_imap.NumSet.Canon.{IsCanon}
use go_imap.Wire.{
  Settings, Decoder, conn_side_client, conn_side_server, end_of_file, expect_error, func,
  is_atom_char,
}
use go_imap.Wire.Encoder.{Options, clean, astring, is_atom, all_bytes, valid_quoted}
use go_imap.Wire.Strings.{expect_astring}
use go_imap.MemMailbox.Static.{uids}
use go_imap.MemMailbox.Find.{num_kind_uid}
use go_imap.Wire.Mailbox.{
  is_inbox, inbox, mailbox, expect_mailbox, num_set, num_set_string, expect_num_set,
}
use go_imap.Wire.Discard.{discard_line, ends_with_non_sync_literal, skip_line}
use go_imap.Wire.Discard.Laws.{
  announcement, is_line_byte, IsResynced, end_of_line, discard_line-IsResynced,
  discard_line-announced,
}
use go_imap.Wire.Func.{func_lem, valid_prefix, outcome}
use go_imap.Wire.Read.{Takes, IsReady, at}
use go_imap.Wire.RoundTrip.Literal.{IsRead}
use go_imap.Wire.RoundTrip.Astring.{written, written_string, expect_astring-astring}
use go_imap.Wire.RoundTrip.Mailbox.{written_mailbox, expect_mailbox-mailbox}
use go_imap.Wire.RoundTrip.NumSet.{expect_num_set-num_set}

-- A server that limits a command to 64 bytes, and a client
abbrev server : Settings
server = record {
  side = conn_side_server;
  max_size = 64;
  quoted_utf8 = false;
  check_literal = none;
  check_buffered_literal = none;
  ending = end_of_file;
}

abbrev fresh : Decoder
fresh = record {
  input = [];
  err = none;
  literal = false;
  pending_literal = 0;
  discarding = false;
  desynced = false;
  crlf = false;
  list_depth = 0;
  read_bytes = 0;
  uncounted = 0;
}

func_lem_example :
    func server is_digit (at (codes "42 ") 3 fresh)
    ≡ outcome server 3 fresh (valid_prefix is_digit (codes "42 "))
func_lem_example =
    func_lem server is_digit (codes "42 ") 3 fresh
      (record { sound = refl; closed = refl; room = λ h. omega arith })

-- A server without a limit, and a client that writes literals without waiting
abbrev open_server : Settings
open_server = record server { max_size = 0 }

abbrev client : Options
client = record {
  side = conn_side_client;
  quoted_utf8 = false;
  literal_minus = false;
  literal_plus = true;
  answers = none;
}

open_server-IsReady : (s : Bytes) → IsReady open_server s 0 fresh
open_server-IsReady s = record { sound = refl; closed = refl; room = λ h. absurd (cc h) }

-- A text that holds a line feed, which no quoted string can
abbrev two_lines : Bytes
two_lines = b'a' ∷ 10 ∷ b'b' ∷ []

test_written : written client two_lines ≡ b'{' ∷ b'3' ∷ b'+' ∷ b'}' ∷ 13 ∷ 10 ∷ two_lines
unfolding written valid_quoted format_uint is_atom all_bytes is_atom_char written_string
test_written = refl

expect_astring-astring_example :
    (astring client two_lines (clean []) ≡ clean (written client two_lines))
    × IsRead none
        (expect_astring open_server (at (written client two_lines ++ 13 ∷ 10 ∷ []) 0 fresh))
        two_lines
        (13 ∷ 10 ∷ [])
unfolding is_atom_char
expect_astring-astring_example =
    expect_astring-astring client open_server two_lines [] 13 (10 ∷ []) 0 fresh (inl refl)
      (λ _. refl) (omega arith) (refl, refl) refl (open_server-IsReady _)

-- "R&D", which is written as "R&-D"
abbrev r_and_d : Bytes
r_and_d = codes "R&D"

expect_mailbox-mailbox_example :
    (mailbox client (text_of r_and_d) (clean []) ≡ clean (written_mailbox client (text_of r_and_d)))
    × IsRead none
        (expect_mailbox open_server
          (at (written_mailbox client (text_of r_and_d) ++ 13 ∷ []) 0 fresh))
        (if is_inbox (text_of r_and_d) then inbox else text_of r_and_d)
        (13 ∷ [])
unfolding is_atom_char encode text_of rune_string
expect_mailbox-mailbox_example =
    expect_mailbox-mailbox client open_server r_and_d [] 13 [] 0 fresh
      (inl (omega arith), (inl (omega arith), (inl (omega arith), tt))) refl (inl refl) (λ _. refl)
      (omega arith) (refl, refl) refl (open_server-IsReady _)

test_mailbox : (mailbox client (codes "R&D") (clean [])).out ≡ 34 ∷ codes "R&-D" ++ 34 ∷ []
unfolding mailbox
test_mailbox = refl

abbrev numbers : Set
numbers = record { start = 2; stop = 4 } ∷ record { start = 9; stop = 0 } ∷ []

numbers-IsCanon : IsCanon numbers
numbers-IsCanon = omega arith

expect_num_set-num_set_example :
    (num_set (uids numbers) (clean []) ≡ clean (num_set_string (uids numbers)))
    × (expect_num_set open_server num_kind_uid
          (at (num_set_string (uids numbers) ++ 13 ∷ []) 0 fresh)
        ≡ (at (13 ∷ []) (length (num_set_string (uids numbers))) fresh, some (uids numbers)))
unfolding is_atom_char set_string format_uint
expect_num_set-num_set_example =
    expect_num_set-num_set open_server num_kind_uid (uids numbers) [] 13 [] 0 fresh
      (λ e. cc e, numbers-IsCanon) refl refl (open_server-IsReady _)

abbrev all_line_bytes : Bytes → Bool
all_line_bytes [] = true
all_line_bytes (b ∷ s) = is_line_byte b && all_line_bytes s

line_bytes : (s : Bytes) → all_line_bytes s ≡ true → Takes is_line_byte s
line_bytes [] h = tt
line_bytes (b ∷ s) h = (ground (arith, h), line_bytes s (ground (arith, h)))

-- A command failed in a literal of three octets that the client sent without waiting; the line that announced the
-- literal had ended.
abbrev failed : Decoder
failed = record fresh { err = some expect_error; pending_literal = 3 }

discard_line-IsResynced_example : IsResynced failed (codes "b NOOP") (
    discard_line server
      (record (at (codes "x{y" ++ (codes " tail" ++ end_of_line (codes "b NOOP"))) 9 failed) {
        crlf = true;
      }))
unfolding ends_with_non_sync_literal
discard_line-IsResynced_example =
    discard_line-IsResynced server failed (codes "x{y") (codes " tail") (codes "b NOOP") 9 true
      (λ e. cc e) refl (omega arith) (refl, (refl, (refl, (refl, (refl, tt))))) refl
      (record { sound = refl; closed = refl; room = λ h. omega arith })

-- A line with a brace in front of the announcement, of a literal of 42 octets
discard_line-announced_example :
    (discard_line server
      (at ((codes "LOGIN {x " ++ announcement 42) ++ end_of_line (codes "me")) 2 fresh)).desynced
    ≡ true
unfolding format_uint
discard_line-announced_example =
    discard_line-announced server fresh (codes "LOGIN {x ") (codes "me") 42 2 refl
      (line_bytes (codes "LOGIN {x " ++ announcement 42) refl) (omega arith) refl
      (record { sound = refl; closed = refl; room = λ h. omega arith })

-- A name in a literal that is no modified UTF-7: the end of the line that announced the literal counts as the end
-- of the command, so what follows on the line is left to be read as a command.
test_after_literal :
    let d = (expect_mailbox open_server (at (codes "{1+}" ++ 13 ∷ 10 ∷ codes "& x") 0 fresh)).0 in
    (d.err ≡ some expect_error) × ((discard_line open_server d).input ≡ codes " x")
unfolding expect_mailbox discard_line at skip_line
test_after_literal = (refl, refl)
