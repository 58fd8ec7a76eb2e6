-- ===== src/Wire/Mailbox.antt =====
-- internal/imapwire: the names of mailboxes, and sets of numbers (encoder.go, decoder.go, num.go)
use go_imap.Prelude.{ℕ, Bool, ◌||◌, [], ◌∷◌, if◌then◌else◌, Option, none, some, length, ◌==◌}
use go_imap.Strconv.{Bytes, codes}
use go_imap.Strconv.Bytes.{same_bytes, to_lower}
use go_imap.NumSet.{Set}
use go_imap.NumSet.Text.{parse_set, set_string}
use go_imap.MemMailbox.Static.{NumSet, seqs, uids, search_res}
use go_imap.MemMailbox.Find.{NumKind, num_kind_seq, num_kind_uid}
use go_imap.Utf7 as Utf7
use go_imap.Wire.{
  Settings, Decoder, Parser, expect_error, return_err, succeed, fail_with, expect, ◌>>=◌,
  is_atom_char, accept_byte, func,
}
use go_imap.Wire.Strings.{expect_astring}
use go_imap.Wire.Encoder.{Options, Encoder, write_string, string, set_err, empty_set}

-- strings.EqualFold(name, "INBOX"): no letter beyond ASCII folds to one of these.
unfoldable pub is_inbox : Bytes → Bool
unfolding same_bytes to_lower
is_inbox name = same_bytes (to_lower name) (codes "inbox")

abbrev pub inbox : Bytes
inbox = codes "INBOX"

-- Encoder.Mailbox
unfoldable pub mailbox : Options → Bytes → Encoder → Encoder
unfolding is_inbox write_string string Utf7.encode
mailbox o name enc =
    if is_inbox name
    then write_string inbox enc
    else string o (if o.quoted_utf8 then name else Utf7.encode name) enc

abbrev pub decoded : Option Bytes → Parser Bytes
decoded (some name) = succeed name
decoded none = fail_with expect_error

-- Decoder.ExpectMailbox
unfoldable pub expect_mailbox : Settings → Parser Bytes
unfolding is_inbox expect_astring Utf7.decode return_err
expect_mailbox c = do
  name ← expect_astring c
  if is_inbox name
      then succeed inbox
      else if c.quoted_utf8
      then succeed name
      else decoded (Utf7.decode name)

abbrev pub of_kind : NumKind → Set → NumSet
of_kind num_kind_seq s = seqs s
of_kind num_kind_uid s = uids s

abbrev pub num_set_string : NumSet → Bytes
num_set_string search_res = b'$' ∷ []
num_set_string (seqs s) = set_string s
num_set_string (uids s) = set_string s

-- Encoder.NumSet
unfoldable pub num_set : NumSet → Encoder → Encoder
unfolding write_string set_err set_string
num_set s enc =
    let text = num_set_string s in
    if length text == 0 then set_err empty_set enc else write_string text enc

-- isNumSetChar
abbrev pub is_num_set_char : ℕ → Bool
is_num_set_char b = b == b'*' || is_atom_char b

abbrev pub parsed_set : NumKind → Option Set → Parser NumSet
parsed_set kind (some s) = succeed (of_kind kind s)
parsed_set kind none = fail_with expect_error

abbrev pub search_res_or : Decoder × Option (Unit {0}) → Parser NumSet → Decoder × Option NumSet
search_res_or (d, some u) p = (d, some search_res)
search_res_or (d, none) p = p d

-- Decoder.ExpectNumSet
unfoldable pub expect_num_set : Settings → NumKind → Parser NumSet
unfolding accept_byte func is_atom_char parse_set return_err
expect_num_set c kind d =
    search_res_or (accept_byte c b'$' d)
      (do s ← expect (func c is_num_set_char); parsed_set kind (parse_set s))

abbrev pub only_seq : NumSet → Parser Set
only_seq (seqs s) = succeed s
only_seq _ = fail_with expect_error

-- Decoder.ExpectSeqSet
unfoldable pub expect_seq_set : Settings → Parser Set
unfolding expect_num_set return_err
expect_seq_set c = do s ← expect_num_set c num_kind_seq; only_seq s
