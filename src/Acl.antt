-- ===== src/Acl.antt =====
-- acl.go and internal/acl.go: sets of access rights. A right is a byte.
pub mod Laws
use go_imap.Prelude.{
  ℕ, Bool, true, false, not, ◌&&◌, ◌||◌, List, [], ◌∷◌, ◌++◌, ltb, ◌==◌, if◌then◌else◌, Option,
  none, some,
}
use go_imap.Strconv.{Bytes, codes}
use go_imap.Strconv.Bytes.{same_bytes}
use go_imap.Strconv.Runes.{rune_string}
use go_imap.MemMailbox.Search.{has_prefix, contains_text}

abbrev pub has_byte : ℕ → Bytes → Bool
has_byte c [] = false
has_byte c (x ∷ s) = x == c || has_byte c s

-- strings.ContainsRune: a rune in ASCII is a byte, any other is searched for in UTF-8.
unfoldable pub contains_rune : Bytes → ℕ → Bool
unfolding contains_text rune_string
contains_rune s r = if ltb r 128 then has_byte r s else contains_text s (rune_string r)

-- The loop of RightSet.Add
unfoldable pub add_rights : Bytes → Bytes → Bytes → Bytes
unfolding contains_rune
add_rights r [] new = new
add_rights r (x ∷ rights) new =
    add_rights r rights (if not (contains_rune r x) then new ++ x ∷ [] else new)

-- RightSet.Add
unfoldable pub rights_add : Bytes → Bytes → Bytes
unfolding add_rights
rights_add r rights = add_rights r rights r

-- RightSet.Remove
unfoldable pub rights_remove : Bytes → Bytes → Bytes
unfolding contains_rune
rights_remove [] rights = []
rights_remove (x ∷ r) rights =
    let rest = rights_remove r rights in if not (contains_rune rights x) then x ∷ rest else rest

unfoldable pub rights_within : Bytes → Bytes → Bool
unfolding contains_rune
rights_within [] s = true
rights_within (x ∷ r) s = contains_rune s x && rights_within r s

-- RightSet.Equal
unfoldable pub rights_equal : Bytes → Bytes → Bool
unfolding rights_within
rights_equal rs1 rs2 = rights_within rs1 rs2 && rights_within rs2 rs1

-- RightSetAll
abbrev pub right_set_all : Bytes
right_set_all = codes "lrswipkxtea"

-- RightsIdentifierAnyone
abbrev pub rights_identifier_anyone : Bytes
rights_identifier_anyone = codes "anyone"

-- NewRightsIdentifierUsername; `none` is the error for a reserved name.
unfoldable pub new_rights_identifier_username : Bytes → Option Bytes
unfolding same_bytes has_prefix
new_rights_identifier_username username =
    if same_bytes username rights_identifier_anyone || has_prefix username (b'-' ∷ [])
    then none
    else some username

-- RightModification
pub data RightModification : Type 0 where
  replace_rights add_these remove_these : RightModification

-- FormatRights
unfoldable pub format_rights : RightModification → Bytes → Bytes
format_rights replace_rights rs = rs
format_rights add_these rs = b'+' ∷ rs
format_rights remove_these rs = b'-' ∷ rs
