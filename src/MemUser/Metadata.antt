-- ===== src/MemUser/Metadata.antt =====
-- imapserver/imapmemserver/session.go: the annotations of the server and of mailboxes, by GetMetadata. Change has SetMetadata.
-- A value is never nil in the maps, as setMetadata deletes an entry in place of storing nil.
pub mod Change
pub mod Depth
pub mod Laws
mod Tests
use go_imap.Prelude.{
  ℕ, ◌%◌, Bool, true, false, not, ◌&&◌, ◌||◌, List, [], ◌∷◌, ◌++◌, ltb, ◌==◌, if◌then◌else◌, Option,
  none, some, length, take, drop, map,
}
use go_imap.NumSet.{u32_mod}
use go_imap.Strconv.{Bytes}
use go_imap.Strconv.Bytes.{same_bytes}
use go_imap.Strconv.Sort.{sort_texts}
use go_imap.Acl.{has_byte}
use go_imap.MemUser.{
  User, Entry, Event, mailbox_metadata_change, server_metadata_change, update_entry,
}
use go_imap.MemUser.Names.{lookup, put, remove}
use go_imap.MemUser.Access.{mailbox_at}

abbrev pub Annotations : Type 0
Annotations = List (Bytes × Bytes)

-- imap.GetMetadataDepth
pub data GetMetadataDepth : Type 0 where
  depth_zero depth_one depth_infinity : GetMetadataDepth

-- imap.GetMetadataOptions
pub record GetMetadataOptions : Type 0 where
  pub max_size : Option ℕ
  pub depth : GetMetadataDepth

-- What follows the requested name and a slash in the name of an entry
abbrev pub after_slash : Bytes → Option Bytes
after_slash [] = none
after_slash (c ∷ rest) = if c == b'/' then some rest else none

unfoldable pub remainder : Bytes → Bytes → Option Bytes
unfolding same_bytes
remainder entry_name requested =
    if ltb (length requested) (length entry_name)
      && same_bytes (take (length requested) entry_name) requested
    then after_slash (drop (length requested) entry_name)
    else none

abbrev pub is_below : GetMetadataDepth → Option Bytes → Bool
is_below depth_zero o = false
is_below depth none = false
is_below depth_one (some rest) = not (has_byte b'/' rest)
is_below depth_infinity (some rest) = true

abbrev pub depth_of : Option GetMetadataOptions → GetMetadataDepth
depth_of none = depth_zero
depth_of (some options) = options.depth

-- matchesWithDepth
unfoldable pub matches_with_depth : Bytes → Bytes → Option GetMetadataOptions → Bool
unfolding same_bytes remainder
matches_with_depth entry_name requested options =
    same_bytes entry_name requested || is_below (depth_of options) (remainder entry_name requested)

-- The size is taken as a uint32.
abbrev pub too_long : Option GetMetadataOptions → Bytes → Bool
too_long none value = false
too_long (some options) value = over options.max_size (length value % u32_mod)
  where
    over : Option ℕ → ℕ → Bool
    over none size = false
    over (some m) size = ltb m size

-- GetMetadataData
pub record Collected : Type 0 where
  pub entries : Annotations
  pub long_entries : ℕ

abbrev pub collect_one : Bytes → Option GetMetadataOptions → Bytes → Bytes → Collected → Collected
collect_one requested options entry_name value st =
    let size = length value % u32_mod in
    if matches_with_depth entry_name requested options
    then if too_long options value
      then record st { long_entries = if ltb st.long_entries size then size else st.long_entries }
      else record st { entries = put entry_name value st.entries }
    else st

unfoldable pub collect_from :
    Bytes → Option GetMetadataOptions → Annotations → Collected → Collected
unfolding matches_with_depth put
collect_from requested options [] st = st
collect_from requested options ((entry_name, value) ∷ source) st =
    collect_from requested options source (collect_one requested options entry_name value st)

unfoldable pub collect :
    List Bytes → Option GetMetadataOptions → Annotations → Collected → Collected
unfolding collect_from
collect [] options source st = st
collect (requested ∷ entries) options source st =
    collect entries options source (collect_from requested options source st)

unfoldable pub copy_entries : Annotations → Annotations → Annotations
unfolding put
copy_entries [] result = result
copy_entries ((entry_name, value) ∷ source) result =
    copy_entries source (put entry_name value result)

unfoldable pub get_entries : List Bytes → Option GetMetadataOptions → Annotations → Collected
unfolding copy_entries collect
get_entries [] options source = record { entries = copy_entries source []; long_entries = 0 }
get_entries (requested ∷ entries) options source =
    collect (requested ∷ entries) options source (record { entries = []; long_entries = 0 })

-- The annotations of the server, or of the mailbox of a name
abbrev pub metadata_in : Option Entry → Option Annotations
metadata_in none = none
metadata_in (some e) = some e.metadata

abbrev pub metadata_of : Bytes → User → Option Annotations
metadata_of [] u = some u.server_metadata
metadata_of (b ∷ name) u = metadata_in (mailbox_at (lookup (b ∷ name) u.names) u.store)

-- UserSession.GetMetadata
abbrev get_from : List Bytes → Option GetMetadataOptions → Option Annotations → Option Collected
get_from entries options none = none
get_from entries options (some source) = some (get_entries entries options source)

unfoldable pub get_metadata :
    Bytes → List Bytes → Option GetMetadataOptions → User → Option Collected
unfolding lookup get_entries
get_metadata name entries options u = get_from entries options (metadata_of name u)
