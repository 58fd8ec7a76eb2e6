-- ===== src/MemUser/Metadata/Change.antt =====
-- imapserver/imapmemserver/session.go: SetMetadata. The list of new entries stands for the map, in the order in which it
-- is walked; `none` is the nil value that deletes an entry.
use go_imap.Prelude.{ℕ, List, [], ◌∷◌, ◌++◌, ltb, if◌then◌else◌, Option, none, some, length, map}
use go_imap.Strconv.{Bytes}
use go_imap.Strconv.Sort.{sort_texts}
use go_imap.MemUser.{
  User, Entry, Event, mailbox_metadata_change, server_metadata_change, update_entry,
}
use go_imap.MemUser.Names.{lookup, put, remove}
use go_imap.MemUser.Access.{mailbox_at}
use go_imap.MemUser.Metadata.{Annotations}

abbrev pub NewEntries : Type 0
NewEntries = List (Bytes × Option Bytes)

-- The response codes of the errors
pub data MetadataError : Type 0 where
  non_existent_mailbox limit too_many : MetadataError

abbrev pub max_value : ℕ
max_value = 10240

abbrev pub max_entries : ℕ
max_entries = 100

-- The test behind the loop of setMetadata
abbrev pub counted : Annotations → Annotations × Option MetadataError
counted target = if ltb max_entries (length target) then (target, some too_many) else (target, none)

-- The loop of setMetadata
unfoldable pub set_entries : Annotations → NewEntries → Annotations × Option MetadataError
unfolding put remove
set_entries target [] = counted target
set_entries target ((entry_name, none) ∷ entries) = set_entries (remove entry_name target) entries
set_entries target ((entry_name, some value) ∷ entries) =
    let rest = set_entries (put entry_name value target) entries in
    if ltb max_value (length value) then (target, some limit) else rest

abbrev pub metadata_event : Bytes → List Bytes → Event
metadata_event [] changed = server_metadata_change changed
metadata_event (b ∷ name) changed = mailbox_metadata_change (b ∷ name) changed

abbrev pub first_of : Bytes × Option Bytes → Bytes
first_of (entry_name, value) = entry_name

-- What SetMetadata tells the watchers after setMetadata
abbrev pub announced : Bytes → NewEntries → Option MetadataError → List Event
announced name entries (some e) = []
announced name [] none = []
announced name (e ∷ entries) none =
    metadata_event name (sort_texts (map first_of (e ∷ entries))) ∷ []

abbrev pub write_metadata : Annotations → Entry → Entry
write_metadata metadata e = record e { metadata = metadata }

-- setMetadata on a mailbox
abbrev pub set_in : Option ℕ → Option Entry → NewEntries → User → User × Option MetadataError
set_in (some p) (some e) entries u =
    let (metadata, err) = set_entries e.metadata entries in
    (record u { store = update_entry (write_metadata metadata) p u.store }, err)
set_in _ _ entries u = (u, some non_existent_mailbox)

abbrev pub set_at : Bytes → NewEntries → User → User × Option MetadataError
set_at [] entries u =
    let (metadata, err) = set_entries u.server_metadata entries in
    (record u { server_metadata = metadata }, err)
set_at (b ∷ name) entries u =
    set_in (lookup (b ∷ name) u.names) (mailbox_at (lookup (b ∷ name) u.names) u.store) entries u

-- UserSession.SetMetadata
unfoldable pub set_metadata : Bytes → NewEntries → User → User × Option MetadataError
unfolding lookup set_entries update_entry sort_texts
set_metadata name entries u =
    let (u', err) = set_at name entries u in
    (record u' { events = u'.events ++ announced name entries err }, err)
