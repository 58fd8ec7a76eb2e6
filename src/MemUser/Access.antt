-- ===== src/MemUser/Access.antt =====
-- imapserver/imapmemserver/session.go: the access lists of mailboxes, by GetACL, SetACL, DeleteACL and MyRights.
-- A list of identifiers and sets of rights stands for the map, in the order in which it is walked.
pub mod Laws
pub mod Runs
mod Tests
use go_imap.Prelude.{
  ℕ, Bool, true, false, not, ◌&&◌, List, [], ◌∷◌, ◌++◌, ◌==◌, if◌then◌else◌, Option, none, some,
  get_elem?,
}
use go_imap.Strconv.{Bytes}
use go_imap.Strconv.Bytes.{same_bytes}
use go_imap.Acl.{
  RightModification, replace_rights, add_these, remove_these, rights_add, rights_remove,
}
use go_imap.MemUser.{
  User, Entry, Event, mailbox_created, mailbox_deleted, mailbox_no_access, update_entry,
}
use go_imap.MemUser.Names.{lookup, put}

abbrev pub AccessList : Type 0
AccessList = List (Bytes × Bytes)

-- mbox.acl[identifier]; an identifier without an entry has no right.
abbrev pub or_nil : Option Bytes → Bytes
or_nil none = []
or_nil (some rights) = rights

unfoldable pub rights_of : Bytes → AccessList → Bytes
unfolding lookup
rights_of k acl = or_nil (lookup k acl)

abbrev pub right_lookup : ℕ
right_lookup = b'l'

abbrev pub right_read : ℕ
right_read = b'r'

abbrev pub right_administer : ℕ
right_administer = b'a'

-- hasRight, and the loop of SetACL
abbrev pub has_right : Bytes → ℕ → Bool
has_right [] right = false
has_right (r ∷ rights) right = if r == right then true else has_right rights right

-- The switch of SetACL
unfoldable pub modified : RightModification → Bytes → Bytes → Bytes
unfolding rights_add rights_remove
modified replace_rights current rights = rights
modified add_these current rights = rights_add current rights
modified remove_these current rights = rights_remove current rights

-- aclNotifyEvent and the broadcast of its event
unfoldable pub acl_notify_event : Bytes → Bytes → Bytes → List Event
acl_notify_event name before after =
    let could_list = has_right before right_lookup in
    let can_list = has_right after right_lookup in
    if not could_list && can_list
    then mailbox_created name ∷ []
    else if could_list && not can_list
    then mailbox_deleted name ∷ []
    else if can_list && has_right before right_read && not (has_right after right_read)
    then mailbox_no_access name ∷ []
    else []

pub data AclError : Type 0 where
  no_such_mailbox permission_denied : AclError

-- The mailbox of a name: User.mailbox
abbrev pub mailbox_at : Option ℕ → List Entry → Option Entry
mailbox_at none store = none
mailbox_at (some p) store = get_elem? store p

abbrev pub write_acl : AccessList → Entry → Entry
write_acl acl e = record e { acl = acl }

abbrev pub set_acl_in :
    Option ℕ
    → Option Entry
    → Bytes
    → Bytes
    → RightModification
    → Bytes
    → User
    → User × Option AclError
set_acl_in (some p) (some e) name identifier m rights u =
    let mine = rights_of u.username e.acl in
    let acl = put identifier (modified m (rights_of identifier e.acl) rights) e.acl in
    if not (has_right mine right_administer) then (u, some permission_denied) else (
      record u {
        store = update_entry (write_acl acl) p u.store;
        events = u.events ++ acl_notify_event name mine (rights_of u.username acl);
      },
      none,
    )
set_acl_in _ _ name identifier m rights u = (u, some no_such_mailbox)

-- UserSession.SetACL
unfoldable pub set_acl : Bytes → Bytes → RightModification → Bytes → User → User × Option AclError
unfolding lookup rights_of put modified acl_notify_event update_entry
set_acl name identifier m rights u =
    set_acl_in (lookup name u.names) (mailbox_at (lookup name u.names) u.store) name identifier m
      rights u

-- UserSession.DeleteACL
unfoldable pub delete_acl : Bytes → Bytes → User → User × Option AclError
unfolding set_acl
delete_acl name identifier u = set_acl name identifier replace_rights [] u

-- UserSession.MyRights
abbrev pub rights_in : Bytes → Option Entry → Option Bytes
rights_in k none = none
rights_in k (some e) = some (rights_of k e.acl)

unfoldable pub my_rights : Bytes → User → Option Bytes
unfolding lookup rights_of
my_rights name u = rights_in u.username (mailbox_at (lookup name u.names) u.store)

-- UserSession.GetACL: the user comes first, then the others.
unfoldable pub other_entries : Bytes → AccessList → AccessList
unfolding same_bytes
other_entries me [] = []
other_entries me ((j, rights) ∷ acl) =
    let rest = other_entries me acl in if not (same_bytes j me) then (j, rights) ∷ rest else rest

abbrev pub acl_in : Bytes → Option Entry → Option AccessList
acl_in me none = none
acl_in me (some e) = some ((me, rights_of me e.acl) ∷ other_entries me e.acl)

unfoldable pub get_acl : Bytes → User → Option AccessList
unfolding lookup rights_of other_entries
get_acl name u = acl_in u.username (mailbox_at (lookup name u.names) u.store)
