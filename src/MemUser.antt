-- ===== src/MemUser.antt =====
-- imapserver/imapmemserver/user.go: the mailboxes of a user, by name. Every function here runs under the mutex
-- of the user. A pointer to a mailbox is its place in the list of all mailboxes that were ever made, since a
-- session may go on with one that was deleted; the map is a list of names and such places. What
-- notifyRegistry.broadcast is given is a list of events; the session that an event comes from, and the
-- writers of the answers, are left out.
pub mod Names
pub mod Store
pub mod Laws
pub mod Spec
pub mod Values
pub mod Refines
pub mod Access
pub mod Metadata
mod Tests
use go_imap.Prelude.{
  ℕ, suc, ◌+◌, ◌-◌, ◌%◌, Bool, true, false, not, ◌&&◌, ◌||◌, List, [], ◌∷◌, ◌++◌, ltb, ◌==◌,
  if◌then◌else◌, Option, none, some, length, get_elem?, set, take, map,
}
use go_imap.Strconv.{Bytes}
use go_imap.Strconv.Bytes.{same_bytes}
use go_imap.NumSet.{u32_mod}
use go_imap.Acl.{right_set_all}
use go_imap.ListMatch.{match_list, has_prefix}
use go_imap.MemMailbox.{Mailbox, new_mailbox, next_u32}
use go_imap.MemUser.Names.{NameMap, lookup, put, remove}

-- The part of a Mailbox that the user's operations read or change, and the messages. The access list and
-- the metadata are maps, in the order in which they are walked.
pub record Entry : Type 0 where
  pub name : Bytes
  pub subscribed : Bool
  pub mailbox : Mailbox
  pub acl : List (Bytes × Bytes)
  pub metadata : List (Bytes × Bytes)

-- memNotifyEvent, as far as it comes from the commands on mailboxes as a whole
pub data Event : Type 0 where
  mailbox_created mailbox_parent mailbox_deleted : Bytes → Event
  mailbox_no_access : Bytes → Event
  mailbox_renamed : Bytes → Bytes → Event
  subscription_change : Bytes → Event
  mailbox_metadata_change : Bytes → List Bytes → Event
  server_metadata_change : List Bytes → Event

-- User
pub record User : Type 0 where
  pub username : Bytes
  pub password : Bytes
  pub store : List Entry
  pub names : NameMap
  pub prev_uid_validity : ℕ
  pub server_metadata : List (Bytes × Bytes)
  pub events : List Event

-- NewUser
abbrev pub new_user : Bytes → Bytes → User
new_user username password = record {
  username = username;
  password = password;
  store = [];
  names = [];
  prev_uid_validity = 0;
  server_metadata = [];
  events = [];
}

-- The response codes of the errors
pub data UserError : Type 0 where
  non_existent already_exists : UserError

-- User.Login
unfoldable pub login : User → Bytes → Bytes → Bool
unfolding same_bytes
login u username password = same_bytes username u.username && same_bytes password u.password

abbrev pub delim : ℕ
delim = b'/'

-- strings.TrimRight(name, "/")
abbrev pub trimmed : ℕ → Bytes → Bytes
trimmed b [] = if b == delim then [] else b ∷ []
trimmed b (x ∷ s) = b ∷ x ∷ s

unfoldable pub trim_right : Bytes → Bytes
trim_right [] = []
trim_right (b ∷ s) = trimmed b (trim_right s)

-- name[:i] for the last index i of the delimiter, if that is positive
abbrev pub up_to : ℕ → Option Bytes → Bytes → Option Bytes
up_to b none s = if b == delim then some [] else none
up_to b (some p) s = some (b ∷ p)

unfoldable pub before_last : Bytes → Option Bytes
before_last [] = none
before_last (b ∷ s) = up_to b (before_last s) s

abbrev pub parent_event : Option Bytes → List Event
parent_event none = []
parent_event (some []) = []
parent_event (some (b ∷ p)) = mailbox_parent (b ∷ p) ∷ []

-- User.notifyParentLocked
unfoldable pub notify_parent : Bytes → List Event
unfolding before_last
notify_parent name = parent_event (before_last name)

abbrev pub new_entry : Bytes → Bytes → ℕ → Entry
new_entry username name uid_validity = record {
  name = name;
  subscribed = false;
  mailbox = new_mailbox uid_validity;
  acl = (username, right_set_all) ∷ [];
  metadata = [];
}

abbrev add_mailbox : Bytes → User → User
add_mailbox name u = record u {
  store = u.store ++ new_entry u.username name (next_u32 u.prev_uid_validity) ∷ [];
  names = put name (length u.store) u.names;
  prev_uid_validity = next_u32 u.prev_uid_validity;
  events = u.events ++ mailbox_created name ∷ notify_parent name;
}

abbrev pub created : Option ℕ → Bytes → User → User × Option UserError
created (some p) name u = (u, some already_exists)
created none name u = (add_mailbox name u, none)

-- User.create
unfoldable pub create : Bytes → User → User × Option UserError
unfolding trim_right notify_parent lookup put
create name u = created (lookup (trim_right name) u.names) (trim_right name) u

abbrev pub deleted : Option ℕ → Bytes → User → User × Option UserError
deleted none name u = (u, some non_existent)
deleted (some p) name u = (
  record u {
    names = remove name u.names;
    events = u.events ++ mailbox_deleted name ∷ notify_parent name;
  },
  none,
)

-- User.delete
unfoldable pub delete : Bytes → User → User × Option UserError
unfolding notify_parent lookup remove
delete name u = deleted (lookup name u.names) name u

-- A write through a pointer
abbrev pub write_entry : (Entry → Entry) → Option Entry → ℕ → List Entry → List Entry
write_entry f none p store = store
write_entry f (some e) p store = set store p (f e)

unfoldable pub update_entry : (Entry → Entry) → ℕ → List Entry → List Entry
update_entry f p store = write_entry f (get_elem? store p) p store

abbrev pub set_name : Bytes → Entry → Entry
set_name name e = record e { name = name }

abbrev pub renamed : Option ℕ → Option ℕ → Bytes → Bytes → User → User × Option UserError
renamed none taken old_name new_name u = (u, some non_existent)
renamed (some p) (some q) old_name new_name u = (u, some already_exists)
renamed (some p) none old_name new_name u = (
  record u {
    store = update_entry (set_name new_name) p u.store;
    names = remove old_name (put new_name p u.names);
    events = u.events ++ mailbox_renamed new_name old_name ∷ [];
  },
  none,
)

-- User.rename
unfoldable pub rename : Bytes → Bytes → User → User × Option UserError
unfolding trim_right lookup put remove update_entry
rename old_name new_name u =
    renamed (lookup old_name u.names) (lookup (trim_right new_name) u.names) old_name
      (trim_right new_name) u

abbrev pub subscribed_to : Option ℕ → Bytes → Bool → User → User × Option UserError
subscribed_to none name subscribed u = (u, some non_existent)
subscribed_to (some p) name subscribed u = (
  record u {
    store = update_entry (λ e. record e { subscribed = subscribed }) p u.store;
    events = u.events ++ subscription_change name ∷ [];
  },
  none,
)

-- User.setSubscribed
unfoldable pub set_subscribed : Bytes → Bool → User → User × Option UserError
unfolding lookup update_entry
set_subscribed name subscribed u = subscribed_to (lookup name u.names) name subscribed u

-- User.hasChildren
unfoldable pub any_below : Bytes → NameMap → Bool
unfolding has_prefix
any_below prefix [] = false
any_below prefix ((other, p) ∷ names) = has_prefix other prefix || any_below prefix names

unfoldable pub has_children : Bytes → User → Bool
unfolding any_below
has_children name u = any_below (name ++ delim ∷ []) u.names

-- The names that User.List answers for some of its patterns, in the order of the map
abbrev pub matches_any : Bytes → Bytes → List Bytes → Bool
matches_any name reference [] = false
matches_any name reference (p ∷ patterns) =
    match_list name delim reference p || matches_any name reference patterns

unfoldable pub listed : Bytes → List Bytes → NameMap → List Bytes
unfolding match_list
listed reference patterns [] = []
listed reference patterns ((name, p) ∷ names) =
    let rest = listed reference patterns names in
    if matches_any name reference patterns then name ∷ rest else rest
