-- ===== src/MemUser/Access/Tests.antt =====
-- imapserver/imapmemserver/session.go: a user who shares a mailbox
use go_imap.Prelude.{
  ℕ, ◌≡◌, refl, true, false, ◌&&◌, List, [], ◌∷◌, if◌then◌else◌, none, some, arith, Bool-cases, inl,
  inr,
}
use go_imap.Strconv.{Bytes, codes}
use go_imap.Strconv.Bytes.{same_bytes}
use go_imap.Acl.{add_these, remove_these, replace_rights, right_set_all}
use go_imap.MemMailbox.{new_mailbox}
use go_imap.MemUser.{User, mailbox_no_access}
use go_imap.MemUser.Names.{lookup, same_bytes_eq}
use go_imap.MemUser.Store.{name_at}
use go_imap.MemUser.Laws.{IsUser}
use go_imap.MemUser.Access.{
  AccessList, right_administer, has_right, modified, set_acl, delete_acl, get_acl, my_rights,
  rights_of,
}
use go_imap.MemUser.Access.Laws.{granted, set_acl_lem}
use go_imap.MemUser.Access.Runs.{
  AclChange, run_changes, run_changes_locked, shown, delete_acl-get_acl,
}

abbrev me : Bytes
me = codes "me"

-- One mailbox with this access list
abbrev owner : AccessList → User
owner acl = record {
  username = me;
  password = codes "secret";
  events = [];
  names = (codes "a", 0) ∷ [];
  store =
      (record {
        name = codes "a";
        subscribed = false;
        mailbox = new_mailbox 1;
        acl = acl;
        metadata = [];
      })
      ∷ [];
  prev_uid_validity = 1;
  server_metadata = [];
}

owner_named :
    (acl : AccessList) (k : Bytes) (p : ℕ)
    → lookup k (owner acl).names ≡ some p
    → name_at (owner acl).store p ≡ some k
unfolding lookup
owner_named acl k p h = elim (Bool-cases (same_bytes (codes "a") k)) [
  | inl e ↦ let place : 0 ≡ p = cc (rw e at h) in rw (← place, same_bytes_eq (codes "a") k e) refl
  | inr e ↦ cc (rw e at h)
]

owner-IsUser : (acl : AccessList) → IsUser (owner acl)
unfolding new_mailbox
owner-IsUser acl = record { named = owner_named acl; fresh = omega arith }

abbrev sharing : User
sharing = owner ((me, right_set_all) ∷ (codes "you", codes "lr") ∷ [])

may_administer : has_right (granted (codes "a") me sharing) right_administer ≡ true
unfolding lookup rights_of
may_administer = refl

set_acl_lem_example :
    ((set_acl (codes "a") (codes "you") add_these (codes "w") sharing).1 ≡ none)
    × ((name' j : Bytes)
        → granted name' j (set_acl (codes "a") (codes "you") add_these (codes "w") sharing).0 ≡ (
            if same_bytes (codes "a") name' && same_bytes (codes "you") j
            then modified add_these (granted (codes "a") (codes "you") sharing) (codes "w")
            else granted name' j sharing))
set_acl_lem_example =
    (set_acl_lem (codes "a") (codes "you") add_these (codes "w") sharing (owner-IsUser _)).0
      may_administer

-- The user has given up the right to administer.
abbrev locked : User
locked = owner ((me, codes "lr") ∷ [])

abbrev changes : List AclChange
changes =
    (record {
      name = codes "a";
      identifier = me;
      modification = replace_rights;
      rights = right_set_all;
    })
    ∷ []

run_changes_locked_example :
    granted (codes "a") me (run_changes changes locked) ≡ granted (codes "a") me locked
unfolding lookup rights_of
run_changes_locked_example = run_changes_locked changes (codes "a") me locked (owner-IsUser _) refl

delete_acl-get_acl_example :
    shown (codes "you") (get_acl (codes "a") (delete_acl (codes "a") (codes "you") sharing).0)
    ≡ some []
unfolding same_bytes
delete_acl-get_acl_example =
    delete_acl-get_acl (codes "a") (codes "you") sharing may_administer refl

test_no_access :
    (set_acl (codes "a") me remove_these (codes "r") sharing).0.events
    ≡ mailbox_no_access (codes "a") ∷ []
unfolding set_acl
test_no_access = refl

test_my_rights :
    my_rights (codes "a") (set_acl (codes "a") me remove_these (codes "rw") sharing).0
    ≡ some (codes "lsipkxtea")
unfolding set_acl my_rights
test_my_rights = refl
