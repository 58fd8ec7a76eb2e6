-- ===== src/MemUser/Access/Runs.antt =====
-- imapserver/imapmemserver/session.go: sequences of changes to access lists, and what GETACL shows after a DELETEACL
use go_imap.Prelude.{
  ℕ, ◌≡◌, refl, sym, ◌∙◌, ap, true, false, List, [], ◌∷◌, ◌==◌, Option, none, some, get_elem?,
  arith, Bool-cases, Option-cases, inl, inr,
}
use go_imap.Strconv.{Bytes}
use go_imap.Strconv.Bytes.{same_bytes, same_bytes_iff}
use go_imap.Acl.{RightModification, replace_rights}
use go_imap.MemUser.{User, Entry}
use go_imap.MemUser.Names.{lookup, put, lookup-put, same_bytes_refl, same_bytes_eq}
use go_imap.MemUser.Store.{get_elem?-update_entry}
use go_imap.MemUser.Laws.{IsUser}
use go_imap.MemUser.Access.{
  AccessList, rights_of, right_administer, has_right, modified, write_acl, set_acl_in, set_acl,
  delete_acl, other_entries, get_acl,
}
use go_imap.MemUser.Access.Laws.{granted, set_acl_lem, set_acl-IsUser}

-- A SETACL command
pub record AclChange : Type 0 where
  pub name : Bytes
  pub identifier : Bytes
  pub modification : RightModification
  pub rights : Bytes

abbrev pub change : AclChange → User → User
change c u = (set_acl c.name c.identifier c.modification c.rights u).0

abbrev pub run_changes : List AclChange → User → User
run_changes [] u = u
run_changes (c ∷ cs) u = run_changes cs (change c u)

change_locked :
    (c : AclChange) (name j : Bytes) (u : User)
    → IsUser u
    → has_right (granted name u.username u) right_administer ≡ false
    → granted name j (change c u) ≡ granted name j u
change_locked c name j u w h =
    let (done, refused) = set_acl_lem c.name c.identifier c.modification c.rights u w in
    elim (Bool-cases (has_right (granted c.name u.username u) right_administer)) [
      | inr n ↦ ap (λ v. granted name j v) (refused n).0
      | inl y ↦ elim (Bool-cases (same_bytes c.name name)) [
        | inl same ↦ cc (sym h ∙ (rw (same_bytes_eq c.name name same) at y))
        | inr other ↦ (done y).1 name j ∙ rw other refl
      ]
    ]

-- A user who has lost the right to administer a mailbox cannot get it back: no sequence of SETACL commands of
-- this user, on whatever mailboxes, changes any right of anybody on that mailbox.
pub run_changes_locked :
    (cs : List AclChange) (name j : Bytes) (u : User)
    → IsUser u
    → has_right (granted name u.username u) right_administer ≡ false
    → granted name j (run_changes cs u) ≡ granted name j u
run_changes_locked [] name j u w h = refl
run_changes_locked (c ∷ cs) name j u w h =
    let (w', who) = set_acl-IsUser c.name c.identifier c.modification c.rights u w in
    let still : has_right (granted name (change c u).username (change c u)) right_administer
        ≡ false =
      ap (λ k. has_right (granted name k (change c u)) right_administer) who
      ∙ ap (λ r. has_right r right_administer) (change_locked c name u.username u w h)
      ∙ h in
    run_changes_locked cs name j (change c u) w' still ∙ change_locked c name j u w h

-- The rights that an answer of GETACL shows for an identifier
abbrev pub shown : Bytes → Option AccessList → Option Bytes
shown k none = none
shown k (some acl) = lookup k acl

lookup-other_entries :
    (me k : Bytes) (acl : AccessList)
    → same_bytes k me ≡ false
    → lookup k (other_entries me acl) ≡ lookup k acl
unfolding other_entries lookup
lookup-other_entries me k [] h = refl
lookup-other_entries me k ((j, rights) ∷ acl) h =
    let rest = lookup-other_entries me k acl h in
    elim (Bool-cases (same_bytes j me)) [
      | inl y ↦
          let differ : same_bytes j k ≡ false =
            ground (arith, same_bytes_iff j me, same_bytes_iff k me, same_bytes_iff j k, y, h) in
          rw (y, differ) rest
      | inr n ↦ rw (n, rest) refl
    ]

shown_after :
    (name k : Bytes) (u : User) (p : ℕ) (e : Entry)
    → lookup name u.names ≡ some p
    → get_elem? u.store p ≡ some e
    → has_right (rights_of u.username e.acl) right_administer ≡ true
    → same_bytes k u.username ≡ false
    → shown k (get_acl name (set_acl_in (some p) (some e) name k replace_rights [] u).0) ≡ some []
unfolding get_acl modified
shown_after name k u p e h g y other =
    let same : (p == p) ≡ true = ground arith in
    let differ : same_bytes u.username k ≡ false =
      ground (arith, same_bytes_iff k u.username, same_bytes_iff u.username k, other) in
    rw (y, h, get_elem?-update_entry (write_acl (put k [] e.acl)) p p u.store, same, g, differ)
      (lookup-other_entries u.username k (put k [] e.acl) other
        ∙ lookup-put k k [] e.acl
        ∙ rw (same_bytes_refl k) refl)

-- DELETEACL of another identifier, by a user who may administer the mailbox, does not remove the identifier from
-- the list: GETACL still shows it, with no right.
pub delete_acl-get_acl :
    (name identifier : Bytes) (u : User)
    → has_right (granted name u.username u) right_administer ≡ true
    → same_bytes identifier u.username ≡ false
    → shown identifier (get_acl name (delete_acl name identifier u).0) ≡ some []
unfolding delete_acl set_acl
delete_acl-get_acl name identifier u y other = elim (Option-cases (lookup name u.names)) [
  | inl h ↦ cc (rw h at y)
  | inr (p, h) ↦ elim (Option-cases (get_elem? u.store p)) [
    | inl g ↦ cc (rw (h, g) at y)
    | inr (e, g) ↦ rw (h, g) (shown_after name identifier u p e h g (rw (h, g) at y) other)
  ]
]
