-- ===== src/MemUser/Access/Laws.antt =====
-- imapserver/imapmemserver/session.go: who may change an access list, and what a change does
use go_imap.Prelude.{
  ℕ, ◌≡◌, ◌≢◌, refl, sym, ap, ◌∙◌, Bool, true, false, ◌&&◌, List, [], ◌==◌, if◌then◌else◌, Option,
  none, some, get_elem?, arith, Bool-cases, Option-cases, inl, inr,
}
use go_imap.Strconv.{Bytes}
use go_imap.Strconv.Bytes.{same_bytes}
use go_imap.Acl.{RightModification}
use go_imap.MemUser.{User, Entry, update_entry}
use go_imap.MemUser.Names.{lookup, put, lookup-put, same_bytes_eq}
use go_imap.MemUser.Store.{get_elem?-update_entry}
use go_imap.MemUser.Laws.{IsUser, two_names, name_kept, update_entry-fresh}
use go_imap.MemUser.Access.{
  AccessList, rights_of, or_nil, right_administer, has_right, modified, AclError, mailbox_at,
  write_acl, set_acl_in, set_acl,
}

or_nil-cond :
    (b : Bool) (rights : Bytes) (o : Option Bytes)
    → or_nil (if b then some rights else o) ≡ (if b then rights else or_nil o)
or_nil-cond true rights o = refl
or_nil-cond false rights o = refl

rights_of-put :
    (j k rights : Bytes) (acl : AccessList)
    → rights_of j (put k rights acl) ≡ (if same_bytes k j then rights else rights_of j acl)
unfolding rights_of
rights_of-put j k rights acl =
    ap or_nil (lookup-put j k rights acl) ∙ or_nil-cond (same_bytes k j) rights (lookup j acl)

-- The rights that an identifier has on the mailbox of a name; none if there is no such mailbox
abbrev pub rights_at : Bytes → Option Entry → Bytes
rights_at j none = []
rights_at j (some e) = rights_of j e.acl

abbrev pub granted : Bytes → Bytes → User → Bytes
granted name j u = rights_at j (mailbox_at (lookup name u.names) u.store)

same_place :
    (acl : AccessList) (p : ℕ) (store : List Entry) (j : Bytes) (e : Entry)
    → get_elem? store p ≡ some e
    → rights_at j (get_elem? (update_entry (write_acl acl) p store) p) ≡ rights_of j acl
same_place acl p store j e h =
    let same : (p == p) ≡ true = ground arith in
    rw (get_elem?-update_entry (write_acl acl) p p store, same, h) refl

other_place :
    (acl : AccessList) (p q : ℕ) (store : List Entry) (j : Bytes)
    → (p == q) ≡ false
    → rights_at j (get_elem? (update_entry (write_acl acl) p store) q)
      ≡ rights_at j (get_elem? store q)
other_place acl p q store j h = rw (get_elem?-update_entry (write_acl acl) p q store, h) refl

-- A write to the access list of one mailbox, as all names see it
written :
    (acl : AccessList) (p : ℕ) (u : User) (name : Bytes) (e : Entry) (o : Option ℕ)
    (name' j : Bytes)
    → IsUser u
    → lookup name u.names ≡ some p
    → get_elem? u.store p ≡ some e
    → lookup name' u.names ≡ o
    → rights_at j (mailbox_at o (update_entry (write_acl acl) p u.store))
      ≡ (if same_bytes name name' then rights_of j acl else rights_at j (mailbox_at o u.store))
written acl p u name e none name' j w h g f = elim (Bool-cases (same_bytes name name')) [
  | inl y ↦ cc (sym h ∙ (rw (← same_bytes_eq name name' y) at f))
  | inr n ↦ rw n refl
]
written acl p u name e (some q) name' j w h g f = elim (Bool-cases (same_bytes name name')) [
  | inl y ↦
      let place : p ≡ q = cc (sym h ∙ (rw (← same_bytes_eq name name' y) at f)) in
      rw (y, ← place) (same_place acl p u.store j e g)
  | inr n ↦ rw n (
      other_place acl p q u.store j
        (two_names u.store name name' p q (w.named name p h) (w.named name' q f) n))
]

-- What SetACL does, as all names and identifiers see it
abbrev Outcome :
    Bytes
    → Bytes
    → RightModification
    → Bytes
    → User
    → Bytes
    → Bytes
    → User × Option AclError
    → Type 0
Outcome name identifier m rights u mine current r =
    (has_right mine right_administer ≡ true
      → (r.1 ≡ none)
        × ((name' j : Bytes)
            → granted name' j r.0 ≡ (
                if same_bytes name name' && same_bytes identifier j
                then modified m current rights
                else granted name' j u)))
    × (has_right mine right_administer ≡ false → (r.0 ≡ u) × (r.1 ≢ none))

under_name :
    (name name' j : Bytes) (b : Bool) (x : Bytes) (u : User) (p : ℕ) (e : Entry)
    → lookup name u.names ≡ some p
    → get_elem? u.store p ≡ some e
    → (if same_bytes name name' then (if b then x else rights_of j e.acl) else granted name' j u)
      ≡ (if same_bytes name name' && b then x else granted name' j u)
under_name name name' j b x u p e h g = elim (Bool-cases (same_bytes name name')) [
  | inl y ↦
      let here : granted name' j u ≡ rights_of j e.acl =
        rw (← same_bytes_eq name name' y, h, g) refl in
      rw (y, here) refl
  | inr n ↦ rw n refl
]

set_acl_found :
    (name identifier : Bytes) (m : RightModification) (rights : Bytes) (u : User) (p : ℕ)
    (e : Entry)
    → IsUser u
    → lookup name u.names ≡ some p
    → get_elem? u.store p ≡ some e
    → Outcome name identifier m rights u
        (rights_of u.username e.acl)
        (rights_of identifier e.acl)
        (set_acl_in (some p) (some e) name identifier m rights u)
set_acl_found name identifier m rights u p e w h g =
    let acl = put identifier (modified m (rights_of identifier e.acl) rights) e.acl in
    (
      (λ y. rw y (
        refl,
        λ name' j.
            written acl p u name e (lookup name' u.names) name' j w h g refl
            ∙ rw (rights_of-put j identifier (modified m (rights_of identifier e.acl) rights) e.acl)
                refl
            ∙ under_name name name' j (same_bytes identifier j)
                (modified m (rights_of identifier e.acl) rights) u p e h g,
      )),
      λ n. rw n (refl, λ q. cc q),
    )

-- SETACL by a user who has the right to administer the mailbox succeeds: it sets the rights of the identifier on
-- the mailbox of that name to what the modification makes of them, and changes no other right of anybody on any
-- mailbox. A user without that right, or who names no mailbox, gets an error, and nothing changes.
pub set_acl_lem :
    (name identifier : Bytes) (m : RightModification) (rights : Bytes) (u : User)
    → IsUser u
    → (has_right (granted name u.username u) right_administer ≡ true
        → ((set_acl name identifier m rights u).1 ≡ none)
          × ((name' j : Bytes)
              → granted name' j (set_acl name identifier m rights u).0 ≡ (
                  if same_bytes name name' && same_bytes identifier j
                  then modified m (granted name identifier u) rights
                  else granted name' j u)))
      × (has_right (granted name u.username u) right_administer ≡ false
          → ((set_acl name identifier m rights u).0 ≡ u)
            × ((set_acl name identifier m rights u).1 ≢ none))
unfolding set_acl
set_acl_lem name identifier m rights u w = elim (Option-cases (lookup name u.names)) [
  | inl h ↦ rw h ((λ y. cc y), λ n. (refl, λ q. cc q))
  | inr (p, h) ↦ elim (Option-cases (get_elem? u.store p)) [
    | inl g ↦ rw (h, g) ((λ y. cc y), λ n. (refl, λ q. cc q))
    | inr (e, g) ↦ rw (h, g) (set_acl_found name identifier m rights u p e w h g)
  ]
]

set_acl_in-IsUser :
    (o : Option ℕ) (e : Option Entry) (name identifier : Bytes) (m : RightModification)
    (rights : Bytes) (u : User)
    → IsUser u
    → IsUser (set_acl_in o e name identifier m rights u).0
      × ((set_acl_in o e name identifier m rights u).0.username ≡ u.username)
set_acl_in-IsUser none e name identifier m rights u w = (w, refl)
set_acl_in-IsUser (some p) none name identifier m rights u w = (w, refl)
set_acl_in-IsUser (some p) (some e) name identifier m rights u w =
    let acl = put identifier (modified m (rights_of identifier e.acl) rights) e.acl in
    elim (Bool-cases (has_right (rights_of u.username e.acl) right_administer)) [
      | inl y ↦ rw y (
        record {
          named = λ k q h. name_kept (write_acl acl) p q k u.store (λ x. refl) (w.named k q h);
          fresh =
              update_entry-fresh (write_acl acl) u.prev_uid_validity p u.store (λ x. refl) w.fresh;
        },
        refl,
      )
      | inr n ↦ rw n (w, refl)
    ]

pub set_acl-IsUser :
    (name identifier : Bytes) (m : RightModification) (rights : Bytes) (u : User)
    → IsUser u
    → IsUser (set_acl name identifier m rights u).0
      × ((set_acl name identifier m rights u).0.username ≡ u.username)
unfolding set_acl
set_acl-IsUser name identifier m rights u w =
    set_acl_in-IsUser (lookup name u.names) (mailbox_at (lookup name u.names) u.store) name
      identifier m rights u w
