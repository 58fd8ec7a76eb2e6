-- ===== src/MemUser/Refines.antt =====
-- imapserver/imapmemserver/user.go: the operations of a user implement the map from names to UIDVALIDITY values.
use go_imap.Prelude.{
  ℕ, ◌+◌, ◌≤◌, ◌<◌, ◌≡◌, refl, ◌∙◌, Bool, true, false, List, [], ◌∷◌, ◌==◌, if◌then◌else◌, Option,
  none, some, length, get_elem?, arith, Bool-cases, inl, inr,
}
use go_imap.Strconv.{Bytes}
use go_imap.Strconv.Bytes.{same_bytes}
use go_imap.NumSet.{u32_mod}
use go_imap.MemUser.Names.{lookup, put, remove, lookup-put, lookup-remove}
use go_imap.MemUser.{
  User, Entry, create, delete, rename, set_subscribed, created, deleted, renamed, subscribed_to,
  update_entry, set_name, trim_right,
}
use go_imap.MemUser.Spec.{
  Op, create_op, delete_op, rename_op, subscribe_op, apply, Spec, spec, at_name, spec_create,
  spec_delete, spec_rename, spec_subscribe, results, spec_results,
}
use go_imap.MemUser.Store.{get_elem?-update_entry, on_entry}
use go_imap.MemUser.Laws.{
  IsUser, set_flag, created-IsUser, deleted-IsUser, renamed-IsUser, subscribed_to-IsUser,
}
use go_imap.MemUser.Values.{validity_at, validity_of, Refines, Agree, agree, created_values}

created-Refines :
    (o v : Option ℕ) (name : Bytes) (u : User) (s : Spec)
    → Agree o v
    → IsUser u
    → u.prev_uid_validity + 1 < u32_mod
    → Refines u s
    → Refines (created o name u).0 (spec_create v name s).0
      × ((created o name u).1 ≡ (spec_create v name s).1)
created-Refines none none name u s _ w r h = (
  record { values = λ k. created_values u s name k w r h; counter = omega (arith, h.counter) },
  refl,
)
created-Refines none (some v) name u s a w r h = absurd a
created-Refines (some p) none name u s a w r h = absurd a
created-Refines (some p) (some v) name u s _ w r h = (h, refl)

validity_of-none :
    (b : Bool) (o : Option ℕ) (v : Option ℕ) (store : List Entry)
    → validity_of o store ≡ v
    → validity_of (if b then none else o) store ≡ (if b then none else v)
validity_of-none true o v store h = refl
validity_of-none false o v store h = h

deleted-Refines :
    (o v : Option ℕ) (name : Bytes) (u : User) (s : Spec)
    → Agree o v
    → Refines u s
    → Refines (deleted o name u).0 (spec_delete v name s).0
      × ((deleted o name u).1 ≡ (spec_delete v name s).1)
deleted-Refines none none name u s _ h = (h, refl)
deleted-Refines none (some v) name u s a h = absurd a
deleted-Refines (some p) none name u s a h = absurd a
deleted-Refines (some p) (some v) name u s _ h = (
  record {
    values = λ k.
        rw (lookup-remove k name u.names)
          (validity_of-none (same_bytes name k) (lookup k u.names) (s.at k) u.store (h.values k));
    counter = h.counter;
  },
  refl,
)

on_entry-validity :
    (f : Entry → Entry) (o : Option Entry)
    → ((e : Entry) → (f e).mailbox ≡ e.mailbox)
    → on_entry (λ e. e.mailbox.uid_validity) (on_entry f o)
      ≡ on_entry (λ e. e.mailbox.uid_validity) o
on_entry-validity f none keeps = refl
on_entry-validity f (some e) keeps = rw (keeps e)

-- A write that leaves the mailbox as it is does not change the values.
validity_at-update_entry :
    (f : Entry → Entry) (p q : ℕ) (store : List Entry)
    → ((e : Entry) → (f e).mailbox ≡ e.mailbox)
    → validity_at (update_entry f p store) q ≡ validity_at store q
validity_at-update_entry f p q store keeps = elim (Bool-cases (p == q)) [
  | inl e ↦
      rw (get_elem?-update_entry f p q store, e) (on_entry-validity f (get_elem? store q) keeps)
  | inr e ↦ rw (get_elem?-update_entry f p q store, e)
]

validity_of-update_entry :
    (f : Entry → Entry) (p : ℕ) (o : Option ℕ) (store : List Entry)
    → ((e : Entry) → (f e).mailbox ≡ e.mailbox)
    → validity_of o (update_entry f p store) ≡ validity_of o store
validity_of-update_entry f p none store keeps = refl
validity_of-update_entry f p (some q) store keeps = validity_at-update_entry f p q store keeps

put_values :
    (u : User) (s : Spec) (name k : Bytes) (p v : ℕ)
    → validity_at u.store p ≡ some v
    → Refines u s
    → validity_of (lookup k (put name p u.names)) u.store ≡ at_name name (some v) s.at k
put_values u s name k p v e h = elim (Bool-cases (same_bytes name k)) [
  | inl same ↦ rw (lookup-put k name p u.names, same) e
  | inr other ↦ rw (lookup-put k name p u.names, other) (h.values k)
]

renamed_values :
    (u : User) (s : Spec) (old_name new_name k : Bytes) (p v : ℕ)
    → validity_at u.store p ≡ some v
    → Refines u s
    → validity_of
        (lookup k (remove old_name (put new_name p u.names)))
        (update_entry (set_name new_name) p u.store)
      ≡ at_name old_name none (at_name new_name (some v) s.at) k
renamed_values u s old_name new_name k p v e h =
    validity_of-update_entry (set_name new_name) p _ u.store (λ x. refl)
    ∙ rw (lookup-remove k old_name (put new_name p u.names)) (
        validity_of-none (same_bytes old_name k) (lookup k (put new_name p u.names)) _ u.store
          (put_values u s new_name k p v e h))

renamed-Refines :
    (o taken v w : Option ℕ) (old_name new_name : Bytes) (u : User) (s : Spec)
    → Agree o v
    → Agree taken w
    → validity_of o u.store ≡ v
    → Refines u s
    → Refines (renamed o taken old_name new_name u).0 (spec_rename v w old_name new_name s).0
      × ((renamed o taken old_name new_name u).1 ≡ (spec_rename v w old_name new_name s).1)
renamed-Refines none taken none w old_name new_name u s _ _ _ h = (h, refl)
renamed-Refines (some p) (some q) (some v) (some w) old_name new_name u s _ _ _ h = (h, refl)
renamed-Refines (some p) none (some v) none old_name new_name u s _ _ e h = (
  record { values = λ k. renamed_values u s old_name new_name k p v e h; counter = h.counter },
  refl,
)
renamed-Refines none taken (some v) w old_name new_name u s a _ _ h = absurd a
renamed-Refines (some p) taken none w old_name new_name u s a _ _ h = absurd a
renamed-Refines (some p) none (some v) (some w) old_name new_name u s _ a _ h = absurd a
renamed-Refines (some p) (some q) (some v) none old_name new_name u s _ a _ h = absurd a

subscribed_to-Refines :
    (o v : Option ℕ) (name : Bytes) (subscribed : Bool) (u : User) (s : Spec)
    → Agree o v
    → Refines u s
    → Refines (subscribed_to o name subscribed u).0 (spec_subscribe v s).0
      × ((subscribed_to o name subscribed u).1 ≡ (spec_subscribe v s).1)
subscribed_to-Refines none none name subscribed u s _ h = (h, refl)
subscribed_to-Refines (some p) (some v) name subscribed u s _ h = (
  record {
    values = λ k.
        validity_of-update_entry (set_flag subscribed) p (lookup k u.names) u.store (λ x. refl)
        ∙ h.values k;
    counter = h.counter;
  },
  refl,
)
subscribed_to-Refines none (some v) name subscribed u s a h = absurd a
subscribed_to-Refines (some p) none name subscribed u s a h = absurd a

Agree-now :
    (u : User) (s : Spec) (k : Bytes) → IsUser u → Refines u s → Agree (lookup k u.names) (s.at k)
Agree-now u s k w h = agree u s k (lookup k u.names) (s.at k) w h refl refl

-- CREATE, DELETE, RENAME, SUBSCRIBE and UNSUBSCRIBE do to the mailboxes what the map from names to UIDVALIDITY
-- values does, with the same errors, while the counter of these values does not wrap around.
pub apply-Refines :
    (op : Op) (u : User) (s : Spec)
    → IsUser u
    → u.prev_uid_validity + 1 < u32_mod
    → Refines u s
    → Refines (apply op u).0 (spec op s).0 × ((apply op u).1 ≡ (spec op s).1)
unfolding apply create delete rename set_subscribed spec
apply-Refines (create_op name) u s w r h =
    created-Refines (lookup (trim_right name) u.names) (s.at (trim_right name)) (trim_right name) u
      s (Agree-now u s (trim_right name) w h) w r h
apply-Refines (delete_op name) u s w r h =
    deleted-Refines (lookup name u.names) (s.at name) name u s (Agree-now u s name w h) h
apply-Refines (rename_op old_name new_name) u s w r h =
    renamed-Refines (lookup old_name u.names) (lookup (trim_right new_name) u.names) (s.at old_name)
      (s.at (trim_right new_name)) old_name (trim_right new_name) u s (Agree-now u s old_name w h)
      (Agree-now u s (trim_right new_name) w h) (h.values old_name) h
apply-Refines (subscribe_op name subscribed) u s w r h =
    subscribed_to-Refines (lookup name u.names) (s.at name) name subscribed u s
      (Agree-now u s name w h) h

-- They keep every name leading to the mailbox of that name, and the UIDVALIDITY values of all mailboxes that ever
-- were below those to come.
pub apply-IsUser :
    (op : Op) (u : User) → IsUser u → u.prev_uid_validity + 1 < u32_mod → IsUser (apply op u).0
unfolding apply create delete rename set_subscribed
apply-IsUser (create_op name) u w r =
    created-IsUser (lookup (trim_right name) u.names) (trim_right name) u w r
apply-IsUser (delete_op name) u w r = deleted-IsUser (lookup name u.names) name u w
apply-IsUser (rename_op old_name new_name) u w r =
    renamed-IsUser (lookup old_name u.names) (lookup (trim_right new_name) u.names) old_name
      (trim_right new_name) u refl w
apply-IsUser (subscribe_op name subscribed) u w r =
    subscribed_to-IsUser (lookup name u.names) name subscribed u w

created_counter :
    (o : Option ℕ) (name : Bytes) (u : User)
    → u.prev_uid_validity + 1 < u32_mod
    → (created o name u).0.prev_uid_validity ≤ u.prev_uid_validity + 1
created_counter none name u r = omega arith
created_counter (some p) name u r = omega arith

deleted_counter :
    (o : Option ℕ) (name : Bytes) (u : User)
    → (deleted o name u).0.prev_uid_validity ≡ u.prev_uid_validity
deleted_counter none name u = refl
deleted_counter (some p) name u = refl

renamed_counter :
    (o taken : Option ℕ) (old_name new_name : Bytes) (u : User)
    → (renamed o taken old_name new_name u).0.prev_uid_validity ≡ u.prev_uid_validity
renamed_counter none taken old_name new_name u = refl
renamed_counter (some p) none old_name new_name u = refl
renamed_counter (some p) (some q) old_name new_name u = refl

subscribed_to_counter :
    (o : Option ℕ) (name : Bytes) (subscribed : Bool) (u : User)
    → (subscribed_to o name subscribed u).0.prev_uid_validity ≡ u.prev_uid_validity
subscribed_to_counter none name subscribed u = refl
subscribed_to_counter (some p) name subscribed u = refl

apply_counter :
    (op : Op) (u : User)
    → u.prev_uid_validity + 1 < u32_mod
    → (apply op u).0.prev_uid_validity ≤ u.prev_uid_validity + 1
unfolding apply create delete rename set_subscribed
apply_counter (create_op name) u r =
    created_counter (lookup (trim_right name) u.names) (trim_right name) u r
apply_counter (delete_op name) u r = omega (arith, deleted_counter (lookup name u.names) name u)
apply_counter (rename_op old_name new_name) u r = omega (
  arith,
  renamed_counter (lookup old_name u.names) (lookup (trim_right new_name) u.names) old_name
      (trim_right new_name) u,
)
apply_counter (subscribe_op name subscribed) u r =
    omega (arith, subscribed_to_counter (lookup name u.names) name subscribed u)

-- Any sequence of CREATE, DELETE, RENAME and SUBSCRIBE commands, from a well-formed user that refines a map from
-- names to UIDVALIDITY values, gives the same results as the abstract operations on that map, as long as the
-- counter of UIDVALIDITY values cannot wrap around.
pub results-spec_results :
    (ops : List Op) (u : User) (s : Spec)
    → IsUser u
    → u.prev_uid_validity + length ops < u32_mod
    → Refines u s
    → results ops u ≡ spec_results ops s
results-spec_results [] u s w r h = refl
results-spec_results (op ∷ ops) u s w r h =
    let room : u.prev_uid_validity + 1 < u32_mod = omega arith in
    let (h', same) = apply-Refines op u s w room h in
    rw (
      same,
      results-spec_results ops (apply op u).0 (spec op s).0 (apply-IsUser op u w room)
          (omega (arith, apply_counter op u room)) h',
    )
