-- ===== src/MemUser/Laws.antt =====
-- imapserver/imapmemserver/user.go: the store of mailboxes, and that a mailbox knows the name it is found by
use go_imap.Prelude.{
  ℕ, zero, suc, ◌+◌, ◌≤◌, ◌<◌, ◌≡◌, refl, sym, ◌∙◌, Bool, true, false, List, [], ◌∷◌, ◌++◌, ◌==◌,
  if◌then◌else◌, Option, none, some, length, get_elem?, set, arith, All, All-append, Bool-cases,
  Option-cases, inl, inr,
}
use go_imap.Strconv.{Bytes}
use go_imap.Strconv.Bytes.{same_bytes, same_bytes_iff}
use go_imap.NumSet.{u32_mod}
use go_imap.MemMailbox.{next_u32, new_mailbox}
use go_imap.MemUser.Names.{NameMap, lookup, put, remove, lookup-put, lookup-remove, same_bytes_eq}
use go_imap.MemUser.{
  User, Entry, created, deleted, renamed, subscribed_to, update_entry, set_name, new_entry,
}
use go_imap.MemUser.Store.{
  get_elem?-append, get_elem?_last, get_elem?_bound, on_entry, get_elem?-update_entry, name_at,
}

-- Every name leads to a mailbox of that name, and no mailbox, deleted or not, has a UIDVALIDITY that is still to
-- be given out.
pub record IsUser (u : User) : Type 0 where
  pub named : (k : Bytes) (p : ℕ) → lookup k u.names ≡ some p → name_at u.store p ≡ some k
  pub fresh : All (λ e. e.mailbox.uid_validity ≤ u.prev_uid_validity) u.store

name_at_bound :
    (store : List Entry) (p : ℕ) (k : Bytes) → name_at store p ≡ some k → p < length store
name_at_bound store p k h = elim (Option-cases (get_elem? store p)) [
  | inl e ↦ cc (rw e at h)
  | inr (x, e) ↦ get_elem?_bound store p x e
]

pub lookup_bound :
    (u : User) (k : Bytes) (p : ℕ) → IsUser u → lookup k u.names ≡ some p → p < length u.store
lookup_bound u k p w e = name_at_bound u.store p k (w.named k p e)

put_created :
    (u : User) (name k : Bytes) (p : ℕ)
    → IsUser u
    → lookup k (put name (length u.store) u.names) ≡ some p
    → name_at (u.store ++ new_entry u.username name (next_u32 u.prev_uid_validity) ∷ []) p ≡ some k
put_created u name k p w h = elim (Bool-cases (same_bytes name k)) [
  | inl e ↦
      let place : p ≡ length u.store =
        cc (rw e at (sym (lookup-put k name (length u.store) u.names) ∙ h)) in
      rw (
        place,
        get_elem?_last u.store (new_entry u.username name (next_u32 u.prev_uid_validity)),
        same_bytes_eq name k e,
      )
  | inr e ↦
      let old : lookup k u.names ≡ some p =
        rw e at (sym (lookup-put k name (length u.store) u.names) ∙ h) in
      rw
        (get_elem?-append u.store (new_entry u.username name (next_u32 u.prev_uid_validity)) p
          (lookup_bound u k p w old))
        (w.named k p old)
]

All-weaken :
    (store : List Entry) (n m : ℕ)
    → n ≤ m
    → All (λ e. e.mailbox.uid_validity ≤ n) store
    → All (λ e. e.mailbox.uid_validity ≤ m) store
All-weaken [] n m le h = tt
All-weaken (e ∷ store) n m le (h, hs) = (omega arith, All-weaken store n m le hs)

pub created-IsUser :
    (o : Option ℕ) (name : Bytes) (u : User)
    → IsUser u
    → u.prev_uid_validity + 1 < u32_mod
    → IsUser (created o name u).0
unfolding new_mailbox
created-IsUser (some p) name u w r = w
created-IsUser none name u w r =
    let next : next_u32 u.prev_uid_validity ≡ u.prev_uid_validity + 1 = omega arith in
    record {
      named = λ k p h. put_created u name k p w h;
      fresh =
          All-append _ u.store (new_entry u.username name (next_u32 u.prev_uid_validity) ∷ [])
            (All-weaken u.store u.prev_uid_validity (next_u32 u.prev_uid_validity) (omega arith)
              w.fresh)
            (omega arith, tt);
    }

remove_kept :
    (name k : Bytes) (q : ℕ) (names : NameMap)
    → lookup k (remove name names) ≡ some q
    → (lookup k names ≡ some q) × (same_bytes name k ≡ false)
remove_kept name k q names h = elim (Bool-cases (same_bytes name k)) [
  | inl e ↦ cc (rw e at (sym (lookup-remove k name names) ∙ h))
  | inr e ↦ (rw e at (sym (lookup-remove k name names) ∙ h), e)
]

pub deleted-IsUser :
    (o : Option ℕ) (name : Bytes) (u : User) → IsUser u → IsUser (deleted o name u).0
deleted-IsUser none name u w = w
deleted-IsUser (some p) name u w = record {
  named = λ k q h. w.named k q (remove_kept name k q u.names h).0;
  fresh = w.fresh;
}

pub set-All :
    (n p : ℕ) (store : List Entry) (e : Entry)
    → e.mailbox.uid_validity ≤ n
    → All (λ e. e.mailbox.uid_validity ≤ n) store
    → All (λ e. e.mailbox.uid_validity ≤ n) (set store p e)
set-All n p [] e h _ = tt
set-All n zero (x ∷ store) e h (_, hs) = (h, hs)
set-All n (suc p) (x ∷ store) e h (hx, hs) = (hx, set-All n p store e h hs)

pub get-All :
    (n p : ℕ) (store : List Entry) (e : Entry)
    → get_elem? store p ≡ some e
    → All (λ e. e.mailbox.uid_validity ≤ n) store
    → e.mailbox.uid_validity ≤ n
get-All n p [] e g h = cc g
get-All n zero (x ∷ store) e g (h, _) = let same : x ≡ e = cc g in rw (← same) h
get-All n (suc p) (x ∷ store) e g (_, hs) = get-All n p store e g hs

-- A write that leaves the mailbox as it is
abbrev pub KeepsMailbox : (Entry → Entry) → Type 0
KeepsMailbox f = (e : Entry) → (f e).mailbox ≡ e.mailbox

pub update_entry-fresh :
    (f : Entry → Entry) (n p : ℕ) (store : List Entry)
    → KeepsMailbox f
    → All (λ e. e.mailbox.uid_validity ≤ n) store
    → All (λ e. e.mailbox.uid_validity ≤ n) (update_entry f p store)
unfolding update_entry
update_entry-fresh f n p store keeps h = elim (Option-cases (get_elem? store p)) [
  | inl e ↦ rw e h
  | inr (x, e) ↦ rw e (set-All n p store (f x) (rw (keeps x) (get-All n p store x e h)) h)
]

on_entry-twice :
    (f : Entry → Entry) (o : Option Entry)
    → on_entry (λ e. e.name) (on_entry f o) ≡ on_entry (λ e. (f e).name) o
on_entry-twice f none = refl
on_entry-twice f (some e) = refl

name_at-update_entry :
    (f : Entry → Entry) (p q : ℕ) (store : List Entry)
    → name_at (update_entry f p store) q
      ≡ (if p == q then on_entry (λ e. (f e).name) (get_elem? store q) else name_at store q)
name_at-update_entry f p q store = elim (Bool-cases (p == q)) [
  | inl e ↦ rw (get_elem?-update_entry f p q store, e) (on_entry-twice f (get_elem? store q))
  | inr e ↦ rw (get_elem?-update_entry f p q store, e)
]

named_after :
    (new_name k : Bytes) (o : Option Entry)
    → on_entry (λ e. e.name) o ≡ some k
    → on_entry (λ e. (set_name new_name e).name) o ≡ some new_name
named_after new_name k none h = cc h
named_after new_name k (some e) h = refl

-- Two names lead to two mailboxes.
pub two_names :
    (store : List Entry) (j k : Bytes) (p q : ℕ)
    → name_at store p ≡ some j
    → name_at store q ≡ some k
    → same_bytes j k ≡ false
    → (p == q) ≡ false
two_names store j k p q hp hq other = elim (Bool-cases (p == q)) [
  | inl e ↦
      let place : p ≡ q = ground (arith, e) in
      let same : j ≡ k = cc (sym (rw place at hp) ∙ hq) in
      cc (sym other ∙ (same_bytes_iff j k).1 same)
  | inr e ↦ e
]

on_entry-keeps :
    (f : Entry → Entry) (o : Option Entry)
    → ((e : Entry) → (f e).name ≡ e.name)
    → on_entry (λ e. (f e).name) o ≡ on_entry (λ e. e.name) o
on_entry-keeps f none h = refl
on_entry-keeps f (some e) h = rw (h e)

pub name_kept :
    (f : Entry → Entry) (p q : ℕ) (k : Bytes) (store : List Entry)
    → ((e : Entry) → (f e).name ≡ e.name)
    → name_at store q ≡ some k
    → name_at (update_entry f p store) q ≡ some k
name_kept f p q k store keeps h = elim (Bool-cases (p == q)) [
  | inl e ↦
      rw (name_at-update_entry f p q store, e) (on_entry-keeps f (get_elem? store q) keeps ∙ h)
  | inr e ↦ rw (name_at-update_entry f p q store, e) h
]

put_renamed :
    (u : User) (old_name new_name k : Bytes) (p q : ℕ)
    → IsUser u
    → lookup old_name u.names ≡ some p
    → lookup k (remove old_name (put new_name p u.names)) ≡ some q
    → name_at (update_entry (set_name new_name) p u.store) q ≡ some k
put_renamed u old_name new_name k p q w old h =
    let (h', other) = remove_kept old_name k q (put new_name p u.names) h in
    elim (Bool-cases (same_bytes new_name k)) [
      | inl e ↦
          let place : p ≡ q = cc (rw e at (sym (lookup-put k new_name p u.names) ∙ h')) in
          let found : (p == q) ≡ true = ground (arith, place) in
          rw
            (
              name_at-update_entry (set_name new_name) p q u.store,
              found,
              ← same_bytes_eq new_name k e,
            )
            (named_after new_name old_name (get_elem? u.store q)
              (rw place at (w.named old_name p old)))
      | inr e ↦
          let kept : lookup k u.names ≡ some q =
            rw e at (sym (lookup-put k new_name p u.names) ∙ h') in
          let elsewhere : (p == q) ≡ false =
            two_names u.store old_name k p q (w.named old_name p old) (w.named k q kept) other in
          rw (name_at-update_entry (set_name new_name) p q u.store, elsewhere) (w.named k q kept)
    ]

pub renamed-IsUser :
    (o taken : Option ℕ) (old_name new_name : Bytes) (u : User)
    → lookup old_name u.names ≡ o
    → IsUser u
    → IsUser (renamed o taken old_name new_name u).0
renamed-IsUser none taken old_name new_name u e w = w
renamed-IsUser (some p) (some q) old_name new_name u e w = w
renamed-IsUser (some p) none old_name new_name u e w = record {
  named = λ k q h. put_renamed u old_name new_name k p q w e h;
  fresh = update_entry-fresh (set_name new_name) u.prev_uid_validity p u.store (λ x. refl) w.fresh;
}

abbrev pub set_flag : Bool → Entry → Entry
set_flag subscribed e = record e { subscribed = subscribed }

pub subscribed_to-IsUser :
    (o : Option ℕ) (name : Bytes) (subscribed : Bool) (u : User)
    → IsUser u
    → IsUser (subscribed_to o name subscribed u).0
subscribed_to-IsUser none name subscribed u w = w
subscribed_to-IsUser (some p) name subscribed u w = record {
  named = λ k q h. name_kept (set_flag subscribed) p q k u.store (λ x. refl) (w.named k q h);
  fresh =
      update_entry-fresh (set_flag subscribed) u.prev_uid_validity p u.store (λ x. refl) w.fresh;
}
