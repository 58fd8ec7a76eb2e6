-- ===== src/MemUser/Values.antt =====
-- imapserver/imapmemserver/user.go: the UIDVALIDITY values that the names of a user lead to
use go_imap.Prelude.{
  ℕ, ◌+◌, ◌<◌, ◌≡◌, refl, sym, ◌∙◌, ap, List, [], ◌∷◌, ◌++◌, Option, none, some, length, get_elem?,
  arith, Bool-cases, Option-cases, inl, inr,
}
use go_imap.Strconv.{Bytes}
use go_imap.Strconv.Bytes.{same_bytes}
use go_imap.NumSet.{u32_mod}
use go_imap.MemMailbox.{next_u32, new_mailbox}
use go_imap.MemUser.Names.{lookup, put, lookup-put}
use go_imap.MemUser.{User, Entry, new_entry}
use go_imap.MemUser.Spec.{Spec, at_name}
use go_imap.MemUser.Store.{get_elem?-append, get_elem?_last, on_entry}
use go_imap.MemUser.Laws.{IsUser, lookup_bound}

-- The value of the mailbox that a name leads to
abbrev pub validity_at : List Entry → ℕ → Option ℕ
validity_at store p = on_entry (λ e. e.mailbox.uid_validity) (get_elem? store p)

abbrev pub validity_of : Option ℕ → List Entry → Option ℕ
validity_of none store = none
validity_of (some p) store = validity_at store p

pub record Refines (u : User) (s : Spec) : Type 0 where
  pub values : (k : Bytes) → validity_of (lookup k u.names) u.store ≡ s.at k
  pub counter : u.prev_uid_validity ≡ s.last

-- A place that a name leads to holds a mailbox.
pub validity_at-some :
    (u : User) (k : Bytes) (p : ℕ)
    → IsUser u
    → lookup k u.names ≡ some p
    → (v : ℕ) × (validity_at u.store p ≡ some v)
validity_at-some u k p w h = elim (Option-cases (get_elem? u.store p)) [
  | inl e ↦ cc (ap (on_entry (λ e'. e'.name)) e, w.named k p h)
  | inr (x, e) ↦ (x.mailbox.uid_validity, rw e)
]

-- The user finds a mailbox where the map holds a value.
abbrev pub Agree : Option ℕ → Option ℕ → Type 0
Agree none none = Unit
Agree (some p) (some v) = Unit
Agree _ _ = ⊥

pub agree :
    (u : User) (s : Spec) (k : Bytes) (o v : Option ℕ)
    → IsUser u
    → Refines u s
    → lookup k u.names ≡ o
    → s.at k ≡ v
    → Agree o v
agree u s k none none w h e f = tt
agree u s k none (some v) w h e f = cc (rw e at (h.values k), f)
agree u s k (some p) none w h e f =
    let (v, value) = validity_at-some u k p w e in cc (sym value ∙ (rw e at (h.values k)) ∙ f)
agree u s k (some p) (some v) w h e f = tt

-- A mailbox that is added does not change the values of the others.
pub old_values :
    (u : User) (e : Entry) (k : Bytes) (o : Option ℕ)
    → IsUser u
    → lookup k u.names ≡ o
    → validity_of o (u.store ++ e ∷ []) ≡ validity_of o u.store
old_values u e k none w h = refl
old_values u e k (some p) w h = rw (get_elem?-append u.store e p (lookup_bound u k p w h))

pub created_values :
    (u : User) (s : Spec) (name k : Bytes)
    → IsUser u
    → u.prev_uid_validity + 1 < u32_mod
    → Refines u s
    → validity_of
        (lookup k (put name (length u.store) u.names))
        (u.store ++ new_entry u.username name (next_u32 u.prev_uid_validity) ∷ [])
      ≡ at_name name (some (s.last + 1)) s.at k
unfolding new_mailbox
created_values u s name k w r h = elim (Bool-cases (same_bytes name k)) [
  | inl e ↦
      let next : next_u32 u.prev_uid_validity ≡ s.last + 1 = omega (arith, h.counter) in
      rw (
        lookup-put k name (length u.store) u.names,
        e,
        get_elem?_last u.store (new_entry u.username name (next_u32 u.prev_uid_validity)),
        next,
      )
  | inr e ↦
      rw (lookup-put k name (length u.store) u.names, e)
        (old_values u (new_entry u.username name (next_u32 u.prev_uid_validity)) k
            (lookup k u.names) w refl
          ∙ h.values k)
]
