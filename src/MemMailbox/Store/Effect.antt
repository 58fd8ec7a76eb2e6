-- ===== src/MemMailbox/Store/Effect.antt =====
-- imapserver/imapmemserver/message.go: what message.store does to one message
use go_imap.Prelude.{
  ℕ, ◌≡◌, ◌⊎◌, ◌∙◌, inl, inr, refl, Bool, true, false, not, ◌&&◌, ◌||◌, List, [], ◌∷◌, arith, ◌==◌,
  length, ◌≢◌, Bool-cases,
}
use go_imap.Strconv.{Bytes}
use go_imap.Strconv.Bytes.{same_bytes_iff, member}
use go_imap.MemMailbox.{Message, next_u64}
use go_imap.MemMailbox.Flags.{names, member-add_flags, member-remove_flags}
use go_imap.MemMailbox.Store.{
  StoreFlagsOp, set, add, del, StoreFlags, stored_flags, misses, flags_differ, message_store,
}

-- The flags that a message should have after a STORE.
abbrev pub wanted : StoreFlagsOp → Bytes → List Bytes → List Bytes → Bool
wanted set f new old = names f new
wanted add f new old = member f old || names f new
wanted del f new old = member f old && not (names f new)

member-stored_flags :
    (op : StoreFlagsOp) (f : Bytes) (new old : List Bytes)
    → member f (stored_flags op new old) ≡ wanted op f new old
unfolding stored_flags
member-stored_flags set f new old = member-add_flags f new [] ∙ unfold member in refl
member-stored_flags add f new old = member-add_flags f new old
member-stored_flags del f new old = member-remove_flags f new old

misses-member :
    (f : Bytes) (old fs : List Bytes)
    → misses old fs ≡ false
    → member f old ≡ true
    → member f fs ≡ true
unfolding misses member
misses-member f [] fs h e = cc
misses-member f (g ∷ old) fs h e =
    ground (arith, same_bytes_iff f g, misses-member f old fs, same_member f g fs)
  where
    same_member : (f g : Bytes) (fs : List Bytes) → f ≡ g → member f fs ≡ member g fs
    same_member f g fs e = rw e refl

flags_differ-false :
    (f : Bytes) (old new : List Bytes) → flags_differ old new ≡ false → member f new ≡ member f old
unfolding flags_differ
flags_differ-false f old new h = ground (arith, misses-member f old new, misses-member f new old)

-- message.store: the message then has exactly the flags that the operation asks for, compared up to case.
-- If it reports no change, these are the flags that it had, and no modification sequence moves; if it
-- reports a change, the message gets the next modification sequence of the mailbox.
pub message_store_lem :
    (h : ℕ) (msg : Message) (s : StoreFlags)
    → ((f : Bytes) → member f (message_store h msg s).1.flags ≡ wanted s.op f s.flags msg.flags)
      × ((message_store h msg s).2 ≡ false
          → ((f : Bytes) → member f (message_store h msg s).1.flags ≡ member f msg.flags)
            × ((message_store h msg s).0 ≡ h)
            × ((message_store h msg s).1.mod_seq ≡ msg.mod_seq))
      × ((message_store h msg s).2 ≡ true
          → ((message_store h msg s).0 ≡ next_u64 h)
            × ((message_store h msg s).1.mod_seq ≡ next_u64 h))
unfolding message_store
message_store_lem h msg s =
    elim (Bool-cases (flags_differ msg.flags (stored_flags s.op s.flags msg.flags))) [
      | inl d ↦
          rw d ((λ f. member-stored_flags s.op f s.flags msg.flags), (λ e. cc), λ e. (refl, refl))
      | inr d ↦ rw d (
        (λ f. member-stored_flags s.op f s.flags msg.flags),
        (λ e. ((λ f. flags_differ-false f msg.flags _ d), refl, refl)),
        λ e. cc,
      )
    ]

misses-lost :
    (old fs : List Bytes)
    → misses old fs ≡ true
    → (f : Bytes) × (member f old ≡ true) × (member f fs ≡ false)
unfolding misses member
misses-lost [] fs h = cc h
misses-lost (g ∷ old) fs h = elim (Bool-cases (member g fs)) [
  | inr lost ↦ (g, ground (arith, same_bytes_iff g g), lost)
  | inl kept ↦
      let (f, was, gone) = misses-lost old fs (rw kept at h) in (f, ground (arith, was), gone)
]

-- The flags of two messages are the same, compared up to case, or their numbers or some flag tell them apart.
abbrev pub SameFlags : List Bytes → List Bytes → Type 0
SameFlags old new = (f : Bytes) → member f new ≡ member f old

abbrev pub OtherFlags : List Bytes → List Bytes → Type 0
OtherFlags old new = (length old ≢ length new) ⊎ ((f : Bytes) × (member f old ≢ member f new))

flags_differ-OtherFlags : (old new : List Bytes) → flags_differ old new ≡ true → OtherFlags old new
unfolding flags_differ
flags_differ-OtherFlags old new h = elim (Bool-cases (length old == length new)) [
  | inr d ↦ inl (λ e. ground (arith, d, e))
  | inl same ↦ elim (Bool-cases (misses old new)) [
    | inl m ↦ let (f, was, gone) = misses-lost old new m in inr (f, λ e. cc)
    | inr none ↦ let (f, was, gone) = misses-lost new old (rw (same, none) at h) in inr (f, λ e. cc)
  ]
]

-- What STORE makes of a message that it may change, with the highest modification sequence before and after
pub record IsStored (flags : StoreFlags) (h : ℕ) (msg msg' : Message) (h' : ℕ) : Type 0 where
  pub uid : msg'.uid ≡ msg.uid
  pub buf : msg'.buf ≡ msg.buf
  pub t : msg'.t ≡ msg.t
  pub flagged : (f : Bytes) → member f msg'.flags ≡ wanted flags.op f flags.flags msg.flags
  pub sequence :
      (SameFlags msg.flags msg'.flags × (msg'.mod_seq ≡ msg.mod_seq) × (h' ≡ h))
      ⊎ (OtherFlags msg.flags msg'.flags × (msg'.mod_seq ≡ next_u64 h) × (h' ≡ next_u64 h))

pub message_store-IsStored :
    (h : ℕ) (msg : Message) (s : StoreFlags)
    → IsStored s h msg (message_store h msg s).1 (message_store h msg s).0
unfolding message_store
message_store-IsStored h msg s =
    elim (Bool-cases (flags_differ msg.flags (stored_flags s.op s.flags msg.flags))) [
      | inl d ↦ rw d (record {
        uid = refl;
        buf = refl;
        t = refl;
        flagged = λ f. member-stored_flags s.op f s.flags msg.flags;
        sequence = inr (flags_differ-OtherFlags msg.flags _ d, refl, refl);
      })
      | inr d ↦ rw d (record {
        uid = refl;
        buf = refl;
        t = refl;
        flagged = λ f. member-stored_flags s.op f s.flags msg.flags;
        sequence = inl ((λ f. flags_differ-false f msg.flags _ d), refl, refl);
      })
    ]
