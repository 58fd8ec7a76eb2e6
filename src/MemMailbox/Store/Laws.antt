-- ===== src/MemMailbox/Store/Laws.antt =====
-- What STORE does to the messages of a mailbox.
use go_imap.Prelude.{
  ℕ, ◌+◌, ◌%◌, ◌≡◌, ◌∙◌, inl, inr, refl, sym, ap, Bool, true, false, not, ◌&&◌, ◌||◌, List, [], ◌∷◌,
  ◌++◌, append_assoc, append-nil, ltb, ◌==◌, get_or, Bool-cases,
}
use go_imap.NumSet.{set_contains, u32_mod}
use go_imap.Tracker.{MailboxTracker, SessionTracker, encode_seq_num}
use go_imap.MemMailbox.Append.{IsMemMailbox}
use go_imap.MemMailbox.Store.View.{IsCurrent, queue_message_flags-session, session-IsCurrent}
use go_imap.MemMailbox.{Message, Mailbox}
use go_imap.MemMailbox.Select.{session_of, MailboxView, closed_session}
use go_imap.MemMailbox.Static.{uids, seqs, search_res, NumSet, static_num_set, selects}
use go_imap.MemMailbox.Store.{
  start_storing, in_uid_space, StoreFlags, StoreOptions, message_store, Storing, store_failed,
  store_changed, store_one, store_step, store_loop, store,
}
use go_imap.MemMailbox.Store.Effect.{IsStored, message_store-IsStored}

-- The condition of the STORE forbids to change the message.
abbrev pub is_blocked : StoreOptions → Message → Bool
is_blocked options msg =
    (options.unchanged_since_set || not (options.unchanged_since == 0))
    && ltb options.unchanged_since msg.mod_seq

-- The resolved set of the command holds the message: its UID, or the sequence number that it has in the view of the
-- session, of which there may be none.
abbrev pub is_named : SessionTracker → NumSet → ℕ → Message → Bool
is_named s (uids numbers) k msg = set_contains numbers msg.uid
is_named s (seqs numbers) k msg =
    not (encode_seq_num s k == 0) && set_contains numbers (encode_seq_num s k)
is_named s search_res k msg = false

abbrev pub Becomes : Bool → StoreFlags → ℕ → Message → Message → ℕ → Type 0
Becomes true flags h msg msg' h' = IsStored flags h msg msg' h'
Becomes false flags h msg msg' h' = (msg' ≡ msg) × (h' ≡ h)

-- The messages at the places behind `i`, one by one
abbrev pub AllBecome :
    SessionTracker
    → NumSet
    → StoreFlags
    → StoreOptions
    → ℕ
    → ℕ
    → List Message
    → List Message
    → ℕ
    → Type 0
AllBecome s ns flags options i h [] [] h' = h' ≡ h
AllBecome s ns flags options i h (msg ∷ l) (msg' ∷ l') h' =
    (next : ℕ) × Becomes (is_named s ns ((i + 1) % u32_mod) msg && not (is_blocked options msg))
      flags h msg msg' next
    × AllBecome s ns flags options (i + 1) next l l' h'
AllBecome s ns flags options i h _ _ h' = ⊥

is_named-selects :
    (s : SessionTracker) (ns : NumSet) (k : ℕ) (msg : Message)
    → selects s ns k msg.uid ≡ is_named s ns k msg
unfolding selects
is_named-selects s (uids numbers) k msg = refl
is_named-selects s (seqs numbers) k msg = refl
is_named-selects s search_res k msg = refl

module _ (session : ℕ) (uid_space : Bool) (flags : StoreFlags) (options : StoreOptions) where
  abbrev own : MailboxTracker → SessionTracker
  own t = get_or t.sessions session closed_session

  -- The state of the loop behind one more message, in which the session sees what it saw
  record Goes (st : Storing) (msg' : Message) (h' : ℕ) (st' : Storing) : Type 0 where
    pub l : st'.l ≡ st.l ++ msg' ∷ []
    pub highest : st'.highest_mod_seq ≡ h'
    pub count : st'.tracker.num_messages ≡ st.tracker.num_messages
    pub view : own st'.tracker ≡ own st.tracker

  store_failed-Goes :
      (k : ℕ) (msg : Message) (st : Storing)
      → Goes st msg st.highest_mod_seq (store_failed session uid_space flags options k msg st)
  unfolding store_failed
  store_failed-Goes k msg st = elim (Bool-cases uid_space) [
    | inl y ↦ rw y (record { l = refl; highest = refl; count = refl; view = refl })
    | inr n ↦ elim (Bool-cases (not (encode_seq_num (own st.tracker) k == 0))) [
      | inl y ↦ rw (n, y) (record { l = refl; highest = refl; count = refl; view = refl })
      | inr n' ↦ rw (n, n') (record { l = refl; highest = refl; count = refl; view = refl })
    ]
  ]

  store_changed-Goes :
      (k : ℕ) (st : Storing) (r : ℕ × Message × Bool)
      → IsCurrent st.tracker (own st.tracker)
      → Goes st r.1 r.0 (store_changed session uid_space flags options k st r)
  unfolding store_changed
  store_changed-Goes k st (h, msg, false) c = record {
    l = refl;
    highest = refl;
    count = refl;
    view = refl;
  }
  store_changed-Goes k st (h, msg, true) c =
      let (n, v) = queue_message_flags-session st.tracker _ session c in
      record { l = refl; highest = refl; count = n; view = v }

  store_step-Goes :
      (ns : NumSet) (k : ℕ) (msg : Message) (st : Storing)
      → IsCurrent st.tracker (own st.tracker)
      → (msg' : Message) × (h' : ℕ) × Goes st msg' h'
          (store_step session uid_space flags options ns k msg st)
        × Becomes
            (is_named (own st.tracker) ns k msg && not (is_blocked options msg))
            flags
            st.highest_mod_seq
            msg
            msg'
            h'
  unfolding store_step store_one
  store_step-Goes ns k msg st c =
      let named = is_named-selects (own st.tracker) ns k msg in
      elim (Bool-cases (is_named (own st.tracker) ns k msg)) [
        | inr out ↦ (
          msg,
          st.highest_mod_seq,
          rw (named, out) (record { l = refl; highest = refl; count = refl; view = refl }),
          rw out (refl, refl),
        )
        | inl chosen ↦ elim (Bool-cases (is_blocked options msg)) [
          | inl b ↦ (
            msg,
            st.highest_mod_seq,
            rw (named, chosen, b) (store_failed-Goes k msg st),
            rw (chosen, b) (refl, refl),
          )
          | inr b ↦
              let r = message_store st.highest_mod_seq msg flags in
              (
                r.1,
                r.0,
                rw (named, chosen, b) (store_changed-Goes k st r c),
                rw (chosen, b) (message_store-IsStored st.highest_mod_seq msg flags),
              )
        ]
      ]

  store_loop-AllBecome :
      (ns : NumSet) (i : ℕ) (l : List Message) (st : Storing)
      → IsCurrent st.tracker (own st.tracker)
      → let st' = store_loop session uid_space flags options ns i l st in
        (l' : List Message) × (st'.l ≡ st.l ++ l')
        × AllBecome (own st.tracker) ns flags options i st.highest_mod_seq l l' st'.highest_mod_seq
  unfolding store_loop store_step
  store_loop-AllBecome ns i [] st c = ([], sym (append-nil st.l), refl)
  store_loop-AllBecome ns i (msg ∷ l) st c =
      let st1 = store_step session uid_space flags options ns ((i + 1) % u32_mod) msg st in
      let (msg', h, goes, one) = store_step-Goes ns ((i + 1) % u32_mod) msg st c in
      let (l', e, all) = store_loop-AllBecome ns (i + 1) l st1 (rw (goes.view, goes.count) c) in
      (
        msg' ∷ l',
        e ∙ ap (λ x. x ++ l') goes.l ∙ append_assoc st.l (msg' ∷ []) l',
        (h, one, rw (goes.view, goes.highest) at all),
      )

-- STORE on a mailbox in order keeps the messages in their places. A message that the resolved set does not name, or
-- whose modification sequence is above UNCHANGEDSINCE of a conditional STORE, is not touched. Every other one
-- keeps its UID, text and time and has exactly the flags that the operation asks for, compared up to case:
-- if they are the flags that it had, no modification sequence moves; else it gets the next one of the mailbox,
-- and then the number of its flags or one of them is another.
pub store_lem :
    (m : Mailbox) (v : MailboxView) (ns : NumSet) (flags : StoreFlags) (options : StoreOptions)
    → IsMemMailbox m
    → let m' = (store m v ns flags options).mailbox in
      AllBecome
        (session_of m v)
        (static_num_set m v ns)
        flags
        options
        0
        m.highest_mod_seq
        m.l
        m'.l
        m'.highest_mod_seq
unfolding store
store_lem m v ns flags options w =
    let (l', e, all) =
      store_loop-AllBecome v.session (in_uid_space ns options) flags options (static_num_set m v ns)
        0 m.l (start_storing m) (session-IsCurrent m.tracker v.session w.tracked) in
    rw e all
