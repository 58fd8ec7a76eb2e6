-- ===== src/MemMailbox/Select.antt =====
-- MailboxView.selectData of imapserver/imapmemserver/mailbox.go. The lists of flags are left out.
use go_imap.NumSet.Search.{set_contains-nil}
use go_imap.Prelude.{
  ℕ, ◌+◌, ◌%◌, ◌≤◌, ◌<◌, ◌≡◌, ◌≢◌, ◌∙◌, refl, Bool, true, false, not, ◌&&◌, ◌||◌, List, [], ◌∷◌,
  arith, ltb, ◌==◌, if◌then◌else◌, Option, none, some, All, length, get_or, map, Bool-cases, inl,
  inr,
}
use go_imap.Strconv.{Bytes}
use go_imap.NumSet.{u32_mod, Set, add_num, set_contains}
use go_imap.NumSet.Canon.{IsCanon}
use go_imap.NumSet.Union.{set_contains-add_num, add_num-IsCanon}
use go_imap.Tracker.{SessionTracker, encode_seq_num}
use go_imap.MemMailbox.{Message, ExpungedMessage, Mailbox, first_unseen_seq_num}
use go_imap.MemMailbox.Append.{IsMemMailbox}

-- A session that the tracker does not know
abbrev pub closed_session : SessionTracker
closed_session = record {
  attached = false;
  registered = false;
  num_messages = 0;
  queue = [];
  updates = none;
  due = false;
}

-- MailboxView: the place of its session tracker, and the SEARCHRES variable
pub record MailboxView : Type 0 where
  pub session : ℕ
  pub search_res : Set

abbrev pub session_of : Mailbox → MailboxView → SessionTracker
session_of m v = get_or m.tracker.sessions v.session closed_session

-- imap.SelectModifiedData
pub record SelectModifiedData : Type 0 where
  pub seq_num : ℕ
  pub uid : ℕ
  pub flags : List Bytes
  pub mod_seq : ℕ

-- imap.SelectData
pub record SelectData : Type 0 where
  pub num_messages : ℕ
  pub first_unseen_seq_num : ℕ
  pub uid_next : ℕ
  pub uid_validity : ℕ
  pub highest_mod_seq : ℕ
  pub vanished : Set
  pub modified : List SelectModifiedData

-- imap.SelectQResyncOptions, as far as selectData reads it
pub record QResyncData : Type 0 where
  pub uid_validity : ℕ
  pub mod_seq : ℕ

unfoldable pub vanished_since : ℕ → List ExpungedMessage → Set → Set
vanished_since since [] s = s
vanished_since since (e ∷ es) s =
    vanished_since since es (if ltb since e.mod_seq then add_num s (e.uid ∷ []) else s)

unfoldable pub modified_since : SessionTracker → ℕ → ℕ → List Message → List SelectModifiedData
modified_since t since i [] = []
modified_since t since i (msg ∷ l) =
    let rest = modified_since t since (i + 1) l in
    let k = encode_seq_num t ((i + 1) % u32_mod) in
    if ltb since msg.mod_seq && not (k == 0)
    then (record { seq_num = k; uid = msg.uid; flags = msg.flags; mod_seq = msg.mod_seq }) ∷ rest
    else rest

-- Mailbox.selectDataLocked
abbrev select_data_locked : Mailbox → SelectData
select_data_locked m = record {
  num_messages = length m.l % u32_mod;
  first_unseen_seq_num = first_unseen_seq_num m.l;
  uid_next = m.uid_next;
  uid_validity = m.uid_validity;
  highest_mod_seq = m.highest_mod_seq;
  vanished = [];
  modified = [];
}

-- MailboxView.selectData
unfoldable pub select_data : Mailbox → MailboxView → Option QResyncData → SelectData
unfolding vanished_since modified_since
select_data m v none = select_data_locked m
select_data m v (some q) =
    if m.uid_validity == q.uid_validity
    then record (select_data_locked m) {
      vanished = vanished_since q.mod_seq m.expunged [];
      modified = modified_since (session_of m v) q.mod_seq 0 m.l;
    }
    else select_data_locked m

-- The log says that the message of this UID went after `since`.
abbrev pub went_since : ℕ → ℕ → List ExpungedMessage → Bool
went_since since u [] = false
went_since since u (e ∷ es) = ltb since e.mod_seq && u == e.uid || went_since since u es

vanished_since-went :
    (since u : ℕ) (es : List ExpungedMessage) (s : Set)
    → 0 < u
    → u < u32_mod
    → IsCanon s
    → All (λ e. e.uid < u32_mod) es
    → set_contains (vanished_since since es s) u ≡ (set_contains s u || went_since since u es)
unfolding vanished_since
vanished_since-went since u [] s p h c a = ground arith
vanished_since-went since u (e ∷ es) s p h c (b, a) = elim (Bool-cases (ltb since e.mod_seq)) [
  | inl later ↦ rw later (
      vanished_since-went since u es (add_num s (e.uid ∷ [])) p h
        (add_num-IsCanon s (e.uid ∷ []) c (b, tt)) a
      ∙ ground (arith, set_contains-add_num s (e.uid ∷ []) u c (b, tt) h))
  | inr before ↦ rw before (vanished_since-went since u es s p h c a)
]

-- The messages that the QRESYNC answer names
abbrev pub changed_since : SessionTracker → ℕ → ℕ → List Message → List ℕ
changed_since t since i [] = []
changed_since t since i (msg ∷ l) =
    if ltb since msg.mod_seq && not (encode_seq_num t ((i + 1) % u32_mod) == 0)
    then msg.uid ∷ changed_since t since (i + 1) l
    else changed_since t since (i + 1) l

modified_since-changed :
    (t : SessionTracker) (since i : ℕ) (l : List Message)
    → map (λ (d : SelectModifiedData). d.uid) (modified_since t since i l)
      ≡ changed_since t since i l
unfolding modified_since
modified_since-changed t since i [] = refl
modified_since-changed t since i (msg ∷ l) =
    ground (arith, modified_since-changed t since (i + 1) l)

expunged_bound :
    (n h : ℕ) (es : List ExpungedMessage)
    → n < u32_mod
    → All (λ e. (e.uid < n) × (e.mod_seq ≤ h)) es
    → All (λ e. e.uid < u32_mod) es
expunged_bound n h [] b a = tt
expunged_bound n h (e ∷ es) b (p, a) = (omega (arith, p.0), expunged_bound n h es b a)

-- SELECT with QRESYNC, where the client's UIDVALIDITY is the mailbox's: VANISHED holds exactly the UIDs of
-- the messages that were expunged after the client's modification sequence, and the modified messages
-- are, in order, those changed after it that the session's view has. With another UIDVALIDITY both are
-- empty.
pub select_data_qresync :
    (m : Mailbox) (v : MailboxView) (q : QResyncData)
    → IsMemMailbox m
    → m.uid_next < u32_mod
    → (m.uid_validity ≡ q.uid_validity
        → ((u : ℕ)
            → 0 < u
            → u < u32_mod
            → set_contains (select_data m v (some q)).vanished u
              ≡ went_since q.mod_seq u m.expunged)
          × (map (λ (d : SelectModifiedData). d.uid) (select_data m v (some q)).modified
              ≡ changed_since (session_of m v) q.mod_seq 0 m.l))
      × (m.uid_validity ≢ q.uid_validity → select_data m v (some q) ≡ select_data m v none)
unfolding select_data
select_data_qresync m v q w b = (
  (λ e.
      let t : (m.uid_validity == q.uid_validity) ≡ true = ground arith in
      (
        (λ u p h. rw t (
            vanished_since-went q.mod_seq u m.expunged [] p h tt
              (expunged_bound m.uid_next m.highest_mod_seq m.expunged b w.logged)
            ∙ rw (set_contains-nil u) refl)),
        rw t (modified_since-changed (session_of m v) q.mod_seq 0 m.l),
      )),
  λ e. let t : (m.uid_validity == q.uid_validity) ≡ false = ground arith in rw t refl,
)
