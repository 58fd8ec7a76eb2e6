-- ===== src/MemMailbox.antt =====
-- imapserver/imapmemserver/mailbox.go and message.go: the in-memory mailbox on top of the mailbox
-- tracker. Every function here runs under the mailbox's mutex in the source. A pointer to a message is its
-- UID, which no two messages of a mailbox share. The header and the date of a message, which other
-- packages parse from its text, and the name, subscription, metadata and ACL of a mailbox are left out.
-- The map of a message's flags is a list without order or repetition.
pub mod Flags
pub mod Append
pub mod Expunge
pub mod Select
pub mod Static
pub mod Store
pub mod Search
pub mod Find
mod Tests
use go_imap.Prelude.{
  ℕ, ◌+◌, ◌-◌, ◌%◌, ◌^◌, Bool, true, false, not, ◌&&◌, ◌||◌, List, [], ◌∷◌, ◌++◌, ltb, leb, ◌==◌,
  if◌then◌else◌, Option, none, some, length,
}
use go_imap.Strconv.{Bytes, codes}
use go_imap.Strconv.Bytes.{same_bytes, to_lower, member}
use go_imap.NumSet.{u32_mod, Set, set_contains}
use go_imap.Tracker.{MailboxTracker, new_mailbox_tracker, queue_expunge, queue_num_messages}

-- message
pub record Message : Type 0 where
  pub uid : ℕ
  pub buf : Bytes
  pub t : ℕ
  pub flags : List Bytes
  pub mod_seq : ℕ

-- expungedMessage
pub record ExpungedMessage : Type 0 where
  pub uid : ℕ
  pub mod_seq : ℕ

-- Mailbox
pub record Mailbox : Type 0 where
  pub tracker : MailboxTracker
  pub uid_validity : ℕ
  pub l : List Message
  pub uid_next : ℕ
  pub highest_mod_seq : ℕ
  pub expunged : List ExpungedMessage

-- A uint64 counter after ++
abbrev pub next_u64 : ℕ → ℕ
next_u64 n = (n + 1) % 2 ^ 64

abbrev pub next_u32 : ℕ → ℕ
next_u32 n = (n + 1) % u32_mod

-- NewMailbox
unfoldable pub new_mailbox : ℕ → Mailbox
new_mailbox uid_validity = record {
  tracker = new_mailbox_tracker 0;
  uid_validity = uid_validity;
  l = [];
  uid_next = 1;
  highest_mod_seq = 1;
  expunged = [];
}

-- canonicalFlag
abbrev pub canonical_flag : Bytes → Bytes
canonical_flag = to_lower

-- flags[flag] = struct{}{}
unfoldable pub add_flag : Bytes → List Bytes → List Bytes
unfolding member
add_flag f fs = if member f fs then fs else f ∷ fs

-- delete(flags, flag)
unfoldable pub remove_flag : Bytes → List Bytes → List Bytes
remove_flag f [] = []
remove_flag f (g ∷ fs) = if same_bytes f g then remove_flag f fs else g ∷ remove_flag f fs

-- for _, flag := range flags { msg.flags[canonicalFlag(flag)] = struct{}{} }
unfoldable pub add_flags : List Bytes → List Bytes → List Bytes
unfolding add_flag
add_flags [] fs = fs
add_flags (f ∷ new) fs = add_flags new (add_flag (canonical_flag f) fs)

unfoldable pub remove_flags : List Bytes → List Bytes → List Bytes
unfolding remove_flag
remove_flags [] fs = fs
remove_flags (f ∷ old) fs = remove_flags old (remove_flag (canonical_flag f) fs)

-- imap.AppendOptions; a zero time is `none`
pub record AppendOptions : Type 0 where
  pub time : Option ℕ
  pub flags : List Bytes

abbrev time_or : ℕ → Option ℕ → ℕ
time_or now none = now
time_or now (some t) = t

-- imap.AppendData
pub record AppendData : Type 0 where
  pub uid_validity : ℕ
  pub uid : ℕ

-- Mailbox.appendBytes; `now` is the clock.
unfoldable pub append_bytes : ℕ → Mailbox → Bytes → AppendOptions → Mailbox × AppendData
append_bytes now m buf options =
    let msg : Message = record {
      uid = m.uid_next;
      buf = buf;
      t = time_or now options.time;
      flags = add_flags options.flags [];
      mod_seq = next_u64 m.highest_mod_seq;
    } in
    let l = m.l ++ msg ∷ [] in
    (
      record m {
        tracker = (queue_num_messages m.tracker (length l % u32_mod)).0;
        l = l;
        uid_next = next_u32 m.uid_next;
        highest_mod_seq = next_u64 m.highest_mod_seq;
      },
      record { uid_validity = m.uid_validity; uid = m.uid_next },
    )

-- Mailbox.copyMsg
unfoldable pub copy_msg : ℕ → Mailbox → Message → Mailbox × AppendData
copy_msg now m msg = append_bytes now m msg.buf (record { time = some msg.t; flags = msg.flags })

abbrev pub mem : ℕ → List ℕ → Bool
mem u [] = false
mem u (v ∷ vs) = u == v || mem u vs

-- What the loop of expungeLocked changes: the tracker, the log of expunged messages, the messages that
-- stay, and the sequence numbers that it returns.
pub record Expunging : Type 0 where
  pub tracker : MailboxTracker
  pub expunged : List ExpungedMessage
  pub kept : List Message
  pub seq_nums : List ℕ

-- One round of the loop: the message at place `i` of the list
unfoldable pub expunge_one : List ℕ → ℕ → ℕ → Message → Expunging → Expunging
expunge_one gone mod_seq i msg st =
    if mem msg.uid gone
    then record {
      tracker = (queue_expunge st.tracker ((i + 1) % u32_mod) msg.uid).0;
      expunged = st.expunged ++ (record { uid = msg.uid; mod_seq = mod_seq }) ∷ [];
      kept = st.kept;
      seq_nums = st.seq_nums ++ ((i + 1) % u32_mod) ∷ [];
    }
    else record st { kept = st.kept ++ msg ∷ [] }

unfoldable pub expunge_loop : List ℕ → ℕ → ℕ → List Message → Expunging → Expunging
expunge_loop gone mod_seq i [] st = st
expunge_loop gone mod_seq i (msg ∷ l) st =
    expunge_loop gone mod_seq (i + 1) l (expunge_one gone mod_seq i msg st)

abbrev pub expunging : Mailbox → Expunging
expunging m = record { tracker = m.tracker; expunged = m.expunged; kept = []; seq_nums = [] }

-- Mailbox.expungeLocked; `gone` are the messages of the map.
unfoldable pub expunge_locked : Mailbox → List ℕ → Mailbox × List ℕ
expunge_locked m gone =
    let st = expunge_loop gone (next_u64 m.highest_mod_seq) 0 m.l (expunging m) in
    (
      record m {
        tracker = st.tracker;
        l = st.kept;
        highest_mod_seq = next_u64 m.highest_mod_seq;
        expunged = st.expunged;
      },
      st.seq_nums,
    )

-- imap.FlagSeen and imap.FlagDeleted
abbrev pub flag_seen : Bytes
flag_seen = codes "\\Seen"

abbrev pub flag_deleted : Bytes
flag_deleted = codes "\\Deleted"

-- _, ok := msg.flags[canonicalFlag(flag)]
unfoldable pub has_flag : Bytes → Message → Bool
has_flag flag msg = member (canonical_flag flag) msg.flags

abbrev in_uids : Option Set → ℕ → Bool
in_uids none uid = true
in_uids (some uids) uid = set_contains uids uid

-- The first critical section of Mailbox.Expunge: the messages to expunge
unfoldable pub to_expunge : Option Set → List Message → List ℕ
unfolding has_flag
to_expunge uids [] = []
to_expunge uids (msg ∷ l) =
    let rest = to_expunge uids l in
    if in_uids uids msg.uid && has_flag flag_deleted msg then msg.uid ∷ rest else rest

expunge_found : Mailbox → List ℕ → Mailbox
expunge_found m [] = m
expunge_found m (u ∷ gone) = (expunge_locked m (u ∷ gone)).0

-- Mailbox.Expunge
unfoldable pub expunge : Mailbox → Option Set → Mailbox
unfolding expunge_found to_expunge
expunge m uids = expunge_found m (to_expunge uids m.l)

-- Mailbox.countByFlagLocked
unfoldable pub count_by_flag : Bytes → List Message → ℕ
unfolding has_flag
count_by_flag flag [] = 0
count_by_flag flag (msg ∷ l) =
    let n = count_by_flag flag l in if has_flag flag msg then (n + 1) % u32_mod else n

first_unseen_from : ℕ → List Message → ℕ
first_unseen_from i [] = 0
first_unseen_from i (msg ∷ l) =
    let rest = first_unseen_from (i + 1) l in
    if not (has_flag flag_seen msg) then (i + 1) % u32_mod else rest

-- Mailbox.firstUnseenSeqNumLocked
unfoldable pub first_unseen_seq_num : List Message → ℕ
unfolding first_unseen_from has_flag
first_unseen_seq_num = first_unseen_from 0
