-- ===== src/MemSession.antt =====
-- imapserver/imapmemserver/session.go: the commands of a session that work on two mailboxes or change which one is
-- selected, on the mailboxes of MemUser. NOTIFY and the writers of the answers are left out; what a
-- writer is given is returned. `now` is the clock.
pub mod Copy
pub mod Laws
pub mod Users
mod Tests
use go_imap.Prelude.{
  ℕ, ◌+◌, ◌%◌, Bool, true, false, List, [], ◌∷◌, ◌++◌, map, ◌==◌, if◌then◌else◌, Option, none, some,
  get_elem?,
}
use go_imap.Strconv.{Bytes}
use go_imap.NumSet.{Set, u32_mod}
use go_imap.Tracker.{SessionTracker, MailboxTracker, new_session, encode_seq_num}
use go_imap.MemMailbox.{
  Message, Mailbox, AppendOptions, AppendData, append_bytes, copy_msg, expunge_locked,
}
use go_imap.MemMailbox.Select.{MailboxView, session_of, select_data, SelectData, QResyncData}
use go_imap.MemMailbox.Static.{NumSet, static_num_set, selects}
use go_imap.UidMapping.{UidPairRange, mapping_add}
use go_imap.MemUser.{Entry, User, update_entry}
use go_imap.MemUser.Names.{lookup}

-- UserSession: the place of the selected mailbox and the view of it
pub record Selected : Type 0 where
  pub place : ℕ
  pub view : MailboxView

-- What the loops of Copy and Move have done so far: the destination, the mapping, and the messages of the map
-- that Move expunges
pub record Copying : Type 0 where
  pub dest : Mailbox
  pub mapping : List UidPairRange
  pub moved : List ℕ

-- The callback of forEachLocked
unfoldable pub copy_one : ℕ → Message → Copying → Copying
unfolding copy_msg mapping_add
copy_one now msg st =
    let (dest, answer) = copy_msg now st.dest msg in
    record {
      dest = dest;
      mapping = mapping_add st.mapping msg.uid answer.uid;
      moved = st.moved ++ msg.uid ∷ [];
    }

-- MailboxView.forEachLocked with that callback; `i` is the place of the first message of the list.
unfoldable pub copy_loop : ℕ → SessionTracker → NumSet → ℕ → List Message → Copying → Copying
unfolding copy_one selects
copy_loop now t ns i [] st = st
copy_loop now t ns i (msg ∷ l) st =
    copy_loop now t ns (i + 1) l
      (if selects t ns ((i + 1) % u32_mod) msg.uid then copy_one now msg st else st)

unfoldable pub copy_messages : ℕ → Mailbox → MailboxView → NumSet → Mailbox → Copying
unfolding copy_loop static_num_set
copy_messages now src v ns dest =
    copy_loop now (session_of src v) (static_num_set src v ns) 0 src.l
      (record { dest = dest; mapping = []; moved = [] })

-- imap.CopyData
pub record CopyData : Type 0 where
  pub uid_validity : ℕ
  pub mapping : List UidPairRange

-- The answers of Copy and Move; Move writes the sequence numbers of the expunged messages. Without a selected
-- mailbox the method would read through a nil pointer, which the connection prevents.
pub data CopyResult : Type 0 where
  copied : CopyData → List ℕ → CopyResult
  try_create identical_mailboxes nil_mailbox : CopyResult

abbrev pub put_mailbox : ℕ → Mailbox → User → User
put_mailbox p m u = record u { store = update_entry (λ e. record e { mailbox = m }) p u.store }

abbrev pub copy_between :
    ℕ → NumSet → ℕ → Selected → Option Entry → Option Entry → User → User × CopyResult
copy_between now ns q s (some src) (some dest) u =
    let st = copy_messages now src.mailbox s.view ns dest.mailbox in
    (
      put_mailbox q st.dest u,
      copied (record { uid_validity = dest.mailbox.uid_validity; mapping = st.mapping }) [],
    )
copy_between now ns q s _ _ u = (u, nil_mailbox)

abbrev pub copy_to : ℕ → NumSet → Option ℕ → Option Selected → User → User × CopyResult
copy_to now ns none s u = (u, try_create)
copy_to now ns (some q) none u = (u, nil_mailbox)
copy_to now ns (some q) (some s) u =
    let r = copy_between now ns q s (get_elem? u.store s.place) (get_elem? u.store q) u in
    if q == s.place then (u, identical_mailboxes) else r

-- UserSession.Copy
unfoldable pub copy : ℕ → NumSet → Bytes → Option Selected → User → User × CopyResult
unfolding lookup update_entry copy_messages
copy now ns dest_name s u = copy_to now ns (lookup dest_name u.names) s u

-- What Move leaves: the source, the destination, the mapping and the sequence numbers, encoded for the session
pub record Moved : Type 0 where
  pub src : Mailbox
  pub dest : Mailbox
  pub mapping : List UidPairRange
  pub seq_nums : List ℕ

unfoldable pub move_messages : ℕ → Mailbox → MailboxView → NumSet → Mailbox → Moved
unfolding copy_messages expunge_locked encode_seq_num
move_messages now src v ns dest =
    let st = copy_messages now src v ns dest in
    let (src', seq_nums) = expunge_locked src st.moved in
    record {
      src = src';
      dest = st.dest;
      mapping = st.mapping;
      seq_nums = map (encode_seq_num (session_of src' v)) seq_nums;
    }

abbrev pub move_between :
    ℕ → NumSet → ℕ → Selected → Option Entry → Option Entry → User → User × CopyResult
move_between now ns q s (some src) (some dest) u =
    let r = move_messages now src.mailbox s.view ns dest.mailbox in
    (
      put_mailbox s.place r.src (put_mailbox q r.dest u),
      copied (record { uid_validity = dest.mailbox.uid_validity; mapping = r.mapping }) r.seq_nums,
    )
move_between now ns q s _ _ u = (u, nil_mailbox)

abbrev pub move_to : ℕ → NumSet → Option ℕ → Option Selected → User → User × CopyResult
move_to now ns none s u = (u, try_create)
move_to now ns (some q) none u = (u, nil_mailbox)
move_to now ns (some q) (some s) u =
    let r = move_between now ns q s (get_elem? u.store s.place) (get_elem? u.store q) u in
    if q == s.place then (u, identical_mailboxes) else r

-- UserSession.Move
unfoldable pub move : ℕ → NumSet → Bytes → Option Selected → User → User × CopyResult
unfolding lookup update_entry move_messages
move now ns dest_name s u = move_to now ns (lookup dest_name u.names) s u

abbrev pub append_at :
    ℕ → Bytes → AppendOptions → Option ℕ → Option Entry → User → User × Option AppendData
append_at now buf options (some p) (some e) u =
    let (m, answer) = append_bytes now e.mailbox buf options in (put_mailbox p m u, some answer)
append_at now buf options _ _ u = (u, none)

abbrev pub entry_of : Option ℕ → List Entry → Option Entry
entry_of none store = none
entry_of (some p) store = get_elem? store p

-- User.Append of a text that was read; `none` is the error TRYCREATE.
unfoldable pub append : ℕ → Bytes → Bytes → AppendOptions → User → User × Option AppendData
unfolding lookup update_entry append_bytes
append now name buf options u =
    let p = lookup name u.names in append_at now buf options p (entry_of p u.store) u
