-- ===== src/MemMailbox/Store.antt =====
-- The STORE command on the in-memory mailbox: message.store of imapserver/imapmemserver/message.go and
-- MailboxView.Store of mailbox.go, up to the FETCH responses, which are given as a list.
pub mod Effect
pub mod Laws
pub mod Refused
pub mod View
use go_imap.Prelude.{
  ℕ, ◌+◌, ◌%◌, ◌≡◌, Bool, true, false, not, ◌&&◌, ◌||◌, List, [], ◌∷◌, ◌++◌, ltb, ◌==◌,
  if◌then◌else◌, Option, none, some, length, get_or,
}
use go_imap.Strconv.{Bytes}
use go_imap.Strconv.Bytes.{member}
use go_imap.NumSet.{Set, u32_mod, add_num}
use go_imap.Tracker.{
  MailboxTracker, SessionTracker, UpdateFetch, queue_message_flags, encode_seq_num,
}
use go_imap.MemMailbox.{Message, Mailbox, next_u64, add_flags, remove_flags}
use go_imap.MemMailbox.Select.{MailboxView, closed_session, session_of}
use go_imap.MemMailbox.Static.{NumSet, uids, seqs, search_res, static_num_set, selects}

-- imap.StoreFlagsOp
pub data StoreFlagsOp : Type 0 where
  set add del : StoreFlagsOp

-- imap.StoreFlags
pub record StoreFlags : Type 0 where
  pub op : StoreFlagsOp
  pub silent : Bool
  pub flags : List Bytes

-- imap.StoreOptions
pub record StoreOptions : Type 0 where
  pub unchanged_since : ℕ
  pub unchanged_since_set : Bool
  pub uid_store : Bool

-- StoreOptions.Conditional of a non-nil receiver
abbrev pub conditional : StoreOptions → Bool
conditional o = o.unchanged_since_set || not (o.unchanged_since == 0)

-- The flags that message.store leaves
unfoldable pub stored_flags : StoreFlagsOp → List Bytes → List Bytes → List Bytes
stored_flags set new old = add_flags new []
stored_flags add new old = add_flags new old
stored_flags del new old = remove_flags new old

-- Some key of the first map is not in the second.
unfoldable pub misses : List Bytes → List Bytes → Bool
misses [] fs = false
misses (f ∷ old) fs = not (member f fs) || misses old fs

unfoldable pub flags_differ : List Bytes → List Bytes → Bool
unfolding misses
flags_differ old new = not (length old == length new) || (misses old new || misses new old)

-- message.store: the highest modification sequence and the message afterwards, and whether it changed
unfoldable pub message_store : ℕ → Message → StoreFlags → ℕ × Message × Bool
unfolding flags_differ stored_flags
message_store highest msg store =
    let flags = stored_flags store.op store.flags msg.flags in
    if flags_differ msg.flags flags
    then (next_u64 highest, record msg { flags = flags; mod_seq = next_u64 highest }, true)
    else (highest, record msg { flags = flags }, false)

-- modifiedMessageData
pub record ModifiedMessageData : Type 0 where
  pub enc_seq_num : ℕ
  pub uid : ℕ
  pub flags : List Bytes
  pub mod_seq : ℕ

-- What the loop of Store has changed so far
pub record Storing : Type 0 where
  pub tracker : MailboxTracker
  pub highest_mod_seq : ℕ
  pub l : List Message
  pub modified : List ModifiedMessageData
  pub failed_uids : Set
  pub failed_seqs : Set
  pub changed_any : Bool

module _ (session : ℕ) (uid_space : Bool) (flags : StoreFlags) (options : StoreOptions) where
  -- The sequence number in the view of the session
  abbrev encode : MailboxTracker → ℕ → ℕ
  encode t k = encode_seq_num (get_or t.sessions session closed_session) k

  -- A message that fails the condition
  store_failed : ℕ → Message → Storing → Storing
  store_failed k msg st =
      let e = encode st.tracker k in
      if uid_space
      then record st { l = st.l ++ msg ∷ []; failed_uids = add_num st.failed_uids (msg.uid ∷ []) }
      else if not (e == 0)
      then record st { l = st.l ++ msg ∷ []; failed_seqs = add_num st.failed_seqs (e ∷ []) }
      else record st { l = st.l ++ msg ∷ [] }

  -- The FETCH data of a changed message, if it is to be told
  note_modified : ℕ → Message → List ModifiedMessageData → List ModifiedMessageData
  note_modified e msg modified =
      if (not flags.silent || conditional options) && not (e == 0)
      then modified
        ++ (record { enc_seq_num = e; uid = msg.uid; flags = msg.flags; mod_seq = msg.mod_seq })
          ∷ []
      else modified

  -- A message that may be stored
  store_changed : ℕ → Storing → ℕ × Message × Bool → Storing
  store_changed k st (highest, msg, false) = record st {
    l = st.l ++ msg ∷ [];
    highest_mod_seq = highest;
  }
  store_changed k st (highest, msg, true) =
      let fetch : UpdateFetch = record {
        seq_num = k;
        uid = msg.uid;
        flags = msg.flags;
        mod_seq = msg.mod_seq;
      } in
      let tracker = (queue_message_flags st.tracker fetch (some session)).0 in
      record st {
        tracker = tracker;
        highest_mod_seq = highest;
        l = st.l ++ msg ∷ [];
        modified = note_modified (encode tracker k) msg st.modified;
        changed_any = true;
      }

  -- The callback of forEach in Store
  store_one : ℕ → Message → Storing → Storing
  store_one k msg st =
      if conditional options && ltb options.unchanged_since msg.mod_seq
      then store_failed k msg st
      else store_changed k st (message_store st.highest_mod_seq msg flags)

  -- One round of forEachLocked with that callback
  store_step : NumSet → ℕ → Message → Storing → Storing
  store_step ns k msg st =
      if selects (get_or st.tracker.sessions session closed_session) ns k msg.uid
      then store_one k msg st
      else record st { l = st.l ++ msg ∷ [] }

  -- forEachLocked; `i` is the place of the first message of the list.
  store_loop : NumSet → ℕ → List Message → Storing → Storing
  store_loop ns i [] st = st
  store_loop ns i (msg ∷ l) st = store_loop ns (i + 1) l (store_step ns ((i + 1) % u32_mod) msg st)

abbrev start_storing : Mailbox → Storing
start_storing m = record {
  tracker = m.tracker;
  highest_mod_seq = m.highest_mod_seq;
  l = [];
  modified = [];
  failed_uids = [];
  failed_seqs = [];
  changed_any = false;
}

-- uidSpace: the number space of the MODIFIED response code
abbrev in_uid_space : NumSet → StoreOptions → Bool
in_uid_space (seqs s) o = false
in_uid_space (uids s) o = true
in_uid_space search_res o = o.uid_store

-- What MailboxView.Store answers: the FETCH responses, and the set of the MODIFIED response code, where an
-- empty set is no code
pub record StoreResult : Type 0 where
  pub mailbox : Mailbox
  pub modified : List ModifiedMessageData
  pub failed : Set

-- MailboxView.Store; the FETCH responses are returned where the source writes them, and a failed write, which
-- ends the command after the messages are stored, is left out.
pub store : Mailbox → MailboxView → NumSet → StoreFlags → StoreOptions → StoreResult
store m v ns flags options =
    let uid_space = in_uid_space ns options in
    let st =
      store_loop v.session uid_space flags options (static_num_set m v ns) 0 m.l
        (start_storing m) in
    record {
      mailbox = record m { tracker = st.tracker; l = st.l; highest_mod_seq = st.highest_mod_seq };
      modified = st.modified;
      failed = if uid_space then st.failed_uids else st.failed_seqs;
    }
