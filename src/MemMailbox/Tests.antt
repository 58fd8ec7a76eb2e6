-- ===== src/MemMailbox/Tests.antt =====
-- A mailbox of three messages, and the theorems on mailboxes at concrete inputs.
use go_imap.Prelude.{
  ℕ, ◌<◌, ◌≡◌, ◌≢◌, refl, true, false, [], ◌∷◌, ◌++◌, arith, none, some, length, map,
}
use go_imap.Strconv.{codes}
use go_imap.NumSet.{u32_mod, set_contains}
use go_imap.NumSet.Canon.{any_contains}
use go_imap.Tracker.{new_mailbox_tracker}
use go_imap.Tracker.Run.{here, Reach-IsMailbox}
use go_imap.MemMailbox.{Message, Mailbox, append_bytes, expunge_locked}
use go_imap.MemMailbox.Append.{IsMemMailbox, append_bytes-IsMemMailbox}
use go_imap.MemMailbox.Expunge.{expunge_locked-kept, expunge_locked_last}
use go_imap.MemMailbox.Select.{
  MailboxView, session_of, SelectModifiedData, QResyncData, select_data, went_since, changed_since,
  select_data_qresync,
}
use go_imap.MemMailbox.Static.{uids, static_num_set, static_num_range, static_num_range_unsorted}
use go_imap.MemMailbox.Store.{add, StoreFlags, StoreOptions, store}
use go_imap.MemMailbox.Store.Laws.{AllBecome, store_lem}

abbrev message_of : ℕ → ℕ → Message
message_of uid mod_seq = record {
  uid = uid;
  buf = codes "x";
  t = 0;
  flags = codes "\\seen" ∷ [];
  mod_seq = mod_seq;
}

abbrev box : Mailbox
box = record {
  tracker = new_mailbox_tracker 3;
  uid_validity = 9;
  l = message_of 1 2 ∷ message_of 2 3 ∷ message_of 5 6 ∷ [];
  uid_next = 6;
  highest_mod_seq = 6;
  expunged = (record { uid = 4; mod_seq = 5 }) ∷ [];
}

box-IsMemMailbox : IsMemMailbox box
unfolding new_mailbox_tracker
box-IsMemMailbox = record {
  tracked = Reach-IsMailbox 3 (new_mailbox_tracker 3) (omega arith) here;
  counted = refl;
  ordered = omega arith;
  fresh = omega arith;
  logged = omega arith;
  next_pos = omega arith;
}

abbrev view : MailboxView
view = record { session = 0; search_res = [] }

abbrev resync : QResyncData
resync = record { uid_validity = 9; mod_seq = 4 }

abbrev flagging : StoreFlags
flagging = record { op = add; silent = false; flags = codes "Work" ∷ [] }

abbrev unchanged : StoreOptions
unchanged = record { unchanged_since = 4; unchanged_since_set = true; uid_store = true }

append_bytes-IsMemMailbox_example :
    IsMemMailbox (append_bytes 7 box (codes "y") (record { time = none; flags = [] })).0
    × ((append_bytes 7 box (codes "y") (record { time = none; flags = [] })).1.uid ≡ 6)
    × ((msg : Message) × ((append_bytes 7 box (codes "y") (record { time = none; flags = [] })).0.l
          ≡ box.l ++ msg ∷ [])
        × (msg.uid ≡ 6)
        × (msg.buf ≡ codes "y")
        × (msg.mod_seq ≡ 7))
append_bytes-IsMemMailbox_example =
    append_bytes-IsMemMailbox 7 box (codes "y") (record { time = none; flags = [] })
      box-IsMemMailbox
      (record { uids = omega arith; mod_seqs = omega arith; messages = omega arith })

expunge_locked-kept_example :
    ((expunge_locked box (2 ∷ [])).0.l ≡ message_of 1 2 ∷ message_of 5 6 ∷ [])
    × ((expunge_locked box (2 ∷ [])).0.expunged
        ≡ (record { uid = 4; mod_seq = 5 }) ∷ (record { uid = 2; mod_seq = 7 }) ∷ [])
    × ((expunge_locked box (2 ∷ [])).0.highest_mod_seq ≡ 7)
expunge_locked-kept_example = expunge_locked-kept box (2 ∷ [])

expunge_locked_last_example :
    length (expunge_locked box (2 ∷ 5 ∷ [])).0.l
    < (expunge_locked box (2 ∷ 5 ∷ [])).0.tracker.num_messages
unfolding new_mailbox_tracker
expunge_locked_last_example =
    expunge_locked_last box (message_of 1 2 ∷ []) [] (message_of 2 3) (message_of 5 6) (2 ∷ 5 ∷ [])
      refl (omega arith) refl refl refl

select_data_qresync_example :
    (box.uid_validity ≡ resync.uid_validity
      → ((u : ℕ)
          → 0 < u
          → u < u32_mod
          → set_contains (select_data box view (some resync)).vanished u
            ≡ went_since 4 u box.expunged)
        × (map (λ (d : SelectModifiedData). d.uid) (select_data box view (some resync)).modified
            ≡ changed_since (session_of box view) 4 0 box.l))
    × (box.uid_validity ≢ resync.uid_validity
        → select_data box view (some resync) ≡ select_data box view none)
select_data_qresync_example = select_data_qresync box view resync box-IsMemMailbox (omega arith)

static_num_range_unsorted_example :
    (any_contains
        (map
          (static_num_range 3)
          (record { start = 5; stop = 7 } ∷ record { start = 10; stop = 0 } ∷ []))
        3
      ≡ true)
    × (set_contains
          (map
            (static_num_range 3)
            (record { start = 5; stop = 7 } ∷ record { start = 10; stop = 0 } ∷ []))
          3
        ≡ false)
static_num_range_unsorted_example =
    static_num_range_unsorted 3 5 7 10 (omega arith) (omega arith) (omega arith) (omega arith)
      (omega arith)

abbrev stored : Mailbox
stored =
    (store box view (uids (record { start = 1; stop = 1 } ∷ record { start = 5; stop = 5 } ∷ []))
      flagging unchanged).mailbox

store_lem_example :
    AllBecome
      (session_of box view)
      (static_num_set box view
        (uids (record { start = 1; stop = 1 } ∷ record { start = 5; stop = 5 } ∷ [])))
      flagging
      unchanged
      0
      box.highest_mod_seq
      box.l
      stored.l
      stored.highest_mod_seq
store_lem_example =
    store_lem box view (uids (record { start = 1; stop = 1 } ∷ record { start = 5; stop = 5 } ∷ []))
      flagging unchanged box-IsMemMailbox
