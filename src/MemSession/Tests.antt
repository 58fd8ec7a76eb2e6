-- ===== src/MemSession/Tests.antt =====
-- imapserver/imapmemserver/session.go: a message copied and moved from one mailbox to another
use go_imap.Prelude.{ℕ, ◌+◌, ◌≡◌, ◌≢◌, refl, ap, List, [], ◌∷◌, ◌++◌, some, length, arith, false}
use go_imap.Strconv.{Bytes, codes}
use go_imap.Tracker.{new_mailbox_tracker}
use go_imap.Tracker.Run.{Reach-IsMailbox, here}
use go_imap.MemMailbox.{Message, Mailbox}
use go_imap.MemMailbox.Append.{IsMemMailbox}
use go_imap.MemMailbox.Select.{MailboxView}
use go_imap.MemMailbox.Static.{NumSet, uids, static_num_set, static_num_range, selects}
use go_imap.NumSet.{set_contains, less, contains}
use go_imap.UidMapping.{pairs_of}
use go_imap.MemUser.{User, Entry}
use go_imap.MemUser.Names.{lookup}
use go_imap.MemSession.{Selected, identical_mailboxes, copy_messages, move_messages, move}
use go_imap.MemSession.Copy.{copies, uid_pairs, HasRoomFor}
use go_imap.MemSession.Laws.{picked, unpicked, copy_messages_lem, move_messages_lem}
use go_imap.MemSession.Users.{IsMoved, move_lem}

abbrev message_of : ℕ → Message
message_of uid = record {
  uid = uid;
  buf = codes "x";
  t = 0;
  flags = codes "\\seen" ∷ [];
  mod_seq = uid + 1;
}

abbrev box : ℕ → List Message → ℕ → Mailbox
box validity l next = record {
  tracker = new_mailbox_tracker (length l);
  uid_validity = validity;
  l = l;
  uid_next = next;
  highest_mod_seq = next + 1;
  expunged = [];
}

abbrev source : Mailbox
source = box 1 (message_of 1 ∷ message_of 2 ∷ message_of 5 ∷ []) 6

abbrev target : Mailbox
target = box 2 (message_of 3 ∷ []) 4

source-IsMemMailbox : IsMemMailbox source
unfolding new_mailbox_tracker
source-IsMemMailbox = record {
  tracked = Reach-IsMailbox 3 (new_mailbox_tracker 3) (omega arith) here;
  counted = refl;
  ordered = omega arith;
  fresh = omega arith;
  logged = tt;
  next_pos = omega arith;
}

target-IsMemMailbox : IsMemMailbox target
unfolding new_mailbox_tracker
target-IsMemMailbox = record {
  tracked = Reach-IsMailbox 1 (new_mailbox_tracker 1) (omega arith) here;
  counted = refl;
  ordered = omega arith;
  fresh = omega arith;
  logged = tt;
  next_pos = omega arith;
}

abbrev view : MailboxView
view = record { session = 0; search_res = [] }

-- The UIDs 1 and 5
abbrev numbers : NumSet
numbers = uids ((record { start = 1; stop = 1 }) ∷ (record { start = 5; stop = 5 }) ∷ [])

test_picked : picked source view numbers ≡ message_of 1 ∷ message_of 5 ∷ []
unfolding static_num_set selects static_num_range set_contains less contains
test_picked = refl

room : HasRoomFor target (length (picked source view numbers))
room =
    let two = ap length test_picked in
    record {
      uids = omega (arith, two);
      mod_seqs = omega (arith, two);
      messages = omega (arith, two);
    }

copy_messages_lem_example :
    ((copy_messages 7 source view numbers target).dest.l
      ≡ target.l ++ copies 4 5 (picked source view numbers))
    × (pairs_of (copy_messages 7 source view numbers target).mapping
        ≡ uid_pairs 4 (picked source view numbers))
    × ((copy_messages 7 source view numbers target).dest.uid_validity ≡ 2)
    × IsMemMailbox (copy_messages 7 source view numbers target).dest
copy_messages_lem_example =
    copy_messages_lem 7 source target view numbers source-IsMemMailbox (omega arith)
      target-IsMemMailbox room

move_messages_lem_example :
    ((move_messages 7 source view numbers target).src.l ≡ unpicked source view numbers)
    × ((move_messages 7 source view numbers target).dest
        ≡ (copy_messages 7 source view numbers target).dest)
    × (pairs_of (move_messages 7 source view numbers target).mapping
        ≡ uid_pairs 4 (picked source view numbers))
    × (length (move_messages 7 source view numbers target).src.l
          + length (move_messages 7 source view numbers target).dest.l
        ≡ 4)
move_messages_lem_example =
    move_messages_lem 7 source target view numbers source-IsMemMailbox (omega arith)
      target-IsMemMailbox room

test_unpicked : unpicked source view numbers ≡ message_of 2 ∷ []
unfolding static_num_set selects static_num_range set_contains less contains
test_unpicked = refl

abbrev entry : Bytes → Mailbox → Entry
entry name m = record { name = name; mailbox = m; subscribed = false; acl = []; metadata = [] }

abbrev someone : User
someone = record {
  username = codes "me";
  password = codes "secret";
  events = [];
  names = (codes "a", 0) ∷ (codes "b", 1) ∷ [];
  store = entry (codes "a") source ∷ entry (codes "b") target ∷ [];
  prev_uid_validity = 2;
  server_metadata = [];
}

abbrev selected : Selected
selected = record { place = 0; view = view }

abbrev target_place : ℕ
target_place = 1

someone_named : lookup (codes "b") someone.names ≡ some target_place
unfolding lookup
someone_named = refl

move_lem_example :
    (target_place ≡ selected.place
      → move 7 numbers (codes "b") (some selected) someone ≡ (someone, identical_mailboxes))
    × (target_place ≢ selected.place
        → IsMoved someone
            (move 7 numbers (codes "b") (some selected) someone).0
            selected.place
            target_place
            (unpicked source view numbers)
            (target.l ++ copies 4 5 (picked source view numbers)))
move_lem_example =
    move_lem 7 target_place numbers (codes "b") selected (entry (codes "a") source)
      (entry (codes "b") target) someone someone_named refl refl source-IsMemMailbox (omega arith)
      target-IsMemMailbox room
