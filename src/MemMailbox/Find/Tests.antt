-- ===== src/MemMailbox/Find/Tests.antt =====
-- The theorems on SEARCH at a concrete mailbox and concrete criteria.
use go_imap.Prelude.{ℕ, ◌≡◌, inl, refl, true, false, ◌&&◌, [], ◌∷◌, arith, none, some}
use go_imap.Strconv.{Bytes, codes}
use go_imap.NumSet.{Set, set_contains}
use go_imap.Tracker.{new_mailbox_tracker}
use go_imap.SearchCriteria.{Fields, SearchCriteria, criteria, no_not, no_or, and}
use go_imap.MemMailbox.{Message, Mailbox}
use go_imap.MemMailbox.Select.{MailboxView, session_of}
use go_imap.MemMailbox.Static.{uids}
use go_imap.MemMailbox.Search.{Reader, single, message_search}
use go_imap.MemMailbox.Search.And.{message_search-and, and_smaller}
use go_imap.MemMailbox.Find.{
  num_kind_uid, SearchOptions, static_search_criteria, view_search, returns_all,
}
use go_imap.MemMailbox.Find.Results.{has_match, view_search_uids}

-- Messages without header and date
abbrev bare : Reader
bare = record {
  lower = λ s. s;
  fields_by_key = λ msg key. [];
  entity = λ msg. single [] (some (codes "text/plain")) (some msg.buf);
  date = λ msg. 0;
}

abbrev no_fields : Fields
no_fields = record {
  seq_num = [];
  uid = [];
  since = 0;
  before = 0;
  sent_since = 0;
  sent_before = 0;
  header = [];
  body = [];
  text = [];
  flag = [];
  not_flag = [];
  larger = 0;
  smaller = 0;
  mod_seq = none;
}

abbrev message_of : ℕ → ℕ → Bytes → Message
message_of uid mod_seq buf = record {
  uid = uid;
  buf = buf;
  t = 0;
  flags = codes "\\seen" ∷ [];
  mod_seq = mod_seq;
}

abbrev box : Mailbox
box = record {
  tracker = new_mailbox_tracker 2;
  uid_validity = 9;
  l = message_of 1 2 (codes "a long text") ∷ message_of 4 3 (codes "text") ∷ [];
  uid_next = 6;
  highest_mod_seq = 6;
  expunged = [];
}

abbrev view : MailboxView
view = record { session = 0; search_res = [] }

abbrev seen : SearchCriteria
seen = criteria (record no_fields { flag = codes "\\Seen" ∷ [] }) no_not no_or

abbrev options : SearchOptions
options = record {
  return_min = true;
  return_max = true;
  return_all = true;
  return_count = true;
  return_save = true;
}

message_search-and_example :
    message_search bare 1 (message_of 1 2 (codes "a long text")) (
      and
        (criteria (record no_fields { larger = 3 }) no_not no_or)
        (criteria (record no_fields { smaller = 5 }) no_not no_or))
    ≡ (message_search bare 1
          (message_of 1 2 (codes "a long text"))
          (criteria (record no_fields { larger = 3 }) no_not no_or)
        && message_search bare 1
            (message_of 1 2 (codes "a long text"))
            (criteria (record no_fields { smaller = 5 }) no_not no_or))
message_search-and_example =
    message_search-and bare 1 (message_of 1 2 (codes "a long text"))
      (record no_fields { larger = 3 }) (record no_fields { smaller = 5 }) no_not no_not no_or no_or
      refl (inl refl)

and_smaller_example :
    message_search bare 1 (message_of 1 2 (codes "a long text")) (
      and
        (criteria (record no_fields { smaller = 5 }) no_not no_or)
        (criteria (record no_fields { larger = 3 }) no_not no_or))
    ≡ (message_search bare 1
          (message_of 1 2 (codes "a long text"))
          (criteria no_fields no_not no_or)
        && message_search bare 1
            (message_of 1 2 (codes "a long text"))
            (criteria (record no_fields { larger = 3 }) no_not no_or))
and_smaller_example =
    and_smaller bare 1 (message_of 1 2 (codes "a long text")) (record no_fields { smaller = 5 })
      (record no_fields { larger = 3 }) no_not no_not no_or no_or refl (omega arith) refl

view_search_uids_example :
    (num_kind_uid ≡ num_kind_uid
      → (s : Set) × ((view_search bare box view num_kind_uid seen options).0.all ≡ uids s)
        × (set_contains s 4
            ≡ has_match bare
                (session_of box view)
                (static_search_criteria box view seen)
                4
                0
                box.l))
    × (true ≡ true
        → returns_all options ≡ true
        → set_contains (view_search bare box view num_kind_uid seen options).1.search_res 4
          ≡ has_match bare (session_of box view) (static_search_criteria box view seen) 4 0 box.l)
    × (true ≡ false → (view_search bare box view num_kind_uid seen options).1 ≡ view)
view_search_uids_example =
    view_search_uids bare box view num_kind_uid seen options 4 (omega arith) (omega arith)
      (omega arith)
