-- ===== src/MemMailbox/Find.antt =====
-- MailboxView.Search of imapserver/imapmemserver/mailbox.go: the criteria resolved, the loop over the
-- messages, and what the command answers and saves.
pub mod Results
pub mod Ends
mod Tests
use go_imap.Prelude.{
  ℕ, ◌+◌, ◌-◌, ◌%◌, ◌^◌, Bool, not, ◌||◌, List, [], ◌∷◌, map, ltb, ◌==◌, if◌then◌else◌, Option,
  none, some, max,
}
use go_imap.NumSet.{Set, u32_mod, add_num}
use go_imap.Tracker.{SessionTracker, encode_seq_num, encode_num_messages}
use go_imap.SearchCriteria.{
  Fields, SearchCriteria, criteria, Nots, no_not, next_not, Ors, no_or, next_or,
}
use go_imap.MemMailbox.{Message, Mailbox}
use go_imap.MemMailbox.Select.{MailboxView, session_of}
use go_imap.MemMailbox.Static.{NumSet, seqs, uids, static_num_range}
use go_imap.MemMailbox.Search.{Reader, message_search}

-- imapserver.NumKind
pub data NumKind : Type 0 where
  num_kind_seq num_kind_uid : NumKind

-- imap.SearchOptions
pub record SearchOptions : Type 0 where
  pub return_min : Bool
  pub return_max : Bool
  pub return_all : Bool
  pub return_count : Bool
  pub return_save : Bool

module _ (m : Mailbox) (v : MailboxView) where
  abbrev static_seq_set : Set → Set
  static_seq_set s = map (static_num_range (encode_num_messages (session_of m v))) s

  abbrev static_uid_set : Option Set → Option Set
  static_uid_set none = some v.search_res
  static_uid_set (some s) = some (map (static_num_range ((m.uid_next + u32_mod - 1) % u32_mod)) s)

  mutual
    -- MailboxView.staticSearchCriteria; no sequence set is the marker "$".
    pub static_search_criteria : SearchCriteria → SearchCriteria
    static_search_criteria (criteria c nots ors) =
        criteria
          (record c { seq_num = map static_seq_set c.seq_num; uid = map static_uid_set c.uid })
          (static_nots nots) (static_ors ors)

    pub static_nots : Nots → Nots
    static_nots no_not = no_not
    static_nots (next_not c nots) = next_not (static_search_criteria c) (static_nots nots)

    pub static_ors : Ors → Ors
    static_ors no_or = no_or
    static_ors (next_or c c' ors) =
        next_or (static_search_criteria c) (static_search_criteria c') (static_ors ors)

-- What the loop has found so far
pub record Found : Type 0 where
  pub seq_set : Set
  pub uid_set : Set
  pub min : ℕ
  pub max : ℕ
  pub count : ℕ
  pub all_mod_seq : ℕ
  pub min_mod_seq : ℕ
  pub max_mod_seq : ℕ
  pub min_uid : ℕ
  pub max_uid : ℕ

abbrev pub nothing_found : Found
nothing_found = record {
  seq_set = [];
  uid_set = [];
  min = 0;
  max = 0;
  count = 0;
  all_mod_seq = 0;
  min_mod_seq = 0;
  max_mod_seq = 0;
  min_uid = 0;
  max_uid = 0;
}

-- The end of a round: the message is counted under the number `num`.
unfoldable pub note_found : ℕ → Message → Found → Found
note_found num msg st =
    let lower = st.min == 0 || ltb num st.min in
    let higher = st.max == 0 || ltb st.max num in
    record st {
      min = if lower then num else st.min;
      min_mod_seq = if lower then msg.mod_seq else st.min_mod_seq;
      min_uid = if lower then msg.uid else st.min_uid;
      max = if higher then num else st.max;
      max_mod_seq = if higher then msg.mod_seq else st.max_mod_seq;
      max_uid = if higher then msg.uid else st.max_uid;
      all_mod_seq = max st.all_mod_seq msg.mod_seq;
      count = (st.count + 1) % u32_mod;
    }

-- A message that matches
unfoldable pub find_one : NumKind → ℕ → Message → Found → Found
unfolding note_found
find_one num_kind_seq seq_num msg st =
    let uid_set = add_num st.uid_set (msg.uid ∷ []) in
    if seq_num == 0
    then record st { uid_set = uid_set }
    else note_found seq_num msg
        (record st { uid_set = uid_set; seq_set = add_num st.seq_set (seq_num ∷ []) })
find_one num_kind_uid seq_num msg st =
    note_found msg.uid msg (record st { uid_set = add_num st.uid_set (msg.uid ∷ []) })

-- The loop over the messages; `i` is the place of the first message of the list.
unfoldable pub find_loop :
    Reader → SessionTracker → NumKind → SearchCriteria → ℕ → List Message → Found → Found
unfolding find_one
find_loop r t kind c i [] st = st
find_loop r t kind c i (msg ∷ l) st =
    let seq_num = encode_seq_num t ((i + 1) % u32_mod) in
    find_loop r t kind c (i + 1) l
      (if message_search r seq_num msg c then find_one kind seq_num msg st else st)

-- No option that narrows the answer to the ends
abbrev pub returns_all : SearchOptions → Bool
returns_all o = o.return_all || (o.return_count || not (o.return_min || o.return_max))

-- imap.SearchData
pub record SearchData : Type 0 where
  pub all : NumSet
  pub min : ℕ
  pub max : ℕ
  pub count : ℕ
  pub mod_seq : ℕ

abbrev found_set : NumKind → Found → NumSet
found_set num_kind_seq st = seqs st.seq_set
found_set num_kind_uid st = uids st.uid_set

-- data.ModSeq
unfoldable pub found_mod_seq : SearchOptions → Found → ℕ
found_mod_seq o st =
    if returns_all o
    then st.all_mod_seq
    else (let low = if o.return_min then st.min_mod_seq else 0 in
        if o.return_max then max low st.max_mod_seq else low)

abbrev add_end : Bool → ℕ → Set → Set
add_end wanted uid s = if wanted then (if uid == 0 then s else add_num s (uid ∷ [])) else s

-- The SEARCHRES variable after the command
unfoldable pub saved : SearchOptions → MailboxView → Found → Set
saved o v st =
    if o.return_save
    then (if returns_all o
        then st.uid_set
        else add_end o.return_max st.max_uid (add_end o.return_min st.min_uid []))
    else v.search_res

-- The loop of MailboxView.Search on the resolved criteria
unfoldable pub found : Reader → Mailbox → MailboxView → NumKind → SearchCriteria → Found
unfolding find_loop
found r m v kind c =
    find_loop r (session_of m v) kind (static_search_criteria m v c) 0 m.l nothing_found

-- MailboxView.Search
unfoldable pub view_search :
    Reader
    → Mailbox
    → MailboxView
    → NumKind
    → SearchCriteria
    → SearchOptions
    → SearchData × MailboxView
unfolding found found_mod_seq saved
view_search r m v kind c o =
    let st = found r m v kind c in
    (
      record {
        all = found_set kind st;
        min = st.min;
        max = st.max;
        count = st.count;
        mod_seq = found_mod_seq o st;
      },
      record v { search_res = saved o v st },
    )
