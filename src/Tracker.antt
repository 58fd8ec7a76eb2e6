-- ===== src/Tracker.antt =====
-- imapserver/tracker.go: the mailbox tracker and its session trackers. Every critical section of the
-- source is one function here, so that a run of the server is a sequence of such steps. A session is
-- named by its place in the list. A `uint32` is a native number below 2 ^ 32; where the source adds to
-- one, the wrap-around is written out.
pub mod Count
pub mod Numbers
pub mod Queue
pub mod Poll
pub mod Run
pub mod Told
mod Tests
use go_imap.Prelude.{
  ℕ, zero, suc, ◌+◌, ◌-◌, ◌%◌, Bool, true, false, not, ◌&&◌, ◌||◌, List, [], ◌∷◌, ◌++◌, ltb, leb,
  ◌==◌, if◌then◌else◌, Option, none, some, length,
}
use go_imap.Strconv.{Bytes}
use go_imap.NumSet.{u32_mod, Set}

-- trackerUpdateFetch
pub record UpdateFetch : Type 0 where
  pub seq_num : ℕ
  pub uid : ℕ
  pub flags : List Bytes
  pub mod_seq : ℕ

-- trackerUpdate; a nil slice or pointer is `none`
pub record Update : Type 0 where
  pub expunge : ℕ
  pub expunge_uid : ℕ
  pub num_messages : ℕ
  pub prev_num_messages : ℕ
  pub mailbox_flags : Option (List Bytes)
  pub fetch : Option UpdateFetch

-- SessionTracker. `attached` says that `mailbox` is not nil, `registered` that the mailbox's map holds the
-- session, `updates` is the channel of Idle with the number of signals in it, and `due` says that Idle is
-- on its way to a Poll.
pub record SessionTracker : Type 0 where
  pub attached : Bool
  pub registered : Bool
  pub num_messages : ℕ
  pub queue : List Update
  pub updates : Option ℕ
  pub due : Bool

-- MailboxTracker with the sessions that were ever made for it
pub record MailboxTracker : Type 0 where
  pub num_messages : ℕ
  pub sessions : List SessionTracker

pub data Error : Type 0 where
  invalid_expunge : Error
  expunge_out_of_range : ℕ → ℕ → Error
  cannot_decrease : ℕ → ℕ → Error

-- NewMailboxTracker
unfoldable pub new_mailbox_tracker : ℕ → MailboxTracker
new_mailbox_tracker n = record { num_messages = n; sessions = [] }

abbrev fresh_session : ℕ → SessionTracker
fresh_session n = record {
  attached = true;
  registered = true;
  num_messages = n;
  queue = [];
  updates = none;
  due = false;
}

-- MailboxTracker.NewSession; the session's name is the length of the list before the call.
unfoldable pub new_session : MailboxTracker → MailboxTracker
new_session t = record t { sessions = t.sessions ++ fresh_session t.num_messages ∷ [] }

-- The non-blocking send on the channel of Idle, which holds 64 signals
signal : Option ℕ → Option ℕ
signal none = none
signal (some n) = if ltb n 64 then some (n + 1) else some n

-- SessionTracker.queueUpdate
unfoldable pub session_queue_update : SessionTracker → Update → ℕ → Bool → SessionTracker
unfolding signal
session_queue_update s update n skip =
    if skip
    then record s { num_messages = n }
    else record s { num_messages = n; queue = s.queue ++ update ∷ []; updates = signal s.updates }

abbrev same : Option ℕ → ℕ → Bool
same none i = false
same (some j) i = j == i

-- What the fan-out does for one session; the flag says whether the map of sessions holds it.
unfoldable pub offer : Bool → SessionTracker → Update → ℕ → Bool → SessionTracker
unfolding session_queue_update
offer true s update n skip = session_queue_update s update n skip
offer false s update n skip = s

-- The fan-out over the registered sessions; `i` is the place of the first of the list.
unfoldable pub fan_out : List SessionTracker → ℕ → Update → ℕ → Option ℕ → List SessionTracker
fan_out [] i update n source = []
fan_out (s ∷ ss) i update n source =
    offer s.registered s update n (same source i) ∷ fan_out ss (i + 1) update n source

-- The update with the count before it, and the count behind it
unfoldable pub stamped : Update → ℕ → Update
stamped u n = if u.num_messages == 0 then u else record u { prev_num_messages = n }

unfoldable pub count_after : Update → ℕ → ℕ
count_after u n =
    if not (u.expunge == 0) then n - 1 else if not (u.num_messages == 0) then u.num_messages else n

-- MailboxTracker.queueUpdate
unfoldable pub queue_update : MailboxTracker → Update → Option ℕ → MailboxTracker × Option Error
queue_update t u source =
    if not (u.expunge == 0) && ltb t.num_messages u.expunge
    then (t, some (expunge_out_of_range u.expunge t.num_messages))
    else if not (u.num_messages == 0) && ltb u.num_messages t.num_messages
    then (t, some (cannot_decrease t.num_messages u.num_messages))
    else (
      record {
        num_messages = count_after u t.num_messages;
        sessions =
            fan_out t.sessions 0 (stamped u t.num_messages) (count_after u t.num_messages) source;
      },
      none,
    )

abbrev pub empty_update : Update
empty_update = record {
  expunge = 0;
  expunge_uid = 0;
  num_messages = 0;
  prev_num_messages = 0;
  mailbox_flags = none;
  fetch = none;
}

abbrev pub expunge_update : ℕ → ℕ → Update
expunge_update seq_num uid = record empty_update { expunge = seq_num; expunge_uid = uid }

abbrev pub exists_update : ℕ → Update
exists_update n = record empty_update { num_messages = n }

-- MailboxTracker.QueueExpunge
unfoldable pub queue_expunge : MailboxTracker → ℕ → ℕ → MailboxTracker × Option Error
queue_expunge t seq_num uid =
    if seq_num == 0
    then (t, some invalid_expunge)
    else queue_update t (expunge_update seq_num uid) none

-- MailboxTracker.QueueNumMessages
unfoldable pub queue_num_messages : MailboxTracker → ℕ → MailboxTracker × Option Error
queue_num_messages t n =
    if n == 0
    then (if not (t.num_messages == 0)
        then (t, some (cannot_decrease t.num_messages 0))
        else (t, none))
    else queue_update t (exists_update n) none

-- MailboxTracker.QueueMailboxFlags; nil flags become the empty slice
unfoldable pub queue_mailbox_flags :
    MailboxTracker → Option (List Bytes) → MailboxTracker × Option Error
queue_mailbox_flags t none = queue_update t (record empty_update { mailbox_flags = some [] }) none
queue_mailbox_flags t (some flags) =
    queue_update t (record empty_update { mailbox_flags = some flags }) none

-- MailboxTracker.QueueMessageFlags
unfoldable pub queue_message_flags :
    MailboxTracker → UpdateFetch → Option ℕ → MailboxTracker × Option Error
queue_message_flags t f source = queue_update t (record empty_update { fetch = some f }) source

-- One round of the loop of DecodeSeqNum; 0 is its early return.
unfoldable pub decode_step : Update → ℕ → ℕ
decode_step u k =
    if u.expunge == 0 then k else if k == u.expunge then 0 else if ltb u.expunge k then k - 1 else k

-- The loop of DecodeSeqNum
unfoldable pub decode_loop : List Update → ℕ → ℕ
decode_loop [] k = k
decode_loop (u ∷ us) k =
    let rest = decode_loop us (decode_step u k) in if decode_step u k == 0 then 0 else rest

-- SessionTracker.DecodeSeqNum
unfoldable pub decode_seq_num : SessionTracker → ℕ → ℕ
decode_seq_num t k =
    if k == 0
    then 0
    else if not t.attached
    then 0
    else let r = decode_loop t.queue k in if ltb t.num_messages r then 0 else r

-- One round of the loop of EncodeSeqNum; 0 is its early return.
unfoldable pub encode_step : Update → ℕ → ℕ
encode_step u k =
    if not (u.num_messages == 0) && ltb u.prev_num_messages k && leb k u.num_messages
    then 0
    else if not (u.expunge == 0) && leb u.expunge k
    then (k + 1) % u32_mod
    else k

-- The loop of EncodeSeqNum, which runs over the queue from its end: the rounds of the later updates
-- come first.
unfoldable pub encode_loop : List Update → ℕ → ℕ
encode_loop [] k = k
encode_loop (u ∷ us) k = let r = encode_loop us k in if r == 0 then 0 else encode_step u r

-- SessionTracker.EncodeSeqNum
unfoldable pub encode_seq_num : SessionTracker → ℕ → ℕ
encode_seq_num t k =
    if k == 0
    then 0
    else if not t.attached
    then 0
    else if ltb t.num_messages k
    then 0
    else encode_loop t.queue k

-- The loop of EncodeNumMessages, from the end of the queue too
unfoldable pub count_loop : List Update → ℕ → ℕ
count_loop [] n = n
count_loop (u ∷ us) n =
    let r = count_loop us n in
    let n' = if u.num_messages == 0 then r else u.prev_num_messages in
    if u.expunge == 0 then n' else (n' + 1) % u32_mod

-- SessionTracker.EncodeNumMessages
unfoldable pub encode_num_messages : SessionTracker → ℕ
encode_num_messages t = if not t.attached then 0 else count_loop t.queue t.num_messages
