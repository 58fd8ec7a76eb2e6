-- ===== src/Tracker/Run.antt =====
-- Runs of a mailbox tracker: every interleaving of the critical sections of imapserver/tracker.go.
use mathlib.Core.Path.{subst}
use go_imap.Prelude.{
  get_elem?, ◌≢◌, true, ℕ, zero, suc, ◌<◌, inl, inr, refl, Bool, false, List, [], ◌∷◌, Option, none,
  some, All, All-append, ◌≡◌, ◌≤◌,
}
use go_imap.Strconv.{Bytes}
use go_imap.NumSet.{u32_mod}
use go_imap.Tracker.{
  encode_num_messages, decode_seq_num, encode_seq_num, UpdateFetch, SessionTracker, MailboxTracker,
  fresh_session, new_mailbox_tracker, new_session, queue_expunge, queue_num_messages,
  queue_mailbox_flags, queue_message_flags,
}
use go_imap.Tracker.Count.{encode_num_messages_lem}
use go_imap.Tracker.Queue.{
  IsConsistent, IsMailbox, IsAwake, queue_expunge-IsMailbox, queue_num_messages-IsMailbox,
  queue_mailbox_flags-IsMailbox, queue_message_flags-IsMailbox,
}
use go_imap.Tracker.Numbers.{encode_seq_num-decode_seq_num, decode_seq_num-encode_seq_num}
use go_imap.Tracker.Poll.{dequeue, poll, Response, panicked}
use go_imap.Tracker.Poll.Deliver.{deliver-ne-panicked}
use go_imap.Tracker.Poll.Dequeue.{All-left, dequeue_lem, dequeue-IsConsistent}

-- A critical section of one session: the two of Close, that of poll called from a command or a NOTIFY
-- pump, and those of Idle: its start, the receipt of a signal, its own Poll, and its end.
pub data Action : Type 0 where
  detach unregister : Action
  flush : Bool → Action
  idle_start idle_wake idle_poll idle_stop : Action

-- The receipt of a signal from the channel of Idle
unfoldable pub wake : SessionTracker → Option ℕ → SessionTracker
wake s (some (suc k)) = record s { updates = some k; due = true }
wake s _ = s

-- Idle is refused if it runs already.
unfoldable pub start_idle : SessionTracker → Option ℕ → SessionTracker
start_idle s none = record s { updates = some 0; due = true }
start_idle s (some k) = s

-- The second half of Close; the flag says that the first half has not run.
unfoldable pub leave : Bool → SessionTracker → SessionTracker
leave true s = s
leave false s = record s { registered = false }

-- The Poll of Idle, if it is due
unfoldable pub drain : Bool → SessionTracker → SessionTracker
drain true s = record ((dequeue s true).1) { due = false }
drain false s = s

-- The end of Idle, which comes when no Poll of it is under way
unfoldable pub stop_idle : Bool → SessionTracker → SessionTracker
stop_idle true s = s
stop_idle false s = record s { updates = none }

unfoldable pub act : Action → SessionTracker → SessionTracker
unfolding wake start_idle dequeue leave drain stop_idle
act detach s = record s { attached = false }
act unregister s = leave s.attached s
act (flush allow) s = (dequeue s allow).1
act idle_start s = start_idle s s.updates
act idle_wake s = wake s s.updates
act idle_poll s = drain s.due s
act idle_stop s = stop_idle s.due s

abbrev pub at : ℕ → (SessionTracker → SessionTracker) → List SessionTracker → List SessionTracker
at i f [] = []
at zero f (s ∷ ss) = f s ∷ ss
at (suc i) f (s ∷ ss) = s ∷ at i f ss

-- One critical section of any goroutine
pub data Step (t : MailboxTracker) : MailboxTracker → Type 0 where
  opened : Step t (new_session t)
  expunged : (k uid : ℕ) → Step t (queue_expunge t k uid).0
  grown : (n : ℕ) → n < u32_mod → Step t (queue_num_messages t n).0
  flagged : (fs : Option (List Bytes)) → Step t (queue_mailbox_flags t fs).0
  fetched : (f : UpdateFetch) (source : Option ℕ) → Step t (queue_message_flags t f source).0
  acted : (i : ℕ) (a : Action) → Step t (record t { sessions = at i (act a) t.sessions })

pub data Reach (s : MailboxTracker) : MailboxTracker → Type 0 where
  here : Reach s s
  next : {t u : MailboxTracker} → Reach s t → Step t u → Reach s u

IsAwake-empty : (o : Option ℕ) (due : Bool) → IsAwake o due []
IsAwake-empty none due = tt
IsAwake-empty (some k) due = inl refl

module _ (n : ℕ) (s : SessionTracker) (c : IsConsistent n s) where
  leave-IsConsistent : (b : Bool) → IsConsistent n (leave b s)
  unfolding leave
  leave-IsConsistent true = c
  leave-IsConsistent false = record {
    client = c.client;
    replays = c.replays;
    current = λ e. absurd (cc);
    known = c.known;
    awake = c.awake;
  }

  drain-IsConsistent : (b : Bool) → IsConsistent n (drain b s)
  unfolding drain
  drain-IsConsistent true =
      let d = dequeue-IsConsistent n s true c in
      record {
        client = d.client;
        replays = d.replays;
        current = d.current;
        known = d.known;
        awake = unfold dequeue in IsAwake-empty s.updates false;
      }
  drain-IsConsistent false = c

  stop_idle-IsConsistent : (b : Bool) → IsConsistent n (stop_idle b s)
  unfolding stop_idle
  stop_idle-IsConsistent true = c
  stop_idle-IsConsistent false = record {
    client = c.client;
    replays = c.replays;
    current = c.current;
    known = c.known;
    awake = tt;
  }

  start_idle-IsConsistent : (o : Option ℕ) → IsConsistent n (start_idle s o)
  unfolding start_idle
  start_idle-IsConsistent none = record {
    client = c.client;
    replays = c.replays;
    current = c.current;
    known = c.known;
    awake = inr (inr refl);
  }
  start_idle-IsConsistent (some k) = c

  wake-IsConsistent : (o : Option ℕ) → IsConsistent n (wake s o)
  unfolding wake
  wake-IsConsistent (some (suc k)) = record {
    client = c.client;
    replays = c.replays;
    current = c.current;
    known = c.known;
    awake = inr (inr refl);
  }
  wake-IsConsistent (some zero) = c
  wake-IsConsistent none = c

act-IsConsistent :
    (n : ℕ) (a : Action) (s : SessionTracker) → IsConsistent n s → IsConsistent n (act a s)
unfolding act
act-IsConsistent n detach s c = record {
  client = c.client;
  replays = c.replays;
  current = c.current;
  known = c.known;
  awake = c.awake;
}
act-IsConsistent n unregister s c = leave-IsConsistent n s c s.attached
act-IsConsistent n (flush allow) s c = dequeue-IsConsistent n s allow c
act-IsConsistent n idle_start s c = start_idle-IsConsistent n s c s.updates
act-IsConsistent n idle_wake s c = wake-IsConsistent n s c s.updates
act-IsConsistent n idle_poll s c = drain-IsConsistent n s c s.due
act-IsConsistent n idle_stop s c = stop_idle-IsConsistent n s c s.due

at-IsConsistent :
    (n i : ℕ) (a : Action) (ss : List SessionTracker)
    → All (IsConsistent n) ss
    → All (IsConsistent n) (at i (act a) ss)
at-IsConsistent n i a [] h = tt
at-IsConsistent n zero a (s ∷ ss) (c, cs) = (act-IsConsistent n a s c, cs)
at-IsConsistent n (suc i) a (s ∷ ss) (c, cs) = (c, at-IsConsistent n i a ss cs)

new_session-IsMailbox : (t : MailboxTracker) → IsMailbox t → IsMailbox (new_session t)
unfolding new_session
new_session-IsMailbox t m = record {
  bound = m.bound;
  consistent = All-append _ t.sessions (fresh_session t.num_messages ∷ []) m.consistent (
    record {
      client = t.num_messages;
      replays = (refl, m.bound);
      current = λ e. refl;
      known = tt;
      awake = tt;
    },
    tt,
  );
}

Step-IsMailbox : {t u : MailboxTracker} → Step t u → IsMailbox t → IsMailbox u
Step-IsMailbox {t} opened m = new_session-IsMailbox t m
Step-IsMailbox {t} (expunged k uid) m = queue_expunge-IsMailbox t k uid m
Step-IsMailbox {t} (grown n h) m = queue_num_messages-IsMailbox t n h m
Step-IsMailbox {t} (flagged fs) m = queue_mailbox_flags-IsMailbox t fs m
Step-IsMailbox {t} (fetched f source) m = queue_message_flags-IsMailbox t f source m
Step-IsMailbox {t} (acted i a) m = record {
  bound = m.bound;
  consistent = at-IsConsistent t.num_messages i a t.sessions m.consistent;
}

-- However the goroutines of a server interleave, from a new tracker of fewer than 2^32 messages: every
-- session's queue leads from some count to the session's count, with every update in range; the count of a
-- registered session is the mailbox's; every queued update is of a kind that Poll writes; and while Idle runs, a
-- waiting update has a signal or a Poll under way.
pub Reach-IsMailbox :
    (n : ℕ) (t : MailboxTracker) → n < u32_mod → Reach (new_mailbox_tracker n) t → IsMailbox t
unfolding new_mailbox_tracker
Reach-IsMailbox n t h here = record { bound = h; consistent = tt }
Reach-IsMailbox n t h (next {t = t'} r st) = Step-IsMailbox st (Reach-IsMailbox n t' h r)

pub session_at :
    (n i : ℕ) (ss : List SessionTracker) {s : SessionTracker}
    → All (IsConsistent n) ss
    → get_elem? ss i ≡ some s
    → IsConsistent n s
session_at n i [] h e = cc
session_at n zero (x ∷ ss) {s} (c, cs) e = let p : x ≡ s = cc in subst (IsConsistent n) p c
session_at n (suc i) (s ∷ ss) (c, cs) e = session_at n i ss cs e

-- In every run from a new tracker of fewer than 2^32 messages, for each open session: the sequence numbers
-- that DecodeSeqNum finds on the server, among those up to EncodeNumMessages, and those that EncodeSeqNum finds in the client's view, stand in
-- a one-to-one correspondence, which the two functions follow in the two directions.
pub Reach-seq_nums :
    (n i k : ℕ) (t : MailboxTracker) (s : SessionTracker)
    → n < u32_mod
    → Reach (new_mailbox_tracker n) t
    → get_elem? t.sessions i ≡ some s
    → s.attached ≡ true
    → (k ≤ encode_num_messages s
        → decode_seq_num s k ≢ 0
        → (decode_seq_num s k ≤ s.num_messages) × (encode_seq_num s (decode_seq_num s k) ≡ k))
      × (encode_seq_num s k ≢ 0
          → (encode_seq_num s k ≤ encode_num_messages s)
            × (decode_seq_num s (encode_seq_num s k) ≡ k))
Reach-seq_nums n i k t s h r e a =
    let c = session_at t.num_messages i t.sessions (Reach-IsMailbox n t h r).consistent e in
    let client = encode_num_messages_lem c.client s a c.replays in
    (
      (λ l ne. encode_seq_num-decode_seq_num c.client k s a c.replays (rw client at l) ne),
      λ ne. rw client (decode_seq_num-encode_seq_num c.client k s a c.replays ne),
    )

-- No Poll in a run from a new tracker of fewer than 2^32 messages panics, whatever the writer does.
pub Reach-ne-panicked :
    (n i : ℕ) (t : MailboxTracker) (s : SessionTracker) (write : List Response → Response → Bool)
    (qresync allow : Bool)
    → n < u32_mod
    → Reach (new_mailbox_tracker n) t
    → get_elem? t.sessions i ≡ some s
    → (poll write qresync s allow).0.1 ≢ panicked
unfolding poll
Reach-ne-panicked n i t s write qresync allow h r e =
    let c = session_at t.num_messages i t.sessions (Reach-IsMailbox n t h r).consistent e in
    deliver-ne-panicked write qresync (dequeue s allow).0 (
      All-left _ (dequeue s allow).0 (dequeue s allow).1.queue (rw (dequeue_lem s allow).0 c.known))
