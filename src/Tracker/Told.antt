-- ===== src/Tracker/Told.antt =====
-- imapserver/tracker.go: the number of messages that every client counts, in a run of a mailbox tracker, from what its
-- Polls write.
pub mod Counts
pub mod Clients
use go_imap.Prelude.{
  ℕ, zero, suc, ◌+◌, ◌-◌, ◌<◌, ◌≡◌, ◌⊎◌, ◌∙◌, refl, ap, ap₂, sym, inl, inr, Bool, true, false, List,
  [], ◌∷◌, ◌++◌, Option, none, some, All, Bool-cases, append_assoc, append-nil, arith, ◌==◌, not,
  get_elem?,
}
use go_imap.Strconv.{Bytes}
use go_imap.NumSet.{u32_mod}
use go_imap.Tracker.{
  Update, UpdateFetch, SessionTracker, MailboxTracker, count_after, count_loop, stamped,
  session_queue_update, offer, fan_out, same, queue_update, fresh_session, new_mailbox_tracker,
  new_session, queue_expunge, queue_num_messages, queue_mailbox_flags, queue_message_flags,
  expunge_update, exists_update, empty_update, encode_num_messages,
}
use go_imap.Tracker.Count.{Replays, Replays-split, count_loop-Replays, encode_num_messages_lem}
use go_imap.Tracker.Queue.{
  IsConsistent, IsMailbox, IsSane, IsAllowed, is_known, IsAwake, checked, too_far, too_few, spared,
}
use go_imap.Tracker.Poll.{
  Response, expunge, exists, done, response, put, flush_vanished, answer, deliver_from, deliver,
  dequeue, poll,
}
use go_imap.Tracker.Poll.Deliver.{told, is_known-response}
use go_imap.Tracker.Poll.Dequeue.{All-left, dequeue-append}
use go_imap.Tracker.Run.{
  Action, detach, unregister, flush, idle_start, idle_wake, idle_poll, idle_stop, act, at, wake,
  start_idle, leave, drain, stop_idle, Step, opened, expunged, grown, flagged, fetched, acted,
  Reach, here, next, Reach-IsMailbox, session_at,
}

-- How a client without QRESYNC counts its messages: an EXPUNGE takes one away, an EXISTS gives the number.
abbrev pub count_response : Response → ℕ → ℕ
count_response (expunge k) n = n - 1
count_response (exists m) n = m
count_response _ n = n

abbrev pub heard : List Response → ℕ → ℕ
heard [] n = n
heard (r ∷ rs) n = heard rs (count_response r n)

-- A connection on which no write fails
abbrev pub writes_all : List Response → Response → Bool
writes_all out r = true

-- What a critical section of a session writes to its client
abbrev pub written_if : Bool → SessionTracker → List Response
written_if true s = (poll writes_all false s true).0.0
written_if false s = []

abbrev pub written : Action → SessionTracker → List Response
written (flush allow) s = (poll writes_all false s allow).0.0
written idle_poll s = written_if s.due s
written _ s = []

abbrev pub told_at : ℕ → Action → List SessionTracker → List ℕ → List ℕ
told_at zero a (s ∷ ss) (c ∷ cs) = heard (written a s) c ∷ cs
told_at (suc i) a (s ∷ ss) (c ∷ cs) = c ∷ told_at i a ss cs
told_at i a ss cs = cs

-- A client counts what SELECT told it when its session was opened, and what was written to it since.
abbrev pub clients_after : {t u : MailboxTracker} → Step t u → List ℕ → List ℕ
clients_after {t} opened cs = cs ++ t.num_messages ∷ []
clients_after {t} (acted i a) cs = told_at i a t.sessions cs
clients_after _ cs = cs

abbrev pub clients : {s t : MailboxTracker} → Reach s t → List ℕ
clients here = []
clients (next r st) = clients_after st (clients r)
