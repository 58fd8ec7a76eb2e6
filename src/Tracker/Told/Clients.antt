-- ===== src/Tracker/Told/Clients.antt =====
-- imapserver/tracker.go: in every run, what the clients have counted
use go_imap.Prelude.{
  ℕ, zero, suc, ◌<◌, ◌≡◌, ◌∙◌, refl, ap, sym, inl, inr, Bool, true, false, List, [], ◌∷◌, ◌++◌,
  Option, none, some, All, Bool-cases, append_assoc, append-nil, arith, ◌==◌, not, get_elem?,
}
use go_imap.NumSet.{u32_mod}
use go_imap.Tracker.{
  Update, SessionTracker, MailboxTracker, count_after, count_loop, fresh_session,
  new_mailbox_tracker, new_session, encode_num_messages,
}
use go_imap.Tracker.Count.{Replays, Replays-split, count_loop-Replays, encode_num_messages_lem}
use go_imap.Tracker.Queue.{IsConsistent, IsMailbox, is_known, IsAwake}
use go_imap.Tracker.Poll.{
  Response, done, response, put, flush_vanished, answer, deliver_from, deliver, dequeue, poll,
}
use go_imap.Tracker.Poll.Deliver.{told, is_known-response}
use go_imap.Tracker.Poll.Dequeue.{All-left, dequeue-append}
use go_imap.Tracker.Run.{
  Action, detach, unregister, flush, idle_start, idle_wake, idle_poll, idle_stop, act, at, wake,
  start_idle, leave, drain, stop_idle, Step, opened, expunged, grown, flagged, fetched, acted,
  Reach, here, next, Reach-IsMailbox, session_at,
}
use go_imap.Tracker.Told.{heard, writes_all, written_if, written, told_at, clients_after, clients}
use go_imap.Tracker.Told.Counts.{
  known_count, known_counts, known_counts-append, queue_expunge-known_counts,
  queue_num_messages-known_counts, queue_mailbox_flags-known_counts,
  queue_message_flags-known_counts,
}

-- On such a connection every response is written.
deliver_from-all :
    (us : List Update) (out : List Response)
    → All (λ u. is_known u ≡ true) us
    → deliver_from writes_all false us [] out ≡ (out ++ told false us, done)
unfolding deliver_from flush_vanished answer put
deliver_from-all [] out k = rw (append-nil out) refl
deliver_from-all (u ∷ us) out (ku, k) =
    let (r, er) = is_known-response u ku in
    let rest = deliver_from-all us (out ++ r ∷ []) k in
    elim (Bool-cases (not (u.expunge == 0))) [
      | inl y ↦ rw (y, er, rest, append_assoc out (r ∷ []) (told false us)) refl
      | inr n ↦ rw (n, er, rest, append_assoc out (r ∷ []) (told false us)) refl
    ]

heard-told :
    (n m : ℕ) (us : List Update)
    → Replays n us m
    → All (λ u. is_known u ≡ true) us
    → heard (told false us) n ≡ m
unfolding response count_after
heard-told n m [] (e, h) k = e
heard-told n m (u ∷ us) (h, f, r) (ku, k) =
    ground (arith, heard-told (count_after u n) m us r k, f.in_range, f.grows)

dequeue-known_count :
    (m : ℕ) (s : SessionTracker) (allow : Bool)
    → Replays m (dequeue s allow).1.queue s.num_messages
    → known_count (dequeue s allow).1 ≡ m
unfolding dequeue
dequeue-known_count m s true r = count_loop-Replays m s.num_messages _ r
dequeue-known_count m s false r = count_loop-Replays m s.num_messages _ r

-- A Poll tells the client the count that what stays in the queue leads from.
poll-heard :
    (n : ℕ) (s : SessionTracker) (allow : Bool)
    → IsConsistent n s
    → heard (poll writes_all false s allow).0.0 (known_count s) ≡ known_count (dequeue s allow).1
unfolding poll deliver
poll-heard n s allow c =
    let us = (dequeue s allow).0 in
    let left = (dequeue s allow).1.queue in
    let (m, a, b) =
      Replays-split c.client s.num_messages us left (rw (dequeue-append s allow) c.replays) in
    let known = All-left _ us left (rw (dequeue-append s allow) c.known) in
    let before = count_loop-Replays c.client s.num_messages s.queue c.replays in
    rw (deliver_from-all us [] known, before)
      (heard-told c.client m us a known ∙ sym (dequeue-known_count m s allow b))

module _ (n : ℕ) (s : SessionTracker) (c : IsConsistent n s) where
  drain-known_count : (b : Bool) → known_count (drain b s) ≡ heard (written_if b s) (known_count s)
  unfolding drain
  drain-known_count true = sym (poll-heard n s true c)
  drain-known_count false = refl

  leave-known_count : (b : Bool) → known_count (leave b s) ≡ known_count s
  unfolding leave
  leave-known_count true = refl
  leave-known_count false = refl

  start_idle-known_count : (o : Option ℕ) → known_count (start_idle s o) ≡ known_count s
  unfolding start_idle
  start_idle-known_count none = refl
  start_idle-known_count (some k) = refl

  wake-known_count : (o : Option ℕ) → known_count (wake s o) ≡ known_count s
  unfolding wake
  wake-known_count none = refl
  wake-known_count (some zero) = refl
  wake-known_count (some (suc k)) = refl

  stop_idle-known_count : (b : Bool) → known_count (stop_idle b s) ≡ known_count s
  unfolding stop_idle
  stop_idle-known_count true = refl
  stop_idle-known_count false = refl

  act-known_count : (a : Action) → known_count (act a s) ≡ heard (written a s) (known_count s)
  unfolding act
  act-known_count detach = refl
  act-known_count unregister = leave-known_count s.attached
  act-known_count (flush allow) = sym (poll-heard n s allow c)
  act-known_count idle_start = start_idle-known_count s.updates
  act-known_count idle_wake = wake-known_count s.updates
  act-known_count idle_poll = drain-known_count s.due
  act-known_count idle_stop = stop_idle-known_count s.due

at-known_counts :
    (n i : ℕ) (a : Action) (ss : List SessionTracker)
    → All (IsConsistent n) ss
    → known_counts (at i (act a) ss) ≡ told_at i a ss (known_counts ss)
at-known_counts n zero a [] h = refl
at-known_counts n (suc i) a [] h = refl
at-known_counts n zero a (s ∷ ss) (c, cs) = ap (λ k. k ∷ known_counts ss) (act-known_count n s c a)
at-known_counts n (suc i) a (s ∷ ss) (c, cs) =
    ap (◌∷◌ (known_count s)) (at-known_counts n i a ss cs)

Step-known_counts :
    {t u : MailboxTracker} (st : Step t u)
    → IsMailbox t
    → known_counts u.sessions ≡ clients_after st (known_counts t.sessions)
unfolding new_session count_loop
Step-known_counts {t} opened m = known_counts-append t.sessions (fresh_session t.num_messages ∷ [])
Step-known_counts {t} (expunged k uid) m = queue_expunge-known_counts t m k uid
Step-known_counts {t} (grown n h) m = queue_num_messages-known_counts t m n h
Step-known_counts {t} (flagged fs) m = queue_mailbox_flags-known_counts t m fs
Step-known_counts {t} (fetched f source) m = queue_message_flags-known_counts t m f source
Step-known_counts {t} (acted i a) m = at-known_counts t.num_messages i a t.sessions m.consistent

Reach-known_counts :
    (n : ℕ) (t : MailboxTracker)
    → n < u32_mod
    → (r : Reach (new_mailbox_tracker n) t) → known_counts t.sessions ≡ clients r
unfolding new_mailbox_tracker
Reach-known_counts n t h here = refl
Reach-known_counts n t h (next {t = t'} r st) =
    Step-known_counts st (Reach-IsMailbox n t' h r)
    ∙ ap (clients_after st) (Reach-known_counts n t' h r)

known_at :
    (ss : List SessionTracker) (i : ℕ) {s : SessionTracker}
    → get_elem? ss i ≡ some s
    → get_elem? (known_counts ss) i ≡ some (known_count s)
known_at [] i e = cc e
known_at (x ∷ ss) zero e = cc e
known_at (x ∷ ss) (suc i) e = known_at ss i e

-- However the goroutines of a server interleave, from a new tracker of fewer than 2^32 messages, with clients without
-- QRESYNC on connections that do not fail: the messages that a client counts from what SELECT and the Polls of its
-- session wrote to it (EXPUNGE and EXISTS) are the count from which the session's queue leads to the
-- session's own count, with every update in range when its turn comes; EncodeNumMessages gives that count while
-- the session is open; the own count is the mailbox's while the session is registered; every queued update is of a kind
-- that Poll writes; and while Idle runs, a waiting update has a signal or a Poll under way.
pub Reach-clients :
    (n i : ℕ) (t : MailboxTracker) (s : SessionTracker)
    → n < u32_mod
    → (r : Reach (new_mailbox_tracker n) t) → get_elem? t.sessions i ≡ some s
    → (c : ℕ) × (get_elem? (clients r) i ≡ some c)
      × Replays c s.queue s.num_messages
      × (s.attached ≡ true → encode_num_messages s ≡ c)
      × (s.registered ≡ true → s.num_messages ≡ t.num_messages)
      × All (λ u. is_known u ≡ true) s.queue
      × IsAwake s.updates s.due s.queue
Reach-clients n i t s h r e =
    let k = session_at t.num_messages i t.sessions (Reach-IsMailbox n t h r).consistent e in
    let same_count = count_loop-Replays k.client s.num_messages s.queue k.replays in
    let heard_of : get_elem? (clients r) i ≡ some (known_count s) =
      ap (λ ks. get_elem? ks i) (sym (Reach-known_counts n t h r)) ∙ known_at t.sessions i e in
    (
      k.client,
      heard_of ∙ ap some same_count,
      k.replays,
      (λ a. encode_num_messages_lem k.client s a k.replays),
      k.current,
      k.known,
      k.awake,
    )
