-- ===== src/MemMailbox/Store/View.antt =====
-- imapserver/imapmemserver/mailbox.go: the FETCH updates that Store queues leave the view of its own session as it was.
use go_imap.Prelude.{
  ℕ, zero, suc, ◌+◌, ◌≡◌, ◌∙◌, refl, sym, Bool, true, false, List, [], ◌∷◌, arith, ◌==◌, some,
  get_or, All,
}
use go_imap.Tracker.{
  Update, UpdateFetch, SessionTracker, MailboxTracker, session_queue_update, offer, fan_out,
  stamped, count_after, queue_update, queue_message_flags, empty_update,
}
use go_imap.Tracker.Queue.{IsConsistent, IsMailbox}
use go_imap.MemMailbox.Select.{closed_session}

add_one : (i k : ℕ) → i + suc k ≡ i + 1 + k
add_one i k = omega arith

zero_add : (k : ℕ) → 0 + k ≡ k
zero_add k = omega arith

fan_out-at :
    (ss : List SessionTracker) (i k n : ℕ) (u : Update)
    → get_or (fan_out ss i u n (some (i + k))) k closed_session
      ≡ offer (get_or ss k closed_session).registered (get_or ss k closed_session) u n true
unfolding fan_out offer
fan_out-at [] i k n u = refl
fan_out-at (s ∷ ss) i zero n u = let self : (i + 0 == i) ≡ true = ground arith in rw self refl
fan_out-at (s ∷ ss) i (suc k) n u = rw (add_one i k) (fan_out-at ss (i + 1) k n u)

-- The session's count is the mailbox's while it is registered.
abbrev pub IsCurrent : MailboxTracker → SessionTracker → Type 0
IsCurrent t s = s.registered ≡ true → s.num_messages ≡ t.num_messages

offer_own :
    (r : Bool) (s : SessionTracker) (u : Update) (n : ℕ)
    → (r ≡ true → s.num_messages ≡ n)
    → offer r s u n true ≡ s
unfolding offer session_queue_update
offer_own false s u n c = refl
offer_own true s u n c = rw (sym (c refl)) refl

pub queue_message_flags-session :
    (t : MailboxTracker) (f : UpdateFetch) (session : ℕ)
    → IsCurrent t (get_or t.sessions session closed_session)
    → ((queue_message_flags t f (some session)).0.num_messages ≡ t.num_messages)
      × (get_or (queue_message_flags t f (some session)).0.sessions session closed_session
          ≡ get_or t.sessions session closed_session)
unfolding queue_message_flags queue_update stamped count_after
queue_message_flags-session t f session c =
    let own = get_or t.sessions session closed_session in
    let u = record empty_update { fetch = some f } in
    let told = fan_out-at t.sessions 0 session t.num_messages u in
    (refl, rw (zero_add session) at told ∙ offer_own own.registered own u t.num_messages c)

sessions-IsCurrent :
    (t : MailboxTracker) (ss : List SessionTracker) (k : ℕ)
    → All (IsConsistent t.num_messages) ss
    → IsCurrent t (get_or ss k closed_session)
sessions-IsCurrent t [] k h = λ e. cc e
sessions-IsCurrent t (s ∷ ss) zero (c, h) = c.current
sessions-IsCurrent t (s ∷ ss) (suc k) (c, h) = sessions-IsCurrent t ss k h

pub session-IsCurrent :
    (t : MailboxTracker) (k : ℕ) → IsMailbox t → IsCurrent t (get_or t.sessions k closed_session)
session-IsCurrent t k m = sessions-IsCurrent t t.sessions k m.consistent
