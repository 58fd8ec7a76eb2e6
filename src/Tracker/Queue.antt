-- ===== src/Tracker/Queue.antt =====
-- What a session tracker keeps while updates are queued.
use go_imap.Strconv.{Bytes}
use go_imap.Prelude.{
  ◌↔◌, ℕ, ◌+◌, ◌≤◌, ◌<◌, ◌≡◌, ◌⊎◌, inl, inr, refl, Bool, true, false, not, ◌&&◌, ◌||◌, List, [],
  ◌∷◌, ◌++◌, arith, ltb, ◌==◌, Option, none, some, All, All-append, Bool-cases, ◌≢◌,
}
use go_imap.NumSet.{u32_mod}
use go_imap.Tracker.{
  Update, UpdateFetch, SessionTracker, MailboxTracker, count_after, stamped, session_queue_update,
  signal, offer, fan_out, same, queue_update, queue_expunge, queue_num_messages,
  queue_mailbox_flags, queue_message_flags, expunge_update, exists_update, empty_update,
}
use go_imap.Tracker.Count.{Fits, Replays, Replays-append}

abbrev pub is_some {ℓ} : {A : Type ℓ} → Option A → Bool
is_some none = false
is_some (some a) = true

-- Poll has a case for the update.
abbrev pub is_known : Update → Bool
is_known u =
    not (u.expunge == 0) || not (u.num_messages == 0) || is_some u.mailbox_flags || is_some u.fetch

-- While Idle runs, no update waits without a signal for Idle, or a Poll that it is about to make.
abbrev pub IsAwake : Option ℕ → Bool → List Update → Type 0
IsAwake none due queue = Unit
IsAwake (some k) due queue = (queue ≡ []) ⊎ ((0 < k) ⊎ (due ≡ true))

-- A session of a mailbox of `n` messages whose queue leads from some count `client`. Tracker/Told says that it is what
-- the client counts.
pub record IsConsistent (n : ℕ) (s : SessionTracker) : Type 0 where
  pub client : ℕ
  pub replays : Replays client s.queue s.num_messages
  pub current : s.registered ≡ true → s.num_messages ≡ n
  pub known : All (λ u. is_known u ≡ true) s.queue
  pub awake : IsAwake s.updates s.due s.queue

pub record IsMailbox (t : MailboxTracker) : Type 0 where
  pub bound : t.num_messages < u32_mod
  pub consistent : All (IsConsistent t.num_messages) t.sessions

-- An update as the queue operations make it.
pub record IsSane (u : Update) : Type 0 where
  pub one_kind : (u.expunge ≡ 0) ⊎ (u.num_messages ≡ 0)
  pub fits : u.num_messages < u32_mod
  pub known : is_known u ≡ true

-- The two range checks of queueUpdate let the update pass.
pub record IsAllowed (n : ℕ) (u : Update) : Type 0 where
  pub in_range : (u.expunge ≡ 0) ⊎ (u.expunge ≤ n)
  pub no_decrease : (u.num_messages ≡ 0) ⊎ (n ≤ u.num_messages)

stamped-Fits : (n : ℕ) (u : Update) → IsSane u → IsAllowed n u → Fits n (stamped u n)
unfolding stamped
stamped-Fits n u s a = ground (arith, s.one_kind, s.fits, a.in_range, a.no_decrease)

stamped-is_known : (n : ℕ) (u : Update) → is_known u ≡ true → is_known (stamped u n) ≡ true
unfolding stamped
stamped-is_known n u s = ground arith

count_after-stamped : (n : ℕ) (u : Update) → count_after (stamped u n) n ≡ count_after u n
unfolding stamped count_after
count_after-stamped n u = ground arith

count_after-bound : (n : ℕ) (u : Update) → n < u32_mod → IsSane u → count_after u n < u32_mod
unfolding count_after
count_after-bound n u h s = ground (arith, s.fits)

signal-IsAwake :
    (o : Option ℕ) (due : Bool) (q q' : List Update) → IsAwake o due q → IsAwake (signal o) due q'
unfolding signal
signal-IsAwake none due q q' h = tt
signal-IsAwake (some k) due q q' h = ground arith

-- A session that the update reaches, and one that is spared it.
session_queue_update-IsConsistent :
    (n : ℕ) (s : SessionTracker) (u : Update) (skip : Bool)
    → n < u32_mod
    → IsSane u
    → IsAllowed n u
    → (skip ≡ false) ⊎ (count_after u n ≡ n)
    → s.registered ≡ true
    → IsConsistent n s
    → IsConsistent (count_after u n) (session_queue_update s (stamped u n) (count_after u n) skip)
unfolding session_queue_update
session_queue_update-IsConsistent n s u true b sn al sk reg c = record {
  client = c.client;
  replays = ground (arith, c.current reg, c.replays);
  current = λ _. refl;
  known = c.known;
  awake = c.awake;
}
session_queue_update-IsConsistent n s u false b sn al sk reg c = record {
  client = c.client;
  replays =
      Replays-append c.client s.num_messages (count_after u n) s.queue (stamped u n ∷ []) c.replays
        (rw (c.current reg) (
          b,
          stamped-Fits n u sn al,
          (count_after-stamped n u, rw count_after-stamped (count_after-bound n u b sn)),
        ));
  current = λ _. refl;
  known = All-append _ s.queue (stamped u n ∷ []) c.known (stamped-is_known n u sn.known, tt);
  awake = signal-IsAwake s.updates s.due s.queue (s.queue ++ stamped u n ∷ []) c.awake;
}

offer-IsConsistent :
    (n : ℕ) (r : Bool) (s : SessionTracker) (u : Update) (skip : Bool)
    → n < u32_mod
    → IsSane u
    → IsAllowed n u
    → (skip ≡ false) ⊎ (count_after u n ≡ n)
    → s.registered ≡ r
    → IsConsistent n s
    → IsConsistent (count_after u n) (offer r s (stamped u n) (count_after u n) skip)
unfolding offer
offer-IsConsistent n true s u skip b sn al sk reg c =
    session_queue_update-IsConsistent n s u skip b sn al sk reg c
offer-IsConsistent n false s u skip b sn al sk off c = record {
  client = c.client;
  replays = c.replays;
  current = λ e. absurd (differ e);
  known = c.known;
  awake = c.awake;
}
  where
    differ : s.registered ≡ true → ⊥
    differ e = cc

pub spared : {P : Type 0} (i : ℕ) (o : Option ℕ) → (o ≡ none) ⊎ P → (same o i ≡ false) ⊎ P
spared i none h = inl refl
spared i (some j) (inl e) = cc
spared i (some j) (inr e) = inr e

fan_out-IsConsistent :
    (n i : ℕ) (ss : List SessionTracker) (u : Update) (source : Option ℕ)
    → n < u32_mod
    → IsSane u
    → IsAllowed n u
    → (source ≡ none) ⊎ (count_after u n ≡ n)
    → All (IsConsistent n) ss
    → All (IsConsistent (count_after u n)) (fan_out ss i (stamped u n) (count_after u n) source)
unfolding fan_out
fan_out-IsConsistent n i [] u source b sn al src h = tt
fan_out-IsConsistent n i (s ∷ ss) u source b sn al src (c, cs) = (
  offer-IsConsistent n s.registered s u (same source i) b sn al (spared i source src) refl c,
  fan_out-IsConsistent n (i + 1) ss u source b sn al src cs,
)

module _ (t : MailboxTracker) (u : Update) (source : Option ℕ) where
  abbrev pub too_far : Bool
  too_far = not (u.expunge == 0) && ltb t.num_messages u.expunge

  abbrev pub too_few : Bool
  too_few = not (u.num_messages == 0) && ltb u.num_messages t.num_messages

  pub checked : too_far ≡ false → too_few ≡ false → IsAllowed t.num_messages u
  checked a b = ground arith

  queue_update-IsMailbox :
      IsSane u
      → (source ≡ none) ⊎ (count_after u t.num_messages ≡ t.num_messages)
      → IsMailbox t
      → IsMailbox (queue_update t u source).0
  unfolding queue_update
  queue_update-IsMailbox sn src m = elim (Bool-cases too_far) [
    | inl far ↦ rw far m
    | inr near ↦ elim (Bool-cases too_few) [
      | inl few ↦ rw (near, few) m
      | inr many ↦
          rw (near, many)
            (record {
              bound = count_after-bound t.num_messages u m.bound sn;
              consistent =
                  fan_out-IsConsistent t.num_messages 0 t.sessions u source m.bound sn
                    (checked near many) src m.consistent;
            })
    ]
  ]

pub queue_expunge-IsMailbox :
    (t : MailboxTracker) (k uid : ℕ) → IsMailbox t → IsMailbox (queue_expunge t k uid).0
unfolding queue_expunge
queue_expunge-IsMailbox t k uid m = elim (Bool-cases (k == 0)) [
  | inl z ↦ rw z m
  | inr z ↦ rw z (
      queue_update-IsMailbox t (expunge_update k uid) none
        (record { one_kind = inr refl; fits = omega arith; known = rw z refl }) (inl refl) m)
]

pub queue_num_messages-IsMailbox :
    (t : MailboxTracker) (n : ℕ) → n < u32_mod → IsMailbox t → IsMailbox (queue_num_messages t n).0
unfolding queue_num_messages
queue_num_messages-IsMailbox t n h m = elim (Bool-cases (n == 0)) [
  | inl z ↦ rw z (elim (Bool-cases (t.num_messages == 0)) [ inl e ↦ rw e m | inr e ↦ rw e m ])
  | inr z ↦ rw z (
      queue_update-IsMailbox t (exists_update n) none
        (record { one_kind = inl refl; fits = h; known = rw z refl }) (inl refl) m)
]

pub queue_mailbox_flags-IsMailbox :
    (t : MailboxTracker) (flags : Option (List Bytes))
    → IsMailbox t
    → IsMailbox (queue_mailbox_flags t flags).0
unfolding queue_mailbox_flags
queue_mailbox_flags-IsMailbox t none m =
    queue_update-IsMailbox t (record empty_update { mailbox_flags = some [] }) none
      (record { one_kind = inl refl; fits = omega arith; known = refl }) (inl refl) m
queue_mailbox_flags-IsMailbox t (some fs) m =
    queue_update-IsMailbox t (record empty_update { mailbox_flags = some fs }) none
      (record { one_kind = inl refl; fits = omega arith; known = refl }) (inl refl) m

pub queue_message_flags-IsMailbox :
    (t : MailboxTracker) (f : UpdateFetch) (source : Option ℕ)
    → IsMailbox t
    → IsMailbox (queue_message_flags t f source).0
unfolding queue_message_flags
queue_message_flags-IsMailbox t f source m =
    queue_update-IsMailbox t (record empty_update { fetch = some f }) source
      (record { one_kind = inl refl; fits = omega arith; known = refl })
      (inr (unfold count_after in refl)) m

-- QueueExpunge succeeds exactly on the number of a message that the mailbox has; the count then falls by
-- one. Otherwise nothing changes.
pub queue_expunge_result :
    (t : MailboxTracker) (k uid : ℕ)
    → (((queue_expunge t k uid).1 ≡ none) ↔ (0 < k) × (k ≤ t.num_messages))
      × ((queue_expunge t k uid).1 ≡ none
          → (queue_expunge t k uid).0.num_messages + 1 ≡ t.num_messages)
      × ((queue_expunge t k uid).1 ≢ none → (queue_expunge t k uid).0 ≡ t)
unfolding queue_expunge queue_update count_after
queue_expunge_result t k uid =
    (((λ h. ground arith), λ h. ground arith), (λ h. ground arith), λ h. ground arith)

-- QueueNumMessages succeeds exactly if the number is no decrease; the count is then that number. Otherwise
-- nothing changes.
pub queue_num_messages_result :
    (t : MailboxTracker) (n : ℕ)
    → (((queue_num_messages t n).1 ≡ none) ↔ (t.num_messages ≤ n))
      × ((queue_num_messages t n).1 ≡ none → (queue_num_messages t n).0.num_messages ≡ n)
      × ((queue_num_messages t n).1 ≢ none → (queue_num_messages t n).0 ≡ t)
unfolding queue_num_messages queue_update count_after
queue_num_messages_result t n =
    (((λ h. ground arith), λ h. ground arith), (λ h. ground arith), λ h. ground arith)
