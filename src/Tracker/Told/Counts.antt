-- ===== src/Tracker/Told/Counts.antt =====
-- imapserver/tracker.go: an update that is queued leaves the counts of the clients as they were.
use go_imap.Prelude.{
  ℕ, ◌+◌, ◌<◌, ◌≡◌, ◌⊎◌, ◌∙◌, refl, ap, ap₂, sym, inl, inr, Bool, true, false, List, [], ◌∷◌, ◌++◌,
  Option, none, some, All, Bool-cases, arith, ◌==◌,
}
use go_imap.Strconv.{Bytes}
use go_imap.NumSet.{u32_mod}
use go_imap.Tracker.{
  Update, UpdateFetch, SessionTracker, MailboxTracker, count_after, count_loop, stamped,
  session_queue_update, offer, fan_out, same, queue_update, queue_expunge, queue_num_messages,
  queue_mailbox_flags, queue_message_flags, expunge_update, exists_update, empty_update,
}
use go_imap.Tracker.Queue.{
  IsConsistent, IsMailbox, IsSane, IsAllowed, checked, too_far, too_few, spared,
}

-- The count of the client that the queue of a session leads from
abbrev pub known_count : SessionTracker → ℕ
known_count s = count_loop s.queue s.num_messages

abbrev pub known_counts : List SessionTracker → List ℕ
known_counts [] = []
known_counts (s ∷ ss) = known_count s ∷ known_counts ss

pub known_counts-append :
    (ss ts : List SessionTracker) → known_counts (ss ++ ts) ≡ known_counts ss ++ known_counts ts
known_counts-append [] ts = refl
known_counts-append (s ∷ ss) ts = ap (◌∷◌ (known_count s)) (known_counts-append ss ts)

pub count_loop-append :
    (us : List Update) (u : Update) (n : ℕ)
    → count_loop (us ++ u ∷ []) n ≡ count_loop us (count_loop (u ∷ []) n)
unfolding count_loop
count_loop-append [] u n = refl
count_loop-append (v ∷ us) u n = ground (arith, count_loop-append us u n)

pub count_loop-stamped :
    (n : ℕ) (u : Update)
    → n < u32_mod
    → IsSane u
    → IsAllowed n u
    → count_loop (stamped u n ∷ []) (count_after u n) ≡ n
unfolding count_loop stamped count_after
count_loop-stamped n u h s a = ground (arith, s.one_kind, s.fits, a.in_range, a.no_decrease)

-- An update that is queued tells the client nothing yet.
pub session_queue_update-known_count :
    (n : ℕ) (s : SessionTracker) (u : Update) (skip : Bool)
    → n < u32_mod
    → IsSane u
    → IsAllowed n u
    → (skip ≡ false) ⊎ (count_after u n ≡ n)
    → s.num_messages ≡ n
    → known_count (session_queue_update s (stamped u n) (count_after u n) skip) ≡ known_count s
unfolding session_queue_update
session_queue_update-known_count n s u true h sn al sk e = ap (count_loop s.queue) (ground (arith))
session_queue_update-known_count n s u false h sn al sk e =
    count_loop-append s.queue (stamped u n) (count_after u n)
    ∙ ap (count_loop s.queue) (count_loop-stamped n u h sn al ∙ sym e)

pub offer-known_count :
    (n : ℕ) (r : Bool) (s : SessionTracker) (u : Update) (skip : Bool)
    → n < u32_mod
    → IsSane u
    → IsAllowed n u
    → (skip ≡ false) ⊎ (count_after u n ≡ n)
    → (r ≡ true → s.num_messages ≡ n)
    → known_count (offer r s (stamped u n) (count_after u n) skip) ≡ known_count s
unfolding offer
offer-known_count n true s u skip h sn al sk e =
    session_queue_update-known_count n s u skip h sn al sk (e refl)
offer-known_count n false s u skip h sn al sk e = refl

pub fan_out-known_counts :
    (n i : ℕ) (ss : List SessionTracker) (u : Update) (source : Option ℕ)
    → n < u32_mod
    → IsSane u
    → IsAllowed n u
    → (source ≡ none) ⊎ (count_after u n ≡ n)
    → All (IsConsistent n) ss
    → known_counts (fan_out ss i (stamped u n) (count_after u n) source) ≡ known_counts ss
unfolding fan_out
fan_out-known_counts n i [] u source h sn al src cs = refl
fan_out-known_counts n i (s ∷ ss) u source h sn al src (c, cs) =
    ap₂ ◌∷◌
      (offer-known_count n s.registered s u (same source i) h sn al (spared i source src) c.current)
      (fan_out-known_counts n (i + 1) ss u source h sn al src cs)

module _ (t : MailboxTracker) (m : IsMailbox t) where
  pub queue_update-known_counts :
      (u : Update) (source : Option ℕ)
      → IsSane u
      → (source ≡ none) ⊎ (count_after u t.num_messages ≡ t.num_messages)
      → known_counts (queue_update t u source).0.sessions ≡ known_counts t.sessions
  unfolding queue_update
  queue_update-known_counts u source sn src = elim (Bool-cases (too_far t u source)) [
    | inl far ↦ rw far refl
    | inr near ↦ elim (Bool-cases (too_few t u source)) [
      | inl few ↦ rw (near, few) refl
      | inr many ↦
          rw (near, many)
            (fan_out-known_counts t.num_messages 0 t.sessions u source m.bound sn
              (checked t u source near many) src m.consistent)
    ]
  ]

  pub queue_expunge-known_counts :
      (k uid : ℕ) → known_counts (queue_expunge t k uid).0.sessions ≡ known_counts t.sessions
  unfolding queue_expunge
  queue_expunge-known_counts k uid = elim (Bool-cases (k == 0)) [
    | inl z ↦ rw z refl
    | inr z ↦ rw z (
        queue_update-known_counts (expunge_update k uid) none
          (record { one_kind = inr refl; fits = omega arith; known = rw z refl }) (inl refl))
  ]

  pub queue_num_messages-known_counts :
      (n : ℕ)
      → n < u32_mod
      → known_counts (queue_num_messages t n).0.sessions ≡ known_counts t.sessions
  unfolding queue_num_messages
  queue_num_messages-known_counts n h = elim (Bool-cases (n == 0)) [
    | inl z ↦
        rw z (elim (Bool-cases (t.num_messages == 0)) [ inl e ↦ rw e refl | inr e ↦ rw e refl ])
    | inr z ↦ rw z (
        queue_update-known_counts (exists_update n) none
          (record { one_kind = inl refl; fits = h; known = rw z refl }) (inl refl))
  ]

  pub queue_mailbox_flags-known_counts :
      (fs : Option (List Bytes))
      → known_counts (queue_mailbox_flags t fs).0.sessions ≡ known_counts t.sessions
  unfolding queue_mailbox_flags
  queue_mailbox_flags-known_counts none =
      queue_update-known_counts (record empty_update { mailbox_flags = some [] }) none
        (record { one_kind = inl refl; fits = omega arith; known = refl }) (inl refl)
  queue_mailbox_flags-known_counts (some fs) =
      queue_update-known_counts (record empty_update { mailbox_flags = some fs }) none
        (record { one_kind = inl refl; fits = omega arith; known = refl }) (inl refl)

  pub queue_message_flags-known_counts :
      (f : UpdateFetch) (source : Option ℕ)
      → known_counts (queue_message_flags t f source).0.sessions ≡ known_counts t.sessions
  unfolding queue_message_flags
  queue_message_flags-known_counts f source =
      queue_update-known_counts (record empty_update { fetch = some f }) source
        (record { one_kind = inl refl; fits = omega arith; known = refl })
        (inr (unfold count_after in refl))
