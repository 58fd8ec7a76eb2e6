-- ===== src/Tracker/Poll.antt =====
-- SessionTracker.Poll of imapserver/tracker.go: what is taken off the queue, and what is written. The
-- writer is a parameter: `write out r` says whether the response `r` is written after the responses
-- `out`. A panic is an outcome.
pub mod Dequeue
pub mod Deliver
use go_imap.Prelude.{
  ℕ, Bool, true, false, not, ◌&&◌, List, [], ◌∷◌, ◌++◌, ◌==◌, if◌then◌else◌, Option, none, some,
}
use go_imap.Strconv.{Bytes}
use go_imap.NumSet.{Set, add_num}
use go_imap.Tracker.{Update, UpdateFetch, SessionTracker}

-- The updates in front of the first expunge, and the rest of the queue from there
pub split_at_expunge : List Update → List Update × List Update
split_at_expunge [] = ([], [])
split_at_expunge (u ∷ us) =
    let rest = split_at_expunge us in
    if not (u.expunge == 0) then ([], u ∷ us) else (u ∷ rest.0, rest.1)

-- The critical section of poll: the updates to deliver, and the session without them
unfoldable pub dequeue : SessionTracker → Bool → List Update × SessionTracker
unfolding split_at_expunge
dequeue t true = (t.queue, record t { queue = [] })
dequeue t false = let s = split_at_expunge t.queue in (s.0, record t { queue = s.1 })

pub data Response : Type 0 where
  vanished : Set → Response
  expunge : ℕ → Response
  exists : ℕ → Response
  flags : List Bytes → Response
  fetch : UpdateFetch → Response

pub data Status : Type 0 where
  done failed panicked : Status

-- The responses written so far, and how the delivery went
abbrev pub Delivery : Type 0
Delivery = List Response × Status

-- The response to one update that is not reported as VANISHED
unfoldable pub response : Update → Option Response
response u =
    if not (u.expunge == 0)
    then some (expunge u.expunge)
    else if not (u.num_messages == 0)
    then some (exists u.num_messages)
    else elim u.mailbox_flags [
      | some fs ↦ some (flags fs)
      | none ↦ elim u.fetch [ some f ↦ some (fetch f) | none ↦ none ]
    ]

module _ (write : List Response → Response → Bool) where
  -- One write, and what follows it if it succeeds
  unfoldable pub put : Response → List Response → (List Response → Delivery) → Delivery
  put r out next = if write out r then next (out ++ r ∷ []) else (out, failed)

  -- flushVanished
  unfoldable pub flush_vanished : Set → List Response → (List Response → Delivery) → Delivery
  flush_vanished [] out next = next out
  flush_vanished (v ∷ s) out next = put (vanished (v ∷ s)) out next

  -- The response to an update behind the pending VANISHED; a flush comes first in every case but the
  -- panic.
  unfoldable pub answer :
      Option Response → Set → List Response → (List Response → Delivery) → Delivery
  answer none pending out next = (out, panicked)
  answer (some r) pending out next = flush_vanished pending out (λ out'. put r out' next)

  -- The loop of poll; `pending` is the VANISHED set.
  unfoldable pub deliver_from : Bool → List Update → Set → List Response → Delivery
  deliver_from qresync [] pending out = flush_vanished pending out (λ out'. (out', done))
  deliver_from qresync (u ∷ us) pending out =
      let held = deliver_from qresync us (add_num pending (u.expunge_uid ∷ [])) out in
      let told = answer (response u) pending out (λ out'. deliver_from qresync us [] out') in
      if not (u.expunge == 0) && (qresync && not (u.expunge_uid == 0)) then held else told

unfoldable pub deliver : (List Response → Response → Bool) → Bool → List Update → Delivery
unfolding deliver_from answer flush_vanished put response add_num
deliver write qresync us = deliver_from write qresync us [] []

-- SessionTracker.poll
unfoldable pub poll :
    (List Response → Response → Bool) → Bool → SessionTracker → Bool → Delivery × SessionTracker
unfolding deliver dequeue
poll write qresync t allow_expunge =
    let (us, t') = dequeue t allow_expunge in (deliver write qresync us, t')

-- SessionTracker.PollWith; `after` writes behind the updates, if they went well.
pub poll_with :
    (List Response → Response → Bool)
    → (List Response → Delivery)
    → Bool
    → SessionTracker
    → Bool
    → Delivery × SessionTracker
poll_with write after qresync t allow_expunge =
    let (d, t') = poll write qresync t allow_expunge in (follow d.1 d.0 after, t')
  where
    follow : Status → List Response → (List Response → Delivery) → Delivery
    follow done out after = after out
    follow s out after = (out, s)
