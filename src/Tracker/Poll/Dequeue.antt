-- ===== src/Tracker/Poll/Dequeue.antt =====
-- What a Poll takes off the queue.
use go_imap.Prelude.{
  ℕ, ◌≡◌, ◌≢◌, inl, inr, ◌∙◌, refl, sym, Bool, true, false, List, [], ◌∷◌, ◌++◌, append-nil, arith,
  Option, none, some, All,
}
use go_imap.Tracker.{Update, SessionTracker}
use go_imap.Tracker.Count.{Replays-split}
use go_imap.Tracker.Queue.{IsConsistent, IsAwake}
use go_imap.Tracker.Poll.{split_at_expunge, dequeue}

-- The list is empty or starts with an expunge.
abbrev pub StartsWithExpunge : List Update → Type 0
StartsWithExpunge [] = Unit
StartsWithExpunge (u ∷ us) = u.expunge ≢ 0

split_at_expunge_lem :
    (us : List Update)
    → ((split_at_expunge us).0 ++ (split_at_expunge us).1 ≡ us)
      × All (λ u. u.expunge ≡ 0) (split_at_expunge us).0
      × StartsWithExpunge (split_at_expunge us).1
unfolding split_at_expunge
split_at_expunge_lem [] = (refl, tt, tt)
split_at_expunge_lem (u ∷ us) = ground (arith, split_at_expunge_lem us)

pub dequeue-append :
    (t : SessionTracker) (allow : Bool) → (dequeue t allow).0 ++ (dequeue t allow).1.queue ≡ t.queue
unfolding dequeue
dequeue-append t true = append-nil t.queue
dequeue-append t false = (split_at_expunge_lem t.queue).0

-- A Poll takes off the front of the queue: what it delivers and what stays make up the queue in order.
-- With expunges allowed nothing stays; without, it delivers no expunge, and stops only at an expunge.
pub dequeue_lem :
    (t : SessionTracker) (allow : Bool)
    → ((dequeue t allow).0 ++ (dequeue t allow).1.queue ≡ t.queue)
      × (allow ≡ true → (dequeue t allow).1.queue ≡ [])
      × (allow ≡ false
          → All (λ u. u.expunge ≡ 0) (dequeue t allow).0
            × StartsWithExpunge (dequeue t allow).1.queue)
unfolding dequeue
dequeue_lem t true = (append-nil t.queue, (λ e. refl), λ e. cc)
dequeue_lem t false = let (a, b, c) = split_at_expunge_lem t.queue in (a, (λ e. cc), λ e. (b, c))

All-right : (P : Update → Type 0) (us vs : List Update) → All P (us ++ vs) → All P vs
All-right P [] vs h = h
All-right P (u ∷ us) vs (p, h) = All-right P us vs h

pub All-left : (P : Update → Type 0) (us vs : List Update) → All P (us ++ vs) → All P us
All-left P [] vs h = tt
All-left P (u ∷ us) vs (p, h) = (p, All-left P us vs h)

IsAwake-rest :
    (o : Option ℕ) (due : Bool) (us vs : List Update) → IsAwake o due (us ++ vs) → IsAwake o due vs
IsAwake-rest none due us vs h = tt
IsAwake-rest (some k) due [] vs h = h
IsAwake-rest (some k) due (u ∷ us) vs (inl e) = cc
IsAwake-rest (some k) due (u ∷ us) vs (inr e) = inr e

same_rest :
    (t : SessionTracker) (allow : Bool)
    → ((dequeue t allow).1.num_messages ≡ t.num_messages)
      × ((dequeue t allow).1.registered ≡ t.registered)
      × ((dequeue t allow).1.updates ≡ t.updates)
      × ((dequeue t allow).1.due ≡ t.due)
unfolding dequeue
same_rest t true = (refl, refl, refl, refl)
same_rest t false = (refl, refl, refl, refl)

-- A Poll keeps a session consistent: the queue then leads from the count behind the delivered updates.
pub dequeue-IsConsistent :
    (n : ℕ) (t : SessionTracker) (allow : Bool)
    → IsConsistent n t
    → IsConsistent n (dequeue t allow).1
dequeue-IsConsistent n t allow c =
    let (cn, cr, cu, cd) = same_rest t allow in
    let (m, told, left) =
      Replays-split c.client t.num_messages (dequeue t allow).0 (dequeue t allow).1.queue
        (rw (dequeue-append t allow) c.replays) in
    record {
      client = m;
      replays = rw cn left;
      current = λ e. cn ∙ c.current (sym cr ∙ e);
      known = All-right _ (dequeue t allow).0 _ (rw (dequeue-append t allow) c.known);
      awake =
          rw (cu, cd)
            (IsAwake-rest t.updates t.due (dequeue t allow).0 _
              (rw (dequeue-append t allow) c.awake));
    }
