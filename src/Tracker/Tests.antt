-- ===== src/Tracker/Tests.antt =====
-- A run of the tracker, and its theorems at concrete inputs.
use go_imap.Prelude.{
  ℕ, ◌≤◌, ◌<◌, ◌≡◌, ◌≢◌, refl, Bool, true, false, List, [], ◌∷◌, arith, none, some, ap, get_elem?,
  All,
}
use go_imap.NumSet.{u32_mod, insert, merge, less}
use go_imap.Tracker.{
  Update, SessionTracker, MailboxTracker, empty_update, new_mailbox_tracker, new_session,
  queue_expunge, queue_num_messages, queue_update, fan_out, offer, stamped, count_after,
  decode_seq_num, encode_seq_num, encode_num_messages, decode_loop, encode_loop, decode_step,
  encode_step,
}
use go_imap.Tracker.Count.{Replays}
use go_imap.Tracker.Queue.{is_known, IsAwake}
use go_imap.Tracker.Poll.{Response, vanished, exists, done, panicked, deliver, poll, dequeue}
use go_imap.Tracker.Poll.Deliver.{others, told, reported, expunged, deliver-done}
use go_imap.Tracker.Run.{
  Reach, here, next, opened, expunged as step_expunged, grown, acted, flush, act, at,
  Reach-seq_nums, Reach-ne-panicked,
}
use go_imap.Tracker.Told.{clients}
use go_imap.Tracker.Told.Clients.{Reach-clients}

abbrev first_expunge : Update
first_expunge = record empty_update { expunge = 2; expunge_uid = 20 }

abbrev growth : Update
growth = record empty_update { num_messages = 5; prev_num_messages = 2 }

abbrev busy : SessionTracker
busy = record {
  attached = true;
  registered = true;
  num_messages = 5;
  queue = first_expunge ∷ growth ∷ [];
  updates = none;
  due = false;
}

-- Three messages, of which the second is expunged, and then five.
abbrev after : MailboxTracker
after = record { num_messages = 5; sessions = busy ∷ [] }

abbrev final : MailboxTracker
final = (queue_num_messages (queue_expunge (new_session (new_mailbox_tracker 3)) 2 20).0 5).0

final_lem : final ≡ after
unfolding queue_num_messages queue_expunge new_session new_mailbox_tracker queue_update fan_out
    offer stamped count_after
final_lem = refl

run : Reach (new_mailbox_tracker 3) final
run = next (next (next here opened) (step_expunged 2 20)) (grown 5 (omega arith))

busy_at : get_elem? final.sessions 0 ≡ some busy
unfolding queue_num_messages queue_expunge new_session new_mailbox_tracker queue_update fan_out
    offer stamped count_after
busy_at = refl

views :
    (decode_seq_num busy 3 ≡ 2)
    × (encode_seq_num busy 2 ≡ 3)
    × (encode_seq_num busy 4 ≡ 0)
    × (decode_seq_num busy 2 ≡ 0)
unfolding decode_seq_num encode_seq_num decode_loop encode_loop decode_step encode_step
views = (refl, refl, refl, refl)

-- The client of the session polls without expunges allowed (nothing comes, since an expunge waits), and then with
-- them: it counts the three messages of SELECT less one, and then five.
abbrev polled : Bool → MailboxTracker → MailboxTracker
polled allow t = record t { sessions = at 0 (act (flush allow)) t.sessions }

polls : Reach (new_mailbox_tracker 3) (polled true (polled false final))
polls = next (next run (acted 0 (flush false))) (acted 0 (flush true))

abbrev idle : SessionTracker
idle = record busy { queue = [] }

idle_at : get_elem? (polled true (polled false final)).sessions 0 ≡ some idle
unfolding queue_num_messages queue_expunge new_session new_mailbox_tracker queue_update fan_out
    offer stamped count_after act dequeue
idle_at = refl

test_clients : (clients run ≡ 3 ∷ []) × (clients polls ≡ 5 ∷ [])
unfolding queue_num_messages queue_expunge new_session new_mailbox_tracker queue_update fan_out
    offer stamped count_after act dequeue poll deliver run polls
test_clients = (refl, refl)

Reach-clients_example :
    (c : ℕ) × (get_elem? (clients polls) 0 ≡ some c)
    × Replays c [] 5
    × (true ≡ true → encode_num_messages idle ≡ c)
    × (true ≡ true → 5 ≡ (polled true (polled false final)).num_messages)
    × All (λ u. is_known u ≡ true) []
    × IsAwake none false []
Reach-clients_example =
    Reach-clients 3 0 (polled true (polled false final)) idle (omega arith) polls idle_at

Reach-seq_nums_example :
    (3 ≤ encode_num_messages busy
      → decode_seq_num busy 3 ≢ 0
      → (decode_seq_num busy 3 ≤ 5) × (encode_seq_num busy (decode_seq_num busy 3) ≡ 3))
    × (encode_seq_num busy 3 ≢ 0
        → (encode_seq_num busy 3 ≤ encode_num_messages busy)
          × (decode_seq_num busy (encode_seq_num busy 3) ≡ 3))
Reach-seq_nums_example = Reach-seq_nums 3 0 3 final busy (omega arith) run busy_at refl

Reach-ne-panicked_example : (poll (λ out r. true) true busy false).0.1 ≢ panicked
Reach-ne-panicked_example =
    Reach-ne-panicked 3 0 final busy (λ out r. true) true false (omega arith) run busy_at

busy-Replays : Replays 3 busy.queue 5
unfolding count_after
busy-Replays = omega arith

abbrev writes : List Response → Response → Bool
writes out r = true

delivered :
    deliver writes true busy.queue
    ≡ (vanished (record { start = 20; stop = 20 } ∷ []) ∷ exists 5 ∷ [], done)
unfolding deliver insert merge less
delivered = refl

deliver-done_example :
    (others (deliver writes true busy.queue).0 ≡ told true busy.queue)
    × ((q : ℕ)
        → 0 < q
        → q < u32_mod
        → reported (deliver writes true busy.queue).0 q ≡ expunged true busy.queue q)
deliver-done_example =
    deliver-done writes true busy.queue (omega arith) (refl, (refl, tt)) (ap (λ d. d.1) delivered)
