-- ===== src/MemMailbox/Expunge.antt =====
-- Mailbox.Expunge: what it removes, and what the tracker is told.
use go_imap.Prelude.{
  ℕ, suc, ◌+◌, ◌-◌, ◌%◌, ◌≤◌, ◌<◌, ◌≡◌, ◌∙◌, refl, sym, ap, true, ◌&&◌, List, [], ◌∷◌, ◌++◌,
  append_assoc, append-nil, arith, ltb, leb, if◌then◌else◌, length, length-append,
}
use go_imap.NumSet.{u32_mod}
use go_imap.Tracker.{MailboxTracker, queue_expunge, queue_update, count_after}
use go_imap.MemMailbox.{
  Message, ExpungedMessage, Mailbox, Expunging, mem, expunging, expunge_one, expunge_loop,
  expunge_locked, next_u64,
}

-- The messages that stay, and those that go.
abbrev pub kept : List ℕ → List Message → List Message
kept gone [] = []
kept gone (msg ∷ l) = if mem msg.uid gone then kept gone l else msg ∷ kept gone l

abbrev pub logged : List ℕ → ℕ → List Message → List ExpungedMessage
logged gone mod_seq [] = []
logged gone mod_seq (msg ∷ l) =
    if mem msg.uid gone
    then (record { uid = msg.uid; mod_seq = mod_seq }) ∷ logged gone mod_seq l
    else logged gone mod_seq l

expunge_one-kept :
    (gone : List ℕ) (ms i : ℕ) (msg : Message) (l : List Message) (st : Expunging)
    → ((expunge_one gone ms i msg st).kept ++ kept gone l ≡ st.kept ++ kept gone (msg ∷ l))
      × ((expunge_one gone ms i msg st).expunged ++ logged gone ms l
          ≡ st.expunged ++ logged gone ms (msg ∷ l))
unfolding expunge_one
expunge_one-kept gone ms i msg l st = ground (
  arith,
  append_assoc st.kept (msg ∷ []) (kept gone l),
  append_assoc st.expunged ((record { uid = msg.uid; mod_seq = ms }) ∷ []) (logged gone ms l),
)

expunge_loop-kept :
    (gone : List ℕ) (ms i : ℕ) (l : List Message) (st : Expunging)
    → ((expunge_loop gone ms i l st).kept ≡ st.kept ++ kept gone l)
      × ((expunge_loop gone ms i l st).expunged ≡ st.expunged ++ logged gone ms l)
unfolding expunge_loop
expunge_loop-kept gone ms i [] st = (sym (append-nil st.kept), sym (append-nil st.expunged))
expunge_loop-kept gone ms i (msg ∷ l) st =
    let (a, b) = expunge_loop-kept gone ms (i + 1) l (expunge_one gone ms i msg st) in
    let (c, d) = expunge_one-kept gone ms i msg l st in (a ∙ c, b ∙ d)

-- expungeLocked removes exactly the messages of the map, keeps the others in order, and logs the removed
-- ones in order under one new modification sequence.
pub expunge_locked-kept :
    (m : Mailbox) (gone : List ℕ)
    → ((expunge_locked m gone).0.l ≡ kept gone m.l)
      × ((expunge_locked m gone).0.expunged
          ≡ m.expunged ++ logged gone (next_u64 m.highest_mod_seq) m.l)
      × ((expunge_locked m gone).0.highest_mod_seq ≡ next_u64 m.highest_mod_seq)
unfolding expunge_locked
expunge_locked-kept m gone =
    let (a, b) = expunge_loop-kept gone (next_u64 m.highest_mod_seq) 0 m.l (expunging m) in
    (a, b, refl)

queue_expunge-count :
    (t : MailboxTracker) (k uid : ℕ)
    → (queue_expunge t k uid).0.num_messages
      ≡ (if ltb 0 k && leb k t.num_messages then t.num_messages - 1 else t.num_messages)
unfolding queue_expunge queue_update count_after
queue_expunge-count t k uid = ground arith

-- How many messages of the list go.
abbrev pub count_gone : List ℕ → List Message → ℕ
count_gone gone [] = 0
count_gone gone (msg ∷ l) = (if mem msg.uid gone then 1 else 0) + count_gone gone l

length-kept :
    (gone : List ℕ) (l : List Message) → length (kept gone l) + count_gone gone l ≡ length l
length-kept gone [] = omega arith
length-kept gone (msg ∷ l) = ground (arith, length-kept gone l)

module _ (gone : List ℕ) (ms : ℕ) where
  expunge_one-count :
      (i : ℕ) (msg : Message) (st : Expunging)
      → (expunge_one gone ms i msg st).tracker.num_messages ≡ (
          if mem msg.uid gone
            && (ltb 0 ((i + 1) % u32_mod) && leb ((i + 1) % u32_mod) st.tracker.num_messages)
          then st.tracker.num_messages - 1
          else st.tracker.num_messages)
  unfolding expunge_one
  expunge_one-count i msg st =
      ground (arith, queue_expunge-count st.tracker ((i + 1) % u32_mod) msg.uid)

  -- The count falls by one for a removed message at most.
  expunge_loop-count :
      (i : ℕ) (l : List Message) (st : Expunging)
      → ((expunge_loop gone ms i l st).tracker.num_messages ≤ st.tracker.num_messages)
        × (st.tracker.num_messages
            ≤ (expunge_loop gone ms i l st).tracker.num_messages + count_gone gone l)
  unfolding expunge_loop
  expunge_loop-count i [] st = omega arith
  expunge_loop-count i (msg ∷ l) st = ground (
    arith,
    expunge_one-count i msg st,
    expunge_loop-count (i + 1) l (expunge_one gone ms i msg st),
  )

  expunge_loop-none :
      (i : ℕ) (l : List Message) (st : Expunging)
      → count_gone gone l ≡ 0
      → (expunge_loop gone ms i l st).tracker ≡ st.tracker
  unfolding expunge_loop expunge_one
  expunge_loop-none i [] st e = refl
  expunge_loop-none i (msg ∷ l) st e =
      ground (arith, expunge_loop-none (i + 1) l (record st { kept = st.kept ++ msg ∷ [] }))

  expunge_loop-append :
      (i : ℕ) (l l' : List Message) (st : Expunging)
      → expunge_loop gone ms i (l ++ l') st
        ≡ expunge_loop gone ms (i + length l) l' (expunge_loop gone ms i l st)
  unfolding expunge_loop
  expunge_loop-append i [] l' st = let e : i + 0 ≡ i = omega arith in rw e refl
  expunge_loop-append i (msg ∷ l) l' st =
      let e : i + suc (length l) ≡ i + 1 + length l = omega arith in
      rw e (expunge_loop-append (i + 1) l l' (expunge_one gone ms i msg st))

count_gone-append :
    (gone : List ℕ) (l l' : List Message)
    → count_gone gone (l ++ l') ≡ count_gone gone l + count_gone gone l'
count_gone-append gone [] l' = omega arith
count_gone-append gone (msg ∷ l) l' = omega (arith, count_gone-append gone l l')

module _ (gone : List ℕ) (ms : ℕ) (st : Expunging) (n : ℕ) (count : st.tracker.num_messages ≡ n)
    (bound : n < u32_mod) where
  -- The first message that goes takes its number off the count, unless the count is below it already.
  first_gone :
      (i : ℕ) (a : Message) (st' : Expunging)
      → i + 1 ≤ n
      → st'.tracker.num_messages ≤ n
      → mem a.uid gone ≡ true
      → ((expunge_one gone ms i a st').tracker.num_messages < n)
        × (st'.tracker.num_messages ≤ (expunge_one gone ms i a st').tracker.num_messages + 1)
  first_gone i a st' h l g =
      let e : (i + 1) % u32_mod ≡ i + 1 = omega arith in
      ground (arith, e, expunge_one-count gone ms i a st')

  -- The last message of the list is out of range once the count has fallen.
  last_refused :
      (i : ℕ) (b : Message) (st' : Expunging)
      → i + 1 ≡ n
      → st'.tracker.num_messages < n
      → (expunge_one gone ms i b st').tracker.num_messages ≡ st'.tracker.num_messages
  last_refused i b st' h l =
      let e : (i + 1) % u32_mod ≡ i + 1 = omega arith in
      ground (arith, e, expunge_one-count gone ms i b st')

  expunge_loop_last :
      (pre mid : List Message) (a b : Message)
      → n ≡ length pre + 1 + length mid + 1
      → mem a.uid gone ≡ true
      → mem b.uid gone ≡ true
      → n
        < (expunge_loop gone ms 0 (pre ++ a ∷ (mid ++ b ∷ [])) st).tracker.num_messages
          + count_gone gone (pre ++ a ∷ (mid ++ b ∷ []))
  unfolding expunge_loop
  expunge_loop_last pre mid a b e ga gb =
      let st1 = expunge_loop gone ms 0 pre st in
      let st2 = expunge_one gone ms (0 + length pre) a st1 in
      let st3 = expunge_loop gone ms (0 + length pre + 1) mid st2 in
      let (u1, l1) = expunge_loop-count gone ms 0 pre st in
      let (u2, l2) = first_gone (0 + length pre) a st1 (omega arith) (omega arith) ga in
      let (u3, l3) = expunge_loop-count gone ms (0 + length pre + 1) mid st2 in
      let r = last_refused (0 + length pre + 1 + length mid) b st3 (omega arith) (omega arith) in
      let c1 = count_gone-append gone pre (a ∷ (mid ++ b ∷ [])) in
      let c2 = count_gone-append gone mid (b ∷ []) in
      rw
        (
          expunge_loop-append gone ms 0 pre (a ∷ (mid ++ b ∷ [])) st,
          expunge_loop-append gone ms (0 + length pre + 1) mid (b ∷ []) st2,
          r,
        )
        (ground (arith, c1, c2, l1, l2, l3))

  expunge_loop_one :
      (pre post : List Message) (msg : Message)
      → n ≡ length pre + 1 + length post
      → mem msg.uid gone ≡ true
      → count_gone gone pre ≡ 0
      → count_gone gone post ≡ 0
      → (expunge_loop gone ms 0 (pre ++ msg ∷ post) st).tracker
        ≡ (queue_expunge st.tracker (length pre + 1) msg.uid).0
  unfolding expunge_loop
  expunge_loop_one pre post msg e g z z' =
      let i : 0 + length pre ≡ length pre = omega arith in
      let k : (length pre + 1) % u32_mod ≡ length pre + 1 = omega arith in
      rw
        (
          expunge_loop-append gone ms 0 pre (msg ∷ post) st,
          i,
          expunge_loop-none gone ms (length pre + 1) post
              (expunge_one gone ms (length pre) msg (expunge_loop gone ms 0 pre st)) z',
        )
        (unfold expunge_one in rw (g, k, expunge_loop-none gone ms 0 pre st z) refl)

kept-append :
    (gone : List ℕ) (l l' : List Message) → kept gone (l ++ l') ≡ kept gone l ++ kept gone l'
kept-append gone [] l' = refl
kept-append gone (msg ∷ l) l' = ground (arith, kept-append gone l l')

-- When only one message is removed, the tracker's count stays the number of messages, and the update that
-- the tracker gets is the message's own sequence number.
pub expunge_locked_one :
    (m : Mailbox) (pre post : List Message) (msg : Message) (gone : List ℕ)
    → m.l ≡ pre ++ msg ∷ post
    → length m.l < u32_mod
    → m.tracker.num_messages ≡ length m.l
    → mem msg.uid gone ≡ true
    → count_gone gone pre ≡ 0
    → count_gone gone post ≡ 0
    → ((expunge_locked m gone).0.tracker ≡ (queue_expunge m.tracker (length pre + 1) msg.uid).0)
      × ((expunge_locked m gone).0.tracker.num_messages ≡ length (expunge_locked m gone).0.l)
      × ((expunge_locked m gone).0.l ≡ kept gone pre ++ kept gone post)
unfolding expunge_locked
expunge_locked_one m pre post msg gone e b t g z z' =
    let n = ap length e ∙ length-append pre (msg ∷ post) in
    let st = expunging m in
    let (a, log) = expunge_loop-kept gone (next_u64 m.highest_mod_seq) 0 m.l st in
    let one =
      expunge_loop_one gone (next_u64 m.highest_mod_seq) st (length m.l) t b pre post msg
        (omega (arith, n)) g z z' in
    let same = ap (λ l. (expunge_loop gone (next_u64 m.highest_mod_seq) 0 l st).tracker) e in
    let ks = a ∙ ap (kept gone) e ∙ kept-append gone pre (msg ∷ post) ∙ rw g refl in
    let c = queue_expunge-count m.tracker (length pre + 1) msg.uid in
    let lens = ap length ks ∙ length-append (kept gone pre) (kept gone post) in
    let lp = length-kept gone pre in
    let lq = length-kept gone post in
    let fell : (queue_expunge m.tracker (length pre + 1) msg.uid).0.num_messages
        ≡ m.tracker.num_messages - 1 =
      ground (arith, n, c) in
    (same ∙ one, ap (λ t. t.num_messages) (same ∙ one) ∙ fell ∙ omega (arith, n, lens, lp, lq), ks)

-- When the last message is removed together with an earlier one, the tracker counts more messages than the
-- mailbox still has.
pub expunge_locked_last :
    (m : Mailbox) (pre mid : List Message) (a b : Message) (gone : List ℕ)
    → m.l ≡ pre ++ a ∷ (mid ++ b ∷ [])
    → length m.l < u32_mod
    → m.tracker.num_messages ≡ length m.l
    → mem a.uid gone ≡ true
    → mem b.uid gone ≡ true
    → length (expunge_locked m gone).0.l < (expunge_locked m gone).0.tracker.num_messages
unfolding expunge_locked
expunge_locked_last m pre mid a b gone e bd t ga gb =
    let n = ap length e ∙ length-append pre (a ∷ (mid ++ b ∷ [])) in
    let n' = length-append mid (b ∷ []) in
    let st = expunging m in
    let (k, log) = expunge_loop-kept gone (next_u64 m.highest_mod_seq) 0 m.l st in
    let last =
      expunge_loop_last gone (next_u64 m.highest_mod_seq) st (length m.l) t bd pre mid a b
        (omega (arith, n, n')) ga gb in
    let same =
      ap
        (λ l.
          (expunge_loop gone (next_u64 m.highest_mod_seq) 0 l st).tracker.num_messages
          + count_gone gone l)
        e in
    omega (arith, ap length k, length-kept gone m.l, same, last)
