-- ===== src/MemSession/Laws.antt =====
-- imapserver/imapmemserver/session.go: what COPY and MOVE do to the messages of the two mailboxes
use go_imap.Prelude.{
  ℕ, suc, ◌+◌, ◌%◌, ◌≤◌, ◌<◌, ◌≡◌, ◌∙◌, refl, ap, true, false, List, [], ◌∷◌, ◌++◌, ◌==◌, length,
  length-append, arith, All, Bool-cases, inl, inr,
}
use go_imap.NumSet.{u32_mod}
use go_imap.Tracker.{SessionTracker}
use go_imap.MemMailbox.{Message, Mailbox, mem}
use go_imap.MemMailbox.Append.{IsMemMailbox, Ascends}
use go_imap.MemMailbox.Expunge.{kept, expunge_locked-kept}
use go_imap.MemMailbox.Select.{MailboxView, session_of}
use go_imap.MemMailbox.Static.{NumSet, selects, static_num_set}
use go_imap.UidMapping.{pairs_of}
use go_imap.MemSession.{copy_messages, move_messages}
use go_imap.MemSession.Copy.{
  chosen, left, copies, uid_pairs, uids_of, HasRoomFor, IsUid, copy_loop-Copied,
}

kept_skip :
    (u : ℕ) (gone : List ℕ) (lo : ℕ) (l : List Message)
    → u ≤ lo
    → Ascends lo l
    → kept (u ∷ gone) l ≡ kept gone l
kept_skip u gone lo [] le a = refl
kept_skip u gone lo (msg ∷ l) le (p, a) =
    let differ : (msg.uid == u) ≡ false = ground arith in
    rw (differ, kept_skip u gone msg.uid l (omega arith) a)

mem-chosen :
    (u lo : ℕ) (t : SessionTracker) (ns : NumSet) (i : ℕ) (l : List Message)
    → u ≤ lo
    → Ascends lo l
    → mem u (uids_of (chosen t ns i l)) ≡ false
mem-chosen u lo t ns i [] le a = refl
mem-chosen u lo t ns i (msg ∷ l) le (p, a) =
    let rest = mem-chosen u msg.uid t ns (i + 1) l (omega arith) a in
    let differ : (u == msg.uid) ≡ false = ground arith in
    elim (Bool-cases (selects t ns ((i + 1) % u32_mod) msg.uid)) [
      | inl e ↦ rw (e, differ, rest)
      | inr e ↦ rw e rest
    ]

kept-chosen :
    (lo : ℕ) (t : SessionTracker) (ns : NumSet) (i : ℕ) (l : List Message)
    → Ascends lo l
    → kept (uids_of (chosen t ns i l)) l ≡ left t ns i l
kept-chosen lo t ns i [] a = refl
kept-chosen lo t ns i (msg ∷ l) (p, a) =
    let rest = kept-chosen msg.uid t ns (i + 1) l a in
    elim (Bool-cases (selects t ns ((i + 1) % u32_mod) msg.uid)) [
      | inl e ↦
          let goes : uids_of (chosen t ns i (msg ∷ l)) ≡ msg.uid ∷ uids_of (chosen t ns (i + 1) l) =
            rw e in
          let same : (msg.uid == msg.uid) ≡ true = ground arith in
          ap (λ k. kept k (msg ∷ l)) goes
          ∙ rw (same, e)
              (kept_skip msg.uid (uids_of (chosen t ns (i + 1) l)) msg.uid l (omega arith) a ∙ rest)
      | inr e ↦
          let stays : uids_of (chosen t ns i (msg ∷ l)) ≡ uids_of (chosen t ns (i + 1) l) = rw e in
          let absent = mem-chosen msg.uid msg.uid t ns (i + 1) l (omega arith) a in
          ap (λ k. kept k (msg ∷ l)) stays ∙ rw (absent, e) (ap (λ k. msg ∷ k) rest)
    ]

All-IsUid :
    (lo n : ℕ) (h : ℕ) (l : List Message)
    → Ascends lo l
    → All (λ msg. (msg.uid < n) × (msg.mod_seq ≤ h)) l
    → n < u32_mod
    → All IsUid l
All-IsUid lo n h [] a f le = tt
All-IsUid lo n h (msg ∷ l) (p, a) ((q, _), f) le =
    ((omega arith, omega arith), All-IsUid msg.uid n h l a f le)

length-copies : (u h : ℕ) (l : List Message) → length (copies u h l) ≡ length l
length-copies u h [] = refl
length-copies u h (msg ∷ l) = ap suc (length-copies (u + 1) (h + 1) l)

length-left :
    (t : SessionTracker) (ns : NumSet) (i : ℕ) (l : List Message)
    → length (left t ns i l) + length (chosen t ns i l) ≡ length l
length-left t ns i [] = omega arith
length-left t ns i (msg ∷ l) = ground (arith, length-left t ns (i + 1) l)

-- The messages of a mailbox that a command with these numbers works on, in a session with this view
abbrev pub picked : Mailbox → MailboxView → NumSet → List Message
picked m v ns = chosen (session_of m v) (static_num_set m v ns) 0 m.l

abbrev pub unpicked : Mailbox → MailboxView → NumSet → List Message
unpicked m v ns = left (session_of m v) (static_num_set m v ns) 0 m.l

-- COPY, between well-formed mailboxes and while the counters of the destination do not wrap around, adds to the
-- destination copies of exactly the picked messages, in their order, with the same text, time and flags and
-- under new, ascending UIDs; it keeps the messages and the UIDVALIDITY of the destination and leaves it
-- well-formed; and the ranges of its COPYUID answer give exactly the pairs of the old and the new UIDs.
pub copy_messages_lem :
    (now : ℕ) (src dest : Mailbox) (v : MailboxView) (ns : NumSet)
    → IsMemMailbox src
    → src.uid_next < u32_mod
    → IsMemMailbox dest
    → HasRoomFor dest (length (picked src v ns))
    → ((copy_messages now src v ns dest).dest.l
        ≡ dest.l ++ copies dest.uid_next dest.highest_mod_seq (picked src v ns))
      × (pairs_of (copy_messages now src v ns dest).mapping
          ≡ uid_pairs dest.uid_next (picked src v ns))
      × ((copy_messages now src v ns dest).dest.uid_validity ≡ dest.uid_validity)
      × IsMemMailbox (copy_messages now src v ns dest).dest
unfolding copy_messages pairs_of
copy_messages_lem now src dest v ns s next w room =
    let r =
      copy_loop-Copied now (session_of src v) (static_num_set src v ns) 0 src.l
        (record { dest = dest; mapping = []; moved = [] })
        (All-IsUid 0 src.uid_next src.highest_mod_seq src.l s.ordered s.fresh next) w room tt in
    (r.messages, r.pairs, r.validity, r.formed)

-- MOVE, under the conditions of COPY, changes the destination and answers with pairs as COPY does, and leaves in
-- the source exactly the messages that were not picked, in their order: no message is lost or left twice.
pub move_messages_lem :
    (now : ℕ) (src dest : Mailbox) (v : MailboxView) (ns : NumSet)
    → IsMemMailbox src
    → src.uid_next < u32_mod
    → IsMemMailbox dest
    → HasRoomFor dest (length (picked src v ns))
    → ((move_messages now src v ns dest).src.l ≡ unpicked src v ns)
      × ((move_messages now src v ns dest).dest ≡ (copy_messages now src v ns dest).dest)
      × (pairs_of (move_messages now src v ns dest).mapping
          ≡ uid_pairs dest.uid_next (picked src v ns))
      × (length (move_messages now src v ns dest).src.l
            + length (move_messages now src v ns dest).dest.l
          ≡ length src.l + length dest.l)
unfolding move_messages copy_messages pairs_of
move_messages_lem now src dest v ns s next w room =
    let r =
      copy_loop-Copied now (session_of src v) (static_num_set src v ns) 0 src.l
        (record { dest = dest; mapping = []; moved = [] })
        (All-IsUid 0 src.uid_next src.highest_mod_seq src.l s.ordered s.fresh next) w room tt in
    let stays : (move_messages now src v ns dest).src.l ≡ unpicked src v ns =
      (expunge_locked-kept src (copy_messages now src v ns dest).moved).0
      ∙ ap (λ k. kept k src.l) r.moved
      ∙ kept-chosen 0 (session_of src v) (static_num_set src v ns) 0 src.l s.ordered in
    let total =
      ap length r.messages
      ∙ length-append dest.l _
      ∙ ap (λ k. length dest.l + k) (length-copies dest.uid_next dest.highest_mod_seq _) in
    let parts = length-left (session_of src v) (static_num_set src v ns) 0 src.l in
    (stays, refl, r.pairs, omega (arith, ap length stays, total, parts))
