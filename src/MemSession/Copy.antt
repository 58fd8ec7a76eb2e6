-- ===== src/MemSession/Copy.antt =====
-- imapserver/imapmemserver/session.go: what the loop of COPY and MOVE puts into the destination
use go_imap.Prelude.{
  ℕ, suc, ◌+◌, ◌%◌, ◌^◌, ◌<◌, ◌≡◌, ◌∙◌, refl, sym, ap, List, [], ◌∷◌, ◌++◌, if◌then◌else◌, length,
  append_assoc, append-nil, arith, All, Bool-cases, inl, inr, some,
}
use go_imap.NumSet.{u32_mod}
use go_imap.Tracker.{SessionTracker}
use go_imap.MemMailbox.{Message, Mailbox, append_bytes, copy_msg, add_flags, next_u32, next_u64}
use go_imap.MemMailbox.Append.{length-last, IsMemMailbox, append_bytes-IsMemMailbox}
use go_imap.MemMailbox.Static.{NumSet, selects}
use go_imap.UidMapping.{pairs_of}
use go_imap.UidMapping.Pairs.{IsPair, mapping_add-pairs}
use go_imap.MemSession.{Copying, copy_one, copy_loop}

-- The messages that the numbers of the command select, and the others
abbrev pub chosen : SessionTracker → NumSet → ℕ → List Message → List Message
chosen t ns i [] = []
chosen t ns i (msg ∷ l) =
    if selects t ns ((i + 1) % u32_mod) msg.uid
    then msg ∷ chosen t ns (i + 1) l
    else chosen t ns (i + 1) l

abbrev pub left : SessionTracker → NumSet → ℕ → List Message → List Message
left t ns i [] = []
left t ns i (msg ∷ l) =
    if selects t ns ((i + 1) % u32_mod) msg.uid
    then left t ns (i + 1) l
    else msg ∷ left t ns (i + 1) l

-- Their copies: the same text, time and flags, under UIDs and modification sequences that go up from the counters
abbrev pub copies : ℕ → ℕ → List Message → List Message
copies u h [] = []
copies u h (msg ∷ l) =
    (record { uid = u; buf = msg.buf; t = msg.t; flags = add_flags msg.flags []; mod_seq = h + 1 })
    ∷ copies (u + 1) (h + 1) l

abbrev pub uid_pairs : ℕ → List Message → List (ℕ × ℕ)
uid_pairs u [] = []
uid_pairs u (msg ∷ l) = (msg.uid, u) ∷ uid_pairs (u + 1) l

abbrev pub uids_of : List Message → List ℕ
uids_of [] = []
uids_of (msg ∷ l) = msg.uid ∷ uids_of l

-- The counters of the destination allow so many messages more.
pub record HasRoomFor (m : Mailbox) (k : ℕ) : Type 0 where
  pub uids : m.uid_next + k < u32_mod
  pub mod_seqs : m.highest_mod_seq + k < 2 ^ 64
  pub messages : length m.l + k < u32_mod

-- A UID that a message can have
abbrev pub IsUid : Message → Type 0
IsUid msg = (0 < msg.uid) × (msg.uid < u32_mod)

-- What the loop has added to the state
pub record Copied (st r : Copying) (l : List Message) : Type 0 where
  pub formed : IsMemMailbox r.dest
  pub messages : r.dest.l ≡ st.dest.l ++ copies st.dest.uid_next st.dest.highest_mod_seq l
  pub ranges : All IsPair r.mapping
  pub pairs : pairs_of r.mapping ≡ pairs_of st.mapping ++ uid_pairs st.dest.uid_next l
  pub moved : r.moved ≡ st.moved ++ uids_of l
  pub validity : r.dest.uid_validity ≡ st.dest.uid_validity

copy_one-Copied :
    (now : ℕ) (msg : Message) (st : Copying)
    → IsUid msg
    → IsMemMailbox st.dest
    → HasRoomFor st.dest 1
    → All IsPair st.mapping
    → Copied st (copy_one now msg st) (msg ∷ [])
      × ((copy_one now msg st).dest.uid_next ≡ st.dest.uid_next + 1)
      × ((copy_one now msg st).dest.highest_mod_seq ≡ st.dest.highest_mod_seq + 1)
unfolding copy_one copy_msg append_bytes
copy_one-Copied now msg st (pos, fits) w room good =
    let u : next_u32 st.dest.uid_next ≡ st.dest.uid_next + 1 = omega (arith, room.uids) in
    let h : next_u64 st.dest.highest_mod_seq ≡ st.dest.highest_mod_seq + 1 =
      omega (arith, room.mod_seqs) in
    let (ranges, pairs) =
      mapping_add-pairs st.mapping msg.uid st.dest.uid_next good pos fits w.next_pos
        (omega (arith, room.uids)) in
    (
      record {
        formed =
            (append_bytes-IsMemMailbox now st.dest msg.buf
              (record { time = some msg.t; flags = msg.flags }) w
              (record { uids = room.uids; mod_seqs = room.mod_seqs; messages = room.messages })).0;
        messages = rw h;
        ranges = ranges;
        pairs = pairs;
        moved = refl;
        validity = refl;
      },
      u,
      h,
    )

Copied-nil : (st : Copying) → IsMemMailbox st.dest → All IsPair st.mapping → Copied st st []
Copied-nil st w good = record {
  formed = w;
  messages = sym (append-nil st.dest.l);
  ranges = good;
  pairs = sym (append-nil (pairs_of st.mapping));
  moved = sym (append-nil st.moved);
  validity = refl;
}

Copied-cons :
    (msg : Message) (st mid r : Copying) (l : List Message)
    → Copied st mid (msg ∷ [])
    → mid.dest.uid_next ≡ st.dest.uid_next + 1
    → mid.dest.highest_mod_seq ≡ st.dest.highest_mod_seq + 1
    → Copied mid r l
    → Copied st r (msg ∷ l)
Copied-cons msg st mid r l a u h b = record {
  formed = b.formed;
  messages =
      b.messages
      ∙ ap (λ k. mid.dest.l ++ copies k mid.dest.highest_mod_seq l) u
      ∙ ap (λ k. mid.dest.l ++ copies (st.dest.uid_next + 1) k l) h
      ∙ ap (λ k. k ++ copies (st.dest.uid_next + 1) (st.dest.highest_mod_seq + 1) l) a.messages
      ∙ append_assoc st.dest.l _ _;
  ranges = b.ranges;
  pairs =
      b.pairs
      ∙ ap (λ k. pairs_of mid.mapping ++ uid_pairs k l) u
      ∙ ap (λ k. k ++ uid_pairs (st.dest.uid_next + 1) l) a.pairs
      ∙ append_assoc (pairs_of st.mapping) _ _;
  moved = b.moved ∙ ap (λ k. k ++ uids_of l) a.moved ∙ append_assoc st.moved _ _;
  validity = b.validity ∙ a.validity;
}

room_one : (m : Mailbox) (k : ℕ) → HasRoomFor m (suc k) → HasRoomFor m 1
room_one m k r = record {
  uids = omega (arith, r.uids);
  mod_seqs = omega (arith, r.mod_seqs);
  messages = omega (arith, r.messages);
}

room_after :
    (m m' : Mailbox) (c : Message) (k : ℕ)
    → HasRoomFor m (suc k)
    → m'.uid_next ≡ m.uid_next + 1
    → m'.highest_mod_seq ≡ m.highest_mod_seq + 1
    → m'.l ≡ m.l ++ c ∷ []
    → HasRoomFor m' k
room_after m m' c k r u h e =
    let n : length m'.l ≡ length m.l + 1 = ap length e ∙ length-last m.l c in
    record {
      uids = omega (arith, r.uids, u);
      mod_seqs = omega (arith, r.mod_seqs, h);
      messages = omega (arith, r.messages, n);
    }

pub copy_loop-Copied :
    (now : ℕ) (t : SessionTracker) (ns : NumSet) (i : ℕ) (l : List Message) (st : Copying)
    → All IsUid l
    → IsMemMailbox st.dest
    → HasRoomFor st.dest (length (chosen t ns i l))
    → All IsPair st.mapping
    → Copied st (copy_loop now t ns i l st) (chosen t ns i l)
unfolding copy_loop
copy_loop-Copied now t ns i [] st us w room good = Copied-nil st w good
copy_loop-Copied now t ns i (msg ∷ l) st (us, uss) w room good =
    elim (Bool-cases (selects t ns ((i + 1) % u32_mod) msg.uid)) [
      | inl e ↦
          let more = rw e at room in
          let (a, u, h) = copy_one-Copied now msg st us w (room_one st.dest _ more) good in
          rw e (
            Copied-cons msg st (copy_one now msg st) _ _ a u h (
              copy_loop-Copied now t ns (i + 1) l (copy_one now msg st) uss a.formed
                (room_after st.dest _ _ _ more u h a.messages) a.ranges))
      | inr e ↦ rw e (copy_loop-Copied now t ns (i + 1) l st uss w (rw e at room) good)
    ]
