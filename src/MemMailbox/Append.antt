-- ===== src/MemMailbox/Append.antt =====
-- What a mailbox keeps, and Mailbox.appendBytes.
use go_imap.Prelude.{
  ℕ, ◌+◌, ◌%◌, ◌^◌, ◌≤◌, ◌<◌, ◌≡◌, ◌∙◌, refl, List, [], ◌∷◌, ◌++◌, arith, All, All-append, length,
  length-append, sym, ap,
}
use go_imap.Strconv.{Bytes}
use go_imap.NumSet.{u32_mod}
use go_imap.Tracker.{queue_num_messages}
use go_imap.Tracker.Queue.{IsMailbox, queue_num_messages-IsMailbox, queue_num_messages_result}
use go_imap.MemMailbox.{Message, Mailbox, AppendOptions, append_bytes, next_u32, next_u64}

-- UIDs ascend, from above `lo`.
abbrev pub Ascends : ℕ → List Message → Type 0
Ascends lo [] = Unit
Ascends lo (msg ∷ l) = (lo < msg.uid) × Ascends msg.uid l

-- What holds of a mailbox between two operations.
pub record IsMemMailbox (m : Mailbox) : Type 0 where
  pub tracked : IsMailbox m.tracker
  pub counted : m.tracker.num_messages ≡ length m.l
  pub ordered : Ascends 0 m.l
  pub fresh : All (λ msg. (msg.uid < m.uid_next) × (msg.mod_seq ≤ m.highest_mod_seq)) m.l
  pub logged : All (λ e. (e.uid < m.uid_next) × (e.mod_seq ≤ m.highest_mod_seq)) m.expunged
  pub next_pos : 0 < m.uid_next

-- The counters of the mailbox do not wrap around at the next message.
pub record HasRoom (m : Mailbox) : Type 0 where
  pub uids : m.uid_next + 1 < u32_mod
  pub mod_seqs : m.highest_mod_seq + 1 < 2 ^ 64
  pub messages : length m.l + 1 < u32_mod

Ascends-append :
    (lo u : ℕ) (l : List Message) (msg : Message)
    → Ascends lo l
    → All (λ x. x.uid < u) l
    → lo < u
    → msg.uid ≡ u
    → Ascends lo (l ++ msg ∷ [])
Ascends-append lo u [] msg a h b e = (omega arith, tt)
Ascends-append lo u (x ∷ l) msg (p, a) (h, hs) b e = (p, Ascends-append x.uid u l msg a hs h e)

module _ {A : Type 0} where
  pub All-weaken : {P Q : A → Type 0} (l : List A) → ((x : A) → P x → Q x) → All P l → All Q l
  All-weaken [] f h = tt
  All-weaken (x ∷ l) f (p, h) = (f x p, All-weaken l f h)

pub length-last : (l : List Message) (msg : Message) → length (l ++ msg ∷ []) ≡ length l + 1
length-last l msg = omega (arith, length-append l (msg ∷ []))

-- The mailbox behind a message added, with what the counters become.
add_message-IsMemMailbox :
    (m : Mailbox) (msg : Message) (k u h : ℕ)
    → k ≡ length m.l + 1
    → u ≡ m.uid_next + 1
    → h ≡ m.highest_mod_seq + 1
    → k < u32_mod
    → msg.uid ≡ m.uid_next
    → msg.mod_seq ≡ h
    → IsMemMailbox m
    → IsMemMailbox (record m {
      tracker = (queue_num_messages m.tracker k).0;
      l = m.l ++ msg ∷ [];
      uid_next = u;
      highest_mod_seq = h;
    })
add_message-IsMemMailbox m msg k u h ek eu eh b mu mm w =
    let (ok, count, refused) = queue_num_messages_result m.tracker k in
    record {
      tracked = queue_num_messages-IsMailbox m.tracker k b w.tracked;
      counted = count (ok.1 (omega (arith, w.counted))) ∙ ek ∙ sym (length-last m.l msg);
      ordered =
          Ascends-append 0 m.uid_next m.l msg w.ordered (All-weaken m.l (λ x p. p.0) w.fresh)
            w.next_pos mu;
      fresh =
          All-append _ m.l (msg ∷ [])
            (All-weaken m.l (λ x p. (omega (arith, p.0), omega (arith, p.1))) w.fresh)
            ((omega arith, omega arith), tt);
      logged = All-weaken m.expunged (λ x p. (omega (arith, p.0), omega (arith, p.1))) w.logged;
      next_pos = omega arith;
    }

-- appendBytes on a well-formed mailbox with room: the mailbox stays well-formed, so its UIDs ascend and
-- stay below UIDNEXT, and the tracker counts the new message; the message stands last, under the UID
-- that is returned, which was UIDNEXT, and with a modification sequence above all others.
pub append_bytes-IsMemMailbox :
    (now : ℕ) (m : Mailbox) (buf : Bytes) (options : AppendOptions)
    → IsMemMailbox m
    → HasRoom m
    → IsMemMailbox (append_bytes now m buf options).0
      × ((append_bytes now m buf options).1.uid ≡ m.uid_next)
      × ((msg : Message) × ((append_bytes now m buf options).0.l ≡ m.l ++ msg ∷ [])
          × (msg.uid ≡ m.uid_next)
          × (msg.buf ≡ buf)
          × (msg.mod_seq ≡ m.highest_mod_seq + 1))
unfolding append_bytes
append_bytes-IsMemMailbox now m buf options w r =
    let eu : next_u32 m.uid_next ≡ m.uid_next + 1 = omega (arith, r.uids) in
    let eh : next_u64 m.highest_mod_seq ≡ m.highest_mod_seq + 1 = omega (arith, r.mod_seqs) in
    let el = length-last m.l _ in
    let ek = ap (λ n. n % u32_mod) el ∙ small (length m.l + 1) r.messages in
    (
      add_message-IsMemMailbox m _ _ _ _ ek eu eh (rw ek r.messages) refl refl w,
      refl,
      (_, refl, refl, refl, eh),
    )
  where
    small : (n : ℕ) → n < u32_mod → n % u32_mod ≡ n
    small n h = omega arith
