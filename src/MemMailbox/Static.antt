-- ===== src/MemMailbox/Static.antt =====
-- The message numbers of a command, resolved against a mailbox: staticNumSet and staticNumRange of
-- imapserver/imapmemserver/mailbox.go.
use go_imap.Prelude.{
  ℕ, ◌+◌, ◌-◌, ◌%◌, ◌≤◌, ◌<◌, ◌≡◌, Bool, true, false, not, ◌&&◌, ◌||◌, [], ◌∷◌, map, arith, ltb,
  leb, ◌==◌, if◌then◌else◌, min, max,
}
use go_imap.NumSet.{Range, Set, u32_mod, contains, less, set_contains, search, search_loop}
use go_imap.NumSet.Key.{IsRange}
use go_imap.NumSet.Canon.{any_contains}
use go_imap.Tracker.{SessionTracker, encode_num_messages, encode_seq_num}
use go_imap.MemMailbox.{Mailbox}
use go_imap.MemMailbox.Select.{MailboxView, session_of}

-- imap.NumSet; the SEARCHRES marker "$" is a UIDSet of its own.
pub data NumSet : Type 0 where
  seqs : Set → NumSet
  uids : Set → NumSet
  search_res : NumSet

abbrev or_max : ℕ → ℕ → ℕ
or_max n m = if n == 0 then m else n

-- staticNumRange
unfoldable pub static_num_range : ℕ → Range → Range
static_num_range m r =
    let start = or_max r.start m in
    let stop = or_max r.stop m in
    if (r.start == 0 || r.stop == 0) && ltb stop start
    then record { start = stop; stop = start }
    else record { start = start; stop = stop }

-- MailboxView.staticNumSet
unfoldable pub static_num_set : Mailbox → MailboxView → NumSet → NumSet
static_num_set m v search_res = uids v.search_res
static_num_set m v (seqs s) = seqs (map (static_num_range (encode_num_messages (session_of m v))) s)
static_num_set m v (uids s) = uids (map (static_num_range ((m.uid_next + u32_mod - 1) % u32_mod)) s)

-- The test of MailboxView.forEachLocked on one message
unfoldable pub selects : SessionTracker → NumSet → ℕ → ℕ → Bool
selects t (seqs s) seq_num uid =
    let k = encode_seq_num t seq_num in not (k == 0) && set_contains s k
selects t (uids s) seq_num uid = set_contains s uid
selects t search_res seq_num uid = false

-- A valid range, resolved where the largest number is `m`, holds a number exactly if it lies between the
-- ends of the range, in either order, with `m` for "*".
pub contains-static_num_range :
    (m q : ℕ) (r : Range)
    → IsRange r
    → 0 < m
    → m < u32_mod
    → 0 < q
    → q < u32_mod
    → contains (static_num_range m r) q ≡ (
        leb (min (or_max r.start m) (or_max r.stop m)) q
        && leb q (max (or_max r.start m) (or_max r.stop m)))
unfolding static_num_range contains
contains-static_num_range m q r v pm hm pq hq = ground (arith, v.ordered)

-- Resolving the UID set "a:b,c:*" where the largest UID is below `a`, and a ≤ b < c: the last range becomes
-- one that holds the largest UID, but stands out of order, and Contains, which searches by halves,
-- does not find it.
pub static_num_range_unsorted :
    (m a b c : ℕ)
    → 0 < m
    → m < a
    → a ≤ b
    → b < c
    → c < u32_mod
    → (any_contains
          (map
            (static_num_range m)
            (record { start = a; stop = b } ∷ record { start = c; stop = 0 } ∷ []))
          m
        ≡ true)
      × (set_contains
            (map
              (static_num_range m)
              (record { start = a; stop = b } ∷ record { start = c; stop = 0 } ∷ []))
            m
          ≡ false)
unfolding static_num_range contains set_contains search search_loop less
static_num_range_unsorted m a b c pm ma ab bc hc = ground arith
