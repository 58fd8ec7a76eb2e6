-- ===== src/Tracker/Numbers.antt =====
-- Sequence numbers in the client's view and in the server's.
use go_imap.Prelude.{ℕ, ◌≤◌, ◌<◌, ◌≡◌, ◌≢◌, refl, true, List, [], ◌∷◌, arith}
use go_imap.NumSet.{u32_mod}
use go_imap.Tracker.{
  Update, SessionTracker, count_after, decode_step, decode_loop, encode_step, encode_loop,
  decode_seq_num, encode_seq_num,
}
use go_imap.Tracker.Count.{Fits, Replays}

module _ (c : ℕ) (u : Update) (b : c < u32_mod) (f : Fits c u) where
  decode_step-le : (k : ℕ) → k ≤ c → decode_step u k ≤ count_after u c
  unfolding decode_step count_after
  decode_step-le k h = ground (arith, f.in_range, f.grows)

  encode_step-decode_step :
      (k : ℕ) → 0 < k → k ≤ c → decode_step u k ≢ 0 → encode_step u (decode_step u k) ≡ k
  unfolding decode_step encode_step
  encode_step-decode_step k p h ne = ground (arith, f.in_range, f.grows)

  decode_step-encode_step :
      (k : ℕ)
      → 0 < k
      → k ≤ count_after u c
      → encode_step u k ≢ 0
      → (encode_step u k ≤ c) × (decode_step u (encode_step u k) ≡ k)
  unfolding decode_step encode_step count_after
  decode_step-encode_step k p h ne = ground (arith, f.in_range, f.grows)

pub decode_loop-le : (c n k : ℕ) (us : List Update) → Replays c us n → k ≤ c → decode_loop us k ≤ n
unfolding decode_loop
decode_loop-le c n k [] r h = ground arith
decode_loop-le c n k (u ∷ us) (b, f, r) h =
    ground
      (arith, decode_step-le c u b f k h, decode_loop-le (count_after u c) n (decode_step u k) us r)

encode_loop-decode_loop :
    (c n k : ℕ) (us : List Update)
    → Replays c us n
    → 0 < k
    → k ≤ c
    → decode_loop us k ≢ 0
    → encode_loop us (decode_loop us k) ≡ k
unfolding decode_loop encode_loop
encode_loop-decode_loop c n k [] r p h ne = refl
encode_loop-decode_loop c n k (u ∷ us) (b, f, r) p h ne = ground (
  arith,
  decode_step-le c u b f k h,
  encode_step-decode_step c u b f k p h,
  encode_loop-decode_loop (count_after u c) n (decode_step u k) us r,
)

decode_loop-encode_loop :
    (c n k : ℕ) (us : List Update)
    → Replays c us n
    → 0 < k
    → k ≤ n
    → encode_loop us k ≢ 0
    → (encode_loop us k ≤ c) × (decode_loop us (encode_loop us k) ≡ k)
unfolding decode_loop encode_loop
decode_loop-encode_loop c n k [] r p h ne = ground arith
decode_loop-encode_loop c n k (u ∷ us) (b, f, r) p h ne = ground (
  arith,
  decode_step-encode_step c u b f (encode_loop us k),
  decode_loop-encode_loop (count_after u c) n k us r p h,
)

-- For an open session whose queue leads from `c` messages to its own count: a sequence number that the
-- client can name and that DecodeSeqNum finds on the server is one of the server's, and EncodeSeqNum
-- gives back the client's number for it.
pub encode_seq_num-decode_seq_num :
    (c k : ℕ) (t : SessionTracker)
    → t.attached ≡ true
    → Replays c t.queue t.num_messages
    → k ≤ c
    → decode_seq_num t k ≢ 0
    → (decode_seq_num t k ≤ t.num_messages) × (encode_seq_num t (decode_seq_num t k) ≡ k)
unfolding decode_seq_num encode_seq_num
encode_seq_num-decode_seq_num c k t a r h ne = ground (
  arith,
  decode_loop-le c t.num_messages k t.queue r h,
  encode_loop-decode_loop c t.num_messages k t.queue r,
)

-- The other way round: a number of the server's that EncodeSeqNum finds in the client's view is one that
-- the client can name, and DecodeSeqNum gives back the server's number for it.
pub decode_seq_num-encode_seq_num :
    (c k : ℕ) (t : SessionTracker)
    → t.attached ≡ true
    → Replays c t.queue t.num_messages
    → encode_seq_num t k ≢ 0
    → (encode_seq_num t k ≤ c) × (decode_seq_num t (encode_seq_num t k) ≡ k)
unfolding decode_seq_num encode_seq_num
decode_seq_num-encode_seq_num c k t a r ne =
    ground (arith, decode_loop-encode_loop c t.num_messages k t.queue r)
