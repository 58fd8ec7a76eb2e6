-- ===== src/Tracker/Count.antt =====
-- The counts that a queue of updates leads through.
use go_imap.Prelude.{ℕ, ◌≤◌, ◌<◌, ◌≡◌, ◌⊎◌, refl, true, List, [], ◌∷◌, ◌++◌, arith}
use go_imap.NumSet.{u32_mod}
use go_imap.Tracker.{Update, SessionTracker, count_after, count_loop, encode_num_messages}

-- The update makes sense to a reader that knows of `n` messages.
pub record Fits (n : ℕ) (u : Update) : Type 0 where
  pub in_range : (u.expunge ≡ 0) ⊎ ((u.expunge ≤ n) × (u.num_messages ≡ 0))
  pub grows :
      (u.num_messages ≡ 0)
      ⊎ ((n ≤ u.num_messages) × (u.prev_num_messages ≡ n) × (u.num_messages < u32_mod))

-- The updates lead from `n` messages to `m`, each one in range when its turn comes.
abbrev pub Replays : ℕ → List Update → ℕ → Type 0
Replays n [] m = (n ≡ m) × (n < u32_mod)
Replays n (u ∷ us) m = (n < u32_mod) × Fits n u × Replays (count_after u n) us m

pub Replays-bound : (n m : ℕ) (us : List Update) → Replays n us m → n < u32_mod
Replays-bound n m [] r = r.1
Replays-bound n m (u ∷ us) r = r.0

pub Replays-append :
    (n m k : ℕ) (us vs : List Update) → Replays n us m → Replays m vs k → Replays n (us ++ vs) k
Replays-append n m k [] vs (e, h) r = rw e r
Replays-append n m k (u ∷ us) vs (h, f, r) r' =
    (h, f, Replays-append (count_after u n) m k us vs r r')

pub Replays-split :
    (n k : ℕ) (us vs : List Update)
    → Replays n (us ++ vs) k
    → (m : ℕ) × Replays n us m × Replays m vs k
Replays-split n k [] vs r = (n, (refl, Replays-bound n k vs r), r)
Replays-split n k (u ∷ us) vs (h, f, r) =
    let (m, a, b) = Replays-split (count_after u n) k us vs r in (m, (h, f, a), b)

pub count_loop-Replays : (n m : ℕ) (us : List Update) → Replays n us m → count_loop us m ≡ n
unfolding count_loop count_after
count_loop-Replays n m [] r = ground arith
count_loop-Replays n m (u ∷ us) (h, f, r) =
    ground (arith, count_loop-Replays (count_after u n) m us r, f.in_range, f.grows)

-- For an open session whose queue leads from `c` messages to its own count, EncodeNumMessages gives `c`.
pub encode_num_messages_lem :
    (c : ℕ) (t : SessionTracker)
    → t.attached ≡ true
    → Replays c t.queue t.num_messages
    → encode_num_messages t ≡ c
unfolding encode_num_messages
encode_num_messages_lem c t a r = ground (arith, count_loop-Replays c t.num_messages t.queue r)
