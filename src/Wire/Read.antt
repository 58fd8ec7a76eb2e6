-- ===== src/Wire/Read.antt =====
-- internal/imapwire/decoder.go: how a decoder in good order reads
use go_imap.Prelude.{
  ℕ, zero, suc, ◌+◌, ◌≤◌, ◌≡◌, refl, Bool, true, false, not, ◌&&◌, [], ◌∷◌, ◌++◌, ltb, ◌==◌, none,
  some, length, length-append, ◌<◌, arith, append_assoc, append-nil, All,
}
use go_imap.Strconv.{Bytes}
use go_imap.Wire.{
  Settings, Decoder, read_byte, return_err, unexpected, accept_byte, unread, gather, func, is_some,
}

-- The decoder's state after a read: what is still to come, and how many bytes were counted.
unfoldable pub at : Bytes → ℕ → Decoder → Decoder
at s n d = record d { input = s; read_bytes = n; crlf = false }

-- The decoder reads: no error is recorded, unless it discards a line, no literal is open, and the limit allows all of the input.
pub record IsReady (c : Settings) (s : Bytes) (n : ℕ) (d : Decoder) : Type 0 where
  pub sound : (is_some d.err && not d.discarding) ≡ false
  pub closed : d.literal ≡ false
  pub room : ltb 0 c.max_size ≡ true → n + length s ≤ c.max_size + d.uncounted

pub unread-at : (b n : ℕ) (s : Bytes) (d : Decoder) → unread b (at s (n + 1) d) ≡ at (b ∷ s) n d
unfolding unread at
unread-at b n s d = ground arith

pub add_zero : (n : ℕ) → n + 0 ≡ n
add_zero n = omega arith

pub add_suc : (n m : ℕ) → n + suc m ≡ n + 1 + m
add_suc n m = omega arith

pub ==_refl : (b : ℕ) → (b == b) ≡ true
==_refl b = ground arith

abbrev pub Takes : (ℕ → Bool) → Bytes → Type 0
Takes valid s = All (λ b. valid b ≡ true) s

module _ {c : Settings} {d : Decoder} where
  pub tail-IsReady : {b n : ℕ} {s : Bytes} → IsReady c (b ∷ s) n d → IsReady c s (n + 1) d
  tail-IsReady r = record {
    sound = r.sound;
    closed = r.closed;
    room = λ h. omega (arith, r.room h);
  }

  pub read_byte-at :
      {b n : ℕ} {s : Bytes}
      → IsReady c (b ∷ s) n d
      → read_byte c (at (b ∷ s) n d) ≡ (at s (n + 1) d, some b)
  unfolding read_byte at
  read_byte-at r = ground (arith, r.sound, r.closed, r.room)

  pub read_byte-at_end :
      {n : ℕ}
      → IsReady c [] n d
      → read_byte c (at [] n d) ≡ (return_err (unexpected c.ending) (at [] n d), none)
  unfolding read_byte at
  read_byte-at_end r = ground (arith, r.sound, r.closed, r.room)

  pub accept_byte-at :
      {b n : ℕ} {s : Bytes}
      → IsReady c (b ∷ s) n d
      → accept_byte c b (at (b ∷ s) n d) ≡ (at s (n + 1) d, some tt)
  unfolding accept_byte
  accept_byte-at {b} r = rw (read_byte-at r, ==_refl b)

  pub accept_byte-other :
      (want : ℕ) {b n : ℕ} {s : Bytes}
      → (b == want) ≡ false
      → IsReady c (b ∷ s) n d
      → accept_byte c want (at (b ∷ s) n d) ≡ (at (b ∷ s) n d, none)
  unfolding accept_byte
  accept_byte-other want {b} {n} {s} h r = rw (read_byte-at r, h, unread-at b n s d)

  pub drop-IsReady : (p s : Bytes) (n : ℕ) → IsReady c (p ++ s) n d → IsReady c s (n + length p) d
  drop-IsReady [] s n r = rw (add_zero n) r
  drop-IsReady (b ∷ p) s n r = rw (add_suc n (length p)) (drop-IsReady p s (n + 1) (tail-IsReady r))

  pub gather-at :
      (valid : ℕ → Bool) {b : ℕ} (t : Bytes) (fuel : ℕ) (out p : Bytes) (n : ℕ)
      → length p < fuel
      → Takes valid p
      → valid b ≡ false
      → IsReady c (p ++ b ∷ t) n d
      → gather c fuel valid out (at (p ++ b ∷ t) n d)
        ≡ (at (b ∷ t) (n + length p) d, some (out ++ p))
  unfolding gather
  gather-at valid t zero out p n h _ _ _ = absurd (omega arith)
  gather-at valid {b} t (suc fuel) out [] n h _ stop r =
      rw (read_byte-at r, stop, append-nil out, unread-at b n t d) (ground arith)
  gather-at valid {b} t (suc fuel) out (x ∷ p) n h (vx, vp) stop r =
      rw
        (
          read_byte-at r,
          vx,
          gather-at valid t fuel (out ++ x ∷ []) p (n + 1) (omega arith) vp stop (tail-IsReady r),
          append_assoc out (x ∷ []) p,
        )
        (ground arith)

  -- The input ends before a byte that stops the loop.
  pub gather-end :
      (valid : ℕ → Bool) (fuel : ℕ) (out p : Bytes) (n : ℕ)
      → length p < fuel
      → Takes valid p
      → IsReady c p n d
      → gather c fuel valid out (at p n d)
        ≡ (return_err (unexpected c.ending) (at [] (n + length p) d), none)
  unfolding gather
  gather-end valid zero out p n h _ _ = absurd (omega arith)
  gather-end valid (suc fuel) out [] n h _ r = rw (read_byte-at_end r) (rw (add_zero n))
  gather-end valid (suc fuel) out (x ∷ p) n h (vx, vp) r =
      rw
        (
          read_byte-at r,
          vx,
          gather-end valid fuel (out ++ x ∷ []) p (n + 1) (omega arith) vp (tail-IsReady r),
        )
        (rw (add_suc n (length p)) refl)

  -- At least one valid byte, then one that is not
  pub func-at :
      (valid : ℕ → Bool) (x : ℕ) (p : Bytes) {b : ℕ} (t : Bytes) {n : ℕ}
      → Takes valid (x ∷ p)
      → valid b ≡ false
      → IsReady c (x ∷ p ++ b ∷ t) n d
      → func c valid (at (x ∷ p ++ b ∷ t) n d) ≡ (at (b ∷ t) (n + suc (length p)) d, some (x ∷ p))
  unfolding func at
  func-at valid x p {b} t {n} v stop r = rw (
      gather-at valid t (suc (length (x ∷ p ++ b ∷ t))) [] (x ∷ p) n
        (omega (arith, length-append p (b ∷ t))) v stop r)

  pub func-stop :
      (valid : ℕ → Bool) {b n : ℕ} {t : Bytes}
      → valid b ≡ false
      → IsReady c (b ∷ t) n d
      → func c valid (at (b ∷ t) n d) ≡ (at (b ∷ t) n d, none)
  unfolding func at
  func-stop valid {b} {n} {t} stop r =
      rw (gather-at valid t (suc (length (b ∷ t))) [] [] n (omega arith) tt stop r) (ground arith)
