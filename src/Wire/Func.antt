-- ===== src/Wire/Func.antt =====
-- internal/imapwire/decoder.go: all outcomes of Decoder.Func, by how its input splits
use go_imap.Prelude.{
  ℕ, suc, ◌+◌, ◌≡◌, refl, Bool, false, [], ◌∷◌, ◌++◌, none, some, Option, length, arith, Bool-cases,
  inl, inr, append-nil, if◌then◌else◌, ap,
}
use go_imap.Strconv.{Bytes}
use go_imap.Wire.{Settings, Decoder, func, return_err, unexpected}
use go_imap.Wire.Read.{IsReady, at, Takes, func-at, func-stop, gather-end}

-- The longest prefix of valid bytes, and the rest
unfoldable pub valid_prefix : (ℕ → Bool) → Bytes → Bytes × Bytes
valid_prefix valid [] = ([], [])
valid_prefix valid (b ∷ s) =
    let (p, rest) = valid_prefix valid s in if valid b then (b ∷ p, rest) else ([], b ∷ s)

-- Without a byte that stops it, the method runs into the end of the input; a prefix that is empty is no token.
abbrev pub outcome : Settings → ℕ → Decoder → Bytes × Bytes → Decoder × Option Bytes
outcome c n d (p, []) = (return_err (unexpected c.ending) (at [] (n + length p) d), none)
outcome c n d ([], b ∷ t) = (at (b ∷ t) n d, none)
outcome c n d (x ∷ p, b ∷ t) = (at (b ∷ t) (n + suc (length p)) d, some (x ∷ p))

abbrev Stopped : (ℕ → Bool) → Bytes → Type 0
Stopped valid [] = Unit
Stopped valid (b ∷ t) = valid b ≡ false

valid_prefix_lem :
    (valid : ℕ → Bool) (s : Bytes)
    → (s ≡ (valid_prefix valid s).0 ++ (valid_prefix valid s).1)
      × Takes valid (valid_prefix valid s).0
      × Stopped valid (valid_prefix valid s).1
unfolding valid_prefix
valid_prefix_lem valid [] = (refl, tt, tt)
valid_prefix_lem valid (b ∷ s) = elim (Bool-cases (valid b)) [
  | inl e ↦
      let (split, takes, stopped) = valid_prefix_lem valid s in
      rw e (ap (◌∷◌ b) split, (e, takes), stopped)
  | inr e ↦ rw e (refl, tt, e)
]

func-end :
    (c : Settings) (valid : ℕ → Bool) (p : Bytes) (n : ℕ) (d : Decoder)
    → Takes valid p
    → IsReady c p n d
    → func c valid (at p n d) ≡ (return_err (unexpected c.ending) (at [] (n + length p) d), none)
unfolding func at
func-end c valid p n d v r = rw (gather-end valid (suc (length p)) [] p n (omega arith) v r)

func-outcome :
    (c : Settings) (valid : ℕ → Bool) (p rest : Bytes) (n : ℕ) (d : Decoder)
    → Takes valid p
    → Stopped valid rest
    → IsReady c (p ++ rest) n d
    → func c valid (at (p ++ rest) n d) ≡ outcome c n d (p, rest)
func-outcome c valid p [] n d v st r =
    rw (append-nil p) (func-end c valid p n d v (rw (append-nil p) at r))
func-outcome c valid [] (b ∷ t) n d v st r = func-stop valid st r
func-outcome c valid (x ∷ p) (b ∷ t) n d v st r = func-at valid x p t v st r

func-split :
    (c : Settings) (valid : ℕ → Bool) (s p rest : Bytes) (n : ℕ) (d : Decoder)
    → s ≡ p ++ rest
    → Takes valid p
    → Stopped valid rest
    → IsReady c s n d
    → func c valid (at s n d) ≡ outcome c n d (p, rest)
func-split c valid s p rest n d e v st r = rw e (func-outcome c valid p rest n d v st (rw e at r))

-- Func takes the longest prefix of valid bytes, if it is not empty and a byte that is not valid follows; with the
-- input gone before that, it fails with what ended the input. The fuel is enough for every input.
pub func_lem :
    (c : Settings) (valid : ℕ → Bool) (s : Bytes) (n : ℕ) (d : Decoder)
    → IsReady c s n d
    → func c valid (at s n d) ≡ outcome c n d (valid_prefix valid s)
func_lem c valid s n d r =
    let (split, takes, stopped) = valid_prefix_lem valid s in
    func-split c valid s (valid_prefix valid s).0 (valid_prefix valid s).1 n d split takes stopped r
