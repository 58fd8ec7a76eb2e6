-- ===== src/ListMatch/Reference.antt =====
-- The matching of RFC 9051 section 6.3.9, as a search with backtracking.
use go_imap.Prelude.{
  sym, Bool-cases, inl, inr, ℕ, ◌+◌, ◌≤◌, ◌≡◌, ◌∙◌, refl, Bool, true, false, not, ◌&&◌, ◌||◌, List,
  [], ◌∷◌, arith, ◌==◌, if◌then◌else◌, Option, none, some, length,
}
use go_imap.Strconv.{Bytes}
use go_imap.Strconv.Bytes.{same_bytes}
use go_imap.ListMatch.{is_wildcard, literals, Step, literal, wildcard, join_run, steps}

-- The byte is the hierarchy delimiter.
abbrev pub is_delim : Option ℕ → ℕ → Bool
is_delim none x = false
is_delim (some d) x = x == d

module _ (star : Bool) (d : Option ℕ) (k : Bytes → Bool) where
  -- A wildcard absorbs some bytes, of which none is the delimiter unless the wildcard is "*", and `k`
  -- accepts the rest.
  unfoldable pub absorb : Bytes → Bool
  absorb [] = k []
  absorb (x ∷ s) = k (x ∷ s) || (star || not (is_delim d x)) && absorb s

-- A byte that stands for itself
unfoldable pub accept_literal : ℕ → (Bytes → Bool) → Bytes → Bool
accept_literal c k [] = false
accept_literal c k (x ∷ s) = x == c && k s

-- The name matches the pattern.
unfoldable pub glob : Option ℕ → Bytes → Bytes → Bool
unfolding absorb accept_literal
glob d [] s = length s == 0
glob d (c ∷ p) s =
    if is_wildcard c then absorb (c == b'*') d (glob d p) s else accept_literal c (glob d p) s

-- The same on the steps of a pattern
unfoldable pub glob_steps : Option ℕ → List Step → Bytes → Bool
unfolding absorb accept_literal
glob_steps d [] s = length s == 0
glob_steps d (literal c ∷ ss) s = accept_literal c (glob_steps d ss) s
glob_steps d (wildcard star ∷ ss) s = absorb star d (glob_steps d ss) s

absorb-cong :
    (star : Bool) (d : Option ℕ) (k k' : Bytes → Bool)
    → ((s : Bytes) → k s ≡ k' s)
    → (s : Bytes) → absorb star d k s ≡ absorb star d k' s
unfolding absorb
absorb-cong star d k k' e [] = e []
absorb-cong star d k k' e (x ∷ s) = ground (arith, e (x ∷ s), absorb-cong star d k k' e s)

accept_literal-cong :
    (c : ℕ) (k k' : Bytes → Bool)
    → ((s : Bytes) → k s ≡ k' s)
    → (s : Bytes) → accept_literal c k s ≡ accept_literal c k' s
unfolding accept_literal
accept_literal-cong c k k' e [] = refl
accept_literal-cong c k k' e (x ∷ s) = ground (arith, e s)

absorb-weaken :
    (a b : Bool) (d : Option ℕ) (k : Bytes → Bool) (s : Bytes)
    → absorb b d k s ≡ true
    → absorb (a || b) d k s ≡ true
unfolding absorb
absorb-weaken a b d k [] e = e
absorb-weaken a b d k (x ∷ s) e = ground (arith, absorb-weaken a b d k s)

absorb-absorb :
    (a b : Bool) (d : Option ℕ) (k : Bytes → Bool) (s : Bytes)
    → absorb a d (absorb b d k) s ≡ absorb (a || b) d k s
unfolding absorb
absorb-absorb a b d k [] = refl
absorb-absorb a b d k (x ∷ s) = ground (arith, absorb-absorb a b d k s, absorb-weaken a b d k s)

glob_steps-join_run :
    (d : Option ℕ) (star : Bool) (ss : List Step) (s : Bytes)
    → glob_steps d (join_run star ss) s ≡ absorb star d (glob_steps d ss) s
unfolding glob_steps join_run
glob_steps-join_run d star [] s = refl
glob_steps-join_run d star (literal c ∷ ss) s = refl
glob_steps-join_run d star (wildcard star' ∷ ss) s =
    sym (absorb-absorb star star' d (glob_steps d ss) s)

-- The steps of a pattern match what the pattern matches.
pub glob_steps-steps : (d : Option ℕ) (p s : Bytes) → glob_steps d (steps p) s ≡ glob d p s
unfolding glob steps glob_steps
glob_steps-steps d [] s = refl
glob_steps-steps d (c ∷ p) s = elim (Bool-cases (is_wildcard c)) [
  | inl w ↦ rw w (
      glob_steps-join_run d (c == b'*') (steps p) s
      ∙ absorb-cong (c == b'*') d _ _ (glob_steps-steps d p) s)
  | inr w ↦ rw w (accept_literal-cong c _ _ (glob_steps-steps d p) s)
]

absorb-length :
    (star : Bool) (d : Option ℕ) (n : ℕ) (k : Bytes → Bool) (s : Bytes)
    → ((s : Bytes) → k s ≡ true → n ≤ length s)
    → absorb star d k s ≡ true
    → n ≤ length s
unfolding absorb
absorb-length star d n k [] f e = f [] e
absorb-length star d n k (x ∷ s) f e = ground (arith, f (x ∷ s), absorb-length star d n k s f)

accept_literal-length :
    (c n : ℕ) (k : Bytes → Bool) (s : Bytes)
    → ((s : Bytes) → k s ≡ true → n ≤ length s)
    → accept_literal c k s ≡ true
    → 1 + n ≤ length s
unfolding accept_literal
accept_literal-length c n k [] f e = ground (arith, e)
accept_literal-length c n k (x ∷ s) f e = ground (arith, f s)

-- A name that matches is as long as the literal bytes of the pattern.
pub literals-glob : (d : Option ℕ) (p s : Bytes) → glob d p s ≡ true → literals p ≤ length s
unfolding glob literals
literals-glob d [] s e = omega arith
literals-glob d (c ∷ p) s e = elim (Bool-cases (is_wildcard c)) [
  | inl w ↦ rw w (
      let h =
        absorb-length (c == b'*') d (literals p) (glob d p) s (literals-glob d p) (rw w at e) in
      omega (arith, h))
  | inr w ↦ rw w (accept_literal-length c (literals p) (glob d p) s (literals-glob d p) (rw w at e))
]

literals-bound : (p : Bytes) → literals p ≤ length p
unfolding literals
literals-bound [] = omega arith
literals-bound (c ∷ p) = ground (arith, literals-bound p)

-- A pattern without wildcards matches itself alone.
pub glob-literal :
    (d : Option ℕ) (p s : Bytes) → literals p ≡ length p → glob d p s ≡ same_bytes s p
unfolding glob literals same_bytes accept_literal
glob-literal d [] [] e = refl
glob-literal d [] (x ∷ s) e = ground arith
glob-literal d (c ∷ p) [] e = ground (arith, literals-bound p)
glob-literal d (c ∷ p) (x ∷ s) e = ground (arith, literals-bound p, glob-literal d p s)
