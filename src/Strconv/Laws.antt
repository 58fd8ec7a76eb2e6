-- ===== src/Strconv/Laws.antt =====
-- What is formatted is parsed back, and what holds no separator is not split.
use native.Mathlib.Nat.{pow-suc}
use go_imap.Prelude.{
  ◌⊎◌, inl, inr, Bool-cases, ℕ, zero, suc, ◌+◌, ◌/◌, ◌%◌, ◌^◌, ◌≤◌, ◌<◌, ◌≡◌, ◌≢◌, ◌∙◌, refl, false,
  [], ◌∷◌, ◌++◌, arith, ltb, ◌==◌, if◌then◌else◌, none, some, All,
}
use go_imap.Strconv.{Bytes, digits, format_uint, scan, parse_uint, split, cut}

-- The number has at most `fuel` digits.
abbrev Fits : ℕ → ℕ → Type 0
Fits fuel n = n < 10 ^ fuel

tenth : (fuel n : ℕ) → Fits (suc fuel) n → Fits fuel (n / 10)
tenth fuel n h = omega (arith, pow-suc 10 fuel)

scan-digits :
    (limit fuel n : ℕ) (out : Bytes)
    → n ≤ limit
    → Fits (suc fuel) n
    → scan limit (digits (suc fuel) n out) 0 ≡ scan limit out n
unfolding scan digits
scan-digits limit zero n out h f = ground arith
scan-digits limit (suc fuel) n out h f =
    ground (arith, scan-digits limit fuel (n / 10) ((b'0' + n % 10) ∷ out), tenth (suc fuel) n f)

-- The first byte is there, and is a digit from `lo` on.
abbrev pub Leads : ℕ → Bytes → Type 0
Leads lo [] = ⊥
Leads lo (c ∷ s) = (lo ≤ c) × (c ≤ b'9')

digits-Leads :
    (fuel n : ℕ) (out : Bytes)
    → Fits (suc fuel) n
    → Leads (if n == 0 then b'0' else b'1') (digits (suc fuel) n out)
unfolding digits
digits-Leads zero n out f = ground arith
digits-Leads (suc fuel) n out f = elim (Bool-cases (ltb n 10)) [
  | inl small ↦ ground arith
  | inr large ↦
      let e : (n == 0) ≡ false = ground arith in
      let e' : (n / 10 == 0) ≡ false = ground arith in
      rw (large, e)
        (rw e' at (digits-Leads fuel (n / 10) ((b'0' + n % 10) ∷ out) (tenth (suc fuel) n f)))
]

abbrev pub IsDigit : ℕ → Type 0
IsDigit c = (b'0' ≤ c) × (c ≤ b'9')

digits-IsDigit : (fuel n : ℕ) (out : Bytes) → All IsDigit out → All IsDigit (digits fuel n out)
unfolding digits
digits-IsDigit zero n out h = h
digits-IsDigit (suc fuel) n out h = elim (Bool-cases (ltb n 10)) [
  | inl small ↦ rw small ((omega arith, ground arith), h)
  | inr large ↦
      rw large
        (digits-IsDigit fuel (n / 10) ((b'0' + n % 10) ∷ out) ((omega arith, omega arith), h))
]

pub format_uint-Leads :
    (n : ℕ) → n < 10 ^ 20 → Leads (if n == 0 then b'0' else b'1') (format_uint n)
unfolding format_uint
format_uint-Leads n h = digits-Leads 19 n [] h

pub format_uint-IsDigit : (n : ℕ) → All IsDigit (format_uint n)
unfolding format_uint
format_uint-IsDigit n = digits-IsDigit 20 n [] tt

parse_uint-scan : (limit lo : ℕ) (s : Bytes) → Leads lo s → parse_uint limit s ≡ scan limit s 0
unfolding parse_uint
parse_uint-scan limit lo [] h = absurd h
parse_uint-scan limit lo (c ∷ s) h = refl

-- A number within the limit is read back from its print.
pub parse_uint-format_uint :
    (limit n : ℕ) → n ≤ limit → n < 10 ^ 20 → parse_uint limit (format_uint n) ≡ some n
unfolding format_uint scan
parse_uint-format_uint limit n h f =
    parse_uint-scan limit _ _ (format_uint-Leads n f) ∙ scan-digits limit 19 n [] h f

abbrev pub Lacks : ℕ → Bytes → Type 0
Lacks b = All (λ c. c ≢ b)

pub digits-Lacks : (b : ℕ) (s : Bytes) → (b < b'0') ⊎ (b'9' < b) → All IsDigit s → Lacks b s
digits-Lacks b [] h d = tt
digits-Lacks b (c ∷ s) h (d, ds) = (omega arith, digits-Lacks b s h ds)

pub split-Lacks : (sep : ℕ) (p : Bytes) → Lacks sep p → split sep p ≡ p ∷ []
unfolding split
split-Lacks sep [] h = refl
split-Lacks sep (c ∷ p) (h, hs) = ground (arith, split-Lacks sep p hs)

pub split-append :
    (sep : ℕ) (p rest : Bytes) → Lacks sep p → split sep (p ++ sep ∷ rest) ≡ p ∷ split sep rest
unfolding split
split-append sep [] rest h = ground arith
split-append sep (c ∷ p) rest (h, hs) = ground (arith, split-append sep p rest hs)

pub cut-Lacks : (sep : ℕ) (p : Bytes) → Lacks sep p → cut sep p ≡ none
unfolding cut
cut-Lacks sep [] h = refl
cut-Lacks sep (c ∷ p) (h, hs) = ground (arith, cut-Lacks sep p hs)

pub cut-append :
    (sep : ℕ) (p rest : Bytes) → Lacks sep p → cut sep (p ++ sep ∷ rest) ≡ some (p, rest)
unfolding cut
cut-append sep [] rest h = ground arith
cut-append sep (c ∷ p) rest (h, hs) = ground (arith, cut-append sep p rest hs)
