-- ===== src/NumSet/Text/Charset.antt =====
-- internal/imapnum/numset.go: the bytes that the text of a set is made of
use go_imap.Prelude.{
  ℕ, ◌≡◌, refl, [], ◌∷◌, ◌==◌, if◌then◌else◌, ◌⊎◌, inl, inr, All, All-append, Bool-cases,
}
use go_imap.Strconv.{Bytes, format_uint}
use go_imap.Strconv.Laws.{IsDigit, format_uint-IsDigit}
use go_imap.NumSet.{Range, Set}
use go_imap.NumSet.Text.{set_string, element, elements}

-- A digit, a comma, a colon or a star
abbrev pub IsSetByte : ℕ → Type 0
IsSetByte b = IsDigit b ⊎ ((b ≡ b',') ⊎ ((b ≡ b':') ⊎ (b ≡ b'*')))

digits-IsSetByte : (s : Bytes) → All IsDigit s → All IsSetByte s
digits-IsSetByte [] h = tt
digits-IsSetByte (b ∷ s) (h, hs) = (inl h, digits-IsSetByte s hs)

format_uint-IsSetByte : (n : ℕ) → All IsSetByte (format_uint n)
format_uint-IsSetByte n = digits-IsSetByte (format_uint n) (format_uint-IsDigit n)

star_or-IsSetByte : (n : ℕ) → All IsSetByte (if n == 0 then b'*' ∷ [] else format_uint n)
star_or-IsSetByte n = elim (Bool-cases (n == 0)) [
  | inl e ↦ rw e (inr (inr (inr refl)), tt)
  | inr e ↦ rw e (format_uint-IsSetByte n)
]

second-IsSetByte :
    (v : Range)
    → All IsSetByte (
        if v.start == v.stop
        then []
        else b':' ∷ (if v.stop == 0 then b'*' ∷ [] else format_uint v.stop))
second-IsSetByte v = elim (Bool-cases (v.start == v.stop)) [
  | inl e ↦ rw e tt
  | inr e ↦ rw e (inr (inr (inl refl)), star_or-IsSetByte v.stop)
]

element-IsSetByte : (v : Range) → All IsSetByte (element v)
unfolding element
element-IsSetByte v = elim (Bool-cases (v.start == 0)) [
  | inl e ↦ rw e (inr (inr (inr refl)), tt)
  | inr e ↦ rw e (
      All-append IsSetByte (format_uint v.start) _ (format_uint-IsSetByte v.start)
        (second-IsSetByte v))
]

elements-IsSetByte : (s : Set) → All IsSetByte (elements s)
unfolding elements
elements-IsSetByte [] = tt
elements-IsSetByte (v ∷ s) = (
  inr (inl refl),
  All-append IsSetByte (element v) (elements s) (element-IsSetByte v) (elements-IsSetByte s),
)

pub set_string-IsSetByte : (s : Set) → All IsSetByte (set_string s)
unfolding set_string elements
set_string-IsSetByte [] = tt
set_string-IsSetByte (v ∷ s) =
    All-append IsSetByte (element v) (elements s) (element-IsSetByte v) (elements-IsSetByte s)
