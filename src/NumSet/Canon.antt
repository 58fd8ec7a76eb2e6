-- ===== src/NumSet/Canon.antt =====
-- The sets that numset.go keeps: valid ranges in ascending order, no two of which intersect or touch.
use go_imap.Prelude.{
  ℕ, zero, suc, ◌+◌, ◌≤◌, ◌<◌, ◌≡◌, refl, Bool, false, [], ◌∷◌, arith, if◌then◌else◌, ltb, length,
  get_or, ◌||◌,
}
use go_imap.NumSet.{Set, u32_mod, less, contains, nil_range}
use go_imap.NumSet.Key.{key, IsRange, less-key, contains-key}

-- Canonical, and nothing starts below `b`.
abbrev pub IsCanonFrom : ℕ → Set → Type 0
IsCanonFrom b [] = Unit
IsCanonFrom b (x ∷ xs) = (b ≤ key x.start) × IsRange x × IsCanonFrom (key x.stop + 2) xs

abbrev pub IsCanon : Set → Type 0
IsCanon = IsCanonFrom 0

-- The plain reading of a set: some range of it holds `q`.
abbrev pub any_contains : Set → ℕ → Bool
any_contains [] q = false
any_contains (x ∷ xs) q = contains x q || any_contains xs q

-- How many ranges at the front lie before `q`.
abbrev pub below : Set → ℕ → ℕ
below [] q = 0
below (x ∷ xs) q = if less x q then suc (below xs q) else 0

pub below-le : (s : Set) (q : ℕ) → below s q ≤ length s
below-le [] q = omega arith
below-le (x ∷ xs) q = ground (arith, below-le xs q)

pub IsCanonFrom-weaken : (a b : ℕ) (s : Set) → a ≤ b → IsCanonFrom b s → IsCanonFrom a s
IsCanonFrom-weaken a b [] h c = tt
IsCanonFrom-weaken a b (x ∷ xs) h (l, v, c) = (omega arith, v, c)

module _ (q : ℕ) (fits : q < u32_mod) where
  pub less-above :
      (b : ℕ) (s : Set) (j : ℕ)
      → IsCanonFrom b s
      → key q ≤ b
      → j < length s
      → less (get_or s j nil_range) q ≡ false
  less-above b [] j c h l = elim l [ ]
  less-above b (x ∷ xs) zero (lo, v, c) h l = ground (arith, less-key x q v fits, v.ordered)
  less-above b (x ∷ xs) (suc j) (lo, v, c) h l =
      less-above (key x.stop + 2) xs j c (ground (arith, v.ordered)) (omega arith)

  pub less-get :
      (b : ℕ) (s : Set) (j : ℕ)
      → IsCanonFrom b s
      → j < length s
      → less (get_or s j nil_range) q ≡ ltb j (below s q)
  less-get b [] j c l = elim l [ ]
  less-get b (x ∷ xs) zero (lo, v, c) l = ground arith
  less-get b (x ∷ xs) (suc j) (lo, v, c) l = ground (
    arith,
    less-get (key x.stop + 2) xs j c,
    less-above (key x.stop + 2) xs j c,
    less-key x q v fits,
  )

  pub any_contains-above :
      (b : ℕ) (s : Set) → IsCanonFrom b s → key q < b → any_contains s q ≡ false
  any_contains-above b [] c h = refl
  any_contains-above b (x ∷ xs) (lo, v, c) h =
      ground (arith, contains-key x q v fits, any_contains-above (key x.stop + 2) xs c, v.ordered)

  pub any_contains-get :
      (b : ℕ) (s : Set)
      → IsCanonFrom b s
      → any_contains s q ≡ (
          if ltb (below s q) (length s) then contains (get_or s (below s q) nil_range) q else false)
  any_contains-get b [] c = refl
  any_contains-get b (x ∷ xs) (lo, v, c) = ground (
    arith,
    contains-key x q v fits,
    less-key x q v fits,
    any_contains-above (key x.stop + 2) xs c,
    any_contains-get (key x.stop + 2) xs c,
  )
