-- ===== src/NumSet/Search.antt =====
-- Set.search and Set.Contains: the binary search finds what a walk along the set finds.
use go_imap.Prelude.{
  ℕ, zero, suc, ◌+◌, ◌-◌, ◌/◌, ◌≤◌, ◌<◌, ◌≡◌, refl, not, [], ◌∷◌, arith, ◌==◌, length, min, ◌&&◌,
  false,
}
use go_imap.NumSet.{Set, u32_mod, search_loop, search_end, search, set_contains}
use go_imap.NumSet.Canon.{IsCanon, below, below-le, less-get, any_contains, any_contains-get}

module _ (s : Set) (q : ℕ) (fits : q < u32_mod) (c : IsCanon s) where
  search_loop_lem :
      (fuel lo hi : ℕ)
      → hi < length s
      → lo ≤ min (below s q) (length s - 1)
      → min (below s q) (length s - 1) ≤ hi
      → hi - lo ≤ fuel
      → search_loop fuel s q lo hi ≡ min (below s q) (length s - 1)
  unfolding search_loop
  search_loop_lem zero lo hi e l h f = omega arith
  search_loop_lem (suc fuel) lo hi e l h f = ground (
    arith,
    less-get q fits 0 s ((lo + hi) / 2) c,
    search_loop_lem fuel lo ((lo + hi) / 2),
    search_loop_lem fuel ((lo + hi) / 2 + 1) hi,
  )

search_end_lem :
    (s : Set) (q lo : ℕ)
    → q < u32_mod
    → IsCanon s
    → 0 < length s
    → lo ≡ min (below s q) (length s - 1)
    → ((search_end s q lo).0 ≡ below s q) × ((search_end s q lo).1 ≡ any_contains s q)
unfolding search_end
search_end_lem s q lo h c l e =
    ground (arith, less-get q h 0 s lo c, any_contains-get q h 0 s c, below-le s q)

-- In a canonical set the binary search gives the number of ranges before `q` as the index, and says
-- whether a range of the set holds `q`.
pub search_lem :
    (s : Set) (q : ℕ)
    → q < u32_mod
    → IsCanon s
    → ((search s q).0 ≡ below s q) × ((search s q).1 ≡ any_contains s q)
unfolding search
search_lem [] q h c = (refl, refl)
search_lem (x ∷ xs) q h c = search_end_lem (x ∷ xs) q _ h c (omega arith) (
    search_loop_lem (x ∷ xs) q h c (length (x ∷ xs)) 0 (length (x ∷ xs) - 1) (omega arith)
      (omega arith) (omega arith) (omega arith))

-- Contains, on a canonical set and a 32-bit number, holds exactly of the non-zero numbers that some
-- range of the set holds.
pub set_contains_lem :
    (s : Set) (q : ℕ)
    → q < u32_mod
    → IsCanon s
    → set_contains s q ≡ (not (q == 0) && any_contains s q)
unfolding set_contains
set_contains_lem s q h c = ground (arith, search_lem s q h c)

pub set_contains-nil : (u : ℕ) → set_contains [] u ≡ false
unfolding set_contains search
set_contains-nil u = refl
