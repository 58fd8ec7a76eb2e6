-- ===== src/NumSet/Insert/Laws.antt =====
-- What Set.insert keeps and what it adds.
use go_imap.Prelude.{
  not, Bool, ◌==◌, ◌&&◌, ℕ, zero, suc, ◌+◌, ◌≤◌, ◌<◌, ◌≡◌, refl, ◌||◌, [], ◌∷◌, arith, Bool-cases,
  inl, inr,
}
use go_imap.NumSet.{set_contains, Range, Set, u32_mod, contains, merge, insert}
use go_imap.NumSet.Key.{key, IsRange, less-key}
use go_imap.NumSet.Merge.{merge-touches, merge-bounds, merge-contains}
use go_imap.NumSet.Canon.{IsCanonFrom, IsCanon, any_contains, below, below-le}
use go_imap.NumSet.Search.{set_contains_lem, search_lem}
use go_imap.NumSet.Insert.{grow, enter, enter_at, insert_found-enter_at}

grow-IsCanonFrom :
    (b c : ℕ) (r : Range) (xs : Set)
    → b ≤ key r.start
    → key r.start ≤ c
    → IsRange r
    → IsCanonFrom c xs
    → IsCanonFrom b (grow r xs)
grow-IsCanonFrom b c r [] h k v s = (h, v, tt)
grow-IsCanonFrom b c r (x ∷ xs) h k v (l, w, s) = elim (Bool-cases (merge r x).1) [
  | inl m ↦
      let (u, lo, hi) = merge-bounds r x v w m in
      ground (arith, grow-IsCanonFrom b (key x.stop + 2) (merge r x).0 xs, w.ordered)
  | inr m ↦ ground (arith, merge-touches r x v w, w.ordered)
]

grow-contains :
    (c : ℕ) (r : Range) (xs : Set) (q : ℕ)
    → q < u32_mod
    → IsRange r
    → IsCanonFrom c xs
    → any_contains (grow r xs) q ≡ (contains r q || any_contains xs q)
grow-contains c r [] q h v s = refl
grow-contains c r (x ∷ xs) q h v (l, w, s) = elim (Bool-cases (merge r x).1) [
  | inl m ↦
      let (u, lo, hi) = merge-bounds r x v w m in
      ground (
        arith,
        grow-contains (key x.stop + 2) (merge r x).0 xs q h u s,
        merge-contains r x q v w h m,
      )
  | inr m ↦ ground arith
]

enter-IsCanonFrom :
    (b : ℕ) (s : Set) (v : Range)
    → IsCanonFrom b s
    → IsRange v
    → b ≤ key v.start
    → below s v.start ≡ 0
    → IsCanonFrom b (enter s v)
enter-IsCanonFrom b [] v c w h e = (h, w, tt)
enter-IsCanonFrom b (x ∷ xs) v (l, vx, c) w h e = elim (Bool-cases (merge x v).1) [
  | inl m ↦
      let (u, lo, hi) = merge-bounds x v vx w m in
      ground (arith, grow-IsCanonFrom b (key x.stop + 2) (merge x v).0 xs, vx.ordered)
  | inr m ↦
      ground
        (arith, merge-touches x v vx w, vx.ordered, w.ordered, w.start_fits, less-key x v.start vx)
]

enter-contains :
    (b : ℕ) (s : Set) (v : Range) (q : ℕ)
    → IsCanonFrom b s
    → IsRange v
    → q < u32_mod
    → any_contains (enter s v) q ≡ (any_contains s q || contains v q)
enter-contains b [] v q c w h = ground arith
enter-contains b (x ∷ xs) v q (l, vx, c) w h = elim (Bool-cases (merge x v).1) [
  | inl m ↦
      let (u, lo, hi) = merge-bounds x v vx w m in
      ground (
        arith,
        grow-contains (key x.stop + 2) (merge x v).0 xs q h u c,
        merge-contains x v q vx w h m,
      )
  | inr m ↦ ground arith
]

enter_at-IsCanonFrom :
    (n b : ℕ) (s : Set) (v : Range)
    → IsCanonFrom b s
    → IsRange v
    → b ≤ key v.start
    → below s v.start ≡ n
    → IsCanonFrom b (enter_at n s v)
enter_at-IsCanonFrom zero b s v c w h e = enter-IsCanonFrom b s v c w h e
enter_at-IsCanonFrom (suc n) b [] v c w h e = (h, w, tt)
enter_at-IsCanonFrom (suc zero) b (x ∷ xs) v (l, vx, c) w h e = elim (Bool-cases (merge x v).1) [
  | inl m ↦
      let (u, lo, hi) = merge-bounds x v vx w m in
      ground (arith, grow-IsCanonFrom b (key x.stop + 2) (merge x v).0 xs, vx.ordered)
  | inr m ↦ ground (
    arith,
    merge-touches x v vx w,
    vx.ordered,
    w.ordered,
    less-key x v.start vx w.start_fits,
    enter-IsCanonFrom (key x.stop + 2) xs v c w,
  )
]
enter_at-IsCanonFrom (suc (suc n)) b (x ∷ []) v (l, vx, c) w h e = ground arith
enter_at-IsCanonFrom (suc (suc n)) b (x ∷ y ∷ ys) v (l, vx, c) w h e = ground (
  arith,
  vx.ordered,
  c.1.ordered,
  less-key y v.start c.1 w.start_fits,
  enter_at-IsCanonFrom (suc n) (key x.stop + 2) (y ∷ ys) v c w,
)

enter_at-contains :
    (n b : ℕ) (s : Set) (v : Range) (q : ℕ)
    → IsCanonFrom b s
    → IsRange v
    → q < u32_mod
    → any_contains (enter_at n s v) q ≡ (any_contains s q || contains v q)
enter_at-contains zero b s v q c w h = enter-contains b s v q c w h
enter_at-contains (suc n) b [] v q c w h = ground arith
enter_at-contains (suc zero) b (x ∷ xs) v q (l, vx, c) w h = elim (Bool-cases (merge x v).1) [
  | inl m ↦
      let (u, lo, hi) = merge-bounds x v vx w m in
      ground (
        arith,
        grow-contains (key x.stop + 2) (merge x v).0 xs q h u c,
        merge-contains x v q vx w h m,
      )
  | inr m ↦ ground (arith, enter-contains (key x.stop + 2) xs v q c w h)
]
enter_at-contains (suc (suc n)) b (x ∷ xs) v q (l, vx, c) w h =
    ground (arith, enter_at-contains (suc n) (key x.stop + 2) xs v q c w h)

pub insert-enter_at :
    (s : Set) (v : Range) → IsCanon s → IsRange v → insert s v ≡ enter_at (below s v.start) s v
unfolding insert
insert-enter_at s v c w = ground (
  arith,
  search_lem s v.start w.start_fits c,
  insert_found-enter_at (below s v.start) s v (below-le s v.start),
)

-- Inserting a valid range keeps a set canonical.
pub insert-IsCanon : (s : Set) (v : Range) → IsCanon s → IsRange v → IsCanon (insert s v)
insert-IsCanon s v c w =
    rw (insert-enter_at s v c w) (enter_at-IsCanonFrom _ 0 s v c w (omega arith) refl)

pub insert-contains :
    (s : Set) (v : Range) (q : ℕ)
    → IsCanon s
    → IsRange v
    → q < u32_mod
    → any_contains (insert s v) q ≡ (any_contains s q || contains v q)
insert-contains s v q c w h = rw (insert-enter_at s v c w) (enter_at-contains _ 0 s v q c w h)

and-or : (x y z : Bool) → (x && (y || z)) ≡ (x && y || x && z)
and-or x y z = ground arith

-- Inserting a valid range into a canonical set gives a canonical set, and Contains then holds of what the
-- set held before and of the non-zero numbers of the range.
pub insert-union :
    (s : Set) (v : Range)
    → IsCanon s
    → IsRange v
    → IsCanon (insert s v)
      × ((q : ℕ)
          → q < u32_mod
          → set_contains (insert s v) q ≡ (set_contains s q || not (q == 0) && contains v q))
insert-union s v c w = (
  insert-IsCanon s v c w,
  λ q h.
      rw
        (
          set_contains_lem s q h c,
          set_contains_lem (insert s v) q h (insert-IsCanon s v c w),
          insert-contains s v q c w h,
        )
        (and-or (not (q == 0)) (any_contains s q) (contains v q)),
)
