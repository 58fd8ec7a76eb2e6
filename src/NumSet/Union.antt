-- ===== src/NumSet/Union.antt =====
-- AddNum, AddRange and AddSet as operations on the numbers that a set holds.
use go_imap.Prelude.{
  ◌+◌, ℕ, ◌<◌, ◌≡◌, Bool, false, not, ◌||◌, ◌&&◌, List, [], ◌∷◌, arith, leb, ltb, ◌==◌,
  if◌then◌else◌, min, max, All,
}
use go_imap.NumSet.{
  Range, Set, u32_mod, contains, insert, set_contains, add_num, add_range, add_set,
}
use go_imap.NumSet.Key.{key, IsRange}
use go_imap.NumSet.Canon.{IsCanon, IsCanonFrom, any_contains}
use go_imap.NumSet.Search.{set_contains_lem}
use go_imap.NumSet.Insert.Laws.{insert-IsCanon, insert-contains}

abbrev pub elem : ℕ → List ℕ → Bool
elem q [] = false
elem q (x ∷ xs) = q == x || elem q xs

IsRange-single : (q : ℕ) → q < u32_mod → IsRange (record { start = q; stop = q })
IsRange-single q h = ground arith

pub add_num-IsCanon :
    (s : Set) (qs : List ℕ) → IsCanon s → All (λ q. q < u32_mod) qs → IsCanon (add_num s qs)
unfolding add_num
add_num-IsCanon s [] c h = c
add_num-IsCanon s (q ∷ qs) c (h, hs) =
    add_num-IsCanon (insert s (record { start = q; stop = q })) qs
      (insert-IsCanon s _ c (IsRange-single q h)) hs

add_num-any :
    (s : Set) (qs : List ℕ) (q : ℕ)
    → IsCanon s
    → All (λ q. q < u32_mod) qs
    → q < u32_mod
    → any_contains (add_num s qs) q ≡ (any_contains s q || elem q qs)
unfolding add_num contains
add_num-any s [] q c h hq = ground arith
add_num-any s (x ∷ qs) q c (h, hs) hq = ground (
  arith,
  add_num-any (insert s (record { start = x; stop = x })) qs q
      (insert-IsCanon s _ c (IsRange-single x h)) hs hq,
  insert-contains s (record { start = x; stop = x }) q c (IsRange-single x h) hq,
)

-- AddNum on a canonical set: Contains afterwards holds of what the set held before, and of the non-zero
-- numbers that were added.
pub set_contains-add_num :
    (s : Set) (qs : List ℕ) (q : ℕ)
    → IsCanon s
    → All (λ q. q < u32_mod) qs
    → q < u32_mod
    → set_contains (add_num s qs) q ≡ (set_contains s q || not (q == 0) && elem q qs)
set_contains-add_num s qs q c h hq = ground (
  arith,
  set_contains_lem s q hq c,
  set_contains_lem (add_num s qs) q hq (add_num-IsCanon s qs c h),
  add_num-any s qs q c h hq,
)

-- The range that AddRange inserts.
abbrev pub sorted : ℕ → ℕ → Range
sorted a b =
    if ltb b a && not (b == 0) || a == 0
    then record { start = b; stop = a }
    else record { start = a; stop = b }

sorted-IsRange : (a b : ℕ) → a < u32_mod → b < u32_mod → IsRange (sorted a b)
sorted-IsRange a b ha hb = ground arith

pub add_range-insert : (s : Set) (a b : ℕ) → add_range s a b ≡ insert s (sorted a b)
unfolding add_range
add_range-insert s a b = ground arith

pub add_range-IsCanon :
    (s : Set) (a b : ℕ) → IsCanon s → a < u32_mod → b < u32_mod → IsCanon (add_range s a b)
add_range-IsCanon s a b c ha hb =
    rw add_range-insert (insert-IsCanon s _ c (sorted-IsRange a b ha hb))

-- "q" lies between the ends of "a:b", which may stand in either order, "*" past every number.
abbrev pub between : ℕ → ℕ → ℕ → Bool
between a b q = leb (min (key a) (key b)) (key q) && leb (key q) (max (key a) (key b))

sorted-between :
    (a b q : ℕ) → a < u32_mod → b < u32_mod → q < u32_mod → contains (sorted a b) q ≡ between a b q
unfolding contains
sorted-between a b q ha hb hq = ground arith

-- AddRange on a canonical set, with the ends in either order and "*" (0) for either: Contains
-- afterwards holds of what the set held before, and of the non-zero numbers between the ends.
pub set_contains-add_range :
    (s : Set) (a b q : ℕ)
    → IsCanon s
    → a < u32_mod
    → b < u32_mod
    → q < u32_mod
    → set_contains (add_range s a b) q ≡ (set_contains s q || not (q == 0) && between a b q)
set_contains-add_range s a b q c ha hb hq =
    rw
      (
        set_contains_lem s q hq c,
        set_contains_lem (add_range s a b) q hq (add_range-IsCanon s a b c ha hb),
        add_range-insert,
        insert-contains s (sorted a b) q c (sorted-IsRange a b ha hb) hq,
        sorted-between a b q ha hb hq,
      )
      (and-or (not (q == 0)) (any_contains s q) (between a b q))
  where
    and-or : (x y z : Bool) → (x && (y || z)) ≡ (x && y || x && z)
    and-or x y z = ground arith

add_set-IsCanonFrom : (s t : Set) (b : ℕ) → IsCanon s → IsCanonFrom b t → IsCanon (add_set s t)
unfolding add_set
add_set-IsCanonFrom s [] b c d = c
add_set-IsCanonFrom s (v ∷ t) b c (l, w, d) =
    add_set-IsCanonFrom (insert s v) t (key v.stop + 2) (insert-IsCanon s v c w) d

add_set-any :
    (s t : Set) (b q : ℕ)
    → IsCanon s
    → IsCanonFrom b t
    → q < u32_mod
    → any_contains (add_set s t) q ≡ (any_contains s q || any_contains t q)
unfolding add_set
add_set-any s [] b q c d h = ground arith
add_set-any s (v ∷ t) b q c (l, w, d) h = ground (
  arith,
  add_set-any (insert s v) t (key v.stop + 2) q (insert-IsCanon s v c w) d h,
  insert-contains s v q c w h,
)

pub add_set-IsCanon : (s t : Set) → IsCanon s → IsCanon t → IsCanon (add_set s t)
add_set-IsCanon s t c d = add_set-IsCanonFrom s t 0 c d

-- AddSet is the union: of two canonical sets it makes a canonical set, and Contains holds of what either
-- holds.
pub set_contains-add_set :
    (s t : Set) (q : ℕ)
    → IsCanon s
    → IsCanon t
    → q < u32_mod
    → IsCanon (add_set s t)
      × (set_contains (add_set s t) q ≡ (set_contains s q || set_contains t q))
set_contains-add_set s t q c d h = (
  add_set-IsCanon s t c d,
  ground (
    arith,
    set_contains_lem s q h c,
    set_contains_lem t q h d,
    set_contains_lem (add_set s t) q h (add_set-IsCanon s t c d),
    add_set-any s t 0 q c d h,
  ),
)
