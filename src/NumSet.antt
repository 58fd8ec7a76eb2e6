-- ===== src/NumSet.antt =====
-- internal/imapnum/numset.go: ranges and sets of message numbers. A `uint32` is a native number
-- below 2 ^ 32, 0 stands for "*". A slice is a list: what `insert` writes through a shared backing
-- array is not modelled.
pub mod Key
pub mod Merge
pub mod Canon
pub mod Search
pub mod Insert
pub mod Union
pub mod Nums
pub mod Text
mod Tests
use go_imap.Prelude.{
  ℕ, zero, suc, ◌+◌, ◌-◌, ◌/◌, ◌%◌, ◌^◌, ◌≡◌, refl, Bool, true, false, not, ◌&&◌, ◌||◌, List, [],
  ◌∷◌, ◌++◌, ltb, leb, ◌==◌, if◌then◌else◌, length, get_or, set, take, drop,
}

pub record Range : Type 0 where
  pub start : ℕ
  pub stop : ℕ

abbrev pub u32_mod : ℕ
u32_mod = 2 ^ 32

-- ^uint32(0)
abbrev pub max_u32 : ℕ
max_u32 = u32_mod - 1

-- Range.Contains
unfoldable pub contains : Range → ℕ → Bool
contains s q =
    if q == 0
    then s.stop == 0
    else not (s.start == 0) && leb s.start q && (leb q s.stop || s.stop == 0)

-- Range.Less
unfoldable pub less : Range → ℕ → Bool
less s q = (ltb s.stop q || q == 0) && not (s.stop == 0)

-- The part of Merge behind the swap: `s` starts at or before `t`, and `union` is what a failure
-- returns.
merge_ordered : Range → Range → Range → Range × Bool
merge_ordered union s t =
    if leb t.stop s.stop && not (t.stop == 0) || s.stop == 0
    then (s, true)
    else if leb t.start ((s.stop + 1) % u32_mod) || s.stop == max_u32
    then (record { start = s.start; stop = t.stop }, true)
    else (union, false)

-- Range.Merge
unfoldable pub merge : Range → Range → Range × Bool
unfolding merge_ordered
merge s t =
    if s.start == t.start && s.stop == t.stop
    then (s, true)
    else if not (s.start == 0) && not (t.start == 0)
    then (if ltb t.start s.start then merge_ordered s t s else merge_ordered s s t)
    else if s.start == 0
    then (if t.stop == 0 then (t, true) else (s, false))
    else if s.stop == 0
    then (s, true)
    else (s, false)

abbrev pub Set : Type 0
Set = List Range

abbrev pub nil_range : Range
nil_range = record { start = 0; stop = 0 }

-- The loop of Set.search. The fuel is the number of rounds that may be made; `len(s)` is enough.
unfoldable pub search_loop : ℕ → Set → ℕ → ℕ → ℕ → ℕ
search_loop zero s q lo hi = lo
search_loop (suc fuel) s q lo hi =
    let mid = (lo + hi) / 2 in
    let right = search_loop fuel s q (mid + 1) hi in
    let left = search_loop fuel s q lo mid in
    if ltb lo hi then (if less (get_or s mid nil_range) q then right else left) else lo

-- Set.search behind its loop
search_end : Set → ℕ → ℕ → ℕ × Bool
search_end s q lo =
    let r = get_or s lo nil_range in if less r q then (length s, false) else (lo, contains r q)

-- Set.search
unfoldable pub search : Set → ℕ → ℕ × Bool
unfolding search_loop search_end
search [] q = (0, false)
search (x ∷ xs) q =
    search_end (x ∷ xs) q (search_loop (length (x ∷ xs)) (x ∷ xs) q 0 (length (x ∷ xs) - 1))

-- Set.insertAt, which has one result however the capacity is
unfoldable pub insert_at : Set → ℕ → Range → Set
insert_at s i v = take i s ++ v ∷ drop i s

-- The last loop of Set.insert: `s[i]` takes in the entries from `j` on, and those that it took in are
-- cut out. The fuel is `len(s) - j`.
unfoldable pub absorb_loop : ℕ → Set → ℕ → ℕ → Set
absorb_loop zero s i j = take (suc i) s
absorb_loop (suc fuel) s i j =
    let m = merge (get_or s i nil_range) (get_or s j nil_range) in
    let s' = set s i m.0 in
    let rest = absorb_loop fuel s' i (suc j) in
    if m.1 then rest else if ltb (suc i) j then take (suc i) s' ++ drop j s' else s'

absorb : Set → ℕ → Set
absorb s i = absorb_loop (length s - suc i) s i (suc i)

-- Set.insert behind the search and the merge with the preceding entry
insert_next : Set → ℕ → Bool → Range → Set
insert_next s i merged v =
    let m = merge (get_or s i nil_range) v in
    let s' = set s i m.0 in
    if i == length s
    then (if merged then s else insert_at s i v)
    else if merged
    then absorb s (i - 1)
    else if m.1
    then absorb s' i
    else insert_at s' i v

insert_found : Set → ℕ → Range → Set
insert_found s i v =
    let m = merge (get_or s (i - 1) nil_range) v in
    if ltb 0 i then insert_next (set s (i - 1) m.0) i m.1 v else insert_next s i false v

-- Set.insert
unfoldable pub insert : Set → Range → Set
unfolding insert_found insert_next absorb absorb_loop insert_at search
insert s v = insert_found s (search s v.start).0 v

-- Set.AddNum
unfoldable pub add_num : Set → List ℕ → Set
add_num s [] = s
add_num s (q ∷ qs) = add_num (insert s (record { start = q; stop = q })) qs

-- Set.AddRange
unfoldable pub add_range : Set → ℕ → ℕ → Set
add_range s start stop =
    if ltb stop start && not (stop == 0) || start == 0
    then insert s (record { start = stop; stop = start })
    else insert s (record { start = start; stop = stop })

-- Set.AddSet
unfoldable pub add_set : Set → Set → Set
add_set s [] = s
add_set s (v ∷ t) = add_set (insert s v) t

-- Set.Dynamic
unfoldable pub dynamic : Set → Bool
dynamic [] = false
dynamic (x ∷ xs) = (get_or (x ∷ xs) (length xs) nil_range).stop == 0

-- Set.Contains
unfoldable pub set_contains : Set → ℕ → Bool
unfolding search
set_contains s q = if (search s q).1 then not (q == 0) else false
