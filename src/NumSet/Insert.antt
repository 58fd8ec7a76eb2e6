-- ===== src/NumSet/Insert.antt =====
-- Set.insert without indices: the merge with the preceding entry, with the next one, and the merging
-- of what follows, along the list.
pub mod Laws
use go_imap.Prelude.{
  ℕ, zero, suc, ◌+◌, ◌-◌, ◌≤◌, ◌<◌, ◌≡◌, ◌⊎◌, refl, Bool, true, false, [], ◌∷◌, arith,
  if◌then◌else◌, length, get_or, set, drop, inl, inr,
}
use go_imap.NumSet.{
  Range, Set, nil_range, merge, absorb_loop, absorb, insert_at, insert_next, insert_found,
}

-- `r` takes in the ranges that follow it, up to the first that it does not touch.
abbrev pub grow : Range → Set → Set
grow r [] = r ∷ []
grow r (x ∷ xs) = if (merge r x).1 then grow (merge r x).0 xs else r ∷ x ∷ xs

-- `v` before a list none of whose ranges lies before `v`.
abbrev pub enter : Set → Range → Set
enter [] v = v ∷ []
enter (x ∷ xs) v = if (merge x v).1 then grow (merge x v).0 xs else v ∷ x ∷ xs

-- The same behind the first `n` ranges.
abbrev pub enter_at : ℕ → Set → Range → Set
enter_at zero s v = enter s v
enter_at (suc n) [] v = v ∷ []
enter_at (suc zero) (x ∷ xs) v = if (merge x v).1 then grow (merge x v).0 xs else x ∷ enter xs v
enter_at (suc (suc n)) (x ∷ xs) v = x ∷ enter_at (suc n) xs v

merge_refused : (s t : Range) → (merge s t).1 ≡ false → (merge s t).0 ≡ s
unfolding merge
merge_refused s t h = ground arith

-- Walking a list by an index.
drop-get : (s : Set) (j : ℕ) → j < length s → drop j s ≡ get_or s j nil_range ∷ drop (suc j) s
drop-get [] j h = elim h [ ]
drop-get (x ∷ xs) zero h = refl
drop-get (x ∷ xs) (suc j) h = drop-get xs j (omega arith)

drop-all : (s : Set) (j : ℕ) → length s ≤ j → drop j s ≡ []
drop-all [] zero h = refl
drop-all [] (suc j) h = refl
drop-all (x ∷ xs) zero h = elim h [ ]
drop-all (x ∷ xs) (suc j) h = drop-all xs j (omega arith)

minus_suc : (a b : ℕ) → suc a - suc b ≡ a - b
minus_suc a b = omega arith

absorb_loop_shift :
    (fuel : ℕ) (x : Range) (s : Set) (i j : ℕ)
    → absorb_loop fuel (x ∷ s) (suc i) (suc j) ≡ x ∷ absorb_loop fuel s i j
unfolding absorb_loop
absorb_loop_shift zero x s i j = refl
absorb_loop_shift (suc fuel) x s i j = ground (
  arith,
  absorb_loop_shift fuel x (set s i (merge (get_or s i nil_range) (get_or s j nil_range)).0) i
      (suc j),
)

absorb_loop-grow :
    (fuel : ℕ) (r : Range) (s : Set) (j : ℕ)
    → fuel + j ≡ length s
    → absorb_loop fuel (r ∷ s) 0 (suc j) ≡ grow r (drop j s)
unfolding absorb_loop
absorb_loop-grow zero r s j e = rw (drop-all s j (omega arith)) refl
absorb_loop-grow (suc fuel) r [] zero e = absurd (omega arith)
absorb_loop-grow (suc fuel) r (x ∷ xs) zero e =
    ground (arith, merge_refused r x, absorb_loop-grow fuel (merge r x).0 (x ∷ xs) 1)
absorb_loop-grow (suc fuel) r s (suc j) e = rw (drop-get s (suc j) (omega arith)) (
    ground (
      arith,
      drop-get s (suc j),
      merge_refused r (get_or s (suc j) nil_range),
      absorb_loop-grow fuel (merge r (get_or s (suc j) nil_range)).0 s (suc (suc j)),
    ))

absorb-grow : (r : Range) (s : Set) → absorb (r ∷ s) 0 ≡ grow r s
unfolding absorb
absorb-grow r s = absorb_loop-grow (length (r ∷ s) - 1) r s 0 (omega arith)

absorb_shift : (x : Range) (s : Set) (i : ℕ) → absorb (x ∷ s) (suc i) ≡ x ∷ absorb s i
unfolding absorb
absorb_shift x s i =
    rw (minus_suc (length s) (suc i)) (absorb_loop_shift (length s - suc i) x s i (suc i))

insert_next_shift :
    (x : Range) (s : Set) (i : ℕ) (merged : Bool) (v : Range)
    → (merged ≡ false) ⊎ (0 < i)
    → insert_next (x ∷ s) (suc i) merged v ≡ x ∷ insert_next s i merged v
unfolding insert_next insert_at
insert_next_shift x s zero merged v h =
    ground (arith, absorb_shift x (set s 0 (merge (get_or s 0 nil_range) v).0) 0)
insert_next_shift x s (suc i) merged v h =
    let e : suc (suc i) - 1 ≡ suc i = omega arith in
    let e' : suc i - 1 ≡ i = omega arith in
    rw (e, e')
      (ground (
        arith,
        absorb_shift x s i,
        absorb_shift x (set s (suc i) (merge (get_or s (suc i) nil_range) v).0) (suc i),
      ))

insert_next-enter : (s : Set) (v : Range) → insert_next s 0 false v ≡ enter s v
unfolding insert_next insert_at
insert_next-enter [] v = refl
insert_next-enter (x ∷ xs) v = ground (arith, merge_refused x v, absorb-grow (merge x v).0 xs)

insert_next_merged : (x : Range) (xs : Set) (v : Range) → insert_next (x ∷ xs) 1 true v ≡ grow x xs
unfolding insert_next
insert_next_merged x [] v = refl
insert_next_merged x (y ∷ xs) v = ground (arith, absorb-grow x (y ∷ xs))

insert_found-enter_at :
    (n : ℕ) (s : Set) (v : Range) → n ≤ length s → insert_found s n v ≡ enter_at n s v
unfolding insert_found
insert_found-enter_at zero s v h = insert_next-enter s v
insert_found-enter_at (suc n) [] v h = elim h [ ]
insert_found-enter_at (suc zero) (x ∷ xs) v h =
    let e : 1 - 1 ≡ 0 = omega arith in
    ground (
      arith,
      merge_refused x v,
      absorb-grow (merge x v).0 xs,
      insert_next_shift x xs 0 false v (inl refl),
      insert_next-enter xs v,
      insert_next_merged (merge x v).0 xs v,
    )
insert_found-enter_at (suc (suc n)) (x ∷ xs) v h =
    let e : suc (suc n) - 1 ≡ suc n = omega arith in
    let e' : suc n - 1 ≡ n = omega arith in
    rw (e) (
      ground (
        arith,
        insert_found-enter_at (suc n) xs v,
        insert_next_shift x (set xs n (merge (get_or xs n nil_range) v).0) (suc n)
            (merge (get_or xs n nil_range) v).1 v (inr (omega arith)),
      ))
