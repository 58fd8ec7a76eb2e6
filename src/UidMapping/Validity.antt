-- ===== src/UidMapping/Validity.antt =====
-- Validate: a mapping passes exactly if it is well formed and repeats no UID.
use go_imap.Prelude.{
  ℕ, ◌+◌, ◌≤◌, ◌<◌, ◌≡◌, ◌≢◌, ◌⊎◌, ◌↔◌, inl, inr, refl, false, List, [], ◌∷◌, map, arith, leb, ◌==◌,
  Option, none, some, All, Bool-cases,
}
use go_imap.NumSet.{Range}
use go_imap.UidMapping.{
  UidPairRange, pair_cardinality, insert_range, sort_ranges, has_repeat, first_invalid,
  check_ranges, validate,
}

-- No number is in both ranges.
abbrev pub Apart : Range → Range → Type 0
Apart x y = (x.stop < y.start) ⊎ (y.stop < x.start)

abbrev pub AllApart : List Range → Type 0
AllApart [] = Unit
AllApart (x ∷ rs) = All (Apart x) rs × AllApart rs

abbrev Ordered : List Range → Type 0
Ordered [] = Unit
Ordered (x ∷ rs) = All (λ y. x.start ≤ y.start) rs × Ordered rs

abbrev IsUp : Range → Type 0
IsUp x = x.start ≤ x.stop

module _ (P : Range → Type 0) where
  insert_range-All : (r : Range) (rs : List Range) → P r → All P rs → All P (insert_range r rs)
  unfolding insert_range
  insert_range-All r [] p a = (p, tt)
  insert_range-All r (x ∷ rs) p (q, a) = elim (Bool-cases (leb r.start x.start)) [
    | inl y ↦ rw y (p, (q, a))
    | inr n ↦ rw n (q, insert_range-All r rs p a)
  ]

  All-insert_range : (r : Range) (rs : List Range) → All P (insert_range r rs) → P r × All P rs
  unfolding insert_range
  All-insert_range r [] a = a
  All-insert_range r (x ∷ rs) a = elim (Bool-cases (leb r.start x.start)) [
    | inl y ↦ rw y at a
    | inr n ↦ let (q, b) = rw n at a in let (p, c) = All-insert_range r rs b in (p, (q, c))
  ]

  sort_ranges-All : (rs : List Range) → All P rs → All P (sort_ranges rs)
  unfolding sort_ranges
  sort_ranges-All [] a = tt
  sort_ranges-All (r ∷ rs) (p, a) = insert_range-All r (sort_ranges rs) p (sort_ranges-All rs a)

  All-sort_ranges : (rs : List Range) → All P (sort_ranges rs) → All P rs
  unfolding sort_ranges
  All-sort_ranges [] a = tt
  All-sort_ranges (r ∷ rs) a =
      let (p, b) = All-insert_range r (sort_ranges rs) a in (p, All-sort_ranges rs b)

All-map : {P Q : Range → Type 0} (rs : List Range) → ((x : Range) → P x → Q x) → All P rs → All Q rs
All-map [] f a = tt
All-map (x ∷ rs) f (p, a) = (f x p, All-map rs f a)

insert_range-Ordered : (r : Range) (rs : List Range) → Ordered rs → Ordered (insert_range r rs)
unfolding insert_range
insert_range-Ordered r [] o = (tt, tt)
insert_range-Ordered r (x ∷ rs) (a, o) = elim (Bool-cases (leb r.start x.start)) [
  | inl y ↦ rw y (((ground (arith, y)), All-map rs (λ z h. ground (arith, y, h)) a), (a, o))
  | inr n ↦ rw n (insert_range-All _ r rs (ground (arith, n)) a, insert_range-Ordered r rs o)
]

sort_ranges-Ordered : (rs : List Range) → Ordered (sort_ranges rs)
unfolding sort_ranges
sort_ranges-Ordered [] = tt
sort_ranges-Ordered (r ∷ rs) = insert_range-Ordered r (sort_ranges rs) (sort_ranges-Ordered rs)

Apart-sym : (x y : Range) → Apart x y → Apart y x
Apart-sym x y (inl h) = inr h
Apart-sym x y (inr h) = inl h

insert_range-AllApart :
    (r : Range) (rs : List Range) → All (Apart r) rs → AllApart rs → AllApart (insert_range r rs)
unfolding insert_range
insert_range-AllApart r [] a d = (tt, tt)
insert_range-AllApart r (x ∷ rs) (h, a) (b, d) = elim (Bool-cases (leb r.start x.start)) [
  | inl y ↦ rw y ((h, a), (b, d))
  | inr n ↦ rw n (insert_range-All _ r rs (Apart-sym r x h) b, insert_range-AllApart r rs a d)
]

AllApart-insert_range :
    (r : Range) (rs : List Range) → AllApart (insert_range r rs) → All (Apart r) rs × AllApart rs
unfolding insert_range
AllApart-insert_range r [] d = (tt, tt)
AllApart-insert_range r (x ∷ rs) d = elim (Bool-cases (leb r.start x.start)) [
  | inl y ↦ rw y at d
  | inr n ↦
      let (a, d') = rw n at d in
      let (h, b) = All-insert_range (Apart x) r rs a in
      let (c, e) = AllApart-insert_range r rs d' in ((Apart-sym x r h, c), (b, e))
]

sort_ranges-AllApart : (rs : List Range) → AllApart rs → AllApart (sort_ranges rs)
unfolding sort_ranges
sort_ranges-AllApart [] d = tt
sort_ranges-AllApart (r ∷ rs) (a, d) =
    insert_range-AllApart r (sort_ranges rs) (sort_ranges-All (Apart r) rs a)
      (sort_ranges-AllApart rs d)

AllApart-sort_ranges : (rs : List Range) → AllApart (sort_ranges rs) → AllApart rs
unfolding sort_ranges
AllApart-sort_ranges [] d = tt
AllApart-sort_ranges (r ∷ rs) d =
    let (a, e) = AllApart-insert_range r (sort_ranges rs) d in
    (All-sort_ranges (Apart r) rs a, AllApart-sort_ranges rs e)

has_repeat-AllApart : (rs : List Range) → Ordered rs → has_repeat rs ≡ false → AllApart rs
unfolding has_repeat
has_repeat-AllApart [] o e = tt
has_repeat-AllApart (x ∷ []) o e = (tt, tt)
has_repeat-AllApart (x ∷ y ∷ rs) (a, (b, o)) e =
    let lt : x.stop < y.start = ground (arith, e) in
    let rest : has_repeat (y ∷ rs) ≡ false = ground (arith, e) in
    (
      (inl lt, All-map rs (λ z h. inl (omega (arith, lt, h))) b),
      has_repeat-AllApart (y ∷ rs) (b, o) rest,
    )

AllApart-has_repeat :
    (rs : List Range) → Ordered rs → All IsUp rs → AllApart rs → has_repeat rs ≡ false
unfolding has_repeat
AllApart-has_repeat [] o u d = refl
AllApart-has_repeat (x ∷ []) o u d = refl
AllApart-has_repeat (x ∷ y ∷ rs) ((h, a), o) (ux, (uy, u)) ((p, c), d) =
    ground (arith, h, ux, uy, p, AllApart-has_repeat (y ∷ rs) o (uy, u) d)

sorted_repeat :
    (rs : List Range) → All IsUp rs → (has_repeat (sort_ranges rs) ≡ false) ↔ AllApart rs
sorted_repeat rs u = (
  (λ e. AllApart-sort_ranges rs (has_repeat-AllApart (sort_ranges rs) (sort_ranges-Ordered rs) e)),
  λ d.
      AllApart-has_repeat (sort_ranges rs) (sort_ranges-Ordered rs) (sort_ranges-All IsUp rs u)
        (sort_ranges-AllApart rs d),
)

abbrev pub sources : List UidPairRange → List Range
sources m = map (λ (p : UidPairRange). p.source) m

abbrev pub dests : List UidPairRange → List Range
dests m = map (λ (p : UidPairRange). p.dest) m

-- Two ranges upwards from positive ends, as long as each other
abbrev pub Counts : UidPairRange → Type 0
Counts p =
    (0 < p.source.start)
    × (0 < p.dest.start)
    × (p.source.start ≤ p.source.stop)
    × (p.dest.start ≤ p.dest.stop)
    × (p.source.stop + p.dest.start ≡ p.dest.stop + p.source.start)

pair_cardinality-Counts : (p : UidPairRange) → (pair_cardinality p ≢ 0) ↔ Counts p
unfolding pair_cardinality
pair_cardinality-Counts p = ((λ c. ground (arith, c)), λ c. ground (arith, c))

first_invalid-none : (i : ℕ) (m : List UidPairRange) → (first_invalid i m ≡ none) ↔ All Counts m
unfolding first_invalid
first_invalid-none i [] = ((λ e. tt), λ a. refl)
first_invalid-none i (p ∷ m) = elim (Bool-cases (pair_cardinality p == 0)) [
  | inl y ↦ rw y (
    (λ e. cc),
    λ (c, a). let bad : ⊥ = ground (arith, y, (pair_cardinality-Counts p).1 c) in elim bad [ ],
  )
  | inr n ↦
      let (f, g) = first_invalid-none (i + 1) m in
      rw n ((λ e. ((pair_cardinality-Counts p).0 (ground (arith, n)), f e)), λ (c, a). g a)
]

Counts-IsUp : (p : UidPairRange) → Counts p → IsUp p.source × IsUp p.dest
Counts-IsUp p (s, d, u, v, e) = (u, v)

ranges-IsUp : (m : List UidPairRange) → All Counts m → All IsUp (sources m) × All IsUp (dests m)
ranges-IsUp [] a = (tt, tt)
ranges-IsUp (p ∷ m) (c, a) =
    let (u, v) = Counts-IsUp p c in let (us, vs) = ranges-IsUp m a in ((u, us), (v, vs))

check_ranges-none :
    (o : Option ℕ) (m : List UidPairRange)
    → (check_ranges o m ≡ none)
      ↔ (o ≡ none)
        × (has_repeat (sort_ranges (sources m)) ≡ false)
        × (has_repeat (sort_ranges (dests m)) ≡ false)
unfolding check_ranges
check_ranges-none (some i) m = ((λ e. cc), λ (e, f, g). cc)
check_ranges-none none m =
    ((λ e. (refl, ground (arith, e), ground (arith, e))), λ (e, f, g). rw (f, g) refl)

-- Validate accepts a mapping exactly if it is not empty, each of its pairs has two ranges upwards from positive
-- ends and of equal length, and no UID is in two of the source ranges or in two of the destination ranges.
pub validate_lem :
    (m : List UidPairRange)
    → (validate m ≡ none) ↔ (m ≢ []) × All Counts m × AllApart (sources m) × AllApart (dests m)
unfolding validate
validate_lem [] = ((λ e. cc), λ (n, a, s, d). let bad : ⊥ = n refl in elim bad [ ])
validate_lem (p ∷ m) =
    let (f, g) = check_ranges-none (first_invalid 0 (p ∷ m)) (p ∷ m) in
    let (h, k) = first_invalid-none 0 (p ∷ m) in
    (
      (λ e.
          let (c, s, d) = f e in
          let a = h c in
          let (u, v) = ranges-IsUp (p ∷ m) a in
          (
            (λ z. cc),
            a,
            (sorted_repeat (sources (p ∷ m)) u).0 s,
            (sorted_repeat (dests (p ∷ m)) v).0 d,
          )),
      λ (n, a, s, d).
          let (u, v) = ranges-IsUp (p ∷ m) a in
          g (k a, (sorted_repeat (sources (p ∷ m)) u).1 s, (sorted_repeat (dests (p ∷ m)) v).1 d),
    )
