-- ===== src/NumSet/Nums.antt =====
-- Set.Nums and Set.Cardinality.
use go_imap.Prelude.{
  max, ℕ, zero, suc, ◌+◌, ◌-◌, ◌^◌, ◌%◌, ◌≤◌, ◌<◌, ◌≡◌, refl, true, ◌||◌, ◌&&◌, List, [], ◌∷◌, ◌++◌,
  append_assoc, append-nil, arith, leb, ltb, ◌==◌, if◌then◌else◌, Option, none, some, All, length,
  length-append,
}
use go_imap.NumSet.{set_contains, Range, Set, u32_mod, max_u32, contains}
use go_imap.NumSet.Key.{key, IsRange, contains-key}
use go_imap.NumSet.Search.{set_contains_lem}
use go_imap.NumSet.Canon.{IsCanon, IsCanonFrom, any_contains}
use go_imap.NumSet.Union.{elem}

-- for n := s.Start; n <= s.Stop; n++, in uint32. `none` means that the loop did not end within the
-- rounds that the fuel allows.
append_loop : ℕ → ℕ → ℕ → List ℕ → Option (List ℕ)
append_loop zero n stop nums = none
append_loop (suc fuel) n stop nums =
    let rest = append_loop fuel ((n + 1) % u32_mod) stop (nums ++ n ∷ []) in
    if leb n stop then rest else some nums

-- Range.append; the inner option is `ok`.
pub append : ℕ → Range → List ℕ → Option (Option (List ℕ))
append fuel s nums =
    if s.start == 0 || s.stop == 0
    then some none
    else elim (append_loop fuel s.start s.stop nums) [ none ↦ none | some out ↦ some (some out) ]

nums_from : ℕ → Set → List ℕ → Option (Option (List ℕ))
nums_from fuel [] nums = some (some nums)
nums_from fuel (v ∷ s) nums = elim (append fuel v nums) [
  | none ↦ none
  | some none ↦ some none
  | some (some out) ↦ nums_from fuel s out
]

-- Set.Nums, each range with `fuel` rounds
unfoldable pub nums : ℕ → Set → Option (Option (List ℕ))
unfolding nums_from append append_loop
nums fuel s = nums_from fuel s []

cardinality_from : ℕ → Set → ℕ
cardinality_from n [] = n
cardinality_from n (r ∷ s) =
    let rest = cardinality_from ((n + (r.stop + u32_mod - r.start + 1) % u32_mod) % 2 ^ 64) s in
    if r.start == 0 || r.stop == 0 then 2 ^ 64 - 1 else rest

-- Set.Cardinality
unfoldable pub cardinality : Set → ℕ
unfolding cardinality_from
cardinality = cardinality_from 0

-- The numbers a, a + 1, … , `n` of them.
abbrev pub count_up : ℕ → ℕ → List ℕ
count_up a zero = []
count_up a (suc n) = a ∷ count_up (a + 1) n

abbrev pub expand : Set → List ℕ
expand [] = []
expand (r ∷ s) = count_up r.start (r.stop + 1 - r.start) ++ expand s

-- Every range is static, ends below the largest number, and has fewer than `fuel` numbers.
abbrev pub Bounded : ℕ → Set → Type 0
Bounded fuel = All (λ r. (0 < r.stop) × (r.stop < max_u32) × (r.stop + 1 < r.start + fuel))

append_loop-count_up :
    (fuel n stop k : ℕ) (nums : List ℕ)
    → k ≡ stop + 1 - n
    → stop < max_u32
    → k < fuel
    → n ≤ stop + 1
    → append_loop fuel n stop nums ≡ some (nums ++ count_up n k)
unfolding append_loop
append_loop-count_up zero n stop k nums e h f l = absurd (omega arith)
append_loop-count_up (suc fuel) n stop zero nums e h f l = rw append-nil (ground arith)
append_loop-count_up (suc fuel) n stop (suc k) nums e h f l =
    let m : (n + 1) % u32_mod ≡ n + 1 = omega arith in
    ground (
      arith,
      m,
      append_loop-count_up fuel (n + 1) stop k (nums ++ n ∷ []),
      append_assoc nums (n ∷ []) (count_up (n + 1) k),
    )

nums_from-expand :
    (fuel b : ℕ) (s : Set) (nums : List ℕ)
    → IsCanonFrom b s
    → Bounded fuel s
    → nums_from fuel s nums ≡ some (some (nums ++ expand s))
unfolding nums_from append
nums_from-expand fuel b [] nums c h = rw append-nil
nums_from-expand fuel b (r ∷ s) nums (l, w, c) (h, hs) = ground (
  arith,
  append_loop-count_up fuel r.start r.stop (r.stop + 1 - r.start) nums,
  nums_from-expand fuel (key r.stop + 2) s (nums ++ count_up r.start (r.stop + 1 - r.start)) c hs,
  append_assoc nums (count_up r.start (r.stop + 1 - r.start)) (expand s),
  w.ordered,
)

-- On a canonical set of static ranges that end below the largest 32-bit number, Nums returns, with ok, the
-- numbers of the ranges in ascending order; one round more than a range has numbers is enough for its loop.
pub nums-expand :
    (fuel : ℕ) (s : Set) → IsCanon s → Bounded fuel s → nums fuel s ≡ some (some (expand s))
unfolding nums
nums-expand fuel s c h = nums_from-expand fuel 0 s [] c h

append_loop_max :
    (fuel n : ℕ) (nums : List ℕ) → n ≤ max_u32 → append_loop fuel n max_u32 nums ≡ none
unfolding append_loop
append_loop_max zero n nums h = refl
append_loop_max (suc fuel) n nums h =
    ground (arith, append_loop_max fuel ((n + 1) % u32_mod) (nums ++ n ∷ []))

-- Nums never returns on a set that starts with a range "n:4294967295", n not "*": however many rounds
-- it is given, its loop has not ended.
pub nums_diverges :
    (fuel n : ℕ) (s : Set)
    → 0 < n
    → n ≤ max_u32
    → nums fuel (record { start = n; stop = max_u32 } ∷ s) ≡ none
unfolding nums
nums_diverges fuel n s h l = ground (arith, append_loop_max fuel n [] l)

length-count_up : (a n : ℕ) → length (count_up a n) ≡ n
length-count_up a zero = refl
length-count_up a (suc n) = omega (arith, length-count_up (a + 1) n)

elem-append : (q : ℕ) (xs ys : List ℕ) → elem q (xs ++ ys) ≡ (elem q xs || elem q ys)
elem-append q [] ys = refl
elem-append q (x ∷ xs) ys = ground (arith, elem-append q xs ys)

elem-count_up : (q a n : ℕ) → elem q (count_up a n) ≡ (leb a q && ltb q (a + n))
elem-count_up q a zero = ground arith
elem-count_up q a (suc n) = ground (arith, elem-count_up q (a + 1) n)

-- The numbers of a canonical set of static ranges are those that its ranges hold.
elem-expand :
    (q b : ℕ) (s : Set)
    → 0 < q
    → q < u32_mod
    → IsCanonFrom b s
    → All (λ r. 0 < r.stop) s
    → elem q (expand s) ≡ any_contains s q
elem-expand q b [] h hq c st = refl
elem-expand q b (r ∷ s) h hq (l, w, c) (st, sts) = ground (
  arith,
  elem-append q (count_up r.start (r.stop + 1 - r.start)) (expand s),
  elem-count_up q r.start (r.stop + 1 - r.start),
  elem-expand q (key r.stop + 2) s h hq c sts,
  contains-key r q w hq,
  w.ordered,
)

static_range :
    (r : Range)
    → IsRange r
    → 0 < r.stop
    → (0 < r.start)
      × (r.start ≤ r.stop)
      × (r.stop < u32_mod)
      × (key r.start ≡ r.start)
      × (key r.stop ≡ r.stop)
static_range r w h = ground (arith, w.ordered, w.stop_fits)

-- The uint32 difference that Cardinality takes does not wrap around.
span : (a b : ℕ) → 0 < a → a ≤ b → b < u32_mod → (b + u32_mod - a + 1) % u32_mod ≡ b + 1 - a
span a b h l m = omega arith

cardinality_from-expand :
    (n b : ℕ) (s : Set)
    → IsCanonFrom b s
    → All (λ r. 0 < r.stop) s
    → n < b
    → (cardinality_from n s ≡ n + length (expand s)) × (n + length (expand s) ≤ max n u32_mod)
unfolding cardinality_from
cardinality_from-expand n b [] c h l = omega arith
cardinality_from-expand n b (r ∷ s) (lo, w, c) (h, hs) l =
    let (pos, ord, fit, ks, ke) = static_range r w h in
    let e = span r.start r.stop pos ord fit in
    let f : (n + (r.stop + 1 - r.start)) % 2 ^ 64 ≡ n + (r.stop + 1 - r.start) = omega arith in
    let (ih, bd) =
      cardinality_from-expand (n + (r.stop + 1 - r.start)) (key r.stop + 2) s c hs (omega arith) in
    let len = length-append (count_up r.start (r.stop + 1 - r.start)) (expand s) in
    let cnt = length-count_up r.start (r.stop + 1 - r.start) in
    (rw (e, f) (ground (arith, ih, len, cnt)), omega arith)

cardinality_dynamic :
    (n b : ℕ) (s : Set)
    → IsCanonFrom b s
    → any_contains s 0 ≡ true
    → cardinality_from n s ≡ 2 ^ 64 - 1
unfolding cardinality_from contains
cardinality_dynamic n b [] c h = cc
cardinality_dynamic n b (r ∷ s) (l, w, c) h = ground (
  arith,
  cardinality_dynamic ((n + (r.stop + u32_mod - r.start + 1) % u32_mod) % 2 ^ 64) (key r.stop + 2) s
      c,
)

-- Cardinality of a canonical set is the number of numbers that the set lists if every range is static,
-- with no overflow on the way, and the largest 64-bit number if some range holds "*".
pub cardinality-expand :
    (s : Set)
    → IsCanon s
    → (All (λ r. 0 < r.stop) s → cardinality s ≡ length (expand s))
      × (any_contains s 0 ≡ true → cardinality s ≡ 2 ^ 64 - 1)
unfolding cardinality
cardinality-expand s c = (static s c, cardinality_dynamic 0 0 s c)
  where
    static :
        (s : Set) → IsCanon s → All (λ r. 0 < r.stop) s → cardinality_from 0 s ≡ length (expand s)
    static [] c h = refl
    static (r ∷ s) (l, w, c) h =
        let (pos, ord, fit, ks, ke) = static_range r w h.0 in
        omega (arith, (cardinality_from-expand 0 1 (r ∷ s) (omega arith, w, c) h (omega arith)).0)

-- A static canonical set lists a non-zero 32-bit number exactly if Contains finds it.
pub elem-expand-set_contains :
    (s : Set) (q : ℕ)
    → IsCanon s
    → All (λ r. 0 < r.stop) s
    → 0 < q
    → q < u32_mod
    → elem q (expand s) ≡ set_contains s q
elem-expand-set_contains s q c h p hq =
    ground (arith, elem-expand q 0 s p hq c h, set_contains_lem s q hq c)
