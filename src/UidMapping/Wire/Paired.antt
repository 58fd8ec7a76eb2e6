-- ===== src/UidMapping/Wire/Paired.antt =====
-- What ParseUIDMapping pairs: the UIDs of the two sets, one after the other.
use go_imap.Prelude.{
  Bool-cases, ℕ, zero, suc, ◌+◌, ◌-◌, ◌%◌, ◌≤◌, ◌<◌, ◌≡◌, ◌≢◌, ◌∙◌, inl, inr, refl, sym, ap, Bool,
  true, false, List, [], ◌∷◌, ◌++◌, append_assoc, arith, ltb, if◌then◌else◌, Option, none, some,
  All, min, length, length-append,
}
use go_imap.NumSet.{Range, u32_mod}
use go_imap.UidMapping.{UidPairRange, pairs_of}
use go_imap.UidMapping.Pairs.{IsPair, ascend, pairs-ascend}
use go_imap.UidMapping.Wire.{add_pair, pair_ranges}

-- `k` numbers upwards from `n`
abbrev pub up : ℕ → ℕ → List ℕ
up zero n = []
up (suc k) n = n ∷ up k (n + 1)

-- The numbers of the ranges in the order of the ranges; of the first one those behind the offset.
abbrev pub expand : List Range → ℕ → List ℕ
expand [] o = []
expand (r ∷ rs) o = up (r.stop + 1 - (r.start + o)) (r.start + o) ++ expand rs 0

abbrev pub zip : List ℕ → List ℕ → List (ℕ × ℕ)
zip (x ∷ xs) (y ∷ ys) = (x, y) ∷ zip xs ys
zip _ _ = []

pub record IsUidRange (r : Range) : Type 0 where
  pub positive : 0 < r.start
  pub upward : r.start ≤ r.stop
  pub fits : r.stop < u32_mod

abbrev pub Within : List Range → ℕ → Type 0
Within [] o = Unit
Within (r ∷ rs) o = r.start + o ≤ r.stop

-- A result against the lists of UIDs that it should pair.
abbrev pub Paired : Option (List UidPairRange) → List ℕ → List ℕ → Type 0
Paired none xs ys = length xs ≢ length ys
Paired (some m) xs ys = (length xs ≡ length ys) × (pairs_of m ≡ zip xs ys)

up-length : (k n : ℕ) → length (up k n) ≡ k
up-length zero n = refl
up-length (suc k) n = ap suc (up-length k (n + 1))

up-append : (k j n a m : ℕ) → a ≡ k + j → m ≡ n + k → up a n ≡ up k n ++ up j m
up-append zero j n a m e f =
    let p : a ≡ j = omega (arith, e) in let q : m ≡ n = omega (arith, f) in rw (p, q) refl
up-append (suc k) j n a m e f =
    let p : a ≡ suc (k + j) = omega (arith, e) in
    rw p (ap (λ l. n ∷ l) (up-append k j (n + 1) (k + j) m refl (omega (arith, f))))

zip-up :
    (k n m : ℕ) (xs ys : List ℕ) → zip (up k n ++ xs) (up k m ++ ys) ≡ ascend k n m ++ zip xs ys
zip-up zero n m xs ys = refl
zip-up (suc k) n m xs ys = ap (λ l. (n, m) ∷ l) (zip-up k (n + 1) (m + 1) xs ys)

abbrev pair_at : ℕ → ℕ → ℕ → UidPairRange
pair_at n m k = record {
  source = record { start = n % u32_mod; stop = (n + k - 1) % u32_mod };
  dest = record { start = m % u32_mod; stop = (m + k - 1) % u32_mod };
}

pair_at-IsPair :
    (n m k : ℕ)
    → 0 < n
    → 0 < m
    → 0 < k
    → n + k - 1 < u32_mod
    → m + k - 1 < u32_mod
    → IsPair (pair_at n m k)
pair_at-IsPair n m k pn pm pk hn hm = record {
  source_pos = omega arith;
  dest_pos = omega arith;
  source_up = omega arith;
  dest_up = omega arith;
  same_length = omega arith;
  source_fits = omega arith;
  dest_fits = omega arith;
}

pairs_of-pair_at :
    (n m k : ℕ) (rest : List UidPairRange)
    → 0 < n
    → 0 < m
    → 0 < k
    → n + k - 1 < u32_mod
    → m + k - 1 < u32_mod
    → pairs_of (pair_at n m k ∷ rest) ≡ ascend k n m ++ pairs_of rest
unfolding pairs_of
pairs_of-pair_at n m k rest pn pm pk hn hm =
    let e = pairs-ascend (pair_at n m k) (pair_at-IsPair n m k pn pm pk hn hm) in
    let z : (n + k - 1) % u32_mod + 1 - n % u32_mod ≡ k = omega arith in
    let a : n % u32_mod ≡ n = omega arith in
    let b : m % u32_mod ≡ m = omega arith in ap (λ l. l ++ pairs_of rest) (e ∙ rw (z, a, b) refl)

add_pair-Paired :
    (n m k : ℕ) (o : Option (List UidPairRange)) (xs ys : List ℕ)
    → 0 < n
    → 0 < m
    → 0 < k
    → n + k - 1 < u32_mod
    → m + k - 1 < u32_mod
    → Paired o xs ys
    → Paired (add_pair (pair_at n m k) o) (up k n ++ xs) (up k m ++ ys)
add_pair-Paired n m k none xs ys pn pm pk hn hm ne = λ e. ne (
    omega (
      arith,
      e,
      length-append (up k n) xs,
      length-append (up k m) ys,
      up-length k n,
      up-length k m,
    ))
add_pair-Paired n m k (some rest) xs ys pn pm pk hn hm (l, z) = (
  omega (
    arith,
    l,
    length-append (up k n) xs,
    length-append (up k m) ys,
    up-length k n,
    up-length k m,
  ),
  pairs_of-pair_at n m k rest pn pm pk hn hm
      ∙ ap (λ t. ascend k n m ++ t) z
      ∙ sym (zip-up k n m xs ys),
)

pub Within-zero : (rs : List Range) → All IsUidRange rs → Within rs 0
Within-zero [] a = tt
Within-zero (r ∷ rs) (w, a) = omega (arith, w.upward)

-- The list behind `k` more numbers of the first range.
expand-next :
    (r : Range) (rs : List Range) (o k : ℕ)
    → All IsUidRange rs
    → r.start + o ≤ r.stop
    → 0 < k
    → k ≤ r.stop + 1 - (r.start + o)
    → let used = ltb r.stop (r.start + o + k) in
      (expand (r ∷ rs) o
        ≡ up k (r.start + o) ++ expand (if used then rs else r ∷ rs) (if used then 0 else o + k))
      × Within (if used then rs else r ∷ rs) (if used then 0 else o + k)
expand-next r rs o k w h p b = elim (Bool-cases (ltb r.stop (r.start + o + k))) [
  | inl y ↦
      let e : r.stop + 1 - (r.start + o) ≡ k = ground (arith, y, b, h) in
      rw (y, e) (refl, Within-zero rs w)
  | inr n ↦
      let e : r.stop + 1 - (r.start + o) ≡ k + (r.stop + 1 - (r.start + (o + k))) =
        ground (arith, n, b, h) in
      rw n (
        ap (λ l. l ++ expand rs 0)
              (up-append k _ (r.start + o) _ (r.start + (o + k)) e (omega arith))
            ∙ append_assoc (up k (r.start + o)) _ (expand rs 0),
        ground (arith, n),
      )
]

if_All :
    (c : Bool) (xs ys : List Range)
    → All IsUidRange xs
    → All IsUidRange ys
    → All IsUidRange (if c then xs else ys)
if_All true xs ys a b = a
if_All false xs ys a b = b

expand-positive :
    (r : Range) (rs : List Range) (o : ℕ) → r.start + o ≤ r.stop → 0 < length (expand (r ∷ rs) o)
expand-positive r rs o h =
    let k = r.stop + 1 - (r.start + o) in
    omega (arith, length-append (up k (r.start + o)) (expand rs 0), up-length k (r.start + o))

-- At least one of the two ranges is used up in a round.
one_used :
    (s d : Range) (src dst : List Range) (n m fuel : ℕ)
    → n ≤ s.stop
    → m ≤ d.stop
    → length src + 1 + (length dst + 1) ≤ suc fuel
    → let k = min (s.stop - n + 1) (d.stop - m + 1) in
      length (if ltb s.stop (n + k) then src else s ∷ src)
        + length (if ltb d.stop (m + k) then dst else d ∷ dst)
      ≤ fuel
one_used s d src dst n m fuel u v f =
    let k = min (s.stop - n + 1) (d.stop - m + 1) in
    elim (Bool-cases (ltb s.stop (n + k))) [
      | inl y ↦ elim (Bool-cases (ltb d.stop (m + k))) [
        | inl y' ↦ rw (y, y') (omega (arith, f))
        | inr n' ↦ rw (y, n') (omega (arith, f))
      ]
      | inr x ↦ elim (Bool-cases (ltb d.stop (m + k))) [
        | inl y' ↦ rw (x, y') (omega (arith, f))
        | inr n' ↦ (let bad : ⊥ = ground (arith, x, n', u, v) in elim bad [ ])
      ]
    ]

pub pair_ranges-Paired :
    (fuel : ℕ) (src dst : List Range) (so to : ℕ)
    → length src + length dst ≤ fuel
    → All IsUidRange src
    → All IsUidRange dst
    → Within src so
    → Within dst to
    → Paired (pair_ranges fuel src dst so to) (expand src so) (expand dst to)
unfolding pair_ranges
pair_ranges-Paired fuel [] [] so to f a b u v = (refl, unfold pairs_of in refl)
pair_ranges-Paired fuel (s ∷ src) [] so to f a b u v =
    λ e. omega (arith, e, expand-positive s src so u)
pair_ranges-Paired fuel [] (d ∷ dst) so to f a b u v =
    λ e. omega (arith, e, expand-positive d dst to v)
pair_ranges-Paired zero (s ∷ src) (d ∷ dst) so to f a b u v =
    let bad : ⊥ = omega (arith, f) in elim bad [ ]
pair_ranges-Paired (suc fuel) (s ∷ src) (d ∷ dst) so to f (a, al) (b, bl) u v =
    let n = s.start + so in
    let m = d.start + to in
    let k = min (s.stop - n + 1) (d.stop - m + 1) in
    let (e, u') = expand-next s src so k al u (omega arith) (omega (arith, u)) in
    let (e', v') = expand-next d dst to k bl v (omega arith) (omega (arith, v)) in
    let ih =
      pair_ranges-Paired fuel _ _ _ _ (one_used s d src dst n m fuel u v (omega (arith, f)))
        (if_All (ltb s.stop (n + k)) src (s ∷ src) al (a, al))
        (if_All (ltb d.stop (m + k)) dst (d ∷ dst) bl (b, bl)) u' v' in
    rw (e, e')
      (add_pair-Paired n m k _ _ _ (omega (arith, a.positive)) (omega (arith, b.positive))
        (omega arith) (omega (arith, u, a.fits)) (omega (arith, v, b.fits)) ih)
