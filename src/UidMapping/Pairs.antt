-- ===== src/UidMapping/Pairs.antt =====
-- The pairs of a mapping: what Add adds, and how many All yields.
use go_imap.Prelude.{
  ◌⊎◌, ℕ, zero, suc, ◌+◌, ◌-◌, ◌%◌, ◌≤◌, ◌<◌, ◌≡◌, ◌∙◌, refl, sym, ap, true, List, [], ◌∷◌, ◌++◌,
  append_assoc, append-nil, arith, leb, All, length, length-append, Bool-cases, inl, inr,
}
use go_imap.NumSet.{u32_mod}
use go_imap.UidMapping.{
  UidPairRange, pair_cardinality, single_pair, continues, mapping_add, pair_loop, pairs_of,
  cardinality_loop, mapping_cardinality, mapping_all,
}

-- A pair of 32-bit ranges, from positive ends upwards and of equal length.
pub record IsPair (p : UidPairRange) : Type 0 where
  pub source_pos : 0 < p.source.start
  pub dest_pos : 0 < p.dest.start
  pub source_up : p.source.start ≤ p.source.stop
  pub dest_up : p.dest.start ≤ p.dest.stop
  pub same_length : p.source.stop - p.source.start ≡ p.dest.stop - p.dest.start
  pub source_fits : p.source.stop < u32_mod
  pub dest_fits : p.dest.stop < u32_mod

-- `k` pairs upwards from `n` and `d`
abbrev pub ascend : ℕ → ℕ → ℕ → List (ℕ × ℕ)
ascend zero n d = []
ascend (suc k) n d = (n, d) ∷ ascend k (n + 1) (d + 1)

ascend-suc :
    (k n d m e : ℕ) → m ≡ n + k → e ≡ d + k → ascend (suc k) n d ≡ ascend k n d ++ (m, e) ∷ []
ascend-suc zero n d m e p q =
    let a : m ≡ n = omega (arith, p) in let b : e ≡ d = omega (arith, q) in rw (a, b) refl
ascend-suc (suc k) n d m e p q =
    ap (λ l. (n, d) ∷ l) (ascend-suc k (n + 1) (d + 1) m e (omega (arith, p)) (omega (arith, q)))

pair_loop-ascend :
    (p : UidPairRange) (k n d : ℕ)
    → IsPair p
    → p.source.start ≤ n
    → k + n ≡ p.source.stop + 1
    → d ≡ p.dest.start + n - p.source.start
    → pair_loop k p n ≡ ascend k n d
unfolding pair_loop
pair_loop-ascend p zero n d w b e f = refl
pair_loop-ascend p (suc k) n d w b e f =
    let ih =
      pair_loop-ascend p k (n + 1) (d + 1) w (omega arith) (omega (arith, e)) (omega (arith, f)) in
    let t : leb n p.source.stop ≡ true = ground (arith, e) in
    let sm : n % u32_mod ≡ n = omega (arith, e, w.source_fits) in
    let dm : (p.dest.start + n - p.source.start) % u32_mod ≡ d =
      omega (arith, e, f, w.source_fits, w.dest_fits, w.same_length, w.source_up, w.dest_up) in
    rw (t, sm, dm, ih) refl

abbrev size : UidPairRange → ℕ
size p = p.source.stop + 1 - p.source.start

pub pairs-ascend :
    (p : UidPairRange)
    → IsPair p
    → pair_loop (size p) p p.source.start ≡ ascend (size p) p.source.start p.dest.start
pairs-ascend p w =
    pair_loop-ascend p (size p) p.source.start p.dest.start w (omega arith)
      (omega (arith, w.source_up)) (omega arith)

single-IsPair : (s d : ℕ) → 0 < s → s < u32_mod → 0 < d → d < u32_mod → IsPair (single_pair s d)
single-IsPair s d ps hs pd hd = record {
  source_pos = ps;
  dest_pos = pd;
  source_up = omega arith;
  dest_up = omega arith;
  same_length = omega arith;
  source_fits = hs;
  dest_fits = hd;
}

pairs_of-single :
    (s d : ℕ)
    → 0 < s
    → s < u32_mod
    → 0 < d
    → d < u32_mod
    → pairs_of (single_pair s d ∷ []) ≡ (s, d) ∷ []
unfolding pairs_of
pairs_of-single s d ps hs pd hd =
    let one : size (single_pair s d) ≡ 1 = omega arith in
    rw (pairs-ascend (single_pair s d) (single-IsPair s d ps hs pd hd), one) refl

abbrev grown : UidPairRange → ℕ → ℕ → UidPairRange
grown p s d = record {
  source = record { start = p.source.start; stop = s };
  dest = record { start = p.dest.start; stop = d };
}

grown-IsPair :
    (p : UidPairRange) (s d : ℕ)
    → IsPair p
    → s ≡ p.source.stop + 1
    → d ≡ p.dest.stop + 1
    → s < u32_mod
    → d < u32_mod
    → IsPair (grown p s d)
grown-IsPair p s d w es ed hs hd = record {
  source_pos = w.source_pos;
  dest_pos = w.dest_pos;
  source_up = omega (arith, w.source_up);
  dest_up = omega (arith, w.dest_up);
  same_length = omega (arith, w.same_length, w.source_up, w.dest_up);
  source_fits = hs;
  dest_fits = hd;
}

pairs_of-grown :
    (p : UidPairRange) (s d : ℕ)
    → IsPair p
    → s ≡ p.source.stop + 1
    → d ≡ p.dest.stop + 1
    → s < u32_mod
    → d < u32_mod
    → pairs_of (grown p s d ∷ []) ≡ pairs_of (p ∷ []) ++ (s, d) ∷ []
unfolding pairs_of
pairs_of-grown p s d w es ed hs hd =
    let e : size (grown p s d) ≡ suc (size p) = omega (arith, w.source_up) in
    rw
      (
        pairs-ascend (grown p s d) (grown-IsPair p s d w es ed hs hd),
        e,
        pairs-ascend p w,
        append-nil (ascend (suc (size p)) p.source.start p.dest.start),
        append-nil (ascend (size p) p.source.start p.dest.start),
      )
      (ascend-suc (size p) p.source.start p.dest.start s d (omega (arith, w.source_up))
        (omega (arith, w.source_up, w.dest_up, w.same_length)))

pairs_of-next :
    (p : UidPairRange) (m m' : List UidPairRange) (x : ℕ × ℕ)
    → pairs_of m' ≡ pairs_of m ++ x ∷ []
    → pairs_of (p ∷ m') ≡ pairs_of (p ∷ m) ++ x ∷ []
unfolding pairs_of
pairs_of-next p m m' x e =
    rw e (sym (append_assoc (pair_loop (size p) p p.source.start) (pairs_of m) (x ∷ [])))

-- Add on 32-bit UIDs other than 0 and a mapping of well-formed pairs of ranges: the pairs stay well-formed,
-- and the mapping holds, in order, the pairs that it held and then the new one, whether it was merged with
-- the last range or not.
pub mapping_add-pairs :
    (m : List UidPairRange) (s d : ℕ)
    → All IsPair m
    → 0 < s
    → s < u32_mod
    → 0 < d
    → d < u32_mod
    → All IsPair (mapping_add m s d) × (pairs_of (mapping_add m s d) ≡ pairs_of m ++ (s, d) ∷ [])
unfolding mapping_add
mapping_add-pairs [] s d w ps hs pd hd =
    ((single-IsPair s d ps hs pd hd, tt), pairs_of-single s d ps hs pd hd ∙ unfold pairs_of in refl)
mapping_add-pairs (p ∷ []) s d (wp, w) ps hs pd hd = elim (Bool-cases (continues p s d)) [
  | inl c ↦
      let es : s ≡ p.source.stop + 1 = unfold continues in ground (arith, c) in
      let ed : d ≡ p.dest.stop + 1 = unfold continues in ground (arith, c) in
      rw c ((grown-IsPair p s d wp es ed hs hd, tt), pairs_of-grown p s d wp es ed hs hd)
  | inr c ↦ rw c (
    (wp, (single-IsPair s d ps hs pd hd, tt)),
    pairs_of-next p [] (single_pair s d ∷ []) (s, d)
        (pairs_of-single s d ps hs pd hd ∙ unfold pairs_of in refl),
  )
]
mapping_add-pairs (p ∷ q ∷ m) s d (wp, w) ps hs pd hd =
    let (a, e) = mapping_add-pairs (q ∷ m) s d w ps hs pd hd in
    ((wp, a), pairs_of-next p (q ∷ m) (mapping_add (q ∷ m) s d) (s, d) e)

pair_loop-length :
    (p : UidPairRange) (k n : ℕ) → k + n ≡ p.source.stop + 1 → length (pair_loop k p n) ≡ k
unfolding pair_loop
pair_loop-length p zero n e = refl
pair_loop-length p (suc k) n e =
    let t : leb n p.source.stop ≡ true = ground (arith, e) in
    rw t (ap suc (pair_loop-length p k (n + 1) (omega (arith, e))))

pair_cardinality-size :
    (p : UidPairRange)
    → (pair_cardinality p ≡ 0) ⊎ ((pair_cardinality p ≡ size p) × (p.source.start ≤ p.source.stop))
unfolding pair_cardinality
pair_cardinality-size p = ground arith

cardinality_loop-length :
    (count : ℕ) (m : List UidPairRange)
    → (cardinality_loop count m ≡ 0) ⊎ (cardinality_loop count m ≡ count + length (pairs_of m))
unfolding cardinality_loop pairs_of
cardinality_loop-length count [] = inr (omega arith)
cardinality_loop-length count (p ∷ m) = elim (pair_cardinality-size p) [
  | inl z ↦ rw z (inl refl)
  | inr (e, up) ↦
      let l = pair_loop-length p (size p) p.source.start (omega (arith, up)) in
      let a = length-append (pair_loop (size p) p p.source.start) (pairs_of m) in
      ground (arith, e, cardinality_loop-length (count + pair_cardinality p) m, l, a)
]

-- Cardinality is the number of pairs that All yields, for any mapping: both are zero for a malformed range or
-- a total beyond the space of UIDs.
pub length-mapping_all : (m : List UidPairRange) → length (mapping_all m) ≡ mapping_cardinality m
unfolding mapping_all mapping_cardinality
length-mapping_all m = ground (arith, cardinality_loop-length 0 m)
