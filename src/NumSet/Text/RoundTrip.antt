-- ===== src/NumSet/Text/RoundTrip.antt =====
-- ParseSet reads back what Set.String prints.
use native.Mathlib.Decide.{ℕ_discrete}
use go_imap.Prelude.{
  ℕ, ◌+◌, ◌≤◌, ◌<◌, ◌≡◌, ◌≢◌, ◌∙◌, ◌⊎◌, inl, inr, refl, sym, ap, false, [], ◌∷◌, ◌++◌, append_assoc,
  append-nil, arith, ◌==◌, if◌then◌else◌, none, some, All-append, Bool-cases, length,
}
use go_imap.Strconv.{Bytes, format_uint, parse_uint, split, cut}
use go_imap.Strconv.Laws.{
  Leads, Lacks, format_uint-Leads, format_uint-IsDigit, parse_uint-format_uint, digits-Lacks,
  split-Lacks, split-append, cut-Lacks, cut-append,
}
use go_imap.NumSet.{Range, Set, u32_mod, max_u32, insert, add_range}
use go_imap.NumSet.Key.{key, IsRange, less-key}
use go_imap.NumSet.Canon.{IsCanon, IsCanonFrom, below}
use go_imap.NumSet.Merge.{merge-touches}
use go_imap.NumSet.Insert.{enter_at}
use go_imap.NumSet.Insert.Laws.{insert-enter_at}
use go_imap.NumSet.Union.{add_range-insert, sorted}
use go_imap.NumSet.Text.{
  range_string, element, elements, set_string, star, leading_zero, parse_num, range_of, parse_ends,
  parse_num_range, parse_parts, parse_set,
}

-- The text of one end of a range.
abbrev num_string : ℕ → Bytes
num_string n = if n == 0 then b'*' ∷ [] else format_uint n

leading_zero-Leads : (s : Bytes) → Leads b'1' s → leading_zero s ≡ false
unfolding leading_zero
leading_zero-Leads [] h = absurd h
leading_zero-Leads (c ∷ s) h = ground arith

module _ (n : ℕ) (h : n < u32_mod) where
  parse_num-format_uint : (n == 0) ≡ false → parse_num (format_uint n) ≡ some n
  unfolding parse_num
  parse_num-format_uint z =
      rw
        (
          parse_uint-format_uint max_u32 n (omega arith) (omega arith),
          leading_zero-Leads _ (rw z at (format_uint-Leads n (omega arith))),
          parse_num,
        )
        refl

  parse_num-num_string : parse_num (num_string n) ≡ some n
  parse_num-num_string = elim (Bool-cases (n == 0)) [
    | inl z ↦ rw z (unfold parse_num star parse_uint in ground arith)
    | inr z ↦ rw z (parse_num-format_uint z)
  ]

num_string-Lacks : (b n : ℕ) → (b < b'0') ⊎ (b'9' < b) → b ≢ b'*' → Lacks b (num_string n)
num_string-Lacks b n h ne = elim (Bool-cases (n == 0)) [
  | inl z ↦ rw z ((λ e. ne (sym e)), tt)
  | inr z ↦ rw z (digits-Lacks b _ h (format_uint-IsDigit n))
]

element-range_string : (v : Range) → IsRange v → element v ≡ range_string v
unfolding element range_string
element-range_string v w = ground (arith, append-nil (format_uint v.start), w.ordered, w.stop_fits)

num_string_pos : (n : ℕ) → 0 < n → num_string n ≡ format_uint n
num_string_pos n h = ground arith

-- Printed ranges without a colon inside their ends.
range_string-single : (v : Range) → v.start ≡ v.stop → range_string v ≡ num_string v.start
unfolding range_string
range_string-single v e = ground arith

range_string-pair :
    (v : Range)
    → v.start ≢ v.stop
    → range_string v ≡ format_uint v.start ++ b':' ∷ num_string v.stop
unfolding range_string
range_string-pair v e = ground arith

two_ends :
    (v : Range) → IsRange v → v.start ≢ v.stop → (0 < v.start) × ((v.start < v.stop) ⊎ (v.stop ≡ 0))
two_ends v w ne = ground (arith, w.ordered, w.stop_fits)

range_of_lem :
    (v : Range) → (0 < v.start) × ((v.start < v.stop) ⊎ (v.stop ≡ 0)) → range_of v.start v.stop ≡ v
unfolding range_of
range_of_lem v h = ground arith

range_string-Lacks : (v : Range) → IsRange v → Lacks b',' (range_string v)
range_string-Lacks v w = elim (ℕ_discrete v.start v.stop) [
  | yes e ↦
      rw (range_string-single v e) (num_string-Lacks b',' v.start (inl (omega arith)) (omega arith))
  | no e ↦
      rw (range_string-pair v e, ← num_string_pos v.start (two_ends v w e).0)
        (All-append _ (num_string v.start) _
          (num_string-Lacks b',' v.start (inl (omega arith)) (omega arith))
          ((omega arith), num_string-Lacks b',' v.stop (inl (omega arith)) (omega arith)))
]

parse_num_range_single :
    (t : Bytes) (n : ℕ)
    → cut b':' t ≡ none
    → parse_num t ≡ some n
    → parse_num_range t ≡ some (record { start = n; stop = n })
unfolding parse_num_range
parse_num_range_single t n h p = rw (h, p, parse_num_range) refl

parse_num_range_pair :
    (t a b : Bytes) (n m : ℕ)
    → cut b':' t ≡ some (a, b)
    → parse_num a ≡ some n
    → parse_num b ≡ some m
    → parse_num_range t ≡ some (range_of n m)
unfolding parse_num_range parse_ends
parse_num_range_pair t a b n m h p q = rw (h, p, q, parse_num_range) refl

-- parseNumRange reads back what Range.String prints of a valid range.
pub parse_num_range-range_string :
    (v : Range) → IsRange v → parse_num_range (range_string v) ≡ some v
parse_num_range-range_string v w = elim (ℕ_discrete v.start v.stop) [
  | yes e ↦ rw (range_string-single v e) (
      parse_num_range_single _ v.start
        (cut-Lacks b':' _ (num_string-Lacks b':' v.start (inr (omega arith)) (omega arith)))
        (parse_num-num_string v.start w.start_fits)
      ∙ ground arith)
  | no e ↦
      rw (range_string-pair v e, ← num_string_pos v.start (two_ends v w e).0)
        (parse_num_range_pair _ _ _ v.start v.stop
            (cut-append b':' (num_string v.start) (num_string v.stop)
              (num_string-Lacks b':' v.start (inr (omega arith)) (omega arith)))
            (parse_num-num_string v.start w.start_fits) (parse_num-num_string v.stop w.stop_fits)
          ∙ ap some (range_of_lem v (two_ends v w e)))
]

IsCanonFrom-prefix : (b : ℕ) (pre s : Set) → IsCanonFrom b (pre ++ s) → IsCanonFrom b pre
IsCanonFrom-prefix b [] s c = tt
IsCanonFrom-prefix b (x ∷ pre) s (l, w, c) = (l, w, IsCanonFrom-prefix (key x.stop + 2) pre s c)

IsCanonFrom-last :
    (b : ℕ) (pre s : Set) (v : Range) → IsCanonFrom b (pre ++ v ∷ s) → (b ≤ key v.start) × IsRange v
IsCanonFrom-last b [] s v (l, w, c) = (l, w)
IsCanonFrom-last b (x ∷ pre) s v (l, w, c) =
    let (h, wv) = IsCanonFrom-last (key x.stop + 2) pre s v c in (omega (arith, w.ordered), wv)

below-last :
    (b : ℕ) (pre s : Set) (v : Range)
    → IsCanonFrom b (pre ++ v ∷ s)
    → below pre v.start ≡ length pre
below-last b [] s v c = refl
below-last b (x ∷ pre) s v (l, w, c) =
    let (h, wv) = IsCanonFrom-last (key x.stop + 2) pre s v c in
    ground (arith, below-last (key x.stop + 2) pre s v c, less-key x v.start w wv.start_fits)

enter_at-last :
    (b : ℕ) (pre s : Set) (v : Range)
    → IsCanonFrom b (pre ++ v ∷ s)
    → enter_at (length pre) pre v ≡ pre ++ v ∷ []
enter_at-last b [] s v c = refl
enter_at-last b (x ∷ []) s v (l, w, c) = ground (arith, merge-touches x v w c.1)
enter_at-last b (x ∷ y ∷ pre) s v (l, w, c) =
    ap (◌∷◌ x) (enter_at-last (key x.stop + 2) (y ∷ pre) s v c)

add_range-last :
    (pre s : Set) (v : Range)
    → IsCanon (pre ++ v ∷ s)
    → add_range pre v.start v.stop ≡ pre ++ v ∷ []
add_range-last pre s v c =
    let (h, w) = IsCanonFrom-last 0 pre s v c in
    add_range-insert pre v.start v.stop
    ∙ ap (insert pre) (sorted_lem v w)
    ∙ insert-enter_at pre v (IsCanonFrom-prefix 0 pre (v ∷ s) c) w
    ∙ rw (below-last 0 pre s v c) (enter_at-last 0 pre s v c)
  where
    sorted_lem : (v : Range) → IsRange v → sorted v.start v.stop ≡ v
    sorted_lem v w = ground (arith, w.ordered, w.start_fits, w.stop_fits)

parse_parts-elements :
    (s pre : Set) (v : Range)
    → IsCanon (pre ++ v ∷ s)
    → parse_parts pre (split b',' (element v ++ elements s)) ≡ some (pre ++ v ∷ s)
unfolding parse_parts elements
parse_parts-elements [] pre v c =
    let (h, w) = IsCanonFrom-last 0 pre [] v c in
    rw
      (
        append-nil (element v),
        element-range_string v w,
        split-Lacks b',' _ (range_string-Lacks v w),
        parse_num_range-range_string v w,
        add_range-last pre [] v c,
        parse_parts,
      )
      refl
parse_parts-elements (u ∷ s) pre v c =
    let (h, w) = IsCanonFrom-last 0 pre (u ∷ s) v c in
    rw
      (
        element-range_string v w,
        split-append b',' _ (element u ++ elements s) (range_string-Lacks v w),
        parse_num_range-range_string v w,
        add_range-last pre (u ∷ s) v c,
        parse_parts,
      )
      (parse_parts-elements s (pre ++ v ∷ []) u (rw append_assoc c)
        ∙ ap some (append_assoc pre (v ∷ []) (u ∷ s)))

-- ParseSet reads back what String prints of a canonical set with at least one range: the same ranges,
-- none of them merged or reordered.
pub parse_set-set_string : (s : Set) → s ≢ [] → IsCanon s → parse_set (set_string s) ≡ some s
unfolding parse_set set_string elements
parse_set-set_string [] ne c = absurd (ne refl)
parse_set-set_string (v ∷ s) ne c = parse_parts-elements s [] v c
