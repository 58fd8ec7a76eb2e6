-- ===== src/UidMapping/Wire/Ranges.antt =====
-- The ranges that parseOrderedUIDSet reads are ranges of UIDs.
use go_imap.Prelude.{
  ◌==◌, Bool-cases, ◌*◌, ℕ, ◌+◌, ◌-◌, ◌≤◌, ◌<◌, ◌≡◌, inl, inr, refl, List, [], ◌∷◌, arith, Option,
  none, some, All,
}
use go_imap.Strconv.{split, cut, Bytes, scan, parse_uint}
use go_imap.NumSet.{Range, u32_mod, max_u32}
use go_imap.UidMapping.Wire.{
  nonzero, item_of, add_item, parse_uid, range_between, parse_item, parse_items,
  parse_ordered_uid_set,
}
use go_imap.UidMapping.Wire.Paired.{IsUidRange}

scan-bound : (limit : ℕ) (s : Bytes) (n m : ℕ) → n ≤ limit → scan limit s n ≡ some m → m ≤ limit
unfolding scan
scan-bound limit [] n m h e = ground (arith, e, h)
scan-bound limit (c ∷ s) n m h e = ground (arith, e, scan-bound limit s (n * 10 + (c - b'0')) m)

parse_uint-bound : (limit : ℕ) (s : Bytes) (n : ℕ) → parse_uint limit s ≡ some n → n ≤ limit
unfolding parse_uint
parse_uint-bound limit [] n e = cc
parse_uint-bound limit (c ∷ s) n e = scan-bound limit (c ∷ s) 0 n (omega arith) e

-- An option that holds a number holds a UID.
abbrev HoldsUid : Option ℕ → Type 0
HoldsUid none = Unit
HoldsUid (some n) = (0 < n) × (n < u32_mod)

nonzero-HoldsUid : (o : Option ℕ) → ((n : ℕ) → o ≡ some n → n ≤ max_u32) → HoldsUid (nonzero o)
nonzero-HoldsUid none f = tt
nonzero-HoldsUid (some n) f = elim (Bool-cases (n == 0)) [
  | inl z ↦ rw z tt
  | inr z ↦ rw z (ground (arith, z), omega (arith, f n refl))
]

parse_uid-HoldsUid : (s : Bytes) → HoldsUid (parse_uid s)
parse_uid-HoldsUid s = nonzero-HoldsUid (parse_uint max_u32 s) (parse_uint-bound max_u32 s)

abbrev HoldsRange : Option Range → Type 0
HoldsRange none = Unit
HoldsRange (some r) = IsUidRange r

range_between-HoldsRange :
    (a b : Option ℕ) → HoldsUid a → HoldsUid b → HoldsRange (range_between a b)
range_between-HoldsRange none b p q = tt
range_between-HoldsRange (some x) none p q = tt
range_between-HoldsRange (some x) (some y) p q = record {
  positive = omega (arith, p, q);
  upward = omega arith;
  fits = omega (arith, p, q);
}

item_of-HoldsRange : (item : Bytes) (o : Option (Bytes × Bytes)) → HoldsRange (item_of item o)
item_of-HoldsRange item none =
    range_between-HoldsRange _ _ (parse_uid-HoldsUid item) (parse_uid-HoldsUid item)
item_of-HoldsRange item (some (a, b)) =
    range_between-HoldsRange _ _ (parse_uid-HoldsUid a) (parse_uid-HoldsUid b)

abbrev HoldsRanges : Option (List Range) → Type 0
HoldsRanges none = Unit
HoldsRanges (some rs) = All IsUidRange rs

add_item-HoldsRanges :
    (o : Option Range) (os : Option (List Range))
    → HoldsRange o
    → HoldsRanges os
    → HoldsRanges (add_item o os)
add_item-HoldsRanges none os h hs = tt
add_item-HoldsRanges (some r) none h hs = tt
add_item-HoldsRanges (some r) (some rs) h hs = (h, hs)

parse_items-HoldsRanges : (items : List Bytes) → HoldsRanges (parse_items items)
unfolding parse_items parse_item
parse_items-HoldsRanges [] = tt
parse_items-HoldsRanges (item ∷ items) =
    add_item-HoldsRanges _ _ (item_of-HoldsRange item (cut b':' item))
      (parse_items-HoldsRanges items)

pub parse_ordered_uid_set-ranges :
    (s : Bytes) (rs : List Range) → parse_ordered_uid_set s ≡ some rs → All IsUidRange rs
unfolding parse_ordered_uid_set
parse_ordered_uid_set-ranges s rs e = rw e at (parse_items-HoldsRanges (split b',' s))
