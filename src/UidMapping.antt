-- ===== src/UidMapping.antt =====
-- uidmapping.go: the COPYUID mapping of source UIDs to destination UIDs, in copying order.
pub mod Pairs
pub mod Validity
pub mod Wire
mod Tests
use go_imap.Prelude.{
  ℕ, zero, suc, ◌+◌, ◌-◌, ◌%◌, Bool, true, false, not, ◌&&◌, ◌||◌, List, [], ◌∷◌, ◌++◌, map, ltb,
  leb, ◌==◌, if◌then◌else◌, Option, none, some,
}
use go_imap.NumSet.{Range, u32_mod, max_u32}

-- UIDPairRange
pub record UidPairRange : Type 0 where
  pub source : Range
  pub dest : Range

-- UIDPairRange.cardinality
unfoldable pub pair_cardinality : UidPairRange → ℕ
pair_cardinality p =
    if p.source.start == 0
      || (p.dest.start == 0
          || (ltb p.source.stop p.source.start
              || (ltb p.dest.stop p.dest.start
                  || not (p.source.stop - p.source.start == p.dest.stop - p.dest.start))))
    then 0
    else p.source.stop - p.source.start + 1

abbrev pub single_pair : ℕ → ℕ → UidPairRange
single_pair source dest = record {
  source = record { start = source; stop = source };
  dest = record { start = dest; stop = dest };
}

-- The test of Add on the last range
unfoldable pub continues : UidPairRange → ℕ → ℕ → Bool
continues last source dest =
    not (source == 0)
    && (not (dest == 0)
        && (not (last.source.stop == max_u32)
            && (not (last.dest.stop == max_u32)
                && (source == last.source.stop + 1 && dest == last.dest.stop + 1))))

-- UIDMapping.Add
unfoldable pub mapping_add : List UidPairRange → ℕ → ℕ → List UidPairRange
unfolding continues
mapping_add [] source dest = single_pair source dest ∷ []
mapping_add (p ∷ []) source dest =
    if continues p source dest
    then (record {
      source = record { start = p.source.start; stop = source };
      dest = record { start = p.dest.start; stop = dest };
    })
      ∷ []
    else p ∷ single_pair source dest ∷ []
mapping_add (p ∷ q ∷ m) source dest = p ∷ mapping_add (q ∷ m) source dest

-- The inner loop of All; the counter is a uint64, which no 32-bit bound lets overflow.
unfoldable pub pair_loop : ℕ → UidPairRange → ℕ → List (ℕ × ℕ)
pair_loop zero p n = []
pair_loop (suc fuel) p n =
    let rest = pair_loop fuel p (n + 1) in
    if leb n p.source.stop
    then (n % u32_mod, (p.dest.start + n - p.source.start) % u32_mod) ∷ rest
    else []

unfoldable pub pairs_of : List UidPairRange → List (ℕ × ℕ)
unfolding pair_loop
pairs_of [] = []
pairs_of (p ∷ m) = pair_loop (p.source.stop + 1 - p.source.start) p p.source.start ++ pairs_of m

unfoldable pub cardinality_loop : ℕ → List UidPairRange → ℕ
unfolding pair_cardinality
cardinality_loop count [] = count
cardinality_loop count (p ∷ m) =
    let n = pair_cardinality p in
    let rest = cardinality_loop (count + n) m in
    if n == 0 || ltb (max_u32 - n) count then 0 else rest

-- UIDMapping.Cardinality
unfoldable pub mapping_cardinality : List UidPairRange → ℕ
unfolding cardinality_loop
mapping_cardinality m = cardinality_loop 0 m

-- UIDMapping.All: all that it yields
unfoldable pub mapping_all : List UidPairRange → List (ℕ × ℕ)
unfolding mapping_cardinality pairs_of
mapping_all m = if mapping_cardinality m == 0 then [] else pairs_of m

-- slices.SortFunc by the start of the ranges
unfoldable pub insert_range : Range → List Range → List Range
insert_range r [] = r ∷ []
insert_range r (x ∷ rs) = if leb r.start x.start then r ∷ x ∷ rs else x ∷ insert_range r rs

unfoldable pub sort_ranges : List Range → List Range
unfolding insert_range
sort_ranges [] = []
sort_ranges (r ∷ rs) = insert_range r (sort_ranges rs)

-- Some range starts at or before the end of the one before it.
unfoldable pub has_repeat : List Range → Bool
has_repeat [] = false
has_repeat (x ∷ []) = false
has_repeat (x ∷ y ∷ rs) = leb y.start x.stop || has_repeat (y ∷ rs)

-- The errors of Validate
pub data MappingError : Type 0 where
  empty_mapping : MappingError
  invalid_range : ℕ → MappingError
  repeated_uid : MappingError

-- The place of the first range with no cardinality
unfoldable pub first_invalid : ℕ → List UidPairRange → Option ℕ
unfolding pair_cardinality
first_invalid i [] = none
first_invalid i (p ∷ m) =
    let rest = first_invalid (i + 1) m in if pair_cardinality p == 0 then some i else rest

unfoldable pub check_ranges : Option ℕ → List UidPairRange → Option MappingError
unfolding sort_ranges has_repeat
check_ranges (some i) m = some (invalid_range i)
check_ranges none m =
    if has_repeat (sort_ranges (map (λ (p : UidPairRange). p.source) m))
      || has_repeat (sort_ranges (map (λ (p : UidPairRange). p.dest) m))
    then some repeated_uid
    else none

-- UIDMapping.Validate
unfoldable pub validate : List UidPairRange → Option MappingError
unfolding check_ranges first_invalid
validate [] = some empty_mapping
validate (p ∷ m) = check_ranges (first_invalid 0 (p ∷ m)) (p ∷ m)
