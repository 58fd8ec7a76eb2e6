-- ===== src/UidMapping/Wire.antt =====
-- internal/imapwire/uidmapping.go: ParseUIDMapping, which pairs the two sets of a COPYUID response code in the
-- order in which they are written.
pub mod Paired
pub mod Ranges
pub mod Laws
mod Tests
use go_imap.Prelude.{
  ℕ, zero, suc, ◌+◌, ◌-◌, ◌%◌, Bool, true, false, List, [], ◌∷◌, ltb, ◌==◌, if◌then◌else◌, Option,
  none, some, min, max, length,
}
use go_imap.Strconv.{Bytes, split, cut, parse_uint}
use go_imap.NumSet.{Range, u32_mod, max_u32}
use go_imap.UidMapping.{UidPairRange, MappingError, validate}

-- A UID: ParseUint and the check against 0
abbrev nonzero : Option ℕ → Option ℕ
nonzero none = none
nonzero (some n) = if n == 0 then none else some n

abbrev parse_uid : Bytes → Option ℕ
parse_uid s = nonzero (parse_uint max_u32 s)

abbrev range_between : Option ℕ → Option ℕ → Option Range
range_between (some a) (some b) = some (record { start = min a b; stop = max a b })
range_between _ _ = none

abbrev item_of : Bytes → Option (Bytes × Bytes) → Option Range
item_of item (some (a, b)) = range_between (parse_uid a) (parse_uid b)
item_of item none = range_between (parse_uid item) (parse_uid item)

-- One item of the set
unfoldable pub parse_item : Bytes → Option Range
unfolding cut parse_uint
parse_item item = item_of item (cut b':' item)

abbrev add_item : Option Range → Option (List Range) → Option (List Range)
add_item (some r) (some rs) = some (r ∷ rs)
add_item _ _ = none

unfoldable pub parse_items : List Bytes → Option (List Range)
unfolding parse_item
parse_items [] = some []
parse_items (item ∷ items) = add_item (parse_item item) (parse_items items)

-- parseOrderedUIDSet
unfoldable pub parse_ordered_uid_set : Bytes → Option (List Range)
unfolding parse_items split
parse_ordered_uid_set s = parse_items (split b',' s)

abbrev add_pair : UidPairRange → Option (List UidPairRange) → Option (List UidPairRange)
add_pair p none = none
add_pair p (some m) = some (p ∷ m)

-- The loop of ParseUIDMapping on the ranges that are left, of which the first two are paired up to the offsets;
-- `none` is the error on unequal lengths.
unfoldable pub pair_ranges : ℕ → List Range → List Range → ℕ → ℕ → Option (List UidPairRange)
pair_ranges fuel [] [] so to = some []
pair_ranges fuel (s ∷ src) [] so to = none
pair_ranges fuel [] (d ∷ dst) so to = none
pair_ranges zero (s ∷ src) (d ∷ dst) so to = none
pair_ranges (suc fuel) (s ∷ src) (d ∷ dst) so to =
    let n = s.start + so in
    let k = d.start + to in
    let count = min (s.stop - n + 1) (d.stop - k + 1) in
    let src_done = ltb s.stop (n + count) in
    let dst_done = ltb d.stop (k + count) in
    add_pair
      (record {
        source = record { start = n % u32_mod; stop = (n + count - 1) % u32_mod };
        dest = record { start = k % u32_mod; stop = (k + count - 1) % u32_mod };
      })
      (pair_ranges fuel (if src_done then src else s ∷ src) (if dst_done then dst else d ∷ dst)
        (if src_done then 0 else so + count) (if dst_done then 0 else to + count))

abbrev if_valid : List UidPairRange → Option MappingError → Option (List UidPairRange)
if_valid m none = some m
if_valid m (some e) = none

abbrev checked : Option (List UidPairRange) → Option (List UidPairRange)
checked none = none
checked (some m) = if_valid m (validate m)

abbrev paired : Option (List Range) → Option (List Range) → Option (List UidPairRange)
paired (some src) (some dst) = checked (pair_ranges (length src + length dst) src dst 0 0)
paired _ _ = none

-- ParseUIDMapping; `none` is an error.
unfoldable pub parse_uid_mapping : Bytes → Bytes → Option (List UidPairRange)
unfolding parse_ordered_uid_set pair_ranges validate
parse_uid_mapping source dest = paired (parse_ordered_uid_set source) (parse_ordered_uid_set dest)
