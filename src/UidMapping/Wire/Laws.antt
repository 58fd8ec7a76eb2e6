-- ===== src/UidMapping/Wire/Laws.antt =====
-- ParseUIDMapping against the lists of the UIDs that it pairs.
use go_imap.Prelude.{ℕ, ◌+◌, ◌≡◌, ◌≢◌, refl, List, arith, Option, none, some, length}
use go_imap.Strconv.{Bytes}
use go_imap.NumSet.{Range}
use go_imap.UidMapping.{UidPairRange, pairs_of, validate}
use go_imap.UidMapping.Wire.{if_valid, checked, parse_ordered_uid_set, parse_uid_mapping}
use go_imap.UidMapping.Wire.Paired.{expand, zip, Paired, Within-zero, pair_ranges-Paired}
use go_imap.UidMapping.Wire.Ranges.{parse_ordered_uid_set-ranges}

checked-Paired :
    (o : Option (List UidPairRange)) (xs ys : List ℕ)
    → Paired o xs ys
    → (length xs ≢ length ys → checked o ≡ none)
      × (length xs ≡ length ys
          → (m : List UidPairRange) × (pairs_of m ≡ zip xs ys)
            × (checked o ≡ if_valid m (validate m)))
checked-Paired none xs ys p = ((λ n. refl), λ e. let bad = p e in elim bad [ ])
checked-Paired (some m) xs ys (e, z) = ((λ n. let bad = n e in elim bad [ ]), λ e'. (m, z, refl))

-- ParseUIDMapping on two texts that parse as sets of ranges: if one set has more UIDs than the other, it fails;
-- otherwise it makes the mapping that pairs the UIDs of the two sets one after the other, each range upwards
-- and the ranges in the order of the text, and returns it exactly if Validate accepts it.
pub parse_uid_mapping_lem :
    (source dest : Bytes) (src dst : List Range)
    → parse_ordered_uid_set source ≡ some src
    → parse_ordered_uid_set dest ≡ some dst
    → (length (expand src 0) ≢ length (expand dst 0) → parse_uid_mapping source dest ≡ none)
      × (length (expand src 0) ≡ length (expand dst 0)
          → (m : List UidPairRange) × (pairs_of m ≡ zip (expand src 0) (expand dst 0))
            × (parse_uid_mapping source dest ≡ if_valid m (validate m)))
unfolding parse_uid_mapping
parse_uid_mapping_lem source dest src dst e e' =
    let a = parse_ordered_uid_set-ranges source src e in
    let b = parse_ordered_uid_set-ranges dest dst e' in
    rw (e, e')
      (checked-Paired _ (expand src 0) (expand dst 0) (
        pair_ranges-Paired (length src + length dst) src dst 0 0 (omega arith) a b
          (Within-zero src a) (Within-zero dst b)))
