-- ===== src/UidMapping/Wire/Tests.antt =====
-- ParseUIDMapping at a concrete response code.
use go_imap.Prelude.{◌≡◌, ◌≢◌, refl, List, [], ◌∷◌, some, none, length}
use go_imap.Strconv.{codes, split, cut, parse_uint, scan}
use go_imap.NumSet.{Range}
use go_imap.UidMapping.{UidPairRange, pairs_of, validate}
use go_imap.UidMapping.Wire.{
  parse_item, parse_items, parse_ordered_uid_set, parse_uid_mapping, if_valid,
}
use go_imap.UidMapping.Wire.Paired.{expand, zip}
use go_imap.UidMapping.Wire.Laws.{parse_uid_mapping_lem}

abbrev sources : List Range
sources = (record { start = 10; stop = 12 }) ∷ (record { start = 4; stop = 4 }) ∷ []

abbrev dests : List Range
dests = (record { start = 1; stop = 2 }) ∷ (record { start = 8; stop = 9 }) ∷ []

read_sources : parse_ordered_uid_set (codes "12:10,4") ≡ some sources
unfolding parse_ordered_uid_set parse_items parse_item split cut parse_uint scan
read_sources = refl

read_dests : parse_ordered_uid_set (codes "1:2,8:9") ≡ some dests
unfolding parse_ordered_uid_set parse_items parse_item split cut parse_uint scan
read_dests = refl

parse_uid_mapping_lem_example :
    (length (expand sources 0) ≢ length (expand dests 0)
      → parse_uid_mapping (codes "12:10,4") (codes "1:2,8:9") ≡ none)
    × (length (expand sources 0) ≡ length (expand dests 0)
        → (m : List UidPairRange) × (pairs_of m ≡ zip (expand sources 0) (expand dests 0))
          × (parse_uid_mapping (codes "12:10,4") (codes "1:2,8:9") ≡ if_valid m (validate m)))
parse_uid_mapping_lem_example =
    parse_uid_mapping_lem (codes "12:10,4") (codes "1:2,8:9") sources dests read_sources read_dests
