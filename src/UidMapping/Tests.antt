-- ===== src/UidMapping/Tests.antt =====
-- The theorems on COPYUID mappings at a concrete mapping.
use go_imap.Prelude.{◌≡◌, ◌≢◌, ◌↔◌, refl, List, [], ◌∷◌, arith, none, All}
use go_imap.UidMapping.{UidPairRange, validate}
use go_imap.UidMapping.Pairs.{IsPair}
use go_imap.UidMapping.Validity.{Counts, AllApart, sources, dests, validate_lem}

-- 10:12 was copied to 1:3, and 4 to 9.
abbrev copied : List UidPairRange
copied =
    (record { source = record { start = 4; stop = 4 }; dest = record { start = 9; stop = 9 } })
    ∷ (record { source = record { start = 10; stop = 12 }; dest = record { start = 1; stop = 3 } })
    ∷ []

copied-IsPair : All IsPair copied
copied-IsPair = (
  record {
    source_pos = omega arith;
    dest_pos = omega arith;
    source_up = omega arith;
    dest_up = omega arith;
    same_length = refl;
    source_fits = omega arith;
    dest_fits = omega arith;
  },
  (
    record {
      source_pos = omega arith;
      dest_pos = omega arith;
      source_up = omega arith;
      dest_up = omega arith;
      same_length = refl;
      source_fits = omega arith;
      dest_fits = omega arith;
    },
    tt,
  ),
)

validate_lem_example :
    (validate copied ≡ none)
    ↔ (copied ≢ []) × All Counts copied × AllApart (sources copied) × AllApart (dests copied)
validate_lem_example = validate_lem copied
