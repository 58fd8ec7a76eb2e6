-- ===== src/MemUser/Metadata/Tests.antt =====
-- imapserver/imapmemserver/session.go: annotations of a mailbox read and changed
use go_imap.Prelude.{
  ◌≡◌, ◌↔◌, ◌⊎◌, ◌++◌, refl, true, [], ◌∷◌, ltb, if◌then◌else◌, Option, none, some, length,
}
use go_imap.Strconv.{Bytes, codes}
use go_imap.MemUser.{User, new_user, server_metadata_change}
use go_imap.MemUser.Names.{lookup}
use go_imap.MemUser.Metadata.{
  Annotations, GetMetadataOptions, depth_infinity, depth_of, matches_with_depth, get_entries,
  get_metadata,
}
use go_imap.MemUser.Metadata.Change.{NewEntries, too_many, max_entries, set_entries, set_metadata}
use go_imap.MemUser.Metadata.Depth.{Reaches, matches_with_depth_lem}
use go_imap.MemUser.Metadata.Laws.{
  IsMap, answered, limit_of, any_match, wanted, get_entries_lem, set_entries_lem,
}

abbrev source : Annotations
source =
    (codes "/private/comment", codes "mine")
    ∷ (codes "/shared/comment", codes "ours")
    ∷ (codes "/shared/vendor/a", codes "long value")
    ∷ []

abbrev options : Option GetMetadataOptions
options = some (record { max_size = some 5; depth = depth_infinity })

abbrev shared : Bytes
shared = codes "/shared"

source-IsMap : IsMap source
unfolding lookup
source-IsMap = (refl, (refl, (refl, tt)))

get_entries_lem_example :
    lookup (codes "/shared/comment") (get_entries (shared ∷ []) options source).entries
    ≡ answered
        (any_match (codes "/shared/comment") (shared ∷ []) options)
        (limit_of options)
        (lookup (codes "/shared/comment") source)
get_entries_lem_example =
    get_entries_lem (codes "/shared/comment") shared [] options source source-IsMap

-- A value of four bytes is answered at a limit of four.
abbrev exact : Option GetMetadataOptions
exact = some (record { max_size = some 4; depth = depth_infinity })

test_get_entries :
    get_entries (shared ∷ []) exact source
    ≡ (record { entries = (codes "/shared/comment", codes "ours") ∷ []; long_entries = 10 })
unfolding get_entries
test_get_entries = refl

matches_with_depth_lem_example :
    (matches_with_depth (codes "/shared/vendor/a") shared options ≡ true) ↔ (
      (codes "/shared/vendor/a" ≡ shared)
      ⊎ ((rest : Bytes) × (codes "/shared/vendor/a" ≡ shared ++ b'/' ∷ rest)
          × Reaches (depth_of options) rest))
matches_with_depth_lem_example = matches_with_depth_lem (codes "/shared/vendor/a") shared options

abbrev changes : NewEntries
changes = (codes "/private/comment", none) ∷ (codes "/shared/comment", some (codes "new")) ∷ []

set_entries_lem_example :
    ((k : Bytes) → lookup k (set_entries source changes).0 ≡ wanted k changes (lookup k source))
    × ((set_entries source changes).1
        ≡ (if ltb max_entries (length (set_entries source changes).0) then some too_many else none))
set_entries_lem_example = (set_entries_lem source changes).0 refl

abbrev someone : User
someone = new_user (codes "me") (codes "secret")

-- The event names the entries in order.
test_set_metadata :
    (set_metadata [] ((codes "/b", some (codes "x")) ∷ (codes "/a", none) ∷ []) someone).0.events
    ≡ server_metadata_change (codes "/a" ∷ codes "/b" ∷ []) ∷ []
unfolding set_metadata
test_set_metadata = refl

test_get_metadata : get_metadata (codes "nowhere") [] none someone ≡ none
unfolding get_metadata
test_get_metadata = refl
