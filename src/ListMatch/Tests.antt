-- ===== src/ListMatch/Tests.antt =====
-- The matching of mailbox names at concrete patterns.
use go_imap.Prelude.{ℕ, ◌≡◌, refl, true, false, [], ◌∷◌, some}
use go_imap.Strconv.{codes}
use go_imap.Strconv.Bytes.{same_bytes}
use go_imap.ListMatch.{
  match_name, literals, steps, join_run, run_steps, step, any_true, literal_cells, wildcard_cells,
  completes, inside, has_prefix,
}
use go_imap.ListMatch.Reference.{glob}
use go_imap.ListMatch.Laws.{match_name-glob}

two_levels : match_name (codes "a/b/c") (codes "/") (codes "a/%c") ≡ false
unfolding match_name literals steps join_run run_steps step any_true literal_cells wildcard_cells
    completes inside same_bytes
two_levels = refl

run_of_wildcards : match_name (codes "a/b/c") (codes "/") (codes "a%*c") ≡ true
unfolding match_name literals steps join_run run_steps step any_true literal_cells wildcard_cells
    completes inside same_bytes
run_of_wildcards = refl

match_name-glob_example :
    match_name (codes "a/b/c") (codes "/") (codes "a/%")
    ≡ glob (some b'/') (codes "a/%") (codes "a/b/c")
match_name-glob_example = match_name-glob (codes "a/b/c") (codes "a/%") (some b'/')

abbrev delim_byte : ℕ
delim_byte = b'/'

plain : has_prefix (codes "b%") (b'/' ∷ []) ≡ false
unfolding has_prefix same_bytes
plain = refl
