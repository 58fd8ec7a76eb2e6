-- ===== src/MemUser/Tests.antt =====
-- imapserver/imapmemserver/user.go: a user who makes, renames and deletes mailboxes
use go_imap.Prelude.{◌≡◌, refl, none, some, List, [], ◌∷◌, arith}
use go_imap.Strconv.{codes}
use go_imap.MemUser.{User, new_user, non_existent, already_exists}
use go_imap.MemUser.Names.{lookup}
use go_imap.MemUser.Spec.{Op, create_op, delete_op, rename_op, apply, Spec, results, spec_results}
use go_imap.MemUser.Laws.{IsUser}
use go_imap.MemUser.Values.{Refines}
use go_imap.MemUser.Refines.{results-spec_results}

abbrev someone : User
someone = new_user (codes "me") (codes "secret")

someone-IsUser : IsUser someone
unfolding lookup
someone-IsUser = record { named = λ k p h. cc h; fresh = tt }

abbrev nothing : Spec
nothing = record { at = λ k. none; last = 0 }

someone-Refines : Refines someone nothing
unfolding lookup
someone-Refines = record { values = λ k. refl; counter = refl }

abbrev ops : List Op
ops =
    create_op (codes "a/b/")
    ∷ rename_op (codes "a/b") (codes "c")
    ∷ create_op (codes "a/b")
    ∷ rename_op (codes "c") (codes "a/b")
    ∷ delete_op (codes "d")
    ∷ []

results-spec_results_example : results ops someone ≡ spec_results ops nothing
results-spec_results_example =
    results-spec_results ops someone nothing someone-IsUser (omega arith) someone-Refines

test_results :
    results ops someone ≡ none ∷ none ∷ none ∷ some already_exists ∷ some non_existent ∷ []
unfolding apply
test_results = refl
