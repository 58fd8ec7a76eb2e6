-- ===== src/MemUser/Spec.antt =====
-- imapserver/imapmemserver/user.go: what the names promise, as a map from names to UIDVALIDITY values
use go_imap.Prelude.{ℕ, ◌+◌, Bool, List, [], ◌∷◌, if◌then◌else◌, Option, none, some}
use go_imap.Strconv.{Bytes}
use go_imap.Strconv.Bytes.{same_bytes}
use go_imap.MemUser.{
  User, UserError, non_existent, already_exists, create, delete, rename, set_subscribed, trim_right,
}

-- The operations that change the names
pub data Op : Type 0 where
  create_op delete_op : Bytes → Op
  rename_op : Bytes → Bytes → Op
  subscribe_op : Bytes → Bool → Op

unfoldable pub apply : Op → User → User × Option UserError
unfolding create delete rename set_subscribed
apply (create_op name) u = create name u
apply (delete_op name) u = delete name u
apply (rename_op old_name new_name) u = rename old_name new_name u
apply (subscribe_op name subscribed) u = set_subscribed name subscribed u

-- Which names there are, with their UIDVALIDITY values, and the last value given out
pub record Spec : Type 0 where
  pub at : Bytes → Option ℕ
  pub last : ℕ

abbrev pub at_name : Bytes → Option ℕ → (Bytes → Option ℕ) → Bytes → Option ℕ
at_name name v f k = if same_bytes name k then v else f k

-- A name without delimiters at its end gets a value that no mailbox had before.
abbrev pub spec_create : Option ℕ → Bytes → Spec → Spec × Option UserError
spec_create (some v) name s = (s, some already_exists)
spec_create none name s =
    (record s { at = at_name name (some (s.last + 1)) s.at; last = s.last + 1 }, none)

abbrev pub spec_delete : Option ℕ → Bytes → Spec → Spec × Option UserError
spec_delete none name s = (s, some non_existent)
spec_delete (some v) name s = (record s { at = at_name name none s.at }, none)

-- The value goes with the mailbox.
abbrev pub spec_rename : Option ℕ → Option ℕ → Bytes → Bytes → Spec → Spec × Option UserError
spec_rename none taken old_name new_name s = (s, some non_existent)
spec_rename (some v) (some w) old_name new_name s = (s, some already_exists)
spec_rename (some v) none old_name new_name s =
    (record s { at = at_name old_name none (at_name new_name (some v) s.at) }, none)

abbrev pub spec_subscribe : Option ℕ → Spec → Spec × Option UserError
spec_subscribe none s = (s, some non_existent)
spec_subscribe (some v) s = (s, none)

unfoldable pub spec : Op → Spec → Spec × Option UserError
unfolding trim_right
spec (create_op name) s = spec_create (s.at (trim_right name)) (trim_right name) s
spec (delete_op name) s = spec_delete (s.at name) name s
spec (rename_op old_name new_name) s =
    spec_rename (s.at old_name) (s.at (trim_right new_name)) old_name (trim_right new_name) s
spec (subscribe_op name subscribed) s = spec_subscribe (s.at name) s

-- The results of a sequence of operations
abbrev pub results : List Op → User → List (Option UserError)
results [] u = []
results (op ∷ ops) u = (apply op u).1 ∷ results ops (apply op u).0

abbrev pub spec_results : List Op → Spec → List (Option UserError)
spec_results [] s = []
spec_results (op ∷ ops) s = (spec op s).1 ∷ spec_results ops (spec op s).0
