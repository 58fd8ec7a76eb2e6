-- ===== src/MemMailbox/Flags.antt =====
-- The flags of a message as a set of texts.
use go_imap.Prelude.{◌≡◌, refl, Bool, false, not, ◌&&◌, ◌||◌, List, [], ◌∷◌, arith}
use go_imap.Strconv.{Bytes}
use go_imap.Strconv.Bytes.{same_bytes, same_bytes_iff, member}
use go_imap.MemMailbox.{canonical_flag, add_flag, remove_flag, add_flags, remove_flags}

-- Some flag of the list has the canonical form `f`.
abbrev pub names : Bytes → List Bytes → Bool
names f [] = false
names f (g ∷ fs) = same_bytes f (canonical_flag g) || names f fs

member-add_flag :
    (f g : Bytes) (fs : List Bytes) → member f (add_flag g fs) ≡ (member f fs || same_bytes f g)
unfolding add_flag member
member-add_flag f g fs = ground (arith, same_bytes_iff f g, member_same f g fs)
  where
    member_same : (f g : Bytes) (fs : List Bytes) → f ≡ g → member f fs ≡ member g fs
    member_same f g fs e = rw e refl

member-remove_flag :
    (f g : Bytes) (fs : List Bytes)
    → member f (remove_flag g fs) ≡ (member f fs && not (same_bytes f g))
unfolding remove_flag member
member-remove_flag f g [] = refl
member-remove_flag f g (h ∷ fs) =
    ground
      (arith, same_bytes_iff f g, same_bytes_iff g h, same_bytes_iff f h, member-remove_flag f g fs)

-- Adding flags makes the union, up to case.
pub member-add_flags :
    (f : Bytes) (new fs : List Bytes) → member f (add_flags new fs) ≡ (member f fs || names f new)
unfolding add_flags
member-add_flags f [] fs = ground arith
member-add_flags f (g ∷ new) fs = ground (
  arith,
  member-add_flags f new (add_flag (canonical_flag g) fs),
  member-add_flag f (canonical_flag g) fs,
)

-- Removing flags makes the difference, up to case.
pub member-remove_flags :
    (f : Bytes) (old fs : List Bytes)
    → member f (remove_flags old fs) ≡ (member f fs && not (names f old))
unfolding remove_flags
member-remove_flags f [] fs = ground arith
member-remove_flags f (g ∷ old) fs = ground (
  arith,
  member-remove_flags f old (remove_flag (canonical_flag g) fs),
  member-remove_flag f (canonical_flag g) fs,
)
