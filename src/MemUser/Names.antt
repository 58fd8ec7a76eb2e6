-- ===== src/MemUser/Names.antt =====
-- Go's maps from texts, and the one from the names of mailboxes to the mailboxes, as lists in which no key occurs
-- twice
use go_imap.Prelude.{ℕ, ◌≡◌, refl, true, List, [], ◌∷◌, if◌then◌else◌, Option, none, some, arith}
use go_imap.Strconv.{Bytes}
use go_imap.Strconv.Bytes.{same_bytes, same_bytes_iff}

abbrev pub NameMap : Type 0
NameMap = List (Bytes × ℕ)

-- names[k]
unfoldable pub lookup {ℓ} : {A : Type ℓ} → Bytes → List (Bytes × A) → Option A
unfolding same_bytes
lookup k [] = none
lookup k ((j, p) ∷ names) = if same_bytes j k then some p else lookup k names

-- names[k] = p
unfoldable pub put {ℓ} : {A : Type ℓ} → Bytes → A → List (Bytes × A) → List (Bytes × A)
unfolding same_bytes
put k p [] = (k, p) ∷ []
put k p ((j, q) ∷ names) = if same_bytes j k then (k, p) ∷ names else (j, q) ∷ put k p names

-- delete(names, k)
unfoldable pub remove {ℓ} : {A : Type ℓ} → Bytes → List (Bytes × A) → List (Bytes × A)
unfolding same_bytes
remove k [] = []
remove k ((j, q) ∷ names) =
    let rest = remove k names in if same_bytes j k then rest else (j, q) ∷ rest

pub same_bytes_refl : (s : Bytes) → same_bytes s s ≡ true
same_bytes_refl s = (same_bytes_iff s s).1 refl

pub same_bytes_eq : (a b : Bytes) → same_bytes a b ≡ true → a ≡ b
same_bytes_eq a b h = (same_bytes_iff a b).0 h

pub lookup-put {ℓ} :
    {A : Type ℓ} (j k : Bytes) (p : A) (names : List (Bytes × A))
    → lookup j (put k p names) ≡ (if same_bytes k j then some p else lookup j names)
unfolding lookup put
lookup-put j k p [] = refl
lookup-put j k p ((i, q) ∷ names) =
    ground
      (arith, same_bytes_iff k j, same_bytes_iff i k, same_bytes_iff i j, lookup-put j k p names)

pub lookup-remove {ℓ} :
    {A : Type ℓ} (j k : Bytes) (names : List (Bytes × A))
    → lookup j (remove k names) ≡ (if same_bytes k j then none else lookup j names)
unfolding lookup remove
lookup-remove j k [] = ground arith
lookup-remove j k ((i, q) ∷ names) =
    ground
      (arith, same_bytes_iff k j, same_bytes_iff i k, same_bytes_iff i j, lookup-remove j k names)
