-- ===== src/MemUser/Store.antt =====
-- imapserver/imapmemserver/user.go: reads and writes through the places of mailboxes
use go_imap.Prelude.{
  ℕ, zero, suc, ◌<◌, ◌≡◌, refl, List, [], ◌∷◌, ◌++◌, ◌==◌, if◌then◌else◌, Option, none, some,
  length, get_elem?, set, arith, Bool-cases, Option-cases, inl, inr,
}
use go_imap.Strconv.{Bytes}
use go_imap.MemUser.{Entry, update_entry}

module _ {ℓ} {A : Type ℓ} where
  pub get_elem?-append :
      (xs : List A) (y : A) (p : ℕ) → p < length xs → get_elem? (xs ++ y ∷ []) p ≡ get_elem? xs p
  get_elem?-append [] y p h = absurd (omega (arith, h))
  get_elem?-append (x ∷ xs) y zero h = refl
  get_elem?-append (x ∷ xs) y (suc p) h = get_elem?-append xs y p (omega arith)

  pub get_elem?_last : (xs : List A) (y : A) → get_elem? (xs ++ y ∷ []) (length xs) ≡ some y
  get_elem?_last [] y = refl
  get_elem?_last (x ∷ xs) y = get_elem?_last xs y

  pub get_elem?_bound : (xs : List A) (p : ℕ) (x : A) → get_elem? xs p ≡ some x → p < length xs
  get_elem?_bound [] p x h = cc h
  get_elem?_bound (y ∷ xs) zero x h = omega arith
  get_elem?_bound (y ∷ xs) (suc p) x h = omega (arith, get_elem?_bound xs p x h)

  pub get_elem?-set :
      (xs : List A) (p q : ℕ) (v : A)
      → p < length xs
      → get_elem? (set xs p v) q ≡ (if p == q then some v else get_elem? xs q)
  get_elem?-set [] p q v h = absurd (omega (arith, h))
  get_elem?-set (x ∷ xs) zero zero v h = ground arith
  get_elem?-set (x ∷ xs) zero (suc q) v h = ground arith
  get_elem?-set (x ∷ xs) (suc p) zero v h = ground arith
  get_elem?-set (x ∷ xs) (suc p) (suc q) v h = ground (arith, get_elem?-set xs p q v)

abbrev pub on_entry {ℓ} : {A : Type ℓ} → (Entry → A) → Option Entry → Option A
on_entry f none = none
on_entry f (some e) = some (f e)

pub get_elem?-update_entry :
    (f : Entry → Entry) (p q : ℕ) (store : List Entry)
    → get_elem? (update_entry f p store) q
      ≡ (if p == q then on_entry f (get_elem? store q) else get_elem? store q)
unfolding update_entry
get_elem?-update_entry f p q store = elim (Option-cases (get_elem? store p)) [
  | inl e ↦ rw e (elim (Bool-cases (p == q)) [
    | inl same ↦ let pq : p ≡ q = ground (arith, same) in rw same (rw (rw pq at e))
    | inr other ↦ rw other
  ])
  | inr (x, e) ↦
      rw (e, get_elem?-set store p q (f x) (get_elem?_bound store p x e))
        (elim (Bool-cases (p == q)) [
          | inl same ↦ let pq : p ≡ q = ground (arith, same) in rw same (rw (rw pq at e))
          | inr other ↦ rw other
        ])
]

-- The name that the mailbox at a place has
abbrev pub name_at : List Entry → ℕ → Option Bytes
name_at store p = on_entry (λ e. e.name) (get_elem? store p)
