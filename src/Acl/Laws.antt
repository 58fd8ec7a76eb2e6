-- ===== src/Acl/Laws.antt =====
-- Sets of rights as sets.
use go_imap.Prelude.{
  Bool-cases, inl, inr, ℕ, ◌<◌, ◌≡◌, ◌↔◌, ◌∙◌, refl, sym, true, not, ◌&&◌, ◌||◌, [], ◌∷◌, ◌++◌,
  arith, ltb, All,
}
use go_imap.Strconv.{Bytes}
use go_imap.Acl.{
  has_byte, contains_rune, add_rights, rights_add, rights_remove, rights_within, rights_equal,
}

abbrev pub IsAscii : Bytes → Type 0
IsAscii s = All (λ c. c < 128) s

contains_rune-has_byte : (s : Bytes) (c : ℕ) → c < 128 → contains_rune s c ≡ has_byte c s
unfolding contains_rune
contains_rune-has_byte s c h = let t : ltb c 128 ≡ true = ground arith in rw t refl

has_byte-append : (c : ℕ) (s t : Bytes) → has_byte c (s ++ t) ≡ (has_byte c s || has_byte c t)
has_byte-append c [] t = refl
has_byte-append c (x ∷ s) t = ground (arith, has_byte-append c s t)

has_byte-add_rights :
    (c : ℕ) (r rights new : Bytes)
    → IsAscii rights
    → (has_byte c r ≡ true → has_byte c new ≡ true)
    → has_byte c (add_rights r rights new) ≡ (has_byte c new || has_byte c rights)
unfolding add_rights
has_byte-add_rights c r [] new a h = ground arith
has_byte-add_rights c r (x ∷ rights) new (b, a) h =
    let e = contains_rune-has_byte r x b in
    let f = has_byte-append c new (x ∷ []) in
    let there : x ≡ c → has_byte x r ≡ has_byte c r = λ q. rw q refl in
    elim (Bool-cases (contains_rune r x)) [
      | inl y ↦ rw y (has_byte-add_rights c r rights new a h ∙ ground (arith, e, y, h, there))
      | inr n ↦ rw n (
          has_byte-add_rights c r rights (new ++ x ∷ []) a (λ q. ground (arith, f, h, q))
          ∙ ground (arith, f))
    ]

has_byte-remove :
    (c : ℕ) (r rights : Bytes)
    → IsAscii r
    → has_byte c (rights_remove r rights) ≡ (has_byte c r && not (has_byte c rights))
unfolding rights_remove
has_byte-remove c [] rights a = refl
has_byte-remove c (x ∷ r) rights (b, a) =
    let e = contains_rune-has_byte rights x b in
    let there : x ≡ c → has_byte x rights ≡ has_byte c rights = λ q. rw q refl in
    ground (arith, e, there, has_byte-remove c r rights a)

rights_within_iff :
    (r s : Bytes)
    → IsAscii r
    → (rights_within r s ≡ true) ↔ ((c : ℕ) → has_byte c r ≡ true → has_byte c s ≡ true)
unfolding rights_within
rights_within_iff [] s a = ((λ e c h. cc), λ f. refl)
rights_within_iff (x ∷ r) s (b, a) =
    let e = contains_rune-has_byte s x b in
    let (f, g) = rights_within_iff r s a in
    (
      (λ y c h.
          let there : x ≡ c → has_byte x s ≡ has_byte c s = λ q. rw q refl in
          let tail : rights_within r s ≡ true = ground (arith, y) in
          ground (arith, e, y, h, there, f tail c)),
      λ k.
          let head : has_byte x (x ∷ r) ≡ true = ground arith in
          let tail = g (λ c h. k c (ground (arith, h))) in ground (arith, e, k x head, tail),
    )

-- Sets of ASCII rights: Add is the union, Remove the difference, and Equal holds exactly if both sets
-- have the same members, whatever the order and the repetitions of their rights.
pub right_set_lem :
    (r s : Bytes)
    → IsAscii r
    → IsAscii s
    → ((c : ℕ) → has_byte c (rights_add r s) ≡ (has_byte c r || has_byte c s))
      × ((c : ℕ) → has_byte c (rights_remove r s) ≡ (has_byte c r && not (has_byte c s)))
      × ((rights_equal r s ≡ true) ↔ ((c : ℕ) → has_byte c r ≡ has_byte c s))
unfolding rights_add rights_equal
right_set_lem r s a b =
    let (f, g) = rights_within_iff r s a in
    let (h, k) = rights_within_iff s r b in
    (
      (λ c. has_byte-add_rights c r s r b (λ q. q)),
      (λ c. has_byte-remove c r s a),
      (
        (λ e c.
            let x : rights_within r s ≡ true = ground (arith, e) in
            let y : rights_within s r ≡ true = ground (arith, e) in ground (arith, f x c, h y c)),
        λ e. ground (arith, g (λ c q. sym (e c) ∙ q), k (λ c q. e c ∙ q)),
      ),
    )
