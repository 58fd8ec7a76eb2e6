-- ===== src/MemUser/Metadata/Depth.antt =====
-- imapserver/imapmemserver/session.go: which entries a request of GETMETADATA covers, at each depth
use go_imap.Prelude.{
  ℕ, suc, zero, ◌≡◌, ◌∙◌, ◌↔◌, refl, sym, ap, true, false, ◌&&◌, [], ◌∷◌, ◌++◌, ltb, ◌==◌, Option,
  none, some, length, take, drop, take-append, drop-append, length-append, arith, Bool-cases,
  Option-cases, inl, inr, ◌⊎◌, List,
}
use go_imap.Strconv.{Bytes}
use go_imap.Strconv.Bytes.{same_bytes}
use go_imap.Acl.{has_byte}
use go_imap.MemUser.Names.{same_bytes_refl, same_bytes_eq}
use go_imap.MemUser.Metadata.{
  GetMetadataDepth, GetMetadataOptions, depth_zero, depth_one, depth_infinity, remainder,
  after_slash, is_below, depth_of, matches_with_depth,
}

remainder-append :
    (requested rest : Bytes) → remainder (requested ++ b'/' ∷ rest) requested ≡ some rest
unfolding remainder
remainder-append requested rest =
    let longer : ltb (length requested) (length (requested ++ b'/' ∷ rest)) ≡ true =
      ground (arith, length-append requested (b'/' ∷ rest)) in
    rw
      (
        longer,
        take-append requested (b'/' ∷ rest),
        same_bytes_refl requested,
        drop-append requested (b'/' ∷ rest),
      )
      refl

take-drop {ℓ} : {A : Type ℓ} (n : ℕ) (l : List A) → take n l ++ drop n l ≡ l
take-drop zero l = refl
take-drop (suc n) [] = refl
take-drop (suc n) (x ∷ l) = ap (λ k. x ∷ k) (take-drop n l)

after_slash-some : (l rest : Bytes) → after_slash l ≡ some rest → l ≡ b'/' ∷ rest
after_slash-some [] rest h = cc h
after_slash-some (c ∷ l) rest h = elim (Bool-cases (c == b'/')) [
  | inl y ↦
      let slash : c ≡ b'/' = ground (arith, y) in
      let same : l ≡ rest = cc (rw y at h) in rw (slash, same) refl
  | inr n ↦ cc (rw n at h)
]

remainder-some :
    (entry_name requested rest : Bytes)
    → remainder entry_name requested ≡ some rest
    → entry_name ≡ requested ++ b'/' ∷ rest
unfolding remainder
remainder-some entry_name requested rest h =
    let k = length requested in
    elim (Bool-cases (ltb k (length entry_name) && same_bytes (take k entry_name) requested)) [
      | inl y ↦
          let slash = after_slash-some (drop k entry_name) rest (rw y at h) in
          let starts : same_bytes (take k entry_name) requested ≡ true = ground (arith, y) in
          sym (take-drop k entry_name)
          ∙ ap (λ l. l ++ drop k entry_name) (same_bytes_eq (take k entry_name) requested starts)
          ∙ ap (λ l. requested ++ l) slash
      | inr n ↦ cc (rw n at h)
    ]

-- How far below a requested entry a depth reaches
abbrev pub Reaches : GetMetadataDepth → Bytes → Type 0
Reaches depth_zero rest = ⊥
Reaches depth_one rest = has_byte b'/' rest ≡ false
Reaches depth_infinity rest = Unit

is_below-some :
    (d : GetMetadataDepth) (rest : Bytes) → (is_below d (some rest) ≡ true) ↔ Reaches d rest
is_below-some depth_zero rest = ((λ h. cc h), λ h. absurd h)
is_below-some depth_one rest = ((λ h. ground (arith, h)), λ h. ground (arith, h))
is_below-some depth_infinity rest = ((λ h. tt), λ h. refl)

is_below-none : (d : GetMetadataDepth) → is_below d none ≡ false
is_below-none depth_zero = refl
is_below-none depth_one = refl
is_below-none depth_infinity = refl

-- An entry matches a request exactly if it has the requested name, or if its name goes on behind the requested one
-- with a slash and the depth reaches so far: depth 1 as long as no other slash follows, infinity always, 0
-- never. Without options the depth is 0.
pub matches_with_depth_lem :
    (entry_name requested : Bytes) (options : Option GetMetadataOptions)
    → (matches_with_depth entry_name requested options ≡ true) ↔ (
        (entry_name ≡ requested)
        ⊎ ((rest : Bytes) × (entry_name ≡ requested ++ b'/' ∷ rest)
            × Reaches (depth_of options) rest))
unfolding matches_with_depth
matches_with_depth_lem entry_name requested options =
    let d = depth_of options in
    (
      (λ h. elim (Bool-cases (same_bytes entry_name requested)) [
        | inl y ↦ inl (same_bytes_eq entry_name requested y)
        | inr n ↦ elim (Option-cases (remainder entry_name requested)) [
          | inl e ↦ cc (sym (is_below-none d) ∙ (rw (n, e) at h))
          | inr (rest, e) ↦ inr (
            rest,
            remainder-some entry_name requested rest e,
            (is_below-some d rest).0 (rw (n, e) at h),
          )
        ]
      ]),
      λ h. elim h [
        | inl e ↦ rw (e, same_bytes_refl requested) refl
        | inr (rest, e, r) ↦
            rw (e, remainder-append requested rest, (is_below-some d rest).1 r) (ground arith)
      ],
    )
