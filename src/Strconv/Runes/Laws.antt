-- ===== src/Strconv/Runes/Laws.antt =====
-- A rune is read back from its UTF-8 text.
use go_imap.Prelude.{
  ℕ, zero, suc, ◌≡◌, refl, ◌<◌, ◌≤◌, ◌⊎◌, inl, inr, Bool-cases, true, false, ◌&&◌, ◌||◌, [], ◌∷◌,
  ◌++◌, ltb, leb, length, arith, All,
}
use go_imap.Strconv.{Bytes}
use go_imap.Strconv.Runes.{rune_string, decode_rune, valid_string, valid_runes}

-- A Unicode scalar value
abbrev pub IsScalar : ℕ → Type 0
IsScalar r = (r < 0xd800) ⊎ ((0xe000 ≤ r) × (r ≤ 0x10ffff))

decode_rune-two :
    (r : ℕ) (t : Bytes)
    → 0x80 ≤ r
    → r < 0x800
    → decode_rune (rune_string r ++ t) ≡ (r, length (rune_string r))
unfolding decode_rune rune_string
decode_rune-two r t lo hi =
    let e : ltb r 0x80 ≡ false = ground arith in
    let e' : ltb r 0x800 ≡ true = ground arith in rw (e, e') (ground arith)

decode_rune-three :
    (r : ℕ) (t : Bytes)
    → IsScalar r
    → 0x800 ≤ r
    → r < 0x10000
    → decode_rune (rune_string r ++ t) ≡ (r, length (rune_string r))
unfolding decode_rune rune_string
decode_rune-three r t h lo hi =
    let e : ltb r 0x80 ≡ false = ground arith in
    let e' : ltb r 0x800 ≡ false = ground arith in
    let f : (ltb 0x10ffff r || leb 0xd800 r && ltb r 0xe000) ≡ false = ground arith in
    let g : ltb r 0x10000 ≡ true = ground arith in rw (e, e', f, g) (ground arith)

decode_rune-four :
    (r : ℕ) (t : Bytes)
    → 0x10000 ≤ r
    → r ≤ 0x10ffff
    → decode_rune (rune_string r ++ t) ≡ (r, length (rune_string r))
unfolding decode_rune rune_string
decode_rune-four r t lo hi =
    let e : ltb r 0x80 ≡ false = ground arith in
    let e' : ltb r 0x800 ≡ false = ground arith in
    let f : (ltb 0x10ffff r || leb 0xd800 r && ltb r 0xe000) ≡ false = ground arith in
    let g : ltb r 0x10000 ≡ false = ground arith in rw (e, e', f, g) (ground arith)

pub decode_rune-rune_string :
    (r : ℕ) (t : Bytes)
    → IsScalar r
    → decode_rune (rune_string r ++ t) ≡ (r, length (rune_string r))
unfolding decode_rune rune_string
decode_rune-rune_string r t h = elim (Bool-cases (ltb r 0x80)) [
  | inl e ↦ rw (e) (ground arith)
  | inr e ↦ elim (Bool-cases (ltb r 0x800)) [
    | inl e' ↦ decode_rune-two r t (ground arith) (ground arith)
    | inr e' ↦ elim (Bool-cases (ltb r 0x10000)) [
      | inl f ↦ decode_rune-three r t h (ground arith) (ground arith)
      | inr f ↦ decode_rune-four r t (ground arith) (ground (arith, h))
    ]
  ]
]

-- The first byte is there; it is that of the rune if that is in ASCII, and beyond ASCII if the rune is.
pub rune_string-starts :
    (r : ℕ)
    → ((r < 0x80) × (rune_string r ≡ r ∷ []))
      ⊎ ((0x80 ≤ r) × All (λ b. 0x80 ≤ b) (rune_string r) × (0 < length (rune_string r)))
unfolding rune_string
rune_string-starts r = ground arith

valid_runes-ascii :
    (fuel : ℕ) (s : Bytes) → All (λ b. b < 0x80) s → length s ≡ fuel → valid_runes fuel s ≡ true
unfolding valid_runes decode_rune
valid_runes-ascii zero s h e = ground (arith, e)
valid_runes-ascii (suc fuel) [] h e = refl
valid_runes-ascii (suc fuel) (a ∷ s) (ha, hs) e =
    let small : ltb a 0x80 ≡ true = ground arith in
    rw small (ground (arith, valid_runes-ascii fuel s hs (omega arith)))

pub valid_string-ascii : (s : Bytes) → All (λ b. b < 0x80) s → valid_string s ≡ true
unfolding valid_string
valid_string-ascii s h = valid_runes-ascii (length s) s h refl
