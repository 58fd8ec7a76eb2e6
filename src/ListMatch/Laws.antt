-- ===== src/ListMatch/Laws.antt =====
-- matchList and MatchList against the reference.
use go_imap.Prelude.{
  ◌⊎◌, ℕ, suc, ◌-◌, ◌<◌, ◌≡◌, ◌≢◌, ◌↔◌, ◌∙◌, refl, sym, Bool, true, false, not, ◌&&◌, [], ◌∷◌, ◌++◌,
  arith, ltb, leb, ◌==◌, if◌then◌else◌, Option, none, some, length, drop, Bool-cases, inl, inr,
}
use go_imap.Strconv.{Bytes}
use go_imap.Strconv.Bytes.{same_bytes}
use go_imap.Strconv.Runes.{rune_string}
use go_imap.ListMatch.{
  steps, match_name, delim_string, has_prefix, has_suffix, match_below, match_list,
}
use go_imap.ListMatch.Reference.{glob, glob_steps-steps, literals-glob, glob-literal}
use go_imap.ListMatch.Program.{delim_bytes, run_steps-glob_steps}

-- matchList, where the hierarchy delimiter is one byte or there is none: the dynamic programme, with its two
-- early answers, finds a match exactly if the search with backtracking does, in which "*" absorbs any
-- bytes and "%" any bytes but the delimiter.
pub match_name-glob :
    (name pattern_text : Bytes) (d : Option ℕ)
    → match_name name (delim_bytes d) pattern_text ≡ glob d pattern_text name
unfolding match_name
match_name-glob name p d =
    let long = literals-glob d p name in
    let same = glob-literal d p name in
    let program = run_steps-glob_steps name d (steps p) ∙ glob_steps-steps d p name in
    ground (arith, long, same, program)

-- The delimiter of an ASCII rune
abbrev pub delim_of : ℕ → Option ℕ
delim_of delim = if delim == 0 then none else some delim

delim_string-bytes : (delim : ℕ) → delim < 128 → delim_string delim ≡ delim_bytes (delim_of delim)
unfolding rune_string
delim_string-bytes delim h =
    let t : ltb delim 128 ≡ true = ground arith in
    elim (Bool-cases (delim == 0)) [ inl z ↦ rw z refl | inr z ↦ rw (z, t) refl ]

-- The text ends in the byte.
abbrev pub ends_in : ℕ → Bytes → Bool
ends_in c [] = false
ends_in c (x ∷ []) = x == c
ends_in c (x ∷ y ∷ s) = ends_in c (y ∷ s)

-- The reference, closed by the delimiter.
abbrev pub closed : Option ℕ → Bytes → Bytes
closed none r = r
closed (some d) r = if ends_in d r then r else r ++ d ∷ []

has_suffix-ends_in : (c : ℕ) (r : Bytes) → has_suffix r (c ∷ []) ≡ ends_in c r
unfolding has_suffix same_bytes
has_suffix-ends_in c [] = refl
has_suffix-ends_in c (x ∷ []) = ground arith
has_suffix-ends_in c (x ∷ y ∷ s) =
    let n = length s in
    let e : suc (suc n) - 1 ≡ suc n = omega arith in
    let e' : suc n - 1 ≡ n = omega arith in
    let ih = has_suffix-ends_in c (y ∷ s) in
    let t : leb 1 (suc (suc n)) ≡ true = ground arith in
    let t' : leb 1 (suc n) ≡ true = ground arith in rw (e, t) (rw (e', t') at ih)

prefix-drop : (s p : Bytes) → has_prefix s p ≡ true → s ≡ p ++ drop (length p) s
unfolding has_prefix same_bytes
prefix-drop s [] h = refl
prefix-drop [] (c ∷ p) h = ground (arith, h)
prefix-drop (x ∷ s) (c ∷ p) h = ground (arith, h, prefix-drop s p)

prefix-append : (p s : Bytes) → has_prefix (p ++ s) p ≡ true
unfolding has_prefix same_bytes
prefix-append [] s = refl
prefix-append (c ∷ p) s = ground (arith, prefix-append p s)

drop-append : (p s : Bytes) → drop (length p) (p ++ s) ≡ s
drop-append [] s = refl
drop-append (c ∷ p) s = drop-append p s

reference-closed :
    (r : Bytes) (d : Option ℕ)
    → (if ltb 0 (length (delim_bytes d)) && not (has_suffix r (delim_bytes d))
        then r ++ delim_bytes d
        else r)
      ≡ closed d r
reference-closed r none = refl
reference-closed r (some c) = rw (has_suffix-ends_in c r) (ground arith)

length-ne : (r : Bytes) → r ≢ [] → (length r == 0) ≡ false
length-ne [] h = let bad = h refl in elim bad [ ]
length-ne (x ∷ r) h = ground arith

false-ne : false ≡ true → ⊥
false-ne e = cc

if_prefix :
    (name r p : Bytes) (d : Option ℕ)
    → ((if has_prefix name r then match_name (drop (length r) name) (delim_bytes d) p else false)
        ≡ true)
      ↔ ((rest : Bytes) × (name ≡ r ++ rest) × (glob d p rest ≡ true))
if_prefix name r p d = (
  (λ e. elim (Bool-cases (has_prefix name r)) [
    | inl y ↦ (
      drop (length r) name,
      prefix-drop name r y,
      sym (match_name-glob (drop (length r) name) p d) ∙ rw y at e,
    )
    | inr n ↦ (let bad : false ≡ true = rw n at e in elim (false-ne bad) [ ])
  ]),
  λ (rest, e, g). rw (e, prefix-append r rest, drop-append r rest) (match_name-glob rest p d ∙ g),
)

match_below-reference :
    (name r p : Bytes) (d : Option ℕ)
    → r ≢ []
    → (match_below name (delim_bytes d) r p ≡ true)
      ↔ ((rest : Bytes) × (name ≡ closed d r ++ rest) × (glob d p rest ≡ true))
unfolding match_below
match_below-reference name r p d h =
    rw (length-ne r h, reference-closed r d) (if_prefix name (closed d r) p d)

match_below-empty :
    (name p : Bytes) (d : Option ℕ) → match_below name (delim_bytes d) [] p ≡ glob d p name
unfolding match_below
match_below-empty name p d = match_name-glob name p d

plain_prefix :
    (delim : ℕ) (p : Bytes)
    → (delim ≡ 0) ⊎ (has_prefix p (delim ∷ []) ≡ false)
    → (ltb 0 (length (delim_bytes (delim_of delim))) && has_prefix p (delim_bytes (delim_of delim)))
      ≡ false
plain_prefix delim p (inl z) = rw z refl
plain_prefix delim p (inr n) = elim (Bool-cases (delim == 0)) [
  | inl z ↦ rw z refl
  | inr z ↦ rw (z, n) refl
]

starts_with : (c : ℕ) (p : Bytes) → has_prefix (c ∷ p) (c ∷ []) ≡ true
unfolding has_prefix same_bytes
starts_with c p = ground arith

-- MatchList, where the delimiter is an ASCII rune or 0 for none. A pattern that starts with the delimiter
-- overrides the reference: what follows the delimiter is matched against the whole name. Any other
-- pattern is matched against the whole name if the reference is empty, and otherwise against what follows
-- the reference, closed by a delimiter, in a name that starts with it.
pub match_list_lem :
    (name reference pattern_text : Bytes) (delim : ℕ)
    → delim < 128
    → ((p : Bytes)
        → delim ≢ 0
        → pattern_text ≡ delim ∷ p
        → match_list name delim reference pattern_text ≡ glob (some delim) p name)
      × ((delim ≡ 0) ⊎ (has_prefix pattern_text (delim ∷ []) ≡ false)
          → (reference ≡ []
              → match_list name delim reference pattern_text
                ≡ glob (delim_of delim) pattern_text name)
            × (reference ≢ []
                → (match_list name delim reference pattern_text ≡ true) ↔ (
                    (rest : Bytes) × (name ≡ closed (delim_of delim) reference ++ rest)
                    × (glob (delim_of delim) pattern_text rest ≡ true))))
unfolding match_list
match_list_lem name r p delim h =
    let e = delim_string-bytes delim h in
    (
      (λ q n z.
          let o : delim_of delim ≡ some delim = ground arith in
          rw (e, z, o, starts_with delim q) (match_below-empty name q (some delim))),
      λ c.
          let stay : (ltb 0 (length (delim_bytes (delim_of delim)))
                && has_prefix p (delim_bytes (delim_of delim)))
              ≡ false =
            plain_prefix delim p c in
          (
            (λ z. rw (e, stay, z) (match_below-empty name p (delim_of delim))),
            λ n. rw (e, stay) (match_below-reference name r p (delim_of delim) n),
          ),
    )
