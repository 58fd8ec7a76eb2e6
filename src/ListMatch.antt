-- ===== src/ListMatch.antt =====
-- internal/listmatch.go: whether the pattern of a LIST command matches the name of a mailbox.
pub mod Reference
pub mod Program
pub mod Laws
mod Tests
use go_imap.Prelude.{
  ℕ, suc, ◌+◌, ◌-◌, ◌*◌, ◌/◌, ◌%◌, Bool, true, false, not, ◌&&◌, ◌||◌, List, [], ◌∷◌, ◌++◌, ltb,
  leb, ◌==◌, if◌then◌else◌, length, take, drop, get_or,
}
use go_imap.Strconv.Runes.{rune_string}
use go_imap.Strconv.{Bytes}
use go_imap.Strconv.Bytes.{same_bytes}

abbrev pub is_wildcard : ℕ → Bool
is_wildcard c = c == b'*' || c == b'%'

-- literals
unfoldable pub literals : Bytes → ℕ
literals [] = 0
literals (c ∷ p) = (if is_wildcard c then 0 else 1) + literals p

-- What one round of the loop over the pattern consumes: a literal byte, or a run of wildcards, with
-- whether "*" is among them
pub data Step : Type 0 where
  literal : ℕ → Step
  wildcard : Bool → Step

join_run : Bool → List Step → List Step
join_run star (wildcard star' ∷ ss) = wildcard (star || star') ∷ ss
join_run star ss = wildcard star ∷ ss

unfoldable pub steps : Bytes → List Step
unfolding join_run
steps [] = []
steps (c ∷ p) =
    let rest = steps p in if is_wildcard c then join_run (c == b'*') rest else literal c ∷ rest

-- next[j] for j ≥ 1 after a literal byte
unfoldable pub literal_cells : ℕ → Bytes → List Bool → List Bool
literal_cells c (x ∷ name) (b ∷ reach) = (b && x == c) ∷ literal_cells c name reach
literal_cells c _ _ = []

unfoldable pub any_true : List Bool → Bool
any_true [] = false
any_true (b ∷ bs) = b || any_true bs

module _ (star : Bool) (delim name : Bytes) (reach : List Bool) where
  -- A delimiter completes at `j`.
  unfoldable pub completes : ℕ → Bool
  unfolding same_bytes
  completes j =
      not star
      && (leb (length delim) j
          && (ltb 0 (length delim)
              && same_bytes (take (length delim) (drop (j - length delim) name)) delim))

  -- The positions behind the start of that delimiter
  unfoldable pub inside : ℕ → Bool
  unfolding any_true
  inside j = any_true (take (length delim - 1) (drop (j - length delim + 1) reach))

  -- next[j] and what follows, after a run of wildcards; `bs` are the cells of reach from `j` on.
  unfoldable pub wildcard_cells : ℕ → Bool → List Bool → List Bool
  unfolding completes inside
  wildcard_cells j acc [] = []
  wildcard_cells j acc (b ∷ bs) =
      let acc' = (if completes j then inside j else acc) || b in
      acc' ∷ wildcard_cells (j + 1) acc' bs

-- One round of the loop
unfoldable pub step : Bytes → Bytes → Step → List Bool → List Bool
unfolding literal_cells wildcard_cells
step name delim (literal c) reach = false ∷ literal_cells c name reach
step name delim (wildcard star) reach = wildcard_cells star delim name reach 0 false reach

-- The loop over the pattern
unfoldable pub run_steps : Bytes → Bytes → List Step → List Bool → Bool
unfolding step any_true
run_steps name delim [] reach = get_or reach (length name) false
run_steps name delim (s ∷ ss) reach =
    let next = step name delim s reach in
    let rest = run_steps name delim ss next in if any_true next then rest else false

abbrev all_false : Bytes → List Bool
all_false [] = []
all_false (x ∷ name) = false ∷ all_false name

-- matchList
unfoldable pub match_name : Bytes → Bytes → Bytes → Bool
unfolding literals run_steps steps
match_name name delim pattern_text =
    if ltb (length name) (literals pattern_text)
    then false
    else if literals pattern_text == length pattern_text
    then same_bytes name pattern_text
    else run_steps name delim (steps pattern_text) (true ∷ all_false name)

abbrev pub delim_string : ℕ → Bytes
delim_string delim = if delim == 0 then [] else rune_string delim

-- strings.HasPrefix and strings.HasSuffix
unfoldable pub has_prefix : Bytes → Bytes → Bool
unfolding same_bytes
has_prefix s p = same_bytes (take (length p) s) p

unfoldable pub has_suffix : Bytes → Bytes → Bool
unfolding same_bytes
has_suffix s p = leb (length p) (length s) && same_bytes (drop (length s - length p) s) p

-- The second half of MatchList: the reference is not overridden.
unfoldable pub match_below : Bytes → Bytes → Bytes → Bytes → Bool
unfolding match_name has_prefix has_suffix
match_below name d reference pattern_text =
    let reference' =
      if ltb 0 (length d) && not (has_suffix reference d) then reference ++ d else reference in
    if length reference == 0
    then match_name name d pattern_text
    else if has_prefix name reference'
    then match_name (drop (length reference') name) d pattern_text
    else false

-- MatchList
unfoldable pub match_list : Bytes → ℕ → Bytes → Bytes → Bool
unfolding match_below rune_string
match_list name delim reference pattern_text =
    let d = delim_string delim in
    if ltb 0 (length d) && has_prefix pattern_text d
    then match_below name d [] (drop (length d) pattern_text)
    else match_below name d reference pattern_text

-- MatchPattern
unfoldable pub match_pattern : Bytes → ℕ → Bytes → Bool
unfolding match_name rune_string
match_pattern name delim pattern_text = match_name name (delim_string delim) pattern_text
