-- ===== src/NumSet/Text.antt =====
-- The printers and parsers of internal/imapnum/numset.go, over bytes. An error of the source is `none`.
pub mod RoundTrip
pub mod Charset
use go_imap.Prelude.{
  ℕ, ◌≡◌, refl, Bool, true, false, not, ◌&&◌, ◌||◌, List, [], ◌∷◌, ◌++◌, ltb, ◌==◌, if◌then◌else◌,
  Option, none, some, drop,
}
use go_imap.Strconv.{Bytes, codes, format_uint, parse_uint, split, cut}
use go_imap.NumSet.{Range, Set, max_u32, insert, add_range, merge, less}

-- Range.String
unfoldable pub range_string : Range → Bytes
range_string s =
    if s.start == s.stop
    then (if s.start == 0 then b'*' ∷ [] else format_uint s.start)
    else format_uint s.start ++ b':' ∷ (if s.stop == 0 then b'*' ∷ [] else format_uint s.stop)

-- What one round of the loop of Set.String appends behind the comma
element : Range → Bytes
element v =
    if v.start == 0
    then b'*' ∷ []
    else format_uint v.start
      ++ (if v.start == v.stop
          then []
          else b':' ∷ (if v.stop == 0 then b'*' ∷ [] else format_uint v.stop))

elements : Set → Bytes
elements [] = []
elements (v ∷ s) = b',' ∷ (element v ++ elements s)

-- Set.String
unfoldable pub set_string : Set → Bytes
unfolding elements element
set_string [] = []
set_string (v ∷ s) = drop 1 (elements (v ∷ s))

-- v == "*"
star : Bytes → Option ℕ
star (c ∷ []) = if c == b'*' then some 0 else none
star _ = none

-- v[0] != '0'
leading_zero : Bytes → Bool
leading_zero [] = false
leading_zero (c ∷ s) = c == b'0'

-- parseNum
unfoldable pub parse_num : Bytes → Option ℕ
unfolding star leading_zero
parse_num v = elim (parse_uint max_u32 v) [
  | some n ↦ if leading_zero v then star v else some n
  | none ↦ star v
]

-- The ends of a parsed range, put in order
range_of : ℕ → ℕ → Range
range_of a b =
    if ltb b a && not (b == 0) || a == 0
    then record { start = b; stop = a }
    else record { start = a; stop = b }

-- The two ends of "n:m"
parse_ends : Option ℕ → Option ℕ → Option Range
parse_ends (some a) (some b) = some (range_of a b)
parse_ends _ _ = none

-- parseNumRange
unfoldable pub parse_num_range : Bytes → Option Range
unfolding parse_num range_of parse_ends
parse_num_range v = elim (cut b':' v) [
  | none ↦ elim (parse_num v) [ none ↦ none | some n ↦ some (record { start = n; stop = n }) ]
  | some (a, b) ↦ parse_ends (parse_num a) (parse_num b)
]

parse_parts : Set → List Bytes → Option Set
parse_parts s [] = some s
parse_parts s (v ∷ vs) = elim (parse_num_range v) [
  | none ↦ none
  | some r ↦ parse_parts (add_range s r.start r.stop) vs
]

-- ParseSet
unfoldable pub parse_set : Bytes → Option Set
unfolding parse_parts
parse_set set = parse_parts [] (split b',' set)

test_parse :
    parse_set (codes "9,4:2,*:7")
    ≡ some (record { start = 2; stop = 4 } ∷ record { start = 7; stop = 0 } ∷ [])
unfolding parse_set parse_num_range split cut parse_uint add_range insert merge less
test_parse = refl

test_refused :
    (parse_set (codes "01") ≡ none)
    × (parse_set (codes "1,,2") ≡ none)
    × (parse_set (codes "4294967296") ≡ none)
unfolding parse_set parse_num_range split cut parse_uint add_range insert merge less
test_refused = (refl, refl, refl)
