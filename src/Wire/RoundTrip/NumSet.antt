-- ===== src/Wire/RoundTrip/NumSet.antt =====
-- internal/imapwire: what Encoder.NumSet writes, Decoder.ExpectNumSet reads.
use go_imap.Prelude.{
  ℕ, ◌+◌, ◌≡◌, ◌≢◌, refl, false, [], ◌∷◌, ◌++◌, none, some, length, arith, if◌then◌else◌, ◌==◌, All,
}
use go_imap.Strconv.{Bytes, split, cut, parse_uint}
use go_imap.NumSet.{Set}
use go_imap.NumSet.Canon.{IsCanon}
use go_imap.NumSet.Text.{parse_set, set_string, parse_num_range}
use go_imap.NumSet.Text.RoundTrip.{parse_set-set_string}
use go_imap.NumSet.Text.Charset.{IsSetByte, set_string-IsSetByte}
use go_imap.Wire.{Settings, Decoder, is_atom_char}
use go_imap.Wire.Encoder.{clean, write_string, set_err, empty_set}
use go_imap.MemMailbox.Static.{NumSet, seqs, uids, search_res}
use go_imap.MemMailbox.Find.{NumKind}
use go_imap.Wire.Mailbox.{of_kind, num_set_string, num_set, expect_num_set, is_num_set_char}
use go_imap.Wire.Read.{IsReady, at, Takes, accept_byte-at, accept_byte-other, func-at}

-- The sets that a command may hold: the last search result, and sets that are not empty
abbrev pub IsWritable : NumSet → Type 0
IsWritable search_res = Unit
IsWritable (seqs s) = (s ≢ []) × IsCanon s
IsWritable (uids s) = (s ≢ []) × IsCanon s

-- The kind of set that the reader expects
abbrev pub IsOfKind : NumKind → NumSet → Type 0
IsOfKind kind search_res = Unit
IsOfKind kind (seqs s) = of_kind kind s ≡ seqs s
IsOfKind kind (uids s) = of_kind kind s ≡ uids s

set_bytes-Takes : (s : Bytes) → All IsSetByte s → Takes is_num_set_char s
unfolding is_atom_char
set_bytes-Takes [] h = tt
set_bytes-Takes (b ∷ s) (h, hs) = (ground (arith, h), set_bytes-Takes s hs)

set_byte-dollar : (b : ℕ) → IsSetByte b → (b == b'$') ≡ false
set_byte-dollar b h = ground (arith, h)

expect_num_set-text :
    (c : Settings) (kind : NumKind) (text : Bytes) (s : Set) (b : ℕ) (t : Bytes) (n : ℕ)
    (d : Decoder)
    → All IsSetByte text
    → parse_set text ≡ some s
    → parse_set [] ≡ none
    → is_num_set_char b ≡ false
    → IsReady c (text ++ b ∷ t) n d
    → expect_num_set c kind (at (text ++ b ∷ t) n d)
      ≡ (at (b ∷ t) (n + length text) d, some (of_kind kind s))
unfolding expect_num_set
expect_num_set-text c kind [] s b t n d h e empty stop r = cc (e, empty)
expect_num_set-text c kind (x ∷ text) s b t n d (h, hs) e empty stop r = rw (
  accept_byte-other b'$' (set_byte-dollar x h) r,
  func-at is_num_set_char x text t (set_bytes-Takes (x ∷ text) (h, hs)) stop r,
  e,
)

parse_set-empty : parse_set [] ≡ none
unfolding parse_set split parse_num_range cut parse_uint
parse_set-empty = refl

write_text-clean :
    (text out : Bytes)
    → parse_set text ≢ none
    → (if length text == 0 then set_err empty_set (clean out) else write_string text (clean out))
      ≡ clean (out ++ text)
unfolding write_string set_err
write_text-clean [] out h = absurd (h parse_set-empty)
write_text-clean (b ∷ text) out h = ground arith

written-is_some : (s : Set) → s ≢ [] → IsCanon s → parse_set (set_string s) ≢ none
written-is_some s ne canon e = cc (e, parse_set-set_string s ne canon)

num_set-clean :
    (s : NumSet) (out : Bytes)
    → IsWritable s
    → num_set s (clean out) ≡ clean (out ++ num_set_string s)
unfolding num_set write_string
num_set-clean search_res out h = refl
num_set-clean (seqs s) out (ne, canon) =
    write_text-clean (set_string s) out (written-is_some s ne canon)
num_set-clean (uids s) out (ne, canon) =
    write_text-clean (set_string s) out (written-is_some s ne canon)

expect_num_set-dollar :
    (c : Settings) (kind : NumKind) (t : Bytes) (n : ℕ) (d : Decoder)
    → IsReady c (b'$' ∷ t) n d
    → expect_num_set c kind (at (b'$' ∷ t) n d) ≡ (at t (n + 1) d, some search_res)
unfolding expect_num_set
expect_num_set-dollar c kind t n d r = rw (accept_byte-at r)

expect_num_set-set :
    (c : Settings) (kind : NumKind) (s : Set) (b : ℕ) (t : Bytes) (n : ℕ) (d : Decoder)
    → s ≢ []
    → IsCanon s
    → is_num_set_char b ≡ false
    → IsReady c (set_string s ++ b ∷ t) n d
    → expect_num_set c kind (at (set_string s ++ b ∷ t) n d)
      ≡ (at (b ∷ t) (n + length (set_string s)) d, some (of_kind kind s))
expect_num_set-set c kind s b t n d ne canon stop r =
    expect_num_set-text c kind (set_string s) s b t n d (set_string-IsSetByte s)
      (parse_set-set_string s ne canon) parse_set-empty stop r

-- A canonical set of numbers with at least one range that Encoder.NumSet writes is read back as it was by
-- ExpectNumSet of its kind, up to a following byte that ends it; the last search result is read as itself, whatever
-- the kind that is expected.
pub expect_num_set-num_set :
    (c : Settings) (kind : NumKind) (s : NumSet) (out : Bytes) (b : ℕ) (t : Bytes) (n : ℕ)
    (d : Decoder)
    → IsWritable s
    → IsOfKind kind s
    → is_num_set_char b ≡ false
    → IsReady c (num_set_string s ++ b ∷ t) n d
    → (num_set s (clean out) ≡ clean (out ++ num_set_string s))
      × (expect_num_set c kind (at (num_set_string s ++ b ∷ t) n d)
          ≡ (at (b ∷ t) (n + length (num_set_string s)) d, some s))
expect_num_set-num_set c kind search_res out b t n d h k stop r =
    (num_set-clean search_res out h, expect_num_set-dollar c kind (b ∷ t) n d r)
expect_num_set-num_set c kind (seqs s) out b t n d (ne, canon) k stop r = (
  num_set-clean (seqs s) out (ne, canon),
  rw (← k) (expect_num_set-set c kind s b t n d ne canon stop r),
)
expect_num_set-num_set c kind (uids s) out b t n d (ne, canon) k stop r = (
  num_set-clean (uids s) out (ne, canon),
  rw (← k) (expect_num_set-set c kind s b t n d ne canon stop r),
)
