-- ===== src/NumSet/Tests.antt =====
-- Runs of the number sets at concrete inputs.
use go_imap.Prelude.{
  ℕ, ◌-◌, ◌^◌, ◌<◌, ◌≡◌, refl, true, not, ◌||◌, ◌&&◌, [], ◌∷◌, arith, ◌==◌, none, some, All, length,
}
use go_imap.NumSet.{
  Range, Set, u32_mod, contains, less, merge, insert, add_num, add_range, set_contains,
}
use go_imap.NumSet.Canon.{IsCanon, any_contains}
use go_imap.NumSet.Insert.Laws.{insert-union}
use go_imap.NumSet.Nums.{nums, cardinality, expand, nums-expand, nums_diverges, cardinality-expand}
use go_imap.NumSet.Text.{parse_set, set_string}
use go_imap.NumSet.Text.RoundTrip.{parse_set-set_string}

abbrev range : ℕ → ℕ → Range
range a b = record { start = a; stop = b }

abbrev sample : Set
sample = range 1 3 ∷ range 7 9 ∷ []

sample-IsCanon : IsCanon sample
sample-IsCanon = omega arith

add_example : add_range (add_num [] (7 ∷ 5 ∷ 1 ∷ 9 ∷ [])) 8 4 ≡ range 1 1 ∷ range 4 9 ∷ []
unfolding add_range add_num insert merge less
add_example = refl

star_example : add_num (add_range [] 0 4) (3 ∷ []) ≡ range 3 0 ∷ []
unfolding add_range add_num insert merge less
star_example = refl

insert-union_example :
    IsCanon (insert sample (range 5 6))
    × ((q : ℕ)
        → q < u32_mod
        → set_contains (insert sample (range 5 6)) q
          ≡ (set_contains sample q || not (q == 0) && contains (range 5 6) q))
insert-union_example = insert-union sample (range 5 6) sample-IsCanon (omega arith)

nums-expand_example : nums 5 sample ≡ some (some (1 ∷ 2 ∷ 3 ∷ 7 ∷ 8 ∷ 9 ∷ []))
nums-expand_example = nums-expand 5 sample sample-IsCanon (omega arith)

nums_diverges_example : nums 1000 (range 4294967290 4294967295 ∷ []) ≡ none
nums_diverges_example = nums_diverges 1000 4294967290 [] (omega arith) (omega arith)

cardinality-expand_example :
    (All (λ r. 0 < r.stop) sample → cardinality sample ≡ length (expand sample))
    × (any_contains sample 0 ≡ true → cardinality sample ≡ 2 ^ 64 - 1)
cardinality-expand_example = cardinality-expand sample sample-IsCanon

parse_set-set_string_example : parse_set (set_string sample) ≡ some sample
parse_set-set_string_example = parse_set-set_string sample (cc) sample-IsCanon
