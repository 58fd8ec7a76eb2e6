-- ===== src/NumSet/Merge.antt =====
-- Range.Merge.
use go_imap.Prelude.{false, ◌||◌, ◌<◌, ℕ, ◌+◌, ◌≡◌, true, arith, ◌&&◌, leb, min, max}
use go_imap.NumSet.{contains, u32_mod, Range, merge}
use go_imap.NumSet.Key.{key, IsRange, contains-key}

-- Merge succeeds exactly if the two ranges intersect or touch.
pub merge-touches :
    (s t : Range)
    → IsRange s
    → IsRange t
    → (merge s t).1 ≡ (leb (key t.start) (key s.stop + 1) && leb (key s.start) (key t.stop + 1))
unfolding merge
merge-touches s t hs ht = ground arith

pub merge-bounds :
    (s t : Range)
    → IsRange s
    → IsRange t
    → (merge s t).1 ≡ true
    → IsRange (merge s t).0
      × (key (merge s t).0.start ≡ min (key s.start) (key t.start))
      × (key (merge s t).0.stop ≡ max (key s.stop) (key t.stop))
unfolding merge
merge-bounds s t hs ht h = ground arith

-- The union of two ranges that Merge joins holds what either holds.
pub merge-contains :
    (s t : Range) (q : ℕ)
    → IsRange s
    → IsRange t
    → q < u32_mod
    → (merge s t).1 ≡ true
    → contains (merge s t).0 q ≡ (contains s q || contains t q)
merge-contains s t q hs ht h m =
    let (u, lo, hi) = merge-bounds s t hs ht m in
    ground (
      arith,
      merge-touches s t hs ht,
      contains-key s q hs h,
      contains-key t q ht h,
      contains-key (merge s t).0 q u h,
      hs.ordered,
      ht.ordered,
    )

merge_refused : (s t : Range) → (merge s t).1 ≡ false → (merge s t).0 ≡ s
unfolding merge
merge_refused s t h = ground arith

-- Merge of two valid ranges succeeds exactly if they intersect or touch, "*" standing past every number
-- and touching none. On success the result is a valid range that holds what either holds; on failure it
-- is the first range.
pub merge_lem :
    (s t : Range)
    → IsRange s
    → IsRange t
    → ((merge s t).1 ≡ (leb (key t.start) (key s.stop + 1) && leb (key s.start) (key t.stop + 1)))
      × ((merge s t).1 ≡ true
          → IsRange (merge s t).0
            × ((q : ℕ) → q < u32_mod → contains (merge s t).0 q ≡ (contains s q || contains t q)))
      × ((merge s t).1 ≡ false → (merge s t).0 ≡ s)
merge_lem s t hs ht = (
  merge-touches s t hs ht,
  (λ m. ((merge-bounds s t hs ht m).0, λ q h. merge-contains s t q hs ht h m)),
  merge_refused s t,
)
