-- ===== src/NumSet/Key.antt =====
-- The order of numset.go as one order on numbers: "*" stands past every number, and does not touch
-- the largest.
use go_imap.Prelude.{ℕ, ◌+◌, ◌≡◌, ◌≤◌, ◌<◌, arith, ◌&&◌, leb, ltb, ◌==◌, if◌then◌else◌}
use go_imap.NumSet.{Range, u32_mod, contains, less}

abbrev pub key : ℕ → ℕ
key q = if q == 0 then u32_mod + 1 else q

-- A range of the documented form: "n", "n:m" with n ≤ m, "n:*" or "*", with 32-bit numbers.
pub record IsRange (r : Range) : Type 0 where
  pub start_fits : r.start < u32_mod
  pub stop_fits : r.stop < u32_mod
  pub ordered : key r.start ≤ key r.stop

pub contains-key :
    (r : Range) (q : ℕ)
    → IsRange r
    → q < u32_mod
    → contains r q ≡ (leb (key r.start) (key q) && leb (key q) (key r.stop))
unfolding contains
contains-key r q v h = ground arith

pub less-key : (r : Range) (q : ℕ) → IsRange r → q < u32_mod → less r q ≡ ltb (key r.stop) (key q)
unfolding less
less-key r q v h = ground arith
