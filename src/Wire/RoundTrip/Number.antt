-- ===== src/Wire/RoundTrip/Number.antt =====
-- internal/imapwire: a number that is written is read back, and ends at the first byte that is no digit.
use go_imap.Prelude.{
  ℕ, ◌+◌, ◌^◌, ◌≤◌, ◌<◌, ◌≡◌, Bool, false, [], ◌∷◌, ◌++◌, some, length, arith, All,
}
use go_imap.Strconv.{Bytes, is_digit, format_uint}
use go_imap.Strconv.Laws.{
  Leads, IsDigit, format_uint-Leads, format_uint-IsDigit, parse_uint-format_uint,
}
use go_imap.Wire.{Settings, Decoder, func, number_str, number_below}
use go_imap.Wire.Read.{IsReady, at, Takes, func-at}

pub digits-Takes : (s : Bytes) → All IsDigit s → Takes is_digit s
digits-Takes [] h = tt
digits-Takes (b ∷ s) (h, hs) = (ground arith, digits-Takes s hs)

module _ {c : Settings} {d : Decoder} where
  pub func-Leads :
      (valid : ℕ → Bool) (lo : ℕ) (p : Bytes) {b : ℕ} (t : Bytes) (n : ℕ)
      → Leads lo p
      → Takes valid p
      → valid b ≡ false
      → IsReady c (p ++ b ∷ t) n d
      → func c valid (at (p ++ b ∷ t) n d) ≡ (at (b ∷ t) (n + length p) d, some p)
  func-Leads valid lo [] t n h _ _ _ = absurd h
  func-Leads valid lo (x ∷ p) t n h v stop r = func-at valid x p t v stop r

  pub number_below-at :
      (limit v b : ℕ) (t : Bytes) (n : ℕ)
      → v ≤ limit
      → v < 10 ^ 20
      → is_digit b ≡ false
      → IsReady c (format_uint v ++ b ∷ t) n d
      → number_below c limit (at (format_uint v ++ b ∷ t) n d)
        ≡ (at (b ∷ t) (n + length (format_uint v)) d, some v)
  unfolding number_below number_str
  number_below-at limit v b t n h f stop r = rw (
    func-Leads is_digit _ (format_uint v) t n (format_uint-Leads v f)
        (digits-Takes (format_uint v) (format_uint-IsDigit v)) stop r,
    parse_uint-format_uint limit v h f,
  )
