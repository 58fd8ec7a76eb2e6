-- ===== src/Wire/RoundTrip/Quoted.antt =====
-- internal/imapwire: a text that is written in quotes is read back.
use go_imap.Prelude.{
  ℕ, zero, suc, ◌+◌, ◌<◌, ◌≡◌, ap, false, ◌||◌, [], ◌∷◌, ◌++◌, ◌==◌, none, some, length, arith,
  append_assoc, append-nil, Bool-cases, inl, inr, ◌⊎◌, length-append,
}
use go_imap.Strconv.{Bytes}
use go_imap.Wire.{Settings, Decoder, and_then}
use go_imap.Wire.Encoder.{escaped}
use go_imap.Wire.Strings.{quoted_rest, quoted, skip_stray}
use go_imap.Wire.Read.{
  IsReady, at, read_byte-at, accept_byte-at, accept_byte-other, tail-IsReady, add_suc,
}

escaped-cases :
    (b : ℕ) (s : Bytes)
    → (escaped (b ∷ s) ≡ 92 ∷ b ∷ escaped s)
      ⊎ ((escaped (b ∷ s) ≡ b ∷ escaped s) × ((b == 34) ≡ false) × ((b == 92) ≡ false))
unfolding escaped
escaped-cases b s = elim (Bool-cases (b == 34 || b == 92)) [
  | inl e ↦ inl (rw e)
  | inr e ↦ inr (rw e, ground arith, ground arith)
]

module _ {c : Settings} {d : Decoder} where
  quoted_rest-plain :
      (fuel b : ℕ) (out s : Bytes) (n : ℕ)
      → (b == 34) ≡ false
      → (b == 92) ≡ false
      → IsReady c (b ∷ s) n d
      → quoted_rest c (suc fuel) out (at (b ∷ s) n d)
        ≡ quoted_rest c fuel (out ++ b ∷ []) (at s (n + 1) d)
  unfolding quoted_rest
  quoted_rest-plain fuel b out s n h34 h92 r = rw (read_byte-at r) (rw (and_then, h34, h92))

  quoted_rest-backslash :
      (fuel b : ℕ) (out s : Bytes) (n : ℕ)
      → IsReady c (92 ∷ b ∷ s) n d
      → quoted_rest c (suc fuel) out (at (92 ∷ b ∷ s) n d)
        ≡ quoted_rest c fuel (out ++ b ∷ []) (at s (n + 1 + 1) d)
  unfolding quoted_rest
  quoted_rest-backslash fuel b out s n r = rw (read_byte-at r, read_byte-at (tail-IsReady r))

  quoted_rest-end :
      (fuel : ℕ) (out t : Bytes) (n : ℕ)
      → IsReady c (escaped [] ++ t) n d
      → quoted_rest c (suc fuel) out (at (escaped [] ++ t) n d)
        ≡ (at t (n + length (escaped [])) d, some (out ++ []))
  unfolding quoted_rest escaped
  quoted_rest-end fuel out t n r = rw (read_byte-at r, append-nil out)

  pub quoted_rest-escaped :
      (fuel : ℕ) (out s t : Bytes) (n : ℕ)
      → length (escaped s) < fuel
      → IsReady c (escaped s ++ t) n d
      → quoted_rest c fuel out (at (escaped s ++ t) n d)
        ≡ (at t (n + length (escaped s)) d, some (out ++ s))
  quoted_rest-escaped zero out s t n h r = absurd (omega arith)
  quoted_rest-escaped (suc fuel) out [] t n h r = quoted_rest-end fuel out t n r
  quoted_rest-escaped (suc fuel) out (b ∷ s) t n h r = elim (escaped-cases b s) [
    | inl e ↦
        rw
          (
            e,
            quoted_rest-backslash fuel b out (escaped s ++ t) n (rw e at r),
            quoted_rest-escaped fuel (out ++ b ∷ []) s t (n + 1 + 1) (omega (arith, ap length e))
                (tail-IsReady (tail-IsReady (rw e at r))),
            append_assoc out (b ∷ []) s,
          )
          (rw (add_suc n (suc (length (escaped s))), add_suc (n + 1) (length (escaped s))))
    | inr (e, h34, h92) ↦
        rw
          (
            e,
            quoted_rest-plain fuel b out (escaped s ++ t) n h34 h92 (rw e at r),
            quoted_rest-escaped fuel (out ++ b ∷ []) s t (n + 1) (omega (arith, ap length e))
                (tail-IsReady (rw e at r)),
            append_assoc out (b ∷ []) s,
          )
          (rw (add_suc n (length (escaped s))))
  ]

  -- Between quotes, and with anything behind them
  pub quoted-at :
      (s t : Bytes) (n : ℕ)
      → IsReady c (34 ∷ escaped s ++ t) n d
      → quoted c false (at (34 ∷ escaped s ++ t) n d)
        ≡ (at t (n + 1 + length (escaped s)) d, some s)
  unfolding quoted skip_stray at
  quoted-at s t n r = rw (
    accept_byte-at r,
    quoted_rest-escaped (suc (length (escaped s ++ t))) [] s t (n + 1)
        (omega (arith, length-append (escaped s) t)) (tail-IsReady r),
  )

  pub quoted-other :
      (b : ℕ) (t : Bytes) (n : ℕ)
      → (b == 34) ≡ false
      → IsReady c (b ∷ t) n d
      → quoted c false (at (b ∷ t) n d) ≡ (at (b ∷ t) n d, none)
  unfolding quoted
  quoted-other b t n h r = rw (accept_byte-other 34 h r)
