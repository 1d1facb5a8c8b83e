-- ===== src/Base/Ratio.antt =====
-- Exact fractions, with a denominator that is not zero: `double` values, and what they are rounded from.
use rbfeeder.Base.{ℕ, ◌+◌, ◌*◌, ◌/◌, Bool}
use rbfeeder.Base.Int.{ℤ, pos, negsuc, ◌+ℤ◌, ◌-ℤ◌, ◌*ℤ◌, ltb_ℤ, pos_part, neg_part}

pub record Ratio : Type 0 where
  pub num : ℤ
  pub den : ℕ

-- A whole number.
unfoldable pub whole : ℤ → Ratio
whole n = record { num = n; den = 1 }

unfoldable pub minus : Ratio → Ratio → Ratio
minus a b = record { num = a.num *ℤ pos b.den -ℤ b.num *ℤ pos a.den; den = a.den * b.den }

unfoldable pub lt_ratio : Ratio → Ratio → Bool
lt_ratio a b = ltb_ℤ (a.num *ℤ pos b.den) (b.num *ℤ pos a.den)

unfoldable pub magnitude : Ratio → Ratio
magnitude a = record { num = pos (pos_part a.num + neg_part a.num); den = a.den }

-- `floor(n / d)`
unfoldable pub floor_div : ℤ → ℕ → ℤ
floor_div (pos n) d = pos (n / d)
floor_div (negsuc n) d = negsuc (n / d)

-- `floor(n / d + 0.5)`
unfoldable pub round_div : ℤ → ℕ → ℤ
round_div n d = floor_div (n +ℤ n +ℤ pos d) (2 * d)
