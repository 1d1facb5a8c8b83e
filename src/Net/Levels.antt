-- ===== src/Net/Levels.antt =====
-- net_io.c: the level of a message, in a report that is forwarded again.
use rbfeeder.Base.{ℕ, ◌<◌, ◌==◌, ◌≡◌, true, refl, all_below, all_below_sound, ==_iff}
use rbfeeder.Base.Int.{◌*ℤ◌, ◌+ℤ◌}
use rbfeeder.Base.Ratio.{lt_ratio, whole, round_div, floor_div}
use rbfeeder.Base.Double.{
  width_by, width, round_even, round_double, round_signed, double, mul_double, root_bits,
  root_double, sqrt_double,
}
use rbfeeder.Net.Beast.{signal_byte, level_of}

all_bytes : all_below 256 (λ ch. signal_byte (level_of ch) == ch) ≡ true
unfolding all_below signal_byte level_of lt_ratio ◌*ℤ◌ ◌+ℤ◌ whole round_div floor_div width_by width
    round_even round_double round_signed double mul_double root_bits root_double sqrt_double
all_bytes = refl

-- For each byte, writeBeastMessage writes the level that decodeBinMessage reads from the byte as that byte
-- again, though the square and its root are rounded in between.
pub signal_byte-level_of : (ch : ℕ) → ch < 256 → signal_byte (level_of ch) ≡ ch
signal_byte-level_of ch h =
    (==_iff (signal_byte (level_of ch)) ch).0
      (all_below_sound 256 (λ c. signal_byte (level_of c) == c) ch all_bytes h)
