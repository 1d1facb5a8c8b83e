-- ===== src/Base/Double.antt =====
-- The arithmetic of C on `double`: each result is the exact one rounded to 53 significant bits, ties to
-- even. Values stay far from the ends of the range of exponents.
use rbfeeder.Base.Tests.{ltb, leb, ◌==◌, if◌then◌else◌}
use Prim.Native.Nat.{ℕ, zero, suc, ◌+◌, ◌-◌, ◌*◌, ◌/◌, ◌%◌, ◌^◌}
use mathlib.Core.List.{List, [], ◌∷◌}
use rbfeeder.Base.Int.{ℤ, pos, negsuc, sub_ℕ, ◌+ℤ◌, ◌*ℤ◌, pos_part}
use rbfeeder.Base.Ratio.{Ratio, whole, minus, floor_div}

-- The binary digits of a number below 2 ^ 2048, from the powers of two that may be left in their count.
unfoldable pub width_by : List ℕ → ℕ → ℕ
width_by [] n = if n == 0 then 0 else 1
width_by (k ∷ ks) n =
    let over = leb (2 ^ k) n in
    let rest = width_by ks (if over then n / 2 ^ k else n) in if over then k + rest else rest

unfoldable pub width : ℕ → ℕ
width n = width_by (1024 ∷ 512 ∷ 256 ∷ 128 ∷ 64 ∷ 32 ∷ 16 ∷ 8 ∷ 4 ∷ 2 ∷ 1 ∷ []) n

-- n / d, rounded to a whole number.
unfoldable pub round_even : ℕ → ℕ → ℕ
round_even n d =
    let q = n / d in
    let r = n % d in if ltb (2 * r) d then q else if ltb d (2 * r) then q + 1 else q + q % 2

-- n / d in units of a power of two in which it has 53 digits.
unfoldable pub round_double : ℕ → ℕ → (ℕ → ℤ) → Ratio
round_double n d sign =
    let up = 53 + width d - width n in
    let down = width n - (53 + width d) in
    let top = n * 2 ^ up in
    let bottom = d * 2 ^ down in
    let unit = if leb (2 ^ 53 * bottom) top then 2 else 1 in
    record { num = sign (round_even top (unit * bottom) * (unit * 2 ^ down)); den = 2 ^ up }

unfoldable pub round_signed : ℤ → ℕ → Ratio
round_signed (pos n) d = round_double n d pos
round_signed (negsuc n) d = round_double (n + 1) d (λ m. sub_ℕ 0 m)

unfoldable pub double : Ratio → Ratio
double a = round_signed a.num a.den

-- a + b, a - b, a * b, and a / b for b above 0.
unfoldable pub add_double : Ratio → Ratio → Ratio
add_double a b =
    double (record { num = a.num *ℤ pos b.den +ℤ b.num *ℤ pos a.den; den = a.den * b.den })

unfoldable pub sub_double : Ratio → Ratio → Ratio
sub_double a b = double (minus a b)

unfoldable pub mul_double : Ratio → Ratio → Ratio
mul_double a b = double (record { num = a.num *ℤ b.num; den = a.den * b.den })

unfoldable pub div_double : Ratio → Ratio → Ratio
div_double a b = double (record { num = a.num *ℤ pos b.den; den = a.den * pos_part b.num })

-- `floor`, and `fmod` by a number above 0, which are exact.
unfoldable pub floor_double : Ratio → ℤ
floor_double a = floor_div a.num a.den

unfoldable pub remainder_of : ℤ → ℕ → ℤ
remainder_of (pos n) d = pos (n % d)
remainder_of (negsuc n) d = sub_ℕ 0 ((n + 1) % d)

unfoldable pub fmod : Ratio → Ratio → Ratio
fmod a b = record {
  num = remainder_of (a.num *ℤ pos b.den) (pos_part b.num * a.den);
  den = a.den * b.den;
}

-- The bits of the square root of a number, from one on.
unfoldable pub root_bits : ℕ → ℕ → ℕ → ℕ
root_bits zero root t = root
root_bits (suc k) root t =
    let next = root + 2 ^ k in root_bits k (if leb (next * next) t then next else root) t

-- The square root of n / d, which is not above 2 ^ 106, to 53 digits.
unfoldable pub root_double : ℕ → ℕ → Ratio
root_double n d =
    let up = (106 + width d - width n) / 2 in
    let top = n * 4 ^ up in
    let unit = if leb (2 ^ 106 * d) top then 2 else 1 in
    let m = root_bits 54 0 (top / (unit * unit * d)) in
    let middle = (2 * m + 1) * (2 * m + 1) * (unit * unit * d) in
    let root =
      if ltb (4 * top) middle then m else if ltb middle (4 * top) then m + 1 else m + m % 2 in
    record { num = pos (root * unit); den = 2 ^ up }

-- `sqrt` of a level, which is not negative.
unfoldable pub sqrt_double : Ratio → Ratio
sqrt_double a = let n = pos_part a.num in if n == 0 then whole (pos 0) else root_double n a.den
