-- ===== src/Base/Bits/Fields.antt =====
-- `&` with a mask and `|` of disjoint fields, as arithmetic.
use Prim.Native.Nat.{ℕ, zero, suc, ◌+◌, ◌-◌, ◌*◌, ◌/◌, ◌%◌, ◌^◌, ◌≤◌, ◌<◌, bit_and, bit_or, bit_xor}
use mathlib.Core.Path.{◌≡◌, refl, sym, ◌∙◌, ap}
use native.Mathlib.Nat.{
  pow-suc, le_refl, one-le-pow, mul_assoc, mul-one, one-mul, div-one, mul_comm, div-div-eq-div-mul,
}
use native.Mathlib.Omega.{arith}
use rbfeeder.Base.Bits.Digits.{bit_or_step, bit_and_step, bit_xor_step}
use rbfeeder.Base.Bits.Xor.{half_again, low_bits_suc, xor-zero}

or_zero_below : (n a : ℕ) → a ≤ n → bit_or a 0 ≡ a
or_zero_below n zero p = refl
or_zero_below zero (suc a) p = absurd (omega arith)
or_zero_below (suc n) (suc a) p =
    omega (arith, bit_or_step (suc a) 0, or_zero_below n (suc a / 2) (omega arith))

pub or-zero : (a : ℕ) → bit_or a 0 ≡ a
or-zero a = or_zero_below a a (le_refl _)

and_zero_below : (n a : ℕ) → a ≤ n → bit_and a 0 ≡ 0
and_zero_below n zero p = refl
and_zero_below zero (suc a) p = absurd (omega arith)
and_zero_below (suc n) (suc a) p =
    omega (arith, bit_and_step (suc a) 0, and_zero_below n (suc a / 2) (omega arith))

pub and-zero : (a : ℕ) → bit_and a 0 ≡ 0
and-zero a = and_zero_below a a (le_refl _)

double_mask : (m a : ℕ) → bit_and a (m * 2) ≡ bit_and (a / 2) m * 2
double_mask m a =
    let e : m * 2 / 2 ≡ m = omega arith in
    omega (arith, bit_and_step a (m * 2), ap (bit_and (a / 2)) e)

halves_commute : (k a : ℕ) → a / 2 / 2 ^ k ≡ a / 2 ^ k / 2
halves_commute k a =
    div-div-eq-div-mul a 2 (2 ^ k)
    ∙ ap (λ t. a / t) (mul_comm 2 (2 ^ k))
    ∙ sym (div-div-eq-div-mul a (2 ^ k) 2)

-- A mask that is shifted up reads the bits above.
pub and_shifted : (k a m : ℕ) → bit_and a (m * 2 ^ k) ≡ bit_and (a / 2 ^ k) m * 2 ^ k
and_shifted zero a m = rw (mul-one, mul-one, div-one)
and_shifted (suc k) a m =
    rw (half_again k a, pow-suc, ← mul_assoc, ← mul_assoc)
      (double_mask (m * 2 ^ k) a
        ∙ ap (λ t. t * 2)
            (and_shifted k (a / 2) m ∙ ap (λ t. bit_and t m * 2 ^ k) (halves_commute k a)))

-- The low `k` bits are a remainder.
pub and_mask : (k a : ℕ) → bit_and a (2 ^ k - 1) ≡ a % 2 ^ k
and_mask zero a = and-zero a ∙ omega arith
and_mask (suc k) a = omega (
  arith,
  bit_and_step a (2 ^ suc k - 1),
  pow-suc 2 k,
  one-le-pow k 2,
  ap (bit_and (a / 2)) below,
  and_mask k (a / 2),
  low_bits_suc k a,
)
  where
    below : (2 ^ suc k - 1) / 2 ≡ 2 ^ k - 1
    below = omega (arith, pow-suc 2 k, one-le-pow k 2)

-- A single bit.
pub and_bit : (k a : ℕ) → bit_and a (2 ^ k) ≡ a / 2 ^ k % 2 * 2 ^ k
and_bit k a =
    ap (bit_and a) (sym (one-mul (2 ^ k)))
    ∙ and_shifted k a 1
    ∙ ap (λ t. t * 2 ^ k) (and_mask 1 (a / 2 ^ k))

-- Fields that do not overlap are summed.
pub or_fields : (k q r : ℕ) → r < 2 ^ k → bit_or (q * 2 ^ k) r ≡ q * 2 ^ k + r
or_fields zero q r fits = ground (arith, or-zero q)
or_fields (suc k) q r fits = omega (
  arith,
  bit_or_step (q * 2 ^ suc k) r,
  doubled,
  ap (λ (t : ℕ). bit_or t (r / 2)) halved,
  or_fields k q (r / 2) (omega (arith, pow-suc 2 k)),
)
  where
    doubled : q * 2 ^ suc k ≡ q * 2 ^ k * 2
    doubled = ap (λ t. q * t) (pow-suc 2 k) ∙ sym (mul_assoc q (2 ^ k) 2)

    halved : q * 2 ^ suc k / 2 ≡ q * 2 ^ k
    halved = omega (arith, doubled)

pub xor_fields : (k q r : ℕ) → r < 2 ^ k → bit_xor (q * 2 ^ k) r ≡ q * 2 ^ k + r
xor_fields zero q r fits = ground (arith, xor-zero q)
xor_fields (suc k) q r fits = omega (
  arith,
  bit_xor_step (q * 2 ^ suc k) r,
  doubled,
  ap (λ (t : ℕ). bit_xor t (r / 2)) halved,
  xor_fields k q (r / 2) (omega (arith, pow-suc 2 k)),
)
  where
    doubled : q * 2 ^ suc k ≡ q * 2 ^ k * 2
    doubled = ap (λ t. q * t) (pow-suc 2 k) ∙ sym (mul_assoc q (2 ^ k) 2)

    halved : q * 2 ^ suc k / 2 ≡ q * 2 ^ k
    halved = omega (arith, doubled)

pub pow_add : (a b : ℕ) → 2 ^ (a + b) ≡ 2 ^ a * 2 ^ b
pow_add zero b = let e : 0 + b ≡ b = omega arith in rw e (omega arith)
pow_add (suc a) b =
    let e : suc a + b ≡ suc (a + b) = omega arith in
    rw e (
      omega (
        arith,
        pow-suc 2 (a + b),
        pow-suc 2 a,
        pow_add a b,
        ap (λ (t : ℕ). t * 2 ^ b) (pow-suc 2 a),
      ))
