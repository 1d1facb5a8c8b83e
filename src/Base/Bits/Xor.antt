-- ===== src/Base/Bits/Xor.antt =====
-- `^` is a commutative group with every element its own inverse, and it commutes with shifts and
-- low masks.
use Prim.Native.Nat.{ℕ, zero, suc, ◌+◌, ◌*◌, ◌/◌, ◌%◌, ◌^◌, ◌≤◌, ◌<◌, bit_xor, bit_xor-bitwise}
use mathlib.Core.Path.{◌≡◌, refl, sym, ◌∙◌, ap, ap₂}
use native.Mathlib.Nat.{
  pow-suc, le_refl, div-eq_of_lt, div-add-mod', pow-succ', div-div-eq-div-mul, div-one, mod-one,
  mul-one, mul_assoc,
}
use native.Mathlib.Omega.{arith}
use rbfeeder.Base.Bits.Digits.{bit_xor_step}

-- Each law is an induction on a bound of the operands.
xor_comm_below : (n a b : ℕ) → a ≤ n → b ≤ n → bit_xor a b ≡ bit_xor b a
xor_comm_below zero zero zero p q = refl
xor_comm_below zero zero (suc b) p q = absurd (omega arith)
xor_comm_below zero (suc a) b p q = absurd (omega arith)
xor_comm_below (suc n) a b p q = omega (
  arith,
  bit_xor_step a b,
  bit_xor_step b a,
  xor_comm_below n (a / 2) (b / 2) (omega arith) (omega arith),
)

pub xor_comm : (a b : ℕ) → bit_xor a b ≡ bit_xor b a
xor_comm a b = xor_comm_below (a + b) a b (omega arith) (omega arith)

pub zero-xor : (b : ℕ) → bit_xor 0 b ≡ b
zero-xor b = bit_xor-bitwise 0 b

pub xor-zero : (a : ℕ) → bit_xor a 0 ≡ a
xor-zero a = xor_comm a 0 ∙ zero-xor a

xor_self_below : (n a : ℕ) → a ≤ n → bit_xor a a ≡ 0
xor_self_below zero zero p = refl
xor_self_below zero (suc a) p = absurd (omega arith)
xor_self_below (suc n) a p = omega (arith, bit_xor_step a a, xor_self_below n (a / 2) (omega arith))

pub xor_self : (a : ℕ) → bit_xor a a ≡ 0
xor_self a = xor_self_below a a (le_refl _)

-- The two parts of `a ^ b`.
pub xor-div-two : (a b : ℕ) → bit_xor a b / 2 ≡ bit_xor (a / 2) (b / 2)
xor-div-two a b = omega (arith, bit_xor_step a b)

pub xor-mod-two : (a b : ℕ) → bit_xor a b % 2 ≡ (a % 2 + b % 2) % 2
xor-mod-two a b = omega (arith, bit_xor_step a b)

xor_assoc_below :
    (n a b c : ℕ) → a ≤ n → b ≤ n → c ≤ n → bit_xor (bit_xor a b) c ≡ bit_xor a (bit_xor b c)
xor_assoc_below zero zero zero c p q r = sym (zero-xor (bit_xor 0 c))
xor_assoc_below zero zero (suc b) c p q r = absurd (omega arith)
xor_assoc_below zero (suc a) b c p q r = absurd (omega arith)
xor_assoc_below (suc n) a b c p q r = omega (
  arith,
  bit_xor_step (bit_xor a b) c,
  bit_xor_step a (bit_xor b c),
  ap (λ (t : ℕ). bit_xor t (c / 2)) (xor-div-two a b),
  ap (λ (t : ℕ). bit_xor (a / 2) t) (xor-div-two b c),
  xor-mod-two a b,
  xor-mod-two b c,
  xor_assoc_below n (a / 2) (b / 2) (c / 2) (omega arith) (omega arith) (omega arith),
)

pub xor_assoc : (a b c : ℕ) → bit_xor (bit_xor a b) c ≡ bit_xor a (bit_xor b c)
xor_assoc a b c = xor_assoc_below (a + b + c) a b c (omega arith) (omega arith) (omega arith)

pub xor_cancel : (a b : ℕ) → bit_xor a (bit_xor a b) ≡ b
xor_cancel a b = sym (xor_assoc a a b) ∙ ap (λ t. bit_xor t b) (xor_self a) ∙ zero-xor b

pub xor_cancel_right : (a b : ℕ) → bit_xor (bit_xor a b) b ≡ a
xor_cancel_right a b = xor_assoc a b b ∙ ap (bit_xor a) (xor_self b) ∙ xor-zero a

-- Two sums exchange their middle terms.
pub xor_medial :
    (a b c d : ℕ) → bit_xor (bit_xor a b) (bit_xor c d) ≡ bit_xor (bit_xor a c) (bit_xor b d)
xor_medial a b c d =
    xor_assoc a b (bit_xor c d)
    ∙ ap (bit_xor a)
        (sym (xor_assoc b c d) ∙ ap (λ t. bit_xor t d) (xor_comm b c) ∙ xor_assoc c b d)
    ∙ sym (xor_assoc a c (bit_xor b d))

-- One of two terms changed by `g`, or both.
pub xor_left : (a b g : ℕ) → bit_xor (bit_xor a b) g ≡ bit_xor (bit_xor a g) b
xor_left a b g = xor_assoc a b g ∙ ap (bit_xor a) (xor_comm b g) ∙ sym (xor_assoc a g b)

pub xor_both : (a b g : ℕ) → bit_xor a b ≡ bit_xor (bit_xor a g) (bit_xor b g)
xor_both a b g =
    sym (xor-zero (bit_xor a b))
    ∙ ap (bit_xor (bit_xor a b)) (sym (xor_self g))
    ∙ xor_medial a b g g

-- Shifts to the right and to the left, and the mask of the low `k` bits.
pub half_again : (k a : ℕ) → a / 2 ^ suc k ≡ a / 2 ^ k / 2
half_again k a = rw (div-div-eq-div-mul, pow-suc)

pub xor-div : (k a b : ℕ) → bit_xor a b / 2 ^ k ≡ bit_xor (a / 2 ^ k) (b / 2 ^ k)
xor-div zero a b = rw (div-one, div-one, div-one)
xor-div (suc k) a b =
    half_again k (bit_xor a b)
    ∙ ap (λ t. t / 2) (xor-div k a b)
    ∙ xor-div-two (a / 2 ^ k) (b / 2 ^ k)
    ∙ ap₂ bit_xor (sym (half_again k a)) (sym (half_again k b))

pub double-xor : (a b : ℕ) → bit_xor (a * 2) (b * 2) ≡ bit_xor a b * 2
double-xor a b =
    let ea : a * 2 / 2 ≡ a = omega arith in
    let eb : b * 2 / 2 ≡ b = omega arith in
    omega (arith, bit_xor_step (a * 2) (b * 2), ap₂ bit_xor ea eb)

pub xor-mul : (k a b : ℕ) → bit_xor (a * 2 ^ k) (b * 2 ^ k) ≡ bit_xor a b * 2 ^ k
xor-mul zero a b = rw (mul-one, mul-one, mul-one)
xor-mul (suc k) a b =
    rw (pow-suc, ← mul_assoc, ← mul_assoc, ← mul_assoc)
      (double-xor (a * 2 ^ k) (b * 2 ^ k) ∙ ap (λ t. t * 2) (xor-mul k a b))

pub low_bits_suc : (k x : ℕ) → x % 2 ^ suc k ≡ x / 2 % 2 ^ k * 2 + x % 2
low_bits_suc k x = omega (arith, div-add-mod' x (2 ^ suc k), div-add-mod' (x / 2) (2 ^ k), multiple)
  where
    half_first : x / 2 / 2 ^ k ≡ x / 2 ^ suc k
    half_first = rw (div-div-eq-div-mul, pow-succ')

    multiple : x / 2 ^ suc k * 2 ^ suc k ≡ x / 2 / 2 ^ k * 2 ^ k * 2
    multiple = ap₂ ◌*◌ (sym half_first) (pow-suc 2 k) ∙ sym (mul_assoc (x / 2 / 2 ^ k) (2 ^ k) 2)

half_low_bits : (k x : ℕ) → x % 2 ^ suc k / 2 ≡ x / 2 % 2 ^ k
half_low_bits k x = omega (arith, low_bits_suc k x)

-- A remainder by 2 ^ k is what the quotient leaves.
pub xor-mod : (k a b : ℕ) → bit_xor a b % 2 ^ k ≡ bit_xor (a % 2 ^ k) (b % 2 ^ k)
xor-mod zero a b = rw (mod-one, mod-one, mod-one)
xor-mod (suc k) a b =
    low_bits_suc k (bit_xor a b)
    ∙ omega (
      arith,
      ap (λ (t : ℕ). t % 2 ^ k) (xor-div-two a b),
      xor-mod k (a / 2) (b / 2),
      xor-mod-two a b,
      bit_xor_step (a % 2 ^ suc k) (b % 2 ^ suc k),
      ap₂ bit_xor (half_low_bits k a) (half_low_bits k b),
      low_bits_suc k a,
      low_bits_suc k b,
    )

pub xor-lt : (k a b : ℕ) → a < 2 ^ k → b < 2 ^ k → bit_xor a b < 2 ^ k
xor-lt k a b p q = grind (arith, xor-div k a b, div-eq_of_lt p, div-eq_of_lt q)
