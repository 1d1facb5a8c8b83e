-- ===== src/Crc/Division/Rounds.antt =====
-- Division of polynomials over GF(2) by the 25-bit generator, one quotient bit at a time, and the
-- byte-wise round of `modesChecksum` as eight of its steps.
use native.Mathlib.Nat.{
  mod-eq_of_lt, pow-suc, div-eq_of_lt, one-le-pow, pow-le-pow_right, mul-div-mul_right,
}
use mathlib.Core.Bool.{false≢true}
use rbfeeder.Base.{ℕ, zero, suc, ◌+◌, ◌*◌, ◌/◌, ◌%◌, ◌^◌, ◌<◌, ◌≤◌, bit_xor}
use rbfeeder.Base.{
  ◌≡◌, refl, sym, ◌∙◌, ap, ap₂, arith, ◌==◌, ==_iff, ◌≢◌, if◌then◌else◌, u32, ◌<<<◌,
}
use rbfeeder.Base.{Bool, true, false, Bool-cases, inl, inr}
use rbfeeder.Base.Bits.Xor.{
  xor-div, xor-mul, xor-mod, xor-lt, xor-mod-two, xor_medial, zero-xor, xor_assoc, xor_left,
  xor_both, xor_comm,
}
use rbfeeder.Base.Bits.Fields.{and_mask, xor_fields, pow_add}
use rbfeeder.Crc.Checksum.{generator_poly, crc_shift, crc_shifts, crc_entry, checksum_round}
use rbfeeder.Crc.Linear.{top_bit, crc_shifts-IsLinear, table_index, checksum_round_lem}

-- x²⁴ and the terms of `MODES_GENERATOR_POLY`.
abbrev pub generator : ℕ
generator = 0x1fff409

abbrev bit_of : ℕ → ℕ → Bool
bit_of k m = m / 2 ^ k % 2 == 1

-- One step of the division, at quotient bit `k`.
pub reduce_step : ℕ → ℕ → ℕ
reduce_step k m = if bit_of (24 + k) m then bit_xor m (generator <<< k) else m

-- The remainder of `m`, a polynomial of `24 + k` bits.
unfoldable pub reduce : ℕ → ℕ → ℕ
unfolding reduce_step
reduce zero m = m
reduce (suc k) m = reduce k (reduce_step k m)

reduce_step-xor :
    (k a b : ℕ) → reduce_step k (bit_xor a b) ≡ bit_xor (reduce_step k a) (reduce_step k b)
unfolding reduce_step
reduce_step-xor k a b = ground (
  arith,
  xor-div (24 + k) a b,
  xor-mod-two (a / 2 ^ (24 + k)) (b / 2 ^ (24 + k)),
  xor_left a b (generator <<< k),
  xor_assoc a b (generator <<< k),
  xor_both a b (generator <<< k),
)

pub reduce-xor : (k a b : ℕ) → reduce k (bit_xor a b) ≡ bit_xor (reduce k a) (reduce k b)
unfolding reduce
reduce-xor zero a b = refl
reduce-xor (suc k) a b =
    ap (reduce k) (reduce_step-xor k a b) ∙ reduce-xor k (reduce_step k a) (reduce_step k b)

-- A step above the degree does nothing.
reduce_step_idle : (k m : ℕ) → m < 2 ^ (24 + k) → reduce_step k m ≡ m
unfolding reduce_step
reduce_step_idle k m h = ground (arith, div-eq_of_lt h)

pub reduce_idle : (j k m : ℕ) → m < 2 ^ (24 + k) → reduce (j + k) m ≡ reduce k m
unfolding reduce
reduce_idle zero k m h = let e : 0 + k ≡ k = omega arith in ap (λ t. reduce t m) e
reduce_idle (suc j) k m h =
    ap (λ t. reduce t m) one_more
    ∙ ap (reduce (j + k)) (reduce_step_idle (j + k) m (omega (arith, wider)))
    ∙ reduce_idle j k m h
  where
    one_more : suc j + k ≡ suc (j + k)
    one_more = omega arith

    wider : 2 ^ (24 + k) ≤ 2 ^ (24 + (j + k))
    wider = pow-le-pow_right {n = 2} (omega arith) (omega arith)

-- One shift of the 24-bit remainder.
abbrev shift_24 : ℕ → ℕ
shift_24 c = crc_shift c % 2 ^ 24

shift_clear : (c : ℕ) → c < 2 ^ 24 → bit_of 23 c ≡ false → shift_24 c ≡ c * 2
unfolding crc_shift
shift_clear c h clear = rw (top_bit c, clear) (omega (arith, low))
  where
    low : c / 2 ^ 23 % 2 ≢ 1
    low e = false≢true (sym clear ∙ (==_iff (c / 2 ^ 23 % 2) 1).1 e)

shift_set : (c : ℕ) → c < 2 ^ 24 → bit_of 23 c ≡ true → shift_24 c ≡ bit_xor (c * 2) generator
unfolding crc_shift
shift_set c h set =
    rw (top_bit c, set)
      (xor-mod 24 (u32 (c <<< 1)) generator_poly
        ∙ ap (λ t. bit_xor t generator_poly) f
        ∙ sym (zero-xor (bit_xor r generator_poly))
        ∙ sym (xor_medial (1 * 2 ^ 24) r (1 * 2 ^ 24) generator_poly)
        ∙ ap (λ t. bit_xor t generator) (sym e))
  where
    top : c / 2 ^ 23 ≡ 1
    top = omega (arith, (==_iff (c / 2 ^ 23 % 2) 1).0 set)

    r : ℕ
    r = c * 2 % 2 ^ 24

    e : c * 2 ≡ bit_xor (1 * 2 ^ 24) r
    e = omega (arith, top, xor_fields 24 1 r (omega arith))

    f : u32 (c <<< 1) % 2 ^ 24 ≡ r
    f = omega arith

-- A step on a multiple of 2 ^ (k + 1) is a shift of the factor.
reduce_step_shift : (k c : ℕ) → c < 2 ^ 24 → reduce_step k (c * 2 ^ suc k) ≡ shift_24 c * 2 ^ k
unfolding reduce_step
reduce_step_shift k c h = elim (Bool-cases (bit_of 23 c)) [
  | inl set ↦ rw (quotient, set, shift_set c h set, doubled) (xor-mul k (c * 2) generator)
  | inr clear ↦ rw (quotient, clear, shift_clear c h clear) doubled
]
  where
    quotient : c * 2 ^ suc k / 2 ^ (24 + k) ≡ c / 2 ^ 23
    quotient =
        let e : 24 + k ≡ 23 + suc k = omega arith in
        ap (λ t. c * 2 ^ suc k / 2 ^ t) e
        ∙ ap (λ t. c * 2 ^ suc k / t) (pow_add 23 (suc k))
        ∙ mul-div-mul_right {m = 2 ^ suc k} c (2 ^ 23) (one-le-pow (suc k) 2 (omega arith))

    doubled : c * 2 ^ suc k ≡ c * 2 * 2 ^ k
    doubled = omega (arith, ap (λ (t : ℕ). c * t) (pow-suc 2 k))

shifts_24 : ℕ → ℕ → ℕ
shifts_24 zero c = c
shifts_24 (suc j) c = shifts_24 j (shift_24 c)

reduce_shifts :
    (j k c : ℕ) → c < 2 ^ 24 → reduce (j + k) (c * 2 ^ (j + k)) ≡ reduce k (shifts_24 j c * 2 ^ k)
unfolding reduce shifts_24
reduce_shifts zero k c h = let e : 0 + k ≡ k = omega arith in ap (λ t. reduce t (c * 2 ^ t)) e
reduce_shifts (suc j) k c h =
    let e : suc j + k ≡ suc (j + k) = omega arith in
    ap (λ t. reduce t (c * 2 ^ t)) e
    ∙ ap (reduce (j + k)) (reduce_step_shift (j + k) c h)
    ∙ reduce_shifts j k (shift_24 c) (omega arith)

-- The shifts of crc.c, which are cut to 24 bits at the end, do the same.
low_shift : (c : ℕ) → crc_shift c % 2 ^ 24 ≡ crc_shift (c % 2 ^ 24) % 2 ^ 24
unfolding crc_shift
low_shift c = ground (
  arith,
  top_bit c,
  top_bit (c % 2 ^ 24),
  xor-mod 24 (u32 (c <<< 1)) generator_poly,
  xor-mod 24 (u32 ((c % 2 ^ 24) <<< 1)) generator_poly,
  ap (λ (t : ℕ). bit_xor t generator_poly) same,
)
  where
    same : u32 (c <<< 1) % 2 ^ 24 ≡ u32 ((c % 2 ^ 24) <<< 1) % 2 ^ 24
    same = omega arith

low_shifts : (j c : ℕ) → crc_shifts j c % 2 ^ 24 ≡ shifts_24 j (c % 2 ^ 24)
unfolding crc_shifts shifts_24
low_shifts zero c = refl
low_shifts (suc j) c = low_shifts j (crc_shift c) ∙ ap (shifts_24 j) (low_shift c)

-- Below bit 23 nothing is subtracted.
shifts_low : (j c : ℕ) → c * 2 ^ j < 2 ^ 24 → shifts_24 j c ≡ c * 2 ^ j
unfolding shifts_24
shifts_low zero c h = omega arith
shifts_low (suc j) c h =
    ap (shifts_24 j) (shift_clear c (omega (arith, small)) (ground (arith, small)))
    ∙ shifts_low j (c * 2) (omega (arith, doubled))
    ∙ sym doubled
  where
    doubled : c * 2 ^ suc j ≡ c * 2 * 2 ^ j
    doubled = omega (arith, ap (λ (t : ℕ). c * t) (pow-suc 2 j))

    small : c < 2 ^ 23
    small = grind (arith, doubled, one-le-pow j 2)

crc_entry_lem : (i : ℕ) → crc_entry i ≡ crc_shifts 8 (i * 2 ^ 16) % 2 ^ 24
unfolding crc_entry
crc_entry_lem i = and_mask 24 (crc_shifts 8 (i <<< 16))

-- Eight shifts of a remainder with the byte `i` at its top.
eight_shifts :
    (i lo : ℕ)
    → i < 256
    → lo < 2 ^ 16
    → shifts_24 8 (bit_xor (i * 2 ^ 16) lo) ≡ bit_xor (crc_entry i) (lo * 2 ^ 8)
eight_shifts i lo hi hlo =
    ap (shifts_24 8) (sym (mod-eq_of_lt (xor-lt 24 (i * 2 ^ 16) lo (omega arith) (omega arith))))
    ∙ sym (low_shifts 8 (bit_xor (i * 2 ^ 16) lo))
    ∙ ap (λ t. t % 2 ^ 24) (crc_shifts-IsLinear 8 (i * 2 ^ 16) lo)
    ∙ xor-mod 24 (crc_shifts 8 (i * 2 ^ 16)) (crc_shifts 8 lo)
    ∙ ap₂ bit_xor (sym (crc_entry_lem i)) (
        low_shifts 8 lo
        ∙ ap (shifts_24 8) (mod-eq_of_lt (lt_trans hlo))
        ∙ shifts_low 8 lo (omega arith))
  where
    lt_trans : {x : ℕ} → x < 2 ^ 16 → x < 2 ^ 24
    lt_trans h = omega arith

-- A round of `modesChecksum` is eight steps on the remainder with the byte added at its top.
round_shifts :
    (r byte : ℕ)
    → r < 2 ^ 24
    → byte < 256
    → checksum_round r byte ≡ shifts_24 8 (bit_xor r (byte * 2 ^ 16))
round_shifts r byte hr hb =
    checksum_round_lem r byte hb
    ∙ and_mask 24 (bit_xor (u32 (r <<< 8)) (crc_entry index))
    ∙ xor-mod 24 (u32 (r <<< 8)) (crc_entry index)
    ∙ ap₂ bit_xor shifted small
    ∙ xor_comm (lo * 2 ^ 8) (crc_entry index)
    ∙ sym (eight_shifts index lo (xor-lt 8 byte top hb (omega arith)) (omega arith))
    ∙ ap (shifts_24 8) (sym added)
  where
    top : ℕ
    top = r / 2 ^ 16 % 2 ^ 8

    lo : ℕ
    lo = r % 2 ^ 16

    index : ℕ
    index = table_index r byte

    shifted : u32 (r <<< 8) % 2 ^ 24 ≡ lo * 2 ^ 8
    shifted = omega arith

    small : crc_entry index % 2 ^ 24 ≡ crc_entry index
    small = omega (arith, crc_entry_lem index)

    parts : r ≡ bit_xor (top * 2 ^ 16) lo
    parts = omega (arith, xor_fields 16 top lo (omega arith))

    added : bit_xor r (byte * 2 ^ 16) ≡ bit_xor (index * 2 ^ 16) lo
    added =
        ap (λ t. bit_xor t (byte * 2 ^ 16)) parts
        ∙ xor_left (top * 2 ^ 16) lo (byte * 2 ^ 16)
        ∙ ap (λ t. bit_xor t lo) (xor_comm (top * 2 ^ 16) (byte * 2 ^ 16) ∙ xor-mul 16 byte top)

pub reduce_eight :
    (k r byte : ℕ)
    → r < 2 ^ 24
    → byte < 256
    → reduce (8 + k) (bit_xor r (byte * 2 ^ 16) * 2 ^ (8 + k))
      ≡ reduce k (checksum_round r byte * 2 ^ k)
reduce_eight k r byte hr hb =
    reduce_shifts 8 k (bit_xor r (byte * 2 ^ 16)) (xor-lt 24 r (byte * 2 ^ 16) hr (omega arith))
    ∙ ap (λ t. reduce k (t * 2 ^ k)) (sym (round_shifts r byte hr hb))

pub checksum_round-lt : (r byte : ℕ) → byte < 256 → checksum_round r byte < 2 ^ 24
checksum_round-lt r byte hb = omega (
  arith,
  checksum_round_lem r byte hb,
  and_mask 24 (bit_xor (u32 (r <<< 8)) (crc_entry (table_index r byte))),
)
