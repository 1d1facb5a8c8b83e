-- ===== src/Crc/Linear.antt =====
-- `modesChecksum` is linear: the checksum of a damaged message is that of the message, changed by
-- that of the damage.
use rbfeeder.Base.{ℕ, zero, suc, ◌+◌, ◌-◌, ◌/◌, ◌%◌, ◌^◌, ◌<◌, bit_and, bit_xor, List, [], ◌∷◌, All}
use rbfeeder.Base.{◌≡◌, refl, sym, ◌∙◌, ap, ap₂, arith, get_or, get_or-tabulate}
use rbfeeder.Base.{◌==◌, has, u32, ◌<<<◌, ◌>>>◌}
use rbfeeder.Base.Bits.Xor.{xor-div, xor-mul, xor-mod, xor-lt, xor-mod-two, xor_medial}
use rbfeeder.Base.Bits.Xor.{xor_assoc, xor_left, xor_both}
use rbfeeder.Base.Bits.Fields.{and_mask, and_shifted, and_bit}
use rbfeeder.Crc.Checksum.{
  generator_poly, crc_shift, crc_shifts, crc_entry, crc_table, checksum_round, checksum_loop,
  modes_checksum,
}

abbrev pub IsLinear : (ℕ → ℕ) → Type 0
IsLinear f = (a b : ℕ) → f (bit_xor a b) ≡ bit_xor (f a) (f b)

-- The test of bit 23.
pub top_bit : (c : ℕ) → has c 0x800000 ≡ (c / 2 ^ 23 % 2 == 1)
top_bit c = ground (arith, and_bit 23 c)

shift_left-IsLinear : (k : ℕ) → IsLinear (λ c. u32 (c <<< k))
shift_left-IsLinear k a b =
    sym (ap (λ t. t % 2 ^ 32) (xor-mul k a b)) ∙ xor-mod 32 (a <<< k) (b <<< k)

pub crc_shift-IsLinear : IsLinear crc_shift
unfolding crc_shift
crc_shift-IsLinear a b = ground (
  arith,
  top_bit a,
  top_bit b,
  top_bit (bit_xor a b),
  xor-div 23 a b,
  xor-mod-two (a / 2 ^ 23) (b / 2 ^ 23),
  shift_left-IsLinear 1 a b,
  xor_left (u32 (a <<< 1)) (u32 (b <<< 1)) generator_poly,
  xor_assoc (u32 (a <<< 1)) (u32 (b <<< 1)) generator_poly,
  xor_both (u32 (a <<< 1)) (u32 (b <<< 1)) generator_poly,
)

pub crc_shifts-IsLinear : (n : ℕ) → IsLinear (crc_shifts n)
unfolding crc_shifts
crc_shifts-IsLinear zero a b = refl
crc_shifts-IsLinear (suc n) a b =
    ap (crc_shifts n) (crc_shift-IsLinear a b) ∙ crc_shifts-IsLinear n (crc_shift a) (crc_shift b)

pub low_24-IsLinear : IsLinear (λ c. bit_and c 0xffffff)
low_24-IsLinear a b =
    and_mask 24 (bit_xor a b)
    ∙ xor-mod 24 a b
    ∙ ap₂ bit_xor (sym (and_mask 24 a)) (sym (and_mask 24 b))

pub crc_entry-IsLinear : IsLinear crc_entry
unfolding crc_entry
crc_entry-IsLinear a b =
    ap (λ t. bit_and (crc_shifts 8 t) 0xffffff) (sym (xor-mul 16 a b))
    ∙ ap (λ t. bit_and t 0xffffff) (crc_shifts-IsLinear 8 (a <<< 16) (b <<< 16))
    ∙ low_24-IsLinear (crc_shifts 8 (a <<< 16)) (crc_shifts 8 (b <<< 16))

-- The index into the table.
pub top_byte : (r : ℕ) → bit_and r 0xff0000 >>> 16 ≡ r / 2 ^ 16 % 2 ^ 8
top_byte r = omega (arith, and_shifted 16 r 0xff, and_mask 8 (r / 2 ^ 16))

abbrev pub table_index : ℕ → ℕ → ℕ
table_index r byte = bit_xor byte (r / 2 ^ 16 % 2 ^ 8)

table_index-lt : (r byte : ℕ) → byte < 256 → table_index r byte < 256
table_index-lt r byte h = xor-lt 8 byte (r / 2 ^ 16 % 2 ^ 8) h (omega arith)

pub crc_table_lem : (i : ℕ) → i < 256 → get_or crc_table i 0 ≡ crc_entry i
unfolding crc_table
crc_table_lem i h = get_or-tabulate 256 0 i crc_entry 0 h ∙ ap crc_entry (omega arith)

-- A round as arithmetic.
pub checksum_round_lem :
    (r byte : ℕ)
    → byte < 256
    → checksum_round r byte
      ≡ bit_and (bit_xor (u32 (r <<< 8)) (crc_entry (table_index r byte))) 0xffffff
unfolding checksum_round
checksum_round_lem r byte h =
    ap (λ t. bit_and (bit_xor (u32 (r <<< 8)) t) 0xffffff)
      (ap (λ t. get_or crc_table (bit_xor byte t) 0) (top_byte r)
        ∙ crc_table_lem (table_index r byte) (table_index-lt r byte h))

table_index-xor :
    (r s x y : ℕ)
    → table_index (bit_xor r s) (bit_xor x y) ≡ bit_xor (table_index r x) (table_index s y)
table_index-xor r s x y =
    ap (bit_xor (bit_xor x y))
      (ap (λ t. t % 2 ^ 8) (xor-div 16 r s) ∙ xor-mod 8 (r / 2 ^ 16) (s / 2 ^ 16))
    ∙ xor_medial x y (r / 2 ^ 16 % 2 ^ 8) (s / 2 ^ 16 % 2 ^ 8)

pub checksum_round-xor :
    (r s x y : ℕ)
    → x < 256
    → y < 256
    → checksum_round (bit_xor r s) (bit_xor x y) ≡ bit_xor (checksum_round r x) (checksum_round s y)
checksum_round-xor r s x y hx hy =
    checksum_round_lem (bit_xor r s) (bit_xor x y) (xor-lt 8 x y hx hy)
    ∙ ap (λ t. bit_and t 0xffffff)
        (ap₂ bit_xor (shift_left-IsLinear 8 r s) (
            ap crc_entry (table_index-xor r s x y)
            ∙ crc_entry-IsLinear (table_index r x) (table_index s y))
          ∙ xor_medial (u32 (r <<< 8)) (u32 (s <<< 8)) (crc_entry (table_index r x))
              (crc_entry (table_index s y)))
    ∙ low_24-IsLinear (bit_xor (u32 (r <<< 8)) (crc_entry (table_index r x)))
        (bit_xor (u32 (s <<< 8)) (crc_entry (table_index s y)))
    ∙ ap₂ bit_xor (sym (checksum_round_lem r x hx)) (sym (checksum_round_lem s y hy))

-- Every byte of `r` is the sum of those of `m` and `e`.
abbrev pub IsSum : List ℕ → List ℕ → List ℕ → Type 0
IsSum m e r = (i : ℕ) → get_or r i 0 ≡ bit_xor (get_or m i 0) (get_or e i 0)

abbrev pub IsBytes : List ℕ → Type 0
IsBytes m = (i : ℕ) → get_or m i 0 < 256

pub All-IsBytes : (m : List ℕ) → All (λ b. b < 256) m → IsBytes m
All-IsBytes [] h i = omega arith
All-IsBytes (b ∷ m) h zero = h.0
All-IsBytes (b ∷ m) h (suc i) = All-IsBytes m h.1 i

module _ (m e r : List ℕ) (sum : IsSum m e r) (hm : IsBytes m) (he : IsBytes e) where
  checksum_loop-xor :
      (left i u v : ℕ)
      → checksum_loop left i (bit_xor u v) r
        ≡ bit_xor (checksum_loop left i u m) (checksum_loop left i v e)
  unfolding checksum_loop
  checksum_loop-xor zero i u v = refl
  checksum_loop-xor (suc left) i u v =
      ap (λ t. checksum_loop left (i + 1) t r)
        (ap (checksum_round (bit_xor u v)) (sum i)
          ∙ checksum_round-xor u v (get_or m i 0) (get_or e i 0) (hm i) (he i))
      ∙ checksum_loop-xor left (i + 1) (checksum_round u (get_or m i 0))
          (checksum_round v (get_or e i 0))

  -- The checksum of the sum of two messages, byte by byte, is the sum of their checksums.
  pub checksum-xor :
      (bits : ℕ) → modes_checksum r bits ≡ bit_xor (modes_checksum m bits) (modes_checksum e bits)
  unfolding modes_checksum
  checksum-xor bits =
      let n = bits / 8 in
      ap₂ bit_xor
        (ap₂ bit_xor
            (ap₂ bit_xor (checksum_loop-xor (n - 3) 0 0 0) (shifted_byte 16 (n - 3))
              ∙ xor_medial (rem m) (rem e) (get_or m (n - 3) 0 <<< 16) (get_or e (n - 3) 0 <<< 16))
            (shifted_byte 8 (n - 2))
          ∙ xor_medial (bit_xor (rem m) (get_or m (n - 3) 0 <<< 16))
              (bit_xor (rem e) (get_or e (n - 3) 0 <<< 16)) (get_or m (n - 2) 0 <<< 8)
              (get_or e (n - 2) 0 <<< 8))
        (sum (n - 1))
      ∙ xor_medial
          (bit_xor (bit_xor (rem m) (get_or m (n - 3) 0 <<< 16)) (get_or m (n - 2) 0 <<< 8))
          (bit_xor (bit_xor (rem e) (get_or e (n - 3) 0 <<< 16)) (get_or e (n - 2) 0 <<< 8))
          (get_or m (n - 1) 0) (get_or e (n - 1) 0)
    where
      rem : List ℕ → ℕ
      rem x = checksum_loop (bits / 8 - 3) 0 0 x

      shifted_byte :
          (k i : ℕ) → get_or r i 0 <<< k ≡ bit_xor (get_or m i 0 <<< k) (get_or e i 0 <<< k)
      shifted_byte k i = ap (λ t. t <<< k) (sum i) ∙ sym (xor-mul k (get_or m i 0) (get_or e i 0))
