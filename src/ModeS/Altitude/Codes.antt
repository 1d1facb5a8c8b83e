-- ===== src/ModeS/Altitude/Codes.antt =====
-- The altitude and squawk fields against encoders for them.
use rbfeeder.Base.{
  ℕ, zero, suc, ◌⊎◌, inl, inr, ◌+◌, ◌*◌, ◌/◌, ◌%◌, ◌≤◌, ◌<◌, bit_and, bit_or, Bool, true, false,
  not, ◌&&◌, ◌||◌,
}
use rbfeeder.Base.{
  ◌≡◌, refl, sym, ap, ◌∙◌, subst, arith, ltb, ◌==◌, ==_iff, if◌then◌else◌, has, ◌<<<◌, ◌>>>◌,
}
use rbfeeder.Base.{all_below, all_below_sound, and_parts, Bool-cases, ltb→lt}
use rbfeeder.Base.Int.{ℤ, pos, negsuc, sub_ℕ, ltb_ℤ, ◌*ℤ◌, ◌≤ℤ◌}
use rbfeeder.ModeAc.Defs.{invalid_altitude, mode_a_to_mode_c}
use rbfeeder.ModeAc.Gillham.{gillham_code, mode_a-mode_c, mode_a_to_mode_c-cases}
use rbfeeder.ModeS.Altitude.{
  feet, decode_id13, gillham_altitude, decode_ac13, decode_ac12, decode_movement_v2,
  decode_movement_v0,
}

-- The bit at `place` of the field, for the pulse at `mask` of the code.
abbrev bit_for : ℕ → ℕ → ℕ → ℕ
bit_for code mask place = if has code mask then place else 0

-- The 13-bit field of a squawk: the pulses of C and A in turn, an unused bit, those of B and D in turn.
pub id13_field : ℕ → ℕ
id13_field code =
    bit_for code 0x0010 4096
    + bit_for code 0x1000 2048
    + bit_for code 0x0020 1024
    + bit_for code 0x2000 512
    + bit_for code 0x0040 256
    + bit_for code 0x4000 128
    + bit_for code 0x0100 32
    + bit_for code 0x0001 16
    + bit_for code 0x0200 8
    + bit_for code 0x0002 4
    + bit_for code 0x0400 2
    + bit_for code 0x0004 1

-- The squawk with the octal digits of a number below 4096.
pub octal_squawk : ℕ → ℕ
octal_squawk i = i / 512 * 4096 + i / 64 % 8 * 256 + i / 8 % 8 * 16 + i % 8

squawk_reads : ℕ → Bool
squawk_reads i = decode_id13 (id13_field (octal_squawk i)) == octal_squawk i

every_squawk_reads : all_below 4096 squawk_reads ≡ true
unfolding all_below squawk_reads decode_id13 id13_field octal_squawk
every_squawk_reads = refl

-- Each of the 4096 squawks is read back from its field.
pub decode_id13-id13_field :
    (i : ℕ) → i < 4096 → decode_id13 (id13_field (octal_squawk i)) ≡ octal_squawk i
unfolding squawk_reads
decode_id13-id13_field i h =
    (==_iff (decode_id13 (id13_field (octal_squawk i))) (octal_squawk i)).0
      (all_below_sound 4096 squawk_reads i every_squawk_reads h)

-- A 12-bit field with the M bit put in, and a 13-bit field with the M bit taken out.
abbrev pub with_m : ℕ → ℕ
with_m f = f / 64 * 128 + f % 64

abbrev pub without_m : ℕ → ℕ
without_m f = f / 128 * 64 + f % 64

abbrev inserted : ℕ → ℕ
inserted f = bit_or (bit_and f 0x0fc0 <<< 1) (bit_and f 0x003f)

abbrev n12 : ℕ → ℕ
n12 f = bit_or (bit_and f 0x0fe0 >>> 1) (bit_and f 0x000f)

abbrev n13 : ℕ → ℕ
n13 f = bit_or (bit_or (bit_and f 0x1f80 >>> 2) (bit_and f 0x0020 >>> 1)) (bit_and f 0x000f)

-- By evaluation: the two decoders look at the same bits.
same_bits : ℕ → Bool
same_bits f =
    not (has (with_m f) 0x0040)
    && ((if has f 0x10 then has (with_m f) 0x0010 else not (has (with_m f) 0x0010))
        && ((n12 f == n13 (with_m f)) && (inserted f == with_m f)))

every_same_bits : all_below 4096 same_bits ≡ true
unfolding all_below same_bits
every_same_bits = refl

-- A 12-bit altitude field is decoded as the 13-bit field with M clear is.
pub ac12-ac13 : (f : ℕ) → f < 4096 → decode_ac12 f ≡ decode_ac13 (with_m f)
unfolding decode_ac12 decode_ac13 same_bits
ac12-ac13 f h = ground (arith, all_below_sound 4096 same_bits f every_same_bits h)

-- The field of an altitude in steps of 25 ft from -1000 ft, and of one in Gillham code.
pub field_25 : ℕ → ℕ
field_25 n = n / 16 * 32 + 16 + n % 16

pub gillham_field : ℕ → ℕ
gillham_field n = without_m (id13_field (gillham_code n))

reads_25 : ℕ → Bool
reads_25 n = has (field_25 n) 0x10 && n12 (field_25 n) == n

every_reads_25 : all_below 2048 reads_25 ≡ true
unfolding all_below reads_25 field_25
every_reads_25 = refl

reads_gillham : ℕ → Bool
reads_gillham n =
    not (has (gillham_field n) 0x10) && decode_id13 (inserted (gillham_field n)) == gillham_code n

every_reads_gillham : all_below 1280 reads_gillham ≡ true
unfolding all_below reads_gillham gillham_field id13_field gillham_code decode_id13
every_reads_gillham = refl

gillham_altitude_at :
    (f n : ℕ)
    → mode_a_to_mode_c (decode_id13 f) ≡ sub_ℕ (n + 1) 13
    → n < 1280
    → gillham_altitude f ≡ pos 100 *ℤ sub_ℕ (n + 1) 13
unfolding gillham_altitude
gillham_altitude_at f n altitude h =
    let valid : ltb_ℤ (sub_ℕ (n + 1) 13) (negsuc 11) ≡ false = ground arith in
    rw (altitude, valid) refl

gillham_altitude_of :
    (f n : ℕ)
    → decode_id13 f ≡ gillham_code n
    → n < 1280
    → gillham_altitude f ≡ pos 100 *ℤ sub_ℕ (n + 1) 13
gillham_altitude_of f n e h =
    gillham_altitude_at f n (ap mode_a_to_mode_c e ∙ (mode_a-mode_c n h).0) h

read_gillham :
    (n : ℕ) → n < 1280 → decode_ac12 (gillham_field n) ≡ (pos 100 *ℤ sub_ℕ (n + 1) 13, feet)
unfolding decode_ac12 reads_gillham
read_gillham n h =
    let found : (not (has (gillham_field n) 0x10) ≡ true)
        × ((decode_id13 (inserted (gillham_field n)) == gillham_code n) ≡ true) =
      and_parts _ _ (all_below_sound 1280 reads_gillham n every_reads_gillham h) in
    let code : decode_id13 (inserted (gillham_field n)) ≡ gillham_code n =
      (==_iff (decode_id13 (inserted (gillham_field n))) (gillham_code n)).0 found.1 in
    ground (arith, found.0, gillham_altitude_of (inserted (gillham_field n)) n code h)

read_25 : (n : ℕ) → n < 2048 → decode_ac12 (field_25 n) ≡ (sub_ℕ (n * 25) 1000, feet)
unfolding decode_ac12 reads_25
read_25 n h = ground (arith, all_below_sound 2048 reads_25 n every_reads_25 h)

-- Every altitude that the 12-bit field can carry has a field that is decoded to it: in steps of
-- 25 ft from -1000 to 50175 ft, and in steps of 100 ft from -1200 to 126700 ft.
pub decode_ac12-encoded :
    (n k : ℕ)
    → n < 2048
    → k < 1280
    → (decode_ac12 (field_25 n) ≡ (sub_ℕ (n * 25) 1000, feet))
      × (decode_ac12 (gillham_field k) ≡ (pos 100 *ℤ sub_ℕ (k + 1) 13, feet))
decode_ac12-encoded n k hn hk = (read_25 n hn, read_gillham k hk)

-- In range: from -1200 to 126700 ft.
abbrev pub IsAltitude : ℤ → Type 0
IsAltitude a = (negsuc 1199 ≤ℤ a) × (a ≤ℤ pos 126700)

gillham_range : (n : ℕ) → n < 1280 → IsAltitude (pos 100 *ℤ sub_ℕ (n + 1) 13)
unfolding ◌*ℤ◌
gillham_range n h = ground arith

gillham_altitude-cases :
    (f : ℕ) → (gillham_altitude f ≡ invalid_altitude) ⊎ IsAltitude (gillham_altitude f)
gillham_altitude-cases f = elim (mode_a_to_mode_c-cases (decode_id13 f)) [
  | inl invalid ↦ inl (unfold gillham_altitude in rw invalid refl)
  | inr code ↦ inr (
      subst IsAltitude (sym (gillham_altitude_at f code.0 code.1.altitude code.1.in_range))
        (gillham_range code.0 code.1.in_range))
]

feet_range : (n : ℕ) → n < 2048 → IsAltitude (sub_ℕ (n * 25) 1000)
feet_range n h = ground arith

n12_below : ℕ → Bool
n12_below f = ltb (n12 f) 2048

every_n12_below : all_below 4096 n12_below ≡ true
unfolding all_below n12_below
every_n12_below = refl

-- Whatever the 12-bit field is, the altitude is reported in feet, and it is the invalid one or one from
-- -1200 to 126700 ft.
pub decode_ac12-cases :
    (f : ℕ)
    → f < 4096
    → ((decode_ac12 f).0 ≡ invalid_altitude ⊎ IsAltitude (decode_ac12 f).0)
      × ((decode_ac12 f).1 ≡ feet)
decode_ac12-cases f h = elim (Bool-cases (has f 0x10)) [
  | inl on ↦ (
    inr (unfold decode_ac12 in rw on (feet_range (n12 f) small)),
    unfold decode_ac12 in rw on refl,
  )
  | inr off ↦ (
    unfold decode_ac12 in rw off (gillham_altitude-cases (inserted f)),
    unfold decode_ac12 in rw off refl,
  )
]
  where
    small : n12 f < 2048
    small =
        unfold n12_below in ltb→lt (n12 f) 2048 (all_below_sound 4096 n12_below f every_n12_below h)

-- By evaluation: a faster code is a faster speed, in the two versions.
grows : ℕ → Bool
grows m =
    ltb (decode_movement_v0 m) (decode_movement_v0 (m + 1))
      && ltb (decode_movement_v2 m) (decode_movement_v2 (m + 1))
    || m == 0

every_grows : all_below 124 grows ≡ true
unfolding all_below grows decode_movement_v0 decode_movement_v2
every_grows = refl

grows_once :
    (m : ℕ)
    → 1 ≤ m
    → m < 124
    → (decode_movement_v0 m < decode_movement_v0 (m + 1))
      × (decode_movement_v2 m < decode_movement_v2 (m + 1))
unfolding grows
grows_once m low high = ground (arith, all_below_sound 124 grows m every_grows high)

-- Of two valid movement codes from 1 (stopped) to 124, the greater stands for the greater speed, in
-- either version of the field.
movement-increasing :
    (d m : ℕ)
    → 1 ≤ m
    → m + suc d ≤ 124
    → (decode_movement_v0 m < decode_movement_v0 (m + suc d))
      × (decode_movement_v2 m < decode_movement_v2 (m + suc d))
movement-increasing zero m low high = grows_once m low (omega arith)
movement-increasing (suc d) m low high =
    let e : m + 1 + suc d ≡ m + suc (suc d) = omega arith in
    let first = grows_once m low (omega arith) in
    let rest = movement-increasing d (m + 1) (omega arith) (omega arith) in
    let rest0 : decode_movement_v0 (m + 1) < decode_movement_v0 (m + suc (suc d)) =
      subst (λ t. decode_movement_v0 (m + 1) < decode_movement_v0 t) e rest.0 in
    let rest2 : decode_movement_v2 (m + 1) < decode_movement_v2 (m + suc (suc d)) =
      subst (λ t. decode_movement_v2 (m + 1) < decode_movement_v2 t) e rest.1 in
    (omega (arith, first.0, rest0), omega (arith, first.1, rest2))
