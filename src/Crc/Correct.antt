-- ===== src/Crc/Correct.antt =====
-- Correction of a single wrong bit, with the tables of `modesChecksumInit(1)`.
use native.Mathlib.Nat.{pow-le-pow_right}
use rbfeeder.Base.{ℕ, zero, suc, ◌-◌, ◌/◌, ◌<◌, ◌≤◌, bit_and, bit_xor, List, [], ◌∷◌}
use rbfeeder.Base.{◌≡◌, refl, sym, ◌∙◌, ap, arith, get_or, set, length, replicate, tabulate}
use rbfeeder.Base.{
  get_or-replicate, get_or-set_ne, get_or-set_self, set_twice, set-get_or, ℕ_discrete, ◌≢◌, ◌*◌,
  Option, none, some,
}
use rbfeeder.Base.{◌==◌, ◌&&◌, Bool, true, false, ◌<<<◌, all_below, all_below_sound}
use rbfeeder.Base.Bits.Xor.{zero-xor, xor-zero, xor-lt, xor_cancel_right}
use rbfeeder.Crc.Checksum.{
  crc_shift, crc_shifts, crc_entry, crc_table, checksum_round, checksum_loop, modes_checksum,
  flip_bit, syndrome_loop, single_bit_syndrome,
}
use rbfeeder.Crc.Linear.{IsBytes, IsSum, checksum-xor}
use rbfeeder.Crc.Tables.{
  ErrorInfo, error_count, prepare_subtable, with_error, insert_sorted, sort_table, drop_ambiguous,
  search_table, flip_at, prepare_error_table, modes_checksum_init, modes_checksum_diagnose,
  modes_checksum_fix, fix_loop,
}

-- A bit that is flipped twice is as it was.
pub flip_twice : (m : List ℕ) (i : ℕ) → i / 8 < length m → flip_bit (flip_bit m i) i ≡ m
unfolding flip_bit
flip_twice m i h =
    set_twice m (i / 8) v (bit_xor (get_or (set m (i / 8) v) (i / 8) 0) mask)
    ∙ ap (set m (i / 8)) (
        ap (λ t. bit_xor t mask) (get_or-set_self m (i / 8) v 0 h)
        ∙ xor_cancel_right (get_or m (i / 8) 0) mask)
    ∙ set-get_or m (i / 8) 0
  where
    mask : ℕ
    mask = 1 <<< (7 - bit_and i 7)

    v : ℕ
    v = bit_xor (get_or m (i / 8) 0) mask

abbrev pub zeros : List ℕ
zeros = replicate 14 0

-- Flipping a bit of `m` adds to it a message that is zero but for that bit.
pub flip_bit-IsSum :
    (m : List ℕ) (i : ℕ) → i / 8 < length m → i / 8 < 14 → IsSum m (flip_bit zeros i) (flip_bit m i)
unfolding flip_bit
flip_bit-IsSum m i h h14 j = elim (ℕ_discrete (i / 8) j) [
  | yes e ↦ rw (← e) (
      get_or-set_self m (i / 8) (bit_xor (get_or m (i / 8) 0) mask) 0 h
      ∙ ap (bit_xor (get_or m (i / 8) 0)) (sym at_zeros))
  | no ne ↦
      get_or-set_ne m (i / 8) j (bit_xor (get_or m (i / 8) 0) mask) 0 ne
      ∙ sym (xor-zero (get_or m j 0))
      ∙ ap (bit_xor (get_or m j 0)) (sym (off_zeros ne))
]
  where
    mask : ℕ
    mask = 1 <<< (7 - bit_and i 7)

    at_zeros : get_or (set zeros (i / 8) (bit_xor (get_or zeros (i / 8) 0) mask)) (i / 8) 0 ≡ mask
    at_zeros =
        get_or-set_self zeros (i / 8) (bit_xor (get_or zeros (i / 8) 0) mask) 0 (omega arith)
        ∙ ap (λ t. bit_xor t mask) (get_or-replicate 14 (i / 8) 0)
        ∙ zero-xor mask

    off_zeros :
        i / 8 ≢ j → get_or (set zeros (i / 8) (bit_xor (get_or zeros (i / 8) 0) mask)) j 0 ≡ 0
    off_zeros ne =
        get_or-set_ne zeros (i / 8) j (bit_xor (get_or zeros (i / 8) 0) mask) 0 ne
        ∙ get_or-replicate 14 j 0

-- The descriptor asks for the one bit `i`.
abbrev pub is_position : Option ℕ → ℕ → Bool
is_position none i = false
is_position (some b) i = b == i

abbrev pub fixes_only : Option ErrorInfo → ℕ → Bool
fixes_only none i = false
fixes_only (some info) i = error_count info.errors == 1 && is_position (get_or info.bit 0 none) i

-- The descriptor that is found for bit `i` alone.
single_bit_fixed : ℕ → ℕ → Bool
single_bit_fixed n i =
    fixes_only
      (modes_checksum_diagnose (modes_checksum_init 1) (modes_checksum (flip_bit zeros i) n) n) i

every_long_bit : all_below 112 (single_bit_fixed 112) ≡ true
unfolding all_below single_bit_fixed single_bit_syndrome syndrome_loop modes_checksum checksum_loop
    checksum_round crc_table crc_entry crc_shifts crc_shift flip_bit tabulate
    modes_checksum_diagnose modes_checksum_init prepare_error_table prepare_subtable with_error
    sort_table insert_sorted drop_ambiguous search_table
every_long_bit = refl

every_short_bit : all_below 56 (single_bit_fixed 56) ≡ true
unfolding all_below single_bit_fixed single_bit_syndrome syndrome_loop modes_checksum checksum_loop
    checksum_round crc_table crc_entry crc_shifts crc_shift flip_bit tabulate
    modes_checksum_diagnose modes_checksum_init prepare_error_table prepare_subtable with_error
    sort_table insert_sorted drop_ambiguous search_table
every_short_bit = refl

-- Such a descriptor flips bit `i`.
fixes_only-fix :
    (d : Option ErrorInfo) (m : List ℕ) (i : ℕ)
    → fixes_only d i ≡ true
    → modes_checksum_fix m d ≡ flip_bit m i
unfolding modes_checksum_fix fix_loop
fixes_only-fix none m i h = cc
fixes_only-fix (some info) m i h =
    ap (λ t. fix_loop t 0 info.bit m) facts.0 ∙ ap (flip_at m) facts.1
  where
    facts : (error_count info.errors ≡ 1) × (get_or info.bit 0 none ≡ some i)
    facts = ground arith

set-IsBytes : (m : List ℕ) (i v : ℕ) → IsBytes m → v < 256 → IsBytes (set m i v)
set-IsBytes [] i v hm hv j = hm j
set-IsBytes (x ∷ m) zero v hm hv zero = hv
set-IsBytes (x ∷ m) zero v hm hv (suc j) = hm (suc j)
set-IsBytes (x ∷ m) (suc i) v hm hv zero = hm 0
set-IsBytes (x ∷ m) (suc i) v hm hv (suc j) = set-IsBytes m i v (λ k. hm (suc k)) hv j

mask-lt : (k : ℕ) → 1 <<< (7 - k) < 256
mask-lt k = omega (arith, pow-le-pow_right {n = 2} (omega arith) {i = 7 - k} {j = 7} (omega arith))

pub flip_bit-IsBytes : (m : List ℕ) (i : ℕ) → IsBytes m → IsBytes (flip_bit m i)
unfolding flip_bit
flip_bit-IsBytes m i hm =
    set-IsBytes m (i / 8) (bit_xor (get_or m (i / 8) 0) (1 <<< (7 - bit_and i 7))) hm
      (xor-lt 8 (get_or m (i / 8) 0) (1 <<< (7 - bit_and i 7)) (hm (i / 8)) (mask-lt (bit_and i 7)))

zeros-IsBytes : IsBytes zeros
zeros-IsBytes j = rw get_or-replicate (omega arith)

-- A wrong bit changes the checksum by that of the message with the bit alone.
pub flip_bit-checksum :
    (n : ℕ) (m : List ℕ) (i : ℕ)
    → IsBytes m
    → i < n
    → n ≤ 112
    → n ≤ 8 * length m
    → modes_checksum (flip_bit m i) n
      ≡ bit_xor (modes_checksum m n) (modes_checksum (flip_bit zeros i) n)
flip_bit-checksum n m i hm hi hn fits =
    checksum-xor m (flip_bit zeros i) (flip_bit m i)
      (flip_bit-IsSum m i (omega arith) (omega arith)) hm (flip_bit-IsBytes zeros i zeros-IsBytes) n

module _ (n : ℕ) (every : all_below n (single_bit_fixed n) ≡ true) where
  fix_flipped :
      (m : List ℕ) (i : ℕ)
      → IsBytes m
      → modes_checksum m n ≡ 0
      → i < n
      → n ≤ 112
      → n ≤ 8 * length m
      → let damaged = flip_bit m i in
        modes_checksum_fix damaged
          (modes_checksum_diagnose (modes_checksum_init 1) (modes_checksum damaged n) n)
        ≡ m
  unfolding single_bit_fixed
  fix_flipped m i hm valid hi hn fits =
      ap (λ t. modes_checksum_fix damaged (modes_checksum_diagnose (modes_checksum_init 1) t n))
        syndrome
      ∙ fixes_only-fix
          (modes_checksum_diagnose (modes_checksum_init 1) (modes_checksum (flip_bit zeros i) n) n)
          damaged i (all_below_sound n (single_bit_fixed n) i every hi)
      ∙ flip_twice m i (omega arith)
    where
      damaged : List ℕ
      damaged = flip_bit m i

      syndrome : modes_checksum damaged n ≡ modes_checksum (flip_bit zeros i) n
      syndrome =
          flip_bit-checksum n m i hm hi hn fits
          ∙ ap (λ t. bit_xor t (modes_checksum (flip_bit zeros i) n)) valid
          ∙ zero-xor (modes_checksum (flip_bit zeros i) n)

-- The descriptor that is found is for the wrong bit.
pub damaged-fixes_only :
    (m : List ℕ) (i : ℕ)
    → IsBytes m
    → 14 ≤ length m
    → modes_checksum m 112 ≡ 0
    → i < 112
    → fixes_only
        (modes_checksum_diagnose (modes_checksum_init 1) (modes_checksum (flip_bit m i) 112) 112)
        i
      ≡ true
unfolding single_bit_fixed
damaged-fixes_only m i hm fits valid hi =
    ap (λ t. fixes_only (modes_checksum_diagnose (modes_checksum_init 1) t 112) i)
      (flip_bit-checksum 112 m i hm hi (omega arith) (omega arith)
        ∙ ap (λ t. bit_xor t (modes_checksum (flip_bit zeros i) 112)) valid
        ∙ zero-xor (modes_checksum (flip_bit zeros i) 112))
    ∙ all_below_sound 112 (single_bit_fixed 112) i every_long_bit hi

-- One wrong bit of a 112-bit message whose checksum is 0 is found by its syndrome, with the tables
-- for one-bit correction, and the correction gives the message back.
pub long_single_bit_fixed :
    (m : List ℕ) (i : ℕ)
    → IsBytes m
    → 14 ≤ length m
    → modes_checksum m 112 ≡ 0
    → i < 112
    → let damaged = flip_bit m i in
      modes_checksum_fix damaged
        (modes_checksum_diagnose (modes_checksum_init 1) (modes_checksum damaged 112) 112)
      ≡ m
long_single_bit_fixed m i hm fits valid hi =
    fix_flipped 112 every_long_bit m i hm valid hi (omega arith) (omega arith)

-- The same of a 56-bit message.
pub short_single_bit_fixed :
    (m : List ℕ) (i : ℕ)
    → IsBytes m
    → 7 ≤ length m
    → modes_checksum m 56 ≡ 0
    → i < 56
    → let damaged = flip_bit m i in
      modes_checksum_fix damaged
        (modes_checksum_diagnose (modes_checksum_init 1) (modes_checksum damaged 56) 56)
      ≡ m
short_single_bit_fixed m i hm fits valid hi =
    fix_flipped 56 every_short_bit m i hm valid hi (omega arith) (omega arith)
