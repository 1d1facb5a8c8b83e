-- ===== src/ModeAc/Defs.antt =====
-- mode_ac.c, and `modeAToIndex` and `indexToModeA` of track.h.
use rbfeeder.Base.{ℕ, zero, suc, ◌+◌, ◌-◌, ◌*◌, bit_and, bit_or, bit_xor, List, Option, none, some}
use rbfeeder.Base.{not, ◌||◌, ltb, leb, ◌==◌, if◌then◌else◌, has, get_or, set}
use rbfeeder.Base.{replicate, tabulate, ◌<<<◌, ◌>>>◌}
use rbfeeder.Base.Int.{ℤ, pos, negsuc, sub_ℕ, ◌+ℤ◌}

-- `INVALID_ALTITUDE`, -9999
abbrev pub invalid_altitude : ℤ
invalid_altitude = negsuc 9998

-- `modeAToIndex` and `indexToModeA`: 0x7777 without its gaps, and back.
unfoldable pub mode_a_to_index : ℕ → ℕ
mode_a_to_index a =
    bit_or (bit_or (bit_or (bit_and a 0x7) (bit_and a 0x70 >>> 1)) (bit_and a 0x700 >>> 2))
      (bit_and a 0x7000 >>> 3)

unfoldable pub index_to_mode_a : ℕ → ℕ
index_to_mode_a i =
    bit_or (bit_or (bit_or (bit_and i 0o7) (bit_and i 0o70 <<< 1)) (bit_and i 0o700 <<< 2))
      (bit_and i 0o7000 <<< 3)

-- `if (a & mask) { v ^= term; }`
abbrev pub xor_if : ℕ → ℕ → ℕ → ℕ → ℕ
xor_if a mask term v = if has a mask then bit_xor v term else v

-- The hundreds of `internalModeAToModeC`, with the sevens removed.
unfoldable pub one_hundreds : ℕ → ℕ
one_hundreds a =
    let h = xor_if a 0x0040 0x001 (xor_if a 0x0020 0x003 (xor_if a 0x0010 0x007 0)) in
    if bit_and h 5 == 5 then bit_xor h 2 else h

unfoldable pub five_hundreds : ℕ → ℕ
five_hundreds a =
    let d = xor_if a 0x0004 0x07f (xor_if a 0x0002 0x0ff 0) in
    let e = xor_if a 0x4000 0x00f (xor_if a 0x2000 0x01f (xor_if a 0x1000 0x03f d)) in
    xor_if a 0x0400 0x001 (xor_if a 0x0200 0x003 (xor_if a 0x0100 0x007 e))

-- `internalModeAToModeC`, in hundreds of feet.
unfoldable pub internal_mode_a_to_mode_c : ℕ → ℤ
internal_mode_a_to_mode_c a =
    let h = one_hundreds a in
    let f = five_hundreds a in
    if has a 0xffff8889 || not (has a 0x000000f0)
    then invalid_altitude
    else if ltb 5 h
    then invalid_altitude
    else sub_ℕ (f * 5 + (if has f 1 then 6 - h else h)) 13

-- `modeC + 13` as an index into `modeCToATable`, if it is one.
abbrev pub in_table : ℤ → Option ℕ
in_table (pos n) = if ltb n 4096 then some n else none
in_table (negsuc n) = none

abbrev pub write_at : Option ℕ → ℕ → List ℕ → List ℕ
write_at none a table = table
write_at (some k) a table = set table k a

abbrev pub key_of : ℕ → Option ℕ
key_of i = in_table (internal_mode_a_to_mode_c (index_to_mode_a i) +ℤ pos 13)

-- The loop of `modeACInit` at index `i`, on `modeCToATable`.
unfoldable pub init_loop : ℕ → ℕ → List ℕ → List ℕ
init_loop zero i table = table
init_loop (suc left) i table =
    init_loop left (i + 1) (write_at (key_of i) (index_to_mode_a i) table)

-- `modeAToCTable` and `modeCToATable` after `modeACInit`.
unfoldable pub mode_a_to_c_table : List ℤ
mode_a_to_c_table = tabulate 4096 0 (λ i. internal_mode_a_to_mode_c (index_to_mode_a i))

unfoldable pub mode_c_to_a_table : List ℕ
mode_c_to_a_table = init_loop 4096 0 (replicate 4096 0)

unfoldable pub mode_a_to_mode_c : ℕ → ℤ
mode_a_to_mode_c a =
    let i = mode_a_to_index a in
    if leb 4096 i then invalid_altitude else get_or mode_a_to_c_table i invalid_altitude

abbrev pub code_at : Option ℕ → ℕ
code_at none = 0
code_at (some k) = get_or mode_c_to_a_table k 0

unfoldable pub mode_c_to_mode_a : ℤ → ℕ
mode_c_to_mode_a c = code_at (in_table (c +ℤ pos 13))
