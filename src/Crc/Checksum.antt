-- ===== src/Crc/Checksum.antt =====
-- crc.c: the lookup tables of `initLookupTables` and `modesChecksum`.
-- A message is the list of its bytes; a read past its end is 0, and the theorems ask for enough
-- bytes.
use rbfeeder.Base.{ℕ, zero, suc, ◌+◌, ◌-◌, ◌/◌, bit_and, bit_xor, List, [], ◌∷◌}
use rbfeeder.Base.{if◌then◌else◌, get_or, set, replicate, tabulate, u32, ◌<<<◌, ◌>>>◌, has}

-- `MODES_GENERATOR_POLY`
abbrev pub generator_poly : ℕ
generator_poly = 0xfff409

-- One round of the inner loop: `c` is a `uint32_t`.
unfoldable pub crc_shift : ℕ → ℕ
crc_shift c = if has c 0x800000 then bit_xor (u32 (c <<< 1)) generator_poly else u32 (c <<< 1)

unfoldable pub crc_shifts : ℕ → ℕ → ℕ
crc_shifts zero c = c
crc_shifts (suc j) c = crc_shifts j (crc_shift c)

-- `crc_table[i]`
unfoldable pub crc_entry : ℕ → ℕ
crc_entry i = bit_and (crc_shifts 8 (i <<< 16)) 0x00ffffff

-- `crc_table`
unfoldable pub crc_table : List ℕ
crc_table = tabulate 256 0 crc_entry

-- The loop body of `modesChecksum`.
unfoldable pub checksum_round : ℕ → ℕ → ℕ
checksum_round rem byte =
    let index = bit_xor byte (bit_and rem 0xff0000 >>> 16) in
    bit_and (bit_xor (u32 (rem <<< 8)) (get_or crc_table index 0)) 0xffffff

-- The loop at index `i`, with `left` rounds to go.
unfoldable pub checksum_loop : ℕ → ℕ → ℕ → List ℕ → ℕ
checksum_loop zero i rem message = rem
checksum_loop (suc left) i rem message =
    checksum_loop left (i + 1) (checksum_round rem (get_or message i 0)) message

-- `modesChecksum`; its asserts `bits % 8 == 0` and `n >= 3` are for the caller.
unfoldable pub modes_checksum : List ℕ → ℕ → ℕ
modes_checksum message bits =
    let n = bits / 8 in
    let rem = checksum_loop (n - 3) 0 0 message in
    bit_xor
      (bit_xor (bit_xor rem (get_or message (n - 3) 0 <<< 16)) (get_or message (n - 2) 0 <<< 8))
      (get_or message (n - 1) 0)

-- `msg[i >> 3] ^= 1 << (7 - (i & 7))`
unfoldable pub flip_bit : List ℕ → ℕ → List ℕ
flip_bit msg i = set msg (i / 8) (bit_xor (get_or msg (i / 8) 0) (1 <<< (7 - bit_and i 7)))

-- The loop that fills `single_bit_syndrome`: each bit is flipped, and flipped back.
unfoldable pub syndrome_loop : ℕ → ℕ → List ℕ → List ℕ
syndrome_loop zero i msg = []
syndrome_loop (suc left) i msg =
    modes_checksum (flip_bit msg i) 112 ∷ syndrome_loop left (i + 1) (flip_bit (flip_bit msg i) i)

-- `single_bit_syndrome`
unfoldable pub single_bit_syndrome : List ℕ
single_bit_syndrome = syndrome_loop 112 0 (replicate 14 0)
