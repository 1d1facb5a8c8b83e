-- ===== src/ModeS/Bits.antt =====
-- mode_s.h: `getbit` and `getbits`.
pub mod Value
use rbfeeder.Base.{
  ℕ, ◌+◌, ◌-◌, bit_and, bit_or, List, Bool, not, ◌==◌, if◌then◌else◌, get_or, u32, has, ◌<<<◌,
  ◌>>>◌,
}

-- `getbit`, 0 or 1
unfoldable pub getbit : List ℕ → ℕ → ℕ
getbit msg bitnum =
    let bi = bitnum - 1 in if has (get_or msg (bi >>> 3) 0) (1 <<< (7 - bit_and bi 7)) then 1 else 0

-- The bytes of a field from byte `fby` on: the first is masked, the last gives its upper bits. The
-- shift counts of the source are `8 * k - shift`.
unfoldable pub getbits : List ℕ → ℕ → ℕ → ℕ
getbits msg firstbit lastbit =
    let fbi = firstbit - 1 in
    let lbi = lastbit - 1 in
    let fby = fbi >>> 3 in
    let lby = lbi >>> 3 in
    let nby = lby - fby + 1 in
    let shift = 7 - bit_and lbi 7 in
    let first = bit_and (get_or msg fby 0) (0xff >>> bit_and fbi 7) in
    let byte : ℕ → ℕ = λ k. get_or msg (fby + k) 0 in
    if nby == 5
    then bit_or
        (bit_or
          (bit_or (bit_or (u32 (first <<< (32 - shift))) (u32 (byte 1 <<< (24 - shift))))
            (byte 2 <<< (16 - shift)))
          (byte 3 <<< (8 - shift)))
        (byte 4 >>> shift)
    else if nby == 4
    then bit_or
        (bit_or (bit_or (u32 (first <<< (24 - shift))) (byte 1 <<< (16 - shift)))
          (byte 2 <<< (8 - shift)))
        (byte 3 >>> shift)
    else if nby == 3
    then bit_or (bit_or (first <<< (16 - shift)) (byte 1 <<< (8 - shift))) (byte 2 >>> shift)
    else if nby == 2
    then bit_or (first <<< (8 - shift)) (byte 1 >>> shift)
    else if nby == 1
    then first >>> shift
    else 0
