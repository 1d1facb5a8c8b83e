-- ===== src/ModeS/Altitude.antt =====
-- mode_s.c: the squawk, altitude and movement fields.
pub mod Codes
use rbfeeder.Base.{
  ℕ, ◌+◌, ◌-◌, ◌*◌, bit_and, bit_or, Bool, ltb, leb, ◌==◌, if◌then◌else◌, has, ◌<<<◌, ◌>>>◌,
}
use rbfeeder.Base.Int.{ℤ, pos, negsuc, sub_ℕ, ltb_ℤ, ◌*ℤ◌}
use rbfeeder.ModeAc.Defs.{invalid_altitude, mode_a_to_mode_c}

-- `altitude_unit_t`
pub data AltitudeUnit : Type 0 where
  feet : AltitudeUnit
  meters : AltitudeUnit

-- `if (field & mask) {hexGillham |= term;}`
abbrev pub or_if : ℕ → ℕ → ℕ → ℕ → ℕ
or_if field mask term v = if has field mask then bit_or v term else v

-- `decodeID13Field`
unfoldable pub decode_id13 : ℕ → ℕ
decode_id13 f =
    let c =
      or_if f 0x0200 0x2000
        (or_if f 0x0400 0x0020 (or_if f 0x0800 0x1000 (or_if f 0x1000 0x0010 0))) in
    let a = or_if f 0x0020 0x0100 (or_if f 0x0080 0x4000 (or_if f 0x0100 0x0040 c)) in
    let b = or_if f 0x0004 0x0002 (or_if f 0x0008 0x0200 (or_if f 0x0010 0x0001 a)) in
    or_if f 0x0001 0x0004 (or_if f 0x0002 0x0400 b)

-- `n * 25 - 1000`
abbrev pub in_25_feet : ℕ → ℤ
in_25_feet n = sub_ℕ (n * 25) 1000

-- The Gillham altitude of a 13-bit field.
unfoldable pub gillham_altitude : ℕ → ℤ
gillham_altitude f =
    let n = mode_a_to_mode_c (decode_id13 f) in
    if ltb_ℤ n (negsuc 11) then invalid_altitude else pos 100 *ℤ n

-- `decodeAC13Field`
unfoldable pub decode_ac13 : ℕ → ℤ × AltitudeUnit
decode_ac13 f =
    let n = bit_or (bit_or (bit_and f 0x1f80 >>> 2) (bit_and f 0x0020 >>> 1)) (bit_and f 0x000f) in
    if has f 0x0040
    then (invalid_altitude, meters)
    else if has f 0x0010
    then (in_25_feet n, feet)
    else (gillham_altitude f, feet)

-- `decodeAC12Field`
unfoldable pub decode_ac12 : ℕ → ℤ × AltitudeUnit
decode_ac12 f =
    let n = bit_or (bit_and f 0x0fe0 >>> 1) (bit_and f 0x000f) in
    let with_m = bit_or (bit_and f 0x0fc0 <<< 1) (bit_and f 0x003f) in
    if has f 0x10 then (in_25_feet n, feet) else (gillham_altitude with_m, feet)

-- `decodeMovementFieldV2` and `decodeMovementFieldV0`, exactly, in units of 1/96 kt.
unfoldable pub decode_movement_v2 : ℕ → ℕ
decode_movement_v2 m =
    if leb 125 m
    then 0
    else if m == 124
    then 180 * 96
    else if leb 109 m
    then 100 * 96 + ((m - 109) * 2 + 1) * 240
    else if leb 94 m
    then 70 * 96 + ((m - 94) * 2 + 1) * 96
    else if leb 39 m
    then 15 * 96 + ((m - 39) * 2 + 1) * 48
    else if leb 13 m
    then 2 * 96 + ((m - 13) * 2 + 1) * 24
    else if leb 9 m
    then 96 + ((m - 9) * 2 + 1) * 12
    else if leb 3 m
    then 12 + ((m - 3) * 2 + 1) * 7
    else if leb 2 m
    then 6
    else 0

unfoldable pub decode_movement_v0 : ℕ → ℕ
decode_movement_v0 m =
    if leb 125 m
    then 0
    else if m == 124
    then 180 * 96
    else if leb 109 m
    then 100 * 96 + ((m - 109) * 2 + 1) * 240
    else if leb 94 m
    then 70 * 96 + ((m - 94) * 2 + 1) * 96
    else if leb 39 m
    then 15 * 96 + ((m - 39) * 2 + 1) * 48
    else if leb 13 m
    then 2 * 96 + ((m - 13) * 2 + 1) * 24
    else if leb 9 m
    then 96 + ((m - 9) * 2 + 1) * 12
    else if leb 2 m
    then 12 + ((m - 2) * 2 + 1) * 6
    else 0
