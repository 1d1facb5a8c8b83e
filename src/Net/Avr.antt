-- ===== src/Net/Avr.antt =====
-- net_io.c: the AVR format, `modesSendRawOutput` and the reading of a line in `decodeHexMessage`. A
-- character is its code.
use rbfeeder.Base.{
  ℕ, zero, suc, ◌+◌, ◌-◌, ◌*◌, ◌/◌, ◌%◌, ◌^◌, List, [], ◌∷◌, Bool, false, not, ◌&&◌, ◌||◌, leb, ltb,
  ◌==◌, if◌then◌else◌, Option, none, some, length, drop, get_or,
}
use rbfeeder.Base.Int.{pos}
use rbfeeder.Base.Ratio.{Ratio, whole}
use rbfeeder.Base.Double.{double, mul_double}

-- A digit of `%X`.
unfoldable pub hex_digit : ℕ → ℕ
hex_digit d = if ltb d 10 then 0x30 + d else 0x37 + d

-- `sprintf(p, "%02X", ch)`
unfoldable pub hex_byte : ℕ → List ℕ → List ℕ
hex_byte ch rest = hex_digit (ch / 16) ∷ hex_digit (ch % 16) ∷ rest

unfoldable pub hex_bytes : List ℕ → List ℕ → List ℕ
hex_bytes [] rest = rest
hex_bytes (ch ∷ chs) rest = hex_byte ch (hex_bytes chs rest)

-- `n` digits of a number.
unfoldable pub hex_digits : ℕ → ℕ → List ℕ → List ℕ
hex_digits zero t rest = rest
hex_digits (suc n) t rest = hex_digits n (t / 16) (hex_digit (t % 16) ∷ rest)

-- A number of more than 12 digits is written in full, but only the first 12 of them are kept.
unfoldable pub top_digits : ℕ → ℕ → ℕ
top_digits zero t = t
top_digits (suc n) t = let higher = top_digits n (t / 16) in if ltb t (2 ^ 48) then t else higher

unfoldable pub avr_start : Bool → ℕ → List ℕ → List ℕ
avr_start mlat timestamp rest =
    if mlat && not (timestamp == 0)
    then 0x40 ∷ hex_digits 12 (top_digits 4 timestamp) rest
    else 0x2a ∷ rest

-- `isspace`
unfoldable pub is_space : ℕ → Bool
is_space ch = ch == 0x20 || (leb 9 ch && leb ch 13)

unfoldable pub trim_left : List ℕ → List ℕ
trim_left [] = []
trim_left (ch ∷ chs) = let rest = trim_left chs in if is_space ch then rest else ch ∷ chs

unfoldable pub keep_if_any : ℕ → List ℕ → List ℕ
keep_if_any ch [] = if is_space ch then [] else ch ∷ []
keep_if_any ch (c ∷ rest) = ch ∷ c ∷ rest

unfoldable pub trim_right : List ℕ → List ℕ
trim_right [] = []
trim_right (ch ∷ chs) = keep_if_any ch (trim_right chs)

-- `hexDigitVal`; `none` is -1.
unfoldable pub hex_digit_val : ℕ → Option ℕ
hex_digit_val c =
    if leb 0x30 c && leb c 0x39
    then some (c - 0x30)
    else if leb 0x41 c && leb c 0x46
    then some (c - 0x37)
    else if leb 0x61 c && leb c 0x66
    then some (c - 0x57)
    else none

-- The size of `(high << 4) | low`, of which the level is the square, in 255ths: -1 for a character that is
-- no digit makes it negative.
unfoldable pub level_size : Option ℕ → Option ℕ → ℕ
level_size high none = 1
level_size none (some low) = 16 - low
level_size (some high) (some low) = 16 * high + low

unfoldable pub both : Option ℕ → Option ℕ → Option (List ℕ) → Option (List ℕ)
both none low rest = none
both (some high) none rest = none
both (some high) (some low) none = none
both (some high) (some low) (some rest) = some ((16 * high + low) ∷ rest)

-- `n` bytes of two digits.
unfoldable pub read_hex : ℕ → List ℕ → Option (List ℕ)
read_hex zero hex = some []
read_hex (suc n) hex =
    both (hex_digit_val (get_or hex 0 0)) (hex_digit_val (get_or hex 1 0)) (read_hex n (drop 2 hex))

-- The level and the bytes of a line.
pub record Line : Type 0 where
  pub level : Ratio
  pub bytes : List ℕ

unfoldable pub line_of : Ratio → Option (List ℕ) → Option Line
line_of level none = none
line_of level (some bytes) = some record { level = level; bytes = bytes }

-- `hex += skip; l -= skip + 1`, the tests of the length, and the digits.
unfoldable pub read_line : Bool → Ratio → ℕ → List ℕ → Option Line
read_line mode_ac level skip hex =
    let n = length hex in
    if n == skip + 1 + 4 && mode_ac
    then line_of level (read_hex 2 (drop skip hex))
    else if n == skip + 1 + 14
    then line_of level (read_hex 7 (drop skip hex))
    else if n == skip + 1 + 28
    then line_of level (read_hex 14 (drop skip hex))
    else none

unfoldable pub level_of_size : ℕ → Ratio
level_of_size s = let level = double (record { num = pos s; den = 255 }) in mul_double level level

unfoldable pub line_by_start : Bool → ℕ → List ℕ → Option Line
line_by_start mode_ac start hex =
    if start == 0x3c
    then read_line mode_ac
        (level_of_size
          (level_size (hex_digit_val (get_or hex 13 0)) (hex_digit_val (get_or hex 14 0))))
        15 hex
    else if start == 0x40 || start == 0x25
    then read_line mode_ac (whole (pos 0)) 13 hex
    else if start == 0x2a || start == 0x3a
    then read_line mode_ac (whole (pos 0)) 1 hex
    else none

-- `hex[l-1] != ';'` of a line that is not empty; of one that is, the code reads the byte before it.
unfoldable pub ends_line : List ℕ → Bool
ends_line [] = false
ends_line (ch ∷ []) = ch == 0x3b
ends_line (ch ∷ c ∷ chs) = ends_line (c ∷ chs)

-- `decodeHexMessage` up to the decoders; `none` for a line that it does not hand on.
unfoldable pub decode_hex_line : Bool → List ℕ → Option Line
decode_hex_line mode_ac line =
    let hex = trim_left (trim_right line) in
    if ends_line hex then line_by_start mode_ac (get_or hex 0 0) hex else none
