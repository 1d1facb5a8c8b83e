-- ===== src/Net/Beast.antt =====
-- net_io.c: `writeBeastMessage`, and the reading of a report in `decodeBinMessage`.
use rbfeeder.Base.{
  ℕ, zero, suc, ◌+◌, ◌%◌, ◌^◌, List, [], ◌∷◌, ◌++◌, Bool, ◌&&◌, ltb, ◌==◌, if◌then◌else◌, Option,
  none, some, length, drop, get_or, bit_and, bit_or, ◌<<<◌, ◌>>>◌,
}
use rbfeeder.Base.Int.{pos, pos_part}
use rbfeeder.Base.Ratio.{Ratio, whole, lt_ratio, round_div}
use rbfeeder.Base.Double.{double, mul_double, sqrt_double}

-- `*p++ = ch; if (0x1A == ch) *p++ = ch;`
unfoldable pub put : ℕ → List ℕ → List ℕ
put ch rest = if ch == 0x1a then ch ∷ ch ∷ rest else ch ∷ rest

unfoldable pub put_all : List ℕ → List ℕ
put_all [] = []
put_all (ch ∷ chs) = let rest = put_all chs in put ch rest

-- The type of a message, by its length.
unfoldable pub beast_type : ℕ → Option ℕ
beast_type n =
    if n == 7 then some 0x32 else if n == 14 then some 0x33 else if n == 2 then some 0x31 else none

-- The six bytes of a timestamp.
unfoldable pub timestamp_bytes : ℕ → List ℕ
timestamp_bytes t =
    (t >>> 40) % 256
    ∷ (t >>> 32) % 256
    ∷ (t >>> 24) % 256
    ∷ (t >>> 16) % 256
    ∷ (t >>> 8) % 256
    ∷ t % 256
    ∷ []

-- `round(sqrt(signalLevel) * 255)`, brought into the range of a byte, and above 0 if the level is.
unfoldable pub signal_byte : Ratio → ℕ
signal_byte level =
    let scaled = mul_double (sqrt_double level) (whole (pos 255)) in
    let sig = pos_part (round_div scaled.num scaled.den) in
    if lt_ratio (whole (pos 0)) level && ltb sig 1 then 1 else if ltb 255 sig then 255 else sig

unfoldable pub beast_body : ℕ → Ratio → List ℕ → List ℕ
beast_body timestamp level msg = timestamp_bytes timestamp ++ signal_byte level ∷ msg

unfoldable pub frame_of : Option ℕ → List ℕ → Option (List ℕ)
frame_of none body = none
frame_of (some t) body = some (0x1a ∷ t ∷ put_all body)

-- What `writeBeastMessage` puts into the buffer of its writer; `none` is its return without a message.
unfoldable pub write_beast_message : ℕ → Ratio → List ℕ → Option (List ℕ)
write_beast_message timestamp level msg =
    frame_of (beast_type (length msg)) (beast_body timestamp level msg)

-- `ch = *p++; if (0x1A == ch) p++;`, as often as there are bytes to read.
unfoldable pub take_bytes : ℕ → List ℕ → List ℕ
take_bytes zero p = []
take_bytes (suc n) p =
    let ch = get_or p 0 0 in
    let escaped = take_bytes n (drop 2 p) in
    let plain = take_bytes n (drop 1 p) in ch ∷ (if ch == 0x1a then escaped else plain)

unfoldable pub add_byte : ℕ → ℕ → ℕ
add_byte t ch = bit_or ((t <<< 8) % 2 ^ 64) (bit_and ch 255)

-- What `decodeBinMessage` reads from a report: the timestamp, the level and the message.
pub record RemoteReport : Type 0 where
  pub timestamp : ℕ
  pub level : Ratio
  pub msg : List ℕ

unfoldable pub level_of : ℕ → Ratio
level_of ch = let level = double (record { num = pos ch; den = 255 }) in mul_double level level

unfoldable pub read_report : List ℕ → RemoteReport
read_report bytes = record {
  timestamp =
      add_byte
        (add_byte
          (add_byte
            (add_byte (add_byte (add_byte 0 (get_or bytes 0 0)) (get_or bytes 1 0))
              (get_or bytes 2 0))
            (get_or bytes 3 0))
          (get_or bytes 4 0))
        (get_or bytes 5 0);
  level = level_of (get_or bytes 6 0);
  msg = drop 7 bytes;
}

-- `msgLen` of a type; replies of Mode A and C are taken only with `Modes.mode_ac`.
unfoldable pub message_length : Bool → ℕ → Option ℕ
message_length mode_ac t =
    if t == 0x31 && mode_ac
    then some 2
    else if t == 0x32
    then some 7
    else if t == 0x33
    then some 14
    else none

unfoldable pub report_of_length : Option ℕ → List ℕ → Option RemoteReport
report_of_length none p = none
report_of_length (some n) p = some (read_report (take_bytes (7 + n) p))

-- `decodeBinMessage` up to the decoders, from the byte of the type on; `none` for what it does not hand on.
unfoldable pub decode_bin_report : Bool → List ℕ → Option RemoteReport
decode_bin_report mode_ac [] = none
decode_bin_report mode_ac (t ∷ p) = report_of_length (message_length mode_ac t) p
