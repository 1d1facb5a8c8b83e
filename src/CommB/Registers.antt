-- ===== src/CommB/Registers.antt =====
-- comm_b.c: `decodeEmptyResponse`, `decodeBDS10`, `decodeBDS17`, `decodeBDS20`, `decodeBDS30` and
-- `decodeBDS05`.
use rbfeeder.Base.{
  ℕ, ◌+◌, List, [], ◌∷◌, Bool, true, not, ◌&&◌, ◌||◌, ltb, ◌==◌, if◌then◌else◌, get_or, bit_and,
  bit_or, ◌<<<◌, Option, none, some,
}
use rbfeeder.Base.Int.{ℤ, pos, negsuc, ◌+ℤ◌}
use rbfeeder.ModeS.Bits.{getbit, getbits}
use rbfeeder.ModeS.Squitter.Ident.{is_callsign_char, read_callsign}
use rbfeeder.ModeS.Message.{
  Data, CommBFormat, commb_empty_response, commb_datalink_caps, commb_gicb_caps,
  commb_aircraft_ident, commb_acas_ra, commb_airborne_position,
}
use rbfeeder.CommB.Reply.{Decoder, add}

-- The switch on the first byte.
unfoldable pub is_empty_start : ℕ → Bool
is_empty_start b = b == 0x00 || (b == 0x40 || (b == 0x50 || b == 0x60))

unfoldable pub score_empty_response : List ℕ → Option ℤ
score_empty_response msg =
    if is_empty_start (get_or msg 0 0)
      && (get_or msg 1 0 == 0
          && (get_or msg 2 0 == 0
              && (get_or msg 3 0 == 0
                  && (get_or msg 4 0 == 0 && (get_or msg 5 0 == 0 && get_or msg 6 0 == 0)))))
    then some (pos 56)
    else none

unfoldable pub with_format : CommBFormat → Data → Data
with_format format d = record d { commb_format = format }

-- `decodeEmptyResponse`
abbrev pub decode_empty_response : Decoder
decode_empty_response = record {
  score_of = λ h r. score_empty_response r.mb;
  stored = λ h r. with_format commb_empty_response;
}

unfoldable pub score_bds10 : List ℕ → Option ℤ
score_bds10 msg = if get_or msg 0 0 == 0x10 && getbits msg 10 14 == 0 then some (pos 56) else none

-- `decodeBDS10`
abbrev pub decode_bds10 : Decoder
decode_bds10 = record {
  score_of = λ h r. score_bds10 r.mb;
  stored = λ h r. with_format commb_datalink_caps;
}

-- What one capability bit adds.
unfoldable pub if_set : List ℕ → ℕ → ℤ → ℤ → ℤ
if_set msg bitnum set clear = if getbit msg bitnum == 1 then set else clear

-- The capabilities that are on almost everything, and those that are unlikely.
unfoldable pub capabilities : List ℕ → ℤ
capabilities msg =
    if_set msg 7 (pos 1) (negsuc 1)
    +ℤ if_set msg 10 (negsuc 1) (pos 0)
    +ℤ if_set msg 11 (negsuc 1) (pos 0)
    +ℤ if_set msg 12 (negsuc 1) (pos 0)
    +ℤ if_set msg 13 (negsuc 0) (pos 0)
    +ℤ if_set msg 14 (negsuc 0) (pos 0)
    +ℤ if_set msg 20 (negsuc 1) (pos 0)
    +ℤ if_set msg 21 (negsuc 1) (pos 0)
    +ℤ if_set msg 22 (negsuc 1) (pos 0)

-- The bits of the extended squitter registers.
unfoldable pub squitter_score : Bool → Bool → Bool → Bool → Bool → Bool → ℤ
squitter_score b1 b2 b3 b4 b5 b6 =
    if b1 && (b2 && (b3 && (b4 && b5)))
    then (if b6 then pos 6 else pos 5)
    else if not b1 && (not b2 && (not b3 && (not b4 && (not b5 && not b6))))
    then pos 1
    else if not b1 && (not b2 && (b3 && (b4 && b5)))
    then pos 3
    else negsuc 11

-- Track and turn, heading and speed, vertical intent.
unfoldable pub enhanced_score : Bool → Bool → Bool → ℤ
enhanced_score b16 b24 b9 =
    if b16 && b24
    then (if b9 then pos 3 else pos 2)
    else if not b16 && (not b24 && not b9)
    then pos 1
    else negsuc 5

unfoldable pub score_bds17 : List ℕ → Option ℤ
score_bds17 msg =
    let bit : ℕ → Bool = λ n. getbit msg n == 1 in
    if not (getbits msg 25 56 == 0)
    then none
    else some (
        capabilities msg
        +ℤ squitter_score (bit 1) (bit 2) (bit 3) (bit 4) (bit 5) (bit 6)
        +ℤ enhanced_score (bit 16) (bit 24) (bit 9))

-- `decodeBDS17`
abbrev pub decode_bds17 : Decoder
decode_bds17 = record {
  score_of = λ h r. score_bds17 r.mb;
  stored = λ h r. with_format commb_gicb_caps;
}

-- The loop over the characters: 6 for one of a callsign, nothing for padding.
unfoldable pub callsign_score : List ℕ → Option ℕ
callsign_score [] = some 0
callsign_score (c ∷ cs) =
    let rest = callsign_score cs in
    if is_callsign_char c then add 6 rest else if c == 64 then rest else none

unfoldable pub is_unpadded : List ℕ → Bool
is_unpadded [] = true
is_unpadded (c ∷ cs) = not (c == 64) && is_unpadded cs

unfoldable pub base_score : Option ℕ → Option ℤ
base_score none = none
base_score (some n) = some (pos (8 + n))

unfoldable pub score_bds20 : List ℕ → Option ℤ
score_bds20 msg =
    if not (get_or msg 0 0 == 0x20) then none else base_score (callsign_score (read_callsign msg))

unfoldable pub store_bds20 : List ℕ → Data → Data
store_bds20 msg d =
    let callsign = read_callsign msg in
    let named = with_format commb_aircraft_ident d in
    if is_unpadded callsign
    then record named {
      identity = record d.identity { callsign = callsign; callsign_valid = true };
    }
    else named

-- `decodeBDS20`
abbrev pub decode_bds20 : Decoder
decode_bds20 = record { score_of = λ h r. score_bds20 r.mb; stored = λ h r. store_bds20 r.mb }

unfoldable pub score_bds30 : List ℕ → Option ℤ
score_bds30 msg = if get_or msg 0 0 == 0x30 then some (pos 56) else none

-- `decodeBDS30`
abbrev pub decode_bds30 : Decoder
decode_bds30 = record {
  score_of = λ h r. score_bds30 r.mb;
  stored = λ h r. with_format commb_acas_ra;
}

-- The AC12 field as an AC13 field, with M clear.
unfoldable pub insert_m : ℕ → ℕ
insert_m ac12 = bit_or (bit_and ac12 0x0fc0 <<< 1) (bit_and ac12 0x003f)

unfoldable pub score_bds05 : ℕ → ℕ → List ℕ → Option ℤ
score_bds05 msgtype ac msg =
    let typecode = getbits msg 1 5 in
    let ac12 = getbits msg 9 20 in
    if not (msgtype == 20)
    then none
    else if ltb typecode 9 || ltb 18 typecode
    then none
    else if getbit msg 21 == 1
    then none
    else if ac12 == 0
    then none
    else if not (ac == insert_m ac12)
    then none
    else if getbits msg 23 39 == 0 || getbits msg 40 56 == 0
    then none
    else some (pos 100)

-- `decodeBDS05`
abbrev pub decode_bds05 : Decoder
decode_bds05 = record {
  score_of = λ h r. score_bds05 h.msgtype r.ac r.mb;
  stored = λ h r. with_format commb_airborne_position;
}
