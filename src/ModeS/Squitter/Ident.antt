-- ===== src/ModeS/Squitter/Ident.antt =====
-- mode_s.c: identification, the test message and the emergency status of extended squitters.
use rbfeeder.Base.{
  ℕ, ◌-◌, bit_or, List, [], ◌∷◌, Bool, true, ◌&&◌, ◌||◌, leb, ◌==◌, if◌then◌else◌, get_or, ◌<<<◌,
}
use rbfeeder.ModeS.Bits.{getbits}
use rbfeeder.ModeS.Altitude.{decode_id13}
use rbfeeder.ModeS.Message.{Message, Identity}
use rbfeeder.ModeS.Squitter.Address.{set_imf_at}

-- `ais_charset` of ais_charset.c
abbrev pub ais_charset : List ℕ
ais_charset =
    64 ∷ 65 ∷ 66 ∷ 67 ∷ 68 ∷ 69 ∷ 70 ∷ 71 ∷ 72 ∷ 73 ∷ 74 ∷ 75 ∷ 76 ∷ 77 ∷ 78 ∷ 79 ∷ 80 ∷ 81 ∷ 82
    ∷ 83 ∷ 84 ∷ 85 ∷ 86 ∷ 87 ∷ 88 ∷ 89 ∷ 90 ∷ 91 ∷ 92 ∷ 93 ∷ 94 ∷ 95 ∷ 32 ∷ 33 ∷ 34 ∷ 35 ∷ 36 ∷ 37
    ∷ 38 ∷ 39 ∷ 40 ∷ 41 ∷ 42 ∷ 43 ∷ 44 ∷ 45 ∷ 46 ∷ 47 ∷ 48 ∷ 49 ∷ 50 ∷ 51 ∷ 52 ∷ 53 ∷ 54 ∷ 55 ∷ 56
    ∷ 57 ∷ 58 ∷ 59 ∷ 60 ∷ 61 ∷ 62 ∷ 63 ∷ []

abbrev pub ais_char : ℕ → ℕ
ais_char i = get_or ais_charset i 0

-- The characters of a callsign: A to Z, 0 to 9 and space.
unfoldable pub is_callsign_char : ℕ → Bool
is_callsign_char c = leb 65 c && leb c 90 || (leb 48 c && leb c 57 || c == 32)

-- The loop over the eight characters.
unfoldable pub is_callsign : List ℕ → Bool
is_callsign [] = true
is_callsign (c ∷ cs) = is_callsign_char c && is_callsign cs

-- The eight characters, without the closing zero.
unfoldable pub read_callsign : List ℕ → List ℕ
read_callsign me =
    ais_char (getbits me 9 14)
    ∷ ais_char (getbits me 15 20)
    ∷ ais_char (getbits me 21 26)
    ∷ ais_char (getbits me 27 32)
    ∷ ais_char (getbits me 33 38)
    ∷ ais_char (getbits me 39 44)
    ∷ ais_char (getbits me 45 50)
    ∷ ais_char (getbits me 51 56)
    ∷ []

-- `decodeESIdentAndCategory`
unfoldable pub decode_ident_and_category : Message → Message
decode_ident_and_category mm =
    let mesub = getbits mm.raw.me 6 8 in
    let callsign = read_callsign mm.raw.me in
    record mm {
      raw = record mm.raw { mesub = mesub };
      data_of = record mm.data_of {
        identity = record mm.data_of.identity {
          callsign = callsign;
          callsign_valid = is_callsign callsign;
          category = bit_or ((14 - mm.raw.metype) <<< 4) mesub;
          category_valid = true;
        };
      };
    }

-- A squawk that is not zero.
unfoldable pub store_squawk : ℕ → Identity → Identity
store_squawk id13 identity =
    if id13 == 0
    then identity
    else record identity { squawk_valid = true; squawk = decode_id13 id13 }

-- `decodeESTestMessage`
unfoldable pub decode_test_message : Message → Message
decode_test_message m0 =
    let mm = record m0 { raw = record m0.raw { mesub = getbits m0.raw.me 6 8 } } in
    let identity = store_squawk (getbits mm.raw.me 9 21) mm.data_of.identity in
    if mm.raw.mesub == 7
    then record mm { data_of = record mm.data_of { identity = identity } }
    else mm

-- `decodeESAircraftStatus`
unfoldable pub decode_aircraft_status : Message → Bool → Message
decode_aircraft_status m0 check_imf =
    let mm = record m0 { raw = record m0.raw { mesub = getbits m0.raw.me 6 8 } } in
    let identity = record mm.data_of.identity {
      emergency_valid = true;
      emergency = getbits mm.raw.me 9 11;
    } in
    let squawked = record mm {
      data_of = record mm.data_of { identity = store_squawk (getbits mm.raw.me 12 24) identity };
    } in
    if mm.raw.mesub == 1 then set_imf_at check_imf 56 squawked else mm
