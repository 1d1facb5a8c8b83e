-- ===== src/ModeS/Decode/Fields.antt =====
-- mode_s.c: the fields that `decodeModesMessage` takes from a message, by its type.
use rbfeeder.Base.{ℕ, List, [], ◌∷◌, Bool, false, not, ◌||◌, ◌==◌, if◌then◌else◌, take, drop}
use rbfeeder.Base.Int.{eq_ℤ}
use rbfeeder.ModeAc.Defs.{invalid_altitude}
use rbfeeder.ModeS.Bits.{getbit, getbits}
use rbfeeder.ModeS.Altitude.{decode_ac13}
use rbfeeder.ModeS.Message.{
  Message, Header, Raw, Data, Altitudes, Identity, AirGround, ag_ground, ag_airborne, ag_uncertain,
}
use rbfeeder.ModeS.Squitter.Ident.{store_squawk}

-- Whether the type is one of some.
unfoldable pub is_any : List ℕ → ℕ → Bool
is_any [] t = false
is_any (k ∷ ks) t = t == k || is_any ks t

-- AA
unfoldable pub take_address : Message → Message
take_address mm =
    let aa = getbits mm.header.msg 9 32 in
    if is_any (11 ∷ 17 ∷ 18 ∷ []) mm.header.msgtype
    then record mm { raw = record mm.raw { aa = aa }; header = record mm.header { addr = aa } }
    else mm

-- AC: only where it is not zero.
unfoldable pub altitude_from : ℕ → Altitudes → Altitudes
altitude_from ac altitudes =
    let alt = decode_ac13 ac in
    let valid = not (eq_ℤ alt.0 invalid_altitude) || altitudes.altitude_baro_valid in
    if ac == 0 then altitudes else record altitudes {
      altitude_baro = alt.0;
      altitude_baro_unit = alt.1;
      altitude_baro_valid = valid;
    }

unfoldable pub take_altitude : Message → Message
take_altitude mm =
    let ac = getbits mm.header.msg 20 32 in
    if is_any (0 ∷ 4 ∷ 16 ∷ 20 ∷ []) mm.header.msgtype
    then record mm {
      raw = record mm.raw { ac = ac };
      data_of = record mm.data_of { altitudes = altitude_from ac mm.data_of.altitudes };
    }
    else mm

-- CA
unfoldable pub capability_airground : ℕ → AirGround → AirGround
capability_airground ca ag =
    if is_any (0 ∷ 6 ∷ 7 ∷ []) ca
    then ag_uncertain
    else if ca == 4
    then ag_ground
    else if ca == 5
    then ag_airborne
    else ag

unfoldable pub take_capability : Message → Message
take_capability mm =
    let ca = getbits mm.header.msg 6 8 in
    if is_any (11 ∷ 17 ∷ []) mm.header.msgtype
    then record mm {
      raw = record mm.raw { ca = ca };
      data_of = record mm.data_of { airground = capability_airground ca mm.data_of.airground };
    }
    else mm

-- CC, CF and DR
unfoldable pub take_control : Message → Message
take_control mm =
    let msg = mm.header.msg in
    let t = mm.header.msgtype in
    let raw = mm.raw in
    if t == 0
    then record mm { raw = record raw { cc = getbit msg 7 } }
    else if t == 18
    then record mm { raw = record raw { cf = getbits msg 6 8 } }
    else if is_any (4 ∷ 5 ∷ 20 ∷ 21 ∷ []) t
    then record mm { raw = record raw { dr = getbits msg 9 13 } }
    else mm

-- FS: the flight status, and the alert and identification that it carries.
unfoldable pub status_airground : ℕ → AirGround → AirGround
status_airground fs ag =
    if is_any (0 ∷ 2 ∷ 4 ∷ 5 ∷ []) fs
    then ag_uncertain
    else if is_any (1 ∷ 3 ∷ []) fs
    then ag_ground
    else ag

unfoldable pub status_identity : ℕ → Identity → Identity
status_identity fs identity =
    let known = is_any (0 ∷ 1 ∷ 2 ∷ 3 ∷ 4 ∷ 5 ∷ []) fs in
    record identity {
      alert_valid = known;
      spi_valid = known;
      alert = is_any (2 ∷ 3 ∷ 4 ∷ []) fs || identity.alert;
      spi = is_any (4 ∷ 5 ∷ []) fs || identity.spi;
    }

unfoldable pub take_flight_status : Message → Message
take_flight_status mm =
    let fs = getbits mm.header.msg 6 8 in
    if is_any (4 ∷ 5 ∷ 20 ∷ 21 ∷ []) mm.header.msgtype
    then record mm {
      raw = record mm.raw { fs = fs };
      data_of = record mm.data_of {
        airground = status_airground fs mm.data_of.airground;
        identity = status_identity fs mm.data_of.identity;
      };
    }
    else mm

-- ID and KE
unfoldable pub take_identity : Message → Message
take_identity mm =
    let t = mm.header.msgtype in
    let id = getbits mm.header.msg 20 32 in
    if is_any (5 ∷ 21 ∷ []) t
    then record mm {
      raw = record mm.raw { id = id };
      data_of = record mm.data_of { identity = store_squawk id mm.data_of.identity };
    }
    else if t == 24
    then record mm { raw = record mm.raw { ke = getbit mm.header.msg 4 } }
    else mm

-- `memcpy(field, &msg[from], n)`
abbrev pub slice : ℕ → ℕ → List ℕ → List ℕ
slice from n msg = take n (drop from msg)

-- MB, MD, ME and MV, with the decoders of Comm-B replies and of extended squitters.
unfoldable pub take_payloads :
    (Header → Raw → Data → Data) → (Message → Message) → Message → Message
take_payloads decode_comm_b decode_squitter mm =
    let msg = mm.header.msg in
    let t = mm.header.msgtype in
    let with_mb = record mm.raw { mb = slice 4 7 msg } in
    if t == 20 || t == 21
    then record mm { raw = with_mb; data_of = decode_comm_b mm.header with_mb mm.data_of }
    else if t == 24
    then record mm { raw = record mm.raw { md = slice 1 10 msg } }
    else if t == 17 || t == 18
    then decode_squitter (record mm { raw = record mm.raw { me = slice 4 7 msg } })
    else if t == 16
    then record mm { raw = record mm.raw { mv = slice 4 7 msg } }
    else mm

-- ND, RI, SL, UM and VS
unfoldable pub take_acas : Message → Message
take_acas mm =
    let msg = mm.header.msg in
    let t = mm.header.msgtype in
    let vs = getbit msg 6 in
    if t == 24
    then record mm { raw = record mm.raw { nd = getbits msg 5 8 } }
    else if is_any (4 ∷ 5 ∷ 20 ∷ 21 ∷ []) t
    then record mm { raw = record mm.raw { um = getbits msg 14 19 } }
    else if t == 0 || t == 16
    then record mm {
      raw = record mm.raw { ri = getbits msg 14 17; sl = getbits msg 9 11; vs = vs };
      data_of = record mm.data_of { airground = if vs == 1 then ag_ground else ag_uncertain };
    }
    else mm
