-- ===== src/ModeS/Squitter.antt =====
-- mode_s.c: `decodeExtendedSquitter`, on the decoders of the children.
pub mod Address
pub mod Ident
pub mod Velocity
pub mod Place
pub mod Status
use rbfeeder.Base.{ℕ, Bool, true, false, ◌&&◌, ltb, leb, ◌==◌, if◌then◌else◌, bit_or}
use rbfeeder.ModeS.Bits.{getbit, getbits}
use rbfeeder.ModeS.Message.{
  Message, Header, Raw, addr_adsb_icao_nt, addr_adsb_other, addr_tisb_icao, addr_tisb_other,
  addr_adsr_icao, addr_unknown, source_tisb, source_adsr,
}
use rbfeeder.ModeS.Squitter.Address.{non_icao_address, set_imf}
use rbfeeder.ModeS.Squitter.Ident.{
  decode_ident_and_category, decode_test_message, decode_aircraft_status,
}
use rbfeeder.ModeS.Squitter.Velocity.{decode_airborne_velocity}
use rbfeeder.ModeS.Squitter.Place.{decode_surface_position, decode_airborne_position}
use rbfeeder.ModeS.Squitter.Status.{decode_target_status, decode_operational_status}

-- The switch on the ME type.
unfoldable pub decode_by_metype : Message → Bool → Message
decode_by_metype mm check_imf =
    let t = mm.raw.metype in
    if leb 1 t && leb t 4
    then decode_ident_and_category mm
    else if t == 19
    then decode_airborne_velocity mm check_imf
    else if leb 5 t && leb t 8
    then decode_surface_position mm check_imf
    else if leb t 18
    then decode_airborne_position mm check_imf
    else if leb 20 t && leb t 22
    then decode_airborne_position mm check_imf
    else if t == 23
    then decode_test_message mm
    else if t == 24
    then mm
    else if t == 28
    then decode_aircraft_status mm check_imf
    else if t == 29
    then decode_target_status mm check_imf
    else if t == 30
    then mm
    else if t == 31
    then decode_operational_status mm check_imf
    else record mm { header = record mm.header { reliable = false } }

-- The switch on the control field of a DF18.
unfoldable pub decode_by_control : Message → Message
decode_by_control mm =
    let h = mm.header in
    let other = bit_or h.addr non_icao_address in
    let cf = mm.raw.cf in
    let coarse = record mm {
      header = record h { source = source_tisb; addrtype = addr_tisb_icao };
    } in
    if cf == 0
    then decode_by_metype (record mm { header = record h { addrtype = addr_adsb_icao_nt } }) false
    else if cf == 1
    then decode_by_metype
        (record mm { header = record h { addrtype = addr_adsb_other; addr = other } }) false
    else if cf == 2
    then decode_by_metype coarse true
    else if cf == 3
    then (if getbit mm.raw.me 1 == 1 then set_imf coarse else coarse)
    else if cf == 5
    then decode_by_metype
        (record mm {
          header = record h { addrtype = addr_tisb_other; source = source_tisb; addr = other };
        })
        false
    else if cf == 6
    then decode_by_metype
        (record mm { header = record h { addrtype = addr_adsr_icao; source = source_adsr } }) true
    else record mm { header = record h { addrtype = addr_unknown; addr = other } }

-- `decodeExtendedSquitter`
unfoldable pub decode_extended_squitter : Message → Message
decode_extended_squitter m0 =
    let mm = record m0 { raw = record m0.raw { metype = getbits m0.raw.me 1 5 } } in
    if mm.header.msgtype == 18 then decode_by_control mm else decode_by_metype mm false
