-- ===== src/ModeS/Squitter/Place.antt =====
-- mode_s.c: the positions of extended squitters.
use rbfeeder.Base.{
  ℕ, ◌+◌, ◌*◌, List, Bool, true, false, not, ◌&&◌, ◌||◌, ltb, ◌==◌, if◌then◌else◌, bit_and,
}
use rbfeeder.Base.Int.{ℤ, eq_ℤ}
use rbfeeder.ModeAc.Defs.{invalid_altitude}
use rbfeeder.ModeS.Bits.{getbit, getbits}
use rbfeeder.ModeS.Altitude.{AltitudeUnit, decode_ac12, decode_movement_v0, decode_movement_v2}
use rbfeeder.ModeS.Message.{
  Message, Data, Motion, Identity, Position, Altitudes, fraction, AirGround, ag_invalid, ag_ground,
  ag_airborne, ag_uncertain, cpr_surface, cpr_airborne, heading_track_or_heading,
}
use rbfeeder.ModeS.Squitter.Address.{set_imf_at}

abbrev pub is_ground : AirGround → Bool
is_ground ag_invalid = false
is_ground ag_ground = true
is_ground ag_airborne = false
is_ground ag_uncertain = false

-- `if (mm->airground == AG_INVALID) mm->airground = AG_UNCERTAIN;`
abbrev pub or_uncertain : AirGround → AirGround
or_uncertain ag_invalid = ag_uncertain
or_uncertain ag_ground = ag_ground
or_uncertain ag_airborne = ag_airborne
or_uncertain ag_uncertain = ag_uncertain

-- The speed and heading of a surface position.
unfoldable pub surface_motion : List ℕ → Motion → Motion
surface_motion me motion =
    let movement = getbits me 6 12 in
    let moved =
      if ltb 0 movement && ltb movement 125
      then record motion {
        gs_valid = true;
        gs_selected = fraction (decode_movement_v0 movement) 96;
        gs_v0 = fraction (decode_movement_v0 movement) 96;
        gs_v2 = fraction (decode_movement_v2 movement) 96;
      }
      else motion in
    if getbit me 13 == 1
    then record moved {
      heading_valid = true;
      heading = fraction (getbits me 14 20 * 360) 128;
      heading_type = heading_track_or_heading;
    }
    else moved

-- `decodeESSurfacePosition`
unfoldable pub decode_surface_position : Message → Bool → Message
decode_surface_position mm check_imf =
    let me = mm.raw.me in
    let placed = record mm {
      data_of = record mm.data_of {
        airground = ag_ground;
        motion = surface_motion me mm.data_of.motion;
        position = record mm.data_of.position {
          cpr_valid = true;
          cpr_type = cpr_surface;
          cpr_odd = getbit me 22 == 1;
          cpr_lat = getbits me 23 39;
          cpr_lon = getbits me 40 56;
        };
      };
    } in
    set_imf_at check_imf 21 placed

-- The switch on the surveillance status, two bits.
unfoldable pub surveillance_status : ℕ → Identity → Identity
surveillance_status status identity =
    if status == 0
    then record identity { alert_valid = true; spi_valid = true; alert = false; spi = false }
    else if status == 1 || status == 2
    then record identity { alert_valid = true; alert = true }
    else record identity { alert_valid = true; spi_valid = true; alert = false; spi = true }

-- The position of an airborne position message, or the count of a message that looks like a known
-- failure.
unfoldable pub airborne_place : List ℕ → ℕ → Position → Position
airborne_place me metype position =
    let lat = getbits me 23 39 in
    let lon = getbits me 40 56 in
    let located = record position { cpr_lat = lat; cpr_lon = lon } in
    if metype == 0
    then position
    else if getbits me 9 20 == 0 && (lon == 0 && (bit_and lat 0x0fff == 0 && metype == 15))
    then record located { cpr_filtered = position.cpr_filtered + 1 }
    else record located { cpr_valid = true; cpr_type = cpr_airborne; cpr_odd = getbit me 22 == 1 }

unfoldable pub store_altitude : ℕ → ℤ × AltitudeUnit → Altitudes → Altitudes
store_altitude metype alt altitudes =
    if metype == 20 || (metype == 21 || metype == 22)
    then record altitudes {
      altitude_geom = alt.0;
      altitude_geom_unit = alt.1;
      altitude_geom_valid = true;
    }
    else record altitudes {
      altitude_baro = alt.0;
      altitude_baro_unit = alt.1;
      altitude_baro_valid = true;
    }

-- The altitude, where it is given, the aircraft is not on the ground, and the field is valid.
unfoldable pub airborne_altitude : ℕ → ℕ → Data → Data
airborne_altitude ac12 metype d =
    let alt = decode_ac12 ac12 in
    if not (ac12 == 0) && (not (is_ground d.airground) && not (eq_ℤ alt.0 invalid_altitude))
    then record d {
      airground = or_uncertain d.airground;
      altitudes = store_altitude metype alt d.altitudes;
    }
    else d

-- `decodeESAirbornePosition`
unfoldable pub decode_airborne_position : Message → Bool → Message
decode_airborne_position mm check_imf =
    let me = mm.raw.me in
    let metype = mm.raw.metype in
    let accuracy =
      if check_imf
      then mm.data_of.accuracy
      else record mm.data_of.accuracy { nic_b_valid = true; nic_b = getbit me 8 } in
    let placed = record mm {
      data_of = airborne_altitude (getbits me 9 20) metype (record mm.data_of {
        identity = surveillance_status (getbits me 6 7) mm.data_of.identity;
        accuracy = accuracy;
        position = airborne_place me metype mm.data_of.position;
      });
    } in
    set_imf_at check_imf 8 placed
