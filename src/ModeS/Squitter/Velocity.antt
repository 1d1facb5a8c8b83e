-- ===== src/ModeS/Squitter/Velocity.antt =====
-- mode_s.c: `decodeESAirborneVelocity`.
use rbfeeder.Base.{ℕ, ◌-◌, ◌*◌, List, Bool, true, not, ◌&&◌, ◌||◌, ltb, leb, ◌==◌, if◌then◌else◌}
use rbfeeder.Base.Int.{ℤ, pos, sub_ℕ}
use rbfeeder.ModeS.Bits.{getbit, getbits}
use rbfeeder.ModeS.Message.{
  Message, Motion, fraction, speed_of, track_of, heading_ground_track, heading_magnetic_or_true,
}
use rbfeeder.ModeS.Squitter.Address.{set_imf_at}

-- `n * (sign ? -unit : unit)`
unfoldable pub signed : ℕ → ℕ → ℕ → ℤ
signed sign unit n = if sign == 1 then sub_ℕ 0 (n * unit) else pos (n * unit)

-- Subtypes 1 and 2: the speeds to the east and to the north. The speed is at least the root of 0.5,
-- so that `mm->gs.selected > 0` holds.
unfoldable pub ground_velocity : List ℕ → ℕ → Motion → Motion
ground_velocity me mesub motion =
    let ew_raw = getbits me 15 24 in
    let ns_raw = getbits me 26 35 in
    let unit = if mesub == 2 then 4 else 1 in
    let ew_vel = signed (getbit me 14) unit (ew_raw - 1) in
    let ns_vel = signed (getbit me 25) unit (ns_raw - 1) in
    if not (ew_raw == 0) && not (ns_raw == 0)
    then record motion {
      gs_v0 = speed_of ew_vel ns_vel;
      gs_v2 = speed_of ew_vel ns_vel;
      gs_selected = speed_of ew_vel ns_vel;
      gs_valid = true;
      heading = track_of ew_vel ns_vel;
      heading_type = heading_ground_track;
      heading_valid = true;
    }
    else motion

-- Subtypes 3 and 4: the heading and the airspeed.
unfoldable pub heading_1024 : List ℕ → Motion → Motion
heading_1024 me motion =
    if getbit me 14 == 1
    then record motion {
      heading_valid = true;
      heading = fraction (getbits me 15 24 * 360) 1024;
      heading_type = heading_magnetic_or_true;
    }
    else motion

unfoldable pub store_airspeed : List ℕ → ℕ → Motion → Motion
store_airspeed me mesub motion =
    let airspeed = getbits me 26 35 in
    let speed = (airspeed - 1) * (if mesub == 4 then 4 else 1) in
    if airspeed == 0
    then motion
    else if getbit me 25 == 1
    then record motion { tas_valid = true; tas = speed }
    else record motion { ias_valid = true; ias = speed }

unfoldable pub store_vert_rate : List ℕ → Motion → Motion
store_vert_rate me motion =
    let vert_rate = getbits me 38 46 in
    let rate = signed (getbit me 37) 64 (vert_rate - 1) in
    if vert_rate == 0
    then motion
    else if getbit me 36 == 1
    then record motion { baro_rate = rate; baro_rate_valid = true }
    else record motion { geom_rate = rate; geom_rate_valid = true }

unfoldable pub store_geom_delta : List ℕ → Motion → Motion
store_geom_delta me motion =
    let raw_delta = getbits me 50 56 in
    if raw_delta == 0 then motion else record motion {
      geom_delta_valid = true;
      geom_delta = signed (getbit me 49) 25 (raw_delta - 1);
    }

-- The switch on the subtype.
unfoldable pub store_speed : List ℕ → ℕ → Motion → Motion
store_speed me mesub motion =
    if leb mesub 2
    then ground_velocity me mesub motion
    else store_airspeed me mesub (heading_1024 me motion)

-- `decodeESAirborneVelocity`
unfoldable pub decode_airborne_velocity : Message → Bool → Message
decode_airborne_velocity m0 check_imf =
    let me = m0.raw.me in
    let mesub = getbits me 6 8 in
    let mm = record m0 { raw = record m0.raw { mesub = mesub } } in
    let with_address = set_imf_at check_imf 9 mm in
    if ltb mesub 1 || ltb 4 mesub then mm else record with_address {
      data_of = record mm.data_of {
        accuracy = record mm.data_of.accuracy { nac_v_valid = true; nac_v = getbits me 11 13 };
        motion = store_geom_delta me (store_vert_rate me (store_speed me mesub mm.data_of.motion));
      };
    }
