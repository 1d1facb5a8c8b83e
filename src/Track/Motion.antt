-- ===== src/Track/Motion.antt =====
-- track.c: what `trackUpdateFromMessage` takes from a message about altitudes and speeds.
use rbfeeder.Base.{ℕ, Bool, true, ◌&&◌, ◌==◌, if◌then◌else◌, Option, none, some}
use rbfeeder.Base.Int.{ℤ, pos, ◌+ℤ◌, ◌*ℤ◌, eq_ℤ}
use rbfeeder.Util.Timespec.{quotient}
use rbfeeder.ModeS.Altitude.{AltitudeUnit, feet, meters}
use rbfeeder.ModeS.Message.{
  Message, Real, Source, HeadingType, heading_invalid, heading_ground_track, heading_true,
  heading_magnetic, heading_magnetic_or_true, heading_track_or_heading,
}
use rbfeeder.Track.Validity.{DataValidity, accept_data, offer, is_newer, combine_validity}
use rbfeeder.Track.Aircraft.{Aircraft, Altitude, Movement, Versions}

-- `altitude_to_feet`; the conversion to `int` truncates.
unfoldable pub altitude_to_feet : ℤ → AltitudeUnit → ℤ
altitude_to_feet raw meters = quotient (raw *ℤ pos 10000) 3048
altitude_to_feet raw feet = raw

-- The altitude in hundreds of feet, as Mode C has it.
unfoldable pub mode_c_of : ℤ → ℤ
mode_c_of alt = quotient (alt +ℤ pos 49) 100

unfoldable pub store_baro : Option DataValidity → ℤ → Altitude → Altitude
store_baro none alt a = a
store_baro (some valid) alt a = record a {
  altitude_baro = record { valid = valid; value = alt };
  mode_c_hit = a.mode_c_hit && eq_ℤ (mode_c_of a.altitude_baro.value) (mode_c_of alt);
}

-- A squawk that changes is no match any more.
unfoldable pub keeps_hit : Option DataValidity → ℕ → ℕ → Bool → Bool
keeps_hit none old new hit = hit
keeps_hit (some valid) old new hit = hit && new == old

module _ (now : ℕ) where
  unfoldable pub update_altitude : Message → Aircraft → Altitude
  update_altitude mm aircraft =
      let source = mm.header.source in
      let a = aircraft.altitude in
      let n = mm.data_of.altitudes in
      let squawk = aircraft.status.squawk in
      let with_baro : Altitude =
        if n.altitude_baro_valid
        then store_baro (accept_data now source a.altitude_baro.valid)
            (altitude_to_feet n.altitude_baro n.altitude_baro_unit) a
        else a in
      record with_baro {
        mode_a_hit =
            if mm.data_of.identity.squawk_valid
            then keeps_hit (accept_data now source squawk.valid) squawk.value
                mm.data_of.identity.squawk a.mode_a_hit
            else a.mode_a_hit;
        altitude_geom =
            offer now source n.altitude_geom_valid
              (altitude_to_feet n.altitude_geom n.altitude_geom_unit) a.altitude_geom;
        geom_delta =
            offer now source mm.data_of.motion.geom_delta_valid mm.data_of.motion.geom_delta
              a.geom_delta;
      }

  -- A heading that leaves its kind open takes that of the aircraft.
  unfoldable pub heading_kind : Versions → HeadingType → HeadingType
  heading_kind v heading_magnetic_or_true = v.adsb_hrd
  heading_kind v heading_track_or_heading = v.adsb_tah
  heading_kind v heading_invalid = heading_invalid
  heading_kind v heading_ground_track = heading_ground_track
  heading_kind v heading_true = heading_true
  heading_kind v heading_magnetic = heading_magnetic

  unfoldable pub store_heading_as : HeadingType → Source → Real → Movement → Movement
  store_heading_as heading_ground_track source heading a = record a {
    track = offer now source true heading a.track;
  }
  store_heading_as heading_magnetic source heading a = record a {
    mag_heading = offer now source true heading a.mag_heading;
  }
  store_heading_as heading_true source heading a = record a {
    true_heading = offer now source true heading a.true_heading;
  }
  store_heading_as heading_invalid source heading a = a
  store_heading_as heading_magnetic_or_true source heading a = a
  store_heading_as heading_track_or_heading source heading a = a

  -- The ground speed of the message's version.
  unfoldable pub select_speed : ℤ → Message → Message
  select_speed version mm =
      let m = mm.data_of.motion in
      if m.gs_valid
      then record mm {
        data_of = record mm.data_of {
          motion = record m { gs_selected = if eq_ℤ version (pos 2) then m.gs_v2 else m.gs_v0 };
        };
      }
      else mm

  -- On a message whose ground speed is selected.
  unfoldable pub update_movement : Message → Versions → Movement → Movement
  update_movement mm v a0 =
      let source = mm.header.source in
      let m = mm.data_of.motion in
      let a =
        if m.heading_valid
        then store_heading_as (heading_kind v m.heading_type) source m.heading a0
        else a0 in
      record a {
        track_rate = offer now source m.track_rate_valid m.track_rate a.track_rate;
        roll = offer now source m.roll_valid m.roll a.roll;
        gs = offer now source m.gs_valid m.gs_selected a.gs;
        ias = offer now source m.ias_valid m.ias a.ias;
        tas = offer now source m.tas_valid m.tas a.tas;
        mach = offer now source m.mach_valid m.mach a.mach;
        baro_rate = offer now source m.baro_rate_valid m.baro_rate a.baro_rate;
        geom_rate = offer now source m.geom_rate_valid m.geom_rate a.geom_rate;
      }

  -- The geometric altitude from the barometric one and the difference, if both are newer.
  unfoldable pub derive_altitude : Altitude → Altitude
  derive_altitude a =
      let geom = a.altitude_geom.valid in
      if is_newer now a.altitude_baro.valid geom && is_newer now a.geom_delta.valid geom
      then record a {
        altitude_geom = record {
          valid = combine_validity geom a.altitude_baro.valid a.geom_delta.valid;
          value = a.altitude_baro.value +ℤ a.geom_delta.value;
        };
      }
      else a
