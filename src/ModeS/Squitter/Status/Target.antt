-- ===== src/ModeS/Squitter/Status/Target.antt =====
-- mode_s.c: `decodeESTargetStatus`.
use rbfeeder.Base.{ℕ, ◌+◌, ◌-◌, ◌*◌, List, Bool, true, ◌&&◌, ◌||◌, ◌==◌, if◌then◌else◌, bit_or, u32}
use rbfeeder.ModeS.Bits.{getbit, getbits}
use rbfeeder.ModeS.Message.{
  Message, Accuracy, Nav, fraction, NavAltitudeSource, nav_alt_invalid, nav_alt_unknown,
  nav_alt_aircraft, nav_alt_mcp, nav_alt_fms, heading_ground_track, heading_magnetic_or_true,
  sil_unknown,
}
use rbfeeder.ModeS.Squitter.Address.{set_imf_at}

-- `nav_modes_t`
abbrev pub nav_mode_autopilot : ℕ
nav_mode_autopilot = 1

abbrev pub nav_mode_vnav : ℕ
nav_mode_vnav = 2

abbrev pub nav_mode_alt_hold : ℕ
nav_mode_alt_hold = 4

abbrev pub nav_mode_approach : ℕ
nav_mode_approach = 8

abbrev pub nav_mode_lnav : ℕ
nav_mode_lnav = 16

abbrev pub nav_mode_tcas : ℕ
nav_mode_tcas = 32

-- Version 1: the vertical source.
unfoldable pub vertical_source : ℕ → Nav → Nav
vertical_source source nav =
    if source == 1
    then record nav { altitude_source = nav_alt_mcp }
    else if source == 2
    then record nav { altitude_source = nav_alt_aircraft }
    else if source == 3
    then record nav { altitude_source = nav_alt_fms }
    else nav

-- The mode that is acquired, or maintained.
abbrev pub acquired : NavAltitudeSource → ℕ
acquired nav_alt_invalid = nav_mode_autopilot
acquired nav_alt_unknown = nav_mode_autopilot
acquired nav_alt_aircraft = nav_mode_autopilot
acquired nav_alt_mcp = nav_mode_autopilot
acquired nav_alt_fms = nav_mode_vnav

abbrev pub maintained : NavAltitudeSource → ℕ
maintained nav_alt_invalid = nav_mode_autopilot
maintained nav_alt_unknown = nav_mode_autopilot
maintained nav_alt_aircraft = nav_mode_alt_hold
maintained nav_alt_mcp = nav_mode_autopilot
maintained nav_alt_fms = nav_mode_vnav

unfoldable pub vertical_mode : ℕ → Nav → Nav
vertical_mode mode nav =
    if mode == 1
    then record nav { modes_valid = true; modes = bit_or nav.modes (acquired nav.altitude_source) }
    else if mode == 2
    then record nav {
      modes_valid = true;
      modes = bit_or nav.modes (maintained nav.altitude_source);
    }
    else nav

-- The target altitude, for the source that gives it.
unfoldable pub target_altitude : ℕ → NavAltitudeSource → Nav → Nav
target_altitude alt nav_alt_invalid nav = nav
target_altitude alt nav_alt_unknown nav = nav
target_altitude alt nav_alt_aircraft nav = nav
target_altitude alt nav_alt_mcp nav = record nav { mcp_altitude_valid = true; mcp_altitude = alt }
target_altitude alt nav_alt_fms nav = record nav { fms_altitude_valid = true; fms_altitude = alt }

unfoldable pub target_heading : List ℕ → Nav → Nav
target_heading me nav = if getbits me 26 27 == 0 then nav else record nav {
  heading_valid = true;
  heading = fraction (getbits me 28 36) 1;
  heading_type = if getbit me 37 == 1 then heading_ground_track else heading_magnetic_or_true;
}

unfoldable pub horizontal_mode : List ℕ → Nav → Nav
horizontal_mode me nav =
    let mode = getbits me 38 39 in
    let added = if getbits me 26 27 == 3 then nav_mode_lnav else nav_mode_autopilot in
    if mode == 1 || mode == 2
    then record nav { modes_valid = true; modes = bit_or nav.modes added }
    else nav

unfoldable pub tcas_status : ℕ → Nav → Nav
tcas_status status nav =
    if status == 1
    then record nav { modes_valid = true }
    else if status == 0
    then record nav { modes = bit_or nav.modes nav_mode_tcas }
    else record nav { modes_valid = true; modes = bit_or nav.modes nav_mode_tcas }

-- `-1000 + 100 * n`, unsigned: below 1000 ft it wraps around.
abbrev pub altitude_100 : ℕ → ℕ
altitude_100 n = u32 (0x100000000 - 1000 + 100 * n)

unfoldable pub nav_v1 : List ℕ → Nav → Nav
nav_v1 me nav =
    let moded = vertical_mode (getbits me 14 15) (vertical_source (getbits me 8 9) nav) in
    let aimed = target_altitude (altitude_100 (getbits me 16 25)) moded.altitude_source moded in
    tcas_status (getbits me 52 53) (horizontal_mode me (target_heading me aimed))

unfoldable pub target_accuracy : List ℕ → Accuracy → Accuracy
target_accuracy me a = record a {
  nac_p_valid = true;
  nac_p = getbits me 40 43;
  nic_baro_valid = true;
  nic_baro = getbit me 44;
  sil = getbits me 45 46;
  sil_type = sil_unknown;
}

-- Version 2.
unfoldable pub selected_altitude : List ℕ → Nav → Nav
selected_altitude me nav =
    let alt_bits = getbits me 10 20 in
    if alt_bits == 0
    then nav
    else if getbit me 9 == 1
    then record nav { fms_altitude_valid = true; fms_altitude = (alt_bits - 1) * 32 }
    else record nav { mcp_altitude_valid = true; mcp_altitude = (alt_bits - 1) * 32 }

-- `800.0 + (baro_bits - 1) * 0.8`
unfoldable pub selected_qnh : List ℕ → Nav → Nav
selected_qnh me nav =
    let baro_bits = getbits me 21 29 in
    if baro_bits == 0
    then nav
    else record nav { qnh_valid = true; qnh = fraction (8000 + (baro_bits - 1) * 8) 10 }

unfoldable pub selected_heading : List ℕ → Nav → Nav
selected_heading me nav =
    if getbit me 30 == 1
    then record nav {
      heading_valid = true;
      heading = fraction (getbits me 31 39 * 180) 256;
      heading_type = heading_magnetic_or_true;
    }
    else nav

abbrev pub mode_at : List ℕ → ℕ → ℕ → ℕ
mode_at me bit mode = if getbit me bit == 1 then mode else 0

unfoldable pub selected_modes : List ℕ → Nav → Nav
selected_modes me nav =
    if getbit me 47 == 1
    then record nav {
      modes_valid = true;
      modes =
          bit_or
            (bit_or
              (bit_or
                (bit_or (bit_or (mode_at me 48 nav_mode_autopilot) (mode_at me 49 nav_mode_vnav))
                  (mode_at me 50 nav_mode_alt_hold))
                (mode_at me 52 nav_mode_approach))
              (mode_at me 53 nav_mode_tcas))
            (mode_at me 54 nav_mode_lnav);
    }
    else nav

unfoldable pub nav_v2 : List ℕ → Nav → Nav
nav_v2 me nav = selected_modes me (selected_heading me (selected_qnh me (selected_altitude me nav)))

-- `decodeESTargetStatus`
unfoldable pub decode_target_status : Message → Bool → Message
decode_target_status m0 check_imf =
    let me = m0.raw.me in
    let mesub = getbits me 6 7 in
    let mm = set_imf_at check_imf 51 (record m0 { raw = record m0.raw { mesub = mesub } }) in
    let d = mm.data_of in
    if mesub == 0 && getbit me 11 == 0
    then record mm {
      data_of = record d {
        nav = nav_v1 me d.nav;
        accuracy = target_accuracy me d.accuracy;
        identity = record d.identity { emergency_valid = true; emergency = getbits me 54 56 };
      };
    }
    else if mesub == 1
    then record mm {
      data_of = record d { nav = nav_v2 me d.nav; accuracy = target_accuracy me d.accuracy };
    }
    else mm
