-- ===== src/ModeS/Blank.antt =====
-- A message as `memset` leaves it, for the tests.
use rbfeeder.Base.{ℕ, List, false, replicate}
use rbfeeder.Base.Int.{pos}
use rbfeeder.Base.Ratio.{whole}
use rbfeeder.ModeS.Altitude.{feet}
use rbfeeder.ModeS.Message.{
  Message, addr_adsb_icao, source_invalid, ag_invalid, fraction, heading_invalid, cpr_surface,
  sil_invalid, nav_alt_invalid, commb_unknown,
}

abbrev pub blank : List ℕ
blank = replicate 14 0

abbrev pub new_message : Message
new_message = record {
  header = record {
    msg = blank;
    verbatim = blank;
    msgbits = 0;
    msgtype = 0;
    crc = 0;
    correctedbits = 0;
    addr = 0;
    addrtype = addr_adsb_icao;
    timestamp_msg = 0;
    sys_timestamp_msg = 0;
    remote = false;
    signal_level = whole (pos 0);
    reliable = false;
    source = source_invalid;
  };
  raw = record {
    iid = 0;
    aa = 0;
    ac = 0;
    ca = 0;
    cc = 0;
    cf = 0;
    dr = 0;
    fs = 0;
    id = 0;
    ke = 0;
    nd = 0;
    ri = 0;
    sl = 0;
    um = 0;
    vs = 0;
    mb = replicate 7 0;
    md = replicate 10 0;
    me = replicate 7 0;
    mv = replicate 7 0;
    metype = 0;
    mesub = 0;
  };
  data_of = record {
    altitudes = record {
      altitude_baro_valid = false;
      altitude_baro = pos 0;
      altitude_baro_unit = feet;
      altitude_geom_valid = false;
      altitude_geom = pos 0;
      altitude_geom_unit = feet;
    };
    motion = record {
      gs_valid = false;
      heading_valid = false;
      ias_valid = false;
      tas_valid = false;
      baro_rate_valid = false;
      geom_rate_valid = false;
      geom_delta_valid = false;
      gs_v0 = fraction 0 1;
      gs_v2 = fraction 0 1;
      gs_selected = fraction 0 1;
      heading = fraction 0 1;
      heading_type = heading_invalid;
      ias = 0;
      tas = 0;
      baro_rate = pos 0;
      geom_rate = pos 0;
      geom_delta = pos 0;
      track_rate_valid = false;
      roll_valid = false;
      mach_valid = false;
      track_rate = fraction 0 1;
      roll = fraction 0 1;
      mach = fraction 0 1;
    };
    identity = record {
      squawk_valid = false;
      callsign_valid = false;
      category_valid = false;
      spi_valid = false;
      spi = false;
      alert_valid = false;
      alert = false;
      emergency_valid = false;
      squawk = 0;
      callsign = replicate 8 0;
      category = 0;
      emergency = 0;
    };
    position = record {
      cpr_valid = false;
      cpr_odd = false;
      cpr_type = cpr_surface;
      cpr_lat = 0;
      cpr_lon = 0;
      cpr_filtered = 0;
      cpr_decoded = false;
      cpr_relative = false;
      decoded_lat = whole (pos 0);
      decoded_lon = whole (pos 0);
      decoded_nic = 0;
      decoded_rc = 0;
    };
    accuracy = record {
      nic_a_valid = false;
      nic_b_valid = false;
      nic_c_valid = false;
      nic_baro_valid = false;
      nac_p_valid = false;
      nac_v_valid = false;
      gva_valid = false;
      sda_valid = false;
      nic_a = 0;
      nic_b = 0;
      nic_c = 0;
      nic_baro = 0;
      nac_p = 0;
      nac_v = 0;
      sil = 0;
      sil_type = sil_invalid;
      gva = 0;
      sda = 0;
    };
    opstatus = record {
      valid = false;
      version = 0;
      om_acas_ra = 0;
      om_ident = 0;
      om_atc = 0;
      om_saf = 0;
      cc_acas = 0;
      cc_cdti = 0;
      cc_1090_in = 0;
      cc_arv = 0;
      cc_ts = 0;
      cc_tc = 0;
      cc_uat_in = 0;
      cc_poa = 0;
      cc_b2_low = 0;
      cc_lw_valid = false;
      tah = heading_invalid;
      hrd = heading_invalid;
      cc_lw = 0;
      cc_antenna_offset = 0;
    };
    nav = record {
      heading_valid = false;
      fms_altitude_valid = false;
      mcp_altitude_valid = false;
      qnh_valid = false;
      modes_valid = false;
      heading = fraction 0 1;
      heading_type = heading_invalid;
      fms_altitude = 0;
      mcp_altitude = 0;
      qnh = fraction 0 1;
      altitude_source = nav_alt_invalid;
      modes = 0;
    };
    airground = ag_invalid;
    commb_format = commb_unknown;
    weather = record {
      mrar_source_valid = false;
      wind_valid = false;
      temperature_valid = false;
      pressure_valid = false;
      turbulence_valid = false;
      humidity_valid = false;
      mrar_source = 0;
      wind_speed = fraction 0 1;
      wind_dir = fraction 0 1;
      temperature = fraction 0 1;
      pressure = fraction 0 1;
      turbulence = 0;
      humidity = fraction 0 1;
    };
  };
}
