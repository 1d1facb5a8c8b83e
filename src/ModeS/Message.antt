-- ===== src/ModeS/Message.antt =====
-- dump1090.h: `struct modesMessage` and its enumerations. The last fields of `Position` are those that the
-- tracker writes. The header is what the receiver fills in, `raw` the fields as they stand in the
-- message, `data` what they mean.
use rbfeeder.Base.{ℕ, List, Bool}
use rbfeeder.Base.Int.{ℤ}
use rbfeeder.Base.Ratio.{Ratio}
use rbfeeder.ModeS.Altitude.{AltitudeUnit}

-- `datasource_t`
pub data Source : Type 0 where
  source_invalid source_mode_ac source_mlat source_mode_s source_mode_s_checked : Source
  source_tisb source_adsr source_adsb : Source

-- `addrtype_t`
pub data AddrType : Type 0 where
  addr_adsb_icao addr_adsb_icao_nt addr_adsr_icao addr_tisb_icao addr_adsb_other : AddrType
  addr_adsr_other addr_tisb_trackfile addr_tisb_other addr_mode_a addr_unknown : AddrType

-- `airground_t`
pub data AirGround : Type 0 where
  ag_invalid ag_ground ag_airborne ag_uncertain : AirGround

-- `cpr_type_t`
pub data CprType : Type 0 where
  cpr_surface cpr_airborne cpr_coarse : CprType

-- `heading_type_t`
pub data HeadingType : Type 0 where
  heading_invalid heading_ground_track heading_true heading_magnetic : HeadingType
  heading_magnetic_or_true heading_track_or_heading : HeadingType

-- `sil_type_t`
pub data SilType : Type 0 where
  sil_invalid sil_unknown sil_per_sample sil_per_hour : SilType

-- `nav_altitude_source_t`
pub data NavAltitudeSource : Type 0 where
  nav_alt_invalid nav_alt_unknown nav_alt_aircraft nav_alt_mcp nav_alt_fms : NavAltitudeSource

-- A `float`, as the exact value that is rounded to it: a fraction, with or without a sign, the speed
-- `sqrt(ns * ns + ew * ew + 0.5)`, or the track `atan2(ew, ns)` in degrees from 0 to 360.
pub data Real : Type 0 where
  fraction : ℕ → ℕ → Real
  signed_fraction : ℤ → ℕ → Real
  speed_of : ℤ → ℤ → Real
  track_of : ℤ → ℤ → Real

-- `commb_format_t`
pub data CommBFormat : Type 0 where
  commb_unknown commb_ambiguous commb_not_decoded commb_empty_response : CommBFormat
  commb_datalink_caps commb_gicb_caps commb_aircraft_ident commb_acas_ra : CommBFormat
  commb_vertical_intent commb_track_turn commb_heading_speed commb_mrar : CommBFormat
  commb_airborne_position : CommBFormat

pub record Header : Type 0 where
  pub msg : List ℕ
  pub verbatim : List ℕ
  pub msgbits : ℕ
  pub msgtype : ℕ
  pub crc : ℕ
  pub correctedbits : ℕ
  pub addr : ℕ
  pub addrtype : AddrType
  pub timestamp_msg : ℕ
  pub sys_timestamp_msg : ℕ
  pub remote : Bool
  pub signal_level : Ratio
  pub reliable : Bool
  pub source : Source

pub record Raw : Type 0 where
  pub iid : ℕ
  pub aa : ℕ
  pub ac : ℕ
  pub ca : ℕ
  pub cc : ℕ
  pub cf : ℕ
  pub dr : ℕ
  pub fs : ℕ
  pub id : ℕ
  pub ke : ℕ
  pub nd : ℕ
  pub ri : ℕ
  pub sl : ℕ
  pub um : ℕ
  pub vs : ℕ
  pub mb : List ℕ
  pub md : List ℕ
  pub me : List ℕ
  pub mv : List ℕ
  pub metype : ℕ
  pub mesub : ℕ

pub record Altitudes : Type 0 where
  pub altitude_baro_valid : Bool
  pub altitude_baro : ℤ
  pub altitude_baro_unit : AltitudeUnit
  pub altitude_geom_valid : Bool
  pub altitude_geom : ℤ
  pub altitude_geom_unit : AltitudeUnit

pub record Motion : Type 0 where
  pub gs_valid : Bool
  pub heading_valid : Bool
  pub ias_valid : Bool
  pub tas_valid : Bool
  pub baro_rate_valid : Bool
  pub geom_rate_valid : Bool
  pub geom_delta_valid : Bool
  pub gs_v0 : Real
  pub gs_v2 : Real
  pub gs_selected : Real
  pub heading : Real
  pub heading_type : HeadingType
  pub ias : ℕ
  pub tas : ℕ
  pub baro_rate : ℤ
  pub geom_rate : ℤ
  pub geom_delta : ℤ
  pub track_rate_valid : Bool
  pub roll_valid : Bool
  pub mach_valid : Bool
  pub track_rate : Real
  pub roll : Real
  pub mach : Real

pub record Identity : Type 0 where
  pub squawk_valid : Bool
  pub callsign_valid : Bool
  pub category_valid : Bool
  pub spi_valid : Bool
  pub spi : Bool
  pub alert_valid : Bool
  pub alert : Bool
  pub emergency_valid : Bool
  pub squawk : ℕ
  pub callsign : List ℕ
  pub category : ℕ
  pub emergency : ℕ

-- `cpr_filtered` is what the decoding adds to `Modes.stats_current.cpr_filtered`.
pub record Position : Type 0 where
  pub cpr_valid : Bool
  pub cpr_odd : Bool
  pub cpr_type : CprType
  pub cpr_lat : ℕ
  pub cpr_lon : ℕ
  pub cpr_filtered : ℕ
  pub cpr_decoded : Bool
  pub cpr_relative : Bool
  pub decoded_lat : Ratio
  pub decoded_lon : Ratio
  pub decoded_nic : ℕ
  pub decoded_rc : ℕ

pub record Accuracy : Type 0 where
  pub nic_a_valid : Bool
  pub nic_b_valid : Bool
  pub nic_c_valid : Bool
  pub nic_baro_valid : Bool
  pub nac_p_valid : Bool
  pub nac_v_valid : Bool
  pub gva_valid : Bool
  pub sda_valid : Bool
  pub nic_a : ℕ
  pub nic_b : ℕ
  pub nic_c : ℕ
  pub nic_baro : ℕ
  pub nac_p : ℕ
  pub nac_v : ℕ
  pub sil : ℕ
  pub sil_type : SilType
  pub gva : ℕ
  pub sda : ℕ

pub record OpStatus : Type 0 where
  pub valid : Bool
  pub version : ℕ
  pub om_acas_ra : ℕ
  pub om_ident : ℕ
  pub om_atc : ℕ
  pub om_saf : ℕ
  pub cc_acas : ℕ
  pub cc_cdti : ℕ
  pub cc_1090_in : ℕ
  pub cc_arv : ℕ
  pub cc_ts : ℕ
  pub cc_tc : ℕ
  pub cc_uat_in : ℕ
  pub cc_poa : ℕ
  pub cc_b2_low : ℕ
  pub cc_lw_valid : Bool
  pub tah : HeadingType
  pub hrd : HeadingType
  pub cc_lw : ℕ
  pub cc_antenna_offset : ℕ

pub record Nav : Type 0 where
  pub heading_valid : Bool
  pub fms_altitude_valid : Bool
  pub mcp_altitude_valid : Bool
  pub qnh_valid : Bool
  pub modes_valid : Bool
  pub heading : Real
  pub heading_type : HeadingType
  pub fms_altitude : ℕ
  pub mcp_altitude : ℕ
  pub qnh : Real
  pub altitude_source : NavAltitudeSource
  pub modes : ℕ

-- BDS 4,4. The enumerations `mrar_source_t` and `hazard_t` are their numbers.
pub record Weather : Type 0 where
  pub mrar_source_valid : Bool
  pub wind_valid : Bool
  pub temperature_valid : Bool
  pub pressure_valid : Bool
  pub turbulence_valid : Bool
  pub humidity_valid : Bool
  pub mrar_source : ℕ
  pub wind_speed : Real
  pub wind_dir : Real
  pub temperature : Real
  pub pressure : Real
  pub turbulence : ℕ
  pub humidity : Real

pub record Data : Type 0 where
  pub altitudes : Altitudes
  pub motion : Motion
  pub identity : Identity
  pub position : Position
  pub accuracy : Accuracy
  pub opstatus : OpStatus
  pub nav : Nav
  pub airground : AirGround
  pub commb_format : CommBFormat
  pub weather : Weather

pub record Message : Type 0 where
  pub header : Header
  pub raw : Raw
  pub data_of : Data
