-- ===== src/Track/Aircraft.antt =====
-- track.h: `struct aircraft`, in groups, without what the outputs remember of it (`fatsv_...` and `an`).
-- A field `x` with its `x_valid` is an item. The position in the list stands for `next`.
use rbfeeder.Base.{ℕ, ◌*◌, List, Bool, false, replicate}
use rbfeeder.Base.Int.{ℤ, pos, negsuc}
use rbfeeder.Base.Ratio.{Ratio, whole}
use rbfeeder.Base.Double.{double}
use rbfeeder.ModeS.Message.{
  Header, AddrType, AirGround, ag_invalid, CprType, cpr_surface, HeadingType, heading_magnetic,
  heading_ground_track, SilType, sil_invalid, NavAltitudeSource, nav_alt_invalid, Real, fraction,
  source_invalid,
}
use rbfeeder.Track.Validity.{Item}

pub record Presence : Type 0 where
  pub addr : ℕ
  pub addrtype : AddrType
  pub seen : ℕ
  pub messages : ℕ
  pub reliable : Bool
  pub reliable_df11 : ℕ
  pub reliable_df17 : ℕ
  pub discarded : ℕ
  pub signal_level : List Ratio
  pub signal_next : ℕ

-- The modeA_hit and modeC_hit flags tell that Mode A/C replies match.
pub record Altitude : Type 0 where
  pub altitude_baro : Item ℤ
  pub altitude_geom : Item ℤ
  pub geom_delta : Item ℤ
  pub mode_a_hit : Bool
  pub mode_c_hit : Bool

pub record Movement : Type 0 where
  pub gs : Item Real
  pub ias : Item ℕ
  pub tas : Item ℕ
  pub mach : Item Real
  pub track : Item Real
  pub track_rate : Item Real
  pub roll : Item Real
  pub mag_heading : Item Real
  pub true_heading : Item Real
  pub baro_rate : Item ℤ
  pub geom_rate : Item ℤ

pub record Status : Type 0 where
  pub callsign : Item (List ℕ)
  pub callsign_matched : Bool
  pub squawk : Item ℕ
  pub emergency : Item ℕ
  pub category : ℕ
  pub airground : Item AirGround

pub record Intent : Type 0 where
  pub nav_qnh : Item Real
  pub nav_altitude_mcp : Item ℕ
  pub nav_altitude_fms : Item ℕ
  pub nav_altitude_src : Item NavAltitudeSource
  pub nav_heading : Item Real
  pub nav_modes : Item ℕ

-- A position report, `cpr_odd_...` or `cpr_even_...`.
pub record Report : Type 0 where
  pub type : CprType
  pub lat : ℕ
  pub lon : ℕ
  pub nic : ℕ
  pub rc : ℕ

-- `lat`, `lon`, `pos_nic` and `pos_rc`
pub record Place : Type 0 where
  pub lat : Ratio
  pub lon : Ratio
  pub nic : ℕ
  pub rc : ℕ

pub record Whereabouts : Type 0 where
  pub cpr_odd : Item Report
  pub cpr_even : Item Report
  pub position : Item Place

-- -1 stands for no message of the kind.
pub record Versions : Type 0 where
  pub adsb_version : ℤ
  pub adsr_version : ℤ
  pub tisb_version : ℤ
  pub adsb_hrd : HeadingType
  pub adsb_tah : HeadingType

pub record Integrity : Type 0 where
  pub nic_a : Item ℕ
  pub nic_c : Item ℕ
  pub nic_baro : Item ℕ
  pub nac_p : Item ℕ
  pub nac_v : Item ℕ
  pub sil : Item ℕ
  pub sil_type : SilType
  pub gva : Item ℕ
  pub sda : Item ℕ

pub record Wind : Type 0 where
  pub speed : Real
  pub dir : Real

pub record Meteo : Type 0 where
  pub mrar_source : Item ℕ
  pub wind : Item Wind
  pub pressure : Item Real
  pub temperature : Item Real
  pub turbulence : Item ℕ
  pub humidity : Item Real

pub record Aircraft : Type 0 where
  pub presence : Presence
  pub altitude : Altitude
  pub movement : Movement
  pub status : Status
  pub intent : Intent
  pub whereabouts : Whereabouts
  pub versions : Versions
  pub integrity : Integrity
  pub meteo : Meteo

-- `F(f, s, e)`, with the value that `zeroAircraft` holds.
unfoldable pub empty_item {ℓ} : {A : Type ℓ} → ℕ → ℕ → A → Item A
empty_item s e zero_value = record {
  valid = record {
    stale_interval = s * 1000;
    expire_interval = e * 1000;
    source = source_invalid;
    updated = 0;
    stale = 0;
    expires = 0;
  };
  value = zero_value;
}

abbrev pub no_real : Real
no_real = fraction 0 1

abbrev pub no_report : Report
no_report = record { type = cpr_surface; lat = 0; lon = 0; nic = 0; rc = 0 }

abbrev pub no_place : Place
no_place = record { lat = whole (pos 0); lon = whole (pos 0); nic = 0; rc = 0 }

-- `trackCreateAircraft`
unfoldable pub track_create_aircraft : Header → Aircraft
track_create_aircraft h = record {
  presence = record {
    addr = h.addr;
    addrtype = h.addrtype;
    seen = 0;
    messages = 0;
    reliable = false;
    reliable_df11 = 0;
    reliable_df17 = 0;
    discarded = 0;
    signal_level = replicate 8 (double (record { num = pos 1; den = 100000 }));
    signal_next = 0;
  };
  altitude = record {
    altitude_baro = empty_item 15 70 (pos 0);
    altitude_geom = empty_item 60 70 (pos 0);
    geom_delta = empty_item 60 70 (pos 0);
    mode_a_hit = false;
    mode_c_hit = false;
  };
  movement = record {
    gs = empty_item 60 70 no_real;
    ias = empty_item 60 70 0;
    tas = empty_item 60 70 0;
    mach = empty_item 60 70 no_real;
    track = empty_item 60 70 no_real;
    track_rate = empty_item 60 70 no_real;
    roll = empty_item 60 70 no_real;
    mag_heading = empty_item 60 70 no_real;
    true_heading = empty_item 60 70 no_real;
    baro_rate = empty_item 60 70 (pos 0);
    geom_rate = empty_item 60 70 (pos 0);
  };
  status = record {
    callsign = empty_item 60 70 (replicate 8 0);
    callsign_matched = false;
    squawk = empty_item 15 70 0;
    emergency = empty_item 60 70 0;
    category = 0;
    airground = empty_item 15 70 ag_invalid;
  };
  intent = record {
    nav_qnh = empty_item 60 70 no_real;
    nav_altitude_mcp = empty_item 60 70 0;
    nav_altitude_fms = empty_item 60 70 0;
    nav_altitude_src = empty_item 60 70 nav_alt_invalid;
    nav_heading = empty_item 60 70 no_real;
    nav_modes = empty_item 60 70 0;
  };
  whereabouts = record {
    cpr_odd = empty_item 60 70 no_report;
    cpr_even = empty_item 60 70 no_report;
    position = empty_item 60 70 no_place;
  };
  versions = record {
    adsb_version = negsuc 0;
    adsr_version = pos 0;
    tisb_version = pos 0;
    adsb_hrd = heading_magnetic;
    adsb_tah = heading_ground_track;
  };
  integrity = record {
    nic_a = empty_item 60 70 0;
    nic_c = empty_item 60 70 0;
    nic_baro = empty_item 60 70 0;
    nac_p = empty_item 60 70 0;
    nac_v = empty_item 60 70 0;
    sil = empty_item 60 70 0;
    sil_type = sil_invalid;
    gva = empty_item 60 70 0;
    sda = empty_item 60 70 0;
  };
  meteo = record {
    mrar_source = empty_item 60 70 0;
    wind = empty_item 60 70 record { speed = no_real; dir = no_real };
    pressure = empty_item 60 70 no_real;
    temperature = empty_item 60 70 no_real;
    turbulence = empty_item 60 70 0;
    humidity = empty_item 60 70 no_real;
  };
}
