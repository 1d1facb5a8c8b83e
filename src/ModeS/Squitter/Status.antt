-- ===== src/ModeS/Squitter/Status.antt =====
-- mode_s.c: target state and status, and operational status.
pub mod Target
use rbfeeder.Base.{ℕ, ◌+◌, ◌-◌, List, Bool, true, false, not, ◌&&◌, ◌||◌, leb, ◌==◌, if◌then◌else◌}
use rbfeeder.ModeS.Bits.{getbit, getbits}
use rbfeeder.ModeS.Message.{
  Message, Raw, Data, Accuracy, OpStatus, HeadingType, heading_magnetic, heading_true,
  heading_ground_track, sil_unknown, sil_per_sample, sil_per_hour,
}
use rbfeeder.ModeS.Squitter.Address.{set_imf_at}
unfoldable pub use rbfeeder.ModeS.Squitter.Status.Target.{decode_target_status}

-- The operational modes, where bits 25 and 26 are clear.
unfoldable pub modes_v1 : List ℕ → OpStatus → OpStatus
modes_v1 me op =
    if getbits me 25 26 == 0
    then record op { om_acas_ra = getbit me 27; om_ident = getbit me 28; om_atc = getbit me 29 }
    else op

-- Version 0.
unfoldable pub capability_v0 : List ℕ → ℕ → OpStatus → OpStatus
capability_v0 me mesub op =
    if mesub == 0 && getbits me 9 10 == 0
    then record op { cc_acas = 1 - getbit me 12; cc_cdti = getbit me 13 }
    else op

-- Version 1: airborne and surface capabilities.
unfoldable pub capability_v1 : List ℕ → ℕ → OpStatus → OpStatus
capability_v1 me mesub op =
    if mesub == 0 && (getbits me 9 10 == 0 && getbits me 13 14 == 0)
    then record op {
      cc_acas = 1 - getbit me 11;
      cc_cdti = getbit me 12;
      cc_arv = getbit me 15;
      cc_ts = getbit me 16;
      cc_tc = getbits me 17 18;
    }
    else if mesub == 1 && (getbits me 9 10 == 0 && getbits me 13 14 == 0)
    then record op {
      cc_poa = getbit me 11;
      cc_cdti = getbit me 12;
      cc_b2_low = getbit me 15;
      cc_lw_valid = true;
      cc_lw = getbits me 21 24;
    }
    else op

unfoldable pub capability_v2 : List ℕ → ℕ → OpStatus → OpStatus
capability_v2 me mesub op =
    if mesub == 0 && getbits me 9 10 == 0
    then record op {
      cc_acas = getbit me 11;
      cc_1090_in = getbit me 12;
      cc_arv = getbit me 15;
      cc_ts = getbit me 16;
      cc_tc = getbits me 17 18;
      cc_uat_in = getbit me 19;
    }
    else if mesub == 1 && getbits me 9 10 == 0
    then record op {
      cc_poa = getbit me 11;
      cc_1090_in = getbit me 12;
      cc_b2_low = getbit me 15;
      cc_uat_in = getbit me 16;
      cc_lw_valid = true;
      cc_lw = getbits me 21 24;
      cc_antenna_offset = getbits me 33 40;
    }
    else op

-- The horizontal reference direction, and what a surface track is.
unfoldable pub references : List ℕ → ℕ → OpStatus → OpStatus
references me mesub op =
    let hrd = if getbit me 54 == 1 then heading_magnetic else heading_true in
    let tah = if getbit me 53 == 1 then hrd else heading_ground_track in
    if mesub == 0 then record op { hrd = hrd } else record op { hrd = hrd; tah = tah }

unfoldable pub baro_if_airborne : List ℕ → ℕ → Accuracy → Accuracy
baro_if_airborne me mesub a =
    if mesub == 0 then record a { nic_baro_valid = true; nic_baro = getbit me 53 } else a

unfoldable pub accuracy_v1 : List ℕ → ℕ → Accuracy → Accuracy
accuracy_v1 me mesub a = baro_if_airborne me mesub (record a {
  nic_a_valid = true;
  nic_a = getbit me 44;
  nac_p_valid = true;
  nac_p = getbits me 45 48;
  sil_type = sil_unknown;
  sil = getbits me 51 52;
})

-- The parts of version 2, in the order of the source.
unfoldable pub design_v2 : List ℕ → Accuracy → Accuracy
design_v2 me a =
    if getbits me 25 26 == 0 then record a { sda_valid = true; sda = getbits me 31 32 } else a

unfoldable pub surface_v2 : List ℕ → ℕ → Accuracy → Accuracy
surface_v2 me mesub a =
    if mesub == 1 && getbits me 9 10 == 0
    then record a {
      nac_v_valid = true;
      nac_v = getbits me 17 19;
      nic_c_valid = true;
      nic_c = getbit me 20;
    }
    else a

unfoldable pub vertical_v2 : List ℕ → ℕ → Accuracy → Accuracy
vertical_v2 me mesub a =
    if mesub == 0 then record a { gva_valid = true; gva = getbits me 49 50 } else a

unfoldable pub accuracy_v2 : List ℕ → ℕ → Accuracy → Accuracy
accuracy_v2 me mesub a =
    let b = surface_v2 me mesub (design_v2 me a) in
    baro_if_airborne me mesub (
      vertical_v2 me mesub (record b {
        nic_a_valid = true;
        nic_a = getbit me 44;
        nac_p_valid = true;
        nac_p = getbits me 45 48;
        sil = getbits me 51 52;
        sil_type = if getbit me 55 == 1 then sil_per_sample else sil_per_hour;
      }))

unfoldable pub modes_v2 : List ℕ → OpStatus → OpStatus
modes_v2 me op =
    if getbits me 25 26 == 0 then record (modes_v1 me op) { om_saf = getbit me 30 } else op

-- The switch on the version.
unfoldable pub by_version : List ℕ → ℕ → Data → Data
by_version me mesub d =
    let op = d.opstatus in
    if op.version == 0
    then record d { opstatus = capability_v0 me mesub op }
    else if op.version == 1
    then record d {
      opstatus = references me mesub (capability_v1 me mesub (modes_v1 me op));
      accuracy = accuracy_v1 me mesub d.accuracy;
    }
    else if op.version == 2
    then record d {
      opstatus = references me mesub (capability_v2 me mesub (modes_v2 me op));
      accuracy = accuracy_v2 me mesub d.accuracy;
    }
    else d

-- `decodeESOperationalStatus`
unfoldable pub decode_operational_status : Message → Bool → Message
decode_operational_status m0 check_imf =
    let me = m0.raw.me in
    let mesub = getbits me 6 8 in
    let mm = set_imf_at check_imf 56 (record m0 { raw = record m0.raw { mesub = mesub } }) in
    let d = record mm.data_of {
      opstatus = record mm.data_of.opstatus { valid = true; version = getbits me 41 43 };
    } in
    if mesub == 0 || mesub == 1 then record mm { data_of = by_version me mesub d } else mm
