-- ===== src/CommB/Intent.antt =====
-- comm_b.c: `decodeBDS40`, the selected vertical intention.
use rbfeeder.Base.{
  ℕ, ◌+◌, ◌*◌, ◌%◌, List, [], ◌∷◌, Bool, true, false, not, ◌&&◌, ◌||◌, ltb, leb, ◌==◌,
  if◌then◌else◌, bit_or, has, Option, none, some,
}
use rbfeeder.Base.Int.{ℤ}
use rbfeeder.ModeS.Bits.{getbit, getbits}
use rbfeeder.ModeS.Message.{
  Data, Nav, fraction, NavAltitudeSource, nav_alt_invalid, nav_alt_unknown, nav_alt_aircraft,
  nav_alt_mcp, nav_alt_fms, commb_vertical_intent,
}
use rbfeeder.ModeS.Squitter.Status.Target.{nav_mode_vnav, nav_mode_alt_hold, nav_mode_approach}
use rbfeeder.CommB.Reply.{Decoder, total, require, field, less}

-- The parts: the altitudes, the pressure setting, the modes and the source. The pressure is
-- `800 + raw * 0.1`, so that the bounds 900 and 1100 are bounds on `raw`.
unfoldable pub altitude_part : Bool → ℕ → Option ℕ
altitude_part valid raw = field valid (raw == 0) (leb 1000 (raw * 16) && leb (raw * 16) 50000) 13

unfoldable pub status_part : Bool → ℕ → ℕ → Option ℕ
status_part true raw points = some points
status_part false raw points = if raw == 0 then some 1 else none

unfoldable pub parts_bds40 : List ℕ → List (Option ℕ)
parts_bds40 msg =
    let valid : ℕ → Bool = λ n. getbit msg n == 1 in
    let baro_raw = getbits msg 28 39 in
    require (valid 1 || (valid 14 || (valid 27 || (valid 48 || valid 54))))
    ∷ altitude_part (valid 1) (getbits msg 2 13)
    ∷ altitude_part (valid 14) (getbits msg 15 26)
    ∷ field (valid 27) (baro_raw == 0) (leb 1000 baro_raw && leb baro_raw 3000) 13
    ∷ require (getbits msg 40 47 == 0)
    ∷ status_part (valid 48) (getbits msg 49 51) 4
    ∷ require (getbits msg 52 53 == 0)
    ∷ status_part (valid 54) (getbits msg 55 56) 3
    ∷ []

-- Not a multiple of 500, up to rounding.
unfoldable pub is_odd_altitude : ℕ → Bool
is_odd_altitude alt = not (ltb (alt % 500) 16 || ltb 484 (alt % 500))

-- The small penalties for inconsistent data.
unfoldable pub penalty_bds40 : List ℕ → ℕ
penalty_bds40 msg =
    let mcp_valid = getbit msg 1 == 1 in
    let fms_valid = getbit msg 14 == 1 in
    let mcp_alt = getbits msg 2 13 * 16 in
    let fms_alt = getbits msg 15 26 * 16 in
    (if mcp_valid && (fms_valid && not (mcp_alt == fms_alt)) then 4 else 0)
    + (if mcp_valid && is_odd_altitude mcp_alt then 4 else 0)
    + (if fms_valid && is_odd_altitude fms_alt then 4 else 0)

unfoldable pub score_bds40 : List ℕ → Option ℤ
score_bds40 msg = less (total (parts_bds40 msg)) (penalty_bds40 msg)

unfoldable pub altitude_source_of : ℕ → NavAltitudeSource
altitude_source_of n =
    if n == 0
    then nav_alt_unknown
    else if n == 1
    then nav_alt_aircraft
    else if n == 2
    then nav_alt_mcp
    else if n == 3
    then nav_alt_fms
    else nav_alt_invalid

unfoldable pub store_altitudes : List ℕ → Nav → Nav
store_altitudes msg n0 =
    let n1 =
      if getbit msg 1 == 1
      then record n0 { mcp_altitude_valid = true; mcp_altitude = getbits msg 2 13 * 16 }
      else n0 in
    if getbit msg 14 == 1
    then record n1 { fms_altitude_valid = true; fms_altitude = getbits msg 15 26 * 16 }
    else n1

unfoldable pub store_qnh : List ℕ → Nav → Nav
store_qnh msg nav =
    if getbit msg 27 == 1
    then record nav { qnh_valid = true; qnh = fraction (8000 + getbits msg 28 39) 10 }
    else nav

unfoldable pub store_modes : List ℕ → Nav → Nav
store_modes msg nav =
    let mode_raw = getbits msg 49 51 in
    if getbit msg 48 == 1
    then record nav {
      modes_valid = true;
      modes =
          bit_or
            (bit_or (if has mode_raw 4 then nav_mode_vnav else 0)
              (if has mode_raw 2 then nav_mode_alt_hold else 0))
            (if has mode_raw 1 then nav_mode_approach else 0);
    }
    else nav

unfoldable pub store_source : List ℕ → Nav → Nav
store_source msg nav = record nav {
  altitude_source =
      if getbit msg 54 == 1 then altitude_source_of (getbits msg 55 56) else nav_alt_invalid;
}

unfoldable pub store_bds40 : List ℕ → Data → Data
store_bds40 msg d = record d {
  commb_format = commb_vertical_intent;
  nav = store_source msg (store_modes msg (store_qnh msg (store_altitudes msg d.nav)));
}

-- `decodeBDS40`
abbrev pub decode_bds40 : Decoder
decode_bds40 = record { score_of = λ h r. score_bds40 r.mb; stored = λ h r. store_bds40 r.mb }
