-- ===== src/CommB/Weather.antt =====
-- comm_b.c: `decodeBDS44`, the meteorological routine air report.
use rbfeeder.Base.{
  ℕ, ◌*◌, List, [], ◌∷◌, Bool, true, false, not, ◌&&◌, ◌||◌, ltb, leb, ◌==◌, if◌then◌else◌, Option,
  none, some,
}
use rbfeeder.Base.Int.{ℤ, pos, negsuc, sub_ℕ, eq_ℤ}
use rbfeeder.ModeS.Bits.{getbit, getbits}
use rbfeeder.ModeS.Message.{Data, Weather, fraction, signed_fraction, commb_mrar}
use rbfeeder.CommB.Reply.{Decoder, total, require, within}

-- `MRAR_SOURCE_DMEDME` and `MRAR_SOURCE_RESERVED`
abbrev pub mrar_source_dmedme : ℕ
mrar_source_dmedme = 3

abbrev pub mrar_source_reserved : ℕ
mrar_source_reserved = 5

-- `raw * 0.25`, less 128 with the sign bit, in quarters of a degree.
unfoldable pub sat_of : List ℕ → ℤ
sat_of msg = sub_ℕ (getbits msg 26 34) (if getbit msg 25 == 1 then 512 else 0)

-- A part that is worth a point if the field is not there.
unfoldable pub or_missing : Bool → Option ℕ → Option ℕ
or_missing true points = points
or_missing false points = some 1

unfoldable pub wind_part : ℕ → Option ℕ
wind_part speed = if speed == 0 then some 2 else if leb speed 250 then some 19 else none

unfoldable pub temperature_part : ℤ → Option ℕ
temperature_part sat =
    if eq_ℤ sat (pos 0) then some 2 else if within (negsuc 319) (pos 240) sat then some 11 else none

unfoldable pub pressure_part : ℕ → Option ℕ
pressure_part asp = if leb 25 asp && leb asp 1100 then some 12 else none

unfoldable pub parts_bds44 : List ℕ → List (Option ℕ)
parts_bds44 msg =
    let valid : ℕ → Bool = λ n. getbit msg n == 1 in
    let source = getbits msg 1 4 in
    require (not (source == 0 || leb mrar_source_reserved source))
    ∷ require (valid 5 && valid 24)
    ∷ require (valid 35 || getbits msg 36 46 == 0)
    ∷ require (valid 47 || getbits msg 48 49 == 0)
    ∷ require (valid 50 || getbits msg 51 56 == 0)
    ∷ or_missing (valid 5) (wind_part (getbits msg 6 14))
    ∷ or_missing (valid 24) (temperature_part (sat_of msg))
    ∷ or_missing (valid 35) (pressure_part (getbits msg 36 46))
    ∷ or_missing (valid 47) (some 3)
    ∷ or_missing (valid 50) (some 7)
    ∷ []

-- A report that may well be a capability report counts as a last resort.
unfoldable pub last_resort : List ℕ → ℕ → ℤ
last_resort msg score =
    if getbits msg 1 4 == mrar_source_dmedme
      && (getbit msg 5 == 1 && (getbit msg 24 == 1 && ltb 0 score))
    then pos 1
    else pos score

unfoldable pub with_last_resort : List ℕ → Option ℕ → Option ℤ
with_last_resort msg none = none
with_last_resort msg (some n) = some (last_resort msg n)

unfoldable pub score_bds44 : List ℕ → Option ℤ
score_bds44 msg = with_last_resort msg (total (parts_bds44 msg))

unfoldable pub store_wind : List ℕ → Weather → Weather
store_wind msg w =
    if getbit msg 5 == 1
    then record w {
      wind_valid = true;
      wind_speed = fraction (getbits msg 6 14) 1;
      wind_dir = fraction (getbits msg 15 23 * 180) 256;
    }
    else w

unfoldable pub store_temperature : List ℕ → Weather → Weather
store_temperature msg w =
    if getbit msg 24 == 1
    then record w { temperature_valid = true; temperature = signed_fraction (sat_of msg) 4 }
    else w

unfoldable pub store_pressure : List ℕ → Weather → Weather
store_pressure msg w =
    if getbit msg 35 == 1
    then record w { pressure_valid = true; pressure = fraction (getbits msg 36 46) 1 }
    else w

unfoldable pub store_turbulence : List ℕ → Weather → Weather
store_turbulence msg w =
    if getbit msg 47 == 1
    then record w { turbulence_valid = true; turbulence = getbits msg 48 49 }
    else w

unfoldable pub store_humidity : List ℕ → Weather → Weather
store_humidity msg w =
    if getbit msg 50 == 1
    then record w { humidity_valid = true; humidity = fraction (getbits msg 51 56 * 100) 64 }
    else w

unfoldable pub store_bds44 : List ℕ → Data → Data
store_bds44 msg d =
    let sourced = record d.weather { mrar_source_valid = true; mrar_source = getbits msg 1 4 } in
    record d {
      commb_format = commb_mrar;
      weather = store_humidity msg (
          store_turbulence msg
            (store_pressure msg (store_temperature msg (store_wind msg sourced))));
    }

-- `decodeBDS44`
abbrev pub decode_bds44 : Decoder
decode_bds44 = record { score_of = λ h r. score_bds44 r.mb; stored = λ h r. store_bds44 r.mb }
