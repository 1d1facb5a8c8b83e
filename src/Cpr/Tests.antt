-- ===== src/Cpr/Tests.antt =====
-- cpr.c at some positions, and the theorem at one of them.
use rbfeeder.Base.{ℕ, Bool, true, false, ◌≡◌, refl, ◌&&◌}
use rbfeeder.Base.Int.{pos, negsuc, ◌+ℤ◌, ◌-ℤ◌, ◌*ℤ◌}
use rbfeeder.Base.Ratio.{Ratio, whole, minus, lt_ratio, magnitude, floor_div, round_div}
use rbfeeder.Base.Double.{
  width_by, width, round_even, round_double, round_signed, double, add_double, sub_double,
  mul_double, div_double, floor_double, remainder_of, fmod,
}
use rbfeeder.Cpr.Zones.{cpr_mod_int, nl_from, cpr_nl, cpr_n, circle}
use rbfeeder.Cpr.Decode.{
  CprResult, decoded, try_later, bad_data, latitude_index, zone_size, cell, cell_latitude,
  longitude_index, cell_longitude, southern, is_no_latitude, renormalize, in_one_zone,
  cpr_mod_double, relative_index, relative_cell, is_far, decode_cpr_airborne, decode_cpr_relative,
}

-- Whether a position lies between bounds for its latitude and its longitude.
unfoldable is_between : Ratio → Ratio → Ratio → Ratio → CprResult → Bool
is_between south north west east (decoded lat lon) =
    lt_ratio south lat && (lt_ratio lat north && (lt_ratio west lon && lt_ratio lon east))
is_between south north west east try_later = false
is_between south north west east bad_data = false

-- In 10 ^ -6 degrees.
abbrev micro : ℕ → Ratio
micro n = record { num = pos n; den = 1000000 }

-- A case of cprtests.c: 51.686646 degrees north, 0.700156 degrees east.
even_position :
    is_between
      (micro 51686645)
      (micro 51686647)
      (micro 700155)
      (micro 700157)
      (decode_cpr_airborne 80536 9432 61720 9192 false)
    ≡ true
unfolding is_between decode_cpr_airborne latitude_index zone_size cell cell_latitude southern
    in_one_zone is_no_latitude cell_longitude longitude_index renormalize cpr_mod_int cpr_nl cpr_n
    nl_from circle whole lt_ratio magnitude floor_div round_div ◌+ℤ◌ ◌-ℤ◌ ◌*ℤ◌ minus width_by width
    round_even round_double round_signed double add_double sub_double mul_double div_double
    floor_double
even_position = refl

-- A longitude just below 180 degrees east is renormalized to 2 ^ -45 degrees beyond 180 degrees west, since
-- its sum with 180 rounds to 360.
beyond_180 :
    is_between
      (whole (pos 48))
      (whole (pos 50))
      record { num = negsuc 180000000000000028; den = 1000000000000000 }
      (whole (negsuc 179))
      (decode_cpr_airborne 21845 65536 4005 0 false)
    ≡ true
unfolding is_between decode_cpr_airborne latitude_index zone_size cell cell_latitude southern
    in_one_zone is_no_latitude cell_longitude longitude_index renormalize cpr_mod_int cpr_nl cpr_n
    nl_from circle whole lt_ratio magnitude floor_div round_div ◌+ℤ◌ ◌-ℤ◌ ◌*ℤ◌ minus width_by width
    round_even round_double round_signed double add_double sub_double mul_double div_double
    floor_double
beyond_180 = refl

-- Near the antimeridian `decodeCPRrelative` returns a longitude below -180, here about -181.
beyond_antimeridian :
    is_between (whole (negsuc 0)) (whole (pos 1)) (whole (negsuc 181)) (whole (negsuc 179)) (
      decode_cpr_relative
        (whole (pos 0))
        (double (record { num = negsuc 1798; den = 10 }))
        0
        44040
        false
        false)
    ≡ true
unfolding is_between decode_cpr_relative relative_index relative_cell cpr_mod_double zone_size cell
    southern is_far is_no_latitude cpr_nl cpr_n nl_from circle whole lt_ratio magnitude floor_div
    ◌+ℤ◌ ◌-ℤ◌ ◌*ℤ◌ minus width_by width round_even round_double round_signed double add_double
    sub_double mul_double div_double floor_double remainder_of fmod
beyond_antimeridian = refl
