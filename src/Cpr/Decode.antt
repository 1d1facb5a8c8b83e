-- ===== src/Cpr/Decode.antt =====
-- cpr.c: `decodeCPRairborne`, `decodeCPRsurface` and `decodeCPRrelative`. A double is the fraction that it
-- is, and each operation of the source on doubles that can round is one of Base/Double.
use rbfeeder.Base.{ℕ, ◌-◌, ◌*◌, Bool, true, false, not, ◌||◌, ◌==◌, if◌then◌else◌}
use rbfeeder.Base.Int.{ℤ, pos, negsuc, ◌+ℤ◌, ◌*ℤ◌, sub_ℕ, eq_ℤ}
use rbfeeder.Base.Ratio.{Ratio, whole, lt_ratio, magnitude, round_div}
use rbfeeder.Base.Double.{
  double, add_double, sub_double, mul_double, div_double, floor_double, fmod,
}
use rbfeeder.Cpr.Zones.{cpr_mod_int, cpr_nl, cpr_n, circle}

-- What the decoders return, with the position that they write on success.
pub data CprResult : Type 0 where
  decoded : Ratio → Ratio → CprResult
  try_later bad_data : CprResult

-- The latitude index `j`; its doubles do not round.
unfoldable pub latitude_index : ℕ → ℕ → ℤ
latitude_index lat0 lat1 = round_div (sub_ℕ (59 * lat0) (60 * lat1)) 131072

-- The size of one of `zones` zones.
unfoldable pub zone_size : ℕ → ℕ → Ratio
zone_size around zones = double (record { num = pos around; den = zones })

-- `index + cpr / 131072`, which does not round.
unfoldable pub cell : ℤ → ℕ → Ratio
cell index cpr = record { num = index *ℤ pos 131072 +ℤ pos cpr; den = 131072 }

-- `Dlat * (index + lat / 131072)`, with `zones` latitude zones on the circle.
unfoldable pub cell_latitude : ℕ → ℕ → ℕ → ℕ → Ratio
cell_latitude around zones index lat = mul_double (zone_size around zones) (cell (pos index) lat)

-- `if (rlat >= 270) rlat -= 360`
unfoldable pub southern : Ratio → Ratio
southern lat = if lt_ratio lat (whole (pos 270)) then lat else sub_double lat (whole (pos 360))

-- `rlat < -90 || rlat > 90`
unfoldable pub is_no_latitude : Ratio → Bool
is_no_latitude lat = lt_ratio lat (whole (negsuc 89)) || lt_ratio (whole (pos 90)) lat

-- The longitude index `m`, whose doubles do not round, and the longitude in its zone.
unfoldable pub longitude_index : Ratio → ℕ → ℕ → ℤ
longitude_index lat lon0 lon1 =
    round_div (sub_ℕ (lon0 * (cpr_nl lat - 1)) (lon1 * cpr_nl lat)) 131072

unfoldable pub cell_longitude : Ratio → Bool → Bool → ℕ → ℕ → Ratio
cell_longitude lat fflag surface lon0 lon1 =
    let ni = cpr_n lat fflag in
    let m = cpr_mod_int (longitude_index lat lon0 lon1) ni in
    mul_double (zone_size (circle surface) ni) (cell (pos m) (if fflag then lon1 else lon0))

-- `rlon -= floor((rlon + 180) / 360) * 360`
unfoldable pub renormalize : Ratio → Ratio
renormalize lon =
    let turns = floor_double (div_double (add_double lon (whole (pos 180))) (whole (pos 360))) in
    sub_double lon (whole (turns *ℤ pos 360))

-- The common tail of the two global decoders, up to the choice of the quadrant.
unfoldable pub in_one_zone : Ratio → Ratio → (Ratio → Ratio) → Bool → Bool → ℕ → ℕ → CprResult
in_one_zone rlat0 rlat1 quadrant fflag surface lon0 lon1 =
    let rlat = if fflag then rlat1 else rlat0 in
    if is_no_latitude rlat0 || is_no_latitude rlat1
    then bad_data
    else if not (cpr_nl rlat0 == cpr_nl rlat1)
    then try_later
    else decoded rlat (renormalize (quadrant (cell_longitude rlat fflag surface lon0 lon1)))

-- `decodeCPRairborne`
unfoldable pub decode_cpr_airborne : ℕ → ℕ → ℕ → ℕ → Bool → CprResult
decode_cpr_airborne lat0 lon0 lat1 lon1 fflag =
    let j = latitude_index lat0 lat1 in
    let rlat0 = southern (cell_latitude 360 60 (cpr_mod_int j 60) lat0) in
    let rlat1 = southern (cell_latitude 360 59 (cpr_mod_int j 59) lat1) in
    in_one_zone rlat0 rlat1 (λ lon. lon) fflag false lon0 lon1

-- The quadrant of a latitude on the surface that is closest to the reference.
unfoldable pub latitude_quadrant : Ratio → Ratio → Ratio
latitude_quadrant reflat lat =
    if eq_ℤ lat.num (pos 0)
    then (if lt_ratio reflat (whole (negsuc 44))
        then whole (negsuc 89)
        else if lt_ratio (whole (pos 45)) reflat
        then whole (pos 90)
        else lat)
    else if lt_ratio (whole (pos 45)) (sub_double lat reflat)
    then sub_double lat (whole (pos 90))
    else lat

-- `rlon += floor((reflon - rlon + 45) / 90) * 90`
unfoldable pub longitude_quadrant : Ratio → Ratio → Ratio
longitude_quadrant reflon lon =
    let away = add_double (sub_double reflon lon) (whole (pos 45)) in
    let quarters = floor_double (div_double away (whole (pos 90))) in
    add_double lon (whole (quarters *ℤ pos 90))

-- `decodeCPRsurface`
unfoldable pub decode_cpr_surface : Ratio → Ratio → ℕ → ℕ → ℕ → ℕ → Bool → CprResult
decode_cpr_surface reflat reflon lat0 lon0 lat1 lon1 fflag =
    let j = latitude_index lat0 lat1 in
    let rlat0 = latitude_quadrant reflat (cell_latitude 90 60 (cpr_mod_int j 60) lat0) in
    let rlat1 = latitude_quadrant reflat (cell_latitude 90 59 (cpr_mod_int j 59) lat1) in
    in_one_zone rlat0 rlat1 (longitude_quadrant reflon) fflag true lon0 lon1

-- `cprModDouble` of a size, which is above 0.
unfoldable pub cpr_mod_double : Ratio → Ratio → Ratio
cpr_mod_double a size =
    let res = fmod a size in if lt_ratio res (whole (pos 0)) then add_double res size else res

-- The index of the zone in which `cpr` is nearest to the reference:
-- `floor(ref / size) + floor(0.5 + cprModDouble(ref, size) / size - cpr / 131072)`.
unfoldable pub relative_index : Ratio → Ratio → ℕ → ℤ
relative_index size ref cpr =
    let offset =
      add_double (record { num = pos 1; den = 2 }) (div_double (cpr_mod_double ref size) size) in
    floor_double (div_double ref size)
    +ℤ floor_double (sub_double offset (record { num = pos cpr; den = 131072 }))

-- `size * (index + cpr / 131072)`
unfoldable pub relative_cell : Ratio → ℤ → ℕ → Ratio
relative_cell size index cpr = mul_double size (cell index cpr)

-- More than half a cell away.
unfoldable pub is_far : Ratio → Ratio → Ratio → Bool
is_far size a b =
    lt_ratio (record { num = size.num; den = 2 * size.den }) (magnitude (sub_double a b))

-- `decodeCPRrelative`; both failures return -1.
unfoldable pub decode_cpr_relative : Ratio → Ratio → ℕ → ℕ → Bool → Bool → CprResult
decode_cpr_relative reflat reflon cprlat cprlon fflag surface =
    let dlat = zone_size (circle surface) (if fflag then 59 else 60) in
    let rlat = southern (relative_cell dlat (relative_index dlat reflat cprlat) cprlat) in
    let dlon = zone_size (circle surface) (cpr_n rlat fflag) in
    let lon = relative_cell dlon (relative_index dlon reflon cprlon) cprlon in
    let rlon = if lt_ratio (whole (pos 180)) lon then sub_double lon (whole (pos 360)) else lon in
    if is_no_latitude rlat || is_far dlat rlat reflat
    then try_later
    else if is_far dlon rlon reflon
    then try_later
    else decoded rlat rlon
