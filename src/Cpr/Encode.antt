-- ===== src/Cpr/Encode.antt =====
-- The latitudes that `decodeCPRairborne` recovers, from an encoder as the standard defines it.
use rbfeeder.Base.{
  ℕ, ◌+◌, ◌*◌, ◌/◌, ◌%◌, ◌<◌, ◌≡◌, arith, Bool, ◌||◌, ◌==◌, if◌then◌else◌, Option, none, some,
}
use rbfeeder.Base.Int.{pos}
use rbfeeder.Base.Ratio.{Ratio}
use rbfeeder.Base.Double.{mul_double}
use rbfeeder.Cpr.Zones.{cpr_nl}
use rbfeeder.Cpr.Decode.{
  CprResult, decoded, try_later, bad_data, zone_size, southern, is_no_latitude,
}

-- A circle in units of 10 ^ -7 of a degree.
abbrev pub units : ℕ
units = 3600000000

-- The fraction of its zone that a latitude is at, rounded to 17 bits, which may be the whole zone.
rounded : ℕ → ℕ → ℕ
rounded zones n = (262144 * (zones * n % units) + units) / (2 * units)

-- The transmitted latitude.
pub cpr_latitude : ℕ → ℕ → ℕ
cpr_latitude zones n = rounded zones n % 131072

-- The nearest of the latitudes that can be transmitted, counted from the equator around the circle.
pub nearest : ℕ → ℕ → ℕ
nearest zones n = (2 * zones * 131072 * n + units) / (2 * units) % (zones * 131072)

-- Zone index after rounding.
zone_60 : (n : ℕ) → n < units → 60 * n ≡ 60 * n / units * units + 60 * n % units
zone_60 n h = omega arith

-- The latitude in degrees north that the code has for the `k`-th of those that can be transmitted.
unfoldable pub in_degrees : ℕ → ℕ → Ratio
in_degrees zones k =
    southern (mul_double (zone_size 360 zones) record { num = pos k; den = 131072 })

-- The latitude of a result.
unfoldable pub latitude_of : CprResult → Option Ratio
latitude_of (decoded lat lon) = some lat
latitude_of try_later = none
latitude_of bad_data = none

-- The latitude that a receiver should find: the nearest one of the parity of the last report, if both
-- are latitudes with as many longitude zones.
unfoldable pub expected_latitude : ℕ → Bool → Option Ratio
expected_latitude n fflag =
    let even = in_degrees 60 (nearest 60 n) in
    let odd = in_degrees 59 (nearest 59 n) in
    if is_no_latitude even || is_no_latitude odd
    then none
    else if cpr_nl even == cpr_nl odd
    then some (if fflag then odd else even)
    else none
