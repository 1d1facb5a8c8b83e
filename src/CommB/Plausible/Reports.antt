-- ===== src/CommB/Plausible/Reports.antt =====
-- BDS 4,4: wind, temperature and pressure.
use rbfeeder.Base.{ℕ, List, Bool, true, ◌&&◌, leb, ◌==◌, some, ◌≡◌, arith}
use rbfeeder.Base.Int.{ℤ, pos, negsuc, ◌*ℤ◌}
use rbfeeder.ModeS.Bits.{getbit, getbits}
use rbfeeder.ModeS.Message.{Weather}
use rbfeeder.CommB.Reply.{total, within}
use rbfeeder.CommB.Plausible.{if_valid, real_within, is_plausible_weather, passes, passes_at}
use rbfeeder.CommB.Weather.{
  or_missing, wind_part, temperature_part, pressure_part, parts_bds44, sat_of, store_wind,
  store_temperature, store_pressure, store_turbulence, store_humidity,
}

passes-wind :
    (v : Bool) (n : ℕ) → passes (or_missing v (wind_part n)) ≡ true → if_valid v (leb n 250) ≡ true
unfolding passes or_missing wind_part if_valid
passes-wind v n h = ground arith

passes-temperature :
    (v : Bool) (n : ℤ)
    → passes (or_missing v (temperature_part n)) ≡ true
    → if_valid v (within (negsuc 319) (pos 240) n) ≡ true
unfolding passes or_missing temperature_part if_valid within
passes-temperature v n h = ground arith

passes-pressure :
    (v : Bool) (n : ℕ)
    → passes (or_missing v (pressure_part n)) ≡ true
    → if_valid v (leb 25 n && leb n 1100) ≡ true
unfolding passes or_missing pressure_part if_valid
passes-pressure v n h = ground arith

store_wind-plausible :
    (msg : List ℕ) (w : Weather)
    → is_plausible_weather w ≡ true
    → if_valid (getbit msg 5 == 1) (leb (getbits msg 6 14) 250) ≡ true
    → is_plausible_weather (store_wind msg w) ≡ true
unfolding is_plausible_weather if_valid store_wind real_within within ◌*ℤ◌
store_wind-plausible msg w h h1 = ground arith

store_temperature-plausible :
    (msg : List ℕ) (w : Weather)
    → is_plausible_weather w ≡ true
    → if_valid (getbit msg 24 == 1) (within (negsuc 319) (pos 240) (sat_of msg)) ≡ true
    → is_plausible_weather (store_temperature msg w) ≡ true
unfolding is_plausible_weather if_valid store_temperature real_within within ◌*ℤ◌
store_temperature-plausible msg w h h1 = ground arith

store_pressure-plausible :
    (msg : List ℕ) (w : Weather)
    → is_plausible_weather w ≡ true
    → if_valid (getbit msg 35 == 1) (leb 25 (getbits msg 36 46) && leb (getbits msg 36 46) 1100)
      ≡ true
    → is_plausible_weather (store_pressure msg w) ≡ true
unfolding is_plausible_weather if_valid store_pressure real_within within ◌*ℤ◌
store_pressure-plausible msg w h h1 = ground arith

weather_rest-plausible :
    (msg : List ℕ) (w : Weather)
    → is_plausible_weather w ≡ true
    → is_plausible_weather (store_humidity msg (store_turbulence msg w)) ≡ true
unfolding is_plausible_weather store_humidity store_turbulence
weather_rest-plausible msg w h = ground arith

pub store_bds44-plausible :
    (msg : List ℕ) (w : Weather) (n : ℕ)
    → total (parts_bds44 msg) ≡ some n
    → is_plausible_weather w ≡ true
    → is_plausible_weather (
        store_humidity msg
          (store_turbulence msg (store_pressure msg (store_temperature msg (store_wind msg w)))))
      ≡ true
unfolding parts_bds44
store_bds44-plausible msg w n ok h = weather_rest-plausible msg _ (
    store_pressure-plausible msg _
      (store_temperature-plausible msg _
        (store_wind-plausible msg w h (passes-wind _ _ (passes_at (parts_bds44 msg) 5 n ok)))
        (passes-temperature _ _ (passes_at (parts_bds44 msg) 6 n ok)))
      (passes-pressure _ _ (passes_at (parts_bds44 msg) 7 n ok)))
