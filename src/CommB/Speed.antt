-- ===== src/CommB/Speed.antt =====
-- comm_b.c: `decodeBDS60`, the heading and speed report.
use rbfeeder.Base.{
  ℕ, ◌*◌, List, [], ◌∷◌, Bool, true, not, ◌&&◌, ◌||◌, leb, ◌==◌, if◌then◌else◌, Option,
}
use rbfeeder.Base.Int.{ℤ, pos, negsuc, sub_ℕ, ltb_ℤ, abs, ◌-ℤ◌}
use rbfeeder.ModeS.Bits.{getbit, getbits}
use rbfeeder.ModeS.Message.{Data, Motion, fraction, heading_magnetic, commb_heading_speed}
use rbfeeder.CommB.Reply.{Decoder, total, require, field, field_or_zero, less, within}
use rbfeeder.CommB.Turn.{angle_of}

-- A vertical rate in feet per minute, `raw * 32`, less 16384 with the sign bit.
unfoldable pub rate_of : ℕ → ℕ → ℤ
rate_of sign raw = sub_ℕ (raw * 32) (if sign == 1 then 16384 else 0)

unfoldable pub baro_rate_of : List ℕ → ℤ
baro_rate_of msg = rate_of (getbit msg 36) (getbits msg 37 45)

unfoldable pub inertial_rate_of : List ℕ → ℤ
inertial_rate_of msg = rate_of (getbit msg 47) (getbits msg 48 56)

unfoldable pub rate_part : Bool → ℕ → ℤ → Option ℕ
rate_part valid raw rate = field_or_zero valid (raw == 0) (within (negsuc 5999) (pos 6000) rate) 11

-- The Mach number is `raw * 2.048 / 512`, so that the bounds 0.1 and 0.9 are bounds on `raw`.
unfoldable pub parts_bds60 : List ℕ → List (Option ℕ)
parts_bds60 msg =
    let valid : ℕ → Bool = λ n. getbit msg n == 1 in
    let ias_raw = getbits msg 14 23 in
    let mach_raw = getbits msg 25 34 in
    require (valid 1 && (valid 13 && (valid 24 && (valid 35 || valid 46))))
    ∷ field_or_zero (valid 1) (getbits msg 3 12 == 0 && not (valid 2)) true 12
    ∷ field (valid 13) (ias_raw == 0) (leb 50 ias_raw && leb ias_raw 700) 11
    ∷ field (valid 24) (mach_raw == 0) (leb 25 mach_raw && leb mach_raw 225) 11
    ∷ rate_part (valid 35) (getbits msg 37 45) (baro_rate_of msg)
    ∷ rate_part (valid 46) (getbits msg 48 56) (inertial_rate_of msg)
    ∷ []

-- The small penalty for inconsistent data.
unfoldable pub rate_penalty : List ℕ → ℕ
rate_penalty msg =
    if getbit msg 35 == 1
      && (getbit msg 46 == 1 && ltb_ℤ (pos 2000) (abs (baro_rate_of msg -ℤ inertial_rate_of msg)))
    then 12
    else 0

unfoldable pub score_bds60 : List ℕ → Option ℤ
score_bds60 msg = less (total (parts_bds60 msg)) (rate_penalty msg)

unfoldable pub store_heading : List ℕ → Motion → Motion
store_heading msg motion =
    if getbit msg 1 == 1
    then record motion {
      heading_valid = true;
      heading = fraction (angle_of (getbit msg 2) (getbits msg 3 12)) 512;
      heading_type = heading_magnetic;
    }
    else motion

unfoldable pub store_ias : List ℕ → Motion → Motion
store_ias msg motion =
    if getbit msg 13 == 1
    then record motion { ias_valid = true; ias = getbits msg 14 23 }
    else motion

unfoldable pub store_mach : List ℕ → Motion → Motion
store_mach msg motion =
    if getbit msg 24 == 1
    then record motion { mach_valid = true; mach = fraction (getbits msg 25 34 * 2048) 512000 }
    else motion

unfoldable pub store_baro_rate : List ℕ → Motion → Motion
store_baro_rate msg motion =
    if getbit msg 35 == 1
    then record motion { baro_rate_valid = true; baro_rate = baro_rate_of msg }
    else motion

-- The inertial rate is stored as a geometric one.
unfoldable pub store_inertial_rate : List ℕ → Motion → Motion
store_inertial_rate msg motion =
    if getbit msg 46 == 1
    then record motion { geom_rate_valid = true; geom_rate = inertial_rate_of msg }
    else motion

unfoldable pub store_bds60 : List ℕ → Data → Data
store_bds60 msg d = record d {
  commb_format = commb_heading_speed;
  motion =
      store_inertial_rate msg
        (store_baro_rate msg (store_mach msg (store_ias msg (store_heading msg d.motion))));
}

-- `decodeBDS60`
abbrev pub decode_bds60 : Decoder
decode_bds60 = record { score_of = λ h r. score_bds60 r.mb; stored = λ h r. store_bds60 r.mb }
