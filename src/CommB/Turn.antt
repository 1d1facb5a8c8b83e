-- ===== src/CommB/Turn.antt =====
-- comm_b.c: `decodeBDS50`, the track and turn report.
-- `is_off_turn roll tas rate` is the comparison with the theoretical turn rate, which takes the tangent
-- of the roll angle in double precision: `fabs(turn_rate - track_rate) > 2.0`, of a roll angle in
-- 256ths of a degree, a speed in knots and a rate in 256ths of a degree.
use rbfeeder.Base.{
  ℕ, ◌+◌, ◌-◌, ◌*◌, List, [], ◌∷◌, Bool, true, not, ◌&&◌, ltb, leb, ◌==◌, if◌then◌else◌, Option,
}
use rbfeeder.Base.Int.{ℤ, pos, negsuc, sub_ℕ}
use rbfeeder.ModeS.Bits.{getbit, getbits}
use rbfeeder.ModeS.Message.{
  Data, Motion, fraction, signed_fraction, heading_ground_track, commb_track_turn,
}
use rbfeeder.CommB.Reply.{Decoder, total, require, field, field_or_zero, less, within}

-- `raw * 45.0 / 256.0`, less 90 with the sign bit, in 256ths.
unfoldable pub roll_of : List ℕ → ℤ
roll_of msg = sub_ℕ (getbits msg 3 11 * 45) (if getbit msg 2 == 1 then 23040 else 0)

-- `raw * 90.0 / 512.0`, and 180 with the sign bit, in 512ths. Also the heading of BDS 6,0.
unfoldable pub angle_of : ℕ → ℕ → ℕ
angle_of sign raw = raw * 90 + (if sign == 1 then 92160 else 0)

-- `raw * 8.0 / 256.0`, less 16 with the sign bit, in 256ths.
unfoldable pub track_rate_of : List ℕ → ℤ
track_rate_of msg = sub_ℕ (getbits msg 37 45 * 8) (if getbit msg 36 == 1 then 4096 else 0)

-- A speed in steps of two knots.
unfoldable pub speed_part : Bool → ℕ → Option ℕ
speed_part valid raw = field valid (raw == 0) (leb 50 (raw * 2) && leb (raw * 2) 700) 11

unfoldable pub parts_bds50 : List ℕ → List (Option ℕ)
parts_bds50 msg =
    let valid : ℕ → Bool = λ n. getbit msg n == 1 in
    let is_clear : ℕ → Bool = λ n. not (getbit msg n == 1) in
    require (valid 1 && (valid 12 && (valid 24 && valid 46)))
    ∷ field_or_zero (valid 1) (getbits msg 3 11 == 0 && is_clear 2)
        (within (negsuc 10239) (pos 10239) (roll_of msg)) 11
    ∷ field_or_zero (valid 12) (getbits msg 14 23 == 0 && is_clear 13) true 12
    ∷ speed_part (valid 24) (getbits msg 25 34)
    ∷ field_or_zero (valid 35) (getbits msg 37 45 == 0 && is_clear 36)
        (within (negsuc 2559) (pos 2560) (track_rate_of msg)) 11
    ∷ speed_part (valid 46) (getbits msg 47 56)
    ∷ []

-- The source takes the difference of the two status bits, not of the speeds.
unfoldable pub speed_penalty : ℕ → ℕ → ℕ
speed_penalty gs_valid tas_valid =
    let delta = gs_valid - tas_valid + (tas_valid - gs_valid) in
    if gs_valid == 1 && (tas_valid == 1 && ltb 150 delta) then 6 else 0

unfoldable pub store_roll : List ℕ → Motion → Motion
store_roll msg motion =
    if getbit msg 1 == 1
    then record motion { roll_valid = true; roll = signed_fraction (roll_of msg) 256 }
    else motion

unfoldable pub store_track : List ℕ → Motion → Motion
store_track msg motion =
    if getbit msg 12 == 1
    then record motion {
      heading_valid = true;
      heading = fraction (angle_of (getbit msg 13) (getbits msg 14 23)) 512;
      heading_type = heading_ground_track;
    }
    else motion

unfoldable pub store_gs : List ℕ → Motion → Motion
store_gs msg motion =
    let gs = fraction (getbits msg 25 34 * 2) 1 in
    if getbit msg 24 == 1
    then record motion { gs_valid = true; gs_v0 = gs; gs_v2 = gs; gs_selected = gs }
    else motion

unfoldable pub store_track_rate : List ℕ → Motion → Motion
store_track_rate msg motion =
    if getbit msg 35 == 1
    then record motion {
      track_rate_valid = true;
      track_rate = signed_fraction (track_rate_of msg) 256;
    }
    else motion

unfoldable pub store_tas : List ℕ → Motion → Motion
store_tas msg motion =
    if getbit msg 46 == 1
    then record motion { tas_valid = true; tas = getbits msg 47 56 * 2 }
    else motion

unfoldable pub store_bds50 : List ℕ → Data → Data
store_bds50 msg d = record d {
  commb_format = commb_track_turn;
  motion =
      store_tas msg
        (store_track_rate msg (store_gs msg (store_track msg (store_roll msg d.motion))));
}

module _ (is_off_turn : ℤ → ℕ → ℤ → Bool) where
  unfoldable pub turn_penalty : List ℕ → ℕ
  turn_penalty msg =
      let tas = getbits msg 47 56 * 2 in
      if getbit msg 1 == 1
        && (getbit msg 46 == 1
            && (ltb 0 tas
                && (getbit msg 35 == 1 && is_off_turn (roll_of msg) tas (track_rate_of msg))))
      then 6
      else 0

  unfoldable pub score_bds50 : List ℕ → Option ℤ
  score_bds50 msg =
      less (total (parts_bds50 msg))
        (speed_penalty (getbit msg 24) (getbit msg 46) + turn_penalty msg)

  -- `decodeBDS50`
  abbrev pub decode_bds50 : Decoder
  decode_bds50 = record { score_of = λ h r. score_bds50 r.mb; stored = λ h r. store_bds50 r.mb }
