-- ===== src/CommB/Plausible/Rates.antt =====
-- BDS 5,0 and BDS 6,0: angles, speeds and rates.
use rbfeeder.Base.{ℕ, ◌*◌, List, Bool, true, ◌&&◌, leb, ◌==◌, some, ◌≡◌, arith}
use rbfeeder.Base.Int.{ℤ, pos, negsuc, ◌*ℤ◌}
use rbfeeder.ModeS.Bits.{getbit, getbits}
use rbfeeder.ModeS.Message.{Motion, fraction, signed_fraction}
use rbfeeder.CommB.Reply.{total, within}
use rbfeeder.CommB.Plausible.{
  if_valid, real_within, is_plausible_motion, passes_at, passes-field, passes-field_or_zero,
}
use rbfeeder.CommB.Turn.{
  roll_of, track_rate_of, speed_part, parts_bds50, store_roll, store_track, store_gs,
  store_track_rate, store_tas,
}
use rbfeeder.CommB.Speed.{
  baro_rate_of, inertial_rate_of, rate_part, parts_bds60, store_heading, store_ias, store_mach,
  store_baro_rate, store_inertial_rate,
}

real_roll :
    (v : Bool) (n : ℤ)
    → if_valid v (within (negsuc 10239) (pos 10239) n) ≡ true
    → if_valid v (real_within (negsuc 39) (pos 40) (signed_fraction n 256)) ≡ true
unfolding if_valid real_within within ◌*ℤ◌
real_roll v n h = ground arith

real_rate :
    (v : Bool) (n : ℤ)
    → if_valid v (within (negsuc 2559) (pos 2560) n) ≡ true
    → if_valid v (real_within (negsuc 9) (pos 10) (signed_fraction n 256)) ≡ true
unfolding if_valid real_within within ◌*ℤ◌
real_rate v n h = ground arith

real_speed :
    (v : Bool) (n : ℕ)
    → if_valid v (leb 50 n && leb n 700) ≡ true
    → if_valid v (real_within (pos 50) (pos 700) (fraction n 1)) ≡ true
unfolding if_valid real_within within ◌*ℤ◌
real_speed v n h = ground arith

store_roll-plausible :
    (msg : List ℕ) (m : Motion)
    → is_plausible_motion m ≡ true
    → if_valid
        (getbit msg 1 == 1)
        (real_within (negsuc 39) (pos 40) (signed_fraction (roll_of msg) 256))
      ≡ true
    → is_plausible_motion (store_roll msg m) ≡ true
unfolding is_plausible_motion if_valid store_roll
store_roll-plausible msg m h h1 = ground arith

store_track-plausible :
    (msg : List ℕ) (m : Motion)
    → is_plausible_motion m ≡ true
    → is_plausible_motion (store_track msg m) ≡ true
unfolding is_plausible_motion store_track
store_track-plausible msg m h = ground arith

store_gs-plausible :
    (msg : List ℕ) (m : Motion)
    → is_plausible_motion m ≡ true
    → if_valid
        (getbit msg 24 == 1)
        (real_within (pos 50) (pos 700) (fraction (getbits msg 25 34 * 2) 1))
      ≡ true
    → is_plausible_motion (store_gs msg m) ≡ true
unfolding is_plausible_motion if_valid store_gs
store_gs-plausible msg m h h1 = ground arith

store_track_rate-plausible :
    (msg : List ℕ) (m : Motion)
    → is_plausible_motion m ≡ true
    → if_valid
        (getbit msg 35 == 1)
        (real_within (negsuc 9) (pos 10) (signed_fraction (track_rate_of msg) 256))
      ≡ true
    → is_plausible_motion (store_track_rate msg m) ≡ true
unfolding is_plausible_motion if_valid store_track_rate
store_track_rate-plausible msg m h h1 = ground arith

store_tas-plausible :
    (msg : List ℕ) (m : Motion)
    → is_plausible_motion m ≡ true
    → if_valid
        (getbit msg 46 == 1)
        (leb 50 (getbits msg 47 56 * 2) && leb (getbits msg 47 56 * 2) 700)
      ≡ true
    → is_plausible_motion (store_tas msg m) ≡ true
unfolding is_plausible_motion if_valid store_tas
store_tas-plausible msg m h h1 = ground arith

store_heading-plausible :
    (msg : List ℕ) (m : Motion)
    → is_plausible_motion m ≡ true
    → is_plausible_motion (store_heading msg m) ≡ true
unfolding is_plausible_motion store_heading
store_heading-plausible msg m h = ground arith

store_ias-plausible :
    (msg : List ℕ) (m : Motion)
    → is_plausible_motion m ≡ true
    → if_valid (getbit msg 13 == 1) (leb 50 (getbits msg 14 23) && leb (getbits msg 14 23) 700)
      ≡ true
    → is_plausible_motion (store_ias msg m) ≡ true
unfolding is_plausible_motion if_valid store_ias
store_ias-plausible msg m h h1 = ground arith

store_mach-plausible :
    (msg : List ℕ) (m : Motion)
    → is_plausible_motion m ≡ true
    → is_plausible_motion (store_mach msg m) ≡ true
unfolding is_plausible_motion store_mach
store_mach-plausible msg m h = ground arith

store_baro_rate-plausible :
    (msg : List ℕ) (m : Motion)
    → is_plausible_motion m ≡ true
    → if_valid (getbit msg 35 == 1) (within (negsuc 5999) (pos 6000) (baro_rate_of msg)) ≡ true
    → is_plausible_motion (store_baro_rate msg m) ≡ true
unfolding is_plausible_motion if_valid store_baro_rate
store_baro_rate-plausible msg m h h1 = ground arith

store_inertial_rate-plausible :
    (msg : List ℕ) (m : Motion)
    → is_plausible_motion m ≡ true
    → if_valid (getbit msg 46 == 1) (within (negsuc 5999) (pos 6000) (inertial_rate_of msg)) ≡ true
    → is_plausible_motion (store_inertial_rate msg m) ≡ true
unfolding is_plausible_motion if_valid store_inertial_rate
store_inertial_rate-plausible msg m h h1 = ground arith

pub store_bds50-plausible :
    (msg : List ℕ) (m : Motion) (n : ℕ)
    → total (parts_bds50 msg) ≡ some n
    → is_plausible_motion m ≡ true
    → is_plausible_motion
        (store_tas msg (store_track_rate msg (store_gs msg (store_track msg (store_roll msg m)))))
      ≡ true
unfolding parts_bds50 speed_part
store_bds50-plausible msg m n ok h =
    store_tas-plausible msg _
      (store_track_rate-plausible msg _
        (store_gs-plausible msg _
          (store_track-plausible msg _ (
            store_roll-plausible msg m h
              (real_roll _ _ (passes-field_or_zero _ _ _ _ (passes_at (parts_bds50 msg) 1 n ok)))))
          (real_speed _ _ (passes-field _ _ _ _ (passes_at (parts_bds50 msg) 3 n ok))))
        (real_rate _ _ (passes-field_or_zero _ _ _ _ (passes_at (parts_bds50 msg) 4 n ok))))
      (passes-field _ _ _ _ (passes_at (parts_bds50 msg) 5 n ok))

pub store_bds60-plausible :
    (msg : List ℕ) (m : Motion) (n : ℕ)
    → total (parts_bds60 msg) ≡ some n
    → is_plausible_motion m ≡ true
    → is_plausible_motion (
        store_inertial_rate msg
          (store_baro_rate msg (store_mach msg (store_ias msg (store_heading msg m)))))
      ≡ true
unfolding parts_bds60 rate_part
store_bds60-plausible msg m n ok h =
    store_inertial_rate-plausible msg _
      (store_baro_rate-plausible msg _
        (store_mach-plausible msg _ (
          store_ias-plausible msg _ (store_heading-plausible msg m h)
            (passes-field _ _ _ _ (passes_at (parts_bds60 msg) 2 n ok))))
        (passes-field_or_zero _ _ _ _ (passes_at (parts_bds60 msg) 4 n ok)))
      (passes-field_or_zero _ _ _ _ (passes_at (parts_bds60 msg) 5 n ok))
