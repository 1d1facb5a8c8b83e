-- ===== src/CommB/Plausible.antt =====
-- What the decoders of comm_b.c store is plausible.
pub mod Altitudes
pub mod Rates
pub mod Reports
pub mod Outcome
use rbfeeder.Base.{
  ℕ, ◌+◌, ◌*◌, zero, suc, get_or, List, [], ◌∷◌, Bool, true, false, not, ◌&&◌, ◌||◌, leb, ◌==◌,
  if◌then◌else◌, Option, none, some, Option-cases, ◌≡◌, refl, ap, sym, ◌∙◌, arith, inl, inr,
  Bool-cases, and_parts,
}
use rbfeeder.Base.Int.{ℤ, pos, negsuc, ◌*ℤ◌}
use rbfeeder.ModeS.Bits.{getbit, getbits}
use rbfeeder.ModeS.Message.{
  Header, Raw, Data, Nav, Motion, Weather, Real, fraction, signed_fraction, speed_of, track_of,
}
use rbfeeder.CommB.Reply.{add, total, require, field, field_or_zero, less, within}
use rbfeeder.CommB.Intent.{
  altitude_part, status_part, parts_bds40, store_altitudes, store_qnh, store_modes, store_source,
}

-- A value is not there, or plausible.
unfoldable pub if_valid : Bool → Bool → Bool
if_valid valid plausible = not valid || plausible

-- `lo <= x && x <= hi` of a fraction.
unfoldable pub real_within : ℤ → ℤ → Real → Bool
real_within lo hi (fraction a b) = within (lo *ℤ pos b) (hi *ℤ pos b) (pos a)
real_within lo hi (signed_fraction a b) = within (lo *ℤ pos b) (hi *ℤ pos b) a
real_within lo hi (speed_of ns ew) = false
real_within lo hi (track_of ns ew) = false

-- Altitudes from 1000 to 50000 ft, and a pressure setting from 900 to 1100 hPa.
unfoldable pub is_plausible_nav : Nav → Bool
is_plausible_nav nav =
    if_valid nav.mcp_altitude_valid (leb 1000 nav.mcp_altitude && leb nav.mcp_altitude 50000)
    && (if_valid nav.fms_altitude_valid (leb 1000 nav.fms_altitude && leb nav.fms_altitude 50000)
        && if_valid nav.qnh_valid (real_within (pos 900) (pos 1100) nav.qnh))

-- Speeds from 50 to 700 kts, a roll angle within 40 degrees, a turn within 10 degrees per second and
-- vertical rates within 6000 ft per minute.
unfoldable pub is_plausible_motion : Motion → Bool
is_plausible_motion motion =
    if_valid motion.gs_valid (real_within (pos 50) (pos 700) motion.gs_selected)
    && (if_valid motion.tas_valid (leb 50 motion.tas && leb motion.tas 700)
        && (if_valid motion.ias_valid (leb 50 motion.ias && leb motion.ias 700)
            && (if_valid motion.roll_valid (real_within (negsuc 39) (pos 40) motion.roll)
                && (if_valid motion.track_rate_valid
                      (real_within (negsuc 9) (pos 10) motion.track_rate)
                    && (if_valid motion.baro_rate_valid
                          (within (negsuc 5999) (pos 6000) motion.baro_rate)
                        && if_valid motion.geom_rate_valid
                            (within (negsuc 5999) (pos 6000) motion.geom_rate))))))

-- A wind of at most 250 kts, temperatures from -80 to 60 degrees and pressures from 25 to 1100 hPa.
unfoldable pub is_plausible_weather : Weather → Bool
is_plausible_weather w =
    if_valid w.wind_valid (real_within (pos 0) (pos 250) w.wind_speed)
    && (if_valid w.temperature_valid (real_within (negsuc 79) (pos 60) w.temperature)
        && if_valid w.pressure_valid (real_within (pos 25) (pos 1100) w.pressure))

unfoldable pub is_plausible : Data → Bool
is_plausible d =
    is_plausible_nav d.nav && (is_plausible_motion d.motion && is_plausible_weather d.weather)

-- No part of a score returns.
all_pass : List (Option ℕ) → Bool
all_pass [] = true
all_pass (none ∷ ps) = false
all_pass (some n ∷ ps) = all_pass ps

pub passes : Option ℕ → Bool
passes none = false
passes (some n) = true

all_pass-cons :
    (p : Option ℕ) (ps : List (Option ℕ)) → all_pass (p ∷ ps) ≡ (passes p && all_pass ps)
unfolding all_pass passes
all_pass-cons none ps = refl
all_pass-cons (some n) ps = refl

none_is_not_some : (n : ℕ) → ¬ (◌≡◌ {A = Option ℕ} none (some n))
none_is_not_some n h = ground arith

total-all_pass : (ps : List (Option ℕ)) (n : ℕ) → total ps ≡ some n → all_pass ps ≡ true
unfolding all_pass total add
total-all_pass [] n h = refl
total-all_pass (none ∷ ps) n h = ground arith
total-all_pass (some m ∷ ps) n h = elim (Option-cases (total ps)) [
  | inl none_left ↦ absurd (none_is_not_some n (sym (ap (add m) none_left) ∙ h))
  | inr rest ↦ total-all_pass ps rest.0 rest.1
]

all_pass_at :
    (ps : List (Option ℕ)) (i : ℕ) → all_pass ps ≡ true → passes (get_or ps i (some 0)) ≡ true
unfolding all_pass passes
all_pass_at [] i h = refl
all_pass_at (none ∷ ps) i h = ground arith
all_pass_at (some n ∷ ps) zero h = refl
all_pass_at (some n ∷ ps) (suc i) h = all_pass_at ps i h

pub passes_at :
    (ps : List (Option ℕ)) (i n : ℕ) → total ps ≡ some n → passes (get_or ps i (some 0)) ≡ true
passes_at ps i n h = all_pass_at ps i (total-all_pass ps n h)

pub passes-field : (v z p : Bool) (n : ℕ) → passes (field v z p n) ≡ true → if_valid v p ≡ true
unfolding passes field if_valid
passes-field v z p n h = ground arith

pub passes-field_or_zero :
    (v z p : Bool) (n : ℕ) → passes (field_or_zero v z p n) ≡ true → if_valid v p ≡ true
unfolding passes field_or_zero if_valid
passes-field_or_zero v z p n h = ground arith

pub total-less : (o : Option ℕ) (p : ℕ) (n : ℤ) → less o p ≡ some n → (m : ℕ) × (o ≡ some m)
unfolding less
total-less none p n h = ground arith
total-less (some m) p n h = (m, refl)
