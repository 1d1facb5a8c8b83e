-- ===== src/ModeAc/Tests.antt =====
-- mode_ac.c at some codes, and the theorems at them.
use rbfeeder.Base.{ℕ, ◌≡◌, ◌⊎◌, refl, arith}
use rbfeeder.Base.Int.{pos, negsuc}
use rbfeeder.ModeAc.Defs.{
  invalid_altitude, one_hundreds, five_hundreds, internal_mode_a_to_mode_c, mode_a_to_mode_c,
  mode_c_to_mode_a,
}
use rbfeeder.ModeAc.Gillham.{gillham_code, IsCodeOf, mode_a-mode_c, mode_a_to_mode_c-cases}

-- The lowest code is -1200 ft; the first and last pulse of C without the middle one are no code.
lowest : internal_mode_a_to_mode_c 0x0040 ≡ negsuc 11
unfolding internal_mode_a_to_mode_c one_hundreds five_hundreds
lowest = refl

no_code : internal_mode_a_to_mode_c 0x0050 ≡ invalid_altitude
unfolding internal_mode_a_to_mode_c one_hundreds five_hundreds
no_code = refl

mode_a-mode_c_example :
    (mode_a_to_mode_c (gillham_code 362) ≡ pos 350)
    × (mode_c_to_mode_a (pos 350) ≡ gillham_code 362)
mode_a-mode_c_example = mode_a-mode_c 362 (omega arith)

mode_a_to_mode_c-cases_example :
    (mode_a_to_mode_c 0x0640 ≡ invalid_altitude) ⊎ ((n : ℕ) × IsCodeOf 0x0640 n)
mode_a_to_mode_c-cases_example = mode_a_to_mode_c-cases 0x0640
