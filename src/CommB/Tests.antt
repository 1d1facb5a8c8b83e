-- ===== src/CommB/Tests.antt =====
-- comm_b.c at some replies, and the theorems at them.
use rbfeeder.Base.{
  ℕ, List, [], ◌∷◌, Bool, true, false, not, ◌||◌, ltb, ◌==◌, if◌then◌else◌, some, ◌≡◌, refl,
}
use rbfeeder.Base.Int.{ℤ, pos, ◌-ℤ◌}
use rbfeeder.ModeS.Bits.{getbit, getbits}
use rbfeeder.ModeS.Squitter.Ident.{read_callsign, is_callsign_char}
use rbfeeder.ModeS.Message.{Message, Data, commb_not_decoded, commb_airborne_position}
use rbfeeder.ModeS.Blank.{new_message}
use rbfeeder.CommB.Reply.{answer, call, add, total, require, field, field_or_zero, less, within}
use rbfeeder.CommB.Registers.{
  is_empty_start, score_empty_response, with_format, score_bds10, if_set, capabilities,
  squitter_score, enhanced_score, score_bds17, callsign_score, base_score, score_bds20, score_bds30,
  insert_m, score_bds05,
}
use rbfeeder.CommB.Intent.{
  parts_bds40, altitude_part, status_part, penalty_bds40, is_odd_altitude, score_bds40,
}
use rbfeeder.CommB.Turn.{
  roll_of, track_rate_of, speed_part, parts_bds50, speed_penalty, turn_penalty, score_bds50,
  store_tas, store_bds50, store_track_rate, store_gs, store_track, store_roll,
}
use rbfeeder.CommB.Speed.{
  parts_bds60, rate_part, rate_of, baro_rate_of, inertial_rate_of, rate_penalty, score_bds60,
}
use rbfeeder.CommB.Weather.{
  parts_bds44, or_missing, wind_part, temperature_part, pressure_part, sat_of, last_resort,
  with_last_resort, score_bds44,
}
use rbfeeder.CommB.Choice.{decode_comm_b, search, try_all, compare_score, conclude, comm_b_decoders}
use rbfeeder.CommB.Best.{only_best, decode_comm_b-only_best}
use rbfeeder.CommB.Override.{airborne_position_overrides}
use rbfeeder.CommB.Plausible.{
  is_plausible, is_plausible_nav, is_plausible_motion, is_plausible_weather, if_valid,
}
use rbfeeder.CommB.Plausible.Outcome.{decode_comm_b-plausible}

-- No turn rate is off.
abbrev steady : ℤ → ℕ → ℤ → Bool
steady roll tas rate = false

-- A reply of an aircraft without alerts, with content `mb`.
abbrev reply_with : ℕ → ℕ → List ℕ → Message
reply_with msgtype ac mb = record new_message {
  header = record new_message.header { msgtype = msgtype };
  raw = record new_message.raw { ac = ac; mb = mb };
}

abbrev speed_report : List ℕ
speed_report = 0x8f ∷ 0x39 ∷ 0xf9 ∷ 0x1a ∷ 0x7e ∷ 0x27 ∷ 0xc4 ∷ []

abbrev turn_report : List ℕ
turn_report = 0x81 ∷ 0x95 ∷ 0x15 ∷ 0x36 ∷ 0xe0 ∷ 0x24 ∷ 0xd4 ∷ []

abbrev position_report : List ℕ
position_report = 0x58 ∷ 0xc3 ∷ 0x82 ∷ 0xd6 ∷ 0x90 ∷ 0xc8 ∷ 0xac ∷ []

abbrev decoded : List ℕ → Data
decoded mb = let mm = reply_with 20 0x1838 mb in decode_comm_b steady mm.header mm.raw mm.data_of

decoded_turn :
    ((decoded turn_report).motion.tas ≡ 424) × ((decoded turn_report).motion.tas_valid ≡ true)
unfolding getbit getbits read_callsign is_callsign_char ◌-ℤ◌ answer call add total require field
    field_or_zero less within is_empty_start score_empty_response with_format score_bds10 if_set
    capabilities squitter_score enhanced_score score_bds17 callsign_score base_score score_bds20
    score_bds30 insert_m score_bds05 parts_bds40 altitude_part status_part penalty_bds40
    is_odd_altitude score_bds40 roll_of track_rate_of speed_part parts_bds50 speed_penalty
    turn_penalty score_bds50 store_tas store_bds50 store_track_rate store_gs store_track store_roll
    parts_bds60 rate_part rate_of baro_rate_of inertial_rate_of rate_penalty score_bds60 parts_bds44
    or_missing wind_part temperature_part pressure_part sat_of last_resort with_last_resort
    score_bds44 decode_comm_b search try_all compare_score conclude
decoded_turn = (refl, refl)

position_score : score_bds05 20 0x1838 position_report ≡ some (pos 100)
unfolding score_bds05 getbits getbit insert_m
position_score = refl

decode_comm_b-only_best_example :
    (let mm = reply_with 21 0 speed_report in
      decode_comm_b steady mm.header mm.raw mm.data_of ≡ (
        if not (mm.raw.dr == 0) || (not (mm.raw.um == 0) || ltb 0 mm.header.correctedbits)
        then with_format commb_not_decoded mm.data_of
        else only_best mm.header mm.raw (comm_b_decoders steady) mm.data_of))
decode_comm_b-only_best_example =
    let mm = reply_with 21 0 speed_report in
    decode_comm_b-only_best steady mm.header mm.raw mm.data_of

airborne_position_overrides_example :
    decoded position_report ≡ with_format commb_airborne_position new_message.data_of
airborne_position_overrides_example =
    airborne_position_overrides steady (reply_with 20 0x1838 position_report).header
      (reply_with 20 0x1838 position_report).raw new_message.data_of refl refl refl position_score

blank_plausible : is_plausible new_message.data_of ≡ true
unfolding is_plausible is_plausible_nav is_plausible_motion is_plausible_weather if_valid
blank_plausible = refl

decode_comm_b-plausible_example : is_plausible (decoded turn_report) ≡ true
decode_comm_b-plausible_example =
    decode_comm_b-plausible steady (reply_with 20 0x1838 turn_report).header
      (reply_with 20 0x1838 turn_report).raw new_message.data_of blank_plausible
