-- ===== src/ModeS/Tests.antt =====
-- mode_s.c at some messages, and the theorems at them.
use rbfeeder.Base.{ℕ, List, [], ◌∷◌, true, false, ◌≡◌, refl, ◌⊎◌, arith, tabulate, replicate, leb}
use rbfeeder.Base.Int.{◌*ℤ◌, pos, eq_ℤ}
use rbfeeder.Crc.Checksum.{
  crc_shift, crc_shifts, crc_entry, crc_table, checksum_round, checksum_loop, modes_checksum,
  flip_bit,
}
use rbfeeder.Crc.Linear.{IsBytes, All-IsBytes}
use rbfeeder.Crc.Correct.{flip_bit-IsBytes}
use rbfeeder.Crc.Corrected.{length-flip_bit}
use rbfeeder.ModeAc.Defs.{invalid_altitude}
use rbfeeder.IcaoFilter.Defs.{filter_init}
use rbfeeder.ModeS.Bits.{getbits}
use rbfeeder.ModeS.Bits.Value.{covered, getbits-covered}
use rbfeeder.ModeS.Altitude.{feet, decode_id13, decode_ac12, decode_ac13}
use rbfeeder.ModeS.Altitude.Codes.{
  with_m, id13_field, octal_squawk, decode_id13-id13_field, ac12-ac13, IsAltitude,
  decode_ac12-cases, field_25, gillham_field, decode_ac12-encoded,
}
use rbfeeder.ModeS.Correct.{correct_message, is_long_pi_message}
use rbfeeder.ModeS.Correct.Valid.{IsBuffer, IsValid, IsOutcome, correct_message-IsOutcome}
use rbfeeder.ModeS.Correct.Repair.{rbfeeder_settings, single_bit_repaired}
use rbfeeder.ModeS.Score.{
  not_set, rank, accept_threshold, is_all_zeros, score_modes_message, score_correction,
}
use rbfeeder.ModeS.Score.Junk.{score-junk}
use rbfeeder.ModeS.Score.Ranks.{is_believed, score-accepted}
use rbfeeder.ModeS.Message.{Header, Raw, Data}
use rbfeeder.ModeS.Blank.{blank, new_message}
use rbfeeder.ModeS.Decode.{decode_modes_message}
use rbfeeder.ModeS.Decode.Outcome.{decode-accepts}
use rbfeeder.ModeS.Decode.Known.{decode-filter}

-- An aircraft identification, with a correct checksum.
abbrev squitter : List ℕ
squitter =
    0x8d ∷ 0x48 ∷ 0x40 ∷ 0xd6 ∷ 0x20 ∷ 0x2c ∷ 0xc3 ∷ 0x71 ∷ 0xc3 ∷ 0x2c ∷ 0xe0 ∷ 0x57 ∷ 0x60 ∷ 0x98
    ∷ []

-- What an uninitialised buffer may hold.
abbrev garbage : List ℕ
garbage = replicate 14 255

squitter-IsBytes : IsBytes squitter
squitter-IsBytes = All-IsBytes squitter (omega arith)

squitter-IsBuffer : IsBuffer squitter
squitter-IsBuffer = record { bytes = squitter-IsBytes; size = refl }

blank-IsBuffer : IsBuffer blank
blank-IsBuffer = record { bytes = All-IsBytes blank (omega arith); size = refl }

checksum_squitter : modes_checksum squitter 112 ≡ 0
unfolding modes_checksum checksum_loop checksum_round crc_table crc_entry crc_shifts crc_shift
    tabulate
checksum_squitter = refl

squitter_type : is_long_pi_message squitter ≡ true
unfolding is_long_pi_message getbits
squitter_type = refl

squitter_live : is_all_zeros squitter ≡ false
unfolding is_all_zeros
squitter_live = refl

-- A decoder of Comm-B replies that decodes none.
no_comm_b : Header → Raw → Data → Data
no_comm_b h r d = d

getbits-covered_example : getbits squitter 9 32 ≡ covered squitter 3 1 0 0
getbits-covered_example =
    getbits-covered squitter 9 32 squitter-IsBytes (omega arith) (omega arith) (omega arith)

decode_id13-id13_field_example : decode_id13 (id13_field (octal_squawk 3072)) ≡ octal_squawk 3072
decode_id13-id13_field_example = decode_id13-id13_field 3072 (omega arith)

ac12-ac13_example : decode_ac12 0xc38 ≡ decode_ac13 (with_m 0xc38)
ac12-ac13_example = ac12-ac13 0xc38 (omega arith)

decode_ac12-cases_example :
    ((decode_ac12 0xc38).0 ≡ invalid_altitude ⊎ IsAltitude (decode_ac12 0xc38).0)
    × ((decode_ac12 0xc38).1 ≡ feet)
decode_ac12-cases_example = decode_ac12-cases 0xc38 (omega arith)

correct_message-IsOutcome_example :
    IsOutcome (flip_bit squitter 3) (correct_message rbfeeder_settings (flip_bit squitter 3) blank)
correct_message-IsOutcome_example =
    correct_message-IsOutcome rbfeeder_settings (flip_bit squitter 3) blank
      record {
        bytes = flip_bit-IsBytes squitter 3 squitter-IsBytes;
        size = length-flip_bit squitter 3;
      }
      blank-IsBuffer

single_bit_repaired_example :
    ((correct_message rbfeeder_settings (flip_bit squitter 3) garbage).out ≡ squitter)
    × ((correct_message rbfeeder_settings (flip_bit squitter 3) garbage).corrections ≡ pos 1)
single_bit_repaired_example =
    single_bit_repaired squitter garbage 3 squitter-IsBuffer refl squitter_type checksum_squitter
      (omega arith)

score-junk_example :
    score_modes_message rbfeeder_settings (filter_init 0) squitter garbage
    ≡ score_modes_message rbfeeder_settings (filter_init 0) squitter blank
score-junk_example =
    score-junk rbfeeder_settings (filter_init 0) squitter garbage blank refl refl refl

score-accepted_example :
    leb (rank accept_threshold) (
      rank (
        score_correction rbfeeder_settings
          (filter_init 0)
          (correct_message rbfeeder_settings squitter blank)))
    ≡ is_believed rbfeeder_settings
        (filter_init 0)
        (correct_message rbfeeder_settings squitter blank)
score-accepted_example =
    score-accepted rbfeeder_settings (filter_init 0)
      (correct_message rbfeeder_settings squitter blank)

decode-accepts_example :
    eq_ℤ
      (decode_modes_message no_comm_b rbfeeder_settings
        (filter_init 0)
        not_set
        garbage
        new_message
        squitter).value
      (pos 0)
    ≡ is_believed rbfeeder_settings
        (filter_init 0)
        (correct_message rbfeeder_settings squitter garbage)
decode-accepts_example =
    decode-accepts no_comm_b rbfeeder_settings (filter_init 0) garbage squitter new_message refl
      refl refl squitter_live

decode-filter_example :
    ((decode_modes_message no_comm_b rbfeeder_settings
        (filter_init 0)
        not_set
        garbage
        new_message
        squitter).filter
      ≡ filter_init 0)
    ⊎ ((correct_message rbfeeder_settings squitter blank).corrections ≡ pos 0)
      × IsValid (correct_message rbfeeder_settings squitter blank).out
decode-filter_example =
    decode-filter no_comm_b rbfeeder_settings (filter_init 0) garbage squitter new_message
      squitter-IsBuffer refl blank-IsBuffer

decode_ac12-encoded_example :
    (decode_ac12 (field_25 1560) ≡ (pos 38000, feet))
    × (decode_ac12 (gillham_field 362) ≡ (pos 100 *ℤ pos 350, feet))
decode_ac12-encoded_example = decode_ac12-encoded 1560 362 (omega arith) (omega arith)
