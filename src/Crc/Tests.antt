-- ===== src/Crc/Tests.antt =====
-- crc.c on an extended squitter, and the theorems at it.
use rbfeeder.Base.{ℕ, List, [], ◌∷◌, ◌≡◌, refl, inl, arith, tabulate, some, none, bit_xor}
use rbfeeder.Crc.Checksum.{
  crc_shift, crc_shifts, crc_entry, crc_table, checksum_round, checksum_loop, modes_checksum,
  flip_bit, syndrome_loop, single_bit_syndrome,
}
use rbfeeder.Crc.Linear.{IsBytes, All-IsBytes, checksum-xor}
use rbfeeder.Crc.Division.{reduce, message_value, checksum-reduce}
use rbfeeder.Crc.Tables.{
  bits, ErrorInfo, combinations, combinations_loop, with_error, prepare_subtable, insert_sorted,
  sort_table, drop_ambiguous, search_table, prepare_error_table, modes_checksum_init,
  modes_checksum_diagnose, modes_checksum_fix,
}
use rbfeeder.Crc.Correct.{
  zeros, flip_bit-IsBytes, flip_bit-IsSum, long_single_bit_fixed, short_single_bit_fixed,
}
use rbfeeder.Crc.Corrected.{length-flip_bit, fix_diagnosed-checksum}

-- An aircraft identification, with a correct checksum.
abbrev squitter : List ℕ
squitter =
    0x8d ∷ 0x48 ∷ 0x40 ∷ 0xd6 ∷ 0x20 ∷ 0x2c ∷ 0xc3 ∷ 0x71 ∷ 0xc3 ∷ 0x2c ∷ 0xe0 ∷ 0x57 ∷ 0x60 ∷ 0x98
    ∷ []

-- A 56-bit message with checksum 0.
abbrev short_message : List ℕ
short_message = 0x5d ∷ 0x48 ∷ 0x40 ∷ 0xd6 ∷ 0xf8 ∷ 0x74 ∷ 0x0f ∷ []

squitter-IsBytes : IsBytes squitter
squitter-IsBytes = All-IsBytes squitter (omega arith)

short_message-IsBytes : IsBytes short_message
short_message-IsBytes = All-IsBytes short_message (omega arith)

checksum_squitter : modes_checksum squitter 112 ≡ 0
unfolding modes_checksum checksum_loop checksum_round crc_table crc_entry crc_shifts crc_shift
    tabulate
checksum_squitter = refl

checksum_short : modes_checksum short_message 56 ≡ 0
unfolding modes_checksum checksum_loop checksum_round crc_table crc_entry crc_shifts crc_shift
    tabulate
checksum_short = refl

-- The number of two-bit errors of a long message.
pairs : combinations 112 2 ≡ 6216
unfolding combinations combinations_loop
pairs = refl

checksum-xor_example :
    modes_checksum (flip_bit squitter 9) 112
    ≡ bit_xor (modes_checksum squitter 112) (modes_checksum (flip_bit zeros 9) 112)
checksum-xor_example =
    checksum-xor squitter (flip_bit zeros 9) (flip_bit squitter 9)
      (flip_bit-IsSum squitter 9 (omega arith) (omega arith)) squitter-IsBytes
      (flip_bit-IsBytes zeros 9 (All-IsBytes zeros (omega arith))) 112

checksum-reduce_example : modes_checksum squitter 112 ≡ reduce 88 (message_value 14 0 squitter)
checksum-reduce_example = checksum-reduce squitter 14 squitter-IsBytes (omega arith)

long_single_bit_fixed_example :
    modes_checksum_fix (flip_bit squitter 37) (
      modes_checksum_diagnose
        (modes_checksum_init 1)
        (modes_checksum (flip_bit squitter 37) 112)
        112)
    ≡ squitter
long_single_bit_fixed_example =
    long_single_bit_fixed squitter 37 squitter-IsBytes (omega arith) checksum_squitter (omega arith)

short_single_bit_fixed_example :
    modes_checksum_fix (flip_bit short_message 37) (
      modes_checksum_diagnose
        (modes_checksum_init 1)
        (modes_checksum (flip_bit short_message 37) 56)
        56)
    ≡ short_message
short_single_bit_fixed_example =
    short_single_bit_fixed short_message 37 short_message-IsBytes (omega arith) checksum_short
      (omega arith)

-- The descriptor of bit 37.
abbrev bit_37 : ErrorInfo
bit_37 = record { syndrome = 0x8e03ce; errors = bits 1; bit = some 37 ∷ none ∷ [] }

diagnose_bit_37 :
    modes_checksum_diagnose (modes_checksum_init 1) (modes_checksum (flip_bit squitter 37) 112) 112
    ≡ some bit_37
unfolding modes_checksum checksum_loop checksum_round crc_table crc_entry crc_shifts crc_shift
    tabulate flip_bit syndrome_loop single_bit_syndrome modes_checksum_diagnose modes_checksum_init
    prepare_error_table prepare_subtable with_error sort_table insert_sorted drop_ambiguous
    search_table
diagnose_bit_37 = refl

fix_diagnosed-checksum_example :
    modes_checksum (modes_checksum_fix (flip_bit squitter 37) (some bit_37)) 112 ≡ 0
fix_diagnosed-checksum_example =
    fix_diagnosed-checksum 1 112 (flip_bit squitter 37) (inl refl)
      (flip_bit-IsBytes squitter 37 squitter-IsBytes) (rw length-flip_bit (omega arith))
      diagnose_bit_37
