-- ===== src/ModeS/Correct.antt =====
-- mode_s.c: the correction of a message, `correctMessage`, and its settings.
-- A message buffer is the list of its 14 bytes.
pub mod Buffers
pub mod Valid
pub mod Repair
use rbfeeder.Base.{
  ℕ, ◌-◌, List, [], ◌∷◌, ◌++◌, Bool, true, false, not, ◌&&◌, ◌||◌, Option, none, some,
}
use rbfeeder.Base.{ltb, leb, ◌==◌, if◌then◌else◌, get_or, take, drop, has, bit_and, ◌<<<◌}
use rbfeeder.Base.Int.{ℤ, pos, negsuc}
use rbfeeder.Crc.Checksum.{modes_checksum}
use rbfeeder.Crc.Tables.{
  Errors, bits, flagged, ErrorInfo, ErrorTables, modes_checksum_init, modes_checksum_diagnose,
  modes_checksum_fix,
}
use rbfeeder.ModeS.Bits.{getbits}

-- The settings `Modes.fix_df`, `Modes.nfix_crc` and `Modes.enable_df24`, and the number of bits that
-- `modesChecksumInit` was called with: 1 in rbfeeder.c, `Modes.nfix_crc` in dump1090.c.
pub record Settings : Type 0 where
  pub fix_df : Bool
  pub nfix_crc : ℕ
  pub table_bits : ℕ
  pub enable_df24 : Bool

-- `modesMessageLenByType`, 112 or 56
unfoldable pub modes_message_len_by_type : ℕ → ℕ
modes_message_len_by_type type = if has type 0x10 then 112 else 56

-- `isLongPIMessage` and `isShortPIMessage`
unfoldable pub is_long_pi_message : List ℕ → Bool
is_long_pi_message msg = let df = getbits msg 1 5 in df == 17 || df == 18

unfoldable pub is_short_pi_message : List ℕ → Bool
is_short_pi_message msg = getbits msg 1 5 == 11

-- `UNCHECKED_SYNDROME`
abbrev pub unchecked_syndrome : ℕ
unchecked_syndrome = 0xffffffff

abbrev pub df_correctable_short : List ℕ
df_correctable_short = 0x00000800 ∷ 0x08008e08 ∷ 0x08008e08 ∷ []

abbrev pub df_correctable_long : List ℕ
df_correctable_long = 0x00060000 ∷ 0x066f0006 ∷ 0x6fff066f ∷ []

-- `memcpy(out, in, n)`
unfoldable pub memcpy : ℕ → List ℕ → List ℕ → List ℕ
memcpy n out bytes = take n bytes ++ drop n out

-- What `correctMessage` leaves in `out` and the two syndromes, and what it returns.
pub record Correction : Type 0 where
  pub out : List ℕ
  pub corrections : ℤ
  pub short_syndrome : ℕ
  pub long_syndrome : ℕ

-- `ei ? ei->errors : 999`, unsigned
unfoldable pub errors_or_999 : Option ErrorInfo → ℕ
errors_or_999 none = 999
errors_or_999 (some ei) = elim ei.errors [ bits n ↦ n | flagged ↦ 0xffffffff ]

abbrev pub is_some : Option ErrorInfo → Bool
is_some none = false
is_some (some ei) = true

-- One of the three attempts: under its condition, the message is copied and corrected, and the
-- attempt succeeds where the result is of the right type.
unfoldable pub attempt :
    Bool → (List ℕ → Bool) → ℕ → Option ErrorInfo → List ℕ → List ℕ → Bool × List ℕ
attempt condition is_pi n ei bytes out =
    let fixed = modes_checksum_fix (memcpy n out bytes) ei in
    if condition then (is_pi fixed, fixed) else (false, out)

-- The attempts, in their order, and the message unchanged where all fail.
unfoldable pub attempts : Option ErrorInfo → Option ErrorInfo → ℕ → ℕ → List ℕ → List ℕ → Correction
attempts long_ei short_ei long_syndrome short_syndrome bytes out =
    let long_errors = errors_or_999 long_ei in
    let short_errors = errors_or_999 short_ei in
    let a =
      attempt (is_some long_ei && leb long_errors short_errors) is_long_pi_message 14 long_ei bytes
        out in
    let b =
      attempt (is_some short_ei && short_errors == 1) is_short_pi_message 7 short_ei bytes a.1 in
    let c =
      attempt (is_some long_ei && ltb short_errors long_errors) is_long_pi_message 14 long_ei bytes
        b.1 in
    let result : List ℕ → ℤ → Correction = λ o n. record {
      out = o;
      corrections = n;
      short_syndrome = short_syndrome;
      long_syndrome = long_syndrome;
    } in
    if a.0
    then result a.1 (pos long_errors)
    else if b.0
    then result b.1 (pos short_errors)
    else if c.0
    then result c.1 (pos long_errors)
    else result (memcpy 14 c.1 bytes) (negsuc 0)

-- The 56-bit half: a correct DF11, or the attempts.
unfoldable pub correct_short : Settings → Bool → Option ErrorInfo → ℕ → List ℕ → List ℕ → Correction
correct_short settings checked long_ei long_syndrome bytes out =
    let syndrome = modes_checksum bytes 56 in
    let ei = modes_checksum_diagnose (modes_checksum_init settings.table_bits) syndrome 56 in
    if not checked
    then attempts long_ei none long_syndrome unchecked_syndrome bytes out
    else if is_short_pi_message bytes && bit_and syndrome 0xffff80 == 0
    then record {
      out = memcpy 7 out bytes;
      corrections = pos 0;
      short_syndrome = syndrome;
      long_syndrome = long_syndrome;
    }
    else attempts long_ei ei long_syndrome syndrome bytes out

-- `correctMessage`
unfoldable pub correct_message : Settings → List ℕ → List ℕ → Correction
correct_message settings bytes out =
    let df_bit = 1 <<< getbits bytes 1 5 in
    let fix_df_bits = if settings.fix_df then settings.nfix_crc else 0 in
    let long_checked = has (get_or df_correctable_long fix_df_bits 0) df_bit in
    let short_checked = has (get_or df_correctable_short fix_df_bits 0) df_bit in
    let syndrome = modes_checksum bytes 112 in
    let ei = modes_checksum_diagnose (modes_checksum_init settings.table_bits) syndrome 112 in
    if not long_checked
    then correct_short settings short_checked none unchecked_syndrome bytes out
    else if is_long_pi_message bytes && syndrome == 0
    then record {
      out = memcpy 14 out bytes;
      corrections = pos 0;
      short_syndrome = unchecked_syndrome;
      long_syndrome = syndrome;
    }
    else correct_short settings short_checked ei syndrome bytes out
