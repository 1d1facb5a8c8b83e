-- ===== src/ModeS/Correct/Repair.antt =====
-- `correctMessage` repairs an extended squitter with one wrong bit, wherever the bit is.
use mathlib.Core.Bool.{false≢true}
use rbfeeder.Base.{
  ℕ, ◌-◌, ◌/◌, ◌<◌, ◌≤◌, bit_and, bit_xor, List, Option, none, some, Bool, true, false, not, ◌&&◌,
  ◌||◌,
}
use rbfeeder.Base.{
  ◌≡◌, refl, sym, ◌∙◌, ap, arith, inl, inr, length, has, get_or, ◌<<<◌, ◌>>>◌, ltb, leb, ◌==◌,
  if◌then◌else◌,
}
use rbfeeder.Base.{
  Bool-cases, and_parts, ==_iff, all_below, all_below_sound, get_or-set_self, get_or-set_ne,
}
use rbfeeder.Base.Int.{pos}
use rbfeeder.Base.Bits.Xor.{xor-zero}
use rbfeeder.Crc.Checksum.{modes_checksum, flip_bit}
use rbfeeder.Crc.Tables.{
  Errors, bits, flagged, ErrorInfo, error_count, modes_checksum_init, modes_checksum_diagnose,
  modes_checksum_fix,
}
use rbfeeder.Crc.Correct.{fixes_only, damaged-fixes_only, long_single_bit_fixed}
use rbfeeder.Crc.Corrected.{length-flip_bit}
use rbfeeder.ModeS.Bits.{getbits}
use rbfeeder.ModeS.Correct.{
  Settings, is_long_pi_message, is_short_pi_message, memcpy, errors_or_999, is_some, attempt,
  attempts, correct_short, correct_message, unchecked_syndrome, df_correctable_long,
  df_correctable_short,
}
use rbfeeder.ModeS.Correct.Buffers.{memcpy_all}
use rbfeeder.ModeS.Correct.Valid.{IsBuffer}

-- The settings of rbfeeder: one bit is corrected, the downlink format's five included.
abbrev pub rbfeeder_settings : Settings
rbfeeder_settings = record { fix_df = true; nfix_crc = 1; table_bits = 1; enable_df24 = false }

-- By evaluation, of the first byte of an extended squitter and a mask of one bit or none.
abbrev df_of : ℕ → ℕ
df_of byte = bit_and byte 0xff >>> 3

mask_of : ℕ → ℕ
mask_of i = if ltb i 8 then 1 <<< (7 - bit_and i 7) else 0

byte_reachable : ℕ → ℕ → Bool
byte_reachable i byte =
    let df = df_of (bit_xor byte (mask_of i)) in
    not (df_of byte == 17 || df_of byte == 18) || (has 0x066f0006 (1 <<< df) && not (df == 11))

reachable : ℕ → Bool
reachable i = all_below 256 (byte_reachable i)

every_reachable : all_below 9 reachable ≡ true
unfolding all_below reachable byte_reachable mask_of
every_reachable = refl

abbrev index_of : ℕ → ℕ
index_of i = if ltb i 8 then i else 8

mask_of-index_of : (i : ℕ) → mask_of (index_of i) ≡ mask_of i
unfolding mask_of
mask_of-index_of i = ground arith

first_flipped :
    (m : List ℕ) (i : ℕ)
    → 1 ≤ length m
    → get_or (flip_bit m i) 0 0 ≡ bit_xor (get_or m 0 0) (mask_of i)
unfolding flip_bit mask_of
first_flipped m i h = elim (Bool-cases (ltb i 8)) [
  | inl low ↦
      let zeroth : i / 8 ≡ 0 = ground (arith, low) in
      rw (zeroth, low)
        (get_or-set_self m 0 (bit_xor (get_or m 0 0) (1 <<< (7 - bit_and i 7))) 0 (omega arith))
  | inr high ↦
      let other : 8 ≤ i = ground (arith, high) in
      rw (high, xor-zero)
        (get_or-set_ne m (i / 8) 0 (bit_xor (get_or m (i / 8) 0) (1 <<< (7 - bit_and i 7))) 0
          (λ e. omega arith))
]

-- The damaged message is looked at, and does not pass for a DF11.
record IsReachable (m : List ℕ) : Type 0 where
  looked_at : has (get_or df_correctable_long 1 0) (1 <<< getbits m 1 5) ≡ true
  not_short : is_short_pi_message m ≡ false

damaged-IsReachable :
    (m : List ℕ) (i : ℕ) → IsBuffer m → is_long_pi_message m ≡ true → IsReachable (flip_bit m i)
unfolding reachable byte_reachable is_long_pi_message is_short_pi_message getbits
damaged-IsReachable m i hm long = record {
  looked_at = rw first (ground (arith, found, long));
  not_short = rw first (ground (arith, found, long));
}
  where
    byte : ℕ
    byte = get_or m 0 0

    first : get_or (flip_bit m i) 0 0 ≡ bit_xor byte (mask_of i)
    first = first_flipped m i (omega (arith, hm.size))

    found : byte_reachable i byte ≡ true
    found =
        ap
          (λ t.
            let df = df_of (bit_xor byte t) in
            not (df_of byte == 17 || df_of byte == 18)
            || (has 0x066f0006 (1 <<< df) && not (df == 11)))
          (sym (mask_of-index_of i))
        ∙ all_below_sound 256 (byte_reachable (index_of i)) byte
            (all_below_sound 9 reachable (index_of i) every_reachable (ground arith)) (hm.bytes 0)

-- A descriptor of one bit counts one error, and is not that of a clean message.
fixes_only-count :
    (d : Option ErrorInfo) (i : ℕ)
    → fixes_only d i ≡ true
    → (is_some d ≡ true) × (errors_or_999 d ≡ 1)
unfolding errors_or_999
fixes_only-count none i h = absurd (false≢true h)
fixes_only-count (some e) i h = (refl, counted e.errors (and_parts _ _ h).0)
  where
    counted :
        (t : Errors)
        → (error_count t == 1) ≡ true
        → elim t [ bits n ↦ n | flagged ↦ 0xffffffff ] ≡ 1
    counted (bits n) one = (==_iff n 1).0 one
    counted flagged one = absurd (false≢true one)

dirty :
    (k s i : ℕ)
    → fixes_only (modes_checksum_diagnose (modes_checksum_init k) s 112) i ≡ true
    → (s == 0) ≡ false
unfolding modes_checksum_diagnose
dirty k s i h = elim (Bool-cases (s == 0)) [
  | inl clean ↦ absurd (false≢true (rw clean at h))
  | inr d ↦ d
]

-- With a descriptor for the message's one wrong bit, the attempts return the message repaired,
-- whatever is found for the first 56 bits alone.
attempts-repair :
    (m damaged out : List ℕ) (ei short_ei : Option ErrorInfo) (ls ss : ℕ)
    → length damaged ≡ 14
    → length out ≡ 14
    → is_some ei ≡ true
    → errors_or_999 ei ≡ 1
    → modes_checksum_fix damaged ei ≡ m
    → is_long_pi_message m ≡ true
    → let c = attempts ei short_ei ls ss damaged out in (c.out ≡ m) × (c.corrections ≡ pos 1)
unfolding attempts attempt
attempts-repair m damaged out ei short_ei ls ss hd ho found one fixed long =
    elim (Bool-cases (leb 1 short_n)) [
      | inl first ↦ rw (one, found, first, copied, fixed, long) (refl, refl)
      | inr last ↦
          let none_short : (is_some short_ei && short_n == 1) ≡ false = ground (arith, last) in
          let later : ltb short_n 1 ≡ true = ground (arith, last) in
          rw (one, found, last, none_short, later, copied, fixed, long) (refl, refl)
    ]
  where
    short_n : ℕ
    short_n = errors_or_999 short_ei

    copied : memcpy 14 out damaged ≡ damaged
    copied = memcpy_all 14 out damaged hd ho

-- A DF17 or DF18 with checksum 0 of which any one bit was received wrong is corrected to the message
-- that was sent, with one correction counted, under the settings of rbfeeder.
pub single_bit_repaired :
    (m out : List ℕ) (i : ℕ)
    → IsBuffer m
    → length out ≡ 14
    → is_long_pi_message m ≡ true
    → modes_checksum m 112 ≡ 0
    → i < 112
    → let c = correct_message rbfeeder_settings (flip_bit m i) out in
      (c.out ≡ m) × (c.corrections ≡ pos 1)
unfolding correct_message correct_short
single_bit_repaired m out i hm ho long valid hi = elim (Bool-cases short_checked) [
  | inl on ↦
      rw (way.looked_at, damaged_syndrome, and_false, on, way.not_short)
        (repaired (diagnosis 56) s (modes_checksum d 56))
  | inr off ↦
      rw (way.looked_at, damaged_syndrome, and_false, off) (repaired none s unchecked_syndrome)
]
  where
    d : List ℕ
    d = flip_bit m i

    diagnosis : ℕ → Option ErrorInfo
    diagnosis n = modes_checksum_diagnose (modes_checksum_init 1) (modes_checksum d n) n

    s : ℕ
    s = modes_checksum d 112

    way : IsReachable d
    way = damaged-IsReachable m i hm long

    short_checked : Bool
    short_checked = has (get_or df_correctable_short 1 0) (1 <<< getbits d 1 5)

    fixes : fixes_only (diagnosis 112) i ≡ true
    fixes = damaged-fixes_only m i hm.bytes (omega (arith, hm.size)) valid hi

    count : (is_some (diagnosis 112) ≡ true) × (errors_or_999 (diagnosis 112) ≡ 1)
    count = fixes_only-count (diagnosis 112) i fixes

    damaged_syndrome : (s == 0) ≡ false
    damaged_syndrome = dirty 1 s i fixes

    and_false : (is_long_pi_message d && false) ≡ false
    and_false = ground arith

    repaired :
        (short_ei : Option ErrorInfo) (ls ss : ℕ)
        → let c = attempts (diagnosis 112) short_ei ls ss d out in
          (c.out ≡ m) × (c.corrections ≡ pos 1)
    repaired short_ei ls ss =
        attempts-repair m d out (diagnosis 112) short_ei ls ss (length-flip_bit m i ∙ hm.size) ho
          count.0 count.1 (long_single_bit_fixed m i hm.bytes (omega (arith, hm.size)) valid hi)
          long
