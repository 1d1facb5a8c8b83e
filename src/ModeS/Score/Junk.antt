-- ===== src/ModeS/Score/Junk.antt =====
-- `scoreModesMessage` reads no byte of its buffer that `correctMessage` has not written.
use rbfeeder.Base.{
  ℕ, zero, suc, ◌+◌, ◌-◌, ◌/◌, ◌<◌, ◌≤◌, bit_and, bit_xor, List, Option, none, some, Bool, true,
  false, ◌&&◌,
}
use rbfeeder.Base.{
  ◌≡◌, refl, sym, ◌∙◌, ap, arith, ◌⊎◌, inl, inr, length, has, get_or, set, ◌<<<◌, ltb, leb, ◌==◌,
  if◌then◌else◌,
}
use rbfeeder.Base.{Bool-cases, and_parts, ==_iff, get_or-set_self, get_or-set_ne, ℕ_discrete}
use rbfeeder.Base.Int.{pos}
use rbfeeder.Crc.Checksum.{modes_checksum, flip_bit}
use rbfeeder.Crc.Tables.{
  ErrorInfo, error_count, flip_at, fix_loop, modes_checksum_fix, modes_checksum_init,
  modes_checksum_diagnose,
}
use rbfeeder.Crc.Corrected.{length-flip_bit}
use rbfeeder.IcaoFilter.Defs.{Filter}
use rbfeeder.ModeS.Bits.{getbits}
use rbfeeder.ModeS.Correct.{
  Settings, is_long_pi_message, is_short_pi_message, memcpy, Correction, errors_or_999, is_some,
  attempt, attempts, correct_short, correct_message, unchecked_syndrome, df_correctable_long,
  df_correctable_short,
}
use rbfeeder.ModeS.Correct.Buffers.{
  IsSame, memcpy-IsSame, memcpy_all, length-memcpy, length-fix, modes_checksum-IsSame, df-IsSame,
}
use rbfeeder.ModeS.Score.{checked, score_correction, score_modes_message}

flip_bit-IsSame :
    (n i : ℕ) (a b : List ℕ)
    → length a ≡ length b
    → n ≤ length a
    → IsSame n a b
    → IsSame n (flip_bit a i) (flip_bit b i)
unfolding flip_bit
flip_bit-IsSame n i a b size room same j h = elim (ℕ_discrete (i / 8) j) [
  | yes here ↦
      let in_a : i / 8 < length a = omega (arith, here) in
      let in_b : i / 8 < length b = omega (arith, here) in
      let old : get_or a (i / 8) 0 ≡ get_or b (i / 8) 0 = same (i / 8) (omega (arith, here)) in
      ap (λ t. get_or (set a (i / 8) (value a)) t 0) (sym here)
      ∙ get_or-set_self a (i / 8) (value a) 0 in_a
      ∙ ap (λ t. bit_xor t (1 <<< (7 - bit_and i 7))) old
      ∙ sym (get_or-set_self b (i / 8) (value b) 0 in_b)
      ∙ ap (λ t. get_or (set b (i / 8) (value b)) t 0) here
  | no other ↦
      get_or-set_ne a (i / 8) j (value a) 0 other
      ∙ same j h
      ∙ sym (get_or-set_ne b (i / 8) j (value b) 0 other)
]
  where
    value : List ℕ → ℕ
    value t = bit_xor (get_or t (i / 8) 0) (1 <<< (7 - bit_and i 7))

flip_at-IsSame :
    (n : ℕ) (o : Option ℕ) (a b : List ℕ)
    → length a ≡ length b
    → n ≤ length a
    → IsSame n a b
    → (length (flip_at a o) ≡ length (flip_at b o))
      × (n ≤ length (flip_at a o))
      × IsSame n (flip_at a o) (flip_at b o)
flip_at-IsSame n none a b size room same = (size, room, same)
flip_at-IsSame n (some i) a b size room same = (
  rw (length-flip_bit, length-flip_bit) size,
  rw length-flip_bit room,
  flip_bit-IsSame n i a b size room same,
)

fix_loop-IsSame :
    (n left i : ℕ) (ps : List (Option ℕ)) (a b : List ℕ)
    → length a ≡ length b
    → n ≤ length a
    → IsSame n a b
    → IsSame n (fix_loop left i ps a) (fix_loop left i ps b)
unfolding fix_loop
fix_loop-IsSame n zero i ps a b size room same = same
fix_loop-IsSame n (suc left) i ps a b size room same =
    let next = flip_at-IsSame n (get_or ps i none) a b size room same in
    fix_loop-IsSame n left (i + 1) ps (flip_at a (get_or ps i none)) (flip_at b (get_or ps i none))
      next.0 next.1 next.2

fix-IsSame :
    (n : ℕ) (o : Option ErrorInfo) (a b : List ℕ)
    → length a ≡ length b
    → n ≤ length a
    → IsSame n a b
    → IsSame n (modes_checksum_fix a o) (modes_checksum_fix b o)
unfolding modes_checksum_fix
fix-IsSame n none a b size room same = same
fix-IsSame n (some e) a b size room same =
    fix_loop-IsSame n (error_count e.errors) 0 e.bit a b size room same

-- Two runs that differ at most in bytes that a DF11 does not have.
pub record IsAlike (c d : Correction) : Type 0 where
  pub corrections : c.corrections ≡ d.corrections
  pub short_syndrome : c.short_syndrome ≡ d.short_syndrome
  pub long_syndrome : c.long_syndrome ≡ d.long_syndrome
  pub out : (c.out ≡ d.out) ⊎ ((is_short_pi_message c.out ≡ true) × IsSame 7 c.out d.out)

alike : {c : Correction} → IsAlike c c
alike = record { corrections = refl; short_syndrome = refl; long_syndrome = refl; out = inl refl }

module _ (m o p : List ℕ) (hm : length m ≡ 14) (ho : length o ≡ 14) (hp : length p ≡ 14) where
  short_copies : IsSame 7 (memcpy 7 o m) (memcpy 7 p m)
  short_copies i h =
      memcpy-IsSame 7 o m (omega arith) i h ∙ sym (memcpy-IsSame 7 p m (omega arith) i h)

  copied_size : (out : List ℕ) → length out ≡ 14 → length (memcpy 7 out m) ≡ 14
  copied_size out h = length-memcpy 7 out m (omega arith) (omega arith) ∙ h

  module _ (ei : Option ErrorInfo) where
    abbrev fixed : List ℕ → List ℕ
    fixed out = modes_checksum_fix (memcpy 7 out m) ei

    fixed_size : (out : List ℕ) → length out ≡ 14 → length (fixed out) ≡ 14
    fixed_size out h = length-fix (memcpy 7 out m) ei ∙ copied_size out h

    fixed-IsSame : IsSame 7 (fixed o) (fixed p)
    fixed-IsSame =
        fix-IsSame 7 ei (memcpy 7 o m) (memcpy 7 p m) (copied_size o ho ∙ sym (copied_size p hp))
          (omega (arith, copied_size o ho)) short_copies

    same_type : is_short_pi_message (fixed o) ≡ is_short_pi_message (fixed p)
    unfolding is_short_pi_message
    same_type = ap (λ t. t == 11) (df-IsSame (fixed o) (fixed p) (fixed-IsSame 0 (omega arith)))

  attempts-IsAlike :
      (long_ei short_ei : Option ErrorInfo) (ls ss : ℕ)
      → IsAlike (attempts long_ei short_ei ls ss m o) (attempts long_ei short_ei ls ss m p)
  unfolding attempts attempt
  attempts-IsAlike long_ei short_ei ls ss = elim (Bool-cases cond_a) [
    | inl ea ↦ rw (ea, all_o, all_p) alike
    | inr ea ↦ elim (Bool-cases cond_b) [
      | inr eb ↦ elim (Bool-cases cond_c) [
        | inl ec ↦ rw (ea, eb, ec, all_o, all_p) alike
        | inr ec ↦ rw (ea, eb, ec, all_o, all_p) alike
      ]
      | inl eb ↦ elim (Bool-cases (is_short_pi_message (fixed short_ei p))) [
        | inl short ↦
            let short_o = same_type short_ei ∙ short in
            rw (ea, eb, short_o, short)
              record {
                corrections = refl;
                short_syndrome = refl;
                long_syndrome = refl;
                out = inr (short_o, fixed-IsSame short_ei);
              }
        | inr long ↦ elim (Bool-cases cond_c) [
          | inl ec ↦ rw (ea, eb, same_type short_ei, long, ec, again o ho, again p hp) alike
          | inr ec ↦ rw (ea, eb, same_type short_ei, long, ec, again o ho, again p hp) alike
        ]
      ]
    ]
  ]
    where
      long_n : ℕ
      long_n = errors_or_999 long_ei

      short_n : ℕ
      short_n = errors_or_999 short_ei

      cond_a : Bool
      cond_a = is_some long_ei && leb long_n short_n

      cond_b : Bool
      cond_b = is_some short_ei && short_n == 1

      cond_c : Bool
      cond_c = is_some long_ei && ltb short_n long_n

      all_o : memcpy 14 o m ≡ m
      all_o = memcpy_all 14 o m hm ho

      all_p : memcpy 14 p m ≡ m
      all_p = memcpy_all 14 p m hm hp

      again : (out : List ℕ) → length out ≡ 14 → memcpy 14 (fixed short_ei out) m ≡ m
      again out h = memcpy_all 14 (fixed short_ei out) m hm (fixed_size short_ei out h)

  short-IsAlike :
      (settings : Settings) (checked : Bool) (long_ei : Option ErrorInfo) (ls : ℕ)
      → IsAlike
          (correct_short settings checked long_ei ls m o)
          (correct_short settings checked long_ei ls m p)
  unfolding correct_short
  short-IsAlike settings false long_ei ls = attempts-IsAlike long_ei none ls unchecked_syndrome
  short-IsAlike settings true long_ei ls =
      elim (Bool-cases (is_short_pi_message m && bit_and s 0xffff80 == 0)) [
        | inl clean ↦
            rw clean
              (copies ((and_parts (is_short_pi_message m) (bit_and s 0xffff80 == 0) clean).0))
        | inr damaged ↦ rw damaged (
            attempts-IsAlike long_ei
              (modes_checksum_diagnose (modes_checksum_init settings.table_bits) s 56) ls s)
      ]
    where
      s : ℕ
      s = modes_checksum m 56

      short_copy : is_short_pi_message m ≡ true → is_short_pi_message (memcpy 7 o m) ≡ true
      short_copy h =
          unfold is_short_pi_message in
          ap (λ t. t == 11)
            (df-IsSame (memcpy 7 o m) m (memcpy-IsSame 7 o m (omega arith) 0 (omega arith)))
          ∙ h

      result : List ℕ → Correction
      result out = record {
        out = memcpy 7 out m;
        corrections = pos 0;
        short_syndrome = s;
        long_syndrome = ls;
      }

      copies : is_short_pi_message m ≡ true → IsAlike (result o) (result p)
      copies h = record {
        corrections = refl;
        short_syndrome = refl;
        long_syndrome = refl;
        out = inr (short_copy h, short_copies);
      }

  pub message-IsAlike :
      (settings : Settings) → IsAlike (correct_message settings m o) (correct_message settings m p)
  unfolding correct_message
  message-IsAlike settings = elim (Bool-cases long_checked) [
    | inr off ↦ rw off (short-IsAlike settings short_checked none unchecked_syndrome)
    | inl on ↦ elim (Bool-cases (is_long_pi_message m && s == 0)) [
      | inl clean ↦ rw (on, clean, memcpy_all 14 o m hm ho, memcpy_all 14 p m hm hp) alike
      | inr damaged ↦
          rw (on, damaged)
            (short-IsAlike settings short_checked
              (modes_checksum_diagnose (modes_checksum_init settings.table_bits) s 112) s)
    ]
  ]
    where
      s : ℕ
      s = modes_checksum m 112

      fix_df_bits : ℕ
      fix_df_bits = if settings.fix_df then settings.nfix_crc else 0

      long_checked : Bool
      long_checked = has (get_or df_correctable_long fix_df_bits 0) (1 <<< getbits m 1 5)

      short_checked : Bool
      short_checked = has (get_or df_correctable_short fix_df_bits 0) (1 <<< getbits m 1 5)

addr-IsSame : (a b : List ℕ) → IsSame 7 a b → getbits a 9 32 ≡ getbits b 9 32
unfolding getbits
addr-IsSame a b same = rw (same 1 (omega arith), same 2 (omega arith), same 3 (omega arith)) refl

score-IsAlike :
    (settings : Settings) (filter : Filter) (c d : Correction)
    → IsAlike c d
    → score_correction settings filter c ≡ score_correction settings filter d
unfolding score_correction checked is_short_pi_message
score-IsAlike settings filter c d h = elim h.out [
  | inl same ↦ rw (h.corrections, h.short_syndrome, h.long_syndrome, same) refl
  | inr short ↦
      let df : getbits c.out 1 5 ≡ 11 = (==_iff (getbits c.out 1 5) 11).0 short.0 in
      let df' : getbits d.out 1 5 ≡ 11 =
        sym (df-IsSame c.out d.out (short.1 0 (omega arith))) ∙ df in
      rw
        (
          df,
          df',
          h.corrections,
          h.short_syndrome,
          modes_checksum-IsSame 56 c.out d.out (omega arith) short.1,
          addr-IsSame c.out d.out short.1,
        )
        refl
]

-- The score of a 14-byte message does not depend on what the buffer for its correction held before,
-- though `correctMessage` leaves half of it unwritten for a DF11.
pub score-junk :
    (settings : Settings) (filter : Filter) (m o p : List ℕ)
    → length m ≡ 14
    → length o ≡ 14
    → length p ≡ 14
    → score_modes_message settings filter m o ≡ score_modes_message settings filter m p
unfolding score_modes_message
score-junk settings filter m o p hm ho hp =
    rw (score-IsAlike settings filter _ _ (message-IsAlike m o p hm ho hp settings)) refl
