-- ===== src/ModeS/Correct/Valid.antt =====
-- What `correctMessage` returns is a message of a type that carries its checksum, with that checksum.
use mathlib.Core.Bool.{false≢true}
use rbfeeder.Base.{ℕ, ◌/◌, ◌≤◌, bit_and, List, Option, none, some, Bool, true, false, ◌&&◌}
use rbfeeder.Base.{
  ◌≡◌, refl, sym, ◌∙◌, ap, subst, arith, ◌⊎◌, inl, inr, length, has, get_or, ◌<<<◌, ltb, leb, ◌==◌,
  if◌then◌else◌,
}
use rbfeeder.Base.{Bool-cases, and_parts, ==_iff}
use rbfeeder.Base.Int.{pos, negsuc}
use rbfeeder.Crc.Checksum.{modes_checksum}
use rbfeeder.Crc.Linear.{IsBytes}
use rbfeeder.Crc.Tables.{ErrorInfo, modes_checksum_init, modes_checksum_diagnose}
use rbfeeder.Crc.Corrected.{fix_diagnosed-checksum, diagnosed-errors}
use rbfeeder.ModeS.Bits.{getbits}
use rbfeeder.ModeS.Correct.{
  Settings, is_long_pi_message, is_short_pi_message, memcpy, Correction, errors_or_999, is_some,
  attempt, attempts, correct_short, correct_message, unchecked_syndrome, df_correctable_long,
  df_correctable_short,
}
use rbfeeder.ModeS.Correct.Buffers.{
  memcpy-IsSame, memcpy-IsBytes, memcpy_all, length-memcpy, modes_checksum-IsSame, df-IsSame,
  fix-IsBytes, length-fix,
}

-- A message buffer.
pub record IsBuffer (m : List ℕ) : Type 0 where
  pub bytes : IsBytes m
  pub size : length m ≡ 14

-- A DF17 or DF18 with checksum 0, or a DF11 whose checksum is an interrogator's code.
abbrev pub IsValid : List ℕ → Type 0
IsValid m =
    (is_long_pi_message m ≡ true) × (modes_checksum m 112 ≡ 0)
    ⊎ (is_short_pi_message m ≡ true) × (bit_and (modes_checksum m 56) 0xffff80 ≡ 0)

abbrev pub IsOutcome : List ℕ → Correction → Type 0
IsOutcome message c =
    (c.corrections ≡ negsuc 0) × (c.out ≡ message)
    ⊎ (n : ℕ) × (n ≤ 2) × (c.corrections ≡ pos n) × IsValid c.out

module _ (k : ℕ) (m : List ℕ) (hm : IsBuffer m) where
  -- No descriptor, or the one for the checksum of the message.
  abbrev IsDiagnosed : ℕ → Option ErrorInfo → Type 0
  IsDiagnosed n ei =
      (ei ≡ none) ⊎ (modes_checksum_diagnose (modes_checksum_init k) (modes_checksum m n) n ≡ ei)

  module _ (n : ℕ) (which : (n ≡ 112) ⊎ (n ≡ 56)) (pi : List ℕ → Bool) where
    copy-IsBuffer : (out : List ℕ) → IsBuffer out → IsBuffer (memcpy (n / 8) out m)
    copy-IsBuffer out ho = record {
      bytes = memcpy-IsBytes (n / 8) out m (omega (arith, hm.size)) ho.bytes hm.bytes;
      size =
          length-memcpy (n / 8) out m (omega (arith, hm.size)) (omega (arith, ho.size)) ∙ ho.size;
    }

    attempt-IsBuffer :
        (condition : Bool) (ei : Option ErrorInfo) (out : List ℕ)
        → IsBuffer out
        → IsBuffer (attempt condition pi (n / 8) ei m out).1
    unfolding attempt
    attempt-IsBuffer false ei out ho = ho
    attempt-IsBuffer true ei out ho =
        let copied = copy-IsBuffer out ho in
        record {
          bytes = fix-IsBytes (memcpy (n / 8) out m) ei copied.bytes;
          size = length-fix (memcpy (n / 8) out m) ei ∙ copied.size;
        }

    -- What a successful attempt has made.
    record IsSuccess (ei : Option ErrorInfo) (out : List ℕ) : Type 0 where
      right_type : pi out ≡ true
      checked : modes_checksum out n ≡ 0
      count : ℕ
      few : count ≤ 2
      counted : errors_or_999 ei ≡ count

    attempt-IsSuccess :
        (ei : Option ErrorInfo) (test : Bool) (out : List ℕ)
        → IsBuffer out
        → IsDiagnosed n ei
        → (attempt (is_some ei && test) pi (n / 8) ei m out).0 ≡ true
        → IsSuccess ei (attempt (is_some ei && test) pi (n / 8) ei m out).1
    unfolding attempt errors_or_999
    attempt-IsSuccess none test out ho diagnosed h = absurd (false≢true h)
    attempt-IsSuccess (some e) false out ho diagnosed h = absurd (false≢true h)
    attempt-IsSuccess (some e) true out ho (inl nothing) h = cc
    attempt-IsSuccess (some e) true out ho (inr found) h =
        let few = diagnosed-errors k n (modes_checksum m n) which found in
        record {
          right_type = h;
          checked =
              fix_diagnosed-checksum k n (memcpy (n / 8) out m) which copied.bytes
                (omega (arith, copied.size))
                (ap (λ s. modes_checksum_diagnose (modes_checksum_init k) s n) same ∙ found);
          count = few.0;
          few = few.1;
          counted = rw few.2 refl;
        }
      where
        copied : IsBuffer (memcpy (n / 8) out m)
        copied = copy-IsBuffer out ho

        same : modes_checksum (memcpy (n / 8) out m) n ≡ modes_checksum m n
        same =
            modes_checksum-IsSame n (memcpy (n / 8) out m) m (omega arith)
              (memcpy-IsSame (n / 8) out m (omega (arith, hm.size)))

  long-IsValid :
      (ei : Option ErrorInfo) (out : List ℕ)
      → IsSuccess 112 (inl refl) is_long_pi_message ei out
      → IsValid out
  long-IsValid ei out s = inl (s.right_type, s.checked)

  short-IsValid :
      (ei : Option ErrorInfo) (out : List ℕ)
      → IsSuccess 56 (inr refl) is_short_pi_message ei out
      → IsValid out
  short-IsValid ei out s = inr (s.right_type, rw s.checked refl)

  attempts-IsOutcome :
      (long_ei short_ei : Option ErrorInfo) (ls ss : ℕ) (out : List ℕ)
      → IsBuffer out
      → IsDiagnosed 112 long_ei
      → IsDiagnosed 56 short_ei
      → IsOutcome m (attempts long_ei short_ei ls ss m out)
  attempts-IsOutcome long_ei short_ei ls ss out ho hl hs = elim (Bool-cases a.0) [
    | inl ea ↦
        let s =
          attempt-IsSuccess 112 (inl refl) is_long_pi_message long_ei (leb long_n short_n) out ho hl
            ea in
        inr (
          s.count,
          s.few,
          unfold attempts in rw ea (ap pos s.counted),
          unfold attempts in rw ea (long-IsValid long_ei a.1 s),
        )
    | inr ea ↦ elim (Bool-cases b.0) [
      | inl eb ↦
          let s =
            attempt-IsSuccess 56 (inr refl) is_short_pi_message short_ei (short_n == 1) a.1 ha hs
              eb in
          inr (
            s.count,
            s.few,
            unfold attempts in rw (ea, eb) (ap pos s.counted),
            unfold attempts in rw (ea, eb) (short-IsValid short_ei b.1 s),
          )
      | inr eb ↦ elim (Bool-cases c.0) [
        | inl ec ↦
            let s =
              attempt-IsSuccess 112 (inl refl) is_long_pi_message long_ei (ltb short_n long_n) b.1
                hb hl ec in
            inr (
              s.count,
              s.few,
              unfold attempts in rw (ea, eb, ec) (ap pos s.counted),
              unfold attempts in rw (ea, eb, ec) (long-IsValid long_ei c.1 s),
            )
        | inr ec ↦ inl (
          unfold attempts in rw (ea, eb, ec) refl,
          unfold attempts in rw (ea, eb, ec) (memcpy_all 14 c.1 m hm.size hc.size),
        )
      ]
    ]
  ]
    where
      long_n : ℕ
      long_n = errors_or_999 long_ei

      short_n : ℕ
      short_n = errors_or_999 short_ei

      a : Bool × List ℕ
      a = attempt (is_some long_ei && leb long_n short_n) is_long_pi_message 14 long_ei m out

      b : Bool × List ℕ
      b = attempt (is_some short_ei && short_n == 1) is_short_pi_message 7 short_ei m a.1

      c : Bool × List ℕ
      c = attempt (is_some long_ei && ltb short_n long_n) is_long_pi_message 14 long_ei m b.1

      ha : IsBuffer a.1
      ha =
          attempt-IsBuffer 112 (inl refl) is_long_pi_message (is_some long_ei && leb long_n short_n)
            long_ei out ho

      hb : IsBuffer b.1
      hb =
          attempt-IsBuffer 56 (inr refl) is_short_pi_message (is_some short_ei && short_n == 1)
            short_ei a.1 ha

      hc : IsBuffer c.1
      hc =
          attempt-IsBuffer 112 (inl refl) is_long_pi_message (is_some long_ei && ltb short_n long_n)
            long_ei b.1 hb

  clean_short :
      (out : List ℕ)
      → (is_short_pi_message m && bit_and (modes_checksum m 56) 0xffff80 == 0) ≡ true
      → IsValid (memcpy 7 out m)
  unfolding is_short_pi_message
  clean_short out clean =
      let parts : (is_short_pi_message m ≡ true)
          × ((bit_and (modes_checksum m 56) 0xffff80 == 0) ≡ true) =
        and_parts (is_short_pi_message m) (bit_and (modes_checksum m 56) 0xffff80 == 0) clean in
      let same = memcpy-IsSame 7 out m (omega (arith, hm.size)) in
      inr (
        ap (λ t. t == 11) (df-IsSame (memcpy 7 out m) m (same 0 (omega arith))) ∙ parts.0,
        ap (λ t. bit_and t 0xffff80)
              (modes_checksum-IsSame 56 (memcpy 7 out m) m (omega arith) same)
            ∙ (==_iff (bit_and (modes_checksum m 56) 0xffff80) 0).0 parts.1,
      )

  short-IsOutcome :
      (settings : Settings) (checked : Bool) (long_ei : Option ErrorInfo) (ls : ℕ) (out : List ℕ)
      → settings.table_bits ≡ k
      → IsBuffer out
      → IsDiagnosed 112 long_ei
      → IsOutcome m (correct_short settings checked long_ei ls m out)
  unfolding correct_short
  short-IsOutcome settings false long_ei ls out hk ho hl =
      attempts-IsOutcome long_ei none ls unchecked_syndrome out ho hl (inl refl)
  short-IsOutcome settings true long_ei ls out hk ho hl =
      elim (Bool-cases (is_short_pi_message m && bit_and s 0xffff80 == 0)) [
        | inl clean ↦ rw clean (inr (0, omega arith, refl, clean_short out clean))
        | inr damaged ↦ rw damaged (
            attempts-IsOutcome long_ei
              (modes_checksum_diagnose (modes_checksum_init settings.table_bits) s 56) ls s out ho
              hl (inr (ap (λ t. modes_checksum_diagnose (modes_checksum_init t) s 56) (sym hk))))
      ]
    where
      s : ℕ
      s = modes_checksum m 56

-- Whatever the settings, the message and the earlier contents of the output: either -1 is returned and
-- the output is the message as it came, or a number of corrections from 0 to 2 is, and the output is a
-- DF17 or DF18 with checksum 0 or a DF11 whose checksum is 0 but for the interrogator's seven bits.
pub correct_message-IsOutcome :
    (settings : Settings) (m out : List ℕ)
    → IsBuffer m
    → IsBuffer out
    → IsOutcome m (correct_message settings m out)
unfolding correct_message
correct_message-IsOutcome settings m out hm ho = elim (Bool-cases long_checked) [
  | inr off ↦
      rw off (
        short-IsOutcome k m hm settings short_checked none unchecked_syndrome out refl ho
          (inl refl))
  | inl on ↦ elim (Bool-cases (is_long_pi_message m && s == 0)) [
    | inl clean ↦
        let parts : (is_long_pi_message m ≡ true) × ((s == 0) ≡ true) =
          and_parts (is_long_pi_message m) (s == 0) clean in
        let valid : IsValid (memcpy 14 out m) =
          subst IsValid (sym (memcpy_all 14 out m hm.size ho.size))
            (inl (parts.0, (==_iff s 0).0 parts.1)) in
        rw (on, clean) (inr (0, omega arith, refl, valid))
    | inr damaged ↦
        rw (on, damaged)
          (short-IsOutcome k m hm settings short_checked
            (modes_checksum_diagnose (modes_checksum_init k) s 112) s out refl ho (inr refl))
  ]
]
  where
    k : ℕ
    k = settings.table_bits

    s : ℕ
    s = modes_checksum m 112

    fix_df_bits : ℕ
    fix_df_bits = if settings.fix_df then settings.nfix_crc else 0

    long_checked : Bool
    long_checked = has (get_or df_correctable_long fix_df_bits 0) (1 <<< getbits m 1 5)

    short_checked : Bool
    short_checked = has (get_or df_correctable_short fix_df_bits 0) (1 <<< getbits m 1 5)
