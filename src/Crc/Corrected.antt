-- ===== src/Crc/Corrected.antt =====
-- What `modesChecksumDiagnose` finds, `modesChecksumFix` turns into a message with checksum 0.
use mathlib.Core.Path.{subst}
use rbfeeder.Base.{ℕ, ◌/◌, ◌*◌, ◌<◌, ◌≤◌, bit_xor, List}
use rbfeeder.Base.{◌≡◌, refl, sym, ◌∙◌, ap, arith, ◌⊎◌, inl, inr, Option, none, some}
use rbfeeder.Base.{All, Bool-cases, some_injective, Bool, true, ◌==◌, ==_iff}
use rbfeeder.Base.{if◌then◌else◌, length, length-set, all_below, all_below_sound, tabulate}
use rbfeeder.Base.Bits.Xor.{xor_self, xor_assoc}
use rbfeeder.Crc.Checksum.{
  crc_shift, crc_shifts, crc_entry, crc_table, checksum_round, checksum_loop, modes_checksum,
  flip_bit, syndrome_loop, single_bit_syndrome,
}
use rbfeeder.Crc.Linear.{IsBytes}
use rbfeeder.Crc.Tables.{
  bits, ErrorInfo, no_errors, search_in, prepare_error_table, modes_checksum_init,
  modes_checksum_diagnose, fix_loop, modes_checksum_fix,
}
use rbfeeder.Crc.Correct.{zeros, flip_bit-checksum, flip_bit-IsBytes}
use rbfeeder.Crc.Honest.{syndrome_of, IsHonest, search_table-All, prepare_error_table-All}

-- `single_bit_syndrome`, shifted to the message's length, holds the syndromes of the single bits.
syndrome_holds : ℕ → ℕ → Bool
syndrome_holds n b = modes_checksum (flip_bit zeros b) n == syndrome_of n b

long_syndromes : all_below 112 (syndrome_holds 112) ≡ true
unfolding all_below syndrome_holds single_bit_syndrome syndrome_loop modes_checksum checksum_loop
    checksum_round crc_table crc_entry crc_shifts crc_shift flip_bit tabulate
long_syndromes = refl

short_syndromes : all_below 56 (syndrome_holds 56) ≡ true
unfolding all_below syndrome_holds single_bit_syndrome syndrome_loop modes_checksum checksum_loop
    checksum_round crc_table crc_entry crc_shifts crc_shift flip_bit tabulate
short_syndromes = refl

pub length-flip_bit : (m : List ℕ) (i : ℕ) → length (flip_bit m i) ≡ length m
unfolding flip_bit
length-flip_bit m i = length-set m (i / 8) _

module _ (n : ℕ) (holds : all_below n (syndrome_holds n) ≡ true) (hn : n ≤ 112) where
  flip_bit-syndrome :
      (m : List ℕ) (b : ℕ)
      → IsBytes m
      → b < n
      → n ≤ 8 * length m
      → modes_checksum (flip_bit m b) n ≡ bit_xor (modes_checksum m n) (syndrome_of n b)
  unfolding syndrome_holds
  flip_bit-syndrome m b hm hb fits =
      flip_bit-checksum n m b hm hb hn fits
      ∙ ap (bit_xor (modes_checksum m n)) (
          (==_iff (modes_checksum (flip_bit zeros b) n) (syndrome_of n b)).0
            (all_below_sound n (syndrome_holds n) b holds hb))

  -- An honest descriptor of the message's checksum corrects it.
  fix_honest :
      (m : List ℕ) (e : ErrorInfo)
      → IsBytes m
      → n ≤ 8 * length m
      → IsHonest n e
      → e.syndrome ≡ modes_checksum m n
      → modes_checksum (modes_checksum_fix m (some e)) n ≡ 0
  unfolding modes_checksum_fix fix_loop
  fix_honest m e hm fits (inl one) same =
      rw (one.one_error, one.at_bit)
        (flip_bit-syndrome m one.b hm one.b_in fits
          ∙ ap (bit_xor (modes_checksum m n)) (sym one.carries ∙ same)
          ∙ xor_self (modes_checksum m n))
  fix_honest m e hm fits (inr two) same =
      rw (two.two_errors, two.at_bits)
        (flip_bit-syndrome (flip_bit m two.b) two.c (flip_bit-IsBytes m two.b hm) two.c_in
            (rw length-flip_bit fits)
          ∙ ap (λ t. bit_xor t (syndrome_of n two.c)) (flip_bit-syndrome m two.b hm two.b_in fits)
          ∙ xor_assoc (modes_checksum m n) (syndrome_of n two.b) (syndrome_of n two.c)
          ∙ ap (bit_xor (modes_checksum m n)) (sym two.carries ∙ same)
          ∙ xor_self (modes_checksum m n))

abbrev EveryIsHonest : ℕ → Option (List ErrorInfo) → Type 0
EveryIsHonest n none = Unit
EveryIsHonest n (some table) = All (IsHonest n) table

prepared : (n max detect : ℕ) → max ≤ 2 → EveryIsHonest n (prepare_error_table n max detect)
prepared n max detect h =
    of_made (prepare_error_table n max detect) (λ t. prepare_error_table-All n max detect h)
  where
    of_made :
        (o : Option (List ErrorInfo))
        → ((table : List ErrorInfo) → o ≡ some table → All (IsHonest n) table)
        → EveryIsHonest n o
    of_made none f = tt
    of_made (some table) f = f table refl

short_tables : (k : ℕ) → EveryIsHonest 56 (modes_checksum_init k).short
unfolding modes_checksum_init
short_tables k = elim (Bool-cases (k == 0)) [
  | inl off ↦ rw off tt
  | inr on ↦ elim (Bool-cases (k == 1)) [
    | inl one ↦ rw (on, one) (prepared 56 1 1 (omega arith))
    | inr two ↦ rw (on, two) (prepared 56 2 4 (omega arith))
  ]
]

long_tables : (k : ℕ) → EveryIsHonest 112 (modes_checksum_init k).long
unfolding modes_checksum_init
long_tables k = elim (Bool-cases (k == 0)) [
  | inl off ↦ rw off tt
  | inr on ↦ elim (Bool-cases (k == 1)) [
    | inl one ↦ rw (on, one) (prepared 112 1 1 (omega arith))
    | inr two ↦ rw (on, two) (prepared 112 2 4 (omega arith))
  ]
]

search_in-IsHonest :
    (n : ℕ) (o : Option (List ErrorInfo)) (s : ℕ) {e : ErrorInfo}
    → EveryIsHonest n o
    → search_in o s ≡ some e
    → IsHonest n e × (e.syndrome ≡ s)
search_in-IsHonest n none s h found = cc
search_in-IsHonest n (some table) s h found = search_table-All (IsHonest n) table s h found

fix_found :
    (n : ℕ) (o : Option (List ErrorInfo)) (m : List ℕ) (s : ℕ) {e : ErrorInfo}
    → all_below n (syndrome_holds n) ≡ true
    → n ≤ 112
    → EveryIsHonest n o
    → IsBytes m
    → n ≤ 8 * length m
    → s ≡ modes_checksum m n
    → (if s == 0 then some no_errors else search_in o s) ≡ some e
    → modes_checksum (modes_checksum_fix m (some e)) n ≡ 0
unfolding modes_checksum_fix fix_loop
fix_found n o m s {e} holds hn honest hm fits same found = elim (Bool-cases (s == 0)) [
  | inl clean ↦
      subst (λ (d : ErrorInfo). modes_checksum (modes_checksum_fix m (some d)) n ≡ 0)
        (some_injective no_errors e (rw clean at found)) (sym same ∙ (==_iff s 0).0 clean)
  | inr damaged ↦
      let hit = search_in-IsHonest n o s honest (rw damaged at found) in
      fix_honest n holds hn m e hm fits hit.0 (hit.1 ∙ same)
]

-- Whatever the number of bits that the tables may correct: where a message of 112 or of 56 bits has
-- a descriptor, the correction that it asks for leaves a message with checksum 0.
pub fix_diagnosed-checksum :
    (k n : ℕ) (m : List ℕ) {e : ErrorInfo}
    → (n ≡ 112) ⊎ (n ≡ 56)
    → IsBytes m
    → n ≤ 8 * length m
    → modes_checksum_diagnose (modes_checksum_init k) (modes_checksum m n) n ≡ some e
    → modes_checksum (modes_checksum_fix m (some e)) n ≡ 0
unfolding modes_checksum_diagnose
fix_diagnosed-checksum k n m (inl long) hm fits found =
    fix_found n (chosen n) m (modes_checksum m n)
      (subst (λ (t : ℕ). all_below t (syndrome_holds t) ≡ true) (sym long) long_syndromes)
      (omega arith) (subst (λ (t : ℕ). EveryIsHonest t (chosen t)) (sym long) (long_tables k)) hm
      fits refl found
  where
    chosen : ℕ → Option (List ErrorInfo)
    chosen t = if t == 56 then (modes_checksum_init k).short else (modes_checksum_init k).long
fix_diagnosed-checksum k n m (inr short) hm fits found =
    fix_found n (chosen n) m (modes_checksum m n)
      (subst (λ (t : ℕ). all_below t (syndrome_holds t) ≡ true) (sym short) short_syndromes)
      (omega arith) (subst (λ (t : ℕ). EveryIsHonest t (chosen t)) (sym short) (short_tables k)) hm
      fits refl found
  where
    chosen : ℕ → Option (List ErrorInfo)
    chosen t = if t == 56 then (modes_checksum_init k).short else (modes_checksum_init k).long

-- A descriptor that is found asks for at most two corrections.
pub diagnosed-errors :
    (k n s : ℕ) {e : ErrorInfo}
    → (n ≡ 112) ⊎ (n ≡ 56)
    → modes_checksum_diagnose (modes_checksum_init k) s n ≡ some e
    → (b : ℕ) × (b ≤ 2) × (e.errors ≡ bits b)
unfolding modes_checksum_diagnose
diagnosed-errors k n s {e} which found = elim (Bool-cases (s == 0)) [
  | inl clean ↦
      (0, omega arith, ap (λ d. d.errors) (sym (some_injective no_errors e (rw clean at found))))
  | inr damaged ↦ elim which [
    | inl long ↦
        counted 112
          (search_in-IsHonest 112 (modes_checksum_init k).long s (long_tables k)
            (rw (damaged, long) at found)).0
    | inr short ↦
        counted 56
          (search_in-IsHonest 56 (modes_checksum_init k).short s (short_tables k)
            (rw (damaged, short) at found)).0
  ]
]
  where
    counted : (t : ℕ) → IsHonest t e → (b : ℕ) × (b ≤ 2) × (e.errors ≡ bits b)
    counted t (inl single) = (1, omega arith, single.one_error)
    counted t (inr double) = (2, omega arith, double.two_errors)
