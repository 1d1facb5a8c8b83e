-- ===== src/Crc/Honest.antt =====
-- The entries of the error tables name the bits whose syndrome they carry, so that a correction
-- always leaves a message with checksum 0.
use mathlib.Core.Path.{subst}
use mathlib.Core.Bool.{true≢false}
use rbfeeder.Base.{ℕ, zero, suc, ◌+◌, ◌-◌, ◌<◌, ◌≤◌, bit_xor, List, [], ◌∷◌}
use rbfeeder.Base.{◌≡◌, refl, sym, ◌∙◌, ap, arith, ◌⊎◌, inl, inr, Option, none, some}
use rbfeeder.Base.{
  All, All-append, Bool-cases, some_injective, false, ltb, leb, ◌==◌, ==_iff, get_or, set,
}
use rbfeeder.Base.Bits.Xor.{zero-xor}
use rbfeeder.Crc.Checksum.{single_bit_syndrome}
use rbfeeder.Crc.Tables.{
  bits, flagged, is_flagged, ErrorInfo, base_entry, with_error, prepare_subtable, insert_sorted,
  sort_table, is_run, next_has, drop_ambiguous, search_table, flag, flag_from, flag_collisions,
  drop_flagged, prepare_error_table,
}

module _ (n : ℕ) where
  -- The syndrome of bit `b` of a message of `n` bits.
  abbrev pub syndrome_of : ℕ → ℕ
  syndrome_of b = get_or single_bit_syndrome (b + (112 - n)) 0

  pub record IsSingle (e : ErrorInfo) : Type 0 where
    pub b : ℕ
    pub b_in : b < n
    pub one_error : e.errors ≡ bits 1
    pub at_bit : e.bit ≡ some b ∷ none ∷ []
    pub carries : e.syndrome ≡ syndrome_of b

  pub record IsDouble (e : ErrorInfo) : Type 0 where
    pub b : ℕ
    pub c : ℕ
    pub b_in : b < n
    pub c_in : c < n
    pub two_errors : e.errors ≡ bits 2
    pub at_bits : e.bit ≡ some b ∷ some c ∷ []
    pub carries : e.syndrome ≡ bit_xor (syndrome_of b) (syndrome_of c)

  abbrev pub IsHonest : ErrorInfo → Type 0
  IsHonest e = IsSingle e ⊎ IsDouble e

  first_error : (i : ℕ) → i < n → IsSingle (with_error base_entry (112 - n) 0 i)
  unfolding with_error
  first_error i h = record {
    b = i;
    b_in = h;
    one_error = refl;
    at_bit = refl;
    carries = zero-xor (syndrome_of i);
  }

  second_error :
      (e : ErrorInfo) (i : ℕ) → IsSingle e → i < n → IsDouble (with_error e (112 - n) 1 i)
  unfolding with_error
  second_error e i s h = record {
    b = s.b;
    c = i;
    b_in = s.b_in;
    c_in = h;
    two_errors = refl;
    at_bits = ap (λ t. set t 1 (some i)) s.at_bit;
    carries = ap (λ t. bit_xor t (syndrome_of i)) s.carries;
  }

  -- With two errors set nothing is added.
  subtable_full :
      (left i : ℕ) (e : ErrorInfo) (max : ℕ)
      → max ≤ 2
      → prepare_subtable left i (112 - n) e 2 max ≡ []
  unfolding prepare_subtable
  subtable_full zero i e max hm = refl
  subtable_full (suc left) i e max hm = ground arith

  -- With one error set in the base entry, every entry below it sets a second.
  subtable_second :
      (left i : ℕ) (e : ErrorInfo) (max : ℕ)
      → IsSingle e
      → i + left ≡ n
      → max ≤ 2
      → All IsHonest (prepare_subtable left i (112 - n) e 1 max)
  unfolding prepare_subtable
  subtable_second zero i e max s h hm = tt
  subtable_second (suc left) i e max s h hm = elim (Bool-cases (leb max 1)) [
    | inl full ↦ rw full tt
    | inr more ↦
        rw (more, subtable_full left (i + 1) (with_error e (112 - n) 1 i) max hm)
          (
            inr (second_error e i s (omega arith)),
            subtable_second left (i + 1) e max s (omega arith) hm,
          )
  ]

  pub subtable_first :
      (left i max : ℕ)
      → i + left ≡ n
      → max ≤ 2
      → All IsHonest (prepare_subtable left i (112 - n) base_entry 0 max)
  unfolding prepare_subtable
  subtable_first zero i max h hm = tt
  subtable_first (suc left) i max h hm = elim (Bool-cases (leb max 0)) [
    | inl full ↦ rw full tt
    | inr more ↦ rw more (
      inl (first_error i (omega arith)),
      All-append IsHonest (prepare_subtable left (i + 1) (112 - n) base_entry 0 max)
          (subtable_first left (i + 1) max (omega arith) hm)
          (prepare_subtable left (i + 1) (112 - n) (with_error base_entry (112 - n) 0 i) 1 max)
          (subtable_second left (i + 1) (with_error base_entry (112 - n) 0 i) max
            (first_error i (omega arith)) (omega arith) hm),
    )
  ]

-- What the later passes keep.
module _ (P : ErrorInfo → Type 0) where
  insert_sorted-All :
      (e : ErrorInfo) (table : List ErrorInfo) → P e → All P table → All P (insert_sorted e table)
  unfolding insert_sorted
  insert_sorted-All e [] he h = (he, tt)
  insert_sorted-All e (f ∷ table) he h = elim (Bool-cases (ltb f.syndrome e.syndrome)) [
    | inl later ↦ rw later (h.0, insert_sorted-All e table he h.1)
    | inr here ↦ rw here (he, h)
  ]

  sort_table-All : (table : List ErrorInfo) → All P table → All P (sort_table table)
  unfolding sort_table
  sort_table-All [] h = tt
  sort_table-All (e ∷ table) h =
      insert_sorted-All e (sort_table table) h.0 (sort_table-All table h.1)

  drop_ambiguous-All :
      (run : Option ℕ) (table : List ErrorInfo) → All P table → All P (drop_ambiguous run table)
  unfolding drop_ambiguous
  drop_ambiguous-All run [] h = tt
  drop_ambiguous-All run (e ∷ table) h = elim (Bool-cases (is_run run e.syndrome)) [
    | inl passing ↦ rw passing (drop_ambiguous-All run table h.1)
    | inr fresh ↦ elim (Bool-cases (next_has table e.syndrome)) [
      | inl entering ↦ rw (fresh, entering) (drop_ambiguous-All (some e.syndrome) table h.1)
      | inr alone ↦ rw (fresh, alone) (h.0, drop_ambiguous-All none table h.1)
    ]
  ]

  -- The entry that is found carries the syndrome that was asked for.
  pub search_table-All :
      (table : List ErrorInfo) (s : ℕ) {e : ErrorInfo}
      → All P table
      → search_table table s ≡ some e
      → P e × (e.syndrome ≡ s)
  unfolding search_table
  search_table-All [] s h found = cc
  search_table-All (f ∷ table) s {e} h found = elim (Bool-cases (f.syndrome == s)) [
    | inl here ↦ (
      subst P (some_injective f e (rw here at found)) h.0,
      ap (λ (o : ErrorInfo). o.syndrome) (sym (some_injective f e (rw here at found)))
          ∙ (==_iff f.syndrome s).0 here,
    )
    | inr later ↦ search_table-All table s h.1 (rw later at found)
  ]

-- Where nothing is counted, nothing is flagged.
flag-zero : (table : List ErrorInfo) (s : ℕ) → (flag table s).0 ≡ 0 → (flag table s).1 ≡ table
unfolding flag
flag-zero [] s h = refl
flag-zero (e ∷ table) s h = ground (arith, flag-zero table s)

flag_from-zero :
    (first error_bit : ℕ) (table : List ErrorInfo) (s : ℕ)
    → (flag_from first error_bit table s).0 ≡ 0
    → (flag_from first error_bit table s).1 ≡ table
unfolding flag_from
flag_from-zero first error_bit table s h = ground (arith, flag-zero table s)

collisions-zero :
    (left i offset base error_bit first last : ℕ) (table : List ErrorInfo)
    → (flag_collisions left i offset base error_bit first last table).0 ≡ 0
    → (flag_collisions left i offset base error_bit first last table).1 ≡ table
unfolding flag_collisions
collisions-zero zero i offset base error_bit first last table h = refl
collisions-zero (suc left) i offset base error_bit first last table h =
    elim (Bool-cases (ltb last error_bit)) [
      | inl past ↦ rw past
      | inr going ↦ rw going (
          collisions-zero left (i + 1) offset base error_bit first last deeper (counts going).2
          ∙ collisions-zero left (i + 1) offset s (error_bit + 1) first last here (counts going).1
          ∙ flag_from-zero first error_bit table s (counts going).0)
    ]
  where
    s : ℕ
    s = bit_xor base (get_or single_bit_syndrome (i + offset) 0)

    here : List ErrorInfo
    here = (flag_from first error_bit table s).1

    deeper : List ErrorInfo
    deeper = (flag_collisions left (i + 1) offset s (error_bit + 1) first last here).1

    counts :
        ltb last error_bit ≡ false
        → ((flag_from first error_bit table s).0 ≡ 0)
          × ((flag_collisions left (i + 1) offset s (error_bit + 1) first last here).0 ≡ 0)
          × ((flag_collisions left (i + 1) offset base error_bit first last deeper).0 ≡ 0)
    counts going = let sum = rw going at h in (omega arith, omega arith, omega arith)

-- An entry that is not flagged is honest.
module _ (n : ℕ) where
  abbrev IsSound : ErrorInfo → Type 0
  IsSound e = IsHonest n e ⊎ (e.errors ≡ flagged)

  flag-IsSound : (table : List ErrorInfo) (s : ℕ) → All IsSound table → All IsSound (flag table s).1
  unfolding flag
  flag-IsSound [] s h = tt
  flag-IsSound (e ∷ table) s h = elim (Bool-cases (e.syndrome == s)) [
    | inl here ↦ elim (Bool-cases (is_flagged e.errors)) [
      | inl old ↦ rw (here, old) h
      | inr new ↦ rw (here, new) (inr refl, h.1)
    ]
    | inr other ↦ rw other (h.0, flag-IsSound table s h.1)
  ]

  flag_from-IsSound :
      (first error_bit : ℕ) (table : List ErrorInfo) (s : ℕ)
      → All IsSound table
      → All IsSound (flag_from first error_bit table s).1
  unfolding flag_from
  flag_from-IsSound first error_bit table s h = elim (Bool-cases (leb first error_bit)) [
    | inl counted ↦ rw counted (flag-IsSound table s h)
    | inr skipped ↦ rw skipped h
  ]

  collisions-IsSound :
      (left i offset base error_bit first last : ℕ) (table : List ErrorInfo)
      → All IsSound table
      → All IsSound (flag_collisions left i offset base error_bit first last table).1
  unfolding flag_collisions
  collisions-IsSound zero i offset base error_bit first last table h = h
  collisions-IsSound (suc left) i offset base error_bit first last table h =
      elim (Bool-cases (ltb last error_bit)) [
        | inl past ↦ rw past h
        | inr going ↦ rw going (
            collisions-IsSound left (i + 1) offset base error_bit first last deeper (
              collisions-IsSound left (i + 1) offset s (error_bit + 1) first last here
                (flag_from-IsSound first error_bit table s h)))
      ]
    where
      s : ℕ
      s = bit_xor base (get_or single_bit_syndrome (i + offset) 0)

      here : List ErrorInfo
      here = (flag_from first error_bit table s).1

      deeper : List ErrorInfo
      deeper = (flag_collisions left (i + 1) offset s (error_bit + 1) first last here).1

  unflagged : (e : ErrorInfo) → is_flagged e.errors ≡ false → IsSound e → IsHonest n e
  unflagged e new (inl honest) = honest
  unflagged e new (inr old) = absurd (true≢false (sym (ap is_flagged old) ∙ new))

  All-inl : (table : List ErrorInfo) → All (IsHonest n) table → All IsSound table
  All-inl [] h = tt
  All-inl (e ∷ table) h = (inl h.0, All-inl table h.1)

  drop_flagged-All :
      (table : List ErrorInfo) → All IsSound table → All (IsHonest n) (drop_flagged table)
  unfolding drop_flagged
  drop_flagged-All [] h = tt
  drop_flagged-All (e ∷ table) h = elim (Bool-cases (is_flagged e.errors)) [
    | inl old ↦ rw old (drop_flagged-All table h.1)
    | inr new ↦ rw new (unflagged e new h.0, drop_flagged-All table h.1)
  ]

  compacted : ℕ → List ErrorInfo
  compacted max = drop_ambiguous none (sort_table (prepare_subtable n 0 (112 - n) base_entry 0 max))

  compacted-All : (max : ℕ) → max ≤ 2 → All (IsHonest n) (compacted max)
  unfolding compacted
  compacted-All max h =
      drop_ambiguous-All (IsHonest n) none
        (sort_table (prepare_subtable n 0 (112 - n) base_entry 0 max))
        (sort_table-All (IsHonest n) (prepare_subtable n 0 (112 - n) base_entry 0 max)
          (subtable_first n n 0 max (omega arith) h))

  -- Every entry of a table for at most two errors is honest, whatever is detected beyond.
  pub prepare_error_table-All :
      (max detect : ℕ) {table : List ErrorInfo}
      → max ≤ 2
      → prepare_error_table n max detect ≡ some table
      → All (IsHonest n) table
  unfolding prepare_error_table compacted
  prepare_error_table-All max detect {table} h made = elim (Bool-cases (max == 0)) [
    | inl off ↦ let e : none ≡ some table = rw off at made in cc
    | inr on ↦ elim (Bool-cases (ltb max detect)) [
      | inl beyond ↦ elim (Bool-cases (ltb 0 flags.0)) [
        | inl some_flagged ↦
            subst (All (IsHonest n))
              (some_injective (drop_flagged flags.1) table (rw (on, beyond, some_flagged) at made))
              (drop_flagged-All flags.1 flags-IsSound)
        | inr none_flagged ↦
            subst (All (IsHonest n))
              (sym (
                  collisions-zero n 0 (112 - n) 0 1 (max + 1) detect (compacted max) (ground arith))
                ∙ some_injective flags.1 table (rw (on, beyond, none_flagged) at made))
              (compacted-All max h)
      ]
      | inr within ↦
          subst (All (IsHonest n)) (some_injective (compacted max) table (rw (on, within) at made))
            (compacted-All max h)
    ]
  ]
    where
      flags : ℕ × List ErrorInfo
      flags = flag_collisions n 0 (112 - n) 0 1 (max + 1) detect (compacted max)

      flags-IsSound : All IsSound flags.1
      flags-IsSound =
          collisions-IsSound n 0 (112 - n) 0 1 (max + 1) detect (compacted max)
            (All-inl (compacted max) (compacted-All max h))
