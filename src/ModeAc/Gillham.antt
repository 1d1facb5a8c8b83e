-- ===== src/ModeAc/Gillham.antt =====
-- The two conversions of mode_ac.c against an encoder for the Gillham code.
use mathlib.Core.Bool.{false≢true}
use rbfeeder.Base.{
  ℕ, ◌⊎◌, zero, suc, ◌+◌, ◌-◌, ◌*◌, ◌/◌, ◌%◌, ◌^◌, ◌<◌, ◌≤◌, bit_xor, List, Option, none, some,
}
use rbfeeder.Base.{
  Bool, true, false, ◌||◌, ◌&&◌, ltb, leb, ◌==◌, ==_iff, if◌then◌else◌, get_or, length,
}
use rbfeeder.Base.{
  length-set, length-replicate, get_or-set_ne, get_or-set_self, ltb→lt, and_parts, or_parts,
  some_injective, ℕ_discrete,
}
use rbfeeder.Base.{
  replicate, get_or-tabulate, all_below, all_below_sound, ◌≡◌, refl, sym, ap, ◌∙◌, arith,
  Bool-cases, inl, inr, ◌≢◌,
}
use rbfeeder.Base.Int.{ℤ, pos, sub_ℕ, ◌+ℤ◌, eq_ℤ, eq_ℤ_lem}
use rbfeeder.ModeAc.Defs.{
  invalid_altitude, mode_a_to_index, index_to_mode_a, one_hundreds, five_hundreds,
  internal_mode_a_to_mode_c, in_table, write_at, key_of, init_loop, mode_a_to_c_table,
  mode_c_to_a_table, mode_a_to_mode_c, code_at, mode_c_to_mode_a,
}

-- The binary digit `k` of `g`, put at the place of a pulse.
abbrev pulse : ℕ → ℕ → ℕ → ℕ
pulse g k place = g / 2 ^ k % 2 * place

-- The Mode A code of `n` hundreds of feet above -1200 ft: the number of five hundreds in a Gray code
-- over the pulses of D, A and B, and the hundreds left, reflected at every odd one, over those of C.
unfoldable pub gillham_code : ℕ → ℕ
gillham_code n =
    let f = n / 5 in
    let r = if f % 2 == 1 then 5 - n % 5 else n % 5 + 1 in
    let h = if r == 5 then 7 else r in
    let g = bit_xor f (f / 2) in
    let c = bit_xor h (h / 2) in
    pulse g 7 0x0002
    + pulse g 6 0x0004
    + pulse g 5 0x1000
    + pulse g 4 0x2000
    + pulse g 3 0x4000
    + pulse g 2 0x0100
    + pulse g 1 0x0200
    + pulse g 0 0x0400
    + pulse c 2 0x0010
    + pulse c 1 0x0020
    + pulse c 0 0x0040

-- By evaluation: every code is read back, every code that is read is one, and the index loses nothing.
code_reads : ℕ → Bool
code_reads n =
    eq_ℤ (internal_mode_a_to_mode_c (gillham_code n)) (sub_ℕ (n + 1) 13)
    && (ltb (mode_a_to_index (gillham_code n)) 4096
        && (index_to_mode_a (mode_a_to_index (gillham_code n)) == gillham_code n))

every_code_reads : all_below 1280 code_reads ≡ true
unfolding all_below code_reads gillham_code internal_mode_a_to_mode_c one_hundreds five_hundreds
    mode_a_to_index index_to_mode_a
every_code_reads = refl

is_code : Option ℕ → ℕ → Bool
is_code none i = true
is_code (some zero) i = false
is_code (some (suc n)) i = ltb n 1280 && (mode_a_to_index (gillham_code n) == i)

reads_code : ℕ → Bool
reads_code i = is_code (key_of i) i

every_read_is_code : all_below 4096 reads_code ≡ true
unfolding all_below reads_code is_code gillham_code internal_mode_a_to_mode_c one_hundreds
    five_hundreds ◌+ℤ◌ mode_a_to_index index_to_mode_a
every_read_is_code = refl

-- What the two evaluations say.
record Reads (n : ℕ) : Type 0 where
  value : internal_mode_a_to_mode_c (gillham_code n) ≡ sub_ℕ (n + 1) 13
  index_in : mode_a_to_index (gillham_code n) < 4096
  index_back : index_to_mode_a (mode_a_to_index (gillham_code n)) ≡ gillham_code n

Reads_lem : (n : ℕ) → n < 1280 → Reads n
unfolding code_reads
Reads_lem n h = record {
  value = eq_ℤ_lem _ _ first.0;
  index_in = ltb→lt _ _ second.0;
  index_back = (==_iff _ _).0 second.1;
}
  where
    first :
        (eq_ℤ (internal_mode_a_to_mode_c (gillham_code n)) (sub_ℕ (n + 1) 13) ≡ true)
        × ((ltb (mode_a_to_index (gillham_code n)) 4096
              && index_to_mode_a (mode_a_to_index (gillham_code n)) == gillham_code n)
            ≡ true)
    first = and_parts _ _ (all_below_sound 1280 code_reads n every_code_reads h)

    second :
        (ltb (mode_a_to_index (gillham_code n)) 4096 ≡ true)
        × ((index_to_mode_a (mode_a_to_index (gillham_code n)) == gillham_code n) ≡ true)
    second = and_parts _ _ first.1

-- `sub_ℕ (n + 1) 13` hundreds of feet stand at index `n + 1`.
in_table_lem : (n : ℕ) → n < 1280 → in_table (sub_ℕ (n + 1) 13 +ℤ pos 13) ≡ some (suc n)
unfolding ◌+ℤ◌
in_table_lem n h = ground arith

key_of_lem : (n : ℕ) → n < 1280 → key_of (mode_a_to_index (gillham_code n)) ≡ some (suc n)
key_of_lem n h =
    let r = Reads_lem n h in
    ap (λ t. in_table (internal_mode_a_to_mode_c t +ℤ pos 13)) r.index_back
    ∙ ap (λ t. in_table (t +ℤ pos 13)) r.value
    ∙ in_table_lem n h

is_code_lem :
    (o : Option ℕ) (i n : ℕ)
    → is_code o i ≡ true
    → o ≡ some (suc n)
    → mode_a_to_index (gillham_code n) ≡ i
unfolding is_code
is_code_lem none i n h e = cc
is_code_lem (some zero) i n h e = cc
is_code_lem (some (suc k)) i n h e =
    let same : k ≡ n = omega (arith, some_injective (suc k) (suc n) e) in
    ap (λ t. mode_a_to_index (gillham_code t)) (sym same)
    ∙ (==_iff (mode_a_to_index (gillham_code k)) i).0 (and_parts (ltb k 1280) _ h).1

key_of_unique :
    (i n : ℕ) → i < 4096 → key_of i ≡ some (suc n) → mode_a_to_index (gillham_code n) ≡ i
unfolding reads_code
key_of_unique i n h e =
    is_code_lem (key_of i) i n (all_below_sound 4096 reads_code i every_read_is_code h) e

-- The loop of `modeACInit`: an entry is written by the index that has its key, and by no other.
module _ (k : ℕ) where
  length-write_at : (o : Option ℕ) (a : ℕ) (t : List ℕ) → length (write_at o a t) ≡ length t
  length-write_at none a t = refl
  length-write_at (some j) a t = length-set t j a

  write_at_other :
      (o : Option ℕ) (a : ℕ) (t : List ℕ) → o ≢ some k → get_or (write_at o a t) k 0 ≡ get_or t k 0
  write_at_other none a t h = refl
  write_at_other (some j) a t h = get_or-set_ne t j k a 0 (λ e. h (ap some e))

  init_loop-unwritten :
      (left i : ℕ) (t : List ℕ)
      → ((j : ℕ) → i ≤ j → j < i + left → key_of j ≢ some k)
      → get_or (init_loop left i t) k 0 ≡ get_or t k 0
  unfolding init_loop
  init_loop-unwritten zero i t h = refl
  init_loop-unwritten (suc left) i t h =
      init_loop-unwritten left (i + 1) (write_at (key_of i) (index_to_mode_a i) t)
        (λ j le lt. h j (omega arith) (omega arith))
      ∙ write_at_other (key_of i) (index_to_mode_a i) t (h i (omega arith) (omega arith))

  init_loop-written :
      (left i j : ℕ) (t : List ℕ)
      → k < length t
      → i ≤ j
      → j < i + left
      → key_of j ≡ some k
      → ((l : ℕ) → l < i + left → key_of l ≡ some k → l ≡ j)
      → get_or (init_loop left i t) k 0 ≡ index_to_mode_a j
  unfolding init_loop
  init_loop-written zero i j t hk le lt e only = absurd (omega arith)
  init_loop-written (suc left) i j t hk le lt e only = elim (ℕ_discrete i j) [
    | yes here ↦
        init_loop-unwritten left (i + 1) (write_at (key_of i) (index_to_mode_a i) t)
          (λ l le' lt' e'. absurd (omega (arith, only l (omega arith) e')))
        ∙ ap (λ o. get_or (write_at o (index_to_mode_a i) t) k 0) (ap key_of here ∙ e)
        ∙ get_or-set_self t k (index_to_mode_a i) 0 hk
        ∙ ap index_to_mode_a here
    | no later ↦
        init_loop-written left (i + 1) j (write_at (key_of i) (index_to_mode_a i) t)
          (rw length-write_at hk) (omega arith) (omega arith) e
          (λ l lt' e'. only l (omega arith) e')
  ]

in_full_table :
    (k j : ℕ)
    → k < 4096
    → j < 4096
    → key_of j ≡ some k
    → ((l : ℕ) → l < 4096 → key_of l ≡ some k → l ≡ j)
    → get_or mode_c_to_a_table k 0 ≡ index_to_mode_a j
unfolding mode_c_to_a_table
in_full_table k j hk hj e only =
    init_loop-written k 4096 0 j (replicate 4096 0) (rw length-replicate hk) (omega arith) hj e only

a_table_lem :
    (i : ℕ)
    → i < 4096
    → get_or mode_a_to_c_table i invalid_altitude ≡ internal_mode_a_to_mode_c (index_to_mode_a i)
unfolding mode_a_to_c_table
a_table_lem i h =
    let e : 0 + i ≡ i = omega arith in
    get_or-tabulate 4096 0 i (λ j. internal_mode_a_to_mode_c (index_to_mode_a j)) invalid_altitude h
    ∙ ap (λ j. internal_mode_a_to_mode_c (index_to_mode_a j)) e

-- Every Gillham code is read as its altitude, and every altitude in range has its code: the
-- conversions are inverse to one another on the 1280 codes, from -1200 ft up in steps of 100 ft.
pub mode_a-mode_c :
    (n : ℕ)
    → n < 1280
    → (mode_a_to_mode_c (gillham_code n) ≡ sub_ℕ (n + 1) 13)
      × (mode_c_to_mode_a (sub_ℕ (n + 1) 13) ≡ gillham_code n)
unfolding mode_a_to_mode_c mode_c_to_mode_a
mode_a-mode_c n h = (read, written)
  where
    r : Reads n
    r = Reads_lem n h

    i : ℕ
    i = mode_a_to_index (gillham_code n)

    read : mode_a_to_mode_c (gillham_code n) ≡ sub_ℕ (n + 1) 13
    read =
        let e : leb 4096 i ≡ false = ground (arith, r.index_in) in
        rw e (a_table_lem i r.index_in ∙ ap internal_mode_a_to_mode_c r.index_back ∙ r.value)

    written : mode_c_to_mode_a (sub_ℕ (n + 1) 13) ≡ gillham_code n
    written =
        ap code_at (in_table_lem n h)
        ∙ in_full_table (suc n) i (omega arith) r.index_in (key_of_lem n h)
            (λ l lt e. sym (key_of_unique l n lt e))
        ∙ r.index_back

-- By evaluation: what is read and is not invalid is the altitude of a code.
within : Option ℕ → ℤ → Bool
within none v = false
within (some zero) v = false
within (some (suc n)) v = ltb n 1280 && eq_ℤ v (sub_ℕ (n + 1) 13)

reads_valid : ℕ → Bool
reads_valid i =
    let v = internal_mode_a_to_mode_c (index_to_mode_a i) in
    eq_ℤ v invalid_altitude || within (key_of i) v

every_read_is_valid : all_below 4096 reads_valid ≡ true
unfolding all_below reads_valid within internal_mode_a_to_mode_c one_hundreds five_hundreds
    index_to_mode_a ◌+ℤ◌
every_read_is_valid = refl

-- A code as good as that of `n` hundreds of feet: the same index, and so the same pulses.
pub record IsCodeOf (a n : ℕ) : Type 0 where
  pub in_range : n < 1280
  pub same_pulses : mode_a_to_index (gillham_code n) ≡ mode_a_to_index a
  pub altitude : mode_a_to_mode_c a ≡ sub_ℕ (n + 1) 13

within_lem :
    (o : Option ℕ) (v : ℤ)
    → within o v ≡ true
    → (n : ℕ) × (n < 1280) × (o ≡ some (suc n)) × (v ≡ sub_ℕ (n + 1) 13)
unfolding within
within_lem none v h = absurd (false≢true h)
within_lem (some zero) v h = absurd (false≢true h)
within_lem (some (suc n)) v h =
    let parts = and_parts (ltb n 1280) (eq_ℤ v (sub_ℕ (n + 1) 13)) h in
    (n, ltb→lt n 1280 parts.0, refl, eq_ℤ_lem v (sub_ℕ (n + 1) 13) parts.1)

-- Whatever code it is given, `modeAToModeC` answers with the invalid altitude, or the code has
-- the pulses of a Gillham code and the answer is that code's altitude, from -1200 to 126700 ft.
pub mode_a_to_mode_c-cases :
    (a : ℕ) → (mode_a_to_mode_c a ≡ invalid_altitude) ⊎ ((n : ℕ) × IsCodeOf a n)
mode_a_to_mode_c-cases a = elim (Bool-cases (leb 4096 i)) [
  | inl out ↦ inl (unfold mode_a_to_mode_c in rw out)
  | inr in_range ↦
      let h : i < 4096 = ground arith in
      elim (or_parts (eq_ℤ v invalid_altitude) (within (key_of i) v) (valid h)) [
        | inl invalid ↦ inl (read h ∙ eq_ℤ_lem v invalid_altitude invalid)
        | inr code ↦
            let w = within_lem (key_of i) v code in
            inr (
              w.0,
              record {
                in_range = w.1;
                same_pulses = key_of_unique i w.0 h w.2;
                altitude = read h ∙ w.3;
              },
            )
      ]
]
  where
    i : ℕ
    i = mode_a_to_index a

    v : ℤ
    v = internal_mode_a_to_mode_c (index_to_mode_a i)

    valid : i < 4096 → (eq_ℤ v invalid_altitude || within (key_of i) v) ≡ true
    valid h = unfold reads_valid in all_below_sound 4096 reads_valid i every_read_is_valid h

    read : i < 4096 → mode_a_to_mode_c a ≡ v
    read h =
        let e : leb 4096 i ≡ false = ground (arith, h) in
        unfold mode_a_to_mode_c in rw e (a_table_lem i h)
