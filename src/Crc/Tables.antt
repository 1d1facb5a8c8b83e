-- ===== src/Crc/Tables.antt =====
-- crc.c: the tables of error syndromes, their lookup, and the correction of a message.
-- `qsort` is insertion in order of syndrome. `bsearch` takes the entry with the syndrome that is
-- asked for; the tables that it searches hold each syndrome at most once. An assert that fails
-- and a table write out of bounds are not modelled.
use rbfeeder.Base.{
  ℕ, zero, suc, ◌+◌, ◌-◌, ◌*◌, ◌/◌, bit_xor, List, [], ◌∷◌, ◌++◌, Bool, true, false,
}
use rbfeeder.Base.{Option, none, some, ◌||◌, ltb, leb, ◌==◌, if◌then◌else◌, get_or, set}
use rbfeeder.Crc.Checksum.{flip_bit, single_bit_syndrome}

-- `errors`: a number of bits, or the -1 of `flagCollisions`.
pub data Errors : Type 0 where
  bits : ℕ → Errors
  flagged : Errors

-- `struct errorinfo`; a position is `none` for -1.
pub record ErrorInfo : Type 0 where
  pub syndrome : ℕ
  pub errors : Errors
  pub bit : List (Option ℕ)

-- `NO_ERRORS`, all zero as static storage is.
abbrev pub no_errors : ErrorInfo
no_errors = record { syndrome = 0; errors = bits 0; bit = some 0 ∷ some 0 ∷ [] }

abbrev pub is_flagged : Errors → Bool
is_flagged (bits n) = false
is_flagged flagged = true

-- The loop of `combinations`, from `i` with `left` rounds to go.
unfoldable pub combinations_loop : ℕ → ℕ → ℕ → ℕ → ℕ
combinations_loop zero i n result = result
combinations_loop (suc left) i n result = combinations_loop left (i + 1) (n - 1) (result * n / i)

unfoldable pub combinations : ℕ → ℕ → ℕ
combinations n k = if k == 0 || k == n then 1 else if ltb n k then 0 else combinations_loop k 1 n 1

-- The entry that `prepareSubtable` writes for bit `i`.
unfoldable pub with_error : ErrorInfo → ℕ → ℕ → ℕ → ErrorInfo
with_error base offset error_bit i = record {
  syndrome = bit_xor base.syndrome (get_or single_bit_syndrome (i + offset) 0);
  errors = bits (error_bit + 1);
  bit = set base.bit error_bit (some i);
}

-- The entries that `prepareSubtable` appends, with `left` start bits to go from `i`.
unfoldable pub prepare_subtable : ℕ → ℕ → ℕ → ErrorInfo → ℕ → ℕ → List ErrorInfo
prepare_subtable zero i offset base error_bit max_errors = []
prepare_subtable (suc left) i offset base error_bit max_errors =
    let entry = with_error base offset error_bit i in
    let deeper = prepare_subtable left (i + 1) offset entry (error_bit + 1) max_errors in
    let later = prepare_subtable left (i + 1) offset base error_bit max_errors in
    if leb max_errors error_bit then [] else entry ∷ (deeper ++ later)

-- `qsort` by `syndrome_compare`
unfoldable pub insert_sorted : ErrorInfo → List ErrorInfo → List ErrorInfo
insert_sorted e [] = e ∷ []
insert_sorted e (f ∷ table) =
    let rest = insert_sorted e table in
    if ltb f.syndrome e.syndrome then f ∷ rest else e ∷ f ∷ table

unfoldable pub sort_table : List ErrorInfo → List ErrorInfo
sort_table [] = []
sort_table (e ∷ table) = insert_sorted e (sort_table table)

abbrev pub is_run : Option ℕ → ℕ → Bool
is_run none s = false
is_run (some r) s = r == s

abbrev pub next_has : List ErrorInfo → ℕ → Bool
next_has [] s = false
next_has (f ∷ table) s = f.syndrome == s

-- The loop that drops every entry whose syndrome occurs again, on the sorted table. `run` is the
-- syndrome of the duplicates that the inner `while` is passing over.
unfoldable pub drop_ambiguous : Option ℕ → List ErrorInfo → List ErrorInfo
drop_ambiguous run [] = []
drop_ambiguous run (e ∷ table) =
    let passing = drop_ambiguous run table in
    let entering = drop_ambiguous (some e.syndrome) table in
    let keeping = e ∷ drop_ambiguous none table in
    if is_run run e.syndrome
    then passing
    else if next_has table e.syndrome
    then entering
    else keeping

-- `bsearch` for a syndrome
unfoldable pub search_table : List ErrorInfo → ℕ → Option ErrorInfo
search_table [] s = none
search_table (e ∷ table) s = if e.syndrome == s then some e else search_table table s

-- The entry that is found is flagged, once; the number is what is added to `count`.
unfoldable pub flag : List ErrorInfo → ℕ → ℕ × List ErrorInfo
flag [] s = (0, [])
flag (e ∷ table) s =
    let (n, rest) = flag table s in
    if e.syndrome == s
    then (if is_flagged e.errors
        then (0, e ∷ table)
        else (1, record e { errors = flagged } ∷ table))
    else (n, e ∷ rest)

-- Only from `first_error` bits on.
unfoldable pub flag_from : ℕ → ℕ → List ErrorInfo → ℕ → ℕ × List ErrorInfo
flag_from first error_bit table s = if leb first error_bit then flag table s else (0, table)

-- `flagCollisions`, with `left` start bits to go from `i`.
unfoldable pub flag_collisions : ℕ → ℕ → ℕ → ℕ → ℕ → ℕ → ℕ → List ErrorInfo → ℕ × List ErrorInfo
flag_collisions zero i offset base error_bit first last table = (0, table)
flag_collisions (suc left) i offset base error_bit first last table =
    let s = bit_xor base (get_or single_bit_syndrome (i + offset) 0) in
    let here = flag_from first error_bit table s in
    let deeper = flag_collisions left (i + 1) offset s (error_bit + 1) first last here.1 in
    let later = flag_collisions left (i + 1) offset base error_bit first last deeper.1 in
    if ltb last error_bit then (0, table) else (here.0 + deeper.0 + later.0, later.1)

-- The loop that discards the flagged entries.
unfoldable pub drop_flagged : List ErrorInfo → List ErrorInfo
drop_flagged [] = []
drop_flagged (e ∷ table) =
    if is_flagged e.errors then drop_flagged table else e ∷ drop_flagged table

abbrev pub base_entry : ErrorInfo
base_entry = record { syndrome = 0; errors = bits 0; bit = none ∷ none ∷ [] }

-- `prepareErrorTable`; `none` is NULL, and `*size_out` is the length.
unfoldable pub prepare_error_table : ℕ → ℕ → ℕ → Option (List ErrorInfo)
prepare_error_table n max_correct max_detect =
    let table =
      drop_ambiguous none (sort_table (prepare_subtable n 0 (112 - n) base_entry 0 max_correct)) in
    let flags = flag_collisions n 0 (112 - n) 0 1 (max_correct + 1) max_detect table in
    if max_correct == 0
    then none
    else if ltb max_correct max_detect
    then (if ltb 0 flags.0 then some (drop_flagged flags.1) else some flags.1)
    else some table

-- `bitErrorTable_short` and `bitErrorTable_long`
pub record ErrorTables : Type 0 where
  pub short : Option (List ErrorInfo)
  pub long : Option (List ErrorInfo)

-- `modesChecksumInit`
unfoldable pub modes_checksum_init : ℕ → ErrorTables
modes_checksum_init fix_bits =
    let off : ErrorTables = record { short = none; long = none } in
    let one : ErrorTables = record {
      short = prepare_error_table 56 1 1;
      long = prepare_error_table 112 1 1;
    } in
    let two : ErrorTables = record {
      short = prepare_error_table 56 2 4;
      long = prepare_error_table 112 2 4;
    } in
    if fix_bits == 0 then off else if fix_bits == 1 then one else two

abbrev pub search_in : Option (List ErrorInfo) → ℕ → Option ErrorInfo
search_in none s = none
search_in (some table) s = search_table table s

-- `modesChecksumDiagnose`; its assert asks for 56 or 112.
unfoldable pub modes_checksum_diagnose : ErrorTables → ℕ → ℕ → Option ErrorInfo
modes_checksum_diagnose tables s bitlen =
    if s == 0
    then some no_errors
    else search_in (if bitlen == 56 then tables.short else tables.long) s

abbrev pub error_count : Errors → ℕ
error_count (bits n) = n
error_count flagged = 0

-- A position -1 would be a write before the message; it is skipped here.
abbrev pub flip_at : List ℕ → Option ℕ → List ℕ
flip_at msg none = msg
flip_at msg (some b) = flip_bit msg b

-- The loop of `modesChecksumFix` at index `i`.
unfoldable pub fix_loop : ℕ → ℕ → List (Option ℕ) → List ℕ → List ℕ
fix_loop zero i positions msg = msg
fix_loop (suc left) i positions msg =
    fix_loop left (i + 1) positions (flip_at msg (get_or positions i none))

-- `modesChecksumFix`; `none` is the NULL descriptor.
unfoldable pub modes_checksum_fix : List ℕ → Option ErrorInfo → List ℕ
modes_checksum_fix msg none = msg
modes_checksum_fix msg (some info) = fix_loop (error_count info.errors) 0 info.bit msg
