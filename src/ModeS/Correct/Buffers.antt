-- ===== src/ModeS/Correct/Buffers.antt =====
-- Message buffers: what `memcpy` leaves, and what the readers of a buffer depend on.
use rbfeeder.Base.{ℕ, zero, suc, ◌+◌, ◌-◌, ◌/◌, ◌<◌, ◌≤◌, List, [], ◌∷◌, ◌++◌, Option, none, some}
use rbfeeder.Base.{◌≡◌, refl, sym, ◌∙◌, ap, subst, arith, length, take, drop, get_or}
use rbfeeder.Base.{dec_lt}
use rbfeeder.Crc.Checksum.{modes_checksum, checksum_loop, checksum_round}
use rbfeeder.Crc.Linear.{IsBytes}
use rbfeeder.Crc.Tables.{ErrorInfo, error_count, flip_at, fix_loop, modes_checksum_fix}
use rbfeeder.Crc.Correct.{flip_bit-IsBytes}
use rbfeeder.Crc.Corrected.{length-flip_bit}
use rbfeeder.ModeS.Bits.{getbits}
use rbfeeder.ModeS.Correct.{memcpy}

-- Buffers that agree on their first `n` bytes.
abbrev pub IsSame : ℕ → List ℕ → List ℕ → Type 0
IsSame n a b = (i : ℕ) → i < n → get_or a i 0 ≡ get_or b i 0

take_front :
    (n : ℕ) (bytes rest : List ℕ) (i : ℕ)
    → n ≤ length bytes
    → i < n
    → get_or (take n bytes ++ rest) i 0 ≡ get_or bytes i 0
take_front zero bytes rest i h lt = absurd (omega arith)
take_front (suc n) [] rest i h lt = absurd (omega arith)
take_front (suc n) (b ∷ bytes) rest zero h lt = refl
take_front (suc n) (b ∷ bytes) rest (suc i) h lt =
    take_front n bytes rest i (omega arith) (omega arith)

take_back :
    (n : ℕ) (bytes out : List ℕ) (i : ℕ)
    → n ≤ length bytes
    → n ≤ i
    → get_or (take n bytes ++ drop n out) i 0 ≡ get_or out i 0
take_back zero bytes out i h le = refl
take_back (suc n) [] out i h le = absurd (omega arith)
take_back (suc n) (b ∷ bytes) out zero h le = absurd (omega arith)
take_back (suc n) (b ∷ bytes) [] (suc i) h le = nothing n bytes i (omega arith) (omega arith)
  where
    nothing : (k : ℕ) (c : List ℕ) (j : ℕ) → k ≤ length c → k ≤ j → get_or (take k c ++ []) j 0 ≡ 0
    nothing zero c j h le = refl
    nothing (suc k) [] j h le = absurd (omega arith)
    nothing (suc k) (x ∷ c) zero h le = absurd (omega arith)
    nothing (suc k) (x ∷ c) (suc j) h le = nothing k c j (omega arith) (omega arith)
take_back (suc n) (b ∷ bytes) (o ∷ out) (suc i) h le =
    take_back n bytes out i (omega arith) (omega arith)

pub memcpy-IsSame :
    (n : ℕ) (out bytes : List ℕ) → n ≤ length bytes → IsSame n (memcpy n out bytes) bytes
unfolding memcpy
memcpy-IsSame n out bytes h i lt = take_front n bytes (drop n out) i h lt

pub memcpy-IsBytes :
    (n : ℕ) (out bytes : List ℕ)
    → n ≤ length bytes
    → IsBytes out
    → IsBytes bytes
    → IsBytes (memcpy n out bytes)
unfolding memcpy
memcpy-IsBytes n out bytes h ho hb i = elim (dec_lt i n) [
  | yes lt ↦ subst (λ (t : ℕ). t < 256) (sym (take_front n bytes (drop n out) i h lt)) (hb i)
  | no ge ↦ subst (λ (t : ℕ). t < 256) (sym (take_back n bytes out i h (omega arith))) (ho i)
]

-- A whole copy.
pub memcpy_all :
    (n : ℕ) (out bytes : List ℕ) → length bytes ≡ n → length out ≡ n → memcpy n out bytes ≡ bytes
unfolding memcpy
memcpy_all zero [] [] h k = refl
memcpy_all zero (o ∷ out) bytes h k = absurd (omega arith)
memcpy_all zero [] (b ∷ bytes) h k = absurd (omega arith)
memcpy_all (suc n) out [] h k = absurd (omega arith)
memcpy_all (suc n) [] (b ∷ bytes) h k = absurd (omega arith)
memcpy_all (suc n) (o ∷ out) (b ∷ bytes) h k =
    ap (λ t. b ∷ t) (memcpy_all n out bytes (omega arith) (omega arith))

pub length-memcpy :
    (n : ℕ) (out bytes : List ℕ)
    → n ≤ length bytes
    → n ≤ length out
    → length (memcpy n out bytes) ≡ length out
unfolding memcpy
length-memcpy zero out bytes h k = refl
length-memcpy (suc n) out [] h k = absurd (omega arith)
length-memcpy (suc n) [] (b ∷ bytes) h k = absurd (omega arith)
length-memcpy (suc n) (o ∷ out) (b ∷ bytes) h k =
    ap suc (length-memcpy n out bytes (omega arith) (omega arith))

-- The checksum looks at the bytes of the message only, and the downlink format at the first.
checksum_loop-IsSame :
    (left i rem : ℕ) (a b : List ℕ) {n : ℕ}
    → i + left ≤ n
    → IsSame n a b
    → checksum_loop left i rem a ≡ checksum_loop left i rem b
unfolding checksum_loop
checksum_loop-IsSame zero i rem a b h same = refl
checksum_loop-IsSame (suc left) i rem a b h same =
    ap (λ t. checksum_loop left (i + 1) (checksum_round rem t) a) (same i (omega arith))
    ∙ checksum_loop-IsSame left (i + 1) (checksum_round rem (get_or b i 0)) a b (omega arith) same

pub modes_checksum-IsSame :
    (n : ℕ) (a b : List ℕ)
    → 3 ≤ n / 8
    → IsSame (n / 8) a b
    → modes_checksum a n ≡ modes_checksum b n
unfolding modes_checksum
modes_checksum-IsSame n a b h same =
    rw
      (
        checksum_loop-IsSame (n / 8 - 3) 0 0 a b (omega arith) same,
        same (n / 8 - 3) (omega arith),
        same (n / 8 - 2) (omega arith),
        same (n / 8 - 1) (omega arith),
      )
      refl

pub df-IsSame : (a b : List ℕ) → get_or a 0 0 ≡ get_or b 0 0 → getbits a 1 5 ≡ getbits b 1 5
unfolding getbits
df-IsSame a b same = rw same refl

-- Corrections keep bytes bytes, and their number.
flip_at-IsBytes : (m : List ℕ) (o : Option ℕ) → IsBytes m → IsBytes (flip_at m o)
flip_at-IsBytes m none h = h
flip_at-IsBytes m (some b) h = flip_bit-IsBytes m b h

fix_loop-IsBytes :
    (left i : ℕ) (ps : List (Option ℕ)) (m : List ℕ) → IsBytes m → IsBytes (fix_loop left i ps m)
unfolding fix_loop
fix_loop-IsBytes zero i ps m h = h
fix_loop-IsBytes (suc left) i ps m h =
    fix_loop-IsBytes left (i + 1) ps (flip_at m (get_or ps i none))
      (flip_at-IsBytes m (get_or ps i none) h)

pub fix-IsBytes : (m : List ℕ) (o : Option ErrorInfo) → IsBytes m → IsBytes (modes_checksum_fix m o)
unfolding modes_checksum_fix
fix-IsBytes m none h = h
fix-IsBytes m (some e) h = fix_loop-IsBytes (error_count e.errors) 0 e.bit m h

length-flip_at : (m : List ℕ) (o : Option ℕ) → length (flip_at m o) ≡ length m
length-flip_at m none = refl
length-flip_at m (some b) = length-flip_bit m b

length-fix_loop :
    (left i : ℕ) (ps : List (Option ℕ)) (m : List ℕ) → length (fix_loop left i ps m) ≡ length m
unfolding fix_loop
length-fix_loop zero i ps m = refl
length-fix_loop (suc left) i ps m =
    length-fix_loop left (i + 1) ps (flip_at m (get_or ps i none))
    ∙ length-flip_at m (get_or ps i none)

pub length-fix : (m : List ℕ) (o : Option ErrorInfo) → length (modes_checksum_fix m o) ≡ length m
unfolding modes_checksum_fix
length-fix m none = refl
length-fix m (some e) = length-fix_loop (error_count e.errors) 0 e.bit m
