-- ===== src/ModeS/Bits/Value.antt =====
-- What `getbits` reads: the bits that are asked for, of the number that the bytes spell.
use native.Mathlib.Nat.{
  add-mul-div_right, mul-add-mod_self_right, mod-eq_of_lt, div-lt_iff_lt-mul, div-add-mod, mod-lt,
  mul_assoc, mul_comm, add-mul, one-le-pow, pow-le-pow_right,
}
use rbfeeder.Base.{
  ℕ, zero, suc, all_below, all_below_sound, ==_iff, ◌+◌, ◌-◌, ◌*◌, ◌/◌, ◌%◌, ◌^◌, ◌≤◌, ◌<◌, bit_and,
  bit_or, List, Bool, true, ◌==◌, if◌then◌else◌,
}
use rbfeeder.Base.{◌≡◌, refl, sym, ap, ap₂, subst, ◌∙◌, arith, get_or, u32, ◌<<<◌, ◌>>>◌}
use rbfeeder.Base.Bits.Fields.{or_fields, and_mask, pow_add}
use rbfeeder.Crc.Linear.{IsBytes}
use rbfeeder.Crc.Division.{message_value, message_value-lt}
use rbfeeder.ModeS.Bits.{getbits}

pos_pow : (k : ℕ) → 0 < 2 ^ k
pos_pow k = one-le-pow k 2 (omega arith)

scaled_lt : (j a b : ℕ) → a < b → a * 2 ^ j < b * 2 ^ j
scaled_lt j a b h = grind (arith, pos_pow j)

-- A byte joined below, and the last byte.
joined : (j y d : ℕ) → d < 256 → bit_or (y * 2 ^ (8 + j)) (d * 2 ^ j) ≡ (y * 256 + d) * 2 ^ j
joined j y d h =
    let split : 2 ^ (8 + j) ≡ 256 * 2 ^ j = pow_add 8 j in
    let fits : d * 2 ^ j < 2 ^ (8 + j) = rw split (scaled_lt j d 256 h) in
    let shared : y * 2 ^ (8 + j) ≡ y * 256 * 2 ^ j =
      ap (λ t. y * t) split ∙ sym (mul_assoc y 256 (2 ^ j)) in
    or_fields (8 + j) y (d * 2 ^ j) fits ∙ omega arith

ended : (s y d : ℕ) → s ≤ 8 → d < 256 → bit_or (y * 2 ^ (8 - s)) (d / 2 ^ s) ≡ (y * 256 + d) / 2 ^ s
ended s y d hs hd =
    let e : 8 ≡ 8 - s + s = omega arith in
    let whole : 256 ≡ 2 ^ (8 - s) * 2 ^ s = ap (λ t. 2 ^ t) e ∙ pow_add (8 - s) s in
    let fits : d / 2 ^ s < 2 ^ (8 - s) =
      (div-lt_iff_lt-mul {k = 2 ^ s} {x = d} {y = 2 ^ (8 - s)} (pos_pow s)).1 (omega arith) in
    let shared : y * 256 ≡ y * 2 ^ (8 - s) * 2 ^ s =
      ap (λ t. y * t) whole ∙ sym (mul_assoc y (2 ^ (8 - s)) (2 ^ s)) in
    let order : y * 256 + d ≡ d + y * 2 ^ (8 - s) * 2 ^ s = omega arith in
    let sum : (y * 256 + d) / 2 ^ s ≡ d / 2 ^ s + y * 2 ^ (8 - s) =
      ap (λ t. t / 2 ^ s) order ∙ add-mul-div_right d (y * 2 ^ (8 - s)) (pos_pow s) in
    or_fields (8 - s) y (d / 2 ^ s) fits ∙ omega arith

-- The mask of the first byte takes away what is above the field.
masked : (k j d r : ℕ) → r < 2 ^ j → (d * 2 ^ j + r) % 2 ^ (k + j) ≡ d % 2 ^ k * 2 ^ j + r
masked k j d r h =
    let q = d / 2 ^ k in
    let x = d % 2 ^ k in
    let parts : q * 2 ^ k + x ≡ d = omega (arith, div-add-mod d (2 ^ k), mul_comm q (2 ^ k)) in
    let power : 2 ^ (k + j) ≡ 2 ^ k * 2 ^ j = pow_add k j in
    let shared : q * 2 ^ (k + j) ≡ q * 2 ^ k * 2 ^ j =
      ap (λ t. q * t) power ∙ sym (mul_assoc q (2 ^ k) (2 ^ j)) in
    let split : d * 2 ^ j ≡ q * 2 ^ k * 2 ^ j + x * 2 ^ j =
      ap (λ t. t * 2 ^ j) (sym parts) ∙ add-mul (q * 2 ^ k) x (2 ^ j) in
    let whole : d * 2 ^ j + r ≡ q * 2 ^ (k + j) + (x * 2 ^ j + r) = omega arith in
    let fits : x * 2 ^ j + r < 2 ^ (k + j) = rw power (below x (2 ^ k) (mod-lt d (pos_pow k))) in
    ap (λ t. t % 2 ^ (k + j)) whole
    ∙ mul-add-mod_self_right q (2 ^ (k + j)) (x * 2 ^ j + r)
    ∙ mod-eq_of_lt fits
  where
    below : (x b : ℕ) → x < b → x * 2 ^ j + r < b * 2 ^ j
    below x b small = grind (arith, h)

u32_small : (j x k : ℕ) → x < 2 ^ k → k + j ≤ 32 → u32 (x * 2 ^ j) ≡ x * 2 ^ j
u32_small j x k h hk =
    let room : 2 ^ k * 2 ^ j ≤ 2 ^ 32 =
      subst (λ (t : ℕ). t ≤ 2 ^ 32) (pow_add k j)
        (pow-le-pow_right {n = 2} (omega arith) {i = k + j} {j = 32} hk) in
    let fits : x * 2 ^ j < 2 ^ k * 2 ^ j = scaled_lt j x (2 ^ k) h in
    mod-eq_of_lt {n = x * 2 ^ j} {m = 2 ^ 32} (omega arith)

module _ (s x b1 b2 : ℕ) (hs : s ≤ 7) (h1 : b1 < 256) (h2 : b2 < 256) where
  three :
      bit_or (bit_or (x * 2 ^ (16 - s)) (b1 * 2 ^ (8 - s))) (b2 / 2 ^ s)
      ≡ ((x * 256 + b1) * 256 + b2) / 2 ^ s
  three =
      let e : 16 - s ≡ 8 + (8 - s) = omega arith in
      ap (λ t. bit_or (bit_or (x * 2 ^ t) (b1 * 2 ^ (8 - s))) (b2 / 2 ^ s)) e
      ∙ ap (λ t. bit_or t (b2 / 2 ^ s)) (joined (8 - s) x b1 h1)
      ∙ ended s (x * 256 + b1) b2 (omega arith) h2

  four :
      (b3 : ℕ)
      → b3 < 256
      → bit_or
          (bit_or (bit_or (x * 2 ^ (24 - s)) (b1 * 2 ^ (16 - s))) (b2 * 2 ^ (8 - s)))
          (b3 / 2 ^ s)
        ≡ (((x * 256 + b1) * 256 + b2) * 256 + b3) / 2 ^ s
  four b3 h3 =
      let e : 24 - s ≡ 8 + (16 - s) = omega arith in
      let d : 16 - s ≡ 8 + (8 - s) = omega arith in
      ap
        (λ t.
          bit_or (bit_or (bit_or (x * 2 ^ t) (b1 * 2 ^ (16 - s))) (b2 * 2 ^ (8 - s))) (b3 / 2 ^ s))
        e
      ∙ ap (λ t. bit_or (bit_or t (b2 * 2 ^ (8 - s))) (b3 / 2 ^ s)) (joined (16 - s) x b1 h1)
      ∙ ap (λ t. bit_or (bit_or ((x * 256 + b1) * 2 ^ t) (b2 * 2 ^ (8 - s))) (b3 / 2 ^ s)) d
      ∙ ap (λ t. bit_or t (b3 / 2 ^ s)) (joined (8 - s) (x * 256 + b1) b2 h2)
      ∙ ended s ((x * 256 + b1) * 256 + b2) b3 (omega arith) h3

  five :
      (b3 b4 : ℕ)
      → b3 < 256
      → b4 < 256
      → bit_or
          (bit_or
            (bit_or (bit_or (x * 2 ^ (32 - s)) (b1 * 2 ^ (24 - s))) (b2 * 2 ^ (16 - s)))
            (b3 * 2 ^ (8 - s)))
          (b4 / 2 ^ s)
        ≡ ((((x * 256 + b1) * 256 + b2) * 256 + b3) * 256 + b4) / 2 ^ s
  five b3 b4 h3 h4 =
      let e : 32 - s ≡ 8 + (24 - s) = omega arith in
      let d : 24 - s ≡ 8 + (16 - s) = omega arith in
      let c : 16 - s ≡ 8 + (8 - s) = omega arith in
      let y = x * 256 + b1 in
      ap
        (λ t.
          bit_or
            (bit_or (bit_or (bit_or (x * 2 ^ t) (b1 * 2 ^ (24 - s))) (b2 * 2 ^ (16 - s)))
              (b3 * 2 ^ (8 - s)))
            (b4 / 2 ^ s))
        e
      ∙ ap (λ t. bit_or (bit_or (bit_or t (b2 * 2 ^ (16 - s))) (b3 * 2 ^ (8 - s))) (b4 / 2 ^ s))
          (joined (24 - s) x b1 h1)
      ∙ ap
          (λ t.
            bit_or (bit_or (bit_or (y * 2 ^ t) (b2 * 2 ^ (16 - s))) (b3 * 2 ^ (8 - s)))
              (b4 / 2 ^ s))
          d
      ∙ ap (λ t. bit_or (bit_or t (b3 * 2 ^ (8 - s))) (b4 / 2 ^ s)) (joined (16 - s) y b2 h2)
      ∙ ap (λ t. bit_or (bit_or ((y * 256 + b2) * 2 ^ t) (b3 * 2 ^ (8 - s))) (b4 / 2 ^ s)) c
      ∙ ap (λ t. bit_or t (b4 / 2 ^ s)) (joined (8 - s) (y * 256 + b2) b3 h3)
      ∙ ended s ((y * 256 + b2) * 256 + b3) b4 (omega arith) h4

module _ (m : List ℕ) where
  -- The choice that `getbits` makes, by the number of bytes that hold the field.
  abbrev chain : ℕ → ℕ → ℕ → ℕ → ℕ
  chain n i x s =
      let byte : ℕ → ℕ = λ k. get_or m (i + k) 0 in
      if n == 5
      then bit_or
          (bit_or
            (bit_or (bit_or (u32 (x <<< (32 - s))) (u32 (byte 1 <<< (24 - s))))
              (byte 2 <<< (16 - s)))
            (byte 3 <<< (8 - s)))
          (byte 4 >>> s)
      else if n == 4
      then bit_or
          (bit_or (bit_or (u32 (x <<< (24 - s))) (byte 1 <<< (16 - s))) (byte 2 <<< (8 - s)))
          (byte 3 >>> s)
      else if n == 3
      then bit_or (bit_or (x <<< (16 - s)) (byte 1 <<< (8 - s))) (byte 2 >>> s)
      else if n == 2
      then bit_or (x <<< (8 - s)) (byte 1 >>> s)
      else if n == 1
      then x >>> s
      else 0

  getbits-chain :
      (first last : ℕ)
      → getbits m first last
        ≡ chain
            ((last - 1) / 8 - (first - 1) / 8 + 1)
            ((first - 1) / 8)
            (bit_and (get_or m ((first - 1) / 8) 0) (0xff >>> bit_and (first - 1) 7))
            (7 - bit_and (last - 1) 7)
  unfolding getbits
  getbits-chain first last = refl

  -- The bytes after the first.
  tail1 : (i : ℕ) → message_value 1 i m ≡ get_or m i 0
  unfolding message_value
  tail1 i = omega arith

  tail2 : (i : ℕ) → message_value 2 (i + 1) m ≡ get_or m (i + 1) 0 * 256 + get_or m (i + 2) 0
  unfolding message_value
  tail2 i = let e : i + 1 + 1 ≡ i + 2 = omega arith in omega (arith, ap (λ t. get_or m t 0) e)

  tail3 :
      (i : ℕ)
      → message_value 3 (i + 1) m
        ≡ (get_or m (i + 1) 0 * 256 + get_or m (i + 2) 0) * 256 + get_or m (i + 3) 0
  unfolding message_value
  tail3 i =
      let e : i + 1 + 1 ≡ i + 2 = omega arith in
      let d : i + 1 + 1 + 1 ≡ i + 3 = omega arith in
      omega (arith, ap (λ t. get_or m t 0) e, ap (λ t. get_or m t 0) d)

  tail4 :
      (i : ℕ)
      → message_value 4 (i + 1) m
        ≡ ((get_or m (i + 1) 0 * 256 + get_or m (i + 2) 0) * 256 + get_or m (i + 3) 0) * 256
          + get_or m (i + 4) 0
  unfolding message_value
  tail4 i =
      let e : i + 1 + 1 ≡ i + 2 = omega arith in
      let d : i + 1 + 1 + 1 ≡ i + 3 = omega arith in
      let c : i + 1 + 1 + 1 + 1 ≡ i + 4 = omega arith in
      omega (arith, ap (λ t. get_or m t 0) e, ap (λ t. get_or m t 0) d, ap (λ t. get_or m t 0) c)

  -- The bytes of a field, as one number, without the bits above and below the field.
  abbrev pub covered : ℕ → ℕ → ℕ → ℕ → ℕ
  covered n i f s = message_value n i m % 2 ^ (8 * n - f) / 2 ^ s

  module _ (hm : IsBytes m) (i f s : ℕ) (hf : f ≤ 7) (hs : s ≤ 7) where
    abbrev x : ℕ
    x = get_or m i 0 % 2 ^ (8 - f)

    abbrev c : ℕ → ℕ
    c k = get_or m (i + k) 0

    x-lt : x < 2 ^ 8
    x-lt =
        let fits : x < 2 ^ (8 - f) = mod-lt (get_or m i 0) (pos_pow (8 - f)) in
        omega
          (arith, fits, pow-le-pow_right {n = 2} (omega arith) {i = 8 - f} {j = 8} (omega arith))

    first_masked :
        (n : ℕ)
        → message_value (suc n) i m % 2 ^ (8 * suc n - f)
          ≡ x * 2 ^ (8 * n) + message_value n (i + 1) m
    unfolding message_value
    first_masked n =
        let e : 8 * suc n - f ≡ 8 - f + 8 * n = omega arith in
        ap (λ t. (get_or m i 0 * 2 ^ (8 * n) + message_value n (i + 1) m) % 2 ^ t) e
        ∙ masked (8 - f) (8 * n) (get_or m i 0) (message_value n (i + 1) m)
            (message_value-lt m hm n (i + 1))

    chain-covered : (n : ℕ) → 1 ≤ n → n ≤ 5 → (n ≡ 5 → 8 ≤ f + s) → chain n i x s ≡ covered n i f s
    chain-covered zero low high wide = absurd (omega arith)
    chain-covered (suc zero) low high wide =
        ap (λ t. t / 2 ^ s) (unfold message_value in omega (arith, first_masked 0))
    chain-covered (suc (suc zero)) low high wide =
        ended s x (get_or m (i + 1) 0) (omega arith) (hm (i + 1))
        ∙ ap (λ t. t / 2 ^ s) (omega (arith, first_masked 1, tail1 (i + 1)))
    chain-covered (suc (suc (suc zero))) low high wide =
        three s x (get_or m (i + 1) 0) (get_or m (i + 2) 0) hs (hm (i + 1)) (hm (i + 2))
        ∙ ap (λ t. t / 2 ^ s) (omega (arith, first_masked 2, tail2 i))
    chain-covered (suc (suc (suc (suc zero)))) low high wide =
        ap
          (λ t.
            bit_or
              (bit_or (bit_or t (get_or m (i + 1) 0 * 2 ^ (16 - s)))
                (get_or m (i + 2) 0 * 2 ^ (8 - s)))
              (get_or m (i + 3) 0 / 2 ^ s))
          (u32_small (24 - s) x 8 x-lt (omega arith))
        ∙ four s x (get_or m (i + 1) 0) (get_or m (i + 2) 0) hs (hm (i + 1)) (hm (i + 2))
            (get_or m (i + 3) 0) (hm (i + 3))
        ∙ ap (λ t. t / 2 ^ s) (omega (arith, first_masked 3, tail3 i))
    chain-covered (suc (suc (suc (suc (suc zero))))) low high wide =
        ap₂
          (λ t u.
            bit_or (bit_or (bit_or (bit_or t u) (c 2 * 2 ^ (16 - s))) (c 3 * 2 ^ (8 - s)))
              (c 4 / 2 ^ s))
          (u32_small (32 - s) x (8 - f) (mod-lt (get_or m i 0) (pos_pow (8 - f)))
            (omega (arith, wide refl)))
          (u32_small (24 - s) (c 1) 8 (hm (i + 1)) (omega arith))
        ∙ five s x (c 1) (c 2) hs (hm (i + 1)) (hm (i + 2)) (c 3) (c 4) (hm (i + 3)) (hm (i + 4))
        ∙ ap (λ t. t / 2 ^ s) (omega (arith, first_masked 4, tail4 i))
    chain-covered (suc (suc (suc (suc (suc (suc n)))))) low high wide = absurd (omega arith)

mask_holds : ℕ → Bool
mask_holds f = 0xff >>> f == 2 ^ (8 - f) - 1

every_mask_holds : all_below 8 mask_holds ≡ true
unfolding all_below mask_holds
every_mask_holds = refl

first_byte : (d i : ℕ) → bit_and d (0xff >>> bit_and i 7) ≡ d % 2 ^ (8 - i % 8)
unfolding mask_holds
first_byte d i =
    let low : bit_and i 7 ≡ i % 8 = and_mask 3 i in
    let mask : 0xff / 2 ^ (i % 8) ≡ 2 ^ (8 - i % 8) - 1 =
      (==_iff (0xff / 2 ^ (i % 8)) (2 ^ (8 - i % 8) - 1)).0
        (all_below_sound 8 mask_holds (i % 8) every_mask_holds (omega arith)) in
    ap (λ t. bit_and d (0xff / 2 ^ t)) low ∙ ap (bit_and d) mask ∙ and_mask (8 - i % 8) d

-- Of a message of bytes and for a field of at most 32 bits, `getbits` reads the number that the bytes
-- of the field spell, first byte highest, without the bits before `first` in its first byte and the
-- bits after `last` in its last byte.
pub getbits-covered :
    (m : List ℕ) (first last : ℕ)
    → IsBytes m
    → 1 ≤ first
    → first ≤ last
    → last ≤ first + 31
    → getbits m first last
      ≡ covered m
          ((last - 1) / 8 - (first - 1) / 8 + 1)
          ((first - 1) / 8)
          ((first - 1) % 8)
          (7 - (last - 1) % 8)
getbits-covered m first last hm h1 h2 h3 =
    getbits-chain m first last
    ∙ ap₂ (λ t u. chain m n i t u) (first_byte (get_or m i 0) (first - 1))
        (ap (λ t. 7 - t) (and_mask 3 (last - 1)))
    ∙ chain-covered m hm i ((first - 1) % 8) (7 - (last - 1) % 8) (omega arith) (omega arith) n
        (omega arith) (omega arith) (λ e. omega arith)
  where
    i : ℕ
    i = (first - 1) / 8

    n : ℕ
    n = (last - 1) / 8 - (first - 1) / 8 + 1

-- A field of a message of bytes fits the bits that it takes.
getbits-lt :
    (m : List ℕ) (first last : ℕ)
    → IsBytes m
    → 1 ≤ first
    → first ≤ last
    → last ≤ first + 31
    → getbits m first last < 2 ^ (last - first + 1)
getbits-lt m first last hm h1 h2 h3 =
    let k = 8 * ((last - 1) / 8 - (first - 1) / 8 + 1) - (first - 1) % 8 in
    let s = 7 - (last - 1) % 8 in
    let v = message_value ((last - 1) / 8 - (first - 1) / 8 + 1) ((first - 1) / 8) m in
    let e : k ≡ last - first + 1 + s = omega arith in
    let below : v % 2 ^ k < 2 ^ (last - first + 1) * 2 ^ s =
      subst (λ (t : ℕ). v % 2 ^ k < t) (ap (λ t. 2 ^ t) e ∙ pow_add (last - first + 1) s)
        (mod-lt v (pos_pow k)) in
    subst (λ (t : ℕ). t < 2 ^ (last - first + 1)) (sym (getbits-covered m first last hm h1 h2 h3))
      ((div-lt_iff_lt-mul {k = 2 ^ s} {x = v % 2 ^ k} {y = 2 ^ (last - first + 1)} (pos_pow s)).1
        below)
