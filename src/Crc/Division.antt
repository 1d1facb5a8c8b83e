-- ===== src/Crc/Division.antt =====
-- The checksum as a remainder: a message is a polynomial over GF(2), its first bit the highest
-- coefficient, and `modesChecksum` is what its division by the generator leaves.
mod Rounds
use Rounds.{reduce-xor, reduce_idle, reduce_eight, checksum_round-lt}
use native.Mathlib.Nat.{mul_assoc}
use rbfeeder.Base.{ℕ, zero, suc, ◌+◌, ◌-◌, ◌*◌, ◌/◌, ◌^◌, ◌<◌, ◌≤◌, bit_xor, List}
use rbfeeder.Base.{◌≡◌, refl, sym, ◌∙◌, ap, ap₂, arith, get_or, ◌<<<◌}
use rbfeeder.Base.Bits.Xor.{xor-mul, xor_assoc, xor-lt, zero-xor}
use rbfeeder.Base.Bits.Fields.{xor_fields, pow_add}
use rbfeeder.Crc.Checksum.{checksum_round, checksum_loop, modes_checksum}
use rbfeeder.Crc.Linear.{IsBytes}
unfoldable pub use Rounds.{generator, reduce}

-- The number that `left` bytes from position `i` on spell, the first byte highest.
unfoldable pub message_value : ℕ → ℕ → List ℕ → ℕ
message_value zero i m = 0
message_value (suc left) i m = get_or m i 0 * 2 ^ (8 * left) + message_value left (i + 1) m

module _ (m : List ℕ) (hm : IsBytes m) where
  pub message_value-lt : (left i : ℕ) → message_value left i m < 2 ^ (8 * left)
  unfolding message_value
  message_value-lt zero i = omega arith
  message_value-lt (suc left) i =
      let e : 8 * suc left ≡ 8 + 8 * left = omega arith in
      rw (e, pow_add) (grind (arith, message_value-lt left (i + 1), hm i))

  -- The last three bytes are added as they stand.
  abbrev finish : ℕ → ℕ → ℕ
  finish rem j =
      bit_xor (bit_xor (bit_xor rem (get_or m j 0 <<< 16)) (get_or m (j + 1) 0 <<< 8))
        (get_or m (j + 2) 0)

  finish_lem : (rem j : ℕ) → finish rem j ≡ bit_xor rem (message_value 3 j m)
  unfolding message_value
  finish_lem rem j =
      xor_assoc (bit_xor rem (a * 2 ^ 16)) (b * 2 ^ 8) c
      ∙ xor_assoc rem (a * 2 ^ 16) (bit_xor (b * 2 ^ 8) c)
      ∙ ap (bit_xor rem) (
          ap (bit_xor (a * 2 ^ 16)) (xor_fields 8 b c (hm (j + 2)))
          ∙ xor_fields 16 a (b * 2 ^ 8 + c) (omega (arith, hm (j + 1), hm (j + 2)))
          ∙ spelled)
    where
      a : ℕ
      a = get_or m j 0

      b : ℕ
      b = get_or m (j + 1) 0

      c : ℕ
      c = get_or m (j + 2) 0

      spelled : a * 2 ^ 16 + (b * 2 ^ 8 + c) ≡ message_value 3 j m
      spelled =
          let e : j + 1 + 1 ≡ j + 2 = omega arith in omega (arith, ap (λ (t : ℕ). get_or m t 0) e)

  loop_reduce :
      (left i r : ℕ)
      → r < 2 ^ 24
      → finish (checksum_loop left i r m) (i + left)
        ≡ reduce (8 * left) (bit_xor (r * 2 ^ (8 * left)) (message_value (left + 3) i m))
  unfolding checksum_loop reduce message_value
  loop_reduce zero i r h =
      let e : i + 0 ≡ i = omega arith in
      let one : r * 1 ≡ r = omega arith in
      ap (finish r) e ∙ finish_lem r i ∙ ap (λ t. bit_xor t (message_value 3 i m)) (sym one)
  loop_reduce (suc left) i r h =
      ap (finish (checksum_loop left (i + 1) round m)) next
      ∙ loop_reduce left (i + 1) round (checksum_round-lt r byte (hm i))
      ∙ reduce-xor k (round * 2 ^ k) rest
      ∙ ap₂ bit_xor (sym (reduce_eight k r byte h (hm i)))
          (sym (reduce_idle 8 k rest (rw (pow_add 24 k) rest-lt)))
      ∙ sym (reduce-xor (8 + k) (bit_xor r (byte * 2 ^ 16) * 2 ^ (8 + k)) rest)
      ∙ ap (reduce (8 + k)) (sym taken_apart)
      ∙ ap (λ t. reduce t (bit_xor (r * 2 ^ t) (message_value (suc left + 3) i m))) eight_more
    where
      k : ℕ
      k = 8 * left

      byte : ℕ
      byte = get_or m i 0

      round : ℕ
      round = checksum_round r byte

      rest : ℕ
      rest = message_value (left + 3) (i + 1) m

      next : i + suc left ≡ i + 1 + left
      next = omega arith

      eight_more : 8 + k ≡ 8 * suc left
      eight_more = omega arith

      rest-lt : rest < 2 ^ 24 * 2 ^ k
      rest-lt =
          let e : 8 * (left + 3) ≡ 24 + k = omega arith in
          omega (arith, message_value-lt (left + 3) (i + 1), ap (λ (t : ℕ). 2 ^ t) e, pow_add 24 k)

      placed : byte * 2 ^ (8 * (left + 3)) ≡ byte * 2 ^ 16 * 2 ^ (8 + k)
      placed =
          let e : 8 * (left + 3) ≡ 16 + (8 + k) = omega arith in
          ap (λ t. byte * 2 ^ t) e
          ∙ ap (λ t. byte * t) (pow_add 16 (8 + k))
          ∙ sym (mul_assoc byte (2 ^ 16) (2 ^ (8 + k)))

      spelled : message_value (suc left + 3) i m ≡ bit_xor (byte * 2 ^ 16 * 2 ^ (8 + k)) rest
      spelled =
          let e : suc left + 3 ≡ suc (left + 3) = omega arith in
          ap (λ t. message_value t i m) e
          ∙ sym (xor_fields (8 * (left + 3)) byte rest (message_value-lt (left + 3) (i + 1)))
          ∙ ap (λ t. bit_xor t rest) placed

      taken_apart :
          bit_xor (r * 2 ^ (8 + k)) (message_value (suc left + 3) i m)
          ≡ bit_xor (bit_xor r (byte * 2 ^ 16) * 2 ^ (8 + k)) rest
      taken_apart =
          ap (bit_xor (r * 2 ^ (8 + k))) spelled
          ∙ sym (xor_assoc (r * 2 ^ (8 + k)) (byte * 2 ^ 16 * 2 ^ (8 + k)) rest)
          ∙ ap (λ t. bit_xor t rest) (xor-mul (8 + k) r (byte * 2 ^ 16))

-- A message of `n` bytes, `n` at least 3: `modesChecksum` is the remainder of its polynomial.
pub checksum-reduce :
    (m : List ℕ) (n : ℕ)
    → IsBytes m
    → 3 ≤ n
    → modes_checksum m (8 * n) ≡ reduce (8 * n - 24) (message_value n 0 m)
unfolding modes_checksum
checksum-reduce m n hm h =
    let bytes : 8 * n / 8 ≡ n = omega arith in
    let second : n - 2 ≡ n - 3 + 1 = omega arith in
    let third : n - 1 ≡ n - 3 + 2 = omega arith in
    let start : n - 3 ≡ 0 + (n - 3) = omega arith in
    let whole : n - 3 + 3 ≡ n = omega arith in
    let nothing : 0 * 2 ^ (8 * (n - 3)) ≡ 0 = omega arith in
    let steps : 8 * (n - 3) ≡ 8 * n - 24 = omega arith in
    rw (bytes, second, third)
      (ap (finish m hm (checksum_loop (n - 3) 0 0 m)) start
        ∙ loop_reduce m hm (n - 3) 0 0 (omega arith)
        ∙ ap (λ t. reduce (8 * (n - 3)) (bit_xor t (message_value (n - 3 + 3) 0 m))) nothing
        ∙ ap (reduce (8 * (n - 3))) (zero-xor (message_value (n - 3 + 3) 0 m))
        ∙ ap₂ (λ s t. reduce s (message_value t 0 m)) steps whole)
