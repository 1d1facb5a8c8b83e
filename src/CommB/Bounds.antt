-- ===== src/CommB/Bounds.antt =====
-- The scores of comm_b.c: a position that `decodeBDS05` recognises overrides everything else.
use rbfeeder.Base.{
  ℕ, ◌+◌, ◌*◌, ◌≤◌, suc, length, get_or, List, [], ◌∷◌, Bool, true, false, not, ◌==◌, if◌then◌else◌,
  Option, none, some, ◌≡◌, refl, arith,
}
use rbfeeder.Base.Int.{ℤ, pos, negsuc, pos_part, ◌≤ℤ◌, ◌+ℤ◌, int_laws}
use rbfeeder.ModeS.Bits.{getbit, getbits}
use rbfeeder.ModeS.Squitter.Ident.{read_callsign, is_callsign_char}
use rbfeeder.CommB.Reply.{add, total, require, field, field_or_zero, less}
use rbfeeder.CommB.Registers.{
  if_set, capabilities, squitter_score, enhanced_score, callsign_score, base_score,
  score_empty_response, score_bds10, score_bds17, score_bds20, score_bds30,
}
use rbfeeder.CommB.Intent.{altitude_part, status_part, parts_bds40, penalty_bds40, score_bds40}
use rbfeeder.CommB.Turn.{speed_part, parts_bds50, score_bds50, speed_penalty, turn_penalty}
use rbfeeder.CommB.Speed.{rate_part, parts_bds60, score_bds60, rate_penalty}
use rbfeeder.CommB.Weather.{
  or_missing, wind_part, temperature_part, pressure_part, parts_bds44, last_resort,
  with_last_resort, score_bds44,
}
use rbfeeder.CommB.Best.{value}

points : Option ℕ → ℕ
points none = 0
points (some n) = n

sum_points : List (Option ℕ) → ℕ
sum_points [] = 0
sum_points (p ∷ ps) = points p + sum_points ps

points-add : (n : ℕ) (o : Option ℕ) → points (add n o) ≤ n + points o
unfolding points add
points-add n none = omega arith
points-add n (some m) = omega arith

total-le : (ps : List (Option ℕ)) → points (total ps) ≤ sum_points ps
unfolding total sum_points points
total-le [] = omega arith
total-le (none ∷ ps) = omega arith
total-le (some n ∷ ps) = omega (arith, points-add n (total ps), total-le ps)

require-le : (b : Bool) → points (require b) ≡ 0
unfolding points require
require-le true = refl
require-le false = refl

field-le : (v z p : Bool) (n : ℕ) → points (field v z p n) ≤ 1 + n
unfolding points field
field-le v z p n = ground arith

field_or_zero-le : (v z p : Bool) (n : ℕ) → points (field_or_zero v z p n) ≤ 1 + n
unfolding points field_or_zero
field_or_zero-le v z p n = ground arith

status_part-le : (v : Bool) (raw n : ℕ) → points (status_part v raw n) ≤ 1 + n
unfolding points status_part
status_part-le v raw n = ground arith

less-le : (o : Option ℕ) (p : ℕ) → value (less o p) ≤ℤ pos (points o)
unfolding value less points
less-le none p = omega arith
less-le (some n) p = omega int_laws

-- The greatest score but for `decodeBDS05`, and somewhat above.
unfoldable pub IsLow : Option ℤ → Type 0
IsLow o = value o ≤ℤ pos 99

pub score_bds40-IsLow : (msg : List ℕ) → IsLow (score_bds40 msg)
unfolding IsLow score_bds40 parts_bds40 altitude_part sum_points
score_bds40-IsLow msg = omega (
  arith,
  less-le (total (parts_bds40 msg)) (penalty_bds40 msg),
  total-le (parts_bds40 msg),
  require-le,
  field-le,
  status_part-le,
)

pub score_bds50-IsLow :
    (is_off_turn : ℤ → ℕ → ℤ → Bool) (msg : List ℕ) → IsLow (score_bds50 is_off_turn msg)
unfolding IsLow score_bds50 parts_bds50 speed_part sum_points
score_bds50-IsLow is_off_turn msg = omega (
  arith,
  less-le (total (parts_bds50 msg))
      (speed_penalty (getbit msg 24) (getbit msg 46) + turn_penalty is_off_turn msg),
  total-le (parts_bds50 msg),
  require-le,
  field-le,
  field_or_zero-le,
)

pub score_bds60-IsLow : (msg : List ℕ) → IsLow (score_bds60 msg)
unfolding IsLow score_bds60 parts_bds60 rate_part sum_points
score_bds60-IsLow msg = omega (
  arith,
  less-le (total (parts_bds60 msg)) (rate_penalty msg),
  total-le (parts_bds60 msg),
  require-le,
  field-le,
  field_or_zero-le,
)

wind_part-le : (n : ℕ) → points (wind_part n) ≤ 19
unfolding points wind_part
wind_part-le n = ground arith

temperature_part-le : (n : ℤ) → points (temperature_part n) ≤ 11
unfolding points temperature_part
temperature_part-le n = ground arith

pressure_part-le : (n : ℕ) → points (pressure_part n) ≤ 12
unfolding points pressure_part
pressure_part-le n = ground arith

or_missing-le : (v : Bool) (o : Option ℕ) → points (or_missing v o) ≤ 1 + points o
unfolding points or_missing
or_missing-le true o = omega arith
or_missing-le false o = omega arith

last_resort-le :
    (msg : List ℕ) (o : Option ℕ) → value (with_last_resort msg o) ≤ℤ pos (1 + points o)
unfolding value with_last_resort last_resort points
last_resort-le msg none = omega arith
last_resort-le msg (some n) = ground arith

pub score_bds44-IsLow : (msg : List ℕ) → IsLow (score_bds44 msg)
unfolding IsLow score_bds44 parts_bds44 sum_points points
score_bds44-IsLow msg = omega (
  arith,
  last_resort-le msg (total (parts_bds44 msg)),
  total-le (parts_bds44 msg),
  require-le,
  or_missing-le,
  wind_part-le,
  temperature_part-le,
  pressure_part-le,
)

pub score_empty_response-IsLow : (msg : List ℕ) → IsLow (score_empty_response msg)
unfolding IsLow score_empty_response value
score_empty_response-IsLow msg = ground arith

pub score_bds10-IsLow : (msg : List ℕ) → IsLow (score_bds10 msg)
unfolding IsLow score_bds10 value
score_bds10-IsLow msg = ground arith

pub score_bds30-IsLow : (msg : List ℕ) → IsLow (score_bds30 msg)
unfolding IsLow score_bds30 value
score_bds30-IsLow msg = ground arith

callsign_score-le : (cs : List ℕ) → points (callsign_score cs) ≤ 6 * length cs
unfolding callsign_score points
callsign_score-le [] = omega arith
callsign_score-le (c ∷ cs) =
    elim (is_callsign_char c)
      as (λ t.
        points
          (if t then add 6 (callsign_score cs) else if c == 64 then callsign_score cs else none)
        ≤ 6 * suc (length cs)) [
          | true ↦ omega (arith, callsign_score-le cs, points-add 6 (callsign_score cs))
          | false ↦
              elim (c == 64)
                as (λ t. points (if t then callsign_score cs else none) ≤ 6 * suc (length cs)) [
                  | true ↦ omega (arith, callsign_score-le cs)
                  | false ↦ omega arith
                ]
        ]

base_score-le : (o : Option ℕ) → value (base_score o) ≤ℤ pos (8 + points o)
unfolding value base_score points
base_score-le none = omega arith
base_score-le (some n) = omega arith

pub score_bds20-IsLow : (msg : List ℕ) → IsLow (score_bds20 msg)
unfolding IsLow score_bds20 value read_callsign
score_bds20-IsLow msg =
    elim (get_or msg 0 0 == 0x20)
      as (λ t.
        value (if not t then none else base_score (callsign_score (read_callsign msg))) ≤ℤ pos 99) [
          | true ↦ omega (
            arith,
            base_score-le (callsign_score (read_callsign msg)),
            callsign_score-le (read_callsign msg),
          )
          | false ↦ omega arith
        ]

if_set-le : (msg : List ℕ) (n : ℕ) (a b : ℤ) → if_set msg n a b ≤ℤ pos (pos_part a + pos_part b)
unfolding if_set
if_set-le msg n a b = ground arith

squitter_score-le : (b1 b2 b3 b4 b5 b6 : Bool) → squitter_score b1 b2 b3 b4 b5 b6 ≤ℤ pos 6
unfolding squitter_score
squitter_score-le b1 b2 b3 b4 b5 b6 = ground arith

enhanced_score-le : (b16 b24 b9 : Bool) → enhanced_score b16 b24 b9 ≤ℤ pos 3
unfolding enhanced_score
enhanced_score-le b16 b24 b9 = ground arith

capabilities-le : (msg : List ℕ) → capabilities msg ≤ℤ pos 1
unfolding capabilities
capabilities-le msg = omega (
  int_laws,
  if_set-le msg 7 (pos 1) (negsuc 1),
  if_set-le msg 10 (negsuc 1) (pos 0),
  if_set-le msg 11 (negsuc 1) (pos 0),
  if_set-le msg 12 (negsuc 1) (pos 0),
  if_set-le msg 13 (negsuc 0) (pos 0),
  if_set-le msg 14 (negsuc 0) (pos 0),
  if_set-le msg 20 (negsuc 1) (pos 0),
  if_set-le msg 21 (negsuc 1) (pos 0),
  if_set-le msg 22 (negsuc 1) (pos 0),
)

pub score_bds17-IsLow : (msg : List ℕ) → IsLow (score_bds17 msg)
unfolding IsLow score_bds17 value
score_bds17-IsLow msg =
    elim (getbits msg 25 56 == 0)
      as (λ t.
        value (
          if not t
          then none
          else some (
              capabilities msg
              +ℤ squitter_score (getbit msg 1 == 1) (getbit msg 2 == 1) (getbit msg 3 == 1)
                  (getbit msg 4 == 1) (getbit msg 5 == 1) (getbit msg 6 == 1)
              +ℤ enhanced_score (getbit msg 16 == 1) (getbit msg 24 == 1) (getbit msg 9 == 1)))
        ≤ℤ pos 99) [
          | true ↦ omega (int_laws, capabilities-le msg, squitter_score-le, enhanced_score-le)
          | false ↦ omega arith
        ]
