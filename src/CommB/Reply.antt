-- ===== src/CommB/Reply.antt =====
-- comm_b.c: the decoders and their scores.
use rbfeeder.Base.{
  ℕ, ◌+◌, List, [], ◌∷◌, Bool, true, false, not, ◌&&◌, if◌then◌else◌, Option, none, some,
}
use rbfeeder.Base.Int.{ℤ, pos, ltb_ℤ, ◌-ℤ◌}
use rbfeeder.ModeS.Message.{Header, Raw, Data}

-- A `CommBDecoderFn` in two parts: its score, with `none` for a `return 0` before the end, and what it
-- writes if it reaches the end and is to store.
pub record Decoder : Type 0 where
  pub score_of : Header → Raw → Option ℤ
  pub stored : Header → Raw → Data → Data

-- What a call returns, and the decoded data after it.
pub record Reply : Type 0 where
  pub score : ℤ
  pub mm : Data

unfoldable pub answer : Option ℤ → Bool → Data → Data → Reply
answer none store written d = record { score = pos 0; mm = d }
answer (some n) store written d = record { score = n; mm = if store then written else d }

-- `decoder(mm, store)`
unfoldable pub call : Decoder → Header → Raw → Bool → Data → Reply
call decoder h r store d = answer (decoder.score_of h r) store (decoder.stored h r d) d

-- What the parts of a decoder add to its score, unless one returns.
unfoldable pub add : ℕ → Option ℕ → Option ℕ
add n none = none
add n (some m) = some (n + m)

unfoldable pub total : List (Option ℕ) → Option ℕ
total [] = some 0
total (none ∷ parts) = none
total (some n ∷ parts) = add n (total parts)

-- A test that returns, or adds nothing.
unfoldable pub require : Bool → Option ℕ
require true = some 0
require false = none

-- A field with its status bit: `points` if it is there and plausible, 1 if it is not there and zero.
unfoldable pub field : Bool → Bool → Bool → ℕ → Option ℕ
field true true plausible points = none
field true false plausible points = if plausible then some points else none
field false true plausible points = some 1
field false false plausible points = none

-- The same for a field that may be zero.
unfoldable pub field_or_zero : Bool → Bool → Bool → ℕ → Option ℕ
field_or_zero true is_zero plausible points = if plausible then some points else none
field_or_zero false true plausible points = some 1
field_or_zero false false plausible points = none

-- The score less the penalties.
unfoldable pub less : Option ℕ → ℕ → Option ℤ
less none penalty = none
less (some n) penalty = some (pos n -ℤ pos penalty)

-- `lo <= n && n <= hi`
unfoldable pub within : ℤ → ℤ → ℤ → Bool
within lo hi n = not (ltb_ℤ n lo) && not (ltb_ℤ hi n)
