-- ===== src/CommB/Choice.antt =====
-- comm_b.c: `decodeCommB`.
use rbfeeder.Base.{
  ℕ, List, [], ◌∷◌, Bool, true, false, not, ◌||◌, ltb, ◌==◌, if◌then◌else◌, Option, none, some,
}
use rbfeeder.Base.Int.{ℤ, pos, ltb_ℤ, eq_ℤ}
use rbfeeder.ModeS.Message.{Header, Raw, Data, commb_unknown, commb_ambiguous, commb_not_decoded}
use rbfeeder.CommB.Reply.{Decoder, Reply, call}
use rbfeeder.CommB.Registers.{
  with_format, decode_empty_response, decode_bds10, decode_bds17, decode_bds20, decode_bds30,
  decode_bds05,
}
use rbfeeder.CommB.Intent.{decode_bds40}
use rbfeeder.CommB.Turn.{decode_bds50}
use rbfeeder.CommB.Speed.{decode_bds60}
use rbfeeder.CommB.Weather.{decode_bds44}

-- The local variables of the loop, and the decoded data.
pub record Search : Type 0 where
  pub best_score : ℤ
  pub best_decoder : Option Decoder
  pub ambiguous : Bool
  pub mm : Data

-- One round.
unfoldable pub compare_score : Decoder → Reply → Search → Search
compare_score decoder reply s =
    if ltb_ℤ s.best_score reply.score
    then record {
      best_score = reply.score;
      best_decoder = some decoder;
      ambiguous = false;
      mm = reply.mm;
    }
    else if eq_ℤ reply.score s.best_score
    then record s { ambiguous = true; mm = reply.mm }
    else record s { mm = reply.mm }

unfoldable pub try_all : Header → Raw → List Decoder → Search → Search
try_all h r [] s = s
try_all h r (decoder ∷ decoders) s =
    try_all h r decoders (compare_score decoder (call decoder h r false s.mm) s)

-- After the loop.
unfoldable pub conclude : Header → Raw → Bool → Option Decoder → Data → Data
conclude h r ambiguous none d = with_format commb_unknown d
conclude h r ambiguous (some decoder) d =
    if ambiguous then with_format commb_ambiguous d else (call decoder h r true d).mm

unfoldable pub search : Header → Raw → List Decoder → Data → Data
search h r decoders d =
    let s =
      try_all h r decoders
        record { best_score = pos 0; best_decoder = none; ambiguous = false; mm = d } in
    conclude h r s.ambiguous s.best_decoder s.mm

module _ (is_off_turn : ℤ → ℕ → ℤ → Bool) where
  -- `comm_b_decoders`
  abbrev pub comm_b_decoders : List Decoder
  comm_b_decoders =
      decode_empty_response
      ∷ decode_bds10
      ∷ decode_bds20
      ∷ decode_bds30
      ∷ decode_bds17
      ∷ decode_bds40
      ∷ decode_bds50 is_off_turn
      ∷ decode_bds60
      ∷ decode_bds44
      ∷ decode_bds05
      ∷ []

  -- `decodeCommB`
  unfoldable pub decode_comm_b : Header → Raw → Data → Data
  decode_comm_b h r d =
      if not (r.dr == 0) || (not (r.um == 0) || ltb 0 h.correctedbits)
      then with_format commb_not_decoded d
      else search h r comm_b_decoders d
