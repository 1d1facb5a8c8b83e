-- ===== src/ModeS/Decode/Outcome.antt =====
-- What `decodeModesMessage` accepts, and what it makes known.
use mathlib.Core.Bool.{false≢true}
use rbfeeder.Base.{ℕ, List, [], ◌∷◌, none, some, Bool, true, false, ◌&&◌, ◌||◌}
use rbfeeder.Base.{◌≡◌, refl, sym, ◌∙◌, ap, arith, inl, inr, length, ltb, leb, ◌==◌, if◌then◌else◌}
use rbfeeder.Base.{Bool-cases}
use rbfeeder.Base.Int.{pos, eq_ℤ}
use rbfeeder.IcaoFilter.Defs.{Filter}
use rbfeeder.ModeS.Bits.{getbits}
use rbfeeder.ModeS.Correct.{Settings, Correction, correct_message, is_short_pi_message}
use rbfeeder.ModeS.Correct.Buffers.{df-IsSame}
use rbfeeder.ModeS.Score.{
  ScoreRank, not_set, rank, is_all_zeros, score_correction, score_modes_message,
}
use rbfeeder.ModeS.Score.Junk.{IsAlike, message-IsAlike}
use rbfeeder.ModeS.Score.Ranks.{is_believed, score-accepted}
use rbfeeder.ModeS.Message.{Message, Header, Raw, Data}
use rbfeeder.ModeS.Decode.{
  judge, by_checksum, with_parity, with_interrogator, with_squitter, with_elm, corrected_header,
  Decoded, finish, decode_modes_message,
}
use rbfeeder.ModeS.Decode.Fields.{is_any}

-- The types that are decoded.
abbrev is_known_df : ℕ → Bool
is_known_df df =
    is_any (0 ∷ 4 ∷ 5 ∷ 16 ∷ []) df
    || (df == 11 || ((df == 17 || df == 18) || ((df == 20 || df == 21) || leb 24 df && leb df 31)))

believed-known :
    (settings : Settings) (filter : Filter) (c : Correction)
    → is_believed settings filter c ≡ true
    → is_known_df (getbits c.out 1 5) ≡ true
unfolding is_believed is_any
believed-known settings filter c h = ground (arith, h)

-- Of a chain of tests one holds, so that there is a result.
chosen :
    {A : Type 0} (a b c d e : Bool) (u v w x y : A)
    → (a || (b || (c || (d || e)))) ≡ true
    → (r : A) × ((if a
          then some u
          else if b
          then some v
          else if c
          then some w
          else if d
          then some x
          else if e
          then some y
          else none)
        ≡ some r)
chosen true b c d e u v w x y h = (u, refl)
chosen false true c d e u v w x y h = (v, refl)
chosen false false true d e u v w x y h = (w, refl)
chosen false false false true e u v w x y h = (x, refl)
chosen false false false false true u v w x y h = (y, refl)
chosen false false false false false u v w x y h = absurd (false≢true h)

by_checksum-known :
    (mm : Message)
    → is_known_df mm.header.msgtype ≡ true
    → (m : Message) × (by_checksum mm ≡ some m)
unfolding by_checksum
by_checksum-known mm h =
    let t = mm.header.msgtype in
    chosen (is_any (0 ∷ 4 ∷ 5 ∷ 16 ∷ []) t) (t == 11) (t == 17 || t == 18) (t == 20 || t == 21)
      (leb 24 t && leb t 31) (with_parity mm) (with_interrogator mm) (with_squitter mm)
      (with_parity mm) (with_elm mm) h

pub IsAlike-df : (c d : Correction) → IsAlike c d → getbits c.out 1 5 ≡ getbits d.out 1 5
unfolding is_short_pi_message
IsAlike-df c d h = elim h.out [
  | inl same ↦ ap (λ t. getbits t 1 5) same
  | inr short ↦ df-IsSame c.out d.out (short.1 0 (omega arith))
]

module _ (decode_comm_b : Header → Raw → Data → Data) where
  abbrev is_ok : Decoded decode_comm_b → Bool
  is_ok d = eq_ℤ d.value (pos 0)

  judge-ok :
      (filter : Filter) (s : ScoreRank) (mm m1 : Message)
      → (leb 11 (rank s) ≡ true → is_known_df m1.header.msgtype ≡ true)
      → eq_ℤ (judge decode_comm_b filter s mm m1).value (pos 0) ≡ leb 11 (rank s)
  unfolding judge finish
  judge-ok filter s mm m1 known = elim (Bool-cases (leb 11 (rank s))) [
    | inl high ↦
        let found = by_checksum-known m1 (known high) in
        let above : ltb (rank s) 4 ≡ false = ground (arith, high) in
        let above' : ltb (rank s) 11 ≡ false = ground (arith, high) in
        unfold rank in rw (above, above', found.1, high) refl
    | inr low ↦
        let below : ltb (rank s) 11 ≡ true = ground (arith, low) in
        elim (Bool-cases (ltb (rank s) 4)) [
          | inl bad ↦ unfold rank in rw (bad, low) refl
          | inr poor ↦ unfold rank in rw (poor, below, low) refl
        ]
  ]

  -- A run on a message that has not been scored.
  module _ (settings : Settings) (filter : Filter) (junk bytes : List ℕ) (mm : Message)
      (hb : length bytes ≡ 14) (hj : length junk ≡ 14) (hm : length mm.header.msg ≡ 14) where
    abbrev pub by_score : Correction
    by_score = correct_message settings bytes junk

    abbrev pub by_decoder : Correction
    by_decoder = correct_message settings bytes mm.header.msg

    abbrev pub judged : Message
    judged = record mm { header = corrected_header bytes by_decoder mm.header }

    pub same_run : IsAlike by_score by_decoder
    same_run = message-IsAlike bytes junk mm.header.msg hb hj hm settings

    pub accepted_is_believed :
        leb 11 (rank (score_correction settings filter by_score))
        ≡ is_believed settings filter by_score
    accepted_is_believed = unfold rank in score-accepted settings filter by_score

    believed-judged :
        is_believed settings filter by_score ≡ true → is_known_df judged.header.msgtype ≡ true
    unfolding corrected_header
    believed-judged h =
        ap is_known_df (sym (IsAlike-df by_score by_decoder same_run))
        ∙ believed-known settings filter by_score h

    pub run :
        is_all_zeros bytes ≡ false
        → decode_modes_message decode_comm_b settings filter not_set junk mm bytes
          ≡ judge decode_comm_b filter (score_correction settings filter by_score) mm judged
    unfolding decode_modes_message rank score_modes_message
    run hz = rw hz refl

    -- A message of 14 bytes that has not been scored, and whose first seven bytes are not all zero,
    -- is decoded exactly when its correction is believed; the two buffers have 14 bytes as well.
    pub decode-accepts :
        is_all_zeros bytes ≡ false
        → eq_ℤ
            (decode_modes_message decode_comm_b settings filter not_set junk mm bytes).value
            (pos 0)
          ≡ is_believed settings filter (correct_message settings bytes junk)
    decode-accepts hz =
        ap (λ t. eq_ℤ t.value (pos 0)) (run hz)
        ∙ judge-ok filter (score_correction settings filter by_score) mm judged
            (λ h. believed-judged (sym accepted_is_believed ∙ h))
        ∙ accepted_is_believed
