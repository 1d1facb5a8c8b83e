-- ===== src/ModeS/Decode/Known.antt =====
-- Which messages make an address known to the filter.
use mathlib.Core.Bool.{false≢true}
use rbfeeder.Base.{ℕ, ◌≤◌, List, [], ◌∷◌, Option, none, some, Bool, true, false, ◌&&◌, ◌||◌}
use rbfeeder.Base.{◌≡◌, refl, sym, ◌∙◌, ap, arith, ◌⊎◌, inl, inr, length, ltb, leb, ◌==◌}
use rbfeeder.Base.{Bool-cases, ==_iff, some_injective}
use rbfeeder.Base.Int.{ℤ, pos, negsuc, pos_part}
use rbfeeder.IcaoFilter.Defs.{Filter}
use rbfeeder.ModeS.Bits.{getbits}
use rbfeeder.ModeS.Correct.{Settings, Correction, correct_message}
use rbfeeder.ModeS.Correct.Valid.{IsBuffer, IsValid, correct_message-IsOutcome}
use rbfeeder.ModeS.Score.{
  ScoreRank, not_set, all_zeros, rank, is_all_zeros, score_correction, score_modes_message,
}
use rbfeeder.ModeS.Score.Junk.{IsAlike}
use rbfeeder.ModeS.Score.Ranks.{few, is_believed}
use rbfeeder.ModeS.Message.{Message, Header, Raw, Data}
use rbfeeder.ModeS.Decode.{
  judge, by_checksum, with_parity, with_interrogator, with_squitter, with_elm, corrected_header,
  decode_fields, mark_known, finish, decode_modes_message,
}
use rbfeeder.ModeS.Decode.Fields.{is_any}
use rbfeeder.ModeS.Decode.Keeps.{core, fields-core}
use rbfeeder.ModeS.Decode.Outcome.{
  IsAlike-df, by_score, judged, same_run, accepted_is_believed, run,
}

-- DF11, DF17 and DF18.
abbrev is_squitter : ℕ → Bool
is_squitter t = t == 17 || (t == 11 || t == 18)

few_mono : (m n : ℕ) (c : ℤ) → m ≤ n → few m c ≡ true → few n c ≡ true
unfolding few
few_mono m n (pos k) h e = ground arith
few_mono m n (negsuc k) h e = absurd (false≢true e)

believed-few :
    (settings : Settings) (filter : Filter) (c : Correction)
    → is_believed settings filter c ≡ true
    → is_squitter (getbits c.out 1 5) ≡ true
    → few 2 c.corrections ≡ true
unfolding is_believed
believed-few settings filter c h sq = ground (
  arith,
  h,
  sq,
  few_mono 0 2 c.corrections (omega arith),
  few_mono 1 2 c.corrections (omega arith),
)

-- Only a message of those types without corrections marks an address.
mark_known-cases :
    (decode_comm_b : Header → Raw → Data → Data) (mm : Message) (filter : Filter)
    → (mark_known decode_comm_b mm filter ≡ filter)
      ⊎ ((mm.header.correctedbits ≡ 0) × (is_squitter mm.header.msgtype ≡ true))
unfolding mark_known
mark_known-cases decode_comm_b mm filter = elim (Bool-cases (mm.header.correctedbits == 0)) [
  | inr wrong ↦ inl (rw wrong refl)
  | inl clean ↦ elim (Bool-cases (is_squitter mm.header.msgtype)) [
    | inl sq ↦ inr ((==_iff mm.header.correctedbits 0).0 clean, sq)
    | inr other ↦
        let n17 : (mm.header.msgtype == 17) ≡ false = ground (arith, other) in
        let n11 : (mm.header.msgtype == 11) ≡ false = ground (arith, other) in
        let n18 : (mm.header.msgtype == 18) ≡ false = ground (arith, other) in
        inl (rw (clean, n17, n11, n18) refl)
  ]
]

by_checksum-core :
    (mm : Message) {m : Message}
    → by_checksum mm ≡ some m
    → is_squitter m.header.msgtype ≡ true
    → core m.header ≡ core mm.header
unfolding by_checksum with_parity with_interrogator with_squitter with_elm
by_checksum-core mm {m} found sq = elim (Bool-cases (is_any (0 ∷ 4 ∷ 5 ∷ 16 ∷ []) t)) [
  | inl a ↦ ap (λ d. core d.header) (sym (some_injective (with_parity mm) m (rw a at found)))
  | inr a ↦ elim (Bool-cases (t == 11)) [
    | inl b ↦
        ap (λ d. core d.header) (sym (some_injective (with_interrogator mm) m (rw (a, b) at found)))
    | inr b ↦ elim (Bool-cases (t == 17 || t == 18)) [
      | inl c ↦
          ap (λ d. core d.header)
            (sym (some_injective (with_squitter mm) m (rw (a, b, c) at found)))
      | inr c ↦ elim (Bool-cases (t == 20 || t == 21)) [
        | inl d ↦
            ap (λ d. core d.header)
              (sym (some_injective (with_parity mm) m (rw (a, b, c, d) at found)))
        | inr d ↦ elim (Bool-cases (leb 24 t && leb t 31)) [
          | inl e ↦
              let same : with_elm mm ≡ m =
                some_injective (with_elm mm) m (rw (a, b, c, d, e) at found) in
              absurd (false≢true (ap (λ x. is_squitter x.header.msgtype) same ∙ sq))
          | inr e ↦ let nothing : none ≡ some m = rw (a, b, c, d, e) at found in cc
        ]
      ]
    ]
  ]
]
  where
    t : ℕ
    t = mm.header.msgtype

module _ (decode_comm_b : Header → Raw → Data → Data) where
  judge-rejected :
      (filter : Filter) (s : ScoreRank) (mm m1 : Message)
      → leb 11 (rank s) ≡ false
      → (judge decode_comm_b filter s mm m1).filter ≡ filter
  unfolding judge rank
  judge-rejected filter s mm m1 low =
      let below : ltb (rank s) 11 ≡ true = ground (arith, low) in
      elim (Bool-cases (ltb (rank s) 4)) [
        | inl bad ↦ rw bad refl
        | inr poor ↦ rw (poor, below) refl
      ]

  finish-cases :
      (filter : Filter) (mm : Message) (o : Option Message)
      → by_checksum mm ≡ o
      → ((finish decode_comm_b filter mm o).filter ≡ filter)
        ⊎ ((mm.header.correctedbits ≡ 0) × (is_squitter mm.header.msgtype ≡ true))
  unfolding finish
  finish-cases filter mm none found = inl refl
  finish-cases filter mm (some m) found =
      elim (mark_known-cases decode_comm_b (decode_fields decode_comm_b m) filter) [
        | inl same ↦ inl same
        | inr (clean, sq) ↦
            let kept : core (decode_fields decode_comm_b m).header ≡ core m.header =
              fields-core decode_comm_b m in
            let sq' : is_squitter m.header.msgtype ≡ true =
              ap (λ c. is_squitter c.1) (sym kept) ∙ sq in
            let before : core m.header ≡ core mm.header = by_checksum-core mm found sq' in
            inr (
              ap (λ c. c.2) (sym before) ∙ ap (λ c. c.2) (sym kept) ∙ clean,
              ap (λ c. is_squitter c.1) (sym before) ∙ sq',
            )
      ]

  judge-cases :
      (filter : Filter) (s : ScoreRank) (mm m1 : Message)
      → ((judge decode_comm_b filter s mm m1).filter ≡ filter)
        ⊎ ((leb 11 (rank s) ≡ true)
            × (m1.header.correctedbits ≡ 0)
            × (is_squitter m1.header.msgtype ≡ true))
  judge-cases filter s mm m1 = elim (Bool-cases (leb 11 (rank s))) [
    | inr low ↦ inl (judge-rejected filter s mm m1 low)
    | inl high ↦
        let above : ltb (rank s) 4 ≡ false = ground (arith, high) in
        let above' : ltb (rank s) 11 ≡ false = ground (arith, high) in
        elim (finish-cases filter m1 (by_checksum m1) refl) [
          | inl same ↦ inl (unfold judge rank in rw (above, above') same)
          | inr found ↦ inr (high, found.0, found.1)
        ]
  ]

  -- The filter is changed by a message that has not been scored only where the correction found nothing
  -- to correct and the message, a DF17 or DF18 with checksum 0 or a DF11 with an interrogator's code at
  -- most, is as it was sent.
  pub decode-filter :
      (settings : Settings) (filter : Filter) (junk bytes : List ℕ) (mm : Message)
      → IsBuffer bytes
      → length junk ≡ 14
      → IsBuffer mm.header.msg
      → let c = correct_message settings bytes mm.header.msg in
        ((decode_modes_message decode_comm_b settings filter not_set junk mm bytes).filter ≡ filter)
        ⊎ ((c.corrections ≡ pos 0) × IsValid c.out)
  unfolding few
  decode-filter settings filter junk bytes mm hb hj hm = elim (Bool-cases (is_all_zeros bytes)) [
    | inl zeros ↦ inl (
        unfold decode_modes_message score_modes_message rank in
        rw zeros (judge-rejected filter all_zeros mm m1 refl))
    | inr live ↦ elim (judge-cases filter (score_correction settings filter c) mm m1) [
      | inl same ↦ inl (ap (λ d. d.filter) (started live) ∙ same)
      | inr (high, clean, sq) ↦ inr (good high clean sq)
    ]
  ]
    where
      c : Correction
      c = by_score decode_comm_b settings filter junk bytes mm hb.size hj hm.size

      m1 : Message
      m1 = judged decode_comm_b settings filter junk bytes mm hb.size hj hm.size

      started :
          is_all_zeros bytes ≡ false
          → decode_modes_message decode_comm_b settings filter not_set junk mm bytes
            ≡ judge decode_comm_b filter (score_correction settings filter c) mm m1
      started = run decode_comm_b settings filter junk bytes mm hb.size hj hm.size

      d : Correction
      d = correct_message settings bytes mm.header.msg

      alike : IsAlike c d
      alike = same_run decode_comm_b settings filter junk bytes mm hb.size hj hm.size

      good :
          leb 11 (rank (score_correction settings filter c)) ≡ true
          → m1.header.correctedbits ≡ 0
          → is_squitter m1.header.msgtype ≡ true
          → (d.corrections ≡ pos 0) × IsValid d.out
      good high clean sq = elim (correct_message-IsOutcome settings bytes mm.header.msg hb hm) [
        | inl failed ↦ absurd (false≢true (ap (few 2) (sym failed.0) ∙ counted))
        | inr found ↦
            let none_left : found.0 ≡ 0 =
              ap pos_part (sym found.2) ∙ (unfold corrected_header in clean) in
            (found.2 ∙ ap pos none_left, found.3)
      ]
        where
          counted : few 2 d.corrections ≡ true
          counted =
              ap (few 2) (sym alike.corrections)
              ∙ believed-few settings filter c
                  (sym (
                      accepted_is_believed decode_comm_b settings filter junk bytes mm hb.size hj
                        hm.size)
                    ∙ high)
                  (ap is_squitter (IsAlike-df c d alike) ∙ (unfold corrected_header in sq))
