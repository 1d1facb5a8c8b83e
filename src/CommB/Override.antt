-- ===== src/CommB/Override.antt =====
-- The comment in `decodeBDS05`: its score overrides everything else.
use rbfeeder.Base.{
  ℕ, List, [], ◌∷◌, ◌++◌, Bool, true, false, some, ◌≡◌, refl, ◌∙◌, arith, take, not, ◌||◌, ltb,
  ◌==◌,
}
use rbfeeder.Base.Int.{ℤ, pos, ltb_ℤ, eq_ℤ, ◌≤ℤ◌}
use rbfeeder.ModeS.Message.{Header, Raw, Data, commb_airborne_position}
use rbfeeder.CommB.Reply.{Decoder, call, answer}
use rbfeeder.CommB.Registers.{with_format, decode_bds05, score_bds05}
use rbfeeder.CommB.Choice.{comm_b_decoders, decode_comm_b}
use rbfeeder.CommB.Best.{
  value, max_ℤ, score_in, best_from, winners, settle, only_best, search-only_best,
}
use rbfeeder.CommB.Bounds.{
  IsLow, score_empty_response-IsLow, score_bds10-IsLow, score_bds17-IsLow, score_bds20-IsLow,
  score_bds30-IsLow, score_bds40-IsLow, score_bds44-IsLow, score_bds50-IsLow, score_bds60-IsLow,
}

module _ (h : Header) (r : Raw) where
  data AllLow : List Decoder → Type 0 where
    none_left : AllLow []
    low : (e : Decoder) (ds : List Decoder) → IsLow (e.score_of h r) → AllLow ds → AllLow (e ∷ ds)

  score_in-le : (e : Decoder) → IsLow (e.score_of h r) → score_in h r e ≤ℤ pos 99
  unfolding score_in IsLow
  score_in-le e hl = hl

  max-low : (b c : ℤ) → b ≤ℤ pos 99 → c ≤ℤ pos 99 → max_ℤ b c ≤ℤ pos 99
  unfolding max_ℤ
  max-low b c hb hc = ground arith

  max-hundred : (b : ℤ) → b ≤ℤ pos 99 → max_ℤ b (pos 100) ≡ pos 100
  unfolding max_ℤ
  max-hundred b hb = rw (greater) refl
    where
      greater : ltb_ℤ b (pos 100) ≡ true
      greater = ground arith

  best_from-last :
      (ds : List Decoder) (e : Decoder) (b : ℤ)
      → AllLow ds
      → score_in h r e ≡ pos 100
      → b ≤ℤ pos 99
      → best_from h r b (ds ++ e ∷ []) ≡ pos 100
  unfolding best_from
  best_from-last [] e b _ he hb = rw he (max-hundred b hb)
  best_from-last (x ∷ ds) e b (low _ _ hx hs) he hb =
      best_from-last ds e (max_ℤ b (score_in h r x)) hs he
        (max-low b (score_in h r x) hb (score_in-le x hx))

  winners-last :
      (ds : List Decoder) (e : Decoder)
      → AllLow ds
      → score_in h r e ≡ pos 100
      → winners h r (pos 100) (ds ++ e ∷ []) ≡ e ∷ []
  unfolding winners
  winners-last [] e _ he = rw he refl
  winners-last (x ∷ ds) e (low _ _ hx hs) he =
      rw (not_hundred (score_in h r x) (score_in-le x hx)) (winners-last ds e hs he)
    where
      not_hundred : (c : ℤ) → c ≤ℤ pos 99 → eq_ℤ (pos 100) c ≡ false
      not_hundred c hc = ground arith

  only_best-last :
      (ds : List Decoder) (e : Decoder) (d : Data)
      → AllLow ds
      → score_in h r e ≡ pos 100
      → only_best h r (ds ++ e ∷ []) d ≡ (call e h r true d).mm
  unfolding only_best settle
  only_best-last ds e d hs he =
      rw (best_from-last ds e (pos 0) hs he (omega arith), winners-last ds e hs he) refl

not_guarded :
    (dr um corrected : ℕ)
    → dr ≡ 0
    → um ≡ 0
    → corrected ≡ 0
    → (not (dr == 0) || (not (um == 0) || ltb 0 corrected)) ≡ false
not_guarded dr um corrected hdr hum hc = ground arith

module _ (is_off_turn : ℤ → ℕ → ℤ → Bool) where
  others-AllLow : (h : Header) (r : Raw) → AllLow h r (take 9 (comm_b_decoders is_off_turn))
  others-AllLow h r = low _ _ (score_empty_response-IsLow r.mb) (
      low _ _ (score_bds10-IsLow r.mb) (
        low _ _ (score_bds20-IsLow r.mb) (
          low _ _ (score_bds30-IsLow r.mb) (
            low _ _ (score_bds17-IsLow r.mb) (
              low _ _ (score_bds40-IsLow r.mb) (
                low _ _ (score_bds50-IsLow is_off_turn r.mb) (
                  low _ _ (score_bds60-IsLow r.mb)
                    (low _ _ (score_bds44-IsLow r.mb) none_left))))))))

  -- Whatever the test of the turn rate, a reply without downlink request, utility message and corrected
  -- bits that decodeBDS05 recognises is stored as an airborne position, and as nothing else.
  pub airborne_position_overrides :
      (h : Header) (r : Raw) (d : Data)
      → r.dr ≡ 0
      → r.um ≡ 0
      → h.correctedbits ≡ 0
      → score_bds05 h.msgtype r.ac r.mb ≡ some (pos 100)
      → decode_comm_b is_off_turn h r d ≡ with_format commb_airborne_position d
  unfolding decode_comm_b
  airborne_position_overrides h r d hdr hum hc hs =
      rw (not_guarded r.dr r.um h.correctedbits hdr hum hc) (
        search-only_best h r (comm_b_decoders is_off_turn) d
        ∙ only_best-last h r (take 9 (comm_b_decoders is_off_turn)) decode_bds05 d
            (others-AllLow h r) (unfold score_in value in rw hs refl)
        ∙ (unfold call answer in rw hs refl))
