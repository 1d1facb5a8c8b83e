-- ===== src/CommB/Plausible/Outcome.antt =====
-- `decodeCommB` keeps the decoded data plausible.
use rbfeeder.Base.{
  ℕ, List, [], ◌∷◌, Bool, true, false, not, ◌||◌, ltb, ◌==◌, if◌then◌else◌, Option, none, some,
  Option-cases, ◌≡◌, refl, arith, inl, inr,
}
use rbfeeder.Base.Int.{ℤ, pos, eq_ℤ}
use rbfeeder.ModeS.Message.{
  Header, Raw, Data, CommBFormat, commb_unknown, commb_ambiguous, commb_not_decoded,
}
use rbfeeder.CommB.Reply.{Decoder, call, answer, total}
use rbfeeder.CommB.Registers.{with_format, store_bds20}
use rbfeeder.CommB.Intent.{parts_bds40, score_bds40, store_bds40, penalty_bds40, decode_bds40}
use rbfeeder.CommB.Turn.{parts_bds50, score_bds50, store_bds50, decode_bds50}
use rbfeeder.CommB.Speed.{parts_bds60, score_bds60, store_bds60, rate_penalty, decode_bds60}
use rbfeeder.CommB.Weather.{parts_bds44, score_bds44, store_bds44, with_last_resort, decode_bds44}
use rbfeeder.CommB.Choice.{comm_b_decoders, search, decode_comm_b}
use rbfeeder.CommB.Best.{winners, settle, only_best, search-only_best, score_in, best_from}
use rbfeeder.CommB.Plausible.{
  is_plausible_nav, is_plausible_motion, is_plausible_weather, is_plausible, total-less,
}
use rbfeeder.CommB.Plausible.Altitudes.{store_bds40-plausible}
use rbfeeder.CommB.Plausible.Rates.{store_bds50-plausible, store_bds60-plausible}
use rbfeeder.CommB.Plausible.Reports.{store_bds44-plausible}

-- The three parts of the test.
parts-plausible :
    (d : Data)
    → is_plausible_nav d.nav ≡ true
    → is_plausible_motion d.motion ≡ true
    → is_plausible_weather d.weather ≡ true
    → is_plausible d ≡ true
unfolding is_plausible
parts-plausible d hn hm hw = rw (hn, hm, hw) refl

nav_part : (d : Data) → is_plausible d ≡ true → is_plausible_nav d.nav ≡ true
unfolding is_plausible
nav_part d h = ground arith

motion_part : (d : Data) → is_plausible d ≡ true → is_plausible_motion d.motion ≡ true
unfolding is_plausible
motion_part d h = ground arith

weather_part : (d : Data) → is_plausible d ≡ true → is_plausible_weather d.weather ≡ true
unfolding is_plausible
weather_part d h = ground arith

with_format-plausible :
    (f : CommBFormat) (d : Data) → is_plausible d ≡ true → is_plausible (with_format f d) ≡ true
unfolding with_format is_plausible
with_format-plausible f d h = h

store_bds20-plausible :
    (msg : List ℕ) (d : Data) → is_plausible d ≡ true → is_plausible (store_bds20 msg d) ≡ true
unfolding store_bds20 with_format is_plausible
store_bds20-plausible msg d h = ground arith

-- A decoder that stores plausible data wherever it has a score.
call-plausible :
    (e : Decoder) (h : Header) (r : Raw) (d : Data)
    → ((n : ℤ) → e.score_of h r ≡ some n → is_plausible (e.stored h r d) ≡ true)
    → is_plausible d ≡ true
    → is_plausible (call e h r true d).mm ≡ true
unfolding call answer
call-plausible e h r d ok hd = elim (Option-cases (e.score_of h r)) [
  | inl early ↦ rw early hd
  | inr scored ↦ rw scored.1 (ok scored.0 scored.1)
]

with_last_resort-some :
    (msg : List ℕ) (o : Option ℕ) (n : ℤ) → with_last_resort msg o ≡ some n → (m : ℕ) × (o ≡ some m)
unfolding with_last_resort
with_last_resort-some msg none n h = ground arith
with_last_resort-some msg (some m) n h = (m, refl)

bds40-plausible :
    (msg : List ℕ) (d : Data) (n : ℤ)
    → score_bds40 msg ≡ some n
    → is_plausible d ≡ true
    → is_plausible (store_bds40 msg d) ≡ true
unfolding score_bds40 store_bds40
bds40-plausible msg d n hs h =
    let scored = total-less (total (parts_bds40 msg)) (penalty_bds40 msg) n hs in
    parts-plausible (store_bds40 msg d)
      (store_bds40-plausible msg d.nav scored.0 scored.1 (nav_part d h)) (motion_part d h)
      (weather_part d h)

bds50-plausible :
    (is_off_turn : ℤ → ℕ → ℤ → Bool) (msg : List ℕ) (d : Data) (n : ℤ)
    → score_bds50 is_off_turn msg ≡ some n
    → is_plausible d ≡ true
    → is_plausible (store_bds50 msg d) ≡ true
unfolding score_bds50 store_bds50
bds50-plausible is_off_turn msg d n hs h =
    let scored = total-less (total (parts_bds50 msg)) _ n hs in
    parts-plausible (store_bds50 msg d) (nav_part d h)
      (store_bds50-plausible msg d.motion scored.0 scored.1 (motion_part d h)) (weather_part d h)

bds60-plausible :
    (msg : List ℕ) (d : Data) (n : ℤ)
    → score_bds60 msg ≡ some n
    → is_plausible d ≡ true
    → is_plausible (store_bds60 msg d) ≡ true
unfolding score_bds60 store_bds60
bds60-plausible msg d n hs h =
    let scored = total-less (total (parts_bds60 msg)) (rate_penalty msg) n hs in
    parts-plausible (store_bds60 msg d) (nav_part d h)
      (store_bds60-plausible msg d.motion scored.0 scored.1 (motion_part d h)) (weather_part d h)

bds44-plausible :
    (msg : List ℕ) (d : Data) (n : ℤ)
    → score_bds44 msg ≡ some n
    → is_plausible d ≡ true
    → is_plausible (store_bds44 msg d) ≡ true
unfolding score_bds44 store_bds44
bds44-plausible msg d n hs h =
    let scored = with_last_resort-some msg (total (parts_bds44 msg)) n hs in
    parts-plausible (store_bds44 msg d) (nav_part d h) (motion_part d h) (
      store_bds44-plausible msg _ scored.0 scored.1
        (unfold is_plausible_weather in weather_part d h))

module _ (h : Header) (r : Raw) (d : Data) where
  data AllPlausible : List Decoder → Type 0 where
    none_left : AllPlausible []
    plausible :
        (e : Decoder) (ds : List Decoder)
        → is_plausible (call e h r true d).mm ≡ true
        → AllPlausible ds
        → AllPlausible (e ∷ ds)

  winners-AllPlausible :
      (m : ℤ) (ds : List Decoder) → AllPlausible ds → AllPlausible (winners h r m ds)
  unfolding winners
  winners-AllPlausible m [] all = none_left
  winners-AllPlausible m (e ∷ ds) (plausible _ _ he all) =
      elim (eq_ℤ m (score_in h r e))
        as (λ t. AllPlausible (if t then e ∷ winners h r m ds else winners h r m ds)) [
          | true ↦ plausible e (winners h r m ds) he (winners-AllPlausible m ds all)
          | false ↦ winners-AllPlausible m ds all
        ]

  settle-plausible :
      (m : ℤ) (ws : List Decoder)
      → is_plausible d ≡ true
      → AllPlausible ws
      → is_plausible (settle h r m ws d) ≡ true
  unfolding settle
  settle-plausible m [] hd all = with_format-plausible commb_unknown d hd
  settle-plausible m (w ∷ []) hd (plausible _ _ hw all) =
      elim (eq_ℤ m (pos 0))
        as (λ t.
          is_plausible (if t then with_format commb_unknown d else (call w h r true d).mm) ≡ true) [
            | true ↦ with_format-plausible commb_unknown d hd
            | false ↦ hw
          ]
  settle-plausible m (w ∷ x ∷ ws) hd all =
      elim (eq_ℤ m (pos 0))
        as (λ t.
          is_plausible (if t then with_format commb_unknown d else with_format commb_ambiguous d)
          ≡ true) [
            | true ↦ with_format-plausible commb_unknown d hd
            | false ↦ with_format-plausible commb_ambiguous d hd
          ]

  only_best-plausible :
      (ds : List Decoder)
      → is_plausible d ≡ true
      → AllPlausible ds
      → is_plausible (only_best h r ds d) ≡ true
  unfolding only_best
  only_best-plausible ds hd all =
      settle-plausible (best_from h r (pos 0) ds) (winners h r (best_from h r (pos 0) ds) ds) hd
        (winners-AllPlausible (best_from h r (pos 0) ds) ds all)

  -- The decoders that write no more than the format.
  keeps :
      (e : Decoder)
      → is_plausible d ≡ true
      → is_plausible (e.stored h r d) ≡ true
      → is_plausible (call e h r true d).mm ≡ true
  keeps e hd hs = call-plausible e h r d (λ n scored. hs) hd

module _ (is_off_turn : ℤ → ℕ → ℤ → Bool) where
  decoders-AllPlausible :
      (h : Header) (r : Raw) (d : Data)
      → is_plausible d ≡ true
      → AllPlausible h r d (comm_b_decoders is_off_turn)
  decoders-AllPlausible h r d hd = plausible _ _ (keeps h r d _ hd (with_format-plausible _ d hd)) (
      plausible _ _ (keeps h r d _ hd (with_format-plausible _ d hd)) (
        plausible _ _ (keeps h r d _ hd (store_bds20-plausible r.mb d hd)) (
          plausible _ _ (keeps h r d _ hd (with_format-plausible _ d hd)) (
            plausible _ _ (keeps h r d _ hd (with_format-plausible _ d hd)) (
              plausible _ _
                (call-plausible decode_bds40 h r d (λ n hs. bds40-plausible r.mb d n hs hd) hd)
                (plausible _ _
                  (call-plausible (decode_bds50 is_off_turn) h r d
                    (λ n hs. bds50-plausible is_off_turn r.mb d n hs hd) hd)
                  (plausible _ _
                    (call-plausible decode_bds60 h r d (λ n hs. bds60-plausible r.mb d n hs hd) hd)
                    (plausible _ _
                      (call-plausible decode_bds44 h r d (λ n hs. bds44-plausible r.mb d n hs hd)
                        hd)
                      (plausible _ _ (keeps h r d _ hd (with_format-plausible _ d hd))
                        none_left)))))))))

  -- Whatever the test of the turn rate, decodeCommB keeps decoded data plausible: the altitudes, speeds,
  -- angles, rates, winds, temperatures and pressures that it marks valid are in the ranges of
  -- is_plausible.
  pub decode_comm_b-plausible :
      (h : Header) (r : Raw) (d : Data)
      → is_plausible d ≡ true
      → is_plausible (decode_comm_b is_off_turn h r d) ≡ true
  unfolding decode_comm_b
  decode_comm_b-plausible h r d hd =
      elim (not (r.dr == 0) || (not (r.um == 0) || ltb 0 h.correctedbits))
        as (λ t.
          is_plausible (
            if t
            then with_format commb_not_decoded d
            else search h r (comm_b_decoders is_off_turn) d)
          ≡ true) [
            | true ↦ with_format-plausible commb_not_decoded d hd
            | false ↦ rw (search-only_best h r (comm_b_decoders is_off_turn) d) (
                only_best-plausible h r d (comm_b_decoders is_off_turn) hd
                  (decoders-AllPlausible h r d hd))
          ]
