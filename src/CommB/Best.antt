-- ===== src/CommB/Best.antt =====
-- `decodeCommB` takes the decoder with the only best score.
use rbfeeder.Base.{
  List, [], ◌∷◌, ◌++◌, Bool, true, false, if◌then◌else◌, Option, none, some, ◌≡◌, refl, ap, sym,
  ◌∙◌, arith, inl, inr, Bool-cases, ltb→lt, not, ◌||◌, ltb, ◌==◌, ℕ,
}
use mathlib.Core.List.{append_assoc, append-nil}
use rbfeeder.Base.Int.{ℤ, pos, ltb_ℤ, eq_ℤ, eq_ℤ_lem, ◌≤ℤ◌}
use rbfeeder.ModeS.Message.{Header, Raw, Data, commb_unknown, commb_ambiguous, commb_not_decoded}
use rbfeeder.CommB.Reply.{Decoder, answer, call}
use rbfeeder.CommB.Registers.{with_format}
use rbfeeder.CommB.Choice.{
  Search, compare_score, try_all, conclude, search, comm_b_decoders, decode_comm_b,
}

unfoldable pub max_ℤ : ℤ → ℤ → ℤ
max_ℤ a b = if ltb_ℤ a b then b else a

-- The score of a decoder, 0 for one that returns early.
unfoldable pub value : Option ℤ → ℤ
value none = pos 0
value (some n) = n

-- A call without `store` writes nothing and returns the score.
pub call-false :
    (decoder : Decoder) (h : Header) (r : Raw) (d : Data)
    → call decoder h r false d ≡ record { score = value (decoder.score_of h r); mm = d }
unfolding call answer value
call-false decoder h r d =
    elim (decoder.score_of h r)
      as (λ o. answer o false (decoder.stored h r d) d ≡ record { score = value o; mm = d }) [
        | none ↦ refl
        | some n ↦ refl
      ]

module _ (h : Header) (r : Raw) where
  unfoldable pub score_in : Decoder → ℤ
  score_in decoder = value (decoder.score_of h r)

  -- The greatest of the scores and `b`.
  unfoldable pub best_from : ℤ → List Decoder → ℤ
  best_from b [] = b
  best_from b (decoder ∷ decoders) = best_from (max_ℤ b (score_in decoder)) decoders

  -- The decoders with the score `m`.
  unfoldable pub winners : ℤ → List Decoder → List Decoder
  winners m [] = []
  winners m (decoder ∷ decoders) =
      let rest = winners m decoders in if eq_ℤ m (score_in decoder) then decoder ∷ rest else rest

  -- What becomes of the data: of no winner, of one, of several.
  unfoldable pub settle : ℤ → List Decoder → Data → Data
  settle m [] d = with_format commb_unknown d
  settle m (w ∷ []) d =
      if eq_ℤ m (pos 0) then with_format commb_unknown d else (call w h r true d).mm
  settle m (w ∷ x ∷ ws) d =
      if eq_ℤ m (pos 0) then with_format commb_unknown d else with_format commb_ambiguous d

  unfoldable pub only_best : List Decoder → Data → Data
  only_best decoders d = let m = best_from (pos 0) decoders in settle m (winners m decoders) d

  -- The variables of the loop, and the decoders with the best score so far.
  data Agrees (b : ℤ) : Option Decoder → Bool → List Decoder → Type 0 where
    nobody : (ambiguous : Bool) (ws : List Decoder) → b ≡ pos 0 → Agrees b none ambiguous ws
    one : (w : Decoder) → ltb_ℤ (pos 0) b ≡ true → Agrees b (some w) false (w ∷ [])
    several :
        (w x y : Decoder) (ws : List Decoder)
        → ltb_ℤ (pos 0) b ≡ true
        → Agrees b (some w) true (x ∷ y ∷ ws)

  not_zero : (b : ℤ) → ltb_ℤ (pos 0) b ≡ true → eq_ℤ b (pos 0) ≡ false
  not_zero b hb = ground arith

  conclude-settle :
      (b : ℤ) (best : Option Decoder) (ambiguous : Bool) (ws : List Decoder) (d : Data)
      → Agrees b best ambiguous ws
      → conclude h r ambiguous best d ≡ settle b ws d
  unfolding conclude settle
  conclude-settle b none ambiguous [] d (nobody _ _ e) = refl
  conclude-settle b none ambiguous (w ∷ []) d (nobody _ _ e) = rw e refl
  conclude-settle b none ambiguous (w ∷ x ∷ ws) d (nobody _ _ e) = rw e refl
  conclude-settle b _ _ _ d (one w hb) = rw (not_zero b hb) refl
  conclude-settle b _ _ _ d (several w x y ws hb) = rw (not_zero b hb) refl

  -- What is left of the winners so far, where the best score is `m`.
  unfoldable keep : ℤ → ℤ → List Decoder → List Decoder
  keep m b ws = if eq_ℤ m b then ws else []

  Agrees_tie :
      (b : ℤ) (e : Decoder) (best : Option Decoder) (ambiguous : Bool) (ws : List Decoder)
      → Agrees b best ambiguous ws
      → Agrees b best true (ws ++ e ∷ [])
  Agrees_tie b e _ _ _ (nobody a ws hb) = nobody true (ws ++ e ∷ []) hb
  Agrees_tie b e _ _ _ (one w hb) = several w w e [] hb
  Agrees_tie b e _ _ _ (several w x y ws hb) = several w x y (ws ++ e ∷ []) hb

  Agrees_nonneg :
      (b : ℤ) (best : Option Decoder) (ambiguous : Bool) (ws : List Decoder)
      → Agrees b best ambiguous ws
      → pos 0 ≤ℤ b
  Agrees_nonneg b _ _ _ (nobody a ws hb) = rw hb (omega arith)
  Agrees_nonneg b _ _ _ (one w hb) = ground arith
  Agrees_nonneg b _ _ _ (several w x y ws hb) = ground arith

  le-best_from : (ds : List Decoder) (b : ℤ) → b ≤ℤ best_from b ds
  unfolding best_from max_ℤ
  le-best_from [] b = omega arith
  le-best_from (e ∷ ds) b = elim (Bool-cases (ltb_ℤ b (score_in e))) [
    | inl lt ↦
        rw lt (let below = le-best_from ds (score_in e) in let less = ltb→lt _ _ lt in omega arith)
    | inr ge ↦ rw ge (le-best_from ds b)
  ]

  distinct : (m c : ℤ) → ltb_ℤ c m ≡ true → eq_ℤ m c ≡ false
  distinct m c lt = ground arith

  less_than : (b c : ℤ) → ltb_ℤ b c ≡ false → eq_ℤ c b ≡ false → ltb_ℤ c b ≡ true
  less_than b c ge ne = ground arith

  positive : (b c : ℤ) → pos 0 ≤ℤ b → ltb_ℤ b c ≡ true → ltb_ℤ (pos 0) c ≡ true
  positive b c h0 lt = ground arith

  below : (m b c : ℤ) → ltb_ℤ b c ≡ true → c ≤ℤ m → ltb_ℤ b m ≡ true
  below m b c lt le = ground arith

  equal : (b : ℤ) → eq_ℤ b b ≡ true
  equal b = ground arith

  -- The winners at the end: those so far, where their score stays the best, and those to come.
  finally : ℤ → ℤ → List Decoder → List Decoder → List Decoder
  finally m b ws ds = keep m b ws ++ winners m ds

  finally-greater :
      (m b : ℤ) (e : Decoder) (ws ds : List Decoder)
      → ltb_ℤ b (score_in e) ≡ true
      → score_in e ≤ℤ m
      → finally m b ws (e ∷ ds) ≡ finally m (score_in e) (e ∷ []) ds
  unfolding finally keep winners
  finally-greater m b e ws ds lt le =
      rw (distinct m b (below m b (score_in e) lt le))
        (elim (eq_ℤ m (score_in e))
          as (λ t.
            (if t then e ∷ winners m ds else winners m ds)
            ≡ (if t then e ∷ [] else []) ++ winners m ds) [ true ↦ refl | false ↦ refl ])

  finally-tie :
      (m b : ℤ) (e : Decoder) (ws ds : List Decoder)
      → eq_ℤ (score_in e) b ≡ true
      → finally m b ws (e ∷ ds) ≡ finally m b (ws ++ e ∷ []) ds
  unfolding finally keep winners
  finally-tie m b e ws ds tie =
      rw (eq_ℤ_lem (score_in e) b tie)
        (elim (eq_ℤ m b)
          as (λ t.
            (if t then ws else []) ++ (if t then e ∷ winners m ds else winners m ds)
            ≡ (if t then ws ++ e ∷ [] else []) ++ winners m ds) [
              | true ↦ sym (append_assoc ws (e ∷ []) (winners m ds))
              | false ↦ refl
            ])

  finally-worse :
      (m b : ℤ) (e : Decoder) (ws ds : List Decoder)
      → ltb_ℤ (score_in e) b ≡ true
      → b ≤ℤ m
      → finally m b ws (e ∷ ds) ≡ finally m b ws ds
  unfolding finally winners
  finally-worse m b e ws ds lt le = rw (distinct m (score_in e) (below m (score_in e) b lt le)) refl

  finally_last : (b : ℤ) (ws : List Decoder) → finally b b ws [] ≡ ws
  unfolding finally keep winners
  finally_last b ws = rw (equal b) (append-nil ws)

  -- What the reference makes of the rest of the decoders.
  target : ℤ → List Decoder → List Decoder → Data → Data
  target b ws ds d = settle (best_from b ds) (finally (best_from b ds) b ws ds) d

  best_from-greater :
      (b : ℤ) (e : Decoder) (ds : List Decoder)
      → ltb_ℤ b (score_in e) ≡ true
      → best_from b (e ∷ ds) ≡ best_from (score_in e) ds
  unfolding best_from max_ℤ
  best_from-greater b e ds lt = rw lt refl

  best_from-not_greater :
      (b : ℤ) (e : Decoder) (ds : List Decoder)
      → ltb_ℤ b (score_in e) ≡ false
      → best_from b (e ∷ ds) ≡ best_from b ds
  unfolding best_from max_ℤ
  best_from-not_greater b e ds ge = rw ge refl

  -- The data after the loop from a state, and its rounds.
  after : List Decoder → Search → Data
  after ds s0 = let s = try_all h r ds s0 in conclude h r s.ambiguous s.best_decoder s.mm

  state : ℤ → Option Decoder → Bool → Data → Search
  state b best ambiguous d = record {
    best_score = b;
    best_decoder = best;
    ambiguous = ambiguous;
    mm = d;
  }

  round : Decoder → ℤ → Option Decoder → Bool → Data → Search
  round e b best ambiguous d =
      compare_score e record { score = score_in e; mm = d } (state b best ambiguous d)

  after-round :
      (e : Decoder) (ds : List Decoder) (b : ℤ) (best : Option Decoder) (ambiguous : Bool)
      (d : Data)
      → after (e ∷ ds) (state b best ambiguous d) ≡ after ds (round e b best ambiguous d)
  unfolding after try_all state round score_in
  after-round e ds b best ambiguous d =
      ap (λ c. after ds (compare_score e c (state b best ambiguous d))) (call-false e h r d)

  round-greater :
      (e : Decoder) (b : ℤ) (best : Option Decoder) (ambiguous : Bool) (d : Data)
      → ltb_ℤ b (score_in e) ≡ true
      → round e b best ambiguous d ≡ state (score_in e) (some e) false d
  unfolding round compare_score state
  round-greater e b best ambiguous d lt = rw lt refl

  round-tie :
      (e : Decoder) (b : ℤ) (best : Option Decoder) (ambiguous : Bool) (d : Data)
      → ltb_ℤ b (score_in e) ≡ false
      → eq_ℤ (score_in e) b ≡ true
      → round e b best ambiguous d ≡ state b best true d
  unfolding round compare_score state
  round-tie e b best ambiguous d ge eq = rw (ge, eq) refl

  round-worse :
      (e : Decoder) (b : ℤ) (best : Option Decoder) (ambiguous : Bool) (d : Data)
      → ltb_ℤ b (score_in e) ≡ false
      → eq_ℤ (score_in e) b ≡ false
      → round e b best ambiguous d ≡ state b best ambiguous d
  unfolding round compare_score state
  round-worse e b best ambiguous d ge ne = rw (ge, ne) refl

  loop-target :
      (ds : List Decoder) (b : ℤ) (best : Option Decoder) (ambiguous : Bool) (ws : List Decoder)
      (d : Data)
      → Agrees b best ambiguous ws
      → after ds (state b best ambiguous d) ≡ target b ws ds d
  unfolding target
  loop-target [] b best ambiguous ws d ok =
      unfold after try_all best_from state in
      rw (finally_last b ws) (conclude-settle b best ambiguous ws d ok)
  loop-target (e ∷ ds) b best ambiguous ws d ok = elim (Bool-cases (ltb_ℤ b (score_in e))) [
    | inl lt ↦
        rw
          (
            after-round e ds b best ambiguous d,
            round-greater e b best ambiguous d lt,
            best_from-greater b e ds lt,
            finally-greater (best_from (score_in e) ds) b e ws ds lt (le-best_from ds (score_in e)),
          )
          (loop-target ds (score_in e) (some e) false (e ∷ []) d
            (one e (positive b (score_in e) (Agrees_nonneg b best ambiguous ws ok) lt)))
    | inr ge ↦ elim (Bool-cases (eq_ℤ (score_in e) b)) [
      | inl eq ↦
          rw
            (
              after-round e ds b best ambiguous d,
              round-tie e b best ambiguous d ge eq,
              best_from-not_greater b e ds ge,
              finally-tie (best_from b ds) b e ws ds eq,
            )
            (loop-target ds b best true (ws ++ e ∷ []) d (Agrees_tie b e best ambiguous ws ok))
      | inr ne ↦
          rw
            (
              after-round e ds b best ambiguous d,
              round-worse e b best ambiguous d ge ne,
              best_from-not_greater b e ds ge,
              finally-worse (best_from b ds) b e ws ds (less_than b (score_in e) ge ne)
                  (le-best_from ds b),
            )
            (loop-target ds b best ambiguous ws d ok)
    ]
  ]

  keep_none : (m b : ℤ) → keep m b [] ≡ []
  unfolding keep
  keep_none m b = elim (eq_ℤ m b) as (λ t. ◌≡◌ {A = List Decoder} (if t then [] else []) []) [
    | true ↦ refl
    | false ↦ refl
  ]

  -- The search over any decoders writes what the only one with the best score stores, where that score
  -- is above 0; an ambiguous format where several have it; and an unknown format where none is above 0.
  pub search-only_best :
      (decoders : List Decoder) (d : Data) → search h r decoders d ≡ only_best decoders d
  unfolding search only_best
  search-only_best decoders d =
      unfold after state target finally in
      loop-target decoders (pos 0) none false [] d (nobody false [] refl)
      ∙ rw (keep_none (best_from (pos 0) decoders) (pos 0)) refl

-- decodeCommB marks a reply with a downlink request, a utility message or corrected bits as not
-- decoded. Of any other it writes what the only decoder with the best score stores, an ambiguous format
-- where several have the best score, and an unknown one where no score is above 0.
pub decode_comm_b-only_best :
    (is_off_turn : ℤ → ℕ → ℤ → Bool) (h : Header) (r : Raw) (d : Data)
    → decode_comm_b is_off_turn h r d ≡ (
        if not (r.dr == 0) || (not (r.um == 0) || ltb 0 h.correctedbits)
        then with_format commb_not_decoded d
        else only_best h r (comm_b_decoders is_off_turn) d)
unfolding decode_comm_b
decode_comm_b-only_best is_off_turn h r d =
    rw (search-only_best h r (comm_b_decoders is_off_turn) d) refl
