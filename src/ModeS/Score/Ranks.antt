-- ===== src/ModeS/Score/Ranks.antt =====
-- Which messages have a score that is accepted.
use rbfeeder.Base.{
  ℕ, zero, suc, Bool, true, false, ◌&&◌, ◌||◌, ◌≡◌, refl, arith, leb, ◌==◌, if◌then◌else◌,
}
use rbfeeder.Base.{bit_and, bit_or, Bool-cases, ==_iff, inl, inr}
use rbfeeder.Base.Int.{ℤ, pos, negsuc}
use rbfeeder.IcaoFilter.Defs.{Filter, filter_test}
use rbfeeder.ModeS.Bits.{getbits}
use rbfeeder.ModeS.Correct.{Settings, Correction}
use rbfeeder.ModeS.Score.{
  accept_threshold, rank, unreliable, uncorrectable, unknown_df, icao_filter_adsb_nt, checked,
  score_df11, score_df17, score_df18, score_correction,
}

-- At most `n` corrections, and not -1.
unfoldable pub few : ℕ → ℤ → Bool
few n (pos k) = leb k n
few n (negsuc k) = false

-- An extended squitter is believed with one correction, and with two if its address is known; an
-- all-call reply if it is an uncorrected squitter, and with one correction or an interrogator's code if
-- its address is known; all else, whose address cannot be checked, if the address is known.
unfoldable pub is_believed : Settings → Filter → Correction → Bool
is_believed settings filter c =
    let df = getbits c.out 1 5 in
    let addr = getbits c.out 9 32 in
    let short = checked c.short_syndrome c.out 56 in
    let long = checked c.long_syndrome c.out 112 in
    if df == 17
    then few 1 c.corrections || few 2 c.corrections && filter_test filter addr
    else if df == 18
    then few 1 c.corrections
      || few 2 c.corrections && filter_test filter (bit_or addr icao_filter_adsb_nt)
    else if df == 11
    then few 0 c.corrections && bit_and short 0x7f == 0
      || few 1 c.corrections && filter_test filter addr
    else if df == 0 || (df == 4 || df == 5)
    then filter_test filter short
    else if df == 16 || (df == 20 || df == 21)
    then filter_test filter long
    else leb 24 df && (leb df 31 && (settings.enable_df24 && filter_test filter long))

accepts_df17 :
    (n : ℤ) (recent : Bool) → leb 11 (rank (score_df17 n recent)) ≡ (few 1 n || few 2 n && recent)
unfolding rank score_df17 few
accepts_df17 (pos zero) recent = ground arith
accepts_df17 (pos (suc zero)) recent = ground arith
accepts_df17 (pos (suc (suc zero))) recent = ground arith
accepts_df17 (pos (suc (suc (suc n)))) recent = ground arith
accepts_df17 (negsuc n) recent = refl

accepts_df18 :
    (n : ℤ) (recent : Bool) → leb 11 (rank (score_df18 n recent)) ≡ (few 1 n || few 2 n && recent)
unfolding rank score_df18 few
accepts_df18 (pos zero) recent = ground arith
accepts_df18 (pos (suc zero)) recent = ground arith
accepts_df18 (pos (suc (suc zero))) recent = ground arith
accepts_df18 (pos (suc (suc (suc n)))) recent = ground arith
accepts_df18 (negsuc n) recent = refl

accepts_df11 :
    (n : ℤ) (acq recent : Bool)
    → leb 11 (rank (score_df11 n acq recent)) ≡ (few 0 n && acq || few 1 n && recent)
unfolding rank score_df11 few
accepts_df11 (pos zero) true true = refl
accepts_df11 (pos zero) true false = refl
accepts_df11 (pos zero) false true = refl
accepts_df11 (pos zero) false false = refl
accepts_df11 (pos (suc zero)) true recent = ground arith
accepts_df11 (pos (suc zero)) false recent = ground arith
accepts_df11 (pos (suc (suc n))) acq recent = ground arith
accepts_df11 (negsuc n) acq recent = refl

accepts_unreliable : (recent : Bool) → leb 11 (rank (unreliable recent)) ≡ recent
unfolding rank
accepts_unreliable true = refl
accepts_unreliable false = refl

accepts_other :
    (df : ℕ) (on recent : Bool)
    → leb 11 (
        rank (
          if leb 24 df && leb df 31
          then (if on then unreliable recent else uncorrectable)
          else unknown_df))
      ≡ (leb 24 df && (leb df 31 && (on && recent)))
unfolding rank
accepts_other df on recent = elim (Bool-cases (leb 24 df)) [
  | inr low ↦ rw low refl
  | inl high ↦ elim (Bool-cases (leb df 31)) [
    | inr out ↦ rw (high, out) refl
    | inl ele ↦
        rw (high, ele)
          (elim on
            as (λ t.
              leb 11 (rank (if t then unreliable recent else uncorrectable)) ≡ (t && recent)) [
                | true ↦ accepts_unreliable recent
                | false ↦ refl
              ])
  ]
]

-- A correction has a score that is accepted exactly when it is believed.
pub score-accepted :
    (settings : Settings) (filter : Filter) (c : Correction)
    → leb (rank accept_threshold) (rank (score_correction settings filter c))
      ≡ is_believed settings filter c
unfolding rank score_correction is_believed
score-accepted settings filter c = elim (Bool-cases (df == 17)) [
  | inl e17 ↦ rw ((==_iff df 17).0 e17) (accepts_df17 c.corrections (filter_test filter addr))
  | inr n17 ↦ elim (Bool-cases (df == 18)) [
    | inl e18 ↦
        rw ((==_iff df 18).0 e18)
          (accepts_df18 c.corrections (filter_test filter (bit_or addr icao_filter_adsb_nt)))
    | inr n18 ↦ elim (Bool-cases (df == 11)) [
      | inl e11 ↦
          rw ((==_iff df 11).0 e11)
            (accepts_df11 c.corrections (bit_and short 0x7f == 0) (filter_test filter addr))
      | inr n11 ↦ elim (Bool-cases (df == 0)) [
        | inl e0 ↦ rw ((==_iff df 0).0 e0) (accepts_unreliable (filter_test filter short))
        | inr n0 ↦ elim (Bool-cases (df == 4)) [
          | inl e4 ↦ rw ((==_iff df 4).0 e4) (accepts_unreliable (filter_test filter short))
          | inr n4 ↦ elim (Bool-cases (df == 5)) [
            | inl e5 ↦ rw ((==_iff df 5).0 e5) (accepts_unreliable (filter_test filter short))
            | inr n5 ↦ elim (Bool-cases (df == 16)) [
              | inl e16 ↦ rw ((==_iff df 16).0 e16) (accepts_unreliable (filter_test filter long))
              | inr n16 ↦ elim (Bool-cases (df == 20)) [
                | inl e20 ↦ rw ((==_iff df 20).0 e20) (accepts_unreliable (filter_test filter long))
                | inr n20 ↦ elim (Bool-cases (df == 21)) [
                  | inl e21 ↦
                      rw ((==_iff df 21).0 e21) (accepts_unreliable (filter_test filter long))
                  | inr n21 ↦
                      rw (n17, n18, n11, n0, n4, n5, n16, n20, n21)
                        (accepts_other df settings.enable_df24 (filter_test filter long))
                ]
              ]
            ]
          ]
        ]
      ]
    ]
  ]
]
  where
    df : ℕ
    df = getbits c.out 1 5

    addr : ℕ
    addr = getbits c.out 9 32

    short : ℕ
    short = checked c.short_syndrome c.out 56

    long : ℕ
    long = checked c.long_syndrome c.out 112
