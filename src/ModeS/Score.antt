-- ===== src/ModeS/Score.antt =====
-- mode_s.c: `scoreModesMessage`, and its ranks from mode_s.h.
pub mod Junk
pub mod Ranks
use rbfeeder.Base.{
  ℕ, zero, suc, List, [], ◌∷◌, Bool, true, false, ◌&&◌, ltb, leb, ◌==◌, if◌then◌else◌, get_or,
  bit_and, bit_or,
}
use rbfeeder.Base.Int.{ℤ, pos, negsuc}
use rbfeeder.Crc.Checksum.{modes_checksum}
use rbfeeder.IcaoFilter.Defs.{Filter, filter_test}
use rbfeeder.ModeS.Bits.{getbits}
use rbfeeder.ModeS.Correct.{Settings, Correction, correct_message, unchecked_syndrome}

-- `score_rank`, from worst to best
pub data ScoreRank : Type 0 where
  not_set all_zeros unknown_df uncorrectable unknown_threshold unreliable_unknown : ScoreRank
  df11_iid_1error_unknown df11_acq_1error_unknown df11_iid_unknown : ScoreRank
  df18_2error_unknown df17_2error_unknown accept_threshold unreliable_known : ScoreRank
  df18_2error_known df17_2error_known df18_1error_unknown df17_1error_unknown : ScoreRank
  df11_acq_unknown df11_iid_1error_known df11_acq_1error_known df11_iid_known : ScoreRank
  df18_1error_known df17_1error_known df11_acq_known df18_unknown df17_unknown : ScoreRank
  df18_known df17_known : ScoreRank

-- The number of an enumerator.
unfoldable pub rank : ScoreRank → ℕ
rank not_set = 0
rank all_zeros = 1
rank unknown_df = 2
rank uncorrectable = 3
rank unknown_threshold = 4
rank unreliable_unknown = 5
rank df11_iid_1error_unknown = 6
rank df11_acq_1error_unknown = 7
rank df11_iid_unknown = 8
rank df18_2error_unknown = 9
rank df17_2error_unknown = 10
rank accept_threshold = 11
rank unreliable_known = 12
rank df18_2error_known = 13
rank df17_2error_known = 14
rank df18_1error_unknown = 15
rank df17_1error_unknown = 16
rank df11_acq_unknown = 17
rank df11_iid_1error_known = 18
rank df11_acq_1error_known = 19
rank df11_iid_known = 20
rank df18_1error_known = 21
rank df17_1error_known = 22
rank df11_acq_known = 23
rank df18_unknown = 24
rank df17_unknown = 25
rank df18_known = 26
rank df17_known = 27

-- `ICAO_FILTER_ADSB_NT`, bit 25
abbrev pub icao_filter_adsb_nt : ℕ
icao_filter_adsb_nt = 0x2000000

-- `memcmp(all_zeros, uncorrected, 7)`
unfoldable pub is_all_zeros : List ℕ → Bool
is_all_zeros m =
    get_or m 0 0 == 0
    && (get_or m 1 0 == 0
        && (get_or m 2 0 == 0
            && (get_or m 3 0 == 0
                && (get_or m 4 0 == 0 && (get_or m 5 0 == 0 && get_or m 6 0 == 0)))))

-- `if (syndrome == UNCHECKED_SYNDROME) syndrome = modesChecksum(corrected, bits)`
unfoldable pub checked : ℕ → List ℕ → ℕ → ℕ
checked syndrome corrected n =
    if syndrome == unchecked_syndrome then modes_checksum corrected n else syndrome

abbrev pub unreliable : Bool → ScoreRank
unreliable recent = if recent then unreliable_known else unreliable_unknown

-- The cases for DF11, DF17 and DF18.
unfoldable pub score_df11 : ℤ → Bool → Bool → ScoreRank
score_df11 (pos zero) true recent = if recent then df11_acq_known else df11_acq_unknown
score_df11 (pos zero) false recent = if recent then df11_iid_known else df11_iid_unknown
score_df11 (pos (suc zero)) true recent =
    if recent then df11_acq_1error_known else df11_acq_1error_unknown
score_df11 (pos (suc zero)) false recent =
    if recent then df11_iid_1error_known else df11_iid_1error_unknown
score_df11 (pos (suc (suc n))) acq recent = uncorrectable
score_df11 (negsuc n) acq recent = uncorrectable

unfoldable pub score_df17 : ℤ → Bool → ScoreRank
score_df17 (pos zero) recent = if recent then df17_known else df17_unknown
score_df17 (pos (suc zero)) recent = if recent then df17_1error_known else df17_1error_unknown
score_df17 (pos (suc (suc zero))) recent = if recent then df17_2error_known else df17_2error_unknown
score_df17 (pos (suc (suc (suc n)))) recent = uncorrectable
score_df17 (negsuc n) recent = uncorrectable

unfoldable pub score_df18 : ℤ → Bool → ScoreRank
score_df18 (pos zero) recent = if recent then df18_known else df18_unknown
score_df18 (pos (suc zero)) recent = if recent then df18_1error_known else df18_1error_unknown
score_df18 (pos (suc (suc zero))) recent = if recent then df18_2error_known else df18_2error_unknown
score_df18 (pos (suc (suc (suc n)))) recent = uncorrectable
score_df18 (negsuc n) recent = uncorrectable

-- The switch on the downlink format.
unfoldable pub score_correction : Settings → Filter → Correction → ScoreRank
score_correction settings filter c =
    let df = getbits c.out 1 5 in
    let short = checked c.short_syndrome c.out 56 in
    let long = checked c.long_syndrome c.out 112 in
    let addr = getbits c.out 9 32 in
    if df == 0
    then unreliable (filter_test filter short)
    else if df == 4
    then unreliable (filter_test filter short)
    else if df == 5
    then unreliable (filter_test filter short)
    else if df == 16
    then unreliable (filter_test filter long)
    else if df == 20
    then unreliable (filter_test filter long)
    else if df == 21
    then unreliable (filter_test filter long)
    else if leb 24 df && leb df 31
    then (if settings.enable_df24 then unreliable (filter_test filter long) else uncorrectable)
    else if df == 11
    then score_df11 c.corrections (bit_and short 0x7f == 0) (filter_test filter addr)
    else if df == 17
    then score_df17 c.corrections (filter_test filter addr)
    else if df == 18
    then score_df18 c.corrections (filter_test filter (bit_or addr icao_filter_adsb_nt))
    else unknown_df

-- `scoreModesMessage`; `junk` is what its buffer `corrected` holds before.
unfoldable pub score_modes_message : Settings → Filter → List ℕ → List ℕ → ScoreRank
score_modes_message settings filter uncorrected junk =
    if is_all_zeros uncorrected
    then all_zeros
    else score_correction settings filter (correct_message settings uncorrected junk)
