-- ===== src/Track/Versions.antt =====
-- track.c: the version of the ADS-B equipment, and what it makes of a message.
use rbfeeder.Base.{ℕ, Bool, true, false, not, ◌&&◌, ◌==◌, if◌then◌else◌, Option, none, some}
use rbfeeder.Base.Int.{ℤ, pos, negsuc, ltb_ℤ, eq_ℤ}
use rbfeeder.ModeS.Message.{
  Message, OpStatus, Source, source_tisb, source_adsr, source_adsb, HeadingType, heading_invalid,
  heading_ground_track, heading_true, heading_magnetic, heading_magnetic_or_true,
  heading_track_or_heading, SilType, sil_invalid, sil_unknown, sil_per_sample, sil_per_hour,
}
use rbfeeder.Track.Validity.{source_rank}
use rbfeeder.Track.Integrity.{compute_v0_nacp, compute_v0_sil}
use rbfeeder.Track.Aircraft.{Versions}

-- The version that stands for the source of a message, -1 for the dummy.
unfoldable pub version_of : Source → Versions → ℤ
version_of source v =
    if source_rank source == source_rank source_adsb
    then v.adsb_version
    else if source_rank source == source_rank source_tisb
    then v.tisb_version
    else if source_rank source == source_rank source_adsr
    then v.adsr_version
    else negsuc 0

unfoldable pub set_version : Source → ℤ → Versions → Versions
set_version source version v =
    if source_rank source == source_rank source_adsb
    then record v { adsb_version = version }
    else if source_rank source == source_rank source_tisb
    then record v { tisb_version = version }
    else if source_rank source == source_rank source_adsr
    then record v { adsr_version = version }
    else v

-- `*message_version` after the operational status.
unfoldable pub message_version : Source → OpStatus → Versions → ℤ
message_version source opstatus v =
    let known = version_of source v in
    if opstatus.valid then pos opstatus.version else if ltb_ℤ known (pos 0) then pos 0 else known

unfoldable pub or_heading : HeadingType → HeadingType → HeadingType
or_heading heading_invalid old = old
or_heading heading_ground_track old = heading_ground_track
or_heading heading_true old = heading_true
or_heading heading_magnetic old = heading_magnetic
or_heading heading_magnetic_or_true old = heading_magnetic_or_true
or_heading heading_track_or_heading old = heading_track_or_heading

unfoldable pub update_versions : Message → Versions → Versions
update_versions mm v =
    let o = mm.data_of.opstatus in
    let source = mm.header.source in
    let versioned = set_version source (message_version source o v) v in
    if o.valid
    then record versioned {
      adsb_hrd = or_heading o.hrd v.adsb_hrd;
      adsb_tah = or_heading o.tah v.adsb_tah;
    }
    else versioned

-- NACp and SIL of version 0, from the type of a position message.
unfoldable pub fill_nac_p : Option ℕ → Message → Message
fill_nac_p none mm = mm
fill_nac_p (some n) mm = record mm {
  data_of = record mm.data_of {
    accuracy = record mm.data_of.accuracy { nac_p_valid = true; nac_p = n };
  };
}

unfoldable pub fill_sil : Option ℕ → Message → Message
fill_sil none mm = mm
fill_sil (some n) mm = record mm {
  data_of = record mm.data_of {
    accuracy = record mm.data_of.accuracy { sil_type = sil_unknown; sil = n };
  };
}

unfoldable pub is_sil : SilType → Bool
is_sil sil_invalid = false
is_sil sil_unknown = true
is_sil sil_per_sample = true
is_sil sil_per_hour = true

unfoldable pub fill_accuracy : ℤ → Message → Message
fill_accuracy version m0 =
    let t = m0.header.msgtype in
    let m1 =
      if eq_ℤ version (pos 0) && not m0.data_of.accuracy.nac_p_valid
      then fill_nac_p (compute_v0_nacp t m0.raw.metype) m0
      else m0 in
    if eq_ℤ version (pos 0) && not (is_sil m1.data_of.accuracy.sil_type)
    then fill_sil (compute_v0_sil t m1.raw.metype) m1
    else m1
