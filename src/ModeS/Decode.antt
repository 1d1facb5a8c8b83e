-- ===== src/ModeS/Decode.antt =====
-- mode_s.c: `decodeModesMessage`, on a message that holds the received header.
-- The decoder of Comm-B replies is a parameter, `decode_comm_b`: comm_b.c reads the header and the raw
-- fields, and writes decoded data only.
pub mod Fields
pub mod Keeps
pub mod Outcome
pub mod Known
use rbfeeder.Base.{
  ℕ, List, [], ◌∷◌, Bool, true, false, not, ◌&&◌, ◌||◌, ltb, leb, ◌==◌, if◌then◌else◌, bit_and,
  bit_or, has, take, drop,
}
use rbfeeder.Base.{Option, none, some}
use rbfeeder.Base.Int.{ℤ, pos, negsuc, pos_part}
use rbfeeder.IcaoFilter.Defs.{Filter, filter_add}
use rbfeeder.ModeS.Bits.{getbit, getbits}
use rbfeeder.ModeS.Correct.{Settings, Correction, correct_message, modes_message_len_by_type}
use rbfeeder.ModeS.Score.{
  ScoreRank, rank, not_set, accept_threshold, unknown_threshold, checked, icao_filter_adsb_nt,
  score_modes_message,
}
use rbfeeder.ModeS.Message.{
  Message, Header, Raw, Data, source_mode_s, source_mode_s_checked, source_adsb, source_mlat,
}
use rbfeeder.ModeS.Squitter.{decode_extended_squitter}
use rbfeeder.ModeS.Decode.Fields.{
  is_any, take_address, take_altitude, take_capability, take_control, take_flight_status,
  take_identity, take_payloads, take_acas,
}

-- `MAGIC_MLAT_TIMESTAMP`
abbrev pub magic_mlat_timestamp : ℕ
magic_mlat_timestamp = 0xff004d4c4154

-- Address/Parity: the address is what the checksum leaves.
unfoldable pub with_parity : Message → Message
with_parity mm =
    let h = mm.header in
    record mm { header = record h { source = source_mode_s; addr = h.crc; reliable = false } }

-- Parity/Interrogator, of a DF11 and of an extended squitter.
unfoldable pub with_interrogator : Message → Message
with_interrogator mm =
    let h = mm.header in
    let iid = bit_and h.crc 0x7f in
    record mm {
      raw = record mm.raw { iid = iid };
      header = record h {
        source = source_mode_s_checked;
        reliable = iid == 0 && h.correctedbits == 0;
      };
    }

unfoldable pub with_squitter : Message → Message
with_squitter mm =
    let h = mm.header in
    record mm { header = record h { source = source_adsb; reliable = h.correctedbits == 0 } }

-- Comm-D: all its types become 24.
unfoldable pub with_elm : Message → Message
with_elm mm =
    let parity = with_parity mm in record parity { header = record parity.header { msgtype = 24 } }

-- The switch on the type: what depends on the checksum. `none` is the return of -2.
unfoldable pub by_checksum : Message → Option Message
by_checksum mm =
    let t = mm.header.msgtype in
    if is_any (0 ∷ 4 ∷ 5 ∷ 16 ∷ []) t
    then some (with_parity mm)
    else if t == 11
    then some (with_interrogator mm)
    else if t == 17 || t == 18
    then some (with_squitter mm)
    else if t == 20 || t == 21
    then some (with_parity mm)
    else if leb 24 t && leb t 31
    then some (with_elm mm)
    else none

-- The copies, the correction and the checksum, up to the switch.
unfoldable pub corrected_header : List ℕ → Correction → Header → Header
corrected_header bytes c h =
    let t = getbits c.out 1 5 in
    record h {
      verbatim = bytes;
      msg = c.out;
      msgtype = t;
      msgbits = modes_message_len_by_type t;
      crc =
          if has t 16 then checked c.long_syndrome c.out 112 else checked c.short_syndrome c.out 56;
      correctedbits = pos_part c.corrections;
      addr = 0;
    }

module _ (decode_comm_b : Header → Raw → Data → Data) where
  -- The fields, in the order of the source.
  unfoldable pub decode_fields : Message → Message
  decode_fields mm = take_acas (
      take_payloads decode_comm_b decode_extended_squitter (
        take_identity
          (take_flight_status (take_control (take_capability (take_altitude (take_address mm)))))))

  -- The addresses that a message without corrections makes known.
  unfoldable pub mark_known : Message → Filter → Filter
  mark_known mm filter =
      let h = mm.header in
      let clean = h.correctedbits == 0 in
      let squitter =
        if clean && (h.msgtype == 17 || h.msgtype == 11 && mm.raw.iid == 0)
        then filter_add filter h.addr
        else filter in
      if clean && h.msgtype == 18
      then filter_add squitter (bit_or h.addr icao_filter_adsb_nt)
      else squitter

  -- Multilateration results override the source.
  unfoldable pub override_source : Message → Message
  override_source mm =
      let h = mm.header in
      if h.remote && h.timestamp_msg == magic_mlat_timestamp
      then record mm { header = record h { source = source_mlat } }
      else mm

  -- What `decodeModesMessage` returns, the message and the filter that it leaves.
  pub record Decoded : Type 0 where
    pub value : ℤ
    pub mm : Message
    pub filter : Filter

  unfoldable pub finish : Filter → Message → Option Message → Decoded
  finish filter mm none = record { value = negsuc 1; mm = mm; filter = filter }
  finish filter m0 (some m1) =
      let mm = decode_fields m1 in
      record { value = pos 0; mm = override_source mm; filter = mark_known mm filter }

  -- The guards on the score, with `m1` the message up to the switch.
  unfoldable pub judge : Filter → ScoreRank → Message → Message → Decoded
  judge filter score mm m1 =
      if ltb (rank score) (rank unknown_threshold)
      then record { value = negsuc 0; mm = mm; filter = filter }
      else if ltb (rank score) (rank accept_threshold)
      then record { value = negsuc 1; mm = mm; filter = filter }
      else finish filter m1 (by_checksum m1)

  -- `decodeModesMessage`; `junk` is the buffer of `scoreModesMessage`.
  unfoldable pub decode_modes_message :
      Settings → Filter → ScoreRank → List ℕ → Message → List ℕ → Decoded
  decode_modes_message settings filter given junk mm bytes =
      let score =
        if rank given == 0 then score_modes_message settings filter bytes junk else given in
      let c = correct_message settings bytes mm.header.msg in
      judge filter score mm (record mm { header = corrected_header bytes c mm.header })
