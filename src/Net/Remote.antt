-- ===== src/Net/Remote.antt =====
-- net_io.c: messages of others, from frames and lines to the decoders and to `useModesMessage` (mode_s.c)
-- without its outputs.
use rbfeeder.Base.{
  ℕ, ◌+◌, ◌*◌, List, ◌++◌, Bool, true, ltb, ◌==◌, if◌then◌else◌, Option, none, some, length, get_or,
  set, take,
}
use rbfeeder.Base.Int.{pos, negsuc, ltb_ℤ, eq_ℤ}
use rbfeeder.Base.Ratio.{Ratio}
use rbfeeder.IcaoFilter.Defs.{Filter}
use rbfeeder.ModeAc.Reply.{decode_mode_a_message}
use rbfeeder.ModeS.Message.{Message, Header, Raw, Data}
use rbfeeder.ModeS.Blank.{new_message}
use rbfeeder.ModeS.Correct.{Settings}
use rbfeeder.ModeS.Score.{not_set}
use rbfeeder.ModeS.Decode.{decode_modes_message, Decoded}
use rbfeeder.Track.Position.{Geometry, Receiver, next}
use rbfeeder.Track.Update.{Tracker, track_update_from_message}
use rbfeeder.Net.Beast.{RemoteReport, decode_bin_report}
use rbfeeder.Net.Avr.{Line, decode_hex_line}

-- The counters of remote messages, and of all messages.
pub record RemoteStats : Type 0 where
  pub received_modeac : ℕ
  pub received_modes : ℕ
  pub rejected_bad : ℕ
  pub rejected_unknown_icao : ℕ
  pub accepted : List ℕ
  pub messages_total : ℕ
  pub messages_by_df : List ℕ

pub record Station : Type 0 where
  pub filter : Filter
  pub stats : RemoteStats
  pub tracker : Tracker

-- A new message, marked as remote.
unfoldable pub remote_message : ℕ → Ratio → ℕ → Message
remote_message timestamp level now = record new_message {
  header = record new_message.header {
    remote = true;
    timestamp_msg = timestamp;
    signal_level = level;
    sys_timestamp_msg = now;
  };
}

unfoldable pub count_at : ℕ → List ℕ → List ℕ
count_at i counts = set counts i (next (get_or counts i 0))

unfoldable pub count_used : Message → RemoteStats → RemoteStats
count_used mm s =
    let t = mm.header.msgtype in
    record s {
      messages_total = next s.messages_total;
      messages_by_df = if ltb t 32 then count_at t s.messages_by_df else s.messages_by_df;
    }

module _ (geometry : Geometry) (receiver : Receiver) (settings : Settings)
    (decode_comm_b : Header → Raw → Data → Data) where
  -- `useModesMessage` up to the outputs.
  unfoldable pub use_modes_message : Message → Station → Station
  use_modes_message mm s = record s {
    stats = count_used mm s.stats;
    tracker = (track_update_from_message geometry receiver mm s.tracker).tracker;
  }

  -- What is done with the result of `decodeModesMessage`.
  unfoldable pub after_decoding : Decoded decode_comm_b → Station → Station
  after_decoding d s0 =
      let s = record s0 { filter = d.filter } in
      if ltb_ℤ d.value (pos 0)
      then record s {
        stats =
            if eq_ℤ d.value (negsuc 0)
            then record s.stats { rejected_unknown_icao = next s.stats.rejected_unknown_icao }
            else record s.stats { rejected_bad = next s.stats.rejected_bad };
      }
      else use_modes_message d.mm (record s {
        stats = record s.stats { accepted = count_at d.mm.header.correctedbits s.stats.accepted };
      })

  -- The bytes after a short message, `after`, are not initialised, as are those of `junk`.
  unfoldable pub take_in : List ℕ → List ℕ → Message → List ℕ → Station → Station
  take_in after junk mm bytes s =
      if length bytes == 2
      then use_modes_message (decode_mode_a_message mm (256 * get_or bytes 0 0 + get_or bytes 1 0))
          (record s { stats = record s.stats { received_modeac = next s.stats.received_modeac } })
      else after_decoding
          (decode_modes_message decode_comm_b settings s.filter not_set junk mm
            (take 14 (bytes ++ after)))
          (record s { stats = record s.stats { received_modes = next s.stats.received_modes } })

  unfoldable pub take_report : List ℕ → List ℕ → ℕ → Option RemoteReport → Station → Station
  take_report after junk now none s = s
  take_report after junk now (some r) s =
      take_in after junk (remote_message r.timestamp r.level now) r.msg s

  unfoldable pub take_line : List ℕ → List ℕ → ℕ → Option Line → Station → Station
  take_line after junk now none s = s
  take_line after junk now (some l) s = take_in after junk (remote_message 0 l.level now) l.bytes s

  -- `decodeBinMessage`, but for positions of a Radarcape.
  unfoldable pub decode_bin_message : Bool → List ℕ → List ℕ → ℕ → List ℕ → Station → Station
  decode_bin_message mode_ac after junk now p s =
      take_report after junk now (decode_bin_report mode_ac p) s

  -- `decodeHexMessage`
  unfoldable pub decode_hex_message : Bool → List ℕ → List ℕ → ℕ → List ℕ → Station → Station
  decode_hex_message mode_ac after junk now line s =
      take_line after junk now (decode_hex_line mode_ac line) s
