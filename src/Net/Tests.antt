-- ===== src/Net/Tests.antt =====
-- net_io.c: runs of the Beast format on concrete reports, and where the theorems apply.
use rbfeeder.Base.{
  ℕ, arith, List, [], ◌∷◌, map, true, false, none, some, ◌≡◌, refl, sym, ◌∙◌, take, drop, ◌++◌,
  replicate,
}
use rbfeeder.Base.Int.{pos, ◌*ℤ◌, ◌+ℤ◌}
use rbfeeder.Base.Ratio.{Ratio, lt_ratio, whole, round_div, floor_div}
use rbfeeder.Base.Double.{
  width_by, width, round_even, round_double, round_signed, double, mul_double, root_bits,
  root_double, sqrt_double,
}
use rbfeeder.Net.Frames.{
  scan, scan_turns, read_pieces, frame_length, seek, turn, follow, split_frame, turn_at, turn_after,
  turn_of_type, body_length,
}
use rbfeeder.Net.Beast.{
  RemoteReport, decode_bin_report, write_beast_message, frame_of, beast_type, beast_body,
  timestamp_bytes, signal_byte, level_of, put_all, put,
}
use rbfeeder.Net.Levels.{signal_byte-level_of}
use rbfeeder.Net.Lines.{sent_line-again, are_bytes, is_filtered, line_handed_on}
use rbfeeder.Net.Outputs.{is_mlat, is_doubtful, send_raw}
use rbfeeder.ModeS.Message.{Header, source_mode_ac}
use rbfeeder.ModeS.Blank.{new_message}
use rbfeeder.Track.Validity.{source_rank}
use rbfeeder.Net.Avr.{
  decode_hex_line, trim_left, trim_right, keep_if_any, is_space, ends_line, line_by_start,
  read_line, line_of, read_hex, both, hex_digit_val,
}
use rbfeeder.Net.Pieces.{has_room, join, read_pieces-join}
use rbfeeder.Net.Reports.{
  stream, put_before, are_sendable, is_sendable, is_message, handed_on, reports-received,
}

abbrev quiet : Ratio
quiet = record { num = pos 1; den = 100 }

-- A report of which the timestamp, the level and the message have escape bytes, and a reply of Mode A.
abbrev reports : List RemoteReport
reports =
    record {
      timestamp = 0x1a00001a0102;
      level = quiet;
      msg = 0x5d ∷ 0x1a ∷ 0x1a ∷ 0x40 ∷ 0xd6 ∷ 0x00 ∷ 0x1a ∷ [];
    }
    ∷ record { timestamp = 12; level = quiet; msg = 0x1a ∷ 0x20 ∷ [] }
    ∷ []

abbrev bytes : List ℕ
bytes =
    0x1a ∷ 0x32 ∷ 0x1a ∷ 0x1a ∷ 0 ∷ 0 ∷ 0x1a ∷ 0x1a ∷ 1 ∷ 2 ∷ 0x1a ∷ 0x1a ∷ 0x5d ∷ 0x1a ∷ 0x1a
    ∷ 0x1a ∷ 0x1a ∷ 0x40 ∷ 0xd6 ∷ 0 ∷ 0x1a ∷ 0x1a ∷ 0x1a ∷ 0x31 ∷ 0 ∷ 0 ∷ 0 ∷ 0 ∷ 0 ∷ 12 ∷ 0x1a
    ∷ 0x1a ∷ 0x1a ∷ 0x1a ∷ 0x20 ∷ []

reports_bytes : stream reports ≡ bytes
unfolding stream put_before write_beast_message frame_of beast_type beast_body timestamp_bytes
    signal_byte put_all put lt_ratio ◌*ℤ◌ ◌+ℤ◌ whole round_div floor_div width_by width round_even
    round_double round_signed double mul_double root_bits root_double sqrt_double
reports_bytes = refl

reports_sendable : are_sendable reports ≡ true
unfolding are_sendable is_sendable is_message
reports_sendable = refl

-- The pieces split an escape and the second frame.
abbrev pieces : List (List ℕ)
pieces = take 3 bytes ∷ take 20 (drop 3 bytes) ∷ drop 23 bytes ∷ []

pieces_room : has_room [] pieces ≡ true
unfolding has_room scan scan_turns frame_length seek turn follow split_frame turn_at turn_after
    turn_of_type body_length
pieces_room = refl

pieces_bytes : join pieces ≡ bytes
unfolding join
pieces_bytes = refl

-- Garbage before a frame is dropped, and half a frame is kept.
garbage : (scan (7 ∷ 8 ∷ 0x1a ∷ 0x39 ∷ 9 ∷ 0x1a ∷ 0x31 ∷ 1 ∷ [])).left ≡ 0x1a ∷ 0x31 ∷ 1 ∷ []
unfolding scan scan_turns frame_length seek turn follow split_frame turn_at turn_after turn_of_type
    body_length
garbage = refl

reports-received_example :
    (map (decode_bin_report false) (read_pieces [] pieces).frames ≡ map (handed_on false) reports)
    × ((read_pieces [] pieces).left ≡ [])
reports-received_example =
    reports-received false reports pieces reports_sendable (pieces_bytes ∙ sym reports_bytes)
      pieces_room

read_pieces-join_example : read_pieces [] pieces ≡ scan (join pieces)
read_pieces-join_example = read_pieces-join pieces pieces_room

-- A lower-case line with a timestamp and spaces around it.
lower_line :
    decode_hex_line true
      (0x20 ∷ 0x40 ∷ replicate 12 0x30 ++ (0x37 ∷ 0x61 ∷ 0x46 ∷ 0x66 ∷ 0x3b ∷ 0x0d ∷ []))
    ≡ some record { level = whole (pos 0); bytes = 0x7a ∷ 0xff ∷ [] }
unfolding decode_hex_line trim_left trim_right keep_if_any is_space ends_line line_by_start
    read_line line_of read_hex both hex_digit_val whole
lower_line = refl

-- A reply of Mode A.
abbrev reply : Header
reply = record new_message.header {
  msg = 0xff ∷ 0x1a ∷ [];
  msgbits = 16;
  source = source_mode_ac;
  timestamp_msg = 12;
}

passes : is_filtered reply none ≡ false
unfolding is_mlat is_doubtful source_rank
passes = refl

sent_line-again_example :
    (line : List ℕ) × (send_raw true reply none ≡ some (line ++ (0x0a ∷ [])))
    × (decode_hex_line true line ≡ line_handed_on true (0xff ∷ 0x1a ∷ []))
sent_line-again_example =
    sent_line-again true true reply none passes (unfold is_message in refl)
      (unfold are_bytes in refl)

signal_byte-level_of_example : signal_byte (level_of 26) ≡ 26
signal_byte-level_of_example = signal_byte-level_of 26 (omega arith)
