-- ===== src/Net/Outputs.antt =====
-- net_io.c: which messages the Beast and raw outputs send.
use rbfeeder.Base.{
  ℕ, ◌/◌, List, [], ◌∷◌, Bool, false, not, ◌&&◌, ◌||◌, leb, ◌==◌, if◌then◌else◌, Option, none, some,
  take,
}
use rbfeeder.ModeS.Message.{Header, source_mlat}
use rbfeeder.Track.Validity.{source_rank}
use rbfeeder.Net.Beast.{write_beast_message}
use rbfeeder.Net.Avr.{avr_start, hex_bytes}

unfoldable pub is_mlat : Header → Bool
is_mlat h = source_rank h.source == source_rank source_mlat

-- `(a && !a->reliable) && !mm->reliable`, of an aircraft or none.
unfoldable pub is_doubtful : Option Bool → Header → Bool
is_doubtful none h = false
is_doubtful (some reliable) h = not reliable && not h.reliable

-- `modesSendBeastVerbatimOutput`
unfoldable pub send_beast_verbatim : Bool → Header → Option (List ℕ)
send_beast_verbatim forward_mlat h =
    if is_mlat h && not forward_mlat
    then none
    else write_beast_message h.timestamp_msg h.signal_level (take (h.msgbits / 8) h.verbatim)

-- `modesSendBeastCookedOutput`, with whether the aircraft is reliable.
unfoldable pub send_beast_cooked : Bool → Header → Option Bool → Option (List ℕ)
send_beast_cooked forward_mlat h aircraft =
    if is_mlat h && not forward_mlat || (leb 2 h.correctedbits || is_doubtful aircraft h)
    then none
    else write_beast_message h.timestamp_msg h.signal_level (take (h.msgbits / 8) h.msg)

-- `modesSendRawOutput`
unfoldable pub send_raw : Bool → Header → Option Bool → Option (List ℕ)
send_raw mlat h aircraft =
    if is_mlat h || (leb 2 h.correctedbits || is_doubtful aircraft h)
    then none
    else some
        (avr_start mlat h.timestamp_msg (hex_bytes (take (h.msgbits / 8) h.msg) (0x3b ∷ 0x0a ∷ [])))
