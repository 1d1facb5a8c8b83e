-- ===== src/ModeAc/Reply.antt =====
-- mode_ac.c: `decodeModeAMessage`.
use rbfeeder.Base.{ℕ, ◌%◌, if◌then◌else◌, bit_and, bit_or, ◌>>>◌, set, has, true}
use rbfeeder.Base.Int.{ℤ, pos, ◌*ℤ◌, eq_ℤ}
use rbfeeder.ModeAc.Defs.{mode_a_to_mode_c, invalid_altitude}
use rbfeeder.ModeS.Altitude.{feet}
use rbfeeder.ModeS.Message.{Message, Altitudes, source_mode_ac, addr_mode_a}
use rbfeeder.ModeS.Squitter.Address.{non_icao_address}

-- A possible Mode C reply: one without ident, whose altitude is valid.
unfoldable pub mode_c_altitude : ℤ → Altitudes → Altitudes
mode_c_altitude mode_c a = if eq_ℤ mode_c invalid_altitude then a else record a {
  altitude_baro = mode_c *ℤ pos 100;
  altitude_baro_unit = feet;
  altitude_baro_valid = true;
}

unfoldable pub decode_mode_a_message : Message → ℕ → Message
decode_mode_a_message mm mode_a =
    let h = mm.header in
    let d = mm.data_of in
    let spi = has mode_a 0x80 in
    let high = (mode_a >>> 8) % 256 in
    let low = mode_a % 256 in
    record mm {
      header = record h {
        source = source_mode_ac;
        addrtype = addr_mode_a;
        msgtype = 32;
        msgbits = 16;
        msg = set (set h.msg 0 high) 1 low;
        verbatim = set (set h.verbatim 0 high) 1 low;
        addr = bit_or (bit_and mode_a 0xff7f) non_icao_address;
        correctedbits = 0;
      };
      data_of = record d {
        identity = record d.identity {
          squawk = bit_and mode_a 0x7777;
          squawk_valid = true;
          spi = spi;
          spi_valid = true;
        };
        altitudes =
            if spi then d.altitudes else mode_c_altitude (mode_a_to_mode_c mode_a) d.altitudes;
      };
    }
