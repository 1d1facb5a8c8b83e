-- ===== src/ModeS/Squitter/Address.antt =====
-- mode_s.c: `setIMF`.
use rbfeeder.Base.{ℕ, bit_or, Bool, ◌&&◌, ◌==◌, if◌then◌else◌}
use rbfeeder.ModeS.Bits.{getbit}
use rbfeeder.ModeS.Message.{
  Message, Header, AddrType, addr_adsb_icao, addr_adsb_icao_nt, addr_adsr_icao, addr_tisb_icao,
  addr_adsb_other, addr_adsr_other, addr_tisb_trackfile, addr_tisb_other, addr_mode_a, addr_unknown,
}

-- `MODES_NON_ICAO_ADDRESS`, bit 24
abbrev pub non_icao_address : ℕ
non_icao_address = 0x1000000

unfoldable pub imf_type : AddrType → AddrType
imf_type addr_adsb_icao = addr_adsb_other
imf_type addr_adsb_icao_nt = addr_adsb_other
imf_type addr_tisb_icao = addr_tisb_trackfile
imf_type addr_adsr_icao = addr_adsr_other
imf_type addr_adsb_other = addr_adsb_other
imf_type addr_adsr_other = addr_adsr_other
imf_type addr_tisb_trackfile = addr_tisb_trackfile
imf_type addr_tisb_other = addr_tisb_other
imf_type addr_mode_a = addr_mode_a
imf_type addr_unknown = addr_unknown

unfoldable pub imf_header : Header → Header
imf_header h = record h { addr = bit_or h.addr non_icao_address; addrtype = imf_type h.addrtype }

-- `setIMF`
unfoldable pub set_imf : Message → Message
set_imf mm = record mm { header = imf_header mm.header }

-- `if (check_imf && getbit(me, bit)) setIMF(mm)`
unfoldable pub set_imf_at : Bool → ℕ → Message → Message
set_imf_at check_imf bit mm = if check_imf && getbit mm.raw.me bit == 1 then set_imf mm else mm
