-- ===== src/IcaoFilter/Defs.antt =====
-- icao_filter.c, function by function. A table is the list of its 4096 slots.
use rbfeeder.Base.{ℕ, zero, suc, ◌+◌, ◌-◌, bit_and, bit_xor, List, Bool, false, ◌||◌}
use rbfeeder.Base.{if◌then◌else◌, ◌==◌, leb, get_or, set, replicate, u32, u64, ◌<<<◌, ◌>>>◌}

-- `ICAO_FILTER_SIZE`, `MODES_ICAO_FILTER_TTL` and `EMPTY`
abbrev pub filter_size : ℕ
filter_size = 4096

abbrev pub filter_ttl : ℕ
filter_ttl = 60000

abbrev pub empty : ℕ
empty = 0xffff_ffff

-- One byte of `icaoHash`: `hash` is a `uint32_t`.
unfoldable pub hash_byte : ℕ → ℕ → ℕ
hash_byte hash byte =
    let added = u32 (hash + byte) in
    let spread = u32 (added + u32 (added <<< 10)) in bit_xor spread (spread >>> 6)

-- `icaoHash`
unfoldable pub icao_hash : ℕ → ℕ
icao_hash a =
    let h1 = hash_byte 0 (bit_and a 0xff) in
    let h2 = hash_byte h1 (bit_and (a >>> 8) 0xff) in
    let h3 = hash_byte h2 (bit_and (a >>> 16) 0xff) in
    let h4 = u32 (h3 + u32 (h3 <<< 3)) in
    let h5 = bit_xor h4 (h4 >>> 11) in bit_and (u32 (h5 + u32 (h5 <<< 15))) (filter_size - 1)

-- `(h+1) & (ICAO_FILTER_SIZE-1)`
unfoldable pub next_slot : ℕ → ℕ
next_slot h = bit_and (h + 1) (filter_size - 1)

abbrev pub slot : List ℕ → ℕ → ℕ
slot table h = get_or table h empty

-- The condition that ends a probe: an empty slot, or the address.
abbrev pub stops : List ℕ → ℕ → ℕ → Bool
stops table addr h = slot table h == empty || slot table h == addr

-- How a probe ends: at a slot, or back at its start.
pub data Probe : Type 0 where
  found : ℕ → Probe
  round : Probe
  no_fuel : Probe

-- The `while` loop of `icaoFilterAdd` and of `icaoFilterTest`, at slot `h`.
unfoldable pub probe : ℕ → List ℕ → ℕ → ℕ → ℕ → Probe
probe zero table addr h0 h = no_fuel
probe (suc fuel) table addr h0 h =
    let rest = probe fuel table addr h0 (next_slot h) in
    if stops table addr h then found h else if next_slot h == h0 then round else rest

-- The write of `icaoFilterAdd`; a full table is left alone.
abbrev pub store : List ℕ → ℕ → Probe → List ℕ
store table addr (found h) = if slot table h == empty then set table h addr else table
store table addr round = table
store table addr no_fuel = table

unfoldable pub add_to : List ℕ → ℕ → List ℕ
add_to table addr =
    store table addr (probe filter_size table addr (icao_hash addr) (icao_hash addr))

-- The test after the loop; a probe that has gone round stands at its start.
abbrev pub is_at : List ℕ → ℕ → ℕ → Probe → Bool
is_at table addr h0 (found h) = slot table h == addr
is_at table addr h0 round = slot table h0 == addr
is_at table addr h0 no_fuel = false

unfoldable pub test_in : List ℕ → ℕ → Bool
test_in table addr =
    is_at table addr (icao_hash addr)
      (probe filter_size table addr (icao_hash addr) (icao_hash addr))

pub data Generation : Type 0 where
  table_a table_b : Generation

-- The static variables, `next_flip` of `icaoFilterExpire` among them.
pub record Filter : Type 0 where
  pub a : List ℕ
  pub b : List ℕ
  pub active : Generation
  pub next_flip : ℕ

-- `memset(…, 0xFF, …)`
unfoldable pub cleared : List ℕ
cleared = replicate filter_size empty

-- `icaoFilterInit`; `next_flip` starts at 0 and is left alone.
unfoldable pub filter_init : ℕ → Filter
filter_init next_flip = record { a = cleared; b = cleared; active = table_a; next_flip = next_flip }

abbrev pub add_active : Generation → Filter → ℕ → Filter
add_active table_a f addr = record f { a = add_to f.a addr }
add_active table_b f addr = record f { b = add_to f.b addr }

-- `icaoFilterAdd`
unfoldable pub filter_add : Filter → ℕ → Filter
filter_add f addr = add_active f.active f addr

-- `icaoFilterTest`
unfoldable pub filter_test : Filter → ℕ → Bool
filter_test f addr = test_in f.a addr || test_in f.b addr

abbrev pub flip : Generation → Filter → Filter
flip table_a f = record f { b = cleared; active = table_b }
flip table_b f = record f { a = cleared; active = table_a }

-- `icaoFilterExpire` at the time `now` of `mstime`.
unfoldable pub filter_expire : Filter → ℕ → Filter
filter_expire f now =
    if leb f.next_flip now
    then record (flip f.active f) { next_flip = u64 (now + filter_ttl) }
    else f
