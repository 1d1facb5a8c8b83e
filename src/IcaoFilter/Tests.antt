-- ===== src/IcaoFilter/Tests.antt =====
-- icao_filter.c with one address, and the theorems at it.
use rbfeeder.Base.{◌≡◌, refl, arith, true, false, ◌||◌, ◌==◌}
use rbfeeder.Base.{get_or-replicate}
use rbfeeder.IcaoFilter.Defs.{
  filter_size, empty, hash_byte, icao_hash, cleared, filter_init, filter_add, filter_test,
  filter_expire,
}
use rbfeeder.IcaoFilter.Filter.{HasRoom, IsFilter, init-IsFilter, add-IsFilter, active_table}
use rbfeeder.IcaoFilter.Aging.{test-filter_add, added_survives, two_expiries_forget}

hash_of_address : icao_hash 0x4840d6 ≡ 2587
unfolding icao_hash hash_byte
hash_of_address = refl

init_room : HasRoom (active_table (filter_init 0).active (filter_init 0))
unfolding filter_init cleared
init_room = (0, omega arith, get_or-replicate filter_size 0 empty)

add-IsFilter_example : IsFilter (filter_add (filter_init 0) 0x4840d6)
add-IsFilter_example = add-IsFilter (filter_init 0) 0x4840d6 (init-IsFilter 0) (omega arith)

test-filter_add_example :
    filter_test (filter_add (filter_init 0) 0x4840d6) 0x4840d6
    ≡ (0x4840d6 == 0x4840d6 || filter_test (filter_init 0) 0x4840d6)
test-filter_add_example =
    test-filter_add (filter_init 0) 0x4840d6 0x4840d6 (init-IsFilter 0) (omega arith) (omega arith)
      init_room

added_survives_example :
    filter_test (filter_expire (filter_add (filter_init 0) 0x4840d6) 1000) 0x4840d6 ≡ true
added_survives_example =
    added_survives (filter_init 0) 0x4840d6 1000 (init-IsFilter 0) (omega arith) init_room

two_expiries_forget_example :
    filter_test (filter_expire (filter_expire (filter_init 0) 1000) 62000) 0x4840d6 ≡ false
unfolding filter_init
two_expiries_forget_example =
    two_expiries_forget (filter_init 0) 0x4840d6 1000 62000 (omega arith) (omega arith)
      (omega arith)
