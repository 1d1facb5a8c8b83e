-- ===== src/IcaoFilter.antt =====
-- icao_filter.c: the filter of recently seen addresses, an open-addressed hash table in two
-- generations.
pub mod Defs
pub mod Probe
pub mod Contents
pub mod Filter
pub mod Aging
mod Tests
