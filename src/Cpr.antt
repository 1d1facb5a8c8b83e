-- ===== src/Cpr.antt =====
-- cpr.c: positions from the compact position reports.
pub mod Zones
pub mod Decode
pub mod Encode
mod Tests
