-- ===== src/Crc.antt =====
-- crc.c: the Mode S checksum and the error-correction tables.
pub mod Checksum
pub mod Linear
pub mod Division
pub mod Tables
pub mod Correct
pub mod Honest
pub mod Corrected
mod Tests
