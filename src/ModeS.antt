-- ===== src/ModeS.antt =====
-- mode_s.c: the decoder of Mode S messages, and the field readers of mode_s.h.
pub mod Bits
pub mod Altitude
pub mod Correct
pub mod Score
pub mod Message
pub mod Squitter
pub mod Decode
pub mod Blank
mod Tests
