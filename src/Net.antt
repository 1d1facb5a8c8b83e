-- ===== src/Net.antt =====
-- net_io.c: the Beast format and its frames.
pub mod Frames
pub mod Beast
pub mod Avr
pub mod Outputs
pub mod Levels
pub mod Lines
pub mod Pieces
pub mod Remote
pub mod Reports
mod Tests
