-- ===== src/CommB.antt =====
-- comm_b.c: the content of Comm-B replies, which does not say which register it is from. Each decoder
-- gives a score, and the only best one is taken.
pub mod Reply
pub mod Registers
pub mod Intent
pub mod Turn
pub mod Speed
pub mod Weather
pub mod Choice
pub mod Best
pub mod Bounds
pub mod Override
pub mod Plausible
mod Tests
