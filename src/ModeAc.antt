-- ===== src/ModeAc.antt =====
-- mode_ac.c: Mode A codes and the altitudes that they stand for as Mode C replies.
pub mod Defs
pub mod Gillham
pub mod Reply
mod Tests
