-- ===== src/Util.antt =====
-- util.c: the arithmetic of times.
pub mod Timespec
mod Tests
