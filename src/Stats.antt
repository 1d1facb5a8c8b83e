-- ===== src/Stats.antt =====
-- stats.c: the statistics of a span of time.
pub mod Totals
mod Tests
