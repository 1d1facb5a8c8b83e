-- ===== src/Stats/Tests.antt =====
-- stats.c: the sum of times, and the newer of two spans of which one has no start.
use rbfeeder.Base.{◌≡◌, refl}
use rbfeeder.Base.Int.{pos, ◌+ℤ◌}
use rbfeeder.Util.Timespec.{quotient, remainder}
use rbfeeder.Stats.Totals.{add_timespecs, first_start}

carried :
    add_timespecs
      record { tv_sec = pos 1; tv_nsec = pos 700000000 }
      record { tv_sec = pos 2; tv_nsec = pos 400000000 }
    ≡ record { tv_sec = pos 4; tv_nsec = pos 100000000 }
unfolding add_timespecs quotient remainder ◌+ℤ◌
carried = refl

no_start : first_start 0 5 ≡ 5
unfolding first_start
no_start = refl
