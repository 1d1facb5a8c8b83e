-- ===== src/Util/Tests.antt =====
-- util.c at some times, and the theorem at one.
use rbfeeder.Base.{◌≡◌, refl, arith}
use rbfeeder.Base.Int.{pos, negsuc, ◌+ℤ◌, ◌-ℤ◌, ◌*ℤ◌}
use rbfeeder.Util.Timespec.{
  quotient, remainder, normalize_timespec, IsNormal, normalize_timespec-IsNormal,
}

-- Of -1.5 seconds the nanoseconds stay negative, and the whole second is lost.
out_of_range :
    normalize_timespec (record { tv_sec = pos 7; tv_nsec = negsuc 1499999999 })
    ≡ record { tv_sec = pos 7; tv_nsec = negsuc 499999999 }
unfolding normalize_timespec quotient remainder ◌+ℤ◌ ◌-ℤ◌ ◌*ℤ◌
out_of_range = refl

normalize_timespec-IsNormal_example :
    IsNormal (pos 7) (negsuc 4) (normalize_timespec (record { tv_sec = pos 7; tv_nsec = negsuc 4 }))
normalize_timespec-IsNormal_example = normalize_timespec-IsNormal (pos 7) (negsuc 4) (omega arith)
