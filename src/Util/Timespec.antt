-- ===== src/Util/Timespec.antt =====
-- util.c: `normalize_timespec`.
use rbfeeder.Base.{
  ℕ, suc, ◌-◌, ◌/◌, ◌%◌, ◌<◌, leb, if◌then◌else◌, ◌≡◌, refl, ap, arith, Bool-cases, inl, inr,
}
use rbfeeder.Base.Int.{ℤ, pos, negsuc, sub_ℕ, ◌+ℤ◌, ◌-ℤ◌, ◌*ℤ◌, ◌≤ℤ◌}

-- `struct timespec`
pub record Timespec : Type 0 where
  pub tv_sec : ℤ
  pub tv_nsec : ℤ

-- `/` and `%` of C, which round towards zero, by a positive number.
unfoldable pub quotient : ℤ → ℕ → ℤ
quotient (pos n) d = pos (n / d)
quotient (negsuc n) d = sub_ℕ 0 (suc n / d)

unfoldable pub remainder : ℤ → ℕ → ℤ
remainder (pos n) d = pos (n % d)
remainder (negsuc n) d = sub_ℕ 0 (suc n % d)

-- `normalize_timespec`
unfoldable pub normalize_timespec : Timespec → Timespec
normalize_timespec ts =
    let adjust = quotient ts.tv_nsec 1000000000 +ℤ pos 1 in
    elim ts.tv_nsec [
      | pos n ↦
          if leb 1000000000 n
          then record {
            tv_sec = ts.tv_sec +ℤ quotient ts.tv_nsec 1000000000;
            tv_nsec = remainder ts.tv_nsec 1000000000;
          }
          else ts
      | negsuc n ↦ record {
        tv_sec = ts.tv_sec -ℤ adjust;
        tv_nsec = remainder (ts.tv_nsec +ℤ pos 1000000000 *ℤ adjust) 1000000000;
      }
    ]

-- The same time, with the nanoseconds in range.
pub record IsNormal (sec nsec : ℤ) (ts : Timespec) : Type 0 where
  pub carry : ℤ
  pub rest : ℕ
  pub in_range : rest < 1000000000
  pub seconds : ts.tv_sec ≡ sec +ℤ carry
  pub nanoseconds : ts.tv_nsec ≡ pos rest
  pub same_time : nsec ≡ pos 1000000000 *ℤ carry +ℤ pos rest

-- Nanoseconds above -1000000000 are brought into the range from 0 to 999999999, with the seconds
-- adjusted so that the time is the same.
pub normalize_timespec-IsNormal :
    (sec nsec : ℤ)
    → negsuc 999999998 ≤ℤ nsec
    → IsNormal sec nsec (normalize_timespec (record { tv_sec = sec; tv_nsec = nsec }))
unfolding normalize_timespec quotient remainder ◌+ℤ◌ ◌-ℤ◌ ◌*ℤ◌
normalize_timespec-IsNormal sec (pos n) h = elim (Bool-cases (leb 1000000000 n)) [
  | inl large ↦ rw large record {
    carry = pos (n / 1000000000);
    rest = n % 1000000000;
    in_range = omega arith;
    seconds = refl;
    nanoseconds = refl;
    same_time = ground arith;
  }
  | inr small ↦ rw small record {
    carry = pos 0;
    rest = n;
    in_range = ground arith;
    seconds = ground arith;
    nanoseconds = refl;
    same_time = ground arith;
  }
]
normalize_timespec-IsNormal sec (negsuc n) h = record {
  carry = negsuc 0;
  rest = 999999999 - n;
  in_range = omega arith;
  seconds = rw none_whole (ground arith);
  nanoseconds = rw none_whole (rw positive (ap pos (omega arith)));
  same_time = ground arith;
}
  where
    none_whole : suc n / 1000000000 ≡ 0
    none_whole = omega arith

    positive : negsuc n +ℤ pos 1000000000 *ℤ pos 1 ≡ pos (999999999 - n)
    positive = ground arith
