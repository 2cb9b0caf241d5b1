-- ===== src/Timespec/Tests.antt =====
-- Runs of `make_timespec` of time/src/main.c, and its theorem at one of them.
use linux_c_code.Base.{ℕ, ◌+◌, ◌*◌, ◌≤◌, ◌≡◌, refl, some, arith}
use linux_c_code.Base.Int.{pos, negsuc, ◌+ℤ◌, ◌-ℤ◌}
use linux_c_code.Timespec.{get_abs_now, quotient, modulo, times, carry_seconds, make_timespec}
use linux_c_code.Timespec.Carry.{at, make_timespec_lem}

make_timespec_example :
    (sec nsec : ℕ) × (make_timespec (at 1_642_389_471 887_352_293) (pos 1_113) ≡ some (at sec nsec))
    × (sec * 1_000_000_000 + nsec ≡ 1_642_389_471 * 1_000_000_000 + 887_352_293 + 1_113 * 1_000_000)
    × (nsec ≤ 1_000_000_000)
    × (get_abs_now (at sec nsec) ≡ get_abs_now (at 1_642_389_471 887_352_293) + 1_113)
make_timespec_example =
    make_timespec_lem 1_642_389_471 887_352_293 1_113 (omega arith) (omega arith)

-- A full second of nanoseconds is not carried.
full_second : make_timespec (at 7 500_000_000) (pos 500) ≡ some (at 7 1_000_000_000)
unfolding make_timespec carry_seconds quotient modulo times ◌+ℤ◌ ◌-ℤ◌
full_second = refl

-- Before now, the nanoseconds become negative.
one_before :
    make_timespec (at 7 0) (negsuc 0) ≡ some (record { tv_sec = pos 7; tv_nsec = negsuc 999_999 })
unfolding make_timespec carry_seconds quotient modulo times ◌+ℤ◌ ◌-ℤ◌
one_before = refl
