-- ===== src/Timespec/Tests.antt =====
-- Runs of the timespec functions, and the theorems at concrete readings of a clock.
use tox_suite.Base.{◌≤◌, ◌≡◌, refl, ◌↔◌, true, arith}
use tox_suite.Base.Int.{pos, ◌+ℤ◌, ◌-ℤ◌, ◌*ℤ◌}
use tox_suite.Timespec.{Timespec, timespec_to_ns, timespec_subtract, nanosec_timeout}
use tox_suite.Timespec.Subtract.{nanosec_timeout_iff}

abbrev early : Timespec
early = record { tv_sec = pos 3; tv_nsec = pos 900000000 }

abbrev late : Timespec
late = record { tv_sec = pos 5; tv_nsec = pos 100000000 }

borrow : timespec_subtract late early ≡ record { tv_sec = pos 1; tv_nsec = pos 200000000 }
unfolding timespec_subtract ◌-ℤ◌ ◌+ℤ◌
borrow = refl

nanosec_timeout_iff_example :
    (nanosec_timeout early late 1200000000 ≡ true) ↔ (1200000000 ≤ 1200000000)
unfolding timespec_to_ns ◌*ℤ◌ ◌+ℤ◌
nanosec_timeout_iff_example =
    nanosec_timeout_iff early late 1200000000 1200000000 refl (omega arith)
