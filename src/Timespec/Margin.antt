-- ===== src/Timespec/Margin.antt =====
-- margin_cmp and timed_out: comparisons of wrapping counters.
use tox_suite.Base.{ℕ, ◌+◌, ◌≤◌, ◌<◌, ◌≡◌, ◌↔◌, true, false, arith}
use tox_suite.Base.Words.{u64_mod}
use tox_suite.Timespec.{margin_cmp, timed_out}

-- Where neither side wraps, the test asks for a distance strictly below the margin.
pub margin_cmp_iff :
    (value ref margin : ℕ)
    → margin ≤ value
    → value + margin < u64_mod
    → (margin_cmp value ref margin ≡ true) ↔ ((value < ref + margin) × (ref < value + margin))
unfolding margin_cmp
margin_cmp_iff value ref margin low high = ground arith

-- Above the reference and below the margin the subtraction wraps, and the test says no, however
-- near the two are.
pub margin_cmp_wraps :
    (value ref margin : ℕ)
    → ref < value
    → value < margin
    → margin < u64_mod
    → ref + margin ≤ value + u64_mod
    → margin_cmp value ref margin ≡ false
unfolding margin_cmp
margin_cmp_wraps value ref margin above below m r = ground arith

-- Where the sum does not wrap, a timeout has passed exactly when the clock has reached it.
pub timed_out_iff :
    (timestamp curtime timeout : ℕ)
    → timestamp + timeout < u64_mod
    → (timed_out timestamp curtime timeout ≡ true) ↔ (timestamp + timeout ≤ curtime)
unfolding timed_out
timed_out_iff timestamp curtime timeout h = ground arith
