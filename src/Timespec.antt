-- ===== src/Timespec.antt =====
-- src/timespec.c and src/timespec.h: the arithmetic of `struct timespec`.
-- `time_t` and `long` are signed and 64 bits wide; their overflow is undefined and left out.
pub mod Subtract
pub mod Add
pub mod Order
pub mod Margin
mod Tests
use tox_suite.Base.{
  ℕ, zero, suc, ◌+◌, ◌-◌, ◌%◌, Bool, true, false, ◌&&◌, not, Option, none, some, ltb, leb,
  if◌then◌else◌,
}
use tox_suite.Base.Int.{ℤ, pos, negsuc, ◌+ℤ◌, ◌-ℤ◌, ◌*ℤ◌, ◌/ℤ◌, ◌%ℤ◌, ltb_ℤ, beq_ℤ, ◌≤ℤ◌, ◌<ℤ◌}
use tox_suite.Base.Words.{to_i32, to_u64, u32_mod, sub_u64, add_u64}

pub record Timespec : Type 0 where
  pub tv_sec : ℤ
  pub tv_nsec : ℤ

abbrev pub msec_per_sec : ℕ
msec_per_sec = 1000

abbrev pub usec_per_sec : ℕ
usec_per_sec = 1000000

abbrev pub nsec_per_usec : ℕ
nsec_per_usec = 1000

abbrev pub nsec_per_msec : ℕ
nsec_per_msec = 1000000

abbrev pub nsec_per_sec : ℕ
nsec_per_sec = 1000000000

pub margin_cmp : ℕ → ℕ → ℕ → Bool
margin_cmp value ref margin =
    if ltb ref value then ltb (sub_u64 value margin) ref else ltb ref (add_u64 value margin)

pub timed_out : ℕ → ℕ → ℕ → Bool
timed_out timestamp curtime timeout = leb (add_u64 timestamp timeout) curtime

-- The result goes through `r`, which no caller aliases with an operand.
unfoldable pub timespec_subtract : Timespec → Timespec → Timespec
timespec_subtract a b =
    let nsec = a.tv_nsec -ℤ b.tv_nsec in
    if ltb_ℤ nsec (pos 0)
    then record { tv_sec = a.tv_sec -ℤ pos 1 -ℤ b.tv_sec; tv_nsec = nsec +ℤ pos nsec_per_sec }
    else record { tv_sec = a.tv_sec -ℤ b.tv_sec; tv_nsec = nsec }

pub nanosec_diff : Timespec → Timespec → Timespec
nanosec_diff start end =
    if ltb_ℤ (end.tv_nsec -ℤ start.tv_nsec) (pos 0)
    then record {
      tv_sec = end.tv_sec -ℤ start.tv_sec -ℤ pos 1;
      tv_nsec = pos nsec_per_sec +ℤ end.tv_nsec -ℤ start.tv_nsec;
    }
    else record { tv_sec = end.tv_sec -ℤ start.tv_sec; tv_nsec = end.tv_nsec -ℤ start.tv_nsec }

unfoldable pub timespec_to_ns : Timespec → ℤ
timespec_to_ns ts = ts.tv_sec *ℤ nsec_per_sec +ℤ ts.tv_nsec

unfoldable pub nanosec_timeout : Timespec → Timespec → ℕ → Bool
nanosec_timeout timestamp curtime timeout =
    leb timeout (to_u64 (timespec_to_ns (timespec_subtract curtime timestamp)))

-- The last two statements of the three functions below.
adjust : Timespec → ℤ → ℤ → Timespec
adjust ts nsec sec = record {
  tv_sec = ts.tv_sec +ℤ (nsec /ℤ nsec_per_sec +ℤ sec);
  tv_nsec = nsec %ℤ nsec_per_sec;
}

pub timespec_addms : Timespec → ℤ → Timespec
unfolding adjust
timespec_addms ts ms =
    let sec = to_i32 (ms /ℤ msec_per_sec) in
    let rest = ms -ℤ sec *ℤ msec_per_sec in adjust ts (ts.tv_nsec +ℤ rest *ℤ nsec_per_msec) sec

pub timespec_addmicros : Timespec → ℤ → Timespec
unfolding adjust
timespec_addmicros ts micro =
    let sec = to_i32 (micro /ℤ usec_per_sec) in
    let rest = micro -ℤ sec *ℤ usec_per_sec in adjust ts (ts.tv_nsec +ℤ rest *ℤ nsec_per_usec) sec

pub timespec_addns : Timespec → ℤ → Timespec
unfolding adjust
timespec_addns ts ns =
    let sec = to_i32 (ns /ℤ nsec_per_sec) in
    let rest = ns -ℤ sec *ℤ nsec_per_sec in adjust ts (ts.tv_nsec +ℤ rest) sec

pub timespec_milliseconds : Timespec → ℤ
timespec_milliseconds a = a.tv_sec *ℤ msec_per_sec +ℤ a.tv_nsec /ℤ nsec_per_msec

pub timespec_microseconds : Timespec → ℤ
timespec_microseconds a = a.tv_sec *ℤ usec_per_sec +ℤ a.tv_nsec /ℤ nsec_per_usec

pub timespec_equal : Timespec → Timespec → Bool
timespec_equal a b = beq_ℤ a.tv_sec b.tv_sec && beq_ℤ a.tv_nsec b.tv_nsec

-- The difference of two `long` is returned as an `int`.
pub timespec_compare : Timespec → Timespec → ℤ
timespec_compare lhs rhs =
    if ltb_ℤ lhs.tv_sec rhs.tv_sec
    then negsuc 0
    else if ltb_ℤ rhs.tv_sec lhs.tv_sec
    then pos 1
    else to_i32 (lhs.tv_nsec -ℤ rhs.tv_nsec)

pub timespec_valid : Timespec → Bool
timespec_valid ts =
    if ltb_ℤ ts.tv_sec (pos 0)
    then false
    else if leb nsec_per_sec (to_u64 ts.tv_nsec)
    then false
    else true

-- The loop of `__iter_div_u64_rem`, with fuel; `none` means that the fuel ran out.
pub iter_div_u64_rem : ℕ → ℕ → ℕ → ℕ → Option (ℕ × ℕ)
iter_div_u64_rem zero dividend divisor ret = none
iter_div_u64_rem (suc fuel) dividend divisor ret =
    let next = iter_div_u64_rem fuel (dividend - divisor) divisor ((ret + 1) % u32_mod) in
    if leb divisor dividend then next else some (ret, dividend)

store_quotient : Timespec → Option (ℕ × ℕ) → Option Timespec
store_quotient a none = none
store_quotient a (some (quotient, remainder)) =
    some (record { tv_sec = a.tv_sec +ℤ pos quotient; tv_nsec = pos remainder })

-- One round for each unit of the dividend is enough for any divisor but 0.
pub timespec_add_ns : Timespec → ℕ → Option Timespec
unfolding store_quotient
timespec_add_ns a ns =
    let sum = to_u64 (a.tv_nsec +ℤ pos ns) in
    store_quotient a (iter_div_u64_rem (suc sum) sum nsec_per_sec 0)

-- The source resets `tv_sec` twice and `tv_nsec` not at all.
pub ns_to_timespecme : Timespec → ℕ → Option Timespec
ns_to_timespecme a ns = timespec_add_ns (record a { tv_sec = pos 0 }) ns

-- Nanoseconds in range: what the source calls a normalized timespec.
abbrev pub IsNormal : Timespec → Type 0
IsNormal ts = (pos 0 ≤ℤ ts.tv_nsec) × (ts.tv_nsec <ℤ pos nsec_per_sec)
