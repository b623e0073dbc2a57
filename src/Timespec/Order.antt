-- ===== src/Timespec/Order.antt =====
-- timespec_compare, timespec_valid and the conversions to coarser units.
use tox_suite.Base.{◌/◌, ◌≡◌, ◌↔◌, true, arith, Bool-cases, inl, inr, ltb→lt, not-ltb→le}
use tox_suite.Base.Int.{
  pos, negsuc, ◌-ℤ◌, ◌≤ℤ◌, ◌<ℤ◌, int_laws, ltb_ℤ, parts_disjoint, ◌/ℤ◌, pos_part,
}
use tox_suite.Base.Words.{to_i32_of_small, to_u64}
use tox_suite.Timespec.{
  Timespec, IsNormal, timespec_to_ns, timespec_compare, timespec_valid, timespec_milliseconds,
  timespec_microseconds, nsec_per_msec, nsec_per_usec,
}

-- Of normalized timespecs, the sign of the comparison is the order of the nanoseconds.
pub timespec_compare_iff :
    (a b : Timespec)
    → IsNormal a
    → IsNormal b
    → ((timespec_compare a b <ℤ pos 0) ↔ (timespec_to_ns a <ℤ timespec_to_ns b))
      × ((pos 0 <ℤ timespec_compare a b) ↔ (timespec_to_ns b <ℤ timespec_to_ns a))
unfolding timespec_compare timespec_to_ns
timespec_compare_iff a b ha hb = elim (Bool-cases (ltb_ℤ a.tv_sec b.tv_sec)) [
  | inl e ↦ rw e (omega (int_laws, ltb→lt _ _ e))
  | inr e ↦ elim (Bool-cases (ltb_ℤ b.tv_sec a.tv_sec)) [
    | inl e' ↦ rw (e, e') (omega (int_laws, ltb→lt _ _ e'))
    | inr e' ↦
        rw (e, e', to_i32_of_small (a.tv_nsec -ℤ b.tv_nsec) (omega int_laws) (omega int_laws))
          (omega (int_laws, not-ltb→le _ _ e, not-ltb→le _ _ e'))
  ]
]

-- The test accepts exactly the normalized timespecs that do not lie before 1970.
pub timespec_valid_iff :
    (ts : Timespec)
    → ts.tv_nsec <ℤ pos 9223372036854775808
    → negsuc 9223372036854775807 ≤ℤ ts.tv_nsec
    → (timespec_valid ts ≡ true) ↔ ((pos 0 ≤ℤ ts.tv_sec) × IsNormal ts)
unfolding timespec_valid to_u64
timespec_valid_iff ts h l = ground arith

-- For a normalized timespec after 1970 the coarser units are the whole ones.
pub timespec_milliseconds_lem :
    (a : Timespec)
    → IsNormal a
    → (pos 0 ≤ℤ a.tv_sec)
    → timespec_milliseconds a ≡ pos (pos_part (timespec_to_ns a) / 1000000)
unfolding timespec_milliseconds timespec_to_ns
timespec_milliseconds_lem a h p = omega (
  int_laws,
  parts_disjoint a.tv_sec,
  parts_disjoint a.tv_nsec,
  parts_disjoint (timespec_to_ns a),
  parts_disjoint (a.tv_nsec /ℤ nsec_per_msec),
)

pub timespec_microseconds_lem :
    (a : Timespec)
    → IsNormal a
    → (pos 0 ≤ℤ a.tv_sec)
    → timespec_microseconds a ≡ pos (pos_part (timespec_to_ns a) / 1000)
unfolding timespec_microseconds timespec_to_ns
timespec_microseconds_lem a h p = omega (
  int_laws,
  parts_disjoint a.tv_sec,
  parts_disjoint a.tv_nsec,
  parts_disjoint (timespec_to_ns a),
  parts_disjoint (a.tv_nsec /ℤ nsec_per_usec),
)
