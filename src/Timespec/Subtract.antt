-- ===== src/Timespec/Subtract.antt =====
-- timespec_subtract, nanosec_diff and nanosec_timeout against the integers that they stand for.
use mathlib.Core.Path.{ap₂}
use tox_suite.Base.{
  ℕ, suc, ◌≤◌, ◌<◌, ◌≡◌, ◌↔◌, true, ◌^◌, arith, leb→le, le→leb, ltb→lt, not-ltb→le, Bool-cases, inl,
  inr,
}
use tox_suite.Base.Int.{pos, ◌+ℤ◌, ◌-ℤ◌, int_laws, ltb_ℤ, +ℤ-sub-cancel, negsuc}
use tox_suite.Base.Words.{to_u64, to_u64_of_nonneg, u64_mod}
use tox_suite.Timespec.{
  Timespec, IsNormal, timespec_subtract, timespec_to_ns, nanosec_diff, nanosec_timeout,
}

-- The difference of two timespecs stands for the difference of the nanoseconds.
pub to_ns-timespec_subtract :
    (a b : Timespec) → timespec_to_ns (timespec_subtract a b) ≡ timespec_to_ns a -ℤ timespec_to_ns b
unfolding timespec_subtract timespec_to_ns
to_ns-timespec_subtract a b = elim (Bool-cases (ltb_ℤ (a.tv_nsec -ℤ b.tv_nsec) (pos 0))) [
  | inl e ↦ rw e (omega int_laws)
  | inr e ↦ rw e (omega int_laws)
]

-- The difference of normalized timespecs is normalized.
pub timespec_subtract-IsNormal :
    (a b : Timespec) → IsNormal a → IsNormal b → IsNormal (timespec_subtract a b)
unfolding timespec_subtract
timespec_subtract-IsNormal a b ha hb = elim (Bool-cases (ltb_ℤ (a.tv_nsec -ℤ b.tv_nsec) (pos 0))) [
  | inl e ↦ rw e (omega (int_laws, ltb→lt _ _ e))
  | inr e ↦ rw e (omega (int_laws, not-ltb→le _ _ e))
]

-- The two functions that subtract timespecs agree on all of them, with the arguments exchanged.
pub nanosec_diff-eq-timespec_subtract :
    (start end : Timespec) → nanosec_diff start end ≡ timespec_subtract end start
unfolding timespec_subtract nanosec_diff
nanosec_diff-eq-timespec_subtract start end =
    elim (Bool-cases (ltb_ℤ (end.tv_nsec -ℤ start.tv_nsec) (pos 0))) [
      | inl e ↦
          rw e (ap₂ (λ s n. record { tv_sec = s; tv_nsec = n }) (omega int_laws) (omega int_laws))
      | inr e ↦ rw e
    ]

-- Between ordered readings of a clock, in range, a timeout has passed exactly when so many
-- nanoseconds lie between them.
pub nanosec_timeout_iff :
    (timestamp curtime : Timespec) (timeout elapsed : ℕ)
    → timespec_to_ns curtime ≡ timespec_to_ns timestamp +ℤ pos elapsed
    → elapsed < u64_mod
    → (nanosec_timeout timestamp curtime timeout ≡ true) ↔ (timeout ≤ elapsed)
unfolding nanosec_timeout
nanosec_timeout_iff timestamp curtime timeout elapsed e h =
    rw
      (
        to_ns-timespec_subtract curtime timestamp,
        e,
        +ℤ-sub-cancel (timespec_to_ns timestamp) (pos elapsed),
        to_u64_of_nonneg elapsed h,
      )
      (leb→le timeout elapsed, le→leb timeout elapsed)

-- Between readings out of order the difference wraps, and any timeout up to 2 ^ 63 has passed.
pub nanosec_timeout_backwards :
    (timestamp curtime : Timespec) (timeout lag : ℕ)
    → timespec_to_ns timestamp ≡ timespec_to_ns curtime +ℤ pos (suc lag)
    → lag < 2 ^ 63
    → timeout ≤ 2 ^ 63
    → nanosec_timeout timestamp curtime timeout ≡ true
unfolding nanosec_timeout to_u64
nanosec_timeout_backwards timestamp curtime timeout lag e h t =
    rw (to_ns-timespec_subtract curtime timestamp, e, back) (le→leb _ _ (omega arith))
  where
    back : timespec_to_ns curtime -ℤ (timespec_to_ns curtime +ℤ pos (suc lag)) ≡ negsuc lag
    back = omega int_laws
