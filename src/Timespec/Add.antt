-- ===== src/Timespec/Add.antt =====
-- Additions of a delay to a timespec, and the division loop of timespec.h.
use mathlib.Core.Path.{ap₂}
use native.Mathlib.Nat.{mod-add-mod, mod-eq-sub-mod, mod-eq_of_lt, div-eq-sub-div, div-eq_of_lt}
use tox_suite.Base.{
  sym, ap, ◌∙◌, not-leb→lt, leb→le, ℕ, zero, suc, ◌+◌, ◌-◌, ◌*◌, ◌/◌, ◌%◌, ◌<◌, ◌≡◌, sym, ap, ◌∙◌,
  inl, inr, some, arith, leb, not-leb→lt, leb→le, Bool-cases,
}
use tox_suite.Base.Int.{
  ℤ, pos, negsuc, ◌+ℤ◌, ◌-ℤ◌, ◌*ℤ◌, ◌/ℤ◌, ◌≤ℤ◌, ◌<ℤ◌, int_laws, pos_part, parts_disjoint,
}
use tox_suite.Base.Words.{
  to_u64, to_u64_of_nonneg, to_i32, to_i32_of_small, to_u64, to_u64_of_nonneg, u32_mod,
}
use tox_suite.Timespec.{
  Timespec, IsNormal, timespec_to_ns, adjust, store_quotient, timespec_addms, timespec_addmicros,
  timespec_addns, iter_div_u64_rem, timespec_add_ns, ns_to_timespecme,
}

-- The carry from nanoseconds to seconds loses nothing.
to_ns-adjust :
    (ts : Timespec) (nsec sec : ℤ)
    → timespec_to_ns (adjust ts nsec sec) ≡ (ts.tv_sec +ℤ sec) *ℤ 1000000000 +ℤ nsec
unfolding timespec_to_ns adjust
to_ns-adjust ts nsec sec = omega (int_laws, parts_disjoint nsec)

-- It leaves nanoseconds in range if it was given no negative number of them.
adjust-IsNormal : (ts : Timespec) (nsec sec : ℤ) → pos 0 ≤ℤ nsec → IsNormal (adjust ts nsec sec)
unfolding adjust
adjust-IsNormal ts nsec sec h = omega (int_laws, parts_disjoint nsec)

-- Adding milliseconds, positive or negative, adds so many nanoseconds, if the whole seconds fit
-- an `int`.
pub to_ns-timespec_addms :
    (ts : Timespec) (ms : ℤ)
    → ms <ℤ pos 2147483648000
    → negsuc 2147483647999 ≤ℤ ms
    → timespec_to_ns (timespec_addms ts ms) ≡ timespec_to_ns ts +ℤ ms *ℤ 1000000
unfolding timespec_addms
to_ns-timespec_addms ts ms h l =
    rw
      (
        to_i32_of_small (ms /ℤ 1000) (omega (int_laws, parts_disjoint ms))
            (omega (int_laws, parts_disjoint ms)),
        to_ns-adjust,
      )
      (unfold timespec_to_ns in omega int_laws)

-- Adding microseconds adds their nanoseconds.
pub to_ns-timespec_addmicros :
    (ts : Timespec) (micro : ℤ)
    → micro <ℤ pos 2147483648000000
    → negsuc 2147483647999999 ≤ℤ micro
    → timespec_to_ns (timespec_addmicros ts micro) ≡ timespec_to_ns ts +ℤ micro *ℤ 1000
unfolding timespec_addmicros
to_ns-timespec_addmicros ts ms h l =
    rw
      (
        to_i32_of_small (ms /ℤ 1000000) (omega (int_laws, parts_disjoint ms))
            (omega (int_laws, parts_disjoint ms)),
        to_ns-adjust,
      )
      (unfold timespec_to_ns in omega int_laws)

-- Adding nanoseconds adds them.
pub to_ns-timespec_addns :
    (ts : Timespec) (ns : ℤ)
    → ns <ℤ pos 2147483648000000000
    → negsuc 2147483647999999999 ≤ℤ ns
    → timespec_to_ns (timespec_addns ts ns) ≡ timespec_to_ns ts +ℤ ns
unfolding timespec_addns
to_ns-timespec_addns ts ms h l =
    rw
      (
        to_i32_of_small (ms /ℤ 1000000000) (omega (int_laws, parts_disjoint ms))
            (omega (int_laws, parts_disjoint ms)),
        to_ns-adjust,
      )
      (unfold timespec_to_ns in omega int_laws)

-- A delay that is not negative leaves a normalized timespec normalized.
pub timespec_addms-IsNormal :
    (ts : Timespec) (ms : ℕ)
    → IsNormal ts
    → ms < 2147483648000
    → IsNormal (timespec_addms ts (pos ms))
unfolding timespec_addms
timespec_addms-IsNormal ts ms h l =
    adjust-IsNormal ts (ts.tv_nsec +ℤ (pos ms -ℤ to_i32 (pos ms /ℤ 1000) *ℤ 1000) *ℤ 1000000)
      (to_i32 (pos ms /ℤ 1000))
      (rw (to_i32_of_small (pos ms /ℤ 1000) (omega int_laws) (omega int_laws)) (omega int_laws))

-- A negative delay whose part below a second exceeds the nanoseconds at hand leaves a negative
-- number of nanoseconds.
pub timespec_addms_negative :
    (ts : Timespec) (n : ℕ)
    → IsNormal ts
    → n < 999
    → pos_part ts.tv_nsec < suc n * 1000000
    → (timespec_addms ts (negsuc n)).tv_nsec <ℤ pos 0
unfolding timespec_addms adjust
timespec_addms_negative ts n h l b =
    let rest = negsuc n -ℤ negsuc n /ℤ 1000 *ℤ 1000 in
    rw (to_i32_of_small (negsuc n /ℤ 1000) (omega int_laws) (omega int_laws)) (
      omega (
        int_laws,
        parts_disjoint ts.tv_nsec,
        parts_disjoint rest,
        parts_disjoint (ts.tv_nsec +ℤ rest *ℤ 1000000),
      ))

-- With fuel above the dividend the loop ends, with the quotient in 32 bits and the remainder.
pub iter_div_u64_rem_lem :
    (fuel dividend divisor ret : ℕ)
    → dividend < fuel
    → 0 < divisor
    → ret < u32_mod
    → iter_div_u64_rem fuel dividend divisor ret
      ≡ some ((ret + dividend / divisor) % u32_mod, dividend % divisor)
unfolding iter_div_u64_rem
iter_div_u64_rem_lem zero dividend divisor ret h p r = elim h [ ]
iter_div_u64_rem_lem (suc fuel) dividend divisor ret h p r =
    elim (Bool-cases (leb divisor dividend)) [
      | inl e ↦ rw e (
          iter_div_u64_rem_lem fuel (dividend - divisor) divisor ((ret + 1) % u32_mod)
            (omega (arith, leb→le divisor dividend e)) p (omega arith)
          ∙ ap₂ (λ q r. some (q, r))
              (mod-add-mod (ret + 1) u32_mod ((dividend - divisor) / divisor)
                ∙ ap (λ t. t % u32_mod)
                    (omega (arith, div-eq-sub-div p (leb→le divisor dividend e))))
              (sym (mod-eq-sub-mod (leb→le divisor dividend e))))
      | inr e ↦ rw e (
          ap₂ (λ q r. some (q, r)) (omega (arith, div-eq_of_lt (not-leb→lt divisor dividend e)))
            (sym (mod-eq_of_lt (not-leb→lt divisor dividend e))))
    ]

-- The division loop of a normalized timespec and an unsigned delay.
split_sum :
    (a : Timespec) (ns : ℕ)
    → IsNormal a
    → pos_part a.tv_nsec + ns < 4294967296000000000
    → let sum = pos_part a.tv_nsec + ns in
      timespec_add_ns a ns
      ≡ some
          (record { tv_sec = a.tv_sec +ℤ pos (sum / 1000000000); tv_nsec = pos (sum % 1000000000) })
unfolding timespec_add_ns store_quotient
split_sum a ns h b =
    let e : to_u64 (a.tv_nsec +ℤ pos ns) ≡ pos_part a.tv_nsec + ns =
      ap to_u64 (omega (int_laws, parts_disjoint a.tv_nsec))
      ∙ to_u64_of_nonneg (pos_part a.tv_nsec + ns) (omega arith) in
    rw
      (
        e,
        timespec_add_ns,
        iter_div_u64_rem_lem (suc (pos_part a.tv_nsec + ns)) (pos_part a.tv_nsec + ns) 1000000000 0
            (omega arith) (omega arith) (omega arith),
      )
      (ap (λ q. store_quotient a (some (q, (pos_part a.tv_nsec + ns) % 1000000000))) (omega arith))

-- Adding unsigned nanoseconds to a normalized timespec ends, adds them, and leaves it normalized,
-- if the whole seconds fit the 32 bits of the quotient.
pub timespec_add_ns_lem :
    (a : Timespec) (ns : ℕ)
    → IsNormal a
    → pos_part a.tv_nsec + ns < 4294967296000000000
    → (r : Timespec) × (timespec_add_ns a ns ≡ some r)
      × (timespec_to_ns r ≡ timespec_to_ns a +ℤ pos ns)
      × IsNormal r
timespec_add_ns_lem a ns h b = (
  _,
  split_sum a ns h b,
  unfold timespec_to_ns in omega (int_laws, parts_disjoint a.tv_nsec),
  omega arith,
)

-- `ns_to_timespecme` ends, and what it leaves stands for the delay and for the nanoseconds that
-- the timespec held before.
pub ns_to_timespecme_lem :
    (a : Timespec) (ns : ℕ)
    → IsNormal a
    → pos_part a.tv_nsec + ns < 4294967296000000000
    → (r : Timespec) × (ns_to_timespecme a ns ≡ some r) × (timespec_to_ns r ≡ a.tv_nsec +ℤ pos ns)
unfolding ns_to_timespecme
ns_to_timespecme_lem a ns h b = (
  _,
  split_sum (record a { tv_sec = pos 0 }) ns h b,
  unfold timespec_to_ns in omega (int_laws, parts_disjoint a.tv_nsec),
)
