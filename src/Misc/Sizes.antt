-- ===== src/Misc/Sizes.antt =====
-- human_readable_filesize, get_elapsed_time_str and min of src/misc.c.
use tox_suite.Base.{
  ℕ, zero, suc, ◌+◌, ◌*◌, ◌/◌, ◌%◌, ◌^◌, ◌≤◌, ◌<◌, ◌≡◌, refl, ap, ◌∙◌, inl, inr, Option, none, some,
  List, [], ◌∷◌, ◌++◌, arith, ltb, if◌then◌else◌, not-ltb→le, Bool-cases, get_elem?, take,
  length-append,
}
use tox_suite.Base.Decimal.{decimal, length-decimal-le}
use mathlib.Core.Option
use tox_suite.Base.{take_all}
use native.Mathlib.Nat.{pow-suc}

-- The loop, with its `unit_prefix`; `none` is too little fuel.
unfoldable pub shrink : ℕ → ℕ → ℕ → Option (ℕ × ℕ)
shrink zero size unit_prefix = none
shrink (suc fuel) size unit_prefix =
    let rest = shrink fuel (size / 1024) (unit_prefix + 1) in
    if ltb 9999 size then rest else some (size, unit_prefix)

-- " KMGTPEZY"
abbrev pub unit_letter : List ℕ
unit_letter = b' ' ∷ b'K' ∷ b'M' ∷ b'G' ∷ b'T' ∷ b'P' ∷ b'E' ∷ b'Z' ∷ b'Y' ∷ []

-- The text before snprintf cuts it at 7 bytes; a letter out of the array is a fault.
unfoldable pub size_text : ℕ × ℕ → Option (List ℕ)
size_text (size, unit_prefix) =
    Option.map (λ letter. decimal size ++ b' ' ∷ letter ∷ b'b' ∷ [])
      (get_elem? unit_letter unit_prefix)

abbrev printed : Option (ℕ × ℕ) → Option (List ℕ)
printed none = none
printed (some p) = Option.map (take 7) (size_text p)

unfoldable pub human_readable_filesize : ℕ → Option (List ℕ)
unfolding shrink size_text
human_readable_filesize size = printed (shrink 6 size 0)

-- The days, hours and minutes that get_elapsed_time_str prints.
unfoldable pub elapsed : ℕ → ℕ × ℕ × ℕ
elapsed secs = (secs / 3600 / 24, secs / 3600 % 24, secs % 3600 / 60)

-- The parts are in the range of a clock, and together with the seconds that are not printed they
-- make up the time.
pub elapsed_lem :
    (secs : ℕ)
    → let (days, hours, minutes) = elapsed secs in
      (hours < 24) × (minutes < 60) × (((days * 24 + hours) * 60 + minutes) * 60 + secs % 60 ≡ secs)
unfolding elapsed
elapsed_lem secs = omega arith

shrink_ends :
    (k size p : ℕ)
    → size < 10000 * 1024 ^ k
    → (m : ℕ) × (n : ℕ) × (shrink (suc k) size p ≡ some (m, n)) × (m ≤ 9999) × (n ≤ p + k)
unfolding shrink
shrink_ends zero size p h = (size, p, ground arith, ground arith, ground arith)
shrink_ends (suc k) size p h = elim (Bool-cases (ltb 9999 size)) [
  | inl e ↦
      let (m, n, r, small, few) =
        shrink_ends k (size / 1024) (p + 1) (omega (arith, h, pow-suc 1024 k)) in
      (m, n, rw (e, shrink) r, small, omega (arith, few))
  | inr e ↦ (size, p, rw (e, shrink), not-ltb→le 9999 size e, omega arith)
]

letter : (n : ℕ) → n ≤ 5 → (c : ℕ) × (get_elem? unit_letter n ≡ some c)
letter zero h = (b' ', refl)
letter (suc zero) h = (b'K', refl)
letter (suc (suc zero)) h = (b'M', refl)
letter (suc (suc (suc zero))) h = (b'G', refl)
letter (suc (suc (suc (suc zero)))) h = (b'T', refl)
letter (suc (suc (suc (suc (suc zero))))) h = (b'P', refl)
letter (suc (suc (suc (suc (suc (suc n)))))) h = absurd (omega arith)

-- Every size of 63 bits is written, in at most six rounds of the loop, with a number of at most
-- four digits and a letter of the array, and nothing is cut off.
pub human_readable_filesize_lem :
    (size : ℕ)
    → size < 2 ^ 63
    → (m : ℕ) × (c : ℕ) × (human_readable_filesize size ≡ some (decimal m ++ b' ' ∷ c ∷ b'b' ∷ []))
      × (m ≤ 9999)
unfolding human_readable_filesize size_text
human_readable_filesize_lem size h =
    let (m, n, r, small, few) = shrink_ends 5 size 0 (omega (arith, h)) in
    let (c, l) = letter n (omega (arith, few)) in
    (
      m,
      c,
      ap printed r
          ∙ ap (λ o. Option.map (take 7) (Option.map (λ x. decimal m ++ b' ' ∷ x ∷ b'b' ∷ []) o)) l
          ∙ ap some (
              take_all 7 (decimal m ++ b' ' ∷ c ∷ b'b' ∷ []) (
                omega (
                  arith,
                  length-append (decimal m) (b' ' ∷ c ∷ b'b' ∷ []),
                  length-decimal-le m 3 (omega (arith, small)),
                ))),
      small,
    )
