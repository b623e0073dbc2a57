-- ===== src/Base/Words.antt =====
-- Machine words. An unsigned word of w bits is a number below 2 ^ w; a conversion to it keeps the
-- residue. A conversion to `int` keeps the 32-bit pattern, as the compilers for the target do.
use tox_suite.Base.{ℕ, ◌+◌, ◌-◌, ◌%◌, ◌^◌, ◌<◌, ◌≡◌, arith, ltb, if◌then◌else◌}
use tox_suite.Base.Int.{ℤ, pos, negsuc, ◌<ℤ◌, ◌≤ℤ◌}

abbrev pub u32_mod : ℕ
u32_mod = 2 ^ 32

abbrev pub u64_mod : ℕ
u64_mod = 2 ^ 64

-- UINT32_MAX and UINT64_MAX
abbrev pub u32_max : ℕ
u32_max = 4294967295

abbrev pub u64_max : ℕ
u64_max = 18446744073709551615

-- Unsigned subtraction wraps.
abbrev pub sub_u64 : ℕ → ℕ → ℕ
sub_u64 a b = (a + u64_mod - b) % u64_mod

abbrev pub add_u64 : ℕ → ℕ → ℕ
add_u64 a b = (a + b) % u64_mod

-- (uint64_t) x
unfoldable pub to_u64 : ℤ → ℕ
to_u64 (pos n) = n % u64_mod
to_u64 (negsuc n) = u64_mod - 1 - n % u64_mod

-- (uint32_t) x
unfoldable pub to_u32 : ℤ → ℕ
to_u32 (pos n) = n % u32_mod
to_u32 (negsuc n) = u32_mod - 1 - n % u32_mod

-- (int) x
unfoldable pub to_i32 : ℤ → ℤ
unfolding to_u32
to_i32 x = if ltb (to_u32 x) (2 ^ 31) then pos (to_u32 x) else negsuc (u32_mod - 1 - to_u32 x)

-- A value that an `int` can hold is kept.
pub to_i32_of_small : (x : ℤ) → x <ℤ pos (2 ^ 31) → negsuc (2 ^ 31 - 1) ≤ℤ x → to_i32 x ≡ x
unfolding to_i32
to_i32_of_small (pos n) h l = ground arith
to_i32_of_small (negsuc n) h l = ground arith

-- A value that a `uint64_t` can hold is kept.
pub to_u64_of_nonneg : (n : ℕ) → n < u64_mod → to_u64 (pos n) ≡ n
unfolding to_u64
to_u64_of_nonneg n h = omega arith
