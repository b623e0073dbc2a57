-- ===== src/Base/Decimal.antt =====
-- Unsigned numbers in decimal, as printf writes them.
use tox_suite.Base.{
  ℕ, zero, suc, ◌+◌, ◌/◌, ◌%◌, ◌^◌, ◌≤◌, ◌<◌, List, [], ◌∷◌, arith, ltb, if◌then◌else◌, length,
}
use native.Mathlib.Nat.{pow-suc}

-- One round for each digit, the last one first; the fuel exceeds the number.
unfoldable pub digits_onto : ℕ → ℕ → List ℕ → List ℕ
digits_onto zero n acc = acc
digits_onto (suc fuel) n acc =
    let rest = digits_onto fuel (n / 10) ((48 + n % 10) ∷ acc) in
    if ltb n 10 then (48 + n % 10) ∷ acc else rest

unfoldable pub decimal : ℕ → List ℕ
unfolding digits_onto
decimal n = digits_onto (suc n) n []

digits_onto-length :
    (fuel n k : ℕ) (acc : List ℕ)
    → n < fuel
    → n < 10 ^ suc k
    → length (digits_onto fuel n acc) ≤ suc k + length acc
unfolding digits_onto
digits_onto-length zero n k acc h b = absurd (omega arith)
digits_onto-length (suc fuel) n zero acc h b = ground arith
digits_onto-length (suc fuel) n (suc k) acc h b =
    ground (arith, pow-suc 10 (suc k), digits_onto-length fuel (n / 10) k ((48 + n % 10) ∷ acc))

-- A number below a power of ten has at most so many digits.
pub length-decimal-le : (n k : ℕ) → n < 10 ^ suc k → length (decimal n) ≤ suc k
unfolding decimal
length-decimal-le n k b = omega (arith, digits_onto-length (suc n) n k [] (omega arith) b)
