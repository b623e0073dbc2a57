-- ===== src/Base/Digits.antt =====
-- Numbers read back from their decimal digits, as atoi and the readers of length fields do.
use tox_suite.Base.{
  ℕ, zero, suc, ◌+◌, ◌-◌, ◌*◌, ◌/◌, ◌%◌, ◌<◌, ◌≡◌, refl, ap, ◌∙◌, inl, inr, Bool, true, false, ◌&&◌,
  List, [], ◌∷◌, ◌++◌, arith, ltb, leb, Bool-cases, All,
}
use tox_suite.Base.Decimal.{decimal, digits_onto}
use tox_suite.Base.Int.{ℤ, pos, negsuc}

abbrev pub is_digit : ℕ → Bool
is_digit c = leb b'0' c && leb c b'9'

-- The digits at the front of a text, after the value so far, and what follows them.
abbrev pub read_digits : ℕ → List ℕ → ℕ × List ℕ
read_digits v [] = (v, [])
read_digits v (c ∷ s) = elim (is_digit c) [
  | true ↦ read_digits (v * 10 + (c - b'0')) s
  | false ↦ (v, c ∷ s)
]

-- A text that no digit stands at the front of.
abbrev pub Stops : List ℕ → Type 0
Stops [] = Unit
Stops (c ∷ s) = is_digit c ≡ false

digit_value : (n : ℕ) → n < 10 → is_digit (48 + n) ≡ true
digit_value n h = ground arith

read-digit :
    (v d : ℕ) (s : List ℕ) → d < 10 → read_digits v ((48 + d) ∷ s) ≡ read_digits (v * 10 + d) s
read-digit v d s h =
    rw (digit_value d h, read_digits) (ap (λ k. read_digits (v * 10 + k) s) (omega arith))

read-digits_onto :
    (fuel n : ℕ) (acc rest : List ℕ)
    → n < fuel
    → read_digits 0 (digits_onto fuel n acc ++ rest) ≡ read_digits n (acc ++ rest)
unfolding digits_onto
read-digits_onto zero n acc rest h = absurd (omega arith)
read-digits_onto (suc fuel) n acc rest h = elim (Bool-cases (ltb n 10)) [
  | inl e ↦ rw e (
      read-digit 0 (n % 10) (acc ++ rest) (omega arith)
      ∙ ap (λ k. read_digits k (acc ++ rest)) (ground (arith, e)))
  | inr e ↦ rw e (
      read-digits_onto fuel (n / 10) ((48 + n % 10) ∷ acc) rest (ground (arith, e))
      ∙ read-digit (n / 10) (n % 10) (acc ++ rest) (omega arith)
      ∙ ap (λ k. read_digits k (acc ++ rest)) (omega arith))
]

digits_onto-cons :
    (fuel n : ℕ) (acc : List ℕ)
    → n < fuel
    → (d : ℕ) × (ds : List ℕ) × (digits_onto fuel n acc ≡ d ∷ ds) × (is_digit d ≡ true)
unfolding digits_onto
digits_onto-cons zero n acc h = absurd (omega arith)
digits_onto-cons (suc fuel) n acc h = elim (Bool-cases (ltb n 10)) [
  | inl e ↦ (48 + n % 10, acc, rw e, digit_value (n % 10) (omega arith))
  | inr e ↦
      let (d, ds, same, digit) =
        digits_onto-cons fuel (n / 10) ((48 + n % 10) ∷ acc) (ground (arith, e)) in
      (d, ds, rw e same, digit)
]

-- A printed number starts with a digit.
pub decimal-cons : (n : ℕ) → (d : ℕ) × (ds : List ℕ) × (decimal n ≡ d ∷ ds) × (is_digit d ≡ true)
unfolding decimal
decimal-cons n = digits_onto-cons (suc n) n [] (omega arith)

digits_onto-All :
    (P : ℕ → Type 0)
    → ((d : ℕ) → d < 10 → P (48 + d))
    → (fuel n : ℕ) (acc : List ℕ) → All P acc
    → All P (digits_onto fuel n acc)
unfolding digits_onto
digits_onto-All P h zero n acc a = a
digits_onto-All P h (suc fuel) n acc a = elim (Bool-cases (ltb n 10)) [
  | inl e ↦ rw e (h (n % 10) (omega arith), a)
  | inr e ↦
      rw e (digits_onto-All P h fuel (n / 10) ((48 + n % 10) ∷ acc) (h (n % 10) (omega arith), a))
]

-- What holds of the ten digits holds of every byte of a printed number.
pub decimal-All : (P : ℕ → Type 0) → ((d : ℕ) → d < 10 → P (48 + d)) → (n : ℕ) → All P (decimal n)
unfolding decimal
decimal-All P h n = digits_onto-All P h (suc n) n [] tt

-- A number that is printed is read back, up to the first byte that is no digit.
pub read_digits-decimal :
    (n : ℕ) (rest : List ℕ) → Stops rest → read_digits 0 (decimal n ++ rest) ≡ (n, rest)
unfolding decimal
read_digits-decimal n rest s = read-digits_onto (suc n) n [] rest (omega arith) ∙ stop n rest s
  where
    stop : (n : ℕ) (rest : List ℕ) → Stops rest → read_digits n rest ≡ (n, rest)
    stop n [] s = refl
    stop n (c ∷ rest) s = rw (s, read_digits)

-- "%lld"
abbrev pub signed_decimal : ℤ → List ℕ
signed_decimal (pos n) = decimal n
signed_decimal (negsuc n) = b'-' ∷ decimal (suc n)
