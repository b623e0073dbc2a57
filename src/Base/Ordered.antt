-- ===== src/Base/Ordered.antt =====
-- Insertion before the first entry that passes a test, as the loops of `friend_info_add_entry` and
-- `call_tester_add_entry` do with `list_add_tail`, and lists ordered by a number.
use tox_suite.Base.{
  ℕ, zero, suc, ◌≤◌, ◌<◌, ◌≡◌, refl, inl, inr, Bool, none, some, List, [], ◌∷◌, arith, ltb, ◌==◌,
  if◌then◌else◌, Bool-cases,
}
use mathlib.Core.List.{Perm}
use mathlib.Core.List.Perm
use tox_suite.Base.Entries.{modify, find_first, has_key}

module _ {ℓ} {A : Type ℓ} where
  unfoldable pub insert_before : (A → Bool) → A → List A → List A
  insert_before p x [] = x ∷ []
  insert_before p x (e ∷ es) = if p e then x ∷ e ∷ es else e ∷ insert_before p x es

  pub insert_before-perm :
      (p : A → Bool) (x : A) (xs : List A) → Perm (insert_before p x xs) (x ∷ xs)
  unfolding insert_before
  insert_before-perm p x [] = Perm.refl _
  insert_before-perm p x (e ∷ es) = elim (Bool-cases (p e)) [
    | inl h ↦ rw h (Perm.refl _)
    | inr h ↦ rw h (Perm.trans (Perm.cons e (insert_before-perm p x es)) (Perm.swap x e es))
  ]

module _ {ℓ} {A : Type ℓ} (key : A → ℕ) where
  -- Every number is at least n.
  abbrev pub AtLeast : ℕ → List A → Type 0
  AtLeast n [] = Unit
  AtLeast n (x ∷ xs) = (n ≤ key x) × AtLeast n xs

  abbrev pub IsSorted : List A → Type 0
  IsSorted [] = Unit
  IsSorted (x ∷ xs) = AtLeast (key x) xs × IsSorted xs

  -- Every number is above n, and the numbers grow.
  abbrev pub Above : ℕ → List A → Type 0
  Above n [] = Unit
  Above n (x ∷ xs) = (n < key x) × Above n xs

  abbrev pub IsGrowing : List A → Type 0
  IsGrowing [] = Unit
  IsGrowing (x ∷ xs) = Above (key x) xs × IsGrowing xs

  -- The test of the loops: stop at the first entry with a greater number.
  abbrev pub insert_by : A → List A → List A
  insert_by x = insert_before (λ e. ltb (key x) (key e)) x

  AtLeast-mono : (m n : ℕ) (xs : List A) → m ≤ n → AtLeast n xs → AtLeast m xs
  AtLeast-mono m n [] h a = tt
  AtLeast-mono m n (x ∷ xs) h a = (omega arith, AtLeast-mono m n xs h a.1)

  AtLeast-insert_before :
      (n : ℕ) (p : A → Bool) (x : A) (xs : List A)
      → n ≤ key x
      → AtLeast n xs
      → AtLeast n (insert_before p x xs)
  unfolding insert_before
  AtLeast-insert_before n p x [] h a = (h, tt)
  AtLeast-insert_before n p x (e ∷ es) h a = ground (arith, AtLeast-insert_before n p x es h a.1)

  pub insert_by-IsSorted : (x : A) (xs : List A) → IsSorted xs → IsSorted (insert_by x xs)
  unfolding insert_before
  insert_by-IsSorted x [] s = (tt, tt)
  insert_by-IsSorted x (e ∷ es) s = ground (
    arith,
    insert_by-IsSorted x es s.1,
    AtLeast-mono (key x) (key e) es,
    AtLeast-insert_before (key e) (λ y. ltb (key x) (key y)) x es,
  )

  pub Above-mono : (m n : ℕ) (xs : List A) → m ≤ n → Above n xs → Above m xs
  Above-mono m n [] h a = tt
  Above-mono m n (x ∷ xs) h a = (omega arith, Above-mono m n xs h a.1)

  Above-insert_before :
      (n : ℕ) (p : A → Bool) (x : A) (xs : List A)
      → n < key x
      → Above n xs
      → Above n (insert_before p x xs)
  unfolding insert_before
  Above-insert_before n p x [] h a = (h, tt)
  Above-insert_before n p x (e ∷ es) h a = ground (arith, Above-insert_before n p x es h a.1)

  -- A number that no entry has keeps a growing list growing.
  pub insert_by-IsGrowing :
      (x : A) (xs : List A)
      → IsGrowing xs
      → find_first (has_key key (key x)) xs ≡ none
      → IsGrowing (insert_by x xs)
  unfolding insert_before
  insert_by-IsGrowing x [] s absent = (tt, tt)
  insert_by-IsGrowing x (e ∷ es) s absent = ground (
    arith,
    insert_by-IsGrowing x es s.1,
    Above-mono (key x) (key e) es,
    Above-insert_before (key e) (λ y. ltb (key x) (key y)) x es,
  )

  -- A search finds the new entry if no other had its number, and what it found before if one had.
  pub find_first-insert_before :
      (j : ℕ) (p : A → Bool) (x : A) (xs : List A)
      → find_first (has_key key (key x)) xs ≡ none
      → find_first (has_key key j) (insert_before p x xs)
        ≡ (if key x == j then some x else find_first (has_key key j) xs)
  unfolding insert_before
  find_first-insert_before j p x [] absent = refl
  find_first-insert_before j p x (e ∷ es) absent = ground (arith, find_first-insert_before j p x es)

  -- In a growing list nothing is found below the first number.
  pub find_first-Above :
      (n k : ℕ) (xs : List A) → Above n xs → k ≤ n → find_first (has_key key k) xs ≡ none
  find_first-Above n k [] a h = refl
  find_first-Above n k (x ∷ xs) a h = ground (arith, find_first-Above n k xs a.1 h)

  Above-modify :
      (n : ℕ) (f : A → A) (xs : List A) (i : ℕ)
      → ((x : A) → key (f x) ≡ key x)
      → Above n xs
      → Above n (modify i f xs)
  Above-modify n f [] i keep a = tt
  Above-modify n f (x ∷ xs) zero keep a = (rw keep a.0, a.1)
  Above-modify n f (x ∷ xs) (suc i) keep a = (a.0, Above-modify n f xs i keep a.1)

  -- A write that keeps the numbers keeps a list growing.
  pub modify-IsGrowing :
      (f : A → A) (xs : List A) (i : ℕ)
      → ((x : A) → key (f x) ≡ key x)
      → IsGrowing xs
      → IsGrowing (modify i f xs)
  modify-IsGrowing f [] i keep g = tt
  modify-IsGrowing f (x ∷ xs) zero keep g = (rw keep g.0, g.1)
  modify-IsGrowing f (x ∷ xs) (suc i) keep g =
      (Above-modify (key x) f xs i keep g.0, modify-IsGrowing f xs i keep g.1)
