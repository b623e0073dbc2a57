-- ===== src/Base/Entries.antt =====
-- The entries of an intrusive list of src/list.h, first to last. A pointer to an entry is its
-- position, `none` is NULL: `list_for_each_entry` with a test is `find_index`, a write through the
-- pointer is `modify`, `list_del` with `free` is `erase_at`.
use tox_suite.Base.{
  ℕ, zero, suc, ◌≡◌, refl, sym, ap, ◌∙◌, ◌≢◌, inl, inr, Bool, true, Option, none, some, List, [],
  ◌∷◌, map, arith, ◌==◌, if◌then◌else◌, Bool-cases, get_elem?,
}
use mathlib.Core.Option

-- The position is shifted behind an entry that does not fit.
abbrev pub shift_index : Option ℕ → Option ℕ
shift_index none = none
shift_index (some i) = some (suc i)

pub shift-ne-zero : (o : Option ℕ) → shift_index o ≢ some 0
shift-ne-zero none h = cc
shift-ne-zero (some i) h = ground arith

shift-eq-suc : (o : Option ℕ) (i : ℕ) → shift_index o ≡ some (suc i) → o ≡ some i
shift-eq-suc none i h = cc
shift-eq-suc (some j) i h = ground arith

module _ {ℓ} {A : Type ℓ} where
  abbrev pub find_index : (A → Bool) → List A → Option ℕ
  find_index p [] = none
  find_index p (x ∷ xs) = if p x then some 0 else shift_index (find_index p xs)

  abbrev pub modify : ℕ → (A → A) → List A → List A
  modify i f [] = []
  modify zero f (x ∷ xs) = f x ∷ xs
  modify (suc i) f (x ∷ xs) = x ∷ modify i f xs

  abbrev pub erase_at : ℕ → List A → List A
  erase_at i [] = []
  erase_at zero (x ∷ xs) = xs
  erase_at (suc i) (x ∷ xs) = x ∷ erase_at i xs

  -- The entry that a pointer leads to; NULL leads nowhere.
  abbrev pub deref : List A → Option ℕ → Option A
  deref xs none = none
  deref xs (some i) = get_elem? xs i

  -- The first entry that fits.
  abbrev pub find_first : (A → Bool) → List A → Option A
  find_first p [] = none
  find_first p (x ∷ xs) = if p x then some x else find_first p xs

  deref-shift : (x : A) (xs : List A) (o : Option ℕ) → deref (x ∷ xs) (shift_index o) ≡ deref xs o
  deref-shift x xs none = refl
  deref-shift x xs (some i) = refl

  pub deref-find_index : (p : A → Bool) (xs : List A) → deref xs (find_index p xs) ≡ find_first p xs
  deref-find_index p [] = refl
  deref-find_index p (x ∷ xs) = elim (Bool-cases (p x)) [
    | inl e ↦ rw e
    | inr e ↦ rw e (deref-shift x xs (find_index p xs) ∙ deref-find_index p xs)
  ]

  -- A pointer that a search returns is not dangling.
  pub get_elem?-find_index :
      (p : A → Bool) (xs : List A) (i : ℕ)
      → find_index p xs ≡ some i
      → (x : A) × (get_elem? xs i ≡ some x)
  get_elem?-find_index p [] i h = cc
  get_elem?-find_index p (x ∷ xs) zero h = (x, refl)
  get_elem?-find_index p (x ∷ xs) (suc i) h = ground (arith, get_elem?-find_index p xs i)

  -- What is found fits.
  pub find_first_fits : (p : A → Bool) (xs : List A) (x : A) → find_first p xs ≡ some x → p x ≡ true
  find_first_fits p [] x h = cc
  find_first_fits p (y ∷ ys) x h = ground (arith, find_first_fits p ys x)

  -- NULL comes back exactly when the search finds nothing.
  pub find_index-none :
      (p : A → Bool) (xs : List A) → find_index p xs ≡ none → find_first p xs ≡ none
  find_index-none p xs h = sym (deref-find_index p xs) ∙ rw h

-- Entries that are looked up by a number.
module _ {ℓ} {A : Type ℓ} (key : A → ℕ) where
  abbrev pub has_key : ℕ → A → Bool
  has_key k x = key x == k

  -- A write through a found pointer changes that entry alone, if it keeps its number.
  pub find_first-modify :
      (k j : ℕ) (f : A → A) (xs : List A) (i : ℕ)
      → ((x : A) → key (f x) ≡ key x)
      → find_index (has_key k) xs ≡ some i
      → find_first (has_key j) (modify i f xs)
        ≡ (if j == k then Option.map f (find_first (has_key k) xs) else find_first (has_key j) xs)
  find_first-modify k j f [] i keep found = cc
  find_first-modify k j f (x ∷ xs) zero keep found =
      ground (arith, keep x, shift-ne-zero (find_index (has_key k) xs))
  find_first-modify k j f (x ∷ xs) (suc i) keep found =
      ground (arith, shift-eq-suc (find_index (has_key k) xs) i, find_first-modify k j f xs i keep)

  pub map-modify :
      (f : A → A) (xs : List A) (i : ℕ)
      → ((x : A) → key (f x) ≡ key x)
      → map key (modify i f xs) ≡ map key xs
  map-modify f [] i keep = refl
  map-modify f (x ∷ xs) zero keep = rw keep
  map-modify f (x ∷ xs) (suc i) keep = ap (◌∷◌ (key x)) (map-modify f xs i keep)
