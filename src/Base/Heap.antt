-- ===== src/Base/Heap.antt =====
-- The heap blocks that hold file hashes. Two structures may hold one pointer, so an allocation is a
-- number; a freed block stays, as `none`, and no number is given twice.
use tox_suite.Base.{
  ℕ, zero, suc, ◌≡◌, refl, ap, ◌≢◌, inl, inr, Option, none, some, List, [], ◌∷◌, ◌++◌, arith,
  Option-cases, length,
}

abbrev pub Heap : Type 0
Heap = List (Option (List ℕ))

unfoldable pub malloc : Heap → List ℕ → Heap
malloc h bytes = h ++ (some bytes ∷ [])

-- The pointer that `malloc` returns.
abbrev pub next_block : Heap → ℕ
next_block h = length h

-- The bytes behind a pointer; `none` for a dangling one.
unfoldable pub load : Heap → ℕ → Option (List ℕ)
load [] p = none
load (b ∷ bs) zero = b
load (b ∷ bs) (suc p) = load bs p

-- `none` is a second free, or a free of what was never allocated.
unfoldable pub release : Heap → ℕ → Option Heap
release [] p = none
release (none ∷ bs) zero = none
release (some bytes ∷ bs) zero = some (none ∷ bs)
release (b ∷ bs) (suc p) = elim (release bs p) [ none ↦ none | some bs' ↦ some (b ∷ bs') ]

pub load-malloc_self :
    (h : Heap) (bytes : List ℕ) → load (malloc h bytes) (next_block h) ≡ some bytes
unfolding load malloc
load-malloc_self [] bytes = refl
load-malloc_self (b ∷ bs) bytes = load-malloc_self bs bytes

pub load-malloc_old :
    (h : Heap) (bytes old : List ℕ) (p : ℕ)
    → load h p ≡ some old
    → load (malloc h bytes) p ≡ some old
unfolding load malloc
load-malloc_old [] bytes old p e = cc
load-malloc_old (b ∷ bs) bytes old zero e = e
load-malloc_old (b ∷ bs) bytes old (suc p) e = load-malloc_old bs bytes old p e

-- A live block can be freed.
pub release_live :
    (h : Heap) (p : ℕ) (bytes : List ℕ)
    → load h p ≡ some bytes
    → (h' : Heap) × (release h p ≡ some h')
unfolding load release
release_live [] p bytes e = cc
release_live (none ∷ bs) zero bytes e = cc
release_live (some b ∷ bs) zero bytes e = (none ∷ bs, refl)
release_live (none ∷ bs) (suc p) bytes e =
    let (h', r) = release_live bs p bytes e in (none ∷ h', rw r)
release_live (some b ∷ bs) (suc p) bytes e =
    let (h', r) = release_live bs p bytes e in (some b ∷ h', rw r)

-- What was freed is gone, and cannot be freed again.
pub load-release_self : (h h' : Heap) (p : ℕ) → release h p ≡ some h' → load h' p ≡ none
unfolding load release
load-release_self [] h' p e = cc
load-release_self (none ∷ bs) h' zero e = cc
load-release_self (some b ∷ bs) h' zero e = ground arith
load-release_self (none ∷ bs) h' (suc p) e = elim (Option-cases (release bs p)) [
  | inl r ↦ ground arith
  | inr (bs', r) ↦ ground (arith, load-release_self bs bs' p r)
]
load-release_self (some b ∷ bs) h' (suc p) e = elim (Option-cases (release bs p)) [
  | inl r ↦ ground arith
  | inr (bs', r) ↦ ground (arith, load-release_self bs bs' p r)
]

-- No other block changes.
pub load-release_ne : (h h' : Heap) (p q : ℕ) → p ≢ q → release h p ≡ some h' → load h' q ≡ load h q
unfolding load release
load-release_ne [] h' p q n e = cc
load-release_ne (none ∷ bs) h' zero q n e = cc
load-release_ne (some b ∷ bs) h' zero zero n e = absurd (n refl)
load-release_ne (some b ∷ bs) h' zero (suc q) n e = ground arith
load-release_ne (none ∷ bs) h' (suc p) zero n e = elim (Option-cases (release bs p)) [
  | inl r ↦ ground arith
  | inr (bs', r) ↦ ground arith
]
load-release_ne (none ∷ bs) h' (suc p) (suc q) n e = elim (Option-cases (release bs p)) [
  | inl r ↦ ground arith
  | inr (bs', r) ↦ ground (arith, load-release_ne bs bs' p q (λ d. n (ap suc d)) r)
]
load-release_ne (some b ∷ bs) h' (suc p) zero n e = elim (Option-cases (release bs p)) [
  | inl r ↦ ground arith
  | inr (bs', r) ↦ ground arith
]
load-release_ne (some b ∷ bs) h' (suc p) (suc q) n e = elim (Option-cases (release bs p)) [
  | inl r ↦ ground arith
  | inr (bs', r) ↦ ground (arith, load-release_ne bs bs' p q (λ d. n (ap suc d)) r)
]

pub release_dangling : (h : Heap) (p : ℕ) → load h p ≡ none → release h p ≡ none
unfolding load release
release_dangling [] p e = refl
release_dangling (none ∷ bs) zero e = refl
release_dangling (some b ∷ bs) zero e = cc
release_dangling (none ∷ bs) (suc p) e = rw (release_dangling bs p e)
release_dangling (some b ∷ bs) (suc p) e = rw (release_dangling bs p e)
