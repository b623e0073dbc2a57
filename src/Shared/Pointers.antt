-- ===== src/Shared/Pointers.antt =====
-- The pointers to the hashes of the shared files, and the blocks that they lead to.
use tox_suite.Base.{
  ℕ, zero, suc, ◌≡◌, refl, sym, ap, ◌∙◌, ◌≢◌, ◌⊎◌, inl, inr, Option, none, some, List, [], ◌∷◌,
  ◌++◌, arith, ◌==◌, ==_iff, Bool-cases, length, get_elem?, set,
}
use mathlib.Core.Option.{some-injective}
use tox_suite.Base.Heap.{Heap, malloc, next_block, load, load-malloc_self, load-malloc_old}
use tox_suite.Transfer.{FileNode}

-- The pointer to the hash of a node of the list.
abbrev pub hash_at : List FileNode → ℕ → Option ℕ
hash_at [] i = none
hash_at (f ∷ l) zero = f.blake2b
hash_at (f ∷ l) (suc i) = hash_at l i

-- Every pointer leads to a live block, and no two are the same.
pub record HasOwnHashes (heap : Heap) (at : ℕ → Option ℕ) : Type 0 where
  pub live : (i p : ℕ) → at i ≡ some p → (bytes : List ℕ) × (load heap p ≡ some bytes)
  pub own : (i j p : ℕ) → at i ≡ some p → at j ≡ some p → i ≡ j

pub get_elem?→hash_at :
    (l : List FileNode) (i : ℕ) (f : FileNode) → get_elem? l i ≡ some f → hash_at l i ≡ f.blake2b
get_elem?→hash_at [] i f e = cc
get_elem?→hash_at (g ∷ l) zero f e = ap (λ n. n.blake2b) (some-injective g f e)
get_elem?→hash_at (g ∷ l) (suc i) f e = get_elem?→hash_at l i f e

pub hash_at→get_elem? :
    (l : List FileNode) (i p : ℕ)
    → hash_at l i ≡ some p
    → (f : FileNode) × (get_elem? l i ≡ some f) × (f.blake2b ≡ some p)
hash_at→get_elem? [] i p e = cc
hash_at→get_elem? (g ∷ l) zero p e = (g, refl, e)
hash_at→get_elem? (g ∷ l) (suc i) p e = hash_at→get_elem? l i p e

pub hash_at-set_self :
    (l : List FileNode) (t : ℕ) (old x : FileNode)
    → get_elem? l t ≡ some old
    → hash_at (set l t x) t ≡ x.blake2b
hash_at-set_self [] t old x e = cc
hash_at-set_self (g ∷ l) zero old x e = refl
hash_at-set_self (g ∷ l) (suc t) old x e = hash_at-set_self l t old x e

pub hash_at-set_ne :
    (l : List FileNode) (t i : ℕ) (x : FileNode) → i ≢ t → hash_at (set l t x) i ≡ hash_at l i
hash_at-set_ne [] t i x ne = refl
hash_at-set_ne (g ∷ l) zero zero x ne = absurd (ne refl)
hash_at-set_ne (g ∷ l) zero (suc i) x ne = refl
hash_at-set_ne (g ∷ l) (suc t) zero x ne = refl
hash_at-set_ne (g ∷ l) (suc t) (suc i) x ne = hash_at-set_ne l t i x (λ e. ne (ap suc e))

pub hash_at-append_self :
    (l : List FileNode) (n x : FileNode)
    → hash_at (set (l ++ (n ∷ [])) (length l) x) (length l) ≡ x.blake2b
hash_at-append_self [] n x = refl
hash_at-append_self (g ∷ l) n x = hash_at-append_self l n x

pub hash_at-append_ne :
    (l : List FileNode) (n x : FileNode) (i : ℕ)
    → i ≢ length l
    → hash_at (set (l ++ (n ∷ [])) (length l) x) i ≡ hash_at l i
hash_at-append_ne [] n x zero ne = absurd (ne refl)
hash_at-append_ne [] n x (suc i) ne = refl
hash_at-append_ne (g ∷ l) n x zero ne = refl
hash_at-append_ne (g ∷ l) n x (suc i) ne = hash_at-append_ne l n x i (λ e. ne (ap suc e))

-- A block is never at the pointer that the next one gets.
load-next_block : (heap : Heap) → load heap (next_block heap) ≡ none
unfolding load
load-next_block [] = refl
load-next_block (b ∷ heap) = load-next_block heap

pub load-set :
    (heap : Heap) (p q : ℕ) (b bytes : List ℕ)
    → load heap q ≡ some bytes
    → (bytes' : List ℕ) × (load (set heap p (some b)) q ≡ some bytes')
unfolding load
load-set [] p q b bytes e = cc
load-set (c ∷ heap) zero zero b bytes e = (b, refl)
load-set (c ∷ heap) zero (suc q) b bytes e = (bytes, e)
load-set (c ∷ heap) (suc p) zero b bytes e = (bytes, e)
load-set (c ∷ heap) (suc p) (suc q) b bytes e = load-set heap p q b bytes e

-- What stands behind a pointer of the new list: the new block, or what was there.
pointed :
    (heap : Heap) (at at' : ℕ → Option ℕ) (t i p : ℕ)
    → at' t ≡ some (next_block heap)
    → ((i : ℕ) → i ≢ t → at' i ≡ at i)
    → at' i ≡ some p
    → ((i ≡ t) × (p ≡ next_block heap)) ⊎ ((i ≢ t) × (at i ≡ some p))
pointed heap at at' t i p new kept e = elim (Bool-cases (i == t)) [
  | inl same ↦
      let it : i ≡ t = (==_iff i t).0 same in
      inl (it, some-injective p (next_block heap) (sym e ∙ ap at' it ∙ new))
  | inr other ↦ let ne : i ≢ t = λ it. ground (arith, it, other) in inr (ne, sym (kept i ne) ∙ e)
]

-- A new block takes the place of the pointer at t, where the others are live.
pub placed :
    (heap : Heap) (junk : List ℕ) (at at' : ℕ → Option ℕ) (t : ℕ)
    → ((i p : ℕ) → i ≢ t → at i ≡ some p → (bytes : List ℕ) × (load heap p ≡ some bytes))
    → ((i j p : ℕ) → at i ≡ some p → at j ≡ some p → i ≡ j)
    → at' t ≡ some (next_block heap)
    → ((i : ℕ) → i ≢ t → at' i ≡ at i)
    → HasOwnHashes (malloc heap junk) at'
placed heap junk at at' t live own new kept = record {
  live = λ i p e. elim (pointed heap at at' t i p new kept e) [
    | inl (it, q) ↦ (junk, ap (load (malloc heap junk)) q ∙ load-malloc_self heap junk)
    | inr (ne, old) ↦
        let (bytes, there) = live i p ne old in (bytes, load-malloc_old heap junk bytes p there)
  ];
  own = λ i j p e e'. elim (pointed heap at at' t i p new kept e) [
    | inl (it, q) ↦ elim (pointed heap at at' t j p new kept e') [
      | inl (jt, q') ↦ it ∙ sym jt
      | inr (ne, old) ↦ absurd (fresh j p ne old q)
    ]
    | inr (ne, old) ↦ elim (pointed heap at at' t j p new kept e') [
      | inl (jt, q) ↦ absurd (fresh i p ne old q)
      | inr (ne', old') ↦ own i j p old old'
    ]
  ];
}
  where
    fresh : (i p : ℕ) → i ≢ t → at i ≡ some p → p ≢ next_block heap
    fresh i p ne old q =
        let (bytes, there) = live i p ne old in cc (there, ap (load heap) q, load-next_block heap)
