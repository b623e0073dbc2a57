-- ===== src/Shared/Listed.antt =====
-- Which paths the shared list and the list of new files have.
use tox_suite.Base.{
  ℕ, zero, suc, ◌≤◌, ◌≡◌, refl, sym, ap, ◌∙◌, ◌⊎◌, inl, inr, some, none, List, [], ◌∷◌, ◌++◌, map,
  arith, Option-cases, length, get_elem?, take, All,
}
use mathlib.Core.Option.{some-injective}
use mathlib.Core.Path.{subst}
use tox_suite.Transfer.{FileNode}
use tox_suite.Base.{Option, Bool-cases, eq_bytes→eq}
use tox_suite.Base.Entries.{find_index}
use tox_suite.Shared.{
  path_of, Visit, VisitKind, ftw_f, ftw_d, ftw_dnr, ftw_ns, is_same, new_node, taken,
  file_walk_callback, walk,
}

abbrev pub IsAmong : List ℕ → List (List ℕ) → Type 0
IsAmong p [] = ⊥
IsAmong p (q ∷ qs) = (q ≡ p) ⊎ IsAmong p qs

abbrev pub names : List FileNode → List (List ℕ)
names nodes = map path_of nodes

-- Each path of the one list is in the other.
abbrev pub AreAmong : List (List ℕ) → List (List ℕ) → Type 0
AreAmong ps qs = All (λ p. IsAmong p qs) ps

pub each-AreAmong :
    (ps qs : List (List ℕ)) → ((p : List ℕ) → IsAmong p ps → IsAmong p qs) → AreAmong ps qs
each-AreAmong [] qs h = tt
each-AreAmong (p ∷ ps) qs h = (h p (inl refl), each-AreAmong ps qs (λ q i. h q (inr i)))

pub IsAmong-append_left : (p : List ℕ) (ps qs : List (List ℕ)) → IsAmong p ps → IsAmong p (ps ++ qs)
IsAmong-append_left p [] qs h = absurd h
IsAmong-append_left p (q ∷ ps) qs (inl e) = inl e
IsAmong-append_left p (q ∷ ps) qs (inr h) = inr (IsAmong-append_left p ps qs h)

pub IsAmong-append_right :
    (p : List ℕ) (ps qs : List (List ℕ)) → IsAmong p qs → IsAmong p (ps ++ qs)
IsAmong-append_right p [] qs h = h
IsAmong-append_right p (q ∷ ps) qs h = inr (IsAmong-append_right p ps qs h)

pub IsAmong-at :
    (nodes : List FileNode) (t : ℕ) (node : FileNode)
    → get_elem? nodes t ≡ some node
    → IsAmong (path_of node) (names nodes)
IsAmong-at [] t node e = cc
IsAmong-at (x ∷ nodes) zero node e = inl (ap path_of (some-injective x node e))
IsAmong-at (x ∷ nodes) (suc t) node e = inr (IsAmong-at nodes t node e)

-- What the list without its last entry still has.
pub IsAmong-take :
    (nodes : List FileNode) (k : ℕ) (node : FileNode) (p : List ℕ)
    → get_elem? nodes k ≡ some node
    → length nodes ≤ suc k
    → IsAmong p (names nodes)
    → IsAmong p (names (take k nodes)) ⊎ (path_of node ≡ p)
IsAmong-take [] k node p e short h = absurd h
IsAmong-take (x ∷ nodes) zero node p e short (inl h) =
    inr (sym (ap path_of (some-injective x node e)) ∙ h)
IsAmong-take (x ∷ []) zero node p e short (inr h) = absurd h
IsAmong-take (x ∷ y ∷ nodes) zero node p e short (inr h) = absurd (omega (arith, short))
IsAmong-take (x ∷ nodes) (suc k) node p e short (inl h) = inl (inl h)
IsAmong-take (x ∷ nodes) (suc k) node p e short (inr h) =
    elim (IsAmong-take nodes k node p e (omega (arith, short)) h) [
      | inl i ↦ inl (inr i)
      | inr i ↦ inr i
    ]

-- The paths of the regular files that ftw visits.
abbrev pub regular_path : List ℕ → VisitKind → List (List ℕ) → List (List ℕ)
regular_path path ftw_f rest = path ∷ rest
regular_path path ftw_d rest = rest
regular_path path ftw_dnr rest = rest
regular_path path ftw_ns rest = rest

abbrev pub regular_paths : List Visit → List (List ℕ)
regular_paths [] = []
regular_paths (v ∷ vs) = regular_path v.path v.kind (regular_paths vs)

find_index-same :
    (v : Visit) (nodes : List FileNode) (i : ℕ)
    → find_index (is_same v) nodes ≡ some i
    → IsAmong v.path (names nodes)
find_index-same v [] i e = cc
find_index-same v (node ∷ nodes) i e = elim (Bool-cases (is_same v node)) [
  | inl same ↦ inl (sym (eq_bytes→eq v.path (path_of node) (ground (arith, same))))
  | inr other ↦ elim (Option-cases (find_index (is_same v) nodes)) [
    | inl f ↦ absurd (ground (arith, other, f, e))
    | inr (j, f) ↦ inr (find_index-same v nodes j f)
  ]
]

names-append : (xs ys : List FileNode) → names (xs ++ ys) ≡ names xs ++ names ys
names-append [] ys = refl
names-append (x ∷ xs) ys = ap (λ l. path_of x ∷ l) (names-append xs ys)

-- What a path is among: the shared list, or the list of new files.
abbrev IsEither : List ℕ → List FileNode → List FileNode → Type 0
IsEither p shr_list new_list = IsAmong p (names shr_list) ⊎ IsAmong p (names new_list)

taken-keeps :
    (shr_list new_list : List FileNode) (v : Visit) (p : List ℕ) (k : VisitKind) (o : Option ℕ)
    → IsEither p shr_list new_list
    → IsEither p shr_list (taken new_list v k o)
taken-keeps shr_list new_list v p k o (inl h) = inl h
taken-keeps shr_list new_list v p ftw_f none (inr h) = inr (
    subst (IsAmong p) (sym (names-append new_list (new_node v ∷ [])))
      (IsAmong-append_left p (names new_list) (v.path ∷ []) h))
taken-keeps shr_list new_list v p ftw_f (some i) (inr h) = inr h
taken-keeps shr_list new_list v p ftw_d o (inr h) = inr h
taken-keeps shr_list new_list v p ftw_dnr o (inr h) = inr h
taken-keeps shr_list new_list v p ftw_ns o (inr h) = inr h

taken-finds :
    (shr_list new_list : List FileNode) (v : Visit) (o : Option ℕ)
    → find_index (is_same v) shr_list ≡ o
    → IsEither v.path shr_list (taken new_list v ftw_f o)
taken-finds shr_list new_list v none e = inr (
    subst (IsAmong v.path) (sym (names-append new_list (new_node v ∷ [])))
      (IsAmong-append_right v.path (names new_list) (v.path ∷ []) (inl refl)))
taken-finds shr_list new_list v (some i) e = inl (find_index-same v shr_list i e)

walk-keeps :
    (shr_list new_list : List FileNode) (vs : List Visit) (p : List ℕ)
    → IsEither p shr_list new_list
    → IsEither p shr_list (walk shr_list new_list vs)
unfolding walk file_walk_callback
walk-keeps shr_list new_list [] p h = h
walk-keeps shr_list new_list (v ∷ vs) p h =
    walk-keeps shr_list (file_walk_callback shr_list new_list v) vs p
      (taken-keeps shr_list new_list v p v.kind (find_index (is_same v) shr_list) h)

-- Every regular file that is visited is in one of the two lists afterwards.
pub walk-finds :
    (shr_list new_list : List FileNode) (vs : List Visit) (p : List ℕ)
    → IsAmong p (regular_paths vs)
    → IsAmong p (names shr_list) ⊎ IsAmong p (names (walk shr_list new_list vs))
unfolding walk file_walk_callback
walk-finds shr_list new_list [] p h = absurd h
walk-finds shr_list new_list (v ∷ vs) p h = visited v.kind refl h (walk-finds shr_list rest vs p)
  where
    rest : List FileNode
    rest = file_walk_callback shr_list new_list v

    visited :
        (k : VisitKind)
        → v.kind ≡ k
        → IsAmong p (regular_path v.path k (regular_paths vs))
        → (IsAmong p (regular_paths vs) → IsEither p shr_list (walk shr_list rest vs))
        → IsEither p shr_list (walk shr_list rest vs)
    visited ftw_f e (inl same) later =
        let o = find_index (is_same v) shr_list in
        walk-keeps shr_list rest vs p (
          subst (λ k. IsEither p shr_list (taken new_list v k o)) (sym e)
            (subst (λ q. IsEither q shr_list (taken new_list v ftw_f o)) same
              (taken-finds shr_list new_list v o refl)))
    visited ftw_f e (inr i) later = later i
    visited ftw_d e i later = later i
    visited ftw_dnr e i later = later i
    visited ftw_ns e i later = later i
