-- ===== src/Shared/Walk.antt =====
-- Which files a walk of the shared directory takes as new.
use tox_suite.Base.{
  ℕ, ◌≡◌, refl, sym, ap, ◌∙◌, inl, inr, false, Option, none, some, List, [], ◌∷◌, ◌++◌, map, arith,
  Bool-cases, All,
}
use mathlib.Core.List.{filter, append-nil, append_assoc}
use mathlib.Core.Logic.{ite}
use tox_suite.Base.{true, eq_bytes→eq, eq_bytes_refl}
use tox_suite.Shared.{path_of}
use tox_suite.Base.Entries.{find_index}
use tox_suite.Transfer.{FileNode}
use tox_suite.Shared.{
  Visit, VisitKind, ftw_f, ftw_d, ftw_dnr, ftw_ns, is_same, new_node, taken, file_walk_callback,
  walk,
}

-- The node is of this file, with its time and size.
abbrev pub IsOf : Visit → FileNode → Type 0
IsOf v node = (v.path ≡ path_of node) × (v.st_mtime ≡ node.mtime) × (v.st_size ≡ node.length)

pub is_same-true : (v : Visit) (node : FileNode) → is_same v node ≡ true → IsOf v node
is_same-true v node e =
    (eq_bytes→eq v.path (path_of node) (ground (arith, e)), ground (arith, e), ground (arith, e))

is_same-of : (v : Visit) (node : FileNode) → IsOf v node → is_same v node ≡ true
is_same-of v node (path, time, size) =
    rw (path, eq_bytes_refl (path_of node)) (ground (arith, time, size))

-- A regular file that no shared node has the path, the time and the size of.
abbrev pub IsNew : List FileNode → Visit → Type 0
IsNew shr_list v = (v.kind ≡ ftw_f) × All (λ node. ¬ IsOf v node) shr_list

pub other : (v : Visit) (node : FileNode) → is_same v node ≡ false → ¬ IsOf v node
other v node e o = ground (arith, e, is_same-of v node o)

not_same : (v : Visit) (node : FileNode) → ¬ IsOf v node → is_same v node ≡ false
not_same v node n = elim (Bool-cases (is_same v node)) [
  | inl e ↦ absurd (n (is_same-true v node e))
  | inr e ↦ e
]

unknown? : (v : Visit) (nodes : List FileNode) → Dec (All (λ node. ¬ IsOf v node) nodes)
unknown? v [] = yes tt
unknown? v (node ∷ nodes) = elim (Bool-cases (is_same v node)) [
  | inl e ↦ no (λ h. h.0 (is_same-true v node e))
  | inr e ↦ elim (unknown? v nodes) [ yes h ↦ yes (other v node e, h) | no h ↦ no (λ a. h a.1) ]
]

kind? : (k : VisitKind) → Dec (k ≡ ftw_f)
kind? ftw_f = yes refl
kind? ftw_d = no (λ h. cc)
kind? ftw_dnr = no (λ h. cc)
kind? ftw_ns = no (λ h. cc)

unfoldable pub new? : (shr_list : List FileNode) (v : Visit) → Dec (IsNew shr_list v)
unfolding unknown? kind?
new? shr_list v = elim (kind? v.kind) [
  | no k ↦ no (λ h. k h.0)
  | yes k ↦ elim (unknown? v shr_list) [ yes h ↦ yes (k, h) | no h ↦ no (λ n. h n.1) ]
]

find_index-unknown :
    (v : Visit) (nodes : List FileNode)
    → All (λ node. ¬ IsOf v node) nodes
    → find_index (is_same v) nodes ≡ none
find_index-unknown v [] h = refl
find_index-unknown v (node ∷ nodes) h = rw (not_same v node h.0, find_index-unknown v nodes h.1)

unknown-find_index :
    (v : Visit) (nodes : List FileNode)
    → find_index (is_same v) nodes ≡ none
    → All (λ node. ¬ IsOf v node) nodes
unknown-find_index v [] h = tt
unknown-find_index v (node ∷ nodes) h = elim (Bool-cases (is_same v node)) [
  | inl e ↦ ground (arith, e, h)
  | inr e ↦ (other v node e, unknown-find_index v nodes (ground (arith, e, h)))
]

callback-new :
    (shr_list new_list : List FileNode) (v : Visit)
    → IsNew shr_list v
    → file_walk_callback shr_list new_list v ≡ new_list ++ (new_node v ∷ [])
unfolding file_walk_callback
callback-new shr_list new_list v (k, h) =
    ap (λ flag. taken new_list v flag (find_index (is_same v) shr_list)) k
    ∙ ap (taken new_list v ftw_f) (find_index-unknown v shr_list h)

callback-old :
    (shr_list new_list : List FileNode) (v : Visit)
    → ¬ IsNew shr_list v
    → file_walk_callback shr_list new_list v ≡ new_list
unfolding file_walk_callback
callback-old shr_list new_list v h = by_case v.kind (find_index (is_same v) shr_list) refl refl
  where
    by_case :
        (k : VisitKind) (o : Option ℕ)
        → v.kind ≡ k
        → find_index (is_same v) shr_list ≡ o
        → taken new_list v k o ≡ new_list
    by_case ftw_f none k e = absurd (h (k, unknown-find_index v shr_list e))
    by_case ftw_f (some i) k e = refl
    by_case ftw_d o k e = refl
    by_case ftw_dnr o k e = refl
    by_case ftw_ns o k e = refl

-- The node of a file that was found: its path, time and size, no hash yet.
abbrev pub found_node : Visit → FileNode
found_node v = record {
  file = some v.path;
  blake2b = none;
  mtime = v.st_mtime;
  length = v.st_size;
  exists = true;
}

-- A walk appends the regular files of which no shared node has the path, the time and the size,
-- each as a node with these and without a hash, in the order of the walk.
pub walk_lem :
    (shr_list new_list : List FileNode) (vs : List Visit)
    → walk shr_list new_list vs ≡ new_list ++ map found_node (filter (new? shr_list) vs)
unfolding walk
walk_lem shr_list new_list [] = sym (append-nil new_list)
walk_lem shr_list new_list (v ∷ vs) =
    elim (new? shr_list v)
      as (λ d.
        walk shr_list (file_walk_callback shr_list new_list v) vs
        ≡ new_list
          ++ map found_node (ite d (v ∷ filter (new? shr_list) vs) (filter (new? shr_list) vs))) [
            | yes h ↦ rw (callback-new shr_list new_list v h) (
                walk_lem shr_list (new_list ++ (new_node v ∷ [])) vs
                ∙ append_assoc new_list (new_node v ∷ [])
                    (map found_node (filter (new? shr_list) vs)))
            | no h ↦ rw (callback-old shr_list new_list v h) (walk_lem shr_list new_list vs)
          ]
