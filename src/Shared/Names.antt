-- ===== src/Shared/Names.antt =====
-- The names of the shared files are distinct.
use tox_suite.Base.{
  ℕ, zero, suc, ◌-◌, ◌≡◌, refl, sym, ap, ◌∙◌, ◌≢◌, inl, inr, true, false, ◌&&◌, Option, none, some,
  List, [], ◌∷◌, ◌++◌, map, arith, ◌==◌, Bool-cases, Option-cases, length, get_elem?, set, All,
  eq_bytes→eq, eq_bytes_refl,
}
use mathlib.Core.Option.{some-injective}
use tox_suite.Base.Results.{OnResult, on_result, on_map, on_bind}
use tox_suite.Base.Entries.{find_index, shift-ne-zero}
use tox_suite.Base.Heap.{next_block}
use tox_suite.Transfer.{FileNode, free_hash}
use tox_suite.Shared.{
  GenericHash, FileSystem, path_of, named, checked, Shared, file_walk_shared, file_exists_shared,
  recheck, adopt, adopt_last, adopted, Checksum, failed, complete, hashing_on, hashed, hash_step,
  file_do, is_idle, store, file_checksumcalc_noblock, Done, ended,
}

-- No path is this one.
abbrev pub Absent : List ℕ → List (List ℕ) → Type 0
Absent path paths = All (λ p. p ≢ path) paths

abbrev pub IsDistinct : List (List ℕ) → Type 0
IsDistinct [] = Unit
IsDistinct (p ∷ ps) = Absent p ps × IsDistinct ps

abbrev pub HasDistinctNames : List FileNode → Type 0
HasDistinctNames nodes = IsDistinct (map path_of nodes)

ne-named : (path : List ℕ) (node : FileNode) → named path node ≡ false → path_of node ≢ path
ne-named path node e h = ground (arith, rw h at e, eq_bytes_refl path)

find_index-Absent :
    (path : List ℕ) (nodes : List FileNode)
    → find_index (named path) nodes ≡ none
    → Absent path (map path_of nodes)
find_index-Absent path [] e = tt
find_index-Absent path (node ∷ nodes) e = elim (Bool-cases (named path node)) [
  | inl h ↦ ground (arith, rw h at e)
  | inr h ↦ (ne-named path node h, find_index-Absent path nodes (ground (arith, e, h)))
]

pub find_index-named :
    (path : List ℕ) (nodes : List FileNode) (t : ℕ) (old : FileNode)
    → find_index (named path) nodes ≡ some t
    → get_elem? nodes t ≡ some old
    → path ≡ path_of old
find_index-named path [] t old e h = cc
find_index-named path (node ∷ nodes) zero old e h = elim (Bool-cases (named path node)) [
  | inl k ↦ eq_bytes→eq path (path_of node) k ∙ ap path_of (some-injective node old h)
  | inr k ↦ ground (arith, shift-ne-zero (find_index (named path) nodes), k, e)
]
find_index-named path (node ∷ nodes) (suc t) old e h =
    ground (arith, find_index-named path nodes t old)

Absent-append :
    (path q : List ℕ) (ps : List (List ℕ))
    → q ≢ path
    → Absent path ps
    → Absent path (ps ++ (q ∷ []))
Absent-append path q [] ne u = (ne, tt)
Absent-append path q (p ∷ ps) ne u = (u.0, Absent-append path q ps ne u.1)

append-IsDistinct :
    (q : List ℕ) (ps : List (List ℕ)) → Absent q ps → IsDistinct ps → IsDistinct (ps ++ (q ∷ []))
append-IsDistinct q [] u d = (tt, tt)
append-IsDistinct q (p ∷ ps) u d =
    (Absent-append p q ps (λ h. u.0 (sym h)) d.0, append-IsDistinct q ps u.1 d.1)

pub map-set :
    (nodes : List FileNode) (i : ℕ) (old node : FileNode)
    → get_elem? nodes i ≡ some old
    → path_of node ≡ path_of old
    → map path_of (set nodes i node) ≡ map path_of nodes
map-set [] i old node e h = refl
map-set (x ∷ nodes) zero old node e h =
    ap (λ p. p ∷ map path_of nodes) (h ∙ sym (ap path_of (some-injective x old e)))
map-set (x ∷ nodes) (suc i) old node e h = ap (◌∷◌ (path_of x)) (map-set nodes i old node e h)

pub map-append_set :
    (nodes : List FileNode) (old node : FileNode)
    → map path_of (set (nodes ++ (old ∷ [])) (length nodes) node)
      ≡ map path_of nodes ++ (path_of node ∷ [])
map-append_set [] old node = refl
map-append_set (x ∷ nodes) old node = ap (◌∷◌ (path_of x)) (map-append_set nodes old node)

pub map-checked :
    (hash : GenericHash) (fs : FileSystem) (nodes : List FileNode)
    → map path_of (map (checked hash fs) nodes) ≡ map path_of nodes
map-checked hash fs [] = refl
map-checked hash fs (x ∷ nodes) = ap (◌∷◌ (path_of x)) (map-checked hash fs nodes)

module _ (hash : GenericHash) where
  walk-names :
      (fs : FileSystem) (dir : List ℕ) (s : Shared hash)
      → map path_of (file_walk_shared hash fs dir s).shr_list ≡ map path_of s.shr_list
  unfolding file_walk_shared
  walk-names fs dir s = elim (Option-cases (fs.ftw dir)) [
    | inl e ↦ rw (e, file_walk_shared)
    | inr (visits, e) ↦ rw (e, file_walk_shared)
  ]

  pub recheck-names :
      (fs : FileSystem) (dir : List ℕ) (s : Shared hash)
      → map path_of (recheck hash fs dir s).shr_list ≡ map path_of s.shr_list
  unfolding recheck file_exists_shared
  recheck-names fs dir s =
      elim (Bool-cases (s.file_recheck && length s.new_list == 0 && is_idle s.hashing)) [
        | inl e ↦
            rw e (walk-names fs dir (file_exists_shared hash fs s) ∙ map-checked hash fs s.shr_list)
        | inr e ↦ rw e
      ]

  adopt-HasDistinctNames :
      (junk : List ℕ) (s : Shared hash) (node : FileNode)
      → HasDistinctNames s.shr_list
      → OnResult (λ s'. HasDistinctNames s'.shr_list) (adopt hash junk s node)
  unfolding adopt
  adopt-HasDistinctNames junk s node d =
      elim (Option-cases (find_index (named (path_of node)) s.shr_list)) [
        | inl e ↦
            rw
              (
                e,
                adopt,
                OnResult,
                map-append_set s.shr_list node (record node { blake2b = some (next_block s.heap) }),
              )
              (append-IsDistinct (path_of node) (map path_of s.shr_list)
                (find_index-Absent (path_of node) s.shr_list e) d)
        | inr (t, e) ↦ elim (Option-cases (get_elem? s.shr_list t)) [
          | inl f ↦ rw (e, f, adopt, OnResult) tt
          | inr (old, f) ↦
              rw (e, f, adopt)
                (on_map (λ s'. HasDistinctNames s'.shr_list)
                  (λ heap. adopted hash s node s.shr_list t heap junk)
                  (free_hash old.blake2b s.heap)
                  (λ heap.
                    rw
                      (map-set s.shr_list t old (record node { blake2b = some (next_block heap) }) f
                        (find_index-named (path_of node) s.shr_list t old e f))
                      d))
        ]
      ]

  adopt_last-HasDistinctNames :
      (junk : List ℕ) (s : Shared hash)
      → HasDistinctNames s.shr_list
      → OnResult (λ s'. HasDistinctNames s'.shr_list) (adopt_last hash junk s)
  unfolding adopt_last
  adopt_last-HasDistinctNames junk s d = elim (Bool-cases (is_idle s.hashing)) [
    | inl e ↦ elim (Option-cases (get_elem? s.new_list (length s.new_list - 1))) [
      | inl f ↦ rw (e, f, adopt_last, OnResult) d
      | inr (node, f) ↦ rw (e, f, adopt_last) (adopt-HasDistinctNames junk s node d)
    ]
    | inr e ↦ rw (e, adopt_last, OnResult) d
  ]

  hashed-names :
      (node : FileNode) (s : Shared hash) (c : Checksum × Option (List ℕ × hash.State))
      → OnResult (λ r. r.shared.shr_list ≡ s.shr_list) (hashed hash node s c)
  unfolding hashed
  hashed-names node s (failed, f) = refl
  hashed-names node s (complete bytes, f) =
      on_map (λ r. r.shared.shr_list ≡ s.shr_list)
        (λ heap. ended hash true (record s { opened = f; heap = heap }))
        (store s.heap node.blake2b bytes) (λ heap. refl)
  hashed-names node s (hashing_on n, f) = refl

  hash_step-names :
      (junk : List ℕ) (fs : FileSystem) (s : Shared hash)
      → OnResult (λ r. r.shared.shr_list ≡ s.shr_list) (hash_step hash junk fs s)
  unfolding hash_step
  hash_step-names junk fs s = elim (Bool-cases (is_idle s.hashing)) [
    | inl e ↦ rw (e, hash_step, OnResult)
    | inr e ↦ elim (Option-cases (get_elem? s.shr_list s.last)) [
      | inl f ↦ rw (e, f, hash_step, OnResult) tt
      | inr (node, f) ↦
          rw (e, f, hash_step)
            (hashed-names node s (file_checksumcalc_noblock hash junk fs (path_of node) s.opened))
    ]
  ]

  -- Whatever a call of file_do does, a walk, an adoption, a step of the hashing or several of them,
  -- no two shared files have one path afterwards, if none had before.
  pub file_do-HasDistinctNames :
      (junk : List ℕ) (fs : FileSystem) (dir : List ℕ) (s : Shared hash) (r : Done hash)
      → HasDistinctNames s.shr_list
      → file_do hash junk fs dir s ≡ some r
      → HasDistinctNames r.shared.shr_list
  unfolding file_do
  file_do-HasDistinctNames junk fs dir s r d e =
      on_result (λ r. HasDistinctNames r.shared.shr_list) (file_do hash junk fs dir s) r
        (on_bind (λ s'. HasDistinctNames s'.shr_list) (λ r. HasDistinctNames r.shared.shr_list)
          (hash_step hash junk fs) (adopt_last hash junk (recheck hash fs dir s))
          (adopt_last-HasDistinctNames junk (recheck hash fs dir s) (rw (recheck-names fs dir s) d))
          (λ s' d'. step s' d' (hash_step hash junk fs s') (hash_step-names junk fs s')))
        e
    where
      step :
          (s' : Shared hash)
          → HasDistinctNames s'.shr_list
          → (o : Option (Done hash)) → OnResult (λ r. r.shared.shr_list ≡ s'.shr_list) o
          → OnResult (λ r. HasDistinctNames r.shared.shr_list) o
      step s' d' none h = tt
      step s' d' (some r') h = rw h d'
