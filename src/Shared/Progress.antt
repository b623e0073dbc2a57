-- ===== src/Shared/Progress.antt =====
-- What a step of the hashing and the adoption of a new file bring.
use tox_suite.Base.{
  ℕ, zero, suc, ◌-◌, ◌<◌, ◌≡◌, refl, ap, ◌⊎◌, inl, inr, Bool, true, false, Option, none, some, List,
  [], ◌∷◌, arith, Option-cases, length, get_elem?, take, length-drop,
}
use mathlib.Core.Option.{some-injective}
use mathlib.Core.Path.{subst}
use tox_suite.Base.{sym, ◌++◌}
use tox_suite.Base.Heap.{next_block}
use tox_suite.Shared.Names.{map-set, map-append_set, find_index-named}
use tox_suite.Shared.Listed.{IsAmong, names, IsAmong-append_left, IsAmong-append_right, IsAmong-at}
use tox_suite.Base.Heap.{Heap}
use tox_suite.Base.Entries.{find_index}
use tox_suite.Base.Results.{OnResult, on_map}
use tox_suite.Transfer.{FileNode, free_hash}
use tox_suite.Shared.{
  GenericHash, FileSystem, Shared, Checksum, failed, complete, hashing_on, path_of, named, is_idle,
  hashing_bufsize, read_block, file_checksumcalc_noblock, store, adopted, adopt, ended, hashed,
  hash_step,
}

pub get_elem?_inside :
    (l : List FileNode) (i : ℕ) → i < length l → (node : FileNode) × (get_elem? l i ≡ some node)
get_elem?_inside [] i lt = absurd (omega (arith, lt))
get_elem?_inside (x ∷ l) zero lt = (x, refl)
get_elem?_inside (x ∷ l) (suc i) lt = get_elem?_inside l i (omega (arith, lt))

module _ (hash : GenericHash) where
  -- A hashing that goes on has an open file, with less left than before.
  abbrev pub Shrinks : Option (List ℕ × hash.State) → Option (List ℕ × hash.State) → Type 0
  Shrinks f f' =
      (x' : List ℕ × hash.State) × (f' ≡ some x')
      × ((x : List ℕ × hash.State) → f ≡ some x → length x'.0 < length x.0)

  abbrev Reads : Option (List ℕ × hash.State) → Checksum × Option (List ℕ × hash.State) → Type 0
  Reads f (failed, f') = Unit
  Reads f (complete bytes, f') = Unit
  Reads f (hashing_on n, f') = Shrinks f f'

  read_block-Reads :
      (junk : List ℕ) (f : Option (List ℕ × hash.State)) (rest : List ℕ) (state : hash.State)
      → ((x : List ℕ × hash.State) → f ≡ some x → rest ≡ x.0)
      → Reads f (read_block hash junk (rest, state))
  unfolding read_block
  read_block-Reads junk f [] state same = tt
  read_block-Reads junk f (b ∷ rest) state same = (
    _,
    refl,
    λ x e. omega (arith, length-drop hashing_bufsize (b ∷ rest), ap (λ xs. length xs) (same x e)),
  )

  checksum-Reads :
      (junk : List ℕ) (fs : FileSystem) (path : List ℕ) (f : Option (List ℕ × hash.State))
      → Reads f (file_checksumcalc_noblock hash junk fs path f)
  unfolding file_checksumcalc_noblock
  checksum-Reads junk fs path (some (rest, state)) =
      read_block-Reads junk (some (rest, state)) rest state
        (λ x e. ap (λ y. y.0) (some-injective (rest, state) x e))
  checksum-Reads junk fs path none = elim (Option-cases (fs.fopen path)) [
    | inl e ↦ rw (e, file_checksumcalc_noblock) tt
    | inr (bytes, e) ↦
        rw (e, file_checksumcalc_noblock)
          (read_block-Reads junk none bytes hash.init (λ x none_is. cc))
  ]

  -- No file is waiting, or the next check is still to come.
  abbrev pub IsSettling : Shared hash → Type 0
  IsSettling s = length s.new_list ≡ 0 → s.file_recheck ≡ false

  -- The hashing of a file has ended, or it goes on with less left.
  abbrev pub Progress : Shared hash → Shared hash → Type 0
  Progress s s' =
      (s'.new_list ≡ s.new_list)
      × (s'.shr_list ≡ s.shr_list)
      × (((is_idle s'.hashing ≡ true) × IsSettling s')
          ⊎ ((is_idle s'.hashing ≡ false) × Shrinks s.opened s'.opened))

  ended-Progress :
      (ok : Bool) (s : Shared hash) (f : Option (List ℕ × hash.State)) (heap : Heap)
      → Progress s (ended hash ok (record s { opened = f; heap = heap })).shared
  ended-Progress ok s f heap = (refl, refl, inl (refl, λ e. rw e refl))

  hashed-Progress :
      (node : FileNode) (s : Shared hash) (c : Checksum × Option (List ℕ × hash.State))
      → is_idle s.hashing ≡ false
      → Reads s.opened c
      → OnResult (λ r. Progress s r.shared) (hashed hash node s c)
  unfolding hashed
  hashed-Progress node s (failed, f) busy reads = ended-Progress false s f s.heap
  hashed-Progress node s (complete bytes, f) busy reads =
      on_map (λ r. Progress s r.shared)
        (λ heap. ended hash true (record s { opened = f; heap = heap }))
        (store s.heap node.blake2b bytes) (ended-Progress true s f)
  hashed-Progress node s (hashing_on n, f) busy reads = (refl, refl, inr (busy, reads))

  pub hash_step-Progress :
      (junk : List ℕ) (fs : FileSystem) (s : Shared hash)
      → is_idle s.hashing ≡ false
      → OnResult (λ r. Progress s r.shared) (hash_step hash junk fs s)
  unfolding hash_step
  hash_step-Progress junk fs s busy = elim (Option-cases (get_elem? s.shr_list s.last)) [
    | inl f ↦ rw (busy, hash_step) (rw f tt)
    | inr (node, f) ↦
        rw (busy, hash_step)
          (rw f (
            hashed-Progress node s (file_checksumcalc_noblock hash junk fs (path_of node) s.opened)
              busy (checksum-Reads junk fs (path_of node) s.opened)))
  ]

  -- An adopted file is off the new list, in the shared list with those that were there, and is
  -- being hashed.
  abbrev pub Adopted : Shared hash → FileNode → Shared hash → Type 0
  Adopted s node s' =
      (is_idle s'.hashing ≡ false)
      × (s'.new_list ≡ take (length s.new_list - 1) s.new_list)
      × ((p : List ℕ) → IsAmong p (names s.shr_list) → IsAmong p (names s'.shr_list))
      × IsAmong (path_of node) (names s'.shr_list)

  appended-Adopted :
      (junk : List ℕ) (s : Shared hash) (node : FileNode)
      → Adopted s node
          (adopted hash s node (s.shr_list ++ (node ∷ [])) (length s.shr_list) s.heap junk)
  appended-Adopted junk s node =
      let more =
        map-append_set s.shr_list node (record node { blake2b = some (next_block s.heap) }) in
      (
        refl,
        refl,
        λ p h.
            subst (IsAmong p) (sym more)
              (IsAmong-append_left p (names s.shr_list) (path_of node ∷ []) h),
        subst (IsAmong (path_of node)) (sym more)
            (IsAmong-append_right (path_of node) (names s.shr_list) (path_of node ∷ []) (inl refl)),
      )

  replaced-Adopted :
      (junk : List ℕ) (s : Shared hash) (node old : FileNode) (t : ℕ) (heap : Heap)
      → path_of node ≡ path_of old
      → get_elem? s.shr_list t ≡ some old
      → Adopted s node (adopted hash s node s.shr_list t heap junk)
  replaced-Adopted junk s node old t heap same there =
      let kept =
        map-set s.shr_list t old (record node { blake2b = some (next_block heap) }) there same in
      (
        refl,
        refl,
        λ p h. subst (IsAmong p) (sym kept) h,
        subst (IsAmong (path_of node)) (sym kept) (
            subst (λ q. IsAmong q (names s.shr_list)) (sym same)
              (IsAmong-at s.shr_list t old there)),
      )

  pub adopt-Adopted :
      (junk : List ℕ) (s : Shared hash) (node : FileNode)
      → OnResult (Adopted s node) (adopt hash junk s node)
  unfolding adopt
  adopt-Adopted junk s node = elim (Option-cases (find_index (named (path_of node)) s.shr_list)) [
    | inl e ↦ rw (e, adopt) (appended-Adopted junk s node)
    | inr (t, e) ↦ elim (Option-cases (get_elem? s.shr_list t)) [
      | inl f ↦ rw (e, adopt) (rw f tt)
      | inr (old, f) ↦
          rw (e, adopt)
            (rw f (
              on_map (Adopted s node) (λ heap. adopted hash s node s.shr_list t heap junk)
                (free_hash old.blake2b s.heap)
                (λ heap.
                  replaced-Adopted junk s node old t heap
                    (find_index-named (path_of node) s.shr_list t old e f) f)))
    ]
  ]
