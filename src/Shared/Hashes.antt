-- ===== src/Shared/Hashes.antt =====
-- The hashes of the shared files through the calls of file_do.
use tox_suite.Base.{
  ℕ, zero, suc, ◌-◌, ◌≡◌, refl, sym, ap, ◌∙◌, ◌≢◌, inl, inr, Bool, true, false, ◌&&◌, Option, none,
  some, List, [], ◌∷◌, ◌++◌, map, ◌==◌, Bool-cases, Option-cases, length, get_elem?, set,
}
use tox_suite.Base.Heap.{Heap, next_block, load, release_live, load-release_ne}
use tox_suite.Base.Entries.{find_index, get_elem?-find_index}
use tox_suite.Transfer.{FileNode, free_hash}
use tox_suite.Shared.{
  GenericHash, FileSystem, Shared, Checksum, failed, complete, hashing_on, path_of, named, is_idle,
  checked, file_walk_shared, file_exists_shared, recheck, file_checksumcalc_noblock, store, adopted,
  adopt, adopt_last, Done, ended, hashed, hash_step, file_do,
}
use tox_suite.Shared.Pointers.{
  hash_at, HasOwnHashes, get_elem?→hash_at, hash_at→get_elem?, hash_at-set_self, hash_at-set_ne,
  hash_at-append_self, hash_at-append_ne, load-set, placed,
}

module _ (hash : GenericHash) where
  -- The hashes are sound: each has a live block of its own, and the one that is computed has a
  -- block.
  pub record HasSoundHashes (s : Shared hash) : Type 0 where
    pub blocks : HasOwnHashes s.heap (hash_at s.shr_list)
    pub target : is_idle s.hashing ≡ false → (p : ℕ) × (hash_at s.shr_list s.last ≡ some p)

  hash_at-checked :
      (fs : FileSystem) (l : List FileNode) (i : ℕ)
      → hash_at (map (checked hash fs) l) i ≡ hash_at l i
  hash_at-checked fs [] i = refl
  hash_at-checked fs (g ∷ l) zero = refl
  hash_at-checked fs (g ∷ l) (suc i) = hash_at-checked fs l i

  exists-HasSoundHashes :
      (fs : FileSystem) (s : Shared hash)
      → HasSoundHashes s
      → HasSoundHashes (file_exists_shared hash fs s)
  unfolding file_exists_shared
  exists-HasSoundHashes fs s h = record {
    blocks = record {
      live = λ i p e. h.blocks.live i p (sym (hash_at-checked fs s.shr_list i) ∙ e);
      own = λ i j p e e'.
          h.blocks.own i j p (sym (hash_at-checked fs s.shr_list i) ∙ e)
            (sym (hash_at-checked fs s.shr_list j) ∙ e');
    };
    target = λ busy. let (p, e) = h.target busy in (p, hash_at-checked fs s.shr_list s.last ∙ e);
  }

  walk-HasSoundHashes :
      (fs : FileSystem) (dir : List ℕ) (s : Shared hash)
      → HasSoundHashes s
      → HasSoundHashes (file_walk_shared hash fs dir s)
  unfolding file_walk_shared
  walk-HasSoundHashes fs dir s h = elim (Option-cases (fs.ftw dir)) [
    | inl e ↦ rw (e, file_walk_shared) h
    | inr (visits, e) ↦ rw (e, file_walk_shared) (record { blocks = h.blocks; target = h.target })
  ]

  pub recheck-HasSoundHashes :
      (fs : FileSystem) (dir : List ℕ) (s : Shared hash)
      → HasSoundHashes s
      → HasSoundHashes (recheck hash fs dir s)
  unfolding recheck
  recheck-HasSoundHashes fs dir s h =
      elim (Bool-cases (s.file_recheck && length s.new_list == 0 && is_idle s.hashing)) [
        | inl e ↦ rw e (
            walk-HasSoundHashes fs dir (file_exists_shared hash fs s)
              (exists-HasSoundHashes fs s h))
        | inr e ↦ rw e h
      ]

  -- The old hash of a file that has changed is freed; the others stay.
  free_hash-own :
      (s : Shared hash) (t : ℕ) (old : FileNode)
      → HasSoundHashes s
      → get_elem? s.shr_list t ≡ some old
      → (heap : Heap) × (free_hash old.blake2b s.heap ≡ some heap)
        × ((i p : ℕ)
            → i ≢ t
            → hash_at s.shr_list i ≡ some p
            → (bytes : List ℕ) × (load heap p ≡ some bytes))
  unfolding free_hash
  free_hash-own s t old h there = elim (Option-cases old.blake2b) [
    | inl e ↦ rw (e, free_hash) (s.heap, refl, λ i p ne e'. h.blocks.live i p e')
    | inr (q, e) ↦
        let at_t : hash_at s.shr_list t ≡ some q = get_elem?→hash_at s.shr_list t old there ∙ e in
        let (bytes, alive) = h.blocks.live t q at_t in
        let (heap, freed) = release_live s.heap q bytes alive in
        rw (e, free_hash)
          (
            heap,
            freed,
            λ i p ne e'.
                let (bytes', alive') = h.blocks.live i p e' in
                (
                  bytes',
                  load-release_ne s.heap heap q p
                        (λ qp. ne (h.blocks.own i t p e' (at_t ∙ ap some qp))) freed
                      ∙ alive',
                ),
          )
  ]

  pub adopt-HasSoundHashes :
      (junk : List ℕ) (s : Shared hash) (node : FileNode)
      → HasSoundHashes s
      → (s' : Shared hash) × (adopt hash junk s node ≡ some s') × HasSoundHashes s'
  unfolding adopt
  adopt-HasSoundHashes junk s node h =
      let fresh : Heap → FileNode = λ heap. record node { blake2b = some (next_block heap) } in
      elim (Option-cases (find_index (named (path_of node)) s.shr_list)) [
        | inl e ↦
            let x = fresh s.heap in
            let self = hash_at-append_self s.shr_list node x in
            (
              adopted hash s node (s.shr_list ++ (node ∷ [])) (length s.shr_list) s.heap junk,
              rw (e, adopt) refl,
              record {
                blocks =
                    placed s.heap junk (hash_at s.shr_list) _ (length s.shr_list)
                      (λ i p ne e'. h.blocks.live i p e') h.blocks.own self
                      (hash_at-append_ne s.shr_list node x);
                target = λ busy. (next_block s.heap, self);
              },
            )
        | inr (t, e) ↦
            let (old, there) = get_elem?-find_index (named (path_of node)) s.shr_list t e in
            let (heap, freed, live) = free_hash-own s t old h there in
            let x = fresh heap in
            let self = hash_at-set_self s.shr_list t old x there in
            (
              adopted hash s node s.shr_list t heap junk,
              rw (e, adopt) (rw there (rw freed refl)),
              record {
                blocks =
                    placed heap junk (hash_at s.shr_list) _ t live h.blocks.own self
                      (λ i ne. hash_at-set_ne s.shr_list t i x ne);
                target = λ busy. (next_block heap, self);
              },
            )
      ]

  pub adopt_last-HasSoundHashes :
      (junk : List ℕ) (s : Shared hash)
      → HasSoundHashes s
      → (s' : Shared hash) × (adopt_last hash junk s ≡ some s') × HasSoundHashes s'
  unfolding adopt_last
  adopt_last-HasSoundHashes junk s h = elim (Bool-cases (is_idle s.hashing)) [
    | inl e ↦ elim (Option-cases (get_elem? s.new_list (length s.new_list - 1))) [
      | inl f ↦ (s, rw (e, adopt_last) (rw f refl), h)
      | inr (node, f) ↦
          let (s', found, h') = adopt-HasSoundHashes junk s node h in
          (s', rw (e, adopt_last) (rw f found), h')
    ]
    | inr e ↦ (s, rw (e, adopt_last) refl, h)
  ]

  -- What is left of a hashing that ended, with the bytes of the hash where it succeeded.
  ended-HasSoundHashes :
      (ok : Bool) (f : Option (List ℕ × hash.State)) (heap : Heap) (s : Shared hash)
      → HasOwnHashes heap (hash_at s.shr_list)
      → HasSoundHashes (ended hash ok (record s { opened = f; heap = heap })).shared
  ended-HasSoundHashes ok f heap s own = record { blocks = own; target = λ busy. cc }

  hashed-HasSoundHashes :
      (s : Shared hash) (node : FileNode) (p : ℕ) (c : Checksum × Option (List ℕ × hash.State))
      → HasSoundHashes s
      → hash_at s.shr_list s.last ≡ some p
      → node.blake2b ≡ some p
      → (r : Done hash) × (hashed hash node s c ≡ some r) × HasSoundHashes r.shared
  unfolding hashed store
  hashed-HasSoundHashes s node p (failed, f) h at_last named = (
    ended hash false (record s { opened = f }),
    refl,
    ended-HasSoundHashes false f s.heap s h.blocks,
  )
  hashed-HasSoundHashes s node p (complete bytes, f) h at_last named =
      let (old, alive) = h.blocks.live s.last p at_last in
      (
        ended hash true (record s { opened = f; heap = set s.heap p (some bytes) }),
        rw named (rw (alive, store) refl),
        ended-HasSoundHashes true f (set s.heap p (some bytes)) s (record {
          live = λ i q e. let (b, there) = h.blocks.live i q e in load-set s.heap p q bytes b there;
          own = h.blocks.own;
        }),
      )
  hashed-HasSoundHashes s node p (hashing_on n, f) h at_last named = (
    record { ok = true; announced = none; shared = record s { opened = f } },
    refl,
    record { blocks = h.blocks; target = h.target },
  )

  pub hash_step-HasSoundHashes :
      (junk : List ℕ) (fs : FileSystem) (s : Shared hash)
      → HasSoundHashes s
      → (r : Done hash) × (hash_step hash junk fs s ≡ some r) × HasSoundHashes r.shared
  unfolding hash_step
  hash_step-HasSoundHashes junk fs s h = elim (Bool-cases (is_idle s.hashing)) [
    | inl e ↦ (record { ok = true; announced = none; shared = s }, rw (e, hash_step) refl, h)
    | inr e ↦
        let (p, at_last) = h.target e in
        let (node, there, named) = hash_at→get_elem? s.shr_list s.last p at_last in
        let (r, result, h') =
          hashed-HasSoundHashes s node p
            (file_checksumcalc_noblock hash junk fs (path_of node) s.opened) h at_last named in
        (r, rw (e, hash_step) (rw there result), h')
  ]

  -- A call of file_do never goes wrong with the hashes: if every shared file has no hash or a live
  -- block of its own, and the file that is being hashed has a block, then the call is no fault,
  -- that is, frees no block twice, writes to no freed block and reads no node that is not there,
  -- and the same holds of the state that it leaves.
  pub file_do-HasSoundHashes :
      (junk : List ℕ) (fs : FileSystem) (dir : List ℕ) (s : Shared hash)
      → HasSoundHashes s
      → (r : Done hash) × (file_do hash junk fs dir s ≡ some r) × HasSoundHashes r.shared
  unfolding file_do
  file_do-HasSoundHashes junk fs dir s h =
      let (s', adopts, h') =
        adopt_last-HasSoundHashes junk (recheck hash fs dir s)
          (recheck-HasSoundHashes fs dir s h) in
      let (r, result, done) = hash_step-HasSoundHashes junk fs s' h' in
      (r, rw (adopts, file_do) result, done)
