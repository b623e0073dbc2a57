-- ===== src/Shared/Rescanning.antt =====
-- A signal for a recheck, and the calls of file_do that follow it.
use tox_suite.Base.{
  ℕ, zero, suc, ◌-◌, ◌<◌, ◌≡◌, refl, sym, ap, ◌⊎◌, inl, inr, true, false, ◌&&◌, none, some, List,
  [], ◌∷◌, arith, ◌==◌, ==_iff, Bool-cases, length, get_elem?,
}
use mathlib.Core.Option.{some-injective}
use mathlib.Core.Path.{subst}
use tox_suite.Transfer.{FileNode}
use tox_suite.Shared.{
  GenericHash, Visit, FileSystem, Shared, is_idle, file_recheck_callback, file_walk_shared,
  file_exists_shared, recheck, walk, adopt_last, hash_step, file_do,
}
use tox_suite.Shared.Hashes.{HasSoundHashes, recheck-HasSoundHashes}
use tox_suite.Base.{◌∙◌}
use tox_suite.Shared.Names.{recheck-names}
use tox_suite.Shared.Listed.{IsAmong, names, AreAmong, each-AreAmong, regular_paths, walk-finds}
use tox_suite.Shared.Scanning.{
  Settles, IsKnown, any_Settles, known_settled, polls, IsSettled, recheck_waiting,
}

get_elem?_empty : (l : List FileNode) (i : ℕ) → length l ≡ 0 → get_elem? l i ≡ none
get_elem?_empty [] i e = refl
get_elem?_empty (x ∷ l) i e = absurd (omega (arith, e))

module _ (hash : GenericHash) (junk : List ℕ) (fs : FileSystem) (dir : List ℕ) where
  -- A state in which files wait is not settled, so a state with the same first call settles like
  -- it.
  same_call :
      (s s' : Shared hash)
      → 0 < length s'.new_list
      → file_do hash junk fs dir s ≡ file_do hash junk fs dir s'
      → Settles hash junk fs dir s'
      → (n : ℕ) × (t : Shared hash) × (polls hash junk fs dir n s ≡ some t)
        × IsSettled hash junk fs dir t
        × HasSoundHashes hash t
        × ((p : List ℕ) → IsKnown hash junk fs dir p s' → IsAmong p (names t.shr_list))
  unfolding polls
  same_call s s' waits same (zero, t, found, settled, sound, listed) = absurd (
      omega (
        arith,
        waits,
        settled.waiting,
        ap (λ (u : Shared hash). length u.new_list) (some-injective s' t found),
      ))
  same_call s s' waits same (suc n, t, found, settled, sound, listed) =
      (suc n, t, rw (same, polls) found, settled, sound, listed)

  file_do-recheck :
      (s : Shared hash)
      → recheck hash fs dir (recheck hash fs dir s) ≡ recheck hash fs dir s
      → file_do hash junk fs dir s ≡ file_do hash junk fs dir (recheck hash fs dir s)
  unfolding file_do
  file_do-recheck s again =
      ap (λ t. elim (adopt_last hash junk t) [ none ↦ none | some s' ↦ hash_step hash junk fs s' ])
        (sym again)

  -- A walk leaves files waiting, or no recheck to come.
  abbrev Walked : Shared hash → Type 0
  Walked s =
      (is_idle s.hashing ≡ true)
      × ((0 < length s.new_list) ⊎ ((length s.new_list ≡ 0) × (s.file_recheck ≡ false)))

  walk-Walked :
      (s : Shared hash) (visits : List Visit)
      → fs.ftw dir ≡ some visits
      → is_idle s.hashing ≡ true
      → Walked (file_walk_shared hash fs dir s)
  unfolding file_walk_shared
  walk-Walked s visits walks rests =
      elim (Bool-cases (length (walk s.shr_list s.new_list visits) == 0)) [
        | inl e ↦ rw (walks, file_walk_shared) (rests, inr (ground (arith, e), rw e refl))
        | inr e ↦ rw (walks, file_walk_shared) (rests, inl (ground (arith, e)))
      ]

  recheck_due :
      (s : Shared hash)
      → s.file_recheck ≡ true
      → length s.new_list ≡ 0
      → is_idle s.hashing ≡ true
      → recheck hash fs dir s ≡ file_walk_shared hash fs dir (file_exists_shared hash fs s)
  unfolding recheck
  recheck_due s due none_wait rests = rw on refl
    where
      on : (s.file_recheck && length s.new_list == 0 && is_idle s.hashing) ≡ true
      on = ground (arith, due, none_wait, rests)

  adopt_last_empty : (s : Shared hash) → length s.new_list ≡ 0 → adopt_last hash junk s ≡ some s
  unfolding adopt_last
  adopt_last_empty s none_wait = elim (Bool-cases (is_idle s.hashing)) [
    | inl e ↦
        rw (e, adopt_last) (rw (get_elem?_empty s.new_list (length s.new_list - 1) none_wait) refl)
    | inr e ↦ rw (e, adopt_last) refl
  ]

  hash_step_idle :
      (s : Shared hash)
      → is_idle s.hashing ≡ true
      → hash_step hash junk fs s ≡ some (record { ok = true; announced = none; shared = s })
  unfolding hash_step
  hash_step_idle s rests = rw (rests, hash_step) refl

  -- Where nothing was found, the call does nothing more.
  file_do_quiet :
      (s : Shared hash)
      → length (recheck hash fs dir s).new_list ≡ 0
      → is_idle (recheck hash fs dir s).hashing ≡ true
      → file_do hash junk fs dir s
        ≡ some (record { ok = true; announced = none; shared = recheck hash fs dir s })
  unfolding file_do
  file_do_quiet s none_wait rests =
      rw (adopt_last_empty (recheck hash fs dir s) none_wait, file_do)
        (hash_step_idle (recheck hash fs dir s) rests)

  recheck-keeps :
      (s : Shared hash)
      → length s.new_list ≡ 0
      → (p : List ℕ) → IsKnown hash junk fs dir p s
      → IsKnown hash junk fs dir p (recheck hash fs dir s)
  recheck-keeps s none_wait p h = inl (
      subst (IsAmong p) (sym (recheck-names hash fs dir s))
        (known_settled hash junk fs dir s none_wait p h))

  -- A state whose recheck is sound settles, with every path that the recheck knows in the shared
  -- list.
  rescan-Settles :
      (s : Shared hash)
      → HasSoundHashes hash (recheck hash fs dir s)
      → Walked (recheck hash fs dir s)
      → (n : ℕ) × (s' : Shared hash) × (polls hash junk fs dir n s ≡ some s')
        × IsSettled hash junk fs dir s'
        × HasSoundHashes hash s'
        × ((p : List ℕ)
            → IsKnown hash junk fs dir p (recheck hash fs dir s)
            → IsAmong p (names s'.shr_list))
  unfolding polls
  rescan-Settles s sound (rests, inl waits) =
      same_call s (recheck hash fs dir s) waits
        (file_do-recheck s (recheck_waiting hash junk fs dir (recheck hash fs dir s) waits))
        (any_Settles hash junk fs dir (recheck hash fs dir s) sound (inl waits))
  rescan-Settles s sound (rests, inr (none_wait, off)) = (
    1,
    recheck hash fs dir s,
    rw (file_do_quiet s none_wait rests, polls) refl,
    record { waiting = none_wait; hashing = rests; file_recheck = off },
    sound,
    known_settled hash junk fs dir (recheck hash fs dir s) none_wait,
  )

  -- The walk of a recheck finds every regular file.
  recheck-finds :
      (s : Shared hash) (visits : List Visit) (p : List ℕ)
      → s.file_recheck ≡ true
      → length s.new_list ≡ 0
      → is_idle s.hashing ≡ true
      → fs.ftw dir ≡ some visits
      → IsAmong p (regular_paths visits)
      → IsKnown hash junk fs dir p (recheck hash fs dir s)
  unfolding file_walk_shared
  recheck-finds s visits p due none_wait rests walks h =
      let exists = file_exists_shared hash fs s in
      subst (IsKnown hash junk fs dir p) (sym (recheck_due s due none_wait rests))
        (rw (walks, file_walk_shared) (walk-finds exists.shr_list exists.new_list visits p h))

  -- A signal for a recheck brings every file of the directory into the shared list: where no file
  -- waits and none is being hashed, the hashes are sound and the directory has a canonical name,
  -- some number of calls of file_do after SIGUSR1, none of which is a fault, leads to a state in
  -- which no file waits, none is being hashed and the recheck flag is off, with sound hashes, and
  -- the shared list has the path of every regular file that ftw visits, and of every file that it
  -- had. Whether a file can be opened and so gets its hash does not matter.
  pub signal_settles :
      (sigusr1 : ℕ) (s : Shared hash) (visits : List Visit)
      → HasSoundHashes hash s
      → IsSettled hash junk fs dir s
      → fs.ftw dir ≡ some visits
      → (n : ℕ) × (s' : Shared hash) × (polls hash junk fs dir n
            (file_recheck_callback hash sigusr1 sigusr1 s)
          ≡ some s')
        × IsSettled hash junk fs dir s'
        × HasSoundHashes hash s'
        × AreAmong (regular_paths visits) (names s'.shr_list)
        × AreAmong (names s.shr_list) (names s'.shr_list)
  unfolding file_exists_shared
  signal_settles sigusr1 s visits sound settled walks =
      let due : Shared hash = record s { file_recheck = true } in
      let sound_due : HasSoundHashes hash due = record {
        blocks = sound.blocks;
        target = sound.target;
      } in
      let walked : Walked (recheck hash fs dir due) =
        subst Walked (sym (recheck_due due refl settled.waiting settled.hashing))
          (walk-Walked (file_exists_shared hash fs due) visits walks settled.hashing) in
      let (n, s', found, done, sound', listed) =
        rescan-Settles due (recheck-HasSoundHashes hash fs dir due sound_due) walked in
      (
        n,
        s',
        ap (polls hash junk fs dir n) (signalled sigusr1 s) ∙ found,
        done,
        sound',
        each-AreAmong (regular_paths visits) (names s'.shr_list) (λ p h.
            listed p (recheck-finds due visits p refl settled.waiting settled.hashing walks h)),
        each-AreAmong (names s.shr_list) (names s'.shr_list)
            (λ p h. listed p (recheck-keeps due settled.waiting p (inl h))),
      )
    where
      signalled :
          (sigusr1 : ℕ) (s : Shared hash)
          → file_recheck_callback hash sigusr1 sigusr1 s ≡ record s { file_recheck = true }
      signalled sigusr1 s = rw ((==_iff sigusr1 sigusr1).1 refl) refl
