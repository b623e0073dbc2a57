-- ===== src/Shared/Tests.antt =====
-- Runs of the shared list, and the theorems at a concrete directory.
use tox_suite.Base.{drop, length, ◌≢◌}
use tox_suite.Shared.{hashing_bufsize}
use tox_suite.Base.{false}
use tox_suite.Base.{
  zero, suc, ap, sym, ℕ, ◌≡◌, refl, true, none, some, List, [], ◌∷◌, ◌++◌, map, arith,
}
use tox_suite.Base.Heap.{malloc, load}
use mathlib.Core.Option.{some-injective}
use tox_suite.Transfer.{FileNode}
use tox_suite.Shared.{Done}
use tox_suite.Base.{inl}
use tox_suite.Shared.Listed.{names, AreAmong}
use tox_suite.Shared.Scanning.{polls, IsSettled, file_do_settles}
use tox_suite.Shared.Pointers.{hash_at}
use tox_suite.Shared.{file_recheck_callback}
use tox_suite.Shared.Rescanning.{signal_settles}
use tox_suite.Shared.Hashes.{HasSoundHashes, file_do-HasSoundHashes}
use mathlib.Core.List.{filter}
use tox_suite.Shared.{
  GenericHash, Visit, ftw_f, ftw_d, FileSystem, Shared, complete, new_node, walk, file_do,
}
use tox_suite.Shared.Walk.{found_node, new?, walk_lem}
use tox_suite.Shared.Names.{HasDistinctNames, file_do-HasDistinctNames}
use tox_suite.Shared.Hashing.{checksum_all, checksum_all_padded}

-- Keeps what it is given.
abbrev collect : GenericHash
collect = record { State = List ℕ; init = []; update = λ s b. s ++ b; final = λ s. s }

abbrev visit : Visit
visit = record { path = b'/' ∷ b'a' ∷ []; st_mtime = 7; st_size = 2; kind = ftw_f }

abbrev disk : FileSystem
disk = record {
  access = λ path. true;
  fopen = λ path. some (104 ∷ 105 ∷ []);
  ftw = λ dir. some (visit ∷ []);
}

-- The flag is set, nothing is shared yet.
abbrev fresh : Shared collect
fresh = record {
  shr_list = [];
  new_list = [];
  file_recheck = true;
  hashing = none;
  last = 0;
  opened = none;
  heap = [];
}

-- The file was found and its only block hashed, with nothing behind it in the buffer.
abbrev begun : Shared collect
begun = record {
  shr_list = record (new_node visit) { blake2b = some 0 } ∷ [];
  new_list = [];
  file_recheck = true;
  hashing = some 0;
  last = 0;
  opened = some ([], 104 ∷ 105 ∷ []);
  heap = some [] ∷ [];
}

first_do :
    file_do collect [] disk [] fresh ≡ some (record { ok = true; announced = none; shared = begun })
unfolding file_do malloc
first_do = refl

file_do-HasDistinctNames_example : HasDistinctNames begun.shr_list
file_do-HasDistinctNames_example =
    file_do-HasDistinctNames collect [] disk [] fresh
      (record { ok = true; announced = none; shared = begun }) tt first_do

-- A buffer that was used before.
unfoldable used : ℕ → List ℕ
used zero = []
used (suc n) = 3 ∷ used n

length-used : (n : ℕ) → length (used n) ≡ n
unfolding used
length-used zero = refl
length-used (suc n) = omega (arith, length-used n)

checksum_all_padded_example :
    (padded : List ℕ) × (checksum_all collect 2 (used hashing_bufsize) disk [] none
      ≡ some (complete padded))
    × (padded ≡ 104 ∷ 105 ∷ drop 2 (used hashing_bufsize))
    × (length padded ≡ hashing_bufsize)
    × (padded ≢ (104 ∷ 105 ∷ []))
checksum_all_padded_example =
    checksum_all_padded collect (used hashing_bufsize) disk [] 104 (105 ∷ [])
      (length-used hashing_bufsize) refl (omega arith)

-- A directory is no file.
-- The file had another size when it was shared.
abbrev grown : List FileNode
grown = record (new_node visit) { length = 9 } ∷ []

walk_lem_example :
    walk grown [] (visit ∷ record visit { kind = ftw_d } ∷ [])
    ≡ map found_node (filter (new? grown) (visit ∷ record visit { kind = ftw_d } ∷ []))
walk_lem_example = walk_lem grown [] (visit ∷ record visit { kind = ftw_d } ∷ [])

-- The file is shared, with its hash, and was found again with a new time.
abbrev changed : Shared collect
changed = record {
  shr_list = record (new_node visit) { blake2b = some 0 } ∷ [];
  new_list = record (new_node visit) { mtime = 9 } ∷ [];
  file_recheck = true;
  hashing = none;
  last = 0;
  opened = none;
  heap = some (1 ∷ 2 ∷ []) ∷ [];
}

changed-HasSoundHashes : HasSoundHashes collect changed
unfolding load
changed-HasSoundHashes = record {
  blocks = record { live = changed_live; own = changed_own };
  target = λ busy. cc;
}
  where
    changed_live :
        (i p : ℕ)
        → hash_at changed.shr_list i ≡ some p
        → (bytes : List ℕ) × (load changed.heap p ≡ some bytes)
    changed_live zero p e = (1 ∷ 2 ∷ [], ap (load changed.heap) (sym (some-injective 0 p e)))
    changed_live (suc i) p e = cc

    changed_own :
        (i j p : ℕ)
        → hash_at changed.shr_list i ≡ some p
        → hash_at changed.shr_list j ≡ some p
        → i ≡ j
    changed_own zero zero p e e' = refl
    changed_own zero (suc j) p e e' = cc
    changed_own (suc i) j p e e' = cc

file_do-HasSoundHashes_example :
    (r : Done collect) × (file_do collect [] disk [] changed ≡ some r)
    × HasSoundHashes collect r.shared
file_do-HasSoundHashes_example =
    file_do-HasSoundHashes collect [] disk [] changed changed-HasSoundHashes

file_do_settles_example :
    (n : ℕ) × (s' : Shared collect) × (polls collect [] disk [] n changed ≡ some s')
    × IsSettled collect [] disk [] s'
    × HasSoundHashes collect s'
    × AreAmong (names changed.shr_list) (names s'.shr_list)
    × AreAmong (names changed.new_list) (names s'.shr_list)
file_do_settles_example =
    file_do_settles collect [] disk [] changed changed-HasSoundHashes (inl (omega arith))

-- The file is shared, and its hash is complete.
abbrev quiet : Shared collect
quiet = record changed { new_list = []; file_recheck = false }

quiet-HasSoundHashes : HasSoundHashes collect quiet
quiet-HasSoundHashes = record {
  blocks = changed-HasSoundHashes.blocks;
  target = changed-HasSoundHashes.target;
}

signal_settles_example :
    (n : ℕ) × (s' : Shared collect) × (polls collect [] disk [] n
        (file_recheck_callback collect 10 10 quiet)
      ≡ some s')
    × IsSettled collect [] disk [] s'
    × HasSoundHashes collect s'
    × AreAmong (visit.path ∷ []) (names s'.shr_list)
    × AreAmong (names quiet.shr_list) (names s'.shr_list)
signal_settles_example =
    signal_settles collect [] disk [] 10 quiet (visit ∷ []) quiet-HasSoundHashes
      (record { waiting = omega arith; hashing = refl; file_recheck = refl }) refl
