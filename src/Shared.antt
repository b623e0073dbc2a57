-- ===== src/Shared.antt =====
-- src/fileop.c and src/fileop.h: the list of shared files, the walk that finds new ones and their
-- hashing, one block for each call of `file_do`. `none` as a result is a crash.
pub mod Walk
pub mod Names
pub mod Pointers
pub mod Hashes
pub mod Hashing
pub mod Listed
pub mod Progress
pub mod Scanning
pub mod Rescanning
mod Tests
use tox_suite.Base.{
  ℕ, zero, suc, ◌+◌, ◌-◌, ◌*◌, ◌/◌, ◌%◌, ◌^◌, ◌≤◌, ◌<◌, ◌≡◌, refl, sym, ap, ◌∙◌, ◌≢◌, ◌↔◌, ◌⊎◌, inl,
  inr, Bool, true, false, ◌&&◌, ◌||◌, not, Option, none, some, List, [], ◌∷◌, ◌++◌, map, arith, ltb,
  leb, ◌==◌, if◌then◌else◌, ltb→lt, lt→ltb, not-ltb→le, not-leb→lt, leb→le, le→leb, ==_iff,
  Bool-cases, Option-cases, length, get_elem?, set, take, drop, All, length-append,
  take-append-drop, length-drop, eq_bytes, eq_bytes→eq, eq_bytes_refl,
}
use mathlib.Core.Option
use tox_suite.Base.Entries.{find_index}
use tox_suite.Base.Heap.{Heap, malloc, load, next_block}
use tox_suite.Transfer.{FileNode, free_hash}

-- 64 * 1024
abbrev pub hashing_bufsize : ℕ
hashing_bufsize = 65536

-- crypto_generichash of libsodium, with the output of TOX_FILE_ID_LENGTH bytes.
pub record GenericHash : Type 1 where
  pub State : Type 0
  pub init : State
  pub update : State → List ℕ → State
  pub final : State → List ℕ

-- The flag that ftw passes: FTW_F, or one of the others.
pub data VisitKind : Type 0 where
  ftw_f ftw_d ftw_dnr ftw_ns : VisitKind

-- What ftw passes to its callback.
pub record Visit : Type 0 where
  pub path : List ℕ
  pub st_mtime : ℕ
  pub st_size : ℕ
  pub kind : VisitKind

-- The file system at the time of a call: access with R_OK, fopen, and ftw on the canonical name,
-- `none` if there is none.
pub record FileSystem : Type 0 where
  pub access : List ℕ → Bool
  pub fopen : List ℕ → Option (List ℕ)
  pub ftw : List ℕ → Option (List Visit)

-- A node of the lists has a name.
abbrev pub path_of : FileNode → List ℕ
path_of node = elim node.file [ none ↦ [] | some path ↦ path ]

abbrev pub new_node : Visit → FileNode
new_node v = record {
  file = some v.path;
  blake2b = none;
  mtime = v.st_mtime;
  length = v.st_size;
  exists = true;
}

-- The test of the loop in file_walk_callback.
abbrev pub is_same : Visit → FileNode → Bool
is_same v node =
    eq_bytes v.path (path_of node) && v.st_mtime == node.mtime && v.st_size == node.length

-- What the callback leaves of the new list, by the flag and by the node that the loop found.
abbrev pub taken : List FileNode → Visit → VisitKind → Option ℕ → List FileNode
taken new_list v ftw_f none = new_list ++ (new_node v ∷ [])
taken new_list v ftw_f (some i) = new_list
taken new_list v ftw_d o = new_list
taken new_list v ftw_dnr o = new_list
taken new_list v ftw_ns o = new_list

unfoldable pub file_walk_callback : List FileNode → List FileNode → Visit → List FileNode
file_walk_callback shr_list new_list v = taken new_list v v.kind (find_index (is_same v) shr_list)

-- ftw: the callback at each visit, in order.
unfoldable pub walk : List FileNode → List FileNode → List Visit → List FileNode
unfolding file_walk_callback
walk shr_list new_list [] = new_list
walk shr_list new_list (v ∷ vs) = walk shr_list (file_walk_callback shr_list new_list v) vs

-- `hashing == -1`
abbrev pub is_idle : Option ℕ → Bool
is_idle none = true
is_idle (some i) = false

-- The buffer after fread: the bytes that were read, before what the buffer held there already.
abbrev pub block : List ℕ → List ℕ → List ℕ
block junk rest = take hashing_bufsize rest ++ drop (length (take hashing_bufsize rest)) junk

-- The search of file_do: the old node with the path of the new one.
abbrev pub named : List ℕ → FileNode → Bool
named path node = eq_bytes path (path_of node)

-- The result of file_checksumcalc_noblock: -1, 0 with the hash written, or a count of bytes.
pub data Checksum : Type 0 where
  failed : Checksum
  complete : List ℕ → Checksum
  hashing_on : ℕ → Checksum

-- A write through the pointer to a hash.
unfoldable pub store : Heap → Option ℕ → List ℕ → Option Heap
store heap none bytes = none
store heap (some p) bytes = Option.map (λ old. set heap p (some bytes)) (load heap p)

module _ (hash : GenericHash) where
  -- The static variables of the file; the open file of file_checksumcalc_noblock with what is left
  -- of it, and its hash state. `hashing` is `none` for -1.
  pub record Shared : Type 0 where
    pub shr_list : List FileNode
    pub new_list : List FileNode
    pub file_recheck : Bool
    pub hashing : Option ℕ
    pub last : ℕ
    pub opened : Option (List ℕ × hash.State)
    pub heap : Heap

  -- The signal handler; sigusr1 is the number of SIGUSR1.
  abbrev pub file_recheck_callback : ℕ → ℕ → Shared → Shared
  file_recheck_callback sigusr1 signo s =
      if signo == sigusr1 then record s { file_recheck = true } else s

  -- file_walk_shared; a directory without a canonical name is left before the flag is touched.
  unfoldable pub file_walk_shared : FileSystem → List ℕ → Shared → Shared
  unfolding walk
  file_walk_shared fs shrdir s = elim (fs.ftw shrdir) [
    | none ↦ s
    | some visits ↦
        let found = walk s.shr_list s.new_list visits in
        record s {
          new_list = found;
          file_recheck = if length found == 0 then false else s.file_recheck;
        }
  ]

  abbrev pub checked : FileSystem → FileNode → FileNode
  checked fs node = record node { exists = fs.access (path_of node) }

  unfoldable pub file_exists_shared : FileSystem → Shared → Shared
  file_exists_shared fs s = record s { shr_list = map (checked fs) s.shr_list }

  -- The first part of file_do.
  unfoldable pub recheck : FileSystem → List ℕ → Shared → Shared
  unfolding file_exists_shared file_walk_shared
  recheck fs shrdir s =
      if s.file_recheck && length s.new_list == 0 && is_idle s.hashing
      then file_walk_shared fs shrdir (file_exists_shared fs s)
      else s

  -- The part of file_checksumcalc_noblock after fopen. The whole buffer is hashed, however little
  -- was read.
  unfoldable pub read_block : List ℕ → List ℕ × hash.State → Checksum × Option (List ℕ × hash.State)
  read_block junk ([], state) = (complete (hash.final state), none)
  read_block junk (b ∷ rest, state) = (
    hashing_on (length (take hashing_bufsize (b ∷ rest))),
    some (drop hashing_bufsize (b ∷ rest), hash.update state (block junk (b ∷ rest))),
  )

  unfoldable pub file_checksumcalc_noblock :
      List ℕ
      → FileSystem
      → List ℕ
      → Option (List ℕ × hash.State)
      → Checksum × Option (List ℕ × hash.State)
  unfolding read_block
  file_checksumcalc_noblock junk fs filename (some f) = read_block junk f
  file_checksumcalc_noblock junk fs filename none = elim (fs.fopen filename) [
    | none ↦ (failed, none)
    | some bytes ↦ read_block junk (bytes, hash.init)
  ]

  -- The end of the second part of file_do: the new list shrinks, the node gets a block for its
  -- hash.
  abbrev pub adopted : Shared → FileNode → List FileNode → ℕ → Heap → List ℕ → Shared
  adopted s node shr_list last heap junk = record s {
    shr_list = set shr_list last (record node { blake2b = some (next_block heap) });
    new_list = take (length s.new_list - 1) s.new_list;
    last = last;
    hashing = some last;
    heap = malloc heap junk;
  }

  -- A node that the list has no other of is appended, another takes the place of the old one.
  unfoldable pub adopt : List ℕ → Shared → FileNode → Option Shared
  unfolding free_hash
  adopt junk s node = elim (find_index (named (path_of node)) s.shr_list) [
    | none ↦ some (adopted s node (s.shr_list ++ (node ∷ [])) (length s.shr_list) s.heap junk)
    | some t ↦ elim (get_elem? s.shr_list t) [
      | none ↦ none
      | some old ↦
          Option.map (λ heap. adopted s node s.shr_list t heap junk) (free_hash old.blake2b s.heap)
    ]
  ]

  -- The second part of file_do: the last new node, unless a file is being hashed.
  unfoldable pub adopt_last : List ℕ → Shared → Option Shared
  unfolding adopt
  adopt_last junk s =
      if is_idle s.hashing
      then elim (get_elem? s.new_list (length s.new_list - 1)) [
        | none ↦ some s
        | some node ↦ adopt junk s node
      ]
      else some s

  -- What file_do returns, the node that the callback for new files is called with, and the state.
  abbrev pub Done : Type 0
  Done = record { ok : Bool; announced : Option ℕ; shared : Shared }

  -- The end of a hashing, with or without an error.
  abbrev pub ended : Bool → Shared → Done
  ended ok s = record {
    ok = ok;
    announced = some s.last;
    shared = record s {
      hashing = none;
      file_recheck = if length s.new_list == 0 then false else s.file_recheck;
    };
  }

  unfoldable pub hashed : FileNode → Shared → Checksum × Option (List ℕ × hash.State) → Option Done
  unfolding store
  hashed node s (failed, f) = some (ended false (record s { opened = f }))
  hashed node s (complete bytes, f) =
      Option.map (λ heap. ended true (record s { opened = f; heap = heap }))
        (store s.heap node.blake2b bytes)
  hashed node s (hashing_on n, f) =
      some (record { ok = true; announced = none; shared = record s { opened = f } })

  -- The third part of file_do.
  unfoldable pub hash_step : List ℕ → FileSystem → Shared → Option Done
  unfolding file_checksumcalc_noblock hashed
  hash_step junk fs s =
      if is_idle s.hashing
      then some (record { ok = true; announced = none; shared = s })
      else elim (get_elem? s.shr_list s.last) [
        | none ↦ none
        | some node ↦ hashed node s (file_checksumcalc_noblock junk fs (path_of node) s.opened)
      ]

  unfoldable pub file_do : List ℕ → FileSystem → List ℕ → Shared → Option Done
  unfolding recheck adopt_last hash_step
  file_do junk fs shrdir s = elim (adopt_last junk (recheck fs shrdir s)) [
    | none ↦ none
    | some s' ↦ hash_step junk fs s'
  ]
