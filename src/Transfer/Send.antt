-- ===== src/Transfer/Send.antt =====
-- `add_filesender`: a sender is opened, measured, offered to the friend and given its file id.
pub mod Offering
use tox_suite.Base.{
  Option-cases, ◌⊎◌, inl, inr, refl, ℕ, ◌≡◌, true, Option, none, some, List, arith, ◌==◌,
  if◌then◌else◌, length,
}
use mathlib.Core.Option
use mathlib.Core.Path.{subst}
use tox_suite.Base.{sym}
use tox_suite.Base.Heap.{Heap, malloc, next_block, load}
use tox_suite.Base.Words.{u32_max}
use tox_suite.Tox.{Tox}
use tox_suite.Transfer.{OpenFile, FileSender}

-- The bytes behind the hash pointer: NULL has none, and a dangling pointer is a fault.
abbrev pub hash_bytes : Option ℕ → Heap → Option (Option (List ℕ))
hash_bytes none heap = some none
hash_bytes (some p) heap = elim (load heap p) [ none ↦ none | some bytes ↦ some (some bytes) ]

-- fopen (pathname, "rb"), unless the sender has a file already.
module _ (fopen : List ℕ → Option (List ℕ)) where
  pub open_sender : FileSender → Option OpenFile
  open_sender f = elim f.file [
    | some file ↦ some file
    | none ↦ elim f.pathname [
      | none ↦ none
      | some path ↦ Option.map (λ bytes. record { bytes = bytes; readable = true }) (fopen path)
    ]
  ]

-- The length is taken from the end of the file if the node has none.
pub measured : FileSender → OpenFile → FileSender
measured f file = record f {
  file = some file;
  info = record (f.info) {
    length = if f.info.length == 0 then length file.bytes else f.info.length;
  };
}

-- A sender with a name, and with no hash or a live one, can be offered.
abbrev pub IsReady : Heap → FileSender → Type 0
IsReady heap f =
    ((name : List ℕ) × (f.info.file ≡ some name))
    × ((hash : Option (List ℕ)) × (hash_bytes f.info.blake2b heap ≡ some hash))

-- The heap is as before or has one block more.
abbrev pub Grows : Heap → Heap → Type 0
Grows heap heap' = (heap' ≡ heap) ⊎ ((bytes : List ℕ) × (heap' ≡ malloc heap bytes))

module _ (tox : Tox) where
  open tox use {State}

  -- The number that is returned, the sender, the heap and toxcore afterwards.
  abbrev pub Sent : Type 0
  Sent = record { number : ℕ; sender : FileSender; heap : Heap; tox : State }

  -- tox_file_get_file_id into a new block, if the node has no hash.
  pub keep_file_id : FileSender → Heap → State → Sent
  keep_file_id f heap t = elim f.info.blake2b [
    | some p ↦ record { number = f.file_number; sender = f; heap = heap; tox = t }
    | none ↦ record {
      number = f.file_number;
      sender = record f { info = record (f.info) { blake2b = some (next_block heap) } };
      heap = malloc heap (tox.file_get_file_id t f.friend_number f.file_number);
      tox = t;
    }
  ]

  -- strlen of a NULL name is a fault.
  pub offer : FileSender → Heap → State → Option Sent
  unfolding keep_file_id
  offer f heap t = elim f.info.file [
    | none ↦ none
    | some name ↦ elim (hash_bytes f.info.blake2b heap) [
      | none ↦ none
      | some hash ↦
          let (n, t') = tox.file_send t f.friend_number f.kind f.info.length hash name in
          some (keep_file_id (record f { file_number = n }) heap t')
    ]
  ]

  unfoldable pub add_filesender :
      (List ℕ → Option (List ℕ)) → FileSender → Heap → State → Option Sent
  unfolding open_sender measured offer
  add_filesender fopen f heap t = elim (open_sender fopen f) [
    | none ↦ some (record { number = u32_max; sender = f; heap = heap; tox = t })
    | some file ↦ offer (measured f file) heap t
  ]

  -- A sender that has a hash keeps it, and the heap.
  pub add_filesender_keeps_hash :
      (fopen : List ℕ → Option (List ℕ)) (f : FileSender) (heap : Heap) (t : State) (p : ℕ)
      (sent : Sent)
      → f.info.blake2b ≡ some p
      → add_filesender fopen f heap t ≡ some sent
      → (sent.sender.info.blake2b ≡ some p) × (sent.heap ≡ heap)
  unfolding add_filesender
  add_filesender_keeps_hash fopen f heap t p sent has e = ground arith
