-- ===== src/Transfer.antt =====
-- src/file.c, src/file.h and src/filesend.c: the queue of files being sent, the callbacks of a
-- transfer, and the sending of a shared file or of the list of packs. `none` as a result is a
-- crash: a NULL or dangling pointer, or a second free.
pub mod Queue
pub mod Send
pub mod Callbacks
pub mod Receive
pub mod Serve
pub mod Filesend
mod Tests
use tox_suite.Base.{
  ℕ, zero, suc, ◌+◌, ◌-◌, ◌*◌, ◌/◌, ◌%◌, ◌^◌, ◌≤◌, ◌<◌, ◌≡◌, refl, sym, ap, ◌∙◌, ◌≢◌, ◌↔◌, ◌⊎◌, inl,
  inr, Bool, true, false, ◌&&◌, ◌||◌, not, Option, none, some, List, [], ◌∷◌, ◌++◌, map, arith, ltb,
  leb, ◌==◌, if◌then◌else◌, ltb→lt, lt→ltb, not-ltb→le, not-leb→lt, leb→le, le→leb, ==_iff,
  Bool-cases, Option-cases, length, get_elem?, set, take, drop, All, length-append,
  take-append-drop, length-drop, eq_bytes, eq_bytes→eq, eq_bytes_refl,
}
use mathlib.Core.Option
use tox_suite.Base.Entries.{find_index, erase_at}
use tox_suite.Base.Heap.{Heap, release}

-- The hash is a pointer into the heap, as it may be shared with the list of shared files.
pub record FileNode : Type 0 where
  pub file : Option (List ℕ)
  pub blake2b : Option ℕ
  pub mtime : ℕ
  pub length : ℕ
  pub exists : Bool

-- A `FILE *`: the bytes of the file, and whether it was opened for reading.
pub record OpenFile : Type 0 where
  pub bytes : List ℕ
  pub readable : Bool

pub record FileSender : Type 0 where
  pub info : FileNode
  pub pathname : Option (List ℕ)
  pub file : Option OpenFile
  pub file_number : ℕ
  pub friend_number : ℕ
  pub kind : ℕ
  pub accepted : ℕ
  pub timestamp : ℕ

abbrev pub tox_file_id_length : ℕ
tox_file_id_length = 32

abbrev pub num_file_senders : ℕ
num_file_senders = 64

-- memset with 0.
abbrev pub zero_node : FileNode
zero_node = record { file = none; blake2b = none; mtime = 0; length = 0; exists = false }

abbrev pub zero_sender : FileSender
zero_sender = record {
  info = zero_node;
  pathname = none;
  file = none;
  file_number = 0;
  friend_number = 0;
  kind = 0;
  accepted = 0;
  timestamp = 0;
}

unfoldable pub file_queue_init : List FileSender
file_queue_init = []

-- FileQueue_size
unfoldable pub file_queue_size : List FileSender → ℕ
file_queue_size [] = 0
file_queue_size (f ∷ fs) = file_queue_size fs + 1

abbrev pub is_sender : ℕ → ℕ → FileSender → Bool
is_sender friend_number file_number f =
    f.friend_number == friend_number && f.file_number == file_number

-- FileSender_get
unfoldable pub file_sender_get : List FileSender → ℕ → ℕ → Option ℕ
file_sender_get queue friend_number file_number =
    find_index (is_sender friend_number file_number) queue

-- FileSender_new: list_add puts the new sender, at position 0, before all others.
unfoldable pub file_sender_alloc : List FileSender → List FileSender
file_sender_alloc queue = zero_sender ∷ queue

-- free of the hash; of NULL it does nothing.
unfoldable pub free_hash : Option ℕ → Heap → Option Heap
free_hash none heap = some heap
free_hash (some p) heap = release heap p

-- FileSender_destroy of the entry that a pointer leads to. The blocks that only the sender holds
-- leave no trace in the model.
unfoldable pub file_sender_destroy :
    Option ℕ → List FileSender → Heap → Option (List FileSender × Heap)
unfolding free_hash
file_sender_destroy none queue heap = none
file_sender_destroy (some i) queue heap = elim (get_elem? queue i) [
  | none ↦ none
  | some f ↦ Option.map (λ heap'. (erase_at i queue, heap')) (free_hash f.info.blake2b heap)
]

-- FileQueue_destroy: list_for_each_entry_safe over FileSender_destroy.
unfoldable pub file_queue_destroy : List FileSender → Heap → Option Heap
unfolding free_hash
file_queue_destroy [] heap = some heap
file_queue_destroy (f ∷ fs) heap = elim (free_hash f.info.blake2b heap) [
  | none ↦ none
  | some heap' ↦ file_queue_destroy fs heap'
]
