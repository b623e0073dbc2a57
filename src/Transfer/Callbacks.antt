-- ===== src/Transfer/Callbacks.antt =====
-- The callbacks of src/file.c that serve a file being sent.
use tox_suite.Base.{ℕ, Bool, Option, none, some, List, [], ◌==◌, if◌then◌else◌, take, drop}
use mathlib.Core.Option
use tox_suite.Base.Entries.{deref}
use tox_suite.Base.Heap.{Heap}
use tox_suite.Tox.{Tox}
use tox_suite.Transfer.{OpenFile, FileSender, file_sender_get, file_sender_destroy}

-- TOX_FILE_CONTROL
pub data FileControl : Type 0 where
  resume pause cancel : FileControl

-- fseek and fread: a stream that was opened for writing yields nothing.
unfoldable pub read_at : OpenFile → ℕ → ℕ → List ℕ
read_at stream position n = if stream.readable then take n (drop position stream.bytes) else []

-- The open file of the sender that a pointer leads to.
unfoldable pub open_file : List FileSender → Option ℕ → Option OpenFile
open_file queue p = Option.bind (deref queue p) (λ f. f.file)

module _ (tox : Tox) (seek_fails : ℕ → Bool) where
  open tox use {State}

  -- The queue, the heap and toxcore after the call.
  abbrev pub Served : Type 0
  Served = record { queue : List FileSender; heap : Heap; tox : State }

  unfoldable pub file_chunk_request_cb :
      List FileSender → Heap → State → ℕ → ℕ → ℕ → ℕ → Option Served
  file_chunk_request_cb queue heap t friend_number file_number position len =
      let f = file_sender_get queue friend_number file_number in
      elim (open_file queue f) [
        | none ↦ some (record { queue = queue; heap = heap; tox = t })
        | some stream ↦
            if len == 0
            then Option.map (λ (q, h). record { queue = q; heap = h; tox = t })
                (file_sender_destroy f queue heap)
            else if seek_fails position
            then some (record { queue = queue; heap = heap; tox = t })
            else some (record {
              queue = queue;
              heap = heap;
              tox =
                  tox.file_send_chunk t friend_number file_number position
                    (read_at stream position len);
            })
      ]

-- FileSender_destroy (NULL) is a fault, whatever number the friend sends.
unfoldable pub file_recv_control_cb :
    List FileSender → Heap → ℕ → ℕ → FileControl → Option (List FileSender × Heap)
file_recv_control_cb queue heap friend_number file_number resume = some (queue, heap)
file_recv_control_cb queue heap friend_number file_number pause = some (queue, heap)
file_recv_control_cb queue heap friend_number file_number cancel =
    file_sender_destroy (file_sender_get queue friend_number file_number) queue heap
