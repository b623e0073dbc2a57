-- ===== src/Transfer/Tests.antt =====
-- Runs of file transfers, and the theorems at concrete queues.
use tox_suite.Base.{ℕ, ◌≡◌, refl, inl, Bool, true, false, Option, none, some, List, [], ◌∷◌, arith}
use mathlib.Core.Option
use tox_suite.Base.Int.{pos}
use tox_suite.Base.Heap.{Heap, load, release}
use tox_suite.Tox.Recorder.{recorder, Call, chunk, sent}
use tox_suite.Transfer.{
  FileNode, OpenFile, FileSender, zero_node, zero_sender, file_sender_get, file_sender_destroy,
  file_queue_destroy, free_hash,
}
use tox_suite.Transfer.Queue.{file_queue_destroy_shared}
use tox_suite.Transfer.Callbacks.{open_file, read_at, file_chunk_request_cb}
use tox_suite.Transfer.Serve.{serve, serve_lem, send_pieces, pieces, contents}
use tox_suite.Transfer.Receive.{Disk, file_recv_chunk_cb, file_recv_chunk_cb_drops, chunk_filename}
use tox_suite.Transfer.Filesend.{
  Packlist, Outcome, file_sender_new, file_sender_new_frees_shared, ok,
}
use tox_suite.Transfer.Send.{add_filesender}

abbrev song : OpenFile
song = record { bytes = 10 ∷ 11 ∷ 12 ∷ 13 ∷ 14 ∷ []; readable = true }

abbrev shared_node : FileNode
shared_node = record zero_node { file = some (b'/' ∷ b'a' ∷ []); blake2b = some 0; exists = true }

abbrev sender : FileSender
sender = record zero_sender {
  info = shared_node;
  file = some song;
  file_number = 3;
  friend_number = 7;
}

abbrev heap : Heap
heap = some (1 ∷ 2 ∷ []) ∷ []

abbrev never : ℕ → Bool
never p = false

abbrev render : Packlist → List ℕ
render p = p.packs_avail ∷ []

abbrev fopen : List ℕ → Option (List ℕ)
fopen path = some (20 ∷ 21 ∷ [])

abbrev chunks : Option (List Call)
chunks = Option.map (λ r. r.tox) (serve recorder never (sender ∷ []) heap [] 7 3 0 (2 ∷ 2 ∷ 2 ∷ []))

three_chunks :
    chunks
    ≡ some (chunk 7 3 4 (14 ∷ []) ∷ chunk 7 3 2 (12 ∷ 13 ∷ []) ∷ chunk 7 3 0 (10 ∷ 11 ∷ []) ∷ [])
unfolding serve file_chunk_request_cb open_file read_at file_sender_get Option.bind
three_chunks = refl

serve_lem_example :
    (serve recorder never (sender ∷ []) heap [] 7 3 0 (2 ∷ 2 ∷ 2 ∷ [])
      ≡ some (record {
        queue = sender ∷ [];
        heap = heap;
        tox = send_pieces recorder never 7 3 [] (pieces song 0 (2 ∷ 2 ∷ 2 ∷ []));
      }))
    × (contents (pieces song 0 (2 ∷ 2 ∷ 2 ∷ [])) ≡ song.bytes)
unfolding open_file file_sender_get Option.bind
serve_lem_example =
    serve_lem recorder never (sender ∷ []) heap [] 7 3 0 (2 ∷ 2 ∷ 2 ∷ []) song refl refl (λ p. refl)
      (omega arith)

file_queue_destroy_shared_example : file_queue_destroy (sender ∷ sender ∷ []) heap ≡ none
file_queue_destroy_shared_example =
    file_queue_destroy_shared (sender ∷ sender ∷ []) heap 0 (inl (refl, inl refl))

abbrev empty_disk : Disk
empty_disk name = none

file_recv_chunk_cb_drops_example :
    Option.get_or
      (file_recv_chunk_cb (λ name. true) never empty_disk 7 3 0 (1 ∷ 2 ∷ []) (chunk_filename 7 3))
      []
    ≡ []
file_recv_chunk_cb_drops_example =
    file_recv_chunk_cb_drops (λ name. true) never empty_disk 7 3 0 (1 ∷ 2 ∷ []) (chunk_filename 7 3)
      refl

abbrev outcome : Outcome recorder render true fopen
outcome = record {
  result = ok;
  queue =
      record zero_sender {
        info = record shared_node { file = some (b'a' ∷ []); length = 2 };
        pathname = some (b'/' ∷ b'a' ∷ []);
        file = some (record { bytes = 20 ∷ 21 ∷ []; readable = true });
        friend_number = 7;
      }
      ∷ [];
  heap = heap;
  tox = sent 7 0 2 (b'a' ∷ []) ∷ [];
}

new_runs :
    file_sender_new recorder render true fopen 7 (shared_node ∷ []) (pos 0) [] heap []
    ≡ some outcome
unfolding file_sender_new add_filesender load tox_suite.Misc.Text.gnu_basename
new_runs = refl

file_sender_new_frees_shared_example :
    (◌≡◌ {A = List FileSender} [] []) × (load (none ∷ []) 0 ≡ none)
unfolding file_sender_destroy free_hash release
file_sender_new_frees_shared_example =
    file_sender_new_frees_shared recorder render true fopen 7 (shared_node ∷ []) 0 [] [] heap
      (none ∷ []) [] outcome shared_node 0 refl refl new_runs (λ e. ground arith) refl
