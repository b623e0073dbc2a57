-- ===== src/Transfer/Filesend.antt =====
-- src/filesend.c: sending a shared file, or the list of all packs, to a friend.
use tox_suite.Base.{
  ℕ, ◌+◌, ◌≡◌, ◌≢◌, ◌⊎◌, inl, inr, Bool, true, false, Option, none, some, List, [], ◌∷◌, arith,
  ◌==◌, if◌then◌else◌, Option-cases, get_elem?,
}
use mathlib.Core.Option
use tox_suite.Base.Int.{ℤ, pos, negsuc, sub_ℕ}
use tox_suite.Base.Heap.{Heap, load, release, load-release_self}
use tox_suite.Base.Words.{u32_max}
use tox_suite.Misc.Text.{gnu_basename}
use tox_suite.Tox.{Tox}
use tox_suite.Transfer.{
  FileNode, FileSender, zero_sender, file_queue_size, file_sender_alloc, file_sender_destroy,
  num_file_senders, free_hash,
}
use tox_suite.Transfer.Send.{add_filesender, add_filesender_keeps_hash}

pub data FileSendResult : Type 0 where
  ok err_full err_sending err_fileio err : FileSendResult

-- What file_list_create prints: the counts of the first line, and the packs that exist with their
-- numbers.
pub record Packlist : Type 0 where
  pub packs_avail : ℕ
  pub slots_open : ℤ
  pub packs : List (ℕ × FileNode)

count_existing : List FileNode → ℕ
count_existing [] = 0
count_existing (n ∷ ns) = if n.exists then count_existing ns + 1 else count_existing ns

existing_from : ℕ → List FileNode → List (ℕ × FileNode)
existing_from i [] = []
existing_from i (n ∷ ns) =
    let rest = existing_from (i + 1) ns in if n.exists then (i, n) ∷ rest else rest

unfoldable pub file_list_create : List FileNode → List FileSender → Packlist
unfolding count_existing existing_from
file_list_create shared queue = record {
  packs_avail = count_existing shared;
  slots_open = sub_ℕ num_file_senders (file_queue_size queue);
  packs = existing_from 0 shared;
}

-- "packlist.txt"
abbrev pub packlist_filename : List ℕ
packlist_filename =
    b'p' ∷ b'a' ∷ b'c' ∷ b'k' ∷ b'l' ∷ b'i' ∷ b's' ∷ b't' ∷ b'.' ∷ b't' ∷ b'x' ∷ b't' ∷ []

-- `render` gives the bytes of the printed list, `list_writable` says whether fopen can create its
-- file, and `fopen` opens a file for reading.
module _ (tox : Tox) (render : Packlist → List ℕ) (list_writable : Bool)
    (fopen : List ℕ → Option (List ℕ)) where
  open tox use {State}

  abbrev pub Outcome : Type 0
  Outcome = record { result : FileSendResult; queue : List FileSender; heap : Heap; tox : State }

  -- The last part of file_sender_new: the sender is the first of the queue.
  finish : List FileSender → ℕ → FileSender → Heap → State → Option Outcome
  finish queue friend_number f heap t =
      elim (add_filesender tox fopen (record f { friend_number = friend_number }) heap t) [
        | none ↦ none
        | some sent ↦ some (record {
          result = if sent.number == u32_max then err_sending else ok;
          queue = sent.sender ∷ queue;
          heap = sent.heap;
          tox = sent.tox;
        })
      ]

  -- The stream stays open for writing only.
  list_sender : List FileNode → List FileSender → FileSender
  list_sender shared queue = record zero_sender {
    info = record (zero_sender.info) { file = some packlist_filename };
    pathname = some packlist_filename;
    file = some (record {
      bytes = render (file_list_create shared (file_sender_alloc queue));
      readable = false;
    });
  }

  -- The node is copied with its pointer to the hash, so the memcpy of the hash, which a NULL
  -- pointer would stop, copies it onto itself.
  pack_sender : FileNode → List ℕ → List ℕ → FileSender
  pack_sender node path bytes = record zero_sender {
    info = record node { file = some (gnu_basename path) };
    pathname = some path;
    file = some (record { bytes = bytes; readable = true });
  }

  -- FileSender_destroy of the new sender after a failed fopen: it frees the shared hash.
  abandon : List FileSender → Option ℕ → Heap → State → Option Outcome
  abandon queue hash heap t =
      Option.map (λ heap'. record { result = err_fileio; queue = queue; heap = heap'; tox = t })
        (free_hash hash heap)

  send_pack : FileNode → List FileSender → Heap → State → ℕ → Option Outcome
  unfolding finish pack_sender abandon
  send_pack node queue heap t friend_number = elim node.blake2b [
    | none ↦ none
    | some hash ↦ elim node.file [
      | none ↦ none
      | some path ↦ elim (fopen path) [
        | none ↦ abandon queue (some hash) heap t
        | some bytes ↦ finish queue friend_number (pack_sender node path bytes) heap t
      ]
    ]
  ]

  -- A pack number past the end of the array is a fault.
  unfoldable pub file_sender_new :
      ℕ → List FileNode → ℤ → List FileSender → Heap → State → Option Outcome
  unfolding send_pack list_sender
  file_sender_new friend_number shared (negsuc n) queue heap t =
      if list_writable
      then finish queue friend_number (list_sender shared queue) heap t
      else abandon queue none heap t
  file_sender_new friend_number shared (pos packn) queue heap t = elim (get_elem? shared packn) [
    | none ↦ none
    | some node ↦ send_pack node queue heap t friend_number
  ]

  -- Sending never reports a full queue, however long the queue is. A refused fopen leaves the queue
  -- as it was; any other outcome, an error of toxcore too, leaves one sender more in it.
  pub file_sender_new_size :
      (friend_number : ℕ) (shared : List FileNode) (packn : ℤ) (queue : List FileSender)
      (heap : Heap) (t : State) (o : Outcome)
      → file_sender_new friend_number shared packn queue heap t ≡ some o
      → (o.result ≢ err_full)
        × (((o.result ≡ err_fileio) × (o.queue ≡ queue))
            ⊎ ((o.result ≢ err_fileio) × (file_queue_size o.queue ≡ file_queue_size queue + 1)))
  unfolding file_sender_new finish abandon send_pack file_queue_size
  file_sender_new_size friend_number shared (negsuc n) queue heap t o e = ground arith
  file_sender_new_size friend_number shared (pos packn) queue heap t o e = ground arith

  finish_head :
      (queue : List FileSender) (n : ℕ) (f : FileSender) (heap : Heap) (t : State) (o : Outcome)
      (p : ℕ)
      → f.info.blake2b ≡ some p
      → finish queue n f heap t ≡ some o
      → (s : FileSender) × (o.queue ≡ s ∷ queue) × (s.info.blake2b ≡ some p) × (o.heap ≡ heap)
  unfolding finish
  finish_head queue n f heap t o p has e =
      elim (Option-cases (add_filesender tox fopen (record f { friend_number = n }) heap t)) [
        | inl a ↦ absurd (ground arith)
        | inr (sent, a) ↦
            let kept =
              add_filesender_keeps_hash tox fopen (record f { friend_number = n }) heap t p sent has
                a in
            (sent.sender, ground (arith, a), kept.0, ground (arith, a, kept.1))
      ]

  send_pack_head :
      (node : FileNode) (queue : List FileSender) (heap : Heap) (t : State) (n : ℕ) (o : Outcome)
      (p : ℕ)
      → node.blake2b ≡ some p
      → send_pack node queue heap t n ≡ some o
      → o.result ≢ err_fileio
      → (s : FileSender) × (o.queue ≡ s ∷ queue) × (s.info.blake2b ≡ some p) × (o.heap ≡ heap)
  unfolding send_pack
  send_pack_head node queue heap t n o p has e sent = elim (Option-cases node.file) [
    | inl unnamed ↦ absurd (ground (arith, has, unnamed))
    | inr (path, f) ↦ elim (Option-cases (fopen path)) [
      | inl closed ↦ absurd (unfold abandon in ground (arith, has, f, closed))
      | inr (bytes, b) ↦
          finish_head queue n (pack_sender node path bytes) heap t o p (unfold pack_sender in has)
            (ground (arith, has, f, b))
    ]
  ]

  destroy_head :
      (s : FileSender) (queue queue' : List FileSender) (heap heap' : Heap) (p : ℕ)
      → s.info.blake2b ≡ some p
      → file_sender_destroy (some 0) (s ∷ queue) heap ≡ some (queue', heap')
      → (queue' ≡ queue) × (load heap' p ≡ none)
  unfolding file_sender_destroy free_hash
  destroy_head s queue queue' heap heap' p has e = elim (Option-cases (release heap p)) [
    | inl r ↦ absurd (ground arith)
    | inr (h, r) ↦ (ground arith, ground (arith, load-release_self heap h p r))
  ]

  -- The sender of a shared file keeps the node's hash pointer. So when its transfer ends, the block
  -- is freed that the shared node still points to.
  pub file_sender_new_frees_shared :
      (friend_number : ℕ) (shared : List FileNode) (packn : ℕ) (queue queue' : List FileSender)
      (heap heap' : Heap) (t : State) (o : Outcome) (node : FileNode) (p : ℕ)
      → get_elem? shared packn ≡ some node
      → node.blake2b ≡ some p
      → file_sender_new friend_number shared (pos packn) queue heap t ≡ some o
      → o.result ≢ err_fileio
      → file_sender_destroy (some 0) o.queue o.heap ≡ some (queue', heap')
      → (queue' ≡ queue) × (load heap' p ≡ none)
  unfolding file_sender_new
  file_sender_new_frees_shared friend_number shared packn queue queue' heap heap' t o node p at hash
        new sent destroyed =
      let (s, first, has, same) =
        send_pack_head node queue heap t friend_number o p hash
          (unfold file_sender_new in rw (at, file_sender_new) at new) sent in
      destroy_head s queue queue' heap heap' p has (rw (first, same) at destroyed)
