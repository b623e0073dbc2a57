-- ===== src/Transfer/Serve.antt =====
-- What a friend gets who requests a file chunk by chunk, and how a transfer ends.
use tox_suite.Base.{
  ℕ, zero, suc, ◌+◌, ◌≡◌, refl, ap, ◌≢◌, ◌⊎◌, inl, inr, Bool, true, false, Option, none, some, List,
  [], ◌∷◌, ◌++◌, arith, get_elem?, take, drop, All,
}
use Prim.Native.Nat.add
use tox_suite.Base.Entries.{erase_at}
use tox_suite.Base.Heap.{Heap, load, release_live, load-release_self}
use tox_suite.Tox.{Tox}
use tox_suite.Transfer.{
  OpenFile, FileSender, file_sender_get, file_sender_destroy, file_queue_size, free_hash,
}
use tox_suite.Transfer.Callbacks.{
  cancel, open_file, read_at, file_chunk_request_cb, file_recv_control_cb, Served,
}

-- The positions and the bytes of the chunks that answer requests in a row.
abbrev pub pieces : OpenFile → ℕ → List ℕ → List (ℕ × List ℕ)
pieces file position [] = []
pieces file position (len ∷ lens) =
    (position, take len (drop position file.bytes)) ∷ pieces file (position + len) lens

abbrev pub total : List ℕ → ℕ
total [] = 0
total (n ∷ ns) = n + total ns

abbrev pub contents : List (ℕ × List ℕ) → List ℕ
contents [] = []
contents ((_, bytes) ∷ ps) = bytes ++ contents ps

take-nil : (b : ℕ) → take {A = ℕ} b [] ≡ []
take-nil zero = refl
take-nil (suc b) = refl

drop-nil : (b : ℕ) → drop {A = ℕ} b [] ≡ []
drop-nil zero = refl
drop-nil (suc b) = refl

take-add : (a b : ℕ) (xs : List ℕ) → take a xs ++ take b (drop a xs) ≡ take (a + b) xs
take-add zero b xs = rw add.zero
take-add (suc a) b [] = rw add.suc (take-nil b)
take-add (suc a) b (x ∷ xs) = rw add.suc (ap (◌∷◌ x) (take-add a b xs))

drop-add : (a b : ℕ) (xs : List ℕ) → drop b (drop a xs) ≡ drop (a + b) xs
drop-add zero b xs = rw add.zero
drop-add (suc a) b [] = rw add.suc (drop-nil b)
drop-add (suc a) b (x ∷ xs) = rw add.suc (drop-add a b xs)

contents-pieces :
    (file : OpenFile) (position : ℕ) (lens : List ℕ)
    → contents (pieces file position lens) ≡ take (total lens) (drop position file.bytes)
contents-pieces file position [] = refl
contents-pieces file position (len ∷ lens) =
    rw (contents-pieces file (position + len) lens, ← drop-add position len file.bytes)
      (take-add len (total lens) (drop position file.bytes))

module _ (tox : Tox) (seek_fails : ℕ → Bool) where
  open tox use {State}

  -- A row of chunk requests, each where the last one ended.
  unfoldable pub serve :
      List FileSender → Heap → State → ℕ → ℕ → ℕ → List ℕ → Option (Served tox seek_fails)
  serve queue heap t friend_number file_number position [] =
      some (record { queue = queue; heap = heap; tox = t })
  serve queue heap t friend_number file_number position (len ∷ lens) =
      elim (file_chunk_request_cb tox seek_fails queue heap t friend_number file_number position
        len) [
          | none ↦ none
          | some r ↦ serve r.queue r.heap r.tox friend_number file_number (position + len) lens
        ]

  abbrev pub send_pieces : ℕ → ℕ → State → List (ℕ × List ℕ) → State
  send_pieces friend_number file_number t [] = t
  send_pieces friend_number file_number t ((position, bytes) ∷ ps) =
      send_pieces friend_number file_number
        (tox.file_send_chunk t friend_number file_number position bytes) ps

  chunk_lem :
      (queue : List FileSender) (heap : Heap) (t : State)
      (friend_number file_number position len : ℕ) (file : OpenFile)
      → open_file queue (file_sender_get queue friend_number file_number) ≡ some file
      → file.readable ≡ true
      → seek_fails position ≡ false
      → len ≢ 0
      → file_chunk_request_cb tox seek_fails queue heap t friend_number file_number position len
        ≡ some (record {
          queue = queue;
          heap = heap;
          tox =
              tox.file_send_chunk t friend_number file_number position
                (take len (drop position file.bytes));
        })
  unfolding file_chunk_request_cb read_at
  chunk_lem queue heap t friend_number file_number position len file found readable seeks nonempty =
      rw (found, file_chunk_request_cb) (ground (arith, readable, seeks))

  -- Requests in a row, none of them empty, for a file that is open for reading and where every
  -- position can be sought, are answered each with its own bytes, and together with the file's
  -- bytes from the first position on; the queue and the heap stay.
  pub serve_lem :
      (queue : List FileSender) (heap : Heap) (t : State) (friend_number file_number position : ℕ)
      (lens : List ℕ) (file : OpenFile)
      → open_file queue (file_sender_get queue friend_number file_number) ≡ some file
      → file.readable ≡ true
      → ((p : ℕ) → seek_fails p ≡ false)
      → All (λ len. len ≢ 0) lens
      → (serve queue heap t friend_number file_number position lens
          ≡ some (record {
            queue = queue;
            heap = heap;
            tox = send_pieces friend_number file_number t (pieces file position lens);
          }))
        × (contents (pieces file position lens) ≡ take (total lens) (drop position file.bytes))
  unfolding serve
  serve_lem queue heap t friend_number file_number position [] file found readable seeks nonempty =
      (refl, refl)
  serve_lem queue heap t friend_number file_number position (len ∷ lens) file found readable seeks
        nonempty =
      (
        rw (serve_one, serve)
            (serve_lem queue heap
              (tox.file_send_chunk t friend_number file_number position
                (take len (drop position file.bytes)))
              friend_number file_number (position + len) lens file found readable seeks
              nonempty.1).0,
        contents-pieces file position (len ∷ lens),
      )
    where
      serve_one :
          file_chunk_request_cb tox seek_fails queue heap t friend_number file_number position len
          ≡ some (record {
            queue = queue;
            heap = heap;
            tox =
                tox.file_send_chunk t friend_number file_number position
                  (take len (drop position file.bytes));
          })
      serve_one =
          chunk_lem queue heap t friend_number file_number position len file found readable
            (seeks position) nonempty.0

-- The entry that a pointer leads to has a live hash, or none.
abbrev pub HashLive : Heap → FileSender → Type 0
HashLive heap f =
    (f.info.blake2b ≡ none)
    ⊎ ((p : ℕ) × (bytes : List ℕ) × (f.info.blake2b ≡ some p) × (load heap p ≡ some bytes))

free_hash_live :
    (heap : Heap) (f : FileSender)
    → HashLive heap f
    → (heap' : Heap) × (free_hash f.info.blake2b heap ≡ some heap')
unfolding free_hash
free_hash_live heap f (inl e) = (heap, rw e)
free_hash_live heap f (inr (p, bytes, e, live)) =
    let (heap', r) = release_live heap p bytes live in (heap', rw e r)

free_hash_gone :
    (heap heap' : Heap) (f : FileSender) (p : ℕ)
    → f.info.blake2b ≡ some p
    → free_hash f.info.blake2b heap ≡ some heap'
    → load heap' p ≡ none
unfolding free_hash
free_hash_gone heap heap' f p e r = load-release_self heap heap' p (rw e at r)

erase_at-size :
    (queue : List FileSender) (i : ℕ) (f : FileSender)
    → get_elem? queue i ≡ some f
    → file_queue_size (erase_at i queue) + 1 ≡ file_queue_size queue
unfolding file_queue_size
erase_at-size [] i f e = cc
erase_at-size (x ∷ xs) zero f e = refl
erase_at-size (x ∷ xs) (suc i) f e = ap (λ n. n + 1) (erase_at-size xs i f e)

-- Cancelling a transfer that is in the queue removes one entry and frees its hash.
pub cancel_removes :
    (queue : List FileSender) (heap : Heap) (friend_number file_number i : ℕ) (f : FileSender)
    → file_sender_get queue friend_number file_number ≡ some i
    → get_elem? queue i ≡ some f
    → HashLive heap f
    → (heap' : Heap) × (file_recv_control_cb queue heap friend_number file_number cancel
        ≡ some (erase_at i queue, heap'))
      × (file_queue_size (erase_at i queue) + 1 ≡ file_queue_size queue)
unfolding file_recv_control_cb file_sender_destroy
cancel_removes queue heap friend_number file_number i f found at live =
    let (heap', freed) = free_hash_live heap f live in
    (heap', rw (found, file_sender_destroy, at, freed), erase_at-size queue i f at)

-- Cancelling one that is not in the queue dereferences NULL.
pub cancel_unknown :
    (queue : List FileSender) (heap : Heap) (friend_number file_number : ℕ)
    → file_sender_get queue friend_number file_number ≡ none
    → file_recv_control_cb queue heap friend_number file_number cancel ≡ none
unfolding file_recv_control_cb file_sender_destroy
cancel_unknown queue heap friend_number file_number missing = rw (missing, file_sender_destroy)
