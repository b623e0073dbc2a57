-- ===== src/Transfer/Send/Offering.antt =====
-- add_filesender for a sender that can be offered: what it asks of toxcore, and what it leaves.
use tox_suite.Base.{
  Option-cases, ◌⊎◌, inl, inr, refl, ℕ, ◌≡◌, true, Option, none, some, List, arith, ◌==◌,
  if◌then◌else◌, length,
}
use mathlib.Core.Path.{subst}
use tox_suite.Base.{sym}
use tox_suite.Base.Heap.{Heap, malloc, next_block}
use tox_suite.Base.Words.{u32_max}
use tox_suite.Tox.{Tox}
use tox_suite.Transfer.{OpenFile, FileSender}
use tox_suite.Transfer.Send.{
  hash_bytes, open_sender, measured, IsReady, Grows, Sent, keep_file_id, offer, add_filesender,
}

-- The file of a sender: the one that it has, or the one that its path leads to.
abbrev pub Opens : (List ℕ → Option (List ℕ)) → FileSender → OpenFile → Type 0
Opens fopen f file =
    (f.file ≡ some file)
    ⊎ ((f.file ≡ none)
        × (path : List ℕ) × (bytes : List ℕ) × (f.pathname ≡ some path)
        × (fopen path ≡ some bytes)
        × (file ≡ record { bytes = bytes; readable = true }))

abbrev pub CannotOpen : (List ℕ → Option (List ℕ)) → FileSender → Type 0
CannotOpen fopen f =
    (f.file ≡ none)
    × ((f.pathname ≡ none) ⊎ ((path : List ℕ) × (f.pathname ≡ some path) × (fopen path ≡ none)))

module _ (tox : Tox) where
  open tox use {State}

  keep_file_id-Grows :
      (f : FileSender) (heap : Heap) (t : State) → Grows heap (keep_file_id tox f heap t).heap
  unfolding keep_file_id
  keep_file_id-Grows f heap t = elim (Option-cases f.info.blake2b) [
    | inl e ↦ inr (tox.file_get_file_id t f.friend_number f.file_number, rw e refl)
    | inr (p, e) ↦ inl (rw e refl)
  ]

  keep_file_id-pathname :
      (f : FileSender) (heap : Heap) (t : State)
      → (keep_file_id tox f heap t).sender.pathname ≡ f.pathname
  unfolding keep_file_id
  keep_file_id-pathname f heap t = elim (Option-cases f.info.blake2b) [
    | inl e ↦ rw e refl
    | inr (p, e) ↦ rw e refl
  ]

  offer_ready :
      (f : FileSender) (heap : Heap) (t : State) (name : List ℕ) (hash : Option (List ℕ))
      → f.info.file ≡ some name
      → hash_bytes f.info.blake2b heap ≡ some hash
      → (let r = tox.file_send t f.friend_number f.kind f.info.length hash name in
          offer tox f heap t ≡ some (keep_file_id tox (record f { file_number = r.0 }) heap r.1))
  unfolding offer
  offer_ready f heap t name hash named hashed = ground arith

  open_sender-Opens :
      (fopen : List ℕ → Option (List ℕ)) (f : FileSender) (file : OpenFile)
      → open_sender fopen f ≡ some file
      → Opens fopen f file
  unfolding open_sender
  open_sender-Opens fopen f file e = elim (Option-cases f.file) [
    | inr (old, has) ↦ inl (ground (arith, has, e))
    | inl lacks ↦ elim (Option-cases f.pathname) [
      | inl no_path ↦ absurd (ground (arith, lacks, no_path, e))
      | inr (path, named) ↦ elim (Option-cases (fopen path)) [
        | inl closed ↦ absurd (ground (arith, lacks, named, closed, e))
        | inr (bytes, opened) ↦
            inr (lacks, path, bytes, named, opened, ground (arith, lacks, named, opened, e))
      ]
    ]
  ]

  open_sender-CannotOpen :
      (fopen : List ℕ → Option (List ℕ)) (f : FileSender)
      → open_sender fopen f ≡ none
      → CannotOpen fopen f
  unfolding open_sender
  open_sender-CannotOpen fopen f e = elim (Option-cases f.file) [
    | inr (old, has) ↦ absurd (ground (arith, has, e))
    | inl lacks ↦ elim (Option-cases f.pathname) [
      | inl no_path ↦ (lacks, inl no_path)
      | inr (path, named) ↦ elim (Option-cases (fopen path)) [
        | inl closed ↦ (lacks, inr (path, named, closed))
        | inr (bytes, opened) ↦ absurd (ground (arith, lacks, named, opened, e))
      ]
    ]
  ]

  -- The sender was offered with tox_file_send: by the friend, the kind, the length, the hash and
  -- the name; the new sender has the number of the file, and a hash, that of toxcore if it had
  -- none.
  abbrev pub IsOffer :
      FileSender → OpenFile → List ℕ → Option (List ℕ) → Heap → State → Sent tox → Type 0
  IsOffer f file name hash heap t sent =
      let len = if f.info.length == 0 then length file.bytes else f.info.length in
      let r = tox.file_send t f.friend_number f.kind len hash name in
      (sent.tox ≡ r.1)
      × (sent.sender.file_number ≡ r.0)
      × (sent.sender.file ≡ some file)
      × (sent.sender.info.length ≡ len)
      × (sent.sender.info.file ≡ some name)
      × (sent.sender.friend_number ≡ f.friend_number)
      × elim f.info.blake2b [
        | some p ↦ (sent.heap ≡ heap) × (sent.sender.info.blake2b ≡ some p)
        | none ↦
            (sent.heap ≡ malloc heap (tox.file_get_file_id r.1 f.friend_number r.0))
            × (sent.sender.info.blake2b ≡ some (next_block heap))
      ]

  -- A sender whose file cannot be opened stays as it is, and toxcore hears nothing; any other is
  -- offered.
  abbrev pub Offered : (List ℕ → Option (List ℕ)) → FileSender → Heap → State → Sent tox → Type 0
  Offered fopen f heap t sent =
      (CannotOpen fopen f × (sent.sender ≡ f) × (sent.heap ≡ heap) × (sent.tox ≡ t))
      ⊎ ((file : OpenFile) × (name : List ℕ) × (hash : Option (List ℕ)) × Opens fopen f file
          × (f.info.file ≡ some name)
          × (hash_bytes f.info.blake2b heap ≡ some hash)
          × IsOffer f file name hash heap t sent)

  keep_file_id_asks :
      (f : FileSender) (heap : Heap) (t : State)
      → f.info.blake2b ≡ none
      → keep_file_id tox f heap t ≡ record {
        number = f.file_number;
        sender = record f { info = record (f.info) { blake2b = some (next_block heap) } };
        heap = malloc heap (tox.file_get_file_id t f.friend_number f.file_number);
        tox = t;
      }
  unfolding keep_file_id
  keep_file_id_asks f heap t e = rw e refl

  keep_file_id_keeps :
      (f : FileSender) (heap : Heap) (t : State) (p : ℕ)
      → f.info.blake2b ≡ some p
      → keep_file_id tox f heap t
        ≡ record { number = f.file_number; sender = f; heap = heap; tox = t }
  unfolding keep_file_id
  keep_file_id_keeps f heap t p e = rw e refl

  keep_file_id-IsOffer :
      (f : FileSender) (file : OpenFile) (name : List ℕ) (hash : Option (List ℕ)) (heap : Heap)
      (t : State)
      → f.info.file ≡ some name
      → (let g = measured f file in
          let r = tox.file_send t g.friend_number g.kind g.info.length hash name in
          IsOffer f file name hash heap t
            (keep_file_id tox (record g { file_number = r.0 }) heap r.1))
  unfolding measured
  keep_file_id-IsOffer f file name hash heap t named =
      let g = measured f file in
      let r = tox.file_send t g.friend_number g.kind g.info.length hash name in
      let numbered = record g { file_number = r.0 } in
      elim (Option-cases f.info.blake2b) [
        | inl e ↦
            subst (IsOffer f file name hash heap t) (sym (keep_file_id_asks numbered heap r.1 e))
              (rw e (refl, refl, refl, refl, named, refl, (refl, refl)))
        | inr (p, e) ↦
            subst (IsOffer f file name hash heap t) (sym (keep_file_id_keeps numbered heap r.1 p e))
              (rw e (refl, refl, refl, refl, named, refl, (refl, e)))
      ]

  pub add_filesender_ready :
      (fopen : List ℕ → Option (List ℕ)) (f : FileSender) (heap : Heap) (t : State)
      → IsReady heap f
      → (sent : Sent tox) × (add_filesender tox fopen f heap t ≡ some sent)
        × (sent.sender.pathname ≡ f.pathname)
        × Grows heap sent.heap
        × Offered fopen f heap t sent
  unfolding add_filesender
  add_filesender_ready fopen f heap t ((name, named), (hash, hashed)) =
      elim (Option-cases (open_sender fopen f)) [
        | inl e ↦ (
          record { number = u32_max; sender = f; heap = heap; tox = t },
          rw (e, add_filesender) refl,
          refl,
          inl refl,
          inl (open_sender-CannotOpen fopen f e, refl, refl, refl),
        )
        | inr (file, e) ↦
            let g = measured f file in
            let r = tox.file_send t g.friend_number g.kind g.info.length hash name in
            let sender = record g { file_number = r.0 } in
            (
              keep_file_id tox sender heap r.1,
              rw (e, add_filesender) (offer_ready g heap t name hash named hashed),
              keep_file_id-pathname sender heap r.1,
              keep_file_id-Grows sender heap r.1,
              inr (
                file,
                name,
                hash,
                open_sender-Opens fopen f file e,
                named,
                hashed,
                keep_file_id-IsOffer f file name hash heap t named,
              ),
            )
      ]
