-- ===== src/Transfer/Queue.antt =====
-- Destroying the whole queue of senders.
use tox_suite.Base.{
  ℕ, ◌≡◌, refl, ◌∙◌, ◌⊎◌, inl, inr, Option, none, some, List, [], ◌∷◌, arith, Option-cases,
}
use native.Mathlib.Decide.{ℕ_discrete}
use tox_suite.Base.Heap.{
  Heap, load, release, release_dangling, load-release_self, load-release_ne, release_live,
}
use tox_suite.Transfer.{FileSender, free_hash, file_queue_destroy}

abbrev pub hash_of : FileSender → Option ℕ
hash_of f = f.info.blake2b

-- Some sender holds the block p; two senders do.
abbrev pub Holds : ℕ → List FileSender → Type 0
Holds p [] = ⊥
Holds p (f ∷ fs) = (hash_of f ≡ some p) ⊎ Holds p fs

abbrev pub HoldTwice : ℕ → List FileSender → Type 0
HoldTwice p [] = ⊥
HoldTwice p (f ∷ fs) = ((hash_of f ≡ some p) × Holds p fs) ⊎ HoldTwice p fs

gone_release :
    (heap heap' : Heap) (p q : ℕ)
    → load heap p ≡ none
    → release heap q ≡ some heap'
    → load heap' p ≡ none
gone_release heap heap' p q gone r = elim (ℕ_discrete q p) [
  | yes e ↦ rw (← e) (load-release_self heap heap' q r)
  | no n ↦ load-release_ne heap heap' q p n r ∙ gone
]

gone_free_hash :
    (heap heap' : Heap) (p : ℕ) (h : Option ℕ)
    → load heap p ≡ none
    → free_hash h heap ≡ some heap'
    → load heap' p ≡ none
unfolding free_hash
gone_free_hash heap heap' p none gone r = ground (arith, gone)
gone_free_hash heap heap' p (some q) gone r = gone_release heap heap' p q gone r

free_hash_gone :
    (heap heap' : Heap) (p : ℕ) (h : Option ℕ)
    → h ≡ some p
    → free_hash h heap ≡ some heap'
    → load heap' p ≡ none
unfolding free_hash
free_hash_gone heap heap' p none e r = cc
free_hash_gone heap heap' p (some q) e r = load-release_self heap heap' p (ground arith)

destroy_gone :
    (fs : List FileSender) (heap : Heap) (p : ℕ)
    → load heap p ≡ none
    → Holds p fs
    → file_queue_destroy fs heap ≡ none
unfolding file_queue_destroy free_hash
destroy_gone [] heap p gone h = absurd h
destroy_gone (f ∷ fs) heap p gone (inl here) =
    rw (here, file_queue_destroy, release_dangling heap p gone, free_hash)
destroy_gone (f ∷ fs) heap p gone (inr later) = elim (Option-cases (free_hash (hash_of f) heap)) [
  | inl e ↦ rw (e, file_queue_destroy)
  | inr (heap', e) ↦
      rw (e, file_queue_destroy)
        (destroy_gone fs heap' p (gone_free_hash heap heap' p (hash_of f) gone e) later)
]

-- If two senders hold one hash block, as two transfers of one shared file do, FileQueue_destroy
-- frees it twice.
pub file_queue_destroy_shared :
    (fs : List FileSender) (heap : Heap) (p : ℕ)
    → HoldTwice p fs
    → file_queue_destroy fs heap ≡ none
unfolding file_queue_destroy free_hash
file_queue_destroy_shared [] heap p h = absurd h
file_queue_destroy_shared (f ∷ fs) heap p (inl (here, again)) =
    elim (Option-cases (free_hash (hash_of f) heap)) [
      | inl e ↦ rw (e, file_queue_destroy)
      | inr (heap', e) ↦
          rw (e, file_queue_destroy)
            (destroy_gone fs heap' p (free_hash_gone heap heap' p (hash_of f) here e) again)
    ]
file_queue_destroy_shared (f ∷ fs) heap p (inr later) =
    elim (Option-cases (free_hash (hash_of f) heap)) [
      | inl e ↦ rw (e, file_queue_destroy)
      | inr (heap', e) ↦ rw (e, file_queue_destroy) (file_queue_destroy_shared fs heap' p later)
    ]

-- Every sender has no hash, or a live one of its own.
abbrev pub OwnHashes : Heap → List FileSender → Type 0
OwnHashes heap [] = Unit
OwnHashes heap (f ∷ fs) =
    ((hash_of f ≡ none)
      ⊎ ((p : ℕ) × (bytes : List ℕ) × (hash_of f ≡ some p)
          × (load heap p ≡ some bytes)
          × ¬ Holds p fs))
    × OwnHashes heap fs

OwnHashes-release :
    (fs : List FileSender) (heap heap' : Heap) (p : ℕ)
    → ¬ Holds p fs
    → release heap p ≡ some heap'
    → OwnHashes heap fs
    → OwnHashes heap' fs
OwnHashes-release [] heap heap' p free r o = tt
OwnHashes-release (f ∷ fs) heap heap' p free r (inl unhashed, o) =
    (inl unhashed, OwnHashes-release fs heap heap' p (λ h. free (inr h)) r o)
OwnHashes-release (f ∷ fs) heap heap' p free r (inr (q, bytes, has, live, own), o) = (
  inr (q, bytes, has, load-release_ne heap heap' p q (λ e. free (inl (rw e has))) r ∙ live, own),
  OwnHashes-release fs heap heap' p (λ h. free (inr h)) r o,
)

-- If every sender holds a live hash block of its own, or none, FileQueue_destroy ends well.
pub file_queue_destroy_own :
    (fs : List FileSender) (heap : Heap)
    → OwnHashes heap fs
    → (heap' : Heap) × (file_queue_destroy fs heap ≡ some heap')
unfolding file_queue_destroy free_hash
file_queue_destroy_own [] heap o = (heap, refl)
file_queue_destroy_own (f ∷ fs) heap (inl unhashed, o) =
    let (heap', e) = file_queue_destroy_own fs heap o in
    (heap', rw (unhashed, file_queue_destroy, free_hash) e)
file_queue_destroy_own (f ∷ fs) heap (inr (p, bytes, has, live, own), o) =
    let (freed, r) = release_live heap p bytes live in
    let (heap', e) = file_queue_destroy_own fs freed (OwnHashes-release fs heap freed p own r o) in
    (heap', rw (has, file_queue_destroy, free_hash, r) e)
