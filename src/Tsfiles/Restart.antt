-- ===== src/Tsfiles/Restart.antt =====
-- src/tsfiles.c over a restart of the program: save_senders, load_senders and the callback for a
-- friend who comes online.
use tox_suite.Base.{
  ℕ, ◌≡◌, refl, sym, ap, ◌∙◌, Bool, true, Option, none, some, List, [], ◌∷◌, ◌++◌, map, arith, ◌==◌,
  ==_iff, All,
}
use mathlib.Core.List.{append-nil}
use mathlib.Core.Path.{subst}
use mathlib.Core.Option.{some-injective}
use tox_suite.Base.Heap.{Heap}
use tox_suite.Bencode.{Bencode, IsBencode}
use tox_suite.Sodium.{Sodium}
use tox_suite.Tox.{Tox}
use tox_suite.Friend.{FriendInfo}
use tox_suite.Friend.Registry.{entry_of}
use tox_suite.Transfer.{FileSender}
use tox_suite.Transfer.Receive.{Disk}
use tox_suite.Transfer.Send.{IsReady, hash_bytes}
use tox_suite.Tsfiles.{hash_at}
use tox_suite.Tsfiles.Senders.{senders_file, save_senders, load_senders}
use tox_suite.Tsfiles.Kept.{Kept, Keyed, Known, Queued, loaded_onto, AllKnown}
use tox_suite.Tsfiles.Restored.{load_senders-save_senders}
use tox_suite.Tsfiles.Resume.{
  Resumes, IfOnline, Resumed, pathname_of, after_own, own_onto, is_online,
  friend_connection_status_cb, friend_connection_status_cb_lem,
}

hash_bytes-live :
    (p : Option ℕ) (heap : Heap) (hash : List ℕ)
    → hash_at heap p ≡ some hash
    → hash_bytes p heap ≡ some (some hash)
hash_bytes-live none heap hash e = cc
hash_bytes-live (some p) heap hash e = ground (arith, e)

Queued-IsReady :
    (Has : List ℕ → ℕ → Type 0) (heap : Heap) (queue : List FileSender) (vs : List Kept)
    → Queued Has heap queue vs
    → All (IsReady heap) queue
Queued-IsReady Has heap [] [] h = tt
Queued-IsReady Has heap [] (v ∷ vs) h = tt
Queued-IsReady Has heap (f ∷ fs) [] h = absurd h
Queued-IsReady Has heap (f ∷ fs) (v ∷ vs) (s, has, h) = (
  ((v.name, s.node.named), (some v.hash, hash_bytes-live f.info.blake2b heap v.hash s.node.hashed)),
  Queued-IsReady Has heap fs vs h,
)

-- The paths of these transfers, moved one by one to the head.
abbrev paths_onto : List Kept → List (Option (List ℕ)) → List (Option (List ℕ))
paths_onto [] paths = paths
paths_onto (v ∷ vs) paths = paths_onto vs (some v.path ∷ paths)

-- Twice turned round, they are in their order again.
paths_onto-loaded_onto :
    (vs old : List Kept) (paths : List (Option (List ℕ)))
    → paths_onto (loaded_onto vs old) paths ≡ paths_onto old (map (λ v. some v.path) vs ++ paths)
paths_onto-loaded_onto [] old paths = refl
paths_onto-loaded_onto (v ∷ vs) old paths = paths_onto-loaded_onto vs (v ∷ old) paths

All-loaded_onto :
    (P : Kept → Type 0) (vs old : List Kept) → All P vs → All P old → All P (loaded_onto vs old)
All-loaded_onto P [] old h k = k
All-loaded_onto P (v ∷ vs) old (h, hs) k = All-loaded_onto P vs (v ∷ old) hs (h, k)

module _ (sodium : Sodium) (friends_now : List FriendInfo) (n : ℕ) where
  one_number :
      (key : List ℕ) (m : ℕ)
      → Known sodium friends_now key m
      → Known sodium friends_now key n
      → (m == n) ≡ true
  one_number key m (f, e, a) (g, d, b) =
      (==_iff m n).1
        (sym a ∙ ap (λ (x : FriendInfo). x.friend_number) (some-injective f g (sym e ∙ d)) ∙ b)

  all-AllKnown :
      (vs : List Kept)
      → All (λ v. Known sodium friends_now v.key n) vs
      → AllKnown sodium friends_now vs
  all-AllKnown [] h = tt
  all-AllKnown (v ∷ vs) (h, hs) = ((n, h), all-AllKnown vs hs)

  after_own-all :
      (tox : Tox) (fopen : List ℕ → Option (List ℕ)) (heap : Heap) (queue : List FileSender)
      (vs : List Kept)
      → Queued (Known sodium friends_now) heap queue vs
      → All (λ v. Known sodium friends_now v.key n) vs
      → after_own tox fopen n queue ≡ []
  after_own-all tox fopen heap [] vs h k = refl
  after_own-all tox fopen heap (f ∷ fs) [] h k = absurd h
  after_own-all tox fopen heap (f ∷ fs) (v ∷ vs) (s, has, h) (k, ks) =
      rw (one_number v.key f.friend_number has k, after_own)
        (after_own-all tox fopen heap fs vs h ks)

  own_onto-all :
      (tox : Tox) (fopen : List ℕ → Option (List ℕ)) (heap : Heap) (queue : List FileSender)
      (vs : List Kept) (paths : List (Option (List ℕ)))
      → Queued (Known sodium friends_now) heap queue vs
      → All (λ v. Known sodium friends_now v.key n) vs
      → own_onto tox fopen n queue paths ≡ paths_onto vs paths
  own_onto-all tox fopen heap [] [] paths h k = refl
  own_onto-all tox fopen heap [] (v ∷ vs) paths h k = absurd h
  own_onto-all tox fopen heap (f ∷ fs) [] paths h k = absurd h
  own_onto-all tox fopen heap (f ∷ fs) (v ∷ vs) paths (s, has, h) (k, ks) =
      rw (one_number v.key f.friend_number has k, own_onto)
        (rw s.path_set (own_onto-all tox fopen heap fs vs (some v.path ∷ paths) h ks))

module _ (b : Bencode) (l : IsBencode b) (sodium : Sodium) (tox : Tox)
    (fopen : List ℕ → Option (List ℕ)) (tcp_code udp_code : ℕ) where
  -- Transfers to a friend go on after a restart: where the queue holds at least one sender, each
  -- with a path, a named and hashed file of a length below 2^64 and a known friend with a key of 32
  -- bytes, savesender.dat can be opened, and after the restart each of these keys is that of friend
  -- n, save_senders and load_senders return 0; and when friend n then comes online by TCP or UDP,
  -- before anything else was queued, no loaded transfer is left and each is queued again, in the
  -- order before the restart. The loaded queue had the path, name, length and hash of each, and one
  -- after another they are offered to toxcore with tox_file_send, unless its file cannot be opened.
  pub senders_resume :
      (writable : List ℕ → Bool) (disk : Disk) (friends_info : List FriendInfo)
      (queue : List FileSender) (v : Kept) (vs : List Kept) (heap : Heap)
      → Queued (Keyed friends_info) heap queue (v ∷ vs)
      → writable senders_file ≡ true
      → (friends_now : List FriendInfo) (n status : ℕ) (f : FriendInfo) (t : tox.State)
      → All (λ v. Known sodium friends_now v.key n) (v ∷ vs)
      → entry_of friends_now n ≡ some f
      → is_online tox fopen tcp_code udp_code status ≡ true
      → (disk' : Disk) × (loaded : List FileSender) × (heap' : Heap) × (friends' : List FriendInfo)
        × (r : Resumed tox fopen) × (save_senders b writable disk friends_info queue heap
            ≡ some (true, disk'))
        × (load_senders sodium friends_now b disk' [] [] ≡ some (true, loaded, heap'))
        × (friend_connection_status_cb tox fopen tcp_code udp_code n status friends_now [] loaded
              heap' t
            ≡ some (friends', r))
        × (map pathname_of r.sending ≡ map (λ v. some v.path) (v ∷ vs))
        × (r.loaded ≡ [])
        × Queued (Known sodium friends_now) heap' loaded (loaded_onto (v ∷ vs) [])
        × Resumes tox fopen n [] loaded heap' t r
  senders_resume writable disk friends_info queue v vs heap h w friends_now n status f t known entry
        online =
      let ws = loaded_onto (v ∷ vs) [] in
      let (disk', r, saved, loaded, queued) =
        load_senders-save_senders b l friends_info writable disk queue v vs heap h w sodium
          friends_now (all-AllKnown sodium friends_now n (v ∷ vs) known) [] [] [] tt in
      let known_loaded =
        All-loaded_onto (λ v. Known sodium friends_now v.key n) (v ∷ vs) [] known tt in
      let (friends', s, returns, others, left, moved, resumes) =
        friend_connection_status_cb_lem tox fopen tcp_code udp_code n status friends_now f [] r.0
          r.1 t entry (Queued-IsReady (Known sodium friends_now) r.1 r.0 ws queued) in
      (
        disk',
        r.0,
        r.1,
        friends',
        s,
        saved,
        loaded,
        returns,
        moved
            ∙ rw online (
                own_onto-all sodium friends_now n tox fopen r.1 r.0 ws [] queued known_loaded
                ∙ paths_onto-loaded_onto (v ∷ vs) [] []
                ∙ append-nil (map (λ v. some v.path) (v ∷ vs))),
        left
            ∙ rw online
                (after_own-all sodium friends_now n tox fopen r.1 r.0 ws queued known_loaded),
        queued,
        subst (λ on. IfOnline tox fopen on n [] r.0 r.1 t s) online resumes,
      )
