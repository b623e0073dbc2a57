-- ===== src/Tsfiles/Senders.antt =====
-- save_senders and load_senders of src/tsfiles.c: the unfinished transfers, saved and loaded.
use tox_suite.Base.{
  ℕ, ◌≡◌, refl, ◌⊎◌, inl, inr, Bool, true, false, ◌&&◌, Option, none, some, List, [], ◌∷◌, ◌++◌,
  ltb, if◌then◌else◌, Option-cases, length, get_elem?, take, eq_bytes,
}
use tox_suite.Base.Entries.{deref, modify}
use tox_suite.Base.Heap.{Heap}
use tox_suite.Base.Results.{◌>>=◌}
use tox_suite.Base.Texts.{codes, c_string}
use tox_suite.Bencode.{BeNode, BeItems, no_item, item, BeFields, no_field, field, Bencode}
use tox_suite.Sodium.{Sodium}
use tox_suite.Friend.{
  FriendInfo, tox_public_key_size, friend_info_by_friend_number, friend_info_by_public_keybin,
}
use tox_suite.Transfer.{FileSender, file_sender_alloc, file_sender_destroy}
use tox_suite.Transfer.Receive.{Disk, store}
use tox_suite.Tsfiles.{
  decode_filenode, encode_filenode, string_of, fields_of, items_of, be_node_loadfile, encoded,
}

abbrev pub toxid_key : List ℕ
toxid_key = codes "toxid"

abbrev pub path_key : List ℕ
path_key = codes "path"

abbrev pub info_key : List ℕ
info_key = codes "info"

abbrev pub senders_file : List ℕ
senders_file = codes "savesender.dat"

module _ (b : Bencode) where
  unfoldable pub sender_dict : FriendInfo → List ℕ → FileSender → Heap → Option BeNode
  sender_dict fr path f heap = do
    info ← encode_filenode b b.create_dict f.info heap
    let toxid = b.create_str_wlen (take tox_public_key_size fr.tox_id_bin)
    let filesend = b.add_keypair b.create_dict toxid_key toxid
    let filesend' = b.add_keypair filesend path_key (b.create_str_wlen path)
    some (b.add_keypair filesend' info_key info)

  -- The loop of save_senders, which ends at a sender without a path and at one of no known friend.
  unfoldable pub collect_senders : BeNode → List FriendInfo → List FileSender → Heap → Option BeNode
  unfolding sender_dict
  collect_senders root friends_info [] heap = some root
  collect_senders root friends_info (f ∷ queue) heap = elim f.pathname [
    | none ↦ some root
    | some path ↦
        elim (deref friends_info (friend_info_by_friend_number friends_info f.friend_number)) [
          | none ↦ some root
          | some fr ↦ sender_dict fr path f heap >>= λ filesend.
              collect_senders (b.add_list root filesend) friends_info queue heap
        ]
  ]

  -- Whether it returns 0, and the disk. A tree without entries removes the file.
  unfoldable pub save_senders :
      (List ℕ → Bool) → Disk → List FriendInfo → List FileSender → Heap → Option (Bool × Disk)
  unfolding collect_senders
  save_senders writable disk friends_info queue heap = do
    root ← collect_senders b.create_list friends_info queue heap
    some (
        if ltb 2 (length (encoded b root))
        then (if writable senders_file
            then (true, store disk senders_file (encoded b root))
            else (false, disk))
        else (true, λ name. if eq_bytes name senders_file then none else disk name))

-- The comparison with a key reads 32 bytes of the string and its terminator, once there is a friend.
abbrev pub key_of : List FriendInfo → List ℕ → Option (List ℕ)
key_of friends_info s =
    if ltb (length (s ++ 0 ∷ [])) tox_public_key_size && ltb 0 (length friends_info)
    then none
    else some (s ++ 0 ∷ [])

-- A loading sender stands at the head of the queue; the flag says whether the loop goes on.
abbrev pub Loading : Type 0
Loading = record { go_on : Bool; queue : List FileSender; heap : Heap }

module _ (sodium : Sodium) (friends_info : List FriendInfo) where
  unfoldable pub load_toxid : List FileSender → Heap → List ℕ → Option Loading
  load_toxid queue heap key =
      elim (deref friends_info (friend_info_by_public_keybin sodium friends_info key)) [
        | none ↦ do
          (queue', heap') ← file_sender_destroy (some 0) queue heap
          some (record { go_on = false; queue = queue'; heap = heap' })
        | some fr ↦ some (record {
          go_on = true;
          queue = modify 0 (λ f. record f { friend_number = fr.friend_number }) queue;
          heap = heap;
        })
      ]

  -- The body of the inner loop of load_senders, for one key.
  unfoldable pub load_key : List FileSender → Heap → List ℕ → BeNode → Option Loading
  unfolding load_toxid
  load_key queue heap key value =
      if eq_bytes toxid_key (c_string key)
      then (do
        s ← string_of value
        public_key ← key_of friends_info s
        load_toxid queue heap public_key)
      else if eq_bytes path_key (c_string key)
      then (do
        s ← string_of value
        some (record {
          go_on = true;
          queue = modify 0 (λ f. record f { pathname = some (c_string s) }) queue;
          heap = heap;
        }))
      else if eq_bytes info_key (c_string key)
      then (do
        fields ← fields_of value
        f ← get_elem? queue 0
        (node, heap') ← decode_filenode f.info heap fields
        some (record {
          go_on = true;
          queue = modify 0 (λ f. record f { info = node }) queue;
          heap = heap';
        }))
      else some (record { go_on = true; queue = queue; heap = heap })

  unfoldable pub load_keys : List FileSender → Heap → BeFields → Option (List FileSender × Heap)
  unfolding load_key
  load_keys queue heap no_field = some (queue, heap)
  load_keys queue heap (field key value fields) = elim (load_key queue heap key value) [
    | none ↦ none
    | some r ↦ elim r.go_on [
      | true ↦ load_keys r.queue r.heap fields
      | false ↦ some (r.queue, r.heap)
    ]
  ]

  -- The outer loop of load_senders, which ends at an entry that is no dictionary.
  unfoldable pub load_items : List FileSender → Heap → BeItems → Option (List FileSender × Heap)
  unfolding load_keys
  load_items queue heap no_item = some (queue, heap)
  load_items queue heap (item filesend items) = elim (fields_of filesend) [
    | none ↦ some (queue, heap)
    | some fields ↦ load_keys (file_sender_alloc queue) heap fields >>= λ (queue', heap').
        load_items queue' heap' items
  ]

  module _ (b : Bencode) where
    -- Whether it returns 0, the queue and the heap.
    unfoldable pub load_senders :
        (List ℕ → Option (List ℕ)) → List FileSender → Heap → Option (Bool × List FileSender × Heap)
    unfolding load_items
    load_senders fopen queue heap = elim (be_node_loadfile b fopen senders_file) [
      | none ↦ some (false, queue, heap)
      | some root ↦ do
        items ← items_of root
        (queue', heap') ← load_items queue heap items
        some (true, queue', heap')
    ]

-- A sender without a path, or of a friend that is not in the list.
abbrev pub EndsSaving : List FriendInfo → FileSender → Type 0
EndsSaving friends_info f =
    (f.pathname ≡ none)
    ⊎ (deref friends_info (friend_info_by_friend_number friends_info f.friend_number) ≡ none)

module _ (b : Bencode) (friends_info : List FriendInfo) where
  collect_senders-ends :
      (root : BeNode) (first rest : List FileSender) (f : FileSender) (heap : Heap)
      → EndsSaving friends_info f
      → collect_senders b root friends_info (first ++ (f ∷ rest)) heap
        ≡ collect_senders b root friends_info first heap
  unfolding collect_senders
  collect_senders-ends root [] rest f heap (inl e) = rw e refl
  collect_senders-ends root [] rest f heap (inr e) = elim (Option-cases f.pathname) [
    | inl p ↦ rw p refl
    | inr (path, p) ↦ rw (p, e) refl
  ]
  collect_senders-ends root (g ∷ first) rest f heap h = λ i. elim g.pathname [
    | none ↦ some root
    | some path ↦
        elim (deref friends_info (friend_info_by_friend_number friends_info g.friend_number)) [
          | none ↦ some root
          | some fr ↦ sender_dict b fr path g heap >>= λ filesend.
              collect_senders-ends (b.add_list root filesend) first rest f heap h i
        ]
  ]

  -- Whatever follows a sender without a path, or of an unknown friend, is not saved: the result and the
  -- disk are those of a queue that ends before it, even where the senders after it could be saved.
  pub save_senders-ends :
      (writable : List ℕ → Bool) (disk : Disk) (first rest : List FileSender) (f : FileSender)
      (heap : Heap)
      → EndsSaving friends_info f
      → save_senders b writable disk friends_info (first ++ (f ∷ rest)) heap
        ≡ save_senders b writable disk friends_info first heap
  unfolding save_senders
  save_senders-ends writable disk first rest f heap h =
      rw (collect_senders-ends b.create_list first rest f heap h) refl
