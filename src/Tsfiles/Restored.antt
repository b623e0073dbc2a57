-- ===== src/Tsfiles/Restored.antt =====
-- load_senders of src/tsfiles.c on the file that save_senders writes.
use tox_suite.Base.{
  ℕ, ◌≡◌, refl, ap, ◌∙◌, Bool, true, false, some, List, [], ◌∷◌, ◌++◌, arith, ltb, lt→ltb, length,
  take, All, length-append,
}
use tox_suite.Base.Heap.{Heap, malloc}
use tox_suite.Base.Texts.{c_string_lem}
use tox_suite.Bencode.{be_list, be_dict, BeItems, no_item, append_item, Bencode, IsBencode, wire}
use tox_suite.Sodium.{Sodium}
use tox_suite.Friend.{FriendInfo, tox_public_key_size}
use tox_suite.Transfer.{FileSender, zero_sender, zero_node, file_sender_alloc}
use tox_suite.Transfer.Receive.{store_self, Disk, store}
use tox_suite.Tsfiles.Length.{HasTextKeys, be_node_len-wire, be_node_loadfile-wire, wire-long}
use tox_suite.Tsfiles.Nodes.{encode_filenode_lem, decode_filenode_lem}
use tox_suite.Tsfiles.Shrlist.{cat_items, cat-append_item, cat-no_item}
use tox_suite.Tsfiles.Senders.{
  senders_file, sender_dict, collect_senders, save_senders, load_keys, load_items, load_senders,
}
use tox_suite.Tsfiles.Kept.{
  Kept, IsSender, Keyed, Known, Queued, loaded_onto, kept_fields, kept_items, kept-AllTextKeys,
  Queued-malloc, IsKept, AllKnown, Queued-IsKept, read_sender, read_sender-IsSender,
}

module _ (sodium : Sodium) (friends_info : List FriendInfo) where
  load_keys_lem :
      (queue : List FileSender) (heap : Heap) (v : Kept) (number : ℕ)
      → IsKept v
      → Known sodium friends_info v.key number
      → load_keys sodium friends_info (zero_sender ∷ queue) heap (kept_fields v)
        ≡ some (read_sender heap v number ∷ queue, malloc heap v.hash)
  unfolding load_keys
  load_keys_lem queue heap v number k (fr, known, e) =
      rw
        (
          key-long,
          known,
          e,
          c_string_lem v.path k.path_text,
          decode_filenode_lem zero_node heap v.name v.len v.hash k.name_text k.hash_size
              k.length_fits,
          load_keys,
        )
        refl
    where
      key-long : ltb (length (v.key ++ 0 ∷ [])) tox_public_key_size ≡ false
      key-long = ground (arith, length-append v.key (0 ∷ []), k.key_size)

  load_items_lem :
      (queue : List FileSender) (old vs : List Kept) (heap : Heap)
      → Queued (Known sodium friends_info) heap queue old
      → All IsKept vs
      → AllKnown sodium friends_info vs
      → (r : List FileSender × Heap) × (load_items sodium friends_info queue heap (kept_items vs)
          ≡ some r)
        × Queued (Known sodium friends_info) r.1 r.0 (loaded_onto vs old)
  unfolding load_items file_sender_alloc
  load_items_lem queue old [] heap h ks known = ((queue, heap), refl, h)
  load_items_lem queue old (v ∷ vs) heap h (k, ks) ((number, known), rest) =
      let (r, loaded, queued) =
        load_items_lem (read_sender heap v number ∷ queue) (v ∷ old) vs (malloc heap v.hash)
          (
            read_sender-IsSender heap v number k,
            known,
            Queued-malloc (Known sodium friends_info) heap v.hash queue old h,
          )
          ks rest in
      (r, rw (load_keys_lem queue heap v number k known) loaded, queued)

module _ (b : Bencode) (l : IsBencode b) (friends_info : List FriendInfo) where
  sender_dict_lem :
      (f : FileSender) (v : Kept) (fr : FriendInfo) (heap : Heap)
      → IsSender heap f v f.friend_number
      → take tox_public_key_size fr.tox_id_bin ≡ v.key
      → sender_dict b fr v.path f heap ≡ some (be_dict (kept_fields v))
  unfolding sender_dict
  sender_dict_lem f v fr heap s e =
      rw (encode_filenode_lem b l f.info heap v.name v.hash s.node)
        (simp (s.len_set, e, l.creates_dict, l.creates_str, l.adds_field))

  collect_senders_lem :
      (acc : BeItems) (queue : List FileSender) (vs : List Kept) (heap : Heap)
      → Queued (Keyed friends_info) heap queue vs
      → collect_senders b (be_list acc) friends_info queue heap
        ≡ some (be_list (cat_items acc (kept_items vs)))
  unfolding collect_senders
  collect_senders_lem acc [] [] heap h = rw (cat-no_item acc)
  collect_senders_lem acc [] (v ∷ vs) heap h = absurd h
  collect_senders_lem acc (f ∷ fs) [] heap h = absurd h
  collect_senders_lem acc (f ∷ fs) (v ∷ vs) heap (s, (fr, found, e), h) =
      rw (s.path_set, found, sender_dict_lem f v fr heap s e, l.adds_item)
        (collect_senders_lem (append_item acc (be_dict (kept_fields v))) fs vs heap h
          ∙ ap (λ items. some (be_list items))
              (cat-append_item acc (kept_items vs) (be_dict (kept_fields v))))

  save_senders_lem :
      (writable : List ℕ → Bool) (disk : Disk) (queue : List FileSender) (v : Kept) (vs : List Kept)
      (heap : Heap)
      → Queued (Keyed friends_info) heap queue (v ∷ vs)
      → writable senders_file ≡ true
      → save_senders b writable disk friends_info queue heap
        ≡ some (true, store disk senders_file (wire (be_list (kept_items (v ∷ vs)))))
  unfolding save_senders HasTextKeys
  save_senders_lem writable disk queue v vs heap h w =
      let root = be_list (kept_items (v ∷ vs)) in
      rw
        (
          ap (λ root. collect_senders b root friends_info queue heap) l.creates_list,
          collect_senders_lem no_item queue (v ∷ vs) heap h,
          (be_node_len-wire b l root (kept-AllTextKeys (v ∷ vs))).1,
          w,
          lt→ltb 2 (length (wire root)) (wire-long (kept_fields v) (kept_items vs)),
        )
        refl

  -- The unfinished transfers come back after a restart: where the queue holds at least one sender, each
  -- with a path, a named and hashed file of a length below 2^64 and a known friend with a key of 32
  -- bytes, savesender.dat can be opened, and the later list of friends knows each of these keys,
  -- save_senders and load_senders both return 0, and load_senders puts before the later queue one sender
  -- for each that was saved, in the opposite order, with its path, name, length and hash and with the
  -- number that its friend has now.
  pub load_senders-save_senders :
      (writable : List ℕ → Bool) (disk : Disk) (queue : List FileSender) (v : Kept) (vs : List Kept)
      (heap : Heap)
      → Queued (Keyed friends_info) heap queue (v ∷ vs)
      → writable senders_file ≡ true
      → (sodium : Sodium) (friends_now : List FriendInfo) → AllKnown sodium friends_now (v ∷ vs)
      → (later : Heap) (queue_now : List FileSender) (old : List Kept)
      → Queued (Known sodium friends_now) later queue_now old
      → (disk' : Disk) × (r : List FileSender × Heap) × (save_senders b writable disk friends_info
            queue heap
          ≡ some (true, disk'))
        × (load_senders sodium friends_now b disk' queue_now later ≡ some (true, r.0, r.1))
        × Queued (Known sodium friends_now) r.1 r.0 (loaded_onto (v ∷ vs) old)
  unfolding load_senders
  load_senders-save_senders writable disk queue v vs heap h w sodium friends_now known later
        queue_now old k =
      let root = be_list (kept_items (v ∷ vs)) in
      let disk' = store disk senders_file (wire root) in
      let long = wire-long (kept_fields v) (kept_items vs) in
      let back =
        be_node_loadfile-wire b l disk' senders_file root (store_self disk senders_file (wire root))
          (omega (arith, long)) in
      let (r, loaded, queued) =
        load_items_lem sodium friends_now queue_now old (v ∷ vs) later k
          (Queued-IsKept (Keyed friends_info) heap queue (v ∷ vs) h) known in
      (
        disk',
        r,
        save_senders_lem writable disk queue v vs heap h w,
        rw (back, load_senders) (rw loaded refl),
        queued,
      )
