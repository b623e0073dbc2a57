-- ===== src/Tsfiles/Shrlist.antt =====
-- load_shrlist and dump_shrlist of src/tsfiles.c: the list of shared files, saved and loaded.
use tox_suite.Base.{
  ℕ, ◌<◌, ◌≡◌, refl, ap, ◌∙◌, Bool, true, false, Option, none, some, List, [], ◌∷◌, ◌++◌, arith,
  ltb, if◌then◌else◌, lt→ltb, length, All,
}
use mathlib.Core.Option
use mathlib.Core.List.{append-nil, append_assoc}
use tox_suite.Base.Heap.{Heap, malloc}
use tox_suite.Base.Results.{◌>>=◌}
use tox_suite.Base.Texts.{IsText}
use tox_suite.Base.Words.{u64_mod}
use tox_suite.Bencode.{
  BeNode, be_list, be_dict, BeItems, no_item, item, append_item, Bencode, IsBencode, wire,
}
use tox_suite.Transfer.{FileNode, tox_file_id_length}
use tox_suite.Transfer.Receive.{store_self, Disk, store}
use tox_suite.Tsfiles.{
  decode_filenode, encode_filenode, fields_of, items_of, be_node_loadfile, encoded,
}
use tox_suite.Tsfiles.Length.{
  HasTextKeys, AllTextKeys, be_node_len-wire, be_node_loadfile-wire, wire-long,
}
use tox_suite.Tsfiles.Nodes.{
  IsComplete, IsComplete-malloc, node_fields, read_node, read_node-IsComplete, encode_filenode_lem,
  decode_filenode_lem, node_fields-HasTextKeys,
}

-- The loop of load_shrlist; `fresh` is what malloc returned.
unfoldable pub load_nodes :
    FileNode → List FileNode → Heap → BeItems → Option (List FileNode × Heap)
load_nodes fresh shr_list heap no_item = some (shr_list, heap)
load_nodes fresh shr_list heap (item info items) = do
  fields ← fields_of info
  (f, heap') ← decode_filenode fresh heap fields
  load_nodes fresh (shr_list ++ (f ∷ [])) heap' items

-- What load_shrlist has at its return: whether it succeeded, its local array, and the heap.
pub record Loaded : Type 0 where
  pub ok : Bool
  pub shr_list : List FileNode
  pub heap : Heap

module _ (b : Bencode) where
  -- load_shrlist up to its return.
  unfoldable pub read_shrlist :
      (List ℕ → Option (List ℕ)) → FileNode → List ℕ → List FileNode → Heap → Option Loaded
  unfolding load_nodes
  read_shrlist fopen fresh filename shr_list heap = elim (be_node_loadfile b fopen filename) [
    | none ↦ some (record { ok = false; shr_list = shr_list; heap = heap })
    | some root ↦ do
      items ← items_of root
      (loaded, heap') ← load_nodes fresh shr_list heap items
      some (record { ok = true; shr_list = loaded; heap = heap' })
  ]

  -- The array is local: only the result and the heap are left of it.
  unfoldable pub load_shrlist :
      (List ℕ → Option (List ℕ)) → FileNode → List ℕ → List FileNode → Heap → Option (Bool × Heap)
  unfolding read_shrlist
  load_shrlist fopen fresh filename shr_list heap =
      Option.map (λ r. (r.ok, r.heap)) (read_shrlist fopen fresh filename shr_list heap)

  unfoldable pub dump_onto : BeNode → List FileNode → Heap → Option BeNode
  dump_onto root [] heap = some root
  dump_onto root (fn ∷ shrlist) heap = do
    info ← encode_filenode b b.create_dict fn heap
    dump_onto (b.add_list root info) shrlist heap

  -- A tree without entries is not written.
  unfoldable pub dump_shrlist : (List ℕ → Bool) → Disk → List ℕ → List FileNode → Heap → Option Disk
  unfolding dump_onto
  dump_shrlist writable disk filename shrlist heap = do
    root ← dump_onto b.create_list shrlist heap
    some (
        if ltb 2 (length (encoded b root))
        then (if writable filename then store disk filename (encoded b root) else disk)
        else disk)

-- The name, the length and the hash of a file.
pub record Saved : Type 0 where
  pub name : List ℕ
  pub len : ℕ
  pub hash : List ℕ

-- The nodes hold these files, one each.
abbrev pub Holds : Heap → List FileNode → List Saved → Type 0
Holds heap [] [] = Unit
Holds heap [] (v ∷ vs) = ⊥
Holds heap (fn ∷ nodes) [] = ⊥
Holds heap (fn ∷ nodes) (v ∷ vs) =
    IsComplete heap fn v.name v.hash × (fn.length ≡ v.len) × Holds heap nodes vs

abbrev pub saved_items : List Saved → BeItems
saved_items [] = no_item
saved_items (v ∷ vs) = item (be_dict (node_fields v.name v.len v.hash)) (saved_items vs)

abbrev pub cat_items : BeItems → BeItems → BeItems
cat_items no_item l = l
cat_items (item n items) l = item n (cat_items items l)

pub cat-append_item :
    (items l : BeItems) (n : BeNode)
    → cat_items (append_item items n) l ≡ cat_items items (item n l)
cat-append_item no_item l n = refl
cat-append_item (item m items) l n = ap (item m) (cat-append_item items l n)

pub cat-no_item : (items : BeItems) → cat_items items no_item ≡ items
cat-no_item no_item = refl
cat-no_item (item n items) = ap (item n) (cat-no_item items)

saved-AllTextKeys : (vs : List Saved) → AllTextKeys (saved_items vs)
unfolding HasTextKeys
saved-AllTextKeys [] = tt
saved-AllTextKeys (v ∷ vs) = (node_fields-HasTextKeys v.name v.len v.hash, saved-AllTextKeys vs)

-- A block more does not matter to what the nodes hold.
Holds-malloc :
    (heap : Heap) (bytes : List ℕ) (nodes : List FileNode) (vs : List Saved)
    → Holds heap nodes vs
    → Holds (malloc heap bytes) nodes vs
Holds-malloc heap bytes [] [] h = tt
Holds-malloc heap bytes [] (v ∷ vs) h = h
Holds-malloc heap bytes (fn ∷ nodes) [] h = h
Holds-malloc heap bytes (fn ∷ nodes) (v ∷ vs) (c, e, h) =
    (IsComplete-malloc heap bytes fn v.name v.hash c, e, Holds-malloc heap bytes nodes vs h)

Holds-append :
    (heap : Heap) (nodes more : List FileNode) (vs ws : List Saved)
    → Holds heap nodes vs
    → Holds heap more ws
    → Holds heap (nodes ++ more) (vs ++ ws)
Holds-append heap [] more [] ws h k = k
Holds-append heap [] more (v ∷ vs) ws h k = absurd h
Holds-append heap (fn ∷ nodes) more [] ws h k = absurd h
Holds-append heap (fn ∷ nodes) more (v ∷ vs) ws (c, e, h) k =
    (c, e, Holds-append heap nodes more vs ws h k)

Holds-All :
    (heap : Heap) (nodes : List FileNode) (vs : List Saved)
    → Holds heap nodes vs
    → All (λ v. IsText v.name × (length v.hash ≡ tox_file_id_length) × (v.len < u64_mod)) vs
Holds-All heap [] [] h = tt
Holds-All heap [] (v ∷ vs) h = absurd h
Holds-All heap (fn ∷ nodes) [] h = absurd h
Holds-All heap (fn ∷ nodes) (v ∷ vs) (c, e, h) =
    ((c.name_text, c.hash_size, omega (arith, c.length_fits, e)), Holds-All heap nodes vs h)

-- The files of a tree, read after others.
load_nodes-Holds :
    (fresh : FileNode) (done : List FileNode) (vdone vs : List Saved) (heap : Heap)
    → Holds heap done vdone
    → All (λ v. IsText v.name × (length v.hash ≡ tox_file_id_length) × (v.len < u64_mod)) vs
    → (r : List FileNode × Heap) × (load_nodes fresh done heap (saved_items vs) ≡ some r)
      × Holds r.1 r.0 (vdone ++ vs)
unfolding load_nodes
load_nodes-Holds fresh done vdone [] heap h t = rw (append-nil vdone) (((done, heap), refl, h))
load_nodes-Holds fresh done vdone (v ∷ vs) heap h ((text, size, fits), t) =
    let (r, loaded, holds) =
      load_nodes-Holds fresh (done ++ read_node fresh heap v.name v.len ∷ []) (vdone ++ v ∷ []) vs
        (malloc heap v.hash)
        (Holds-append (malloc heap v.hash) done (read_node fresh heap v.name v.len ∷ []) vdone
          (v ∷ []) (Holds-malloc heap v.hash done vdone h)
          (read_node-IsComplete fresh heap v.name v.len v.hash text size fits, refl, tt))
        t in
    (
      r,
      rw (decode_filenode_lem fresh heap v.name v.len v.hash text size fits) loaded,
      rw (← append_assoc vdone (v ∷ []) vs) holds,
    )

module _ (b : Bencode) (l : IsBencode b) where
  dump_onto_lem :
      (acc : BeItems) (nodes : List FileNode) (vs : List Saved) (heap : Heap)
      → Holds heap nodes vs
      → dump_onto b (be_list acc) nodes heap ≡ some (be_list (cat_items acc (saved_items vs)))
  unfolding dump_onto
  dump_onto_lem acc [] [] heap h = rw (cat-no_item acc)
  dump_onto_lem acc [] (v ∷ vs) heap h = absurd h
  dump_onto_lem acc (fn ∷ nodes) [] heap h = absurd h
  dump_onto_lem acc (fn ∷ nodes) (v ∷ vs) heap (c, e, h) =
      rw (encode_filenode_lem b l fn heap v.name v.hash c, e, l.adds_item)
        (dump_onto_lem (append_item acc (be_dict (node_fields v.name v.len v.hash))) nodes vs heap h
          ∙ ap (λ items. some (be_list items))
              (cat-append_item acc (saved_items vs) (be_dict (node_fields v.name v.len v.hash))))

  encoded-saved :
      (vs : List Saved) → encoded b (be_list (saved_items vs)) ≡ wire (be_list (saved_items vs))
  unfolding HasTextKeys
  encoded-saved vs = (be_node_len-wire b l (be_list (saved_items vs)) (saved-AllTextKeys vs)).1

  dump_shrlist_lem :
      (writable : List ℕ → Bool) (disk : Disk) (filename : List ℕ) (nodes : List FileNode)
      (v : Saved) (vs : List Saved) (heap : Heap)
      → Holds heap nodes (v ∷ vs)
      → writable filename ≡ true
      → dump_shrlist b writable disk filename nodes heap
        ≡ some (store disk filename (wire (be_list (saved_items (v ∷ vs)))))
  unfolding dump_shrlist
  dump_shrlist_lem writable disk filename nodes v vs heap h w = rw (
    ap (λ root. dump_onto b root nodes heap) l.creates_list,
    dump_onto_lem no_item nodes (v ∷ vs) heap h,
    encoded-saved (v ∷ vs),
    w,
    lt→ltb 2 (length (wire (be_list (saved_items (v ∷ vs)))))
        (wire-long (node_fields v.name v.len v.hash) (saved_items vs)),
  )

  load_shrlist-read :
      (disk : Disk) (fresh : FileNode) (filename : List ℕ) (shr_list : List FileNode) (heap : Heap)
      (r : Loaded)
      → read_shrlist b disk fresh filename shr_list heap ≡ some r
      → load_shrlist b disk fresh filename shr_list heap ≡ some (r.ok, r.heap)
  unfolding load_shrlist
  load_shrlist-read disk fresh filename shr_list heap r e = rw e refl

  -- What dump_shrlist wrote, load_shrlist reads: where the list holds at least one file, each node
  -- named, hashed and of a length below 2^64, and the file can be opened, load_shrlist then
  -- succeeds, and the local array that it drops at its return holds the names, lengths and hashes
  -- of that list in the same order, behind those of the array that it began with, whose nodes are
  -- named, hashed and of such lengths as well.
  pub load_shrlist-dump_shrlist :
      (writable : List ℕ → Bool) (disk : Disk) (filename : List ℕ) (nodes : List FileNode)
      (v : Saved) (vs : List Saved) (heap : Heap)
      → Holds heap nodes (v ∷ vs)
      → writable filename ≡ true
      → (fresh : FileNode) (shr_list : List FileNode) (old : List Saved) (later : Heap)
      → Holds later shr_list old
      → (disk' : Disk) × (r : Loaded) × (dump_shrlist b writable disk filename nodes heap
          ≡ some disk')
        × (read_shrlist b disk' fresh filename shr_list later ≡ some r)
        × (load_shrlist b disk' fresh filename shr_list later ≡ some (true, r.heap))
        × Holds r.heap r.shr_list (old ++ (v ∷ vs))
  unfolding read_shrlist
  load_shrlist-dump_shrlist writable disk filename nodes v vs heap h w fresh shr_list old later k =
      let root = be_list (saved_items (v ∷ vs)) in
      let disk' = store disk filename (wire root) in
      let long = wire-long (node_fields v.name v.len v.hash) (saved_items vs) in
      let back =
        be_node_loadfile-wire b l disk' filename root (store_self disk filename (wire root))
          (omega (arith, long)) in
      let (r, loaded, holds) =
        load_nodes-Holds fresh shr_list old (v ∷ vs) later k (Holds-All heap nodes (v ∷ vs) h) in
      let reads : read_shrlist b disk' fresh filename shr_list later
          ≡ some (record { ok = true; shr_list = r.0; heap = r.1 }) =
        rw (back, read_shrlist) (rw loaded refl) in
      (
        disk',
        record { ok = true; shr_list = r.0; heap = r.1 },
        dump_shrlist_lem writable disk filename nodes v vs heap h w,
        reads,
        load_shrlist-read disk' fresh filename shr_list later
            (record { ok = true; shr_list = r.0; heap = r.1 }) reads,
        holds,
      )
