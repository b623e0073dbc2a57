-- ===== src/Tsfiles/Nodes.antt =====
-- encode_FileNode and decode_FileNode of src/tsfiles.c on nodes with a name and a hash.
use tox_suite.Base.{
  ℕ, ◌<◌, ◌≡◌, refl, false, Option, none, some, List, [], ◌∷◌, ◌++◌, arith, ltb, length, take,
  length-append,
}
use tox_suite.Base.Heap.{load-malloc_self, load-malloc_old, Heap, malloc, next_block}
use tox_suite.Base.Int.{pos}
use tox_suite.Base.Texts.{c_string_lem, IsText}
use tox_suite.Base.Words.{u64_mod, to_u64_of_nonneg}
use tox_suite.Base.{take-append, take_all}
use tox_suite.Bencode.{be_str, be_int, be_dict, BeFields, no_field, field, Bencode, IsBencode}
use tox_suite.Transfer.{FileNode, tox_file_id_length}
use tox_suite.Tsfiles.{
  hash_at, name_key, length_key, hash_key, hash_of, decode_filenode, encode_filenode,
}
use tox_suite.Tsfiles.Length.{HasTextKeys}

-- A node with this name and this hash, as the walk and the hashing of shared files leave it.
pub record IsComplete (heap : Heap) (fn : FileNode) (name hash : List ℕ) : Type 0 where
  pub named : fn.file ≡ some name
  pub name_text : IsText name
  pub hashed : hash_at heap fn.blake2b ≡ some hash
  pub hash_size : length hash ≡ tox_file_id_length
  pub length_fits : fn.length < u64_mod

-- Its tree.
abbrev pub node_fields : List ℕ → ℕ → List ℕ → BeFields
node_fields name len hash =
    field name_key (be_str name)
      (field length_key (be_int (pos len)) (field hash_key (be_str hash) no_field))

-- What a node in fresh memory is after its tree was read, with its hash in a new block.
abbrev pub read_node : FileNode → Heap → List ℕ → ℕ → FileNode
read_node fresh heap name len = record fresh {
  file = some name;
  length = len;
  blake2b = some (next_block heap);
}

take_full : (n : ℕ) (s rest : List ℕ) → length s ≡ n → take n (s ++ rest) ≡ s
take_full n s rest h = rw (← h) (take-append s rest)

hash_of_lem : (hash : List ℕ) → length hash ≡ tox_file_id_length → hash_of hash ≡ some hash
hash_of_lem hash h = rw (not-short, take_full tox_file_id_length hash (0 ∷ []) h)
  where
    not-short : ltb (length (hash ++ 0 ∷ [])) tox_file_id_length ≡ false
    not-short = ground (arith, length-append hash (0 ∷ []))

module _ (b : Bencode) (l : IsBencode b) where
  pub encode_filenode_lem :
      (fn : FileNode) (heap : Heap) (name hash : List ℕ)
      → IsComplete heap fn name hash
      → encode_filenode b b.create_dict fn heap ≡ some (be_dict (node_fields name fn.length hash))
  unfolding encode_filenode
  encode_filenode_lem fn heap name hash c = simp (
    c.named,
    c.hashed,
    l.creates_dict,
    l.creates_str,
    l.creates_int,
    l.adds_field,
    take_all tox_file_id_length hash (omega (arith, c.hash_size)),
  )

pub node_fields-HasTextKeys :
    (name : List ℕ) (len : ℕ) (hash : List ℕ) → HasTextKeys (be_dict (node_fields name len hash))
unfolding HasTextKeys
node_fields-HasTextKeys name len hash = omega arith

pub decode_filenode_lem :
    (fresh : FileNode) (heap : Heap) (name : List ℕ) (len : ℕ) (hash : List ℕ)
    → IsText name
    → length hash ≡ tox_file_id_length
    → len < u64_mod
    → decode_filenode fresh heap (node_fields name len hash)
      ≡ some (read_node fresh heap name len, malloc heap hash)
unfolding decode_filenode
decode_filenode_lem fresh heap name len hash t h f =
    rw (hash_of_lem hash h, c_string_lem name t, to_u64_of_nonneg len f)

hash_at-malloc :
    (heap : Heap) (bytes : List ℕ) (p : Option ℕ) (hash : List ℕ)
    → hash_at heap p ≡ some hash
    → hash_at (malloc heap bytes) p ≡ some hash
hash_at-malloc heap bytes none hash h = cc
hash_at-malloc heap bytes (some p) hash h = load-malloc_old heap bytes hash p h

-- A block more does not matter to a node.
pub IsComplete-malloc :
    (heap : Heap) (bytes : List ℕ) (fn : FileNode) (name hash : List ℕ)
    → IsComplete heap fn name hash
    → IsComplete (malloc heap bytes) fn name hash
IsComplete-malloc heap bytes fn name hash c = record {
  named = c.named;
  name_text = c.name_text;
  hashed = hash_at-malloc heap bytes fn.blake2b hash c.hashed;
  hash_size = c.hash_size;
  length_fits = c.length_fits;
}

pub read_node-IsComplete :
    (fresh : FileNode) (heap : Heap) (name : List ℕ) (len : ℕ) (hash : List ℕ)
    → IsText name
    → length hash ≡ tox_file_id_length
    → len < u64_mod
    → IsComplete (malloc heap hash) (read_node fresh heap name len) name hash
read_node-IsComplete fresh heap name len hash text size fits = record {
  named = refl;
  name_text = text;
  hashed = load-malloc_self heap hash;
  hash_size = size;
  length_fits = fits;
}
