-- ===== src/Tsfiles.antt =====
-- src/tsfiles.c: the shared files and the unfinished transfers, saved as bencoded trees and loaded
-- again. `none` as a result is a fault: a NULL or dangling pointer, or a union that is read as what it
-- does not hold.
pub mod Length
pub mod Nodes
pub mod Shrlist
pub mod Senders
pub mod Kept
pub mod Restored
pub mod Resume
pub mod Restart
mod Tests
use tox_suite.Base.{
  ℕ, zero, suc, ◌+◌, ◌-◌, ◌*◌, ◌/◌, ◌%◌, ◌^◌, ◌≤◌, ◌<◌, ◌≡◌, refl, sym, ap, ◌∙◌, ◌≢◌, ◌↔◌, ◌⊎◌, inl,
  inr, Bool, true, false, ◌&&◌, ◌||◌, not, Option, none, some, List, [], ◌∷◌, ◌++◌, map, arith, ltb,
  leb, ◌==◌, if◌then◌else◌, ltb→lt, lt→ltb, not-ltb→le, not-leb→lt, leb→le, le→leb, ==_iff,
  Bool-cases, Option-cases, length, get_elem?, set, take, drop, All, length-append,
  take-append-drop, length-drop, eq_bytes, eq_bytes→eq, eq_bytes_refl,
}
use mathlib.Core.Option
use tox_suite.Base.Digits.{signed_decimal}
use tox_suite.Base.Heap.{Heap, malloc, load, next_block}
use tox_suite.Base.Int.{ℤ, pos, negsuc}
use tox_suite.Base.Results.{◌>>=◌}
use tox_suite.Base.Texts.{codes, c_string}
use tox_suite.Base.Words.{to_u64}
use tox_suite.Bencode.{
  BeNode, be_str, be_int, be_list, be_dict, BeItems, no_item, item, BeFields, no_field, field,
  Bencode,
}
use tox_suite.Transfer.{FileNode, tox_file_id_length}

-- The bytes that a pointer to a hash leads to.
abbrev pub hash_at : Heap → Option ℕ → Option (List ℕ)
hash_at heap none = none
hash_at heap (some p) = load heap p

abbrev pub name_key : List ℕ
name_key = codes "name"

abbrev pub length_key : List ℕ
length_key = codes "length"

abbrev pub hash_key : List ℕ
hash_key = codes "hash"

-- The C string of a node; another kind of node holds no pointer to one.
abbrev pub string_of : BeNode → Option (List ℕ)
string_of (be_str s) = some s
string_of n = none

abbrev pub int_of : BeNode → Option ℤ
int_of (be_int i) = some i
int_of n = none

-- The dictionary of a node; what is no dictionary has no array of keys.
abbrev pub fields_of : BeNode → Option BeFields
fields_of (be_dict fields) = some fields
fields_of n = none

abbrev pub items_of : BeNode → Option BeItems
items_of (be_list items) = some items
items_of n = none

-- memcpy of a hash out of a string and its terminator.
abbrev pub hash_of : List ℕ → Option (List ℕ)
hash_of s =
    if ltb (length (s ++ 0 ∷ [])) tox_file_id_length
    then none
    else some (take tox_file_id_length (s ++ 0 ∷ []))

-- The body of the loop of decode_FileNode, for one key. `length` holds the 64 bits of an off_t.
unfoldable pub decode_key : FileNode → Heap → List ℕ → BeNode → Option (FileNode × Heap)
decode_key f heap key value =
    if eq_bytes name_key (c_string key)
    then (do s ← string_of value; some (record f { file = some (c_string s) }, heap))
    else if eq_bytes length_key (c_string key)
    then (do i ← int_of value; some (record f { length = to_u64 i }, heap))
    else if eq_bytes hash_key (c_string key)
    then (do
      s ← string_of value
      bytes ← hash_of s
      some (record f { blake2b = some (next_block heap) }, malloc heap bytes))
    else some (f, heap)

unfoldable pub decode_filenode : FileNode → Heap → BeFields → Option (FileNode × Heap)
unfolding decode_key
decode_filenode f heap no_field = some (f, heap)
decode_filenode f heap (field key value fields) =
    decode_key f heap key value >>= λ (f', heap'). decode_filenode f' heap' fields

-- sprintf into 22 bytes, whose length it returns.
unfoldable pub num_digits : ℤ → ℕ
num_digits x = length (signed_decimal x)

module _ (b : Bencode) where
  unfoldable pub encode_filenode : BeNode → FileNode → Heap → Option BeNode
  encode_filenode info fn heap = do
    name ← fn.file
    hash ← hash_at heap fn.blake2b
    let info' = b.add_keypair info name_key (b.create_str_wlen name)
    let info'' = b.add_keypair info' length_key (b.create_int (pos fn.length))
    some (b.add_keypair info'' hash_key (b.create_str_wlen (take tox_file_id_length hash)))

  unfoldable mutual
    unfolding num_digits

    pub be_node_len : BeNode → ℕ
    be_node_len (be_str s) = let tmp = b.str_len (be_str s) in tmp + num_digits (pos tmp) + 1
    be_node_len (be_int i) = num_digits i + 2
    be_node_len (be_list items) = items_len items + 2
    be_node_len (be_dict fields) = fields_len fields + 2

    pub items_len : BeItems → ℕ
    items_len no_item = 0
    items_len (item n items) = be_node_len n + items_len items

    pub fields_len : BeFields → ℕ
    fields_len no_field = 0
    fields_len (field key n fields) =
        let tmp = length (c_string key) in
        be_node_len n + (tmp + num_digits (pos tmp) + 1) + fields_len fields

  -- An empty file cannot be read, as fread then returns 0.
  unfoldable pub be_node_loadfile : (List ℕ → Option (List ℕ)) → List ℕ → Option BeNode
  be_node_loadfile fopen filename = do
    bytes ← fopen filename
    if length bytes == 0 then none else b.decoden bytes

  -- What is written of a tree; `len` is what be_encode returns.
  unfoldable pub encoded : BeNode → List ℕ
  unfolding be_node_len
  encoded root = b.encode root (be_node_len root + 1)
