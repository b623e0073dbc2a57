-- ===== src/Tsfiles/Kept.antt =====
-- What save_senders keeps of a transfer, and what load_senders makes of it.
use tox_suite.Base.{ℕ, ◌<◌, ◌≡◌, refl, some, List, [], ◌∷◌, ◌++◌, arith, length, take, All}
use tox_suite.Base.Entries.{deref}
use tox_suite.Base.Heap.{Heap, malloc}
use tox_suite.Base.Texts.{IsText}
use tox_suite.Base.Words.{u64_mod}
use tox_suite.Bencode.{be_str, be_dict, BeItems, no_item, item, BeFields, no_field, field}
use tox_suite.Sodium.{Sodium}
use tox_suite.Friend.{
  FriendInfo, tox_public_key_size, friend_info_by_friend_number, friend_info_by_public_keybin,
}
use tox_suite.Transfer.{FileSender, zero_sender, zero_node, tox_file_id_length}
use tox_suite.Tsfiles.Length.{HasTextKeys, AllTextKeys}
use tox_suite.Tsfiles.Nodes.{
  IsComplete, IsComplete-malloc, node_fields, read_node, read_node-IsComplete,
}
use tox_suite.Tsfiles.Senders.{toxid_key, path_key, info_key}

-- What is kept of a transfer.
pub record Kept : Type 0 where
  pub key : List ℕ
  pub path : List ℕ
  pub name : List ℕ
  pub len : ℕ
  pub hash : List ℕ

-- A sender of this file and path; `number` is the friend's.
pub record IsSender (heap : Heap) (f : FileSender) (v : Kept) (number : ℕ) : Type 0 where
  pub path_set : f.pathname ≡ some v.path
  pub path_text : IsText v.path
  pub node : IsComplete heap f.info v.name v.hash
  pub len_set : f.info.length ≡ v.len
  pub number_set : f.friend_number ≡ number
  pub key_size : length v.key ≡ tox_public_key_size

-- The friend of a number has this key.
abbrev pub Keyed : List FriendInfo → List ℕ → ℕ → Type 0
Keyed friends_info key number =
    (fr : FriendInfo) × (deref friends_info (friend_info_by_friend_number friends_info number)
      ≡ some fr)
    × (take tox_public_key_size fr.tox_id_bin ≡ key)

-- A key, as a C string, belongs to the friend of a number.
abbrev pub Known : Sodium → List FriendInfo → List ℕ → ℕ → Type 0
Known sodium friends_info key number =
    (fr : FriendInfo) × (deref friends_info
        (friend_info_by_public_keybin sodium friends_info (key ++ 0 ∷ []))
      ≡ some fr)
    × (fr.friend_number ≡ number)

-- The senders of a queue are these, each with the number that `Has` relates to its key.
abbrev pub Queued : (List ℕ → ℕ → Type 0) → Heap → List FileSender → List Kept → Type 0
Queued Has heap [] [] = Unit
Queued Has heap [] (v ∷ vs) = ⊥
Queued Has heap (f ∷ fs) [] = ⊥
Queued Has heap (f ∷ fs) (v ∷ vs) =
    IsSender heap f v f.friend_number × Has v.key f.friend_number × Queued Has heap fs vs

-- FileSender_new puts each at the head.
abbrev pub loaded_onto : List Kept → List Kept → List Kept
loaded_onto [] old = old
loaded_onto (v ∷ vs) old = loaded_onto vs (v ∷ old)

abbrev pub kept_fields : Kept → BeFields
kept_fields v = field toxid_key (be_str v.key) (
    field path_key (be_str v.path)
      (field info_key (be_dict (node_fields v.name v.len v.hash)) no_field))

abbrev pub kept_items : List Kept → BeItems
kept_items [] = no_item
kept_items (v ∷ vs) = item (be_dict (kept_fields v)) (kept_items vs)

pub kept-AllTextKeys : (vs : List Kept) → AllTextKeys (kept_items vs)
unfolding HasTextKeys
kept-AllTextKeys [] = tt
kept-AllTextKeys (v ∷ vs) = (omega arith, kept-AllTextKeys vs)

pub Queued-malloc :
    (Has : List ℕ → ℕ → Type 0) (heap : Heap) (bytes : List ℕ) (fs : List FileSender)
    (vs : List Kept)
    → Queued Has heap fs vs
    → Queued Has (malloc heap bytes) fs vs
Queued-malloc Has heap bytes [] [] h = tt
Queued-malloc Has heap bytes [] (v ∷ vs) h = h
Queued-malloc Has heap bytes (f ∷ fs) [] h = h
Queued-malloc Has heap bytes (f ∷ fs) (v ∷ vs) (s, has, h) =
    (IsSender-malloc heap bytes f v s, has, Queued-malloc Has heap bytes fs vs h)
  where
    IsSender-malloc :
        (heap : Heap) (bytes : List ℕ) (f : FileSender) (v : Kept)
        → IsSender heap f v f.friend_number
        → IsSender (malloc heap bytes) f v f.friend_number
    IsSender-malloc heap bytes f v s = record {
      path_set = s.path_set;
      path_text = s.path_text;
      node = IsComplete-malloc heap bytes f.info v.name v.hash s.node;
      len_set = s.len_set;
      number_set = s.number_set;
      key_size = s.key_size;
    }

-- What can be saved and read again.
pub record IsKept (v : Kept) : Type 0 where
  pub path_text : IsText v.path
  pub name_text : IsText v.name
  pub hash_size : length v.hash ≡ tox_file_id_length
  pub length_fits : v.len < u64_mod
  pub key_size : length v.key ≡ tox_public_key_size

pub IsSender-IsKept :
    (heap : Heap) (f : FileSender) (v : Kept) (number : ℕ) → IsSender heap f v number → IsKept v
IsSender-IsKept heap f v number s = record {
  path_text = s.path_text;
  name_text = s.node.name_text;
  hash_size = s.node.hash_size;
  length_fits = omega (arith, s.node.length_fits, s.len_set);
  key_size = s.key_size;
}

-- Each key belongs to a friend.
abbrev pub AllKnown : Sodium → List FriendInfo → List Kept → Type 0
AllKnown sodium friends_info = All (λ v. (number : ℕ) × Known sodium friends_info v.key number)

pub Queued-IsKept :
    (Has : List ℕ → ℕ → Type 0) (heap : Heap) (queue : List FileSender) (vs : List Kept)
    → Queued Has heap queue vs
    → All IsKept vs
Queued-IsKept Has heap [] [] h = tt
Queued-IsKept Has heap [] (v ∷ vs) h = absurd h
Queued-IsKept Has heap (f ∷ fs) [] h = absurd h
Queued-IsKept Has heap (f ∷ fs) (v ∷ vs) (s, has, h) =
    (IsSender-IsKept heap f v f.friend_number s, Queued-IsKept Has heap fs vs h)

-- The sender that an entry makes.
abbrev pub read_sender : Heap → Kept → ℕ → FileSender
read_sender heap v number = record zero_sender {
  friend_number = number;
  pathname = some v.path;
  info = read_node zero_node heap v.name v.len;
}

pub read_sender-IsSender :
    (heap : Heap) (v : Kept) (number : ℕ)
    → IsKept v
    → IsSender (malloc heap v.hash) (read_sender heap v number) v number
read_sender-IsSender heap v number k = record {
  path_set = refl;
  path_text = k.path_text;
  node =
      read_node-IsComplete zero_node heap v.name v.len v.hash k.name_text k.hash_size k.length_fits;
  len_set = refl;
  number_set = refl;
  key_size = k.key_size;
}
