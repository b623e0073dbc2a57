-- ===== src/Bencode.antt =====
-- The tree of src/bencode/bencode.h and the calls of that library, which src/tsfiles.c builds, takes
-- apart, writes and reads its saved files with.
pub mod Reader
pub mod Reading
pub mod Plain
use tox_suite.Base.{
  ℕ, zero, suc, ◌+◌, ◌-◌, ◌*◌, ◌/◌, ◌%◌, ◌^◌, ◌≤◌, ◌<◌, ◌≡◌, refl, sym, ap, ◌∙◌, ◌≢◌, ◌↔◌, ◌⊎◌, inl,
  inr, Bool, true, false, ◌&&◌, ◌||◌, not, Option, none, some, List, [], ◌∷◌, ◌++◌, map, arith, ltb,
  leb, ◌==◌, if◌then◌else◌, ltb→lt, lt→ltb, not-ltb→le, not-leb→lt, leb→le, le→leb, ==_iff,
  Bool-cases, Option-cases, length, get_elem?, set, take, drop, All, length-append,
  take-append-drop, length-drop, eq_bytes, eq_bytes→eq, eq_bytes_refl,
}
use tox_suite.Base.Digits.{signed_decimal}
use tox_suite.Base.Decimal.{decimal}
use tox_suite.Base.Int.{ℤ, pos, negsuc}

-- be_node: a string with its length, an integer, and arrays that end with NULL.
mutual
  pub data BeNode : Type 0 where
    be_str : List ℕ → BeNode
    be_int : ℤ → BeNode
    be_list : BeItems → BeNode
    be_dict : BeFields → BeNode

  pub data BeItems : Type 0 where
    no_item : BeItems
    item : BeNode → BeItems → BeItems

  pub data BeFields : Type 0 where
    no_field : BeFields
    field : List ℕ → BeNode → BeFields → BeFields

abbrev pub append_item : BeItems → BeNode → BeItems
append_item no_item n = item n no_item
append_item (item m items) n = item m (append_item items n)

abbrev pub append_field : BeFields → List ℕ → BeNode → BeFields
append_field no_field k n = field k n no_field
append_field (field j m fields) k n = field j m (append_field fields k n)

-- The calls. `encode` gives what be_encode writes into a buffer of the given size, whose length it
-- returns.
pub record Bencode : Type 0 where
  pub create_str_wlen : List ℕ → BeNode
  pub create_int : ℤ → BeNode
  pub create_list : BeNode
  pub create_dict : BeNode
  pub add_list : BeNode → BeNode → BeNode
  pub add_keypair : BeNode → List ℕ → BeNode → BeNode
  pub str_len : BeNode → ℕ
  pub encode : BeNode → ℕ → List ℕ
  pub decoden : List ℕ → Option BeNode

-- The format: a string after its length and a colon, and the others between a letter and 'e'.
abbrev pub wire_string : List ℕ → List ℕ
wire_string s = decimal (length s) ++ b':' ∷ s

unfoldable mutual
  pub wire : BeNode → List ℕ
  wire (be_str s) = wire_string s
  wire (be_int i) = b'i' ∷ (signed_decimal i ++ b'e' ∷ [])
  wire (be_list items) = b'l' ∷ wire_items items
  wire (be_dict fields) = b'd' ∷ wire_fields fields

  pub wire_items : BeItems → List ℕ
  wire_items no_item = b'e' ∷ []
  wire_items (item n items) = wire n ++ wire_items items

  pub wire_fields : BeFields → List ℕ
  wire_fields no_field = b'e' ∷ []
  wire_fields (field k n fields) = wire_string k ++ (wire n ++ wire_fields fields)

-- What the program relies on: the trees are built as the names of the calls say, keys stay in their
-- order, a buffer that is long enough takes the whole text, and a text is read back.
pub record IsBencode (b : Bencode) : Type 0 where
  pub creates_str : (s : List ℕ) → b.create_str_wlen s ≡ be_str s
  pub creates_int : (i : ℤ) → b.create_int i ≡ be_int i
  pub creates_list : b.create_list ≡ be_list no_item
  pub creates_dict : b.create_dict ≡ be_dict no_field
  pub adds_item :
      (items : BeItems) (n : BeNode) → b.add_list (be_list items) n ≡ be_list (append_item items n)
  pub adds_field :
      (fields : BeFields) (k : List ℕ) (n : BeNode)
      → b.add_keypair (be_dict fields) k n ≡ be_dict (append_field fields k n)
  pub measures : (s : List ℕ) → b.str_len (be_str s) ≡ length s
  pub encodes : (n : BeNode) (size : ℕ) → length (wire n) < size → b.encode n size ≡ wire n
  pub decodes : (n : BeNode) → b.decoden (wire n) ≡ some n
