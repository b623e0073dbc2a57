-- ===== src/Tsfiles/Length.antt =====
-- be_node_len and NumDigits: the space that a saved tree takes.
use tox_suite.Base.{
  ℕ, suc, ◌+◌, ◌-◌, ◌^◌, ◌≤◌, ◌<◌, ◌≡◌, refl, false, Option, some, List, [], ◌∷◌, ◌++◌, arith, ◌==◌,
  length, length-append,
}
use tox_suite.Base.Decimal.{decimal, length-decimal-le}
use tox_suite.Base.Digits.{signed_decimal}
use tox_suite.Base.Int.{ℤ, pos, negsuc, ◌≤ℤ◌, ◌<ℤ◌}
use tox_suite.Base.Texts.{c_string_lem, IsText}
use tox_suite.Bencode.{
  BeNode, be_str, be_int, be_list, be_dict, BeItems, no_item, item, BeFields, no_field, field,
  Bencode, IsBencode, wire, wire_items, wire_fields, wire_string,
}
use tox_suite.Tsfiles.{num_digits, be_node_len, items_len, fields_len, be_node_loadfile, encoded}

-- The text of a 64-bit integer and its terminator fit the 22 bytes of NumDigits.
pub num_digits_fits : (x : ℤ) → negsuc (2 ^ 63 - 1) ≤ℤ x → x <ℤ pos (2 ^ 63) → num_digits x < 22
unfolding num_digits
num_digits_fits (pos n) l h = omega (arith, h, length-decimal-le n 19 (omega arith))
num_digits_fits (negsuc n) l h = omega (arith, l, length-decimal-le (suc n) 18 (omega arith))

-- The keys of a tree are C strings.
unfoldable mutual
  pub HasTextKeys : BeNode → Type 0
  HasTextKeys (be_str s) = Unit
  HasTextKeys (be_int i) = Unit
  HasTextKeys (be_list items) = AllTextKeys items
  HasTextKeys (be_dict fields) = TextFields fields

  pub AllTextKeys : BeItems → Type 0
  AllTextKeys no_item = Unit
  AllTextKeys (item n items) = HasTextKeys n × AllTextKeys items

  pub TextFields : BeFields → Type 0
  TextFields no_field = Unit
  TextFields (field k n fields) = IsText k × HasTextKeys n × TextFields fields

module _ (b : Bencode) (l : IsBencode b) where
  mutual
    unfolding be_node_len num_digits wire HasTextKeys

    len-wire : (n : BeNode) → HasTextKeys n → be_node_len b n ≡ length (wire n)
    len-wire (be_str s) k =
        rw (l.measures s) (omega (arith, length-append (decimal (length s)) (b':' ∷ s)))
    len-wire (be_int i) k = omega (arith, length-append (signed_decimal i) (b'e' ∷ []))
    len-wire (be_list items) k = omega (arith, items-wire items k)
    len-wire (be_dict fields) k = omega (arith, fields-wire fields k)

    items-wire :
        (items : BeItems) → AllTextKeys items → items_len b items + 1 ≡ length (wire_items items)
    items-wire no_item k = omega arith
    items-wire (item n items) k =
        omega
          (arith, len-wire n k.0, items-wire items k.1, length-append (wire n) (wire_items items))

    fields-wire :
        (fields : BeFields)
        → TextFields fields
        → fields_len b fields + 1 ≡ length (wire_fields fields)
    fields-wire no_field k = omega arith
    fields-wire (field key n fields) k = rw (c_string_lem key k.0) (
        omega (
          arith,
          len-wire n k.1,
          fields-wire fields k.2,
          length-append (decimal (length key)) (b':' ∷ key),
          length-append (wire_string key) (wire n ++ wire_fields fields),
          length-append (wire n) (wire_fields fields),
        ))

  -- The length of a tree whose keys are C strings is that of its text, so a buffer with one byte
  -- more takes the whole of it.
  pub be_node_len-wire :
      (n : BeNode) → HasTextKeys n → (be_node_len b n ≡ length (wire n)) × (encoded b n ≡ wire n)
  unfolding encoded
  be_node_len-wire n k =
      (len-wire n k, l.encodes n (be_node_len b n + 1) (omega (arith, len-wire n k)))

  -- A tree that is on the disk is loaded.
  pub be_node_loadfile-wire :
      (fopen : List ℕ → Option (List ℕ)) (filename : List ℕ) (n : BeNode)
      → fopen filename ≡ some (wire n)
      → 0 < length (wire n)
      → be_node_loadfile b fopen filename ≡ some n
  unfolding be_node_loadfile
  be_node_loadfile-wire fopen filename n e h = rw (e, not-empty, l.decodes n) refl
    where
      not-empty : (length (wire n) == 0) ≡ false
      not-empty = ground (arith, h)

pub wire_items-cons : (items : BeItems) → 1 ≤ length (wire_items items)
unfolding wire
wire_items-cons no_item = omega arith
wire_items-cons (item n items) =
    omega (arith, length-append (wire n) (wire_items items), wire_items-cons items)

-- A list with a dictionary in it is longer than the two bytes of an empty list.
pub wire-long :
    (fields : BeFields) (items : BeItems)
    → 2 < length (wire (be_list (item (be_dict fields) items)))
unfolding wire
wire-long fields items =
    omega (arith, length-append (wire (be_dict fields)) (wire_items items), wire_items-cons items)
