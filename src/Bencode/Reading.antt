-- ===== src/Bencode/Reading.antt =====
-- The reader on the text of a tree.
use tox_suite.Base.{
  ℕ, zero, suc, ◌*◌, ◌≤◌, ◌<◌, ◌≡◌, refl, ap, ◌∙◌, true, false, some, List, [], ◌∷◌, ◌++◌, arith,
  ◌==◌, length, length-append,
}
use mathlib.Core.Option
use mathlib.Core.List.{append_assoc}
use tox_suite.Base.{take-append, drop-append}
use tox_suite.Base.Digits.{read_digits, is_digit, signed_decimal, read_digits-decimal, decimal-cons}
use tox_suite.Base.Decimal.{decimal}
use tox_suite.Base.Int.{ℤ, pos, negsuc}
use tox_suite.Bencode.{
  BeNode, be_str, be_int, be_list, be_dict, BeItems, no_item, item, BeFields, no_field, field,
  wire_string, wire, wire_items, wire_fields,
}
use tox_suite.Bencode.Reader.{
  kind, read_string, read_int, next_item, next_field, after_key, parse, parse_items, parse_fields,
  size, size_items, size_fields, a_string,
}

read_string-wire : (s rest : List ℕ) → read_string (wire_string s ++ rest) ≡ some (s, rest)
read_string-wire s rest =
    rw
      (
        append_assoc (decimal (length s)) (b':' ∷ s) rest,
        read_digits-decimal (length s) (b':' ∷ (s ++ rest)) refl,
      )
      (rw (take-append s rest, drop-append s rest))

-- The byte that a text starts with, if it has a property.
abbrev Starts : (ℕ → Type 0) → List ℕ → Type 0
Starts P s = (d : ℕ) × (ds : List ℕ) × (s ≡ d ∷ ds) × P d

string-Starts :
    (s rest : List ℕ)
    → Starts (λ d. (kind d ≡ a_string) × ((d == b'e') ≡ false)) (wire_string s ++ rest)
string-Starts s rest =
    let (d, ds, same, digit) = decimal-cons (length s) in
    (d, (ds ++ b':' ∷ s) ++ rest, rw same, (ground (arith, digit), ground (arith, digit)))

wire-Starts : (n : BeNode) (rest : List ℕ) → Starts (λ d. (d == b'e') ≡ false) (wire n ++ rest)
unfolding wire
wire-Starts (be_str s) rest = let (d, ds, same, (k, e)) = string-Starts s rest in (d, ds, same, e)
wire-Starts (be_int i) rest = (b'i', (signed_decimal i ++ b'e' ∷ []) ++ rest, refl, refl)
wire-Starts (be_list l) rest = (b'l', wire_items l ++ rest, refl, refl)
wire-Starts (be_dict d) rest = (b'd', wire_fields d ++ rest, refl, refl)

parse_other :
    (fuel : ℕ) (s : List ℕ)
    → Starts (λ d. (kind d ≡ a_string) × ((d == b'e') ≡ false)) s
    → parse (suc fuel) s ≡ Option.map (λ (x, t). (be_str x, t)) (read_string s)
unfolding parse
parse_other fuel s (d, ds, same, (k, e)) = rw (same, k, parse)

items_other :
    (fuel : ℕ) (s : List ℕ)
    → Starts (λ d. (d == b'e') ≡ false) s
    → parse_items (suc fuel) s ≡ next_item (parse fuel s) (parse_items fuel)
unfolding parse
items_other fuel s (d, ds, same, e) = rw (same, e, parse_items)

fields-Starts :
    (fuel : ℕ) (s : List ℕ)
    → Starts (λ d. (kind d ≡ a_string) × ((d == b'e') ≡ false)) s
    → parse_fields (suc fuel) s ≡ after_key (parse fuel) (parse_fields fuel) (read_string s)
unfolding parse
fields-Starts fuel s (d, ds, same, (k, e)) = rw (same, e, parse_fields)

fields_other :
    (fuel : ℕ) (k rest : List ℕ)
    → parse_fields (suc fuel) (wire_string k ++ rest)
      ≡ next_field k (parse fuel rest) (parse_fields fuel)
fields_other fuel k rest =
    fields-Starts fuel (wire_string k ++ rest) (string-Starts k rest)
    ∙ ap (after_key (parse fuel) (parse_fields fuel)) (read_string-wire k rest)

no_sign : (d : ℕ) → is_digit d ≡ true → (d == b'-') ≡ false
no_sign d h = ground (arith, h)

no_minus :
    (s rest : List ℕ) (n : ℕ)
    → Starts (λ d. is_digit d ≡ true) s
    → read_digits 0 s ≡ (n, b'e' ∷ rest)
    → read_int s ≡ some (be_int (pos n), rest)
no_minus s rest n (d, ds, same, digit) read = rw same (rw (no_sign d digit, rw same at read))

read_int-wire :
    (i : ℤ) (rest : List ℕ) → read_int (signed_decimal i ++ b'e' ∷ rest) ≡ some (be_int i, rest)
read_int-wire (pos n) rest =
    let (d, ds, same, digit) = decimal-cons n in
    no_minus (decimal n ++ b'e' ∷ rest) rest n (d, ds ++ b'e' ∷ rest, rw same, digit)
      (read_digits-decimal n (b'e' ∷ rest) refl)
read_int-wire (negsuc n) rest =
    rw (read_digits-decimal (suc n) (b'e' ∷ rest) refl)
      (ap (λ m. some (be_int (negsuc m), rest)) (omega arith))

size_pos : (n : BeNode) → 0 < size n
unfolding size
size_pos (be_str s) = omega arith
size_pos (be_int i) = omega arith
size_pos (be_list l) = omega arith
size_pos (be_dict d) = omega arith

size_items_pos : (l : BeItems) → 0 < size_items l
unfolding size
size_items_pos no_item = omega arith
size_items_pos (item n l) = omega arith

size_fields_pos : (d : BeFields) → 0 < size_fields d
unfolding size
size_fields_pos no_field = omega arith
size_fields_pos (field k n d) = omega arith

mutual
  unfolding parse wire size

  pub parse-wire :
      (n : BeNode) (rest : List ℕ) (fuel : ℕ)
      → size n ≤ fuel
      → parse fuel (wire n ++ rest) ≡ some (n, rest)
  parse-wire n rest zero h = absurd (omega (arith, h, size_pos n))
  parse-wire (be_str s) rest (suc fuel) h =
      parse_other fuel (wire_string s ++ rest) (string-Starts s rest) ∙ rw (read_string-wire s rest)
  parse-wire (be_int i) rest (suc fuel) h =
      rw (append_assoc (signed_decimal i) (b'e' ∷ []) rest) (read_int-wire i rest)
  parse-wire (be_list l) rest (suc fuel) h = rw (parse_items-wire l rest fuel (omega arith))
  parse-wire (be_dict d) rest (suc fuel) h = rw (parse_fields-wire d rest fuel (omega arith))

  parse_items-wire :
      (l : BeItems) (rest : List ℕ) (fuel : ℕ)
      → size_items l ≤ fuel
      → parse_items fuel (wire_items l ++ rest) ≡ some (l, rest)
  parse_items-wire l rest zero h = absurd (omega (arith, h, size_items_pos l))
  parse_items-wire no_item rest (suc fuel) h = refl
  parse_items-wire (item n l) rest (suc fuel) h = rw (append_assoc (wire n) (wire_items l) rest) (
      items_other fuel (wire n ++ (wire_items l ++ rest)) (wire-Starts n (wire_items l ++ rest))
      ∙ rw (
        parse-wire n (wire_items l ++ rest) fuel (omega arith),
        parse_items-wire l rest fuel (omega arith),
      ))

  parse_fields-wire :
      (d : BeFields) (rest : List ℕ) (fuel : ℕ)
      → size_fields d ≤ fuel
      → parse_fields fuel (wire_fields d ++ rest) ≡ some (d, rest)
  parse_fields-wire d rest zero h = absurd (omega (arith, h, size_fields_pos d))
  parse_fields-wire no_field rest (suc fuel) h = refl
  parse_fields-wire (field k n d) rest (suc fuel) h =
      rw
        (
          append_assoc (wire_string k) (wire n ++ wire_fields d) rest,
          append_assoc (wire n) (wire_fields d) rest,
        )
        (fields_other fuel k (wire n ++ (wire_fields d ++ rest))
          ∙ rw (
            parse-wire n (wire_fields d ++ rest) fuel (omega arith),
            parse_fields-wire d rest fuel (omega arith),
          ))

mutual
  unfolding wire size

  pub size-lt : (n : BeNode) → size n < 2 * length (wire n)
  size-lt (be_str s) = omega (arith, length-append (decimal (length s)) (b':' ∷ s))
  size-lt (be_int i) = omega (arith, length-append (signed_decimal i) (b'e' ∷ []))
  size-lt (be_list l) = omega (arith, size_items-le l)
  size-lt (be_dict d) = omega (arith, size_fields-le d)

  size_items-le : (l : BeItems) → size_items l ≤ 2 * length (wire_items l)
  size_items-le no_item = omega arith
  size_items-le (item n l) =
      omega (arith, length-append (wire n) (wire_items l), size-lt n, size_items-le l)

  size_fields-le : (d : BeFields) → size_fields d ≤ 2 * length (wire_fields d)
  size_fields-le no_field = omega arith
  size_fields-le (field k n d) = omega (
    arith,
    length-append (wire_string k) (wire n ++ wire_fields d),
    length-append (wire n) (wire_fields d),
    size-lt n,
    size_fields-le d,
  )
