-- ===== src/Bencode/Reader.antt =====
-- A reader of the text of a tree, on fuel.
use tox_suite.Base.{
  ℕ, zero, suc, ◌+◌, ◌-◌, true, false, Option, none, some, List, [], ◌∷◌, ◌==◌, if◌then◌else◌, take,
  drop,
}
use mathlib.Core.Option
use tox_suite.Base.Digits.{read_digits}
use tox_suite.Base.Int.{pos, negsuc}
use tox_suite.Base.Results.{◌>>=◌}
use tox_suite.Bencode.{
  BeNode, be_str, be_int, be_list, be_dict, BeItems, no_item, item, BeFields, no_field, field,
}

pub data Kind : Type 0 where
  integer a_list a_dict a_string : Kind

abbrev pub kind : ℕ → Kind
kind c =
    if c == b'i'
    then integer
    else if c == b'l'
    then a_list
    else if c == b'd'
    then a_dict
    else a_string

-- A byte that must stand here, and what follows it.
abbrev pub expect : ℕ → List ℕ → Option (List ℕ)
expect c [] = none
expect c (x ∷ s) = if x == c then some s else none

abbrev pub read_string : List ℕ → Option (List ℕ × List ℕ)
read_string s = do let (n, s') = read_digits 0 s; t ← expect b':' s'; some (take n t, drop n t)

abbrev pub read_int : List ℕ → Option (BeNode × List ℕ)
read_int [] = none
read_int (c ∷ s) =
    if c == b'-'
    then (do let (n, s') = read_digits 0 s; t ← expect b'e' s'; some (be_int (negsuc (n - 1)), t))
    else (do let (n, s') = read_digits 0 (c ∷ s); t ← expect b'e' s'; some (be_int (pos n), t))

abbrev pub next_item :
    Option (BeNode × List ℕ) → (List ℕ → Option (BeItems × List ℕ)) → Option (BeItems × List ℕ)
next_item none more = none
next_item (some (n, t)) more = Option.map (λ (l, u). (item n l, u)) (more t)

abbrev pub next_field :
    List ℕ
    → Option (BeNode × List ℕ)
    → (List ℕ → Option (BeFields × List ℕ))
    → Option (BeFields × List ℕ)
next_field k none more = none
next_field k (some (n, t)) more = Option.map (λ (d, u). (field k n d, u)) (more t)

abbrev pub after_key :
    (List ℕ → Option (BeNode × List ℕ))
    → (List ℕ → Option (BeFields × List ℕ))
    → Option (List ℕ × List ℕ)
    → Option (BeFields × List ℕ)
after_key value more none = none
after_key value more (some (k, t)) = next_field k (value t) more

unfoldable mutual
  pub parse : ℕ → List ℕ → Option (BeNode × List ℕ)
  parse zero s = none
  parse (suc fuel) [] = none
  parse (suc fuel) (c ∷ s) = elim (kind c) [
    | integer ↦ read_int s
    | a_list ↦ Option.map (λ (l, t). (be_list l, t)) (parse_items fuel s)
    | a_dict ↦ Option.map (λ (d, t). (be_dict d, t)) (parse_fields fuel s)
    | a_string ↦ Option.map (λ (x, t). (be_str x, t)) (read_string (c ∷ s))
  ]

  pub parse_items : ℕ → List ℕ → Option (BeItems × List ℕ)
  parse_items zero s = none
  parse_items (suc fuel) [] = none
  parse_items (suc fuel) (c ∷ s) = elim (c == b'e') [
    | true ↦ some (no_item, s)
    | false ↦ next_item (parse fuel (c ∷ s)) (parse_items fuel)
  ]

  pub parse_fields : ℕ → List ℕ → Option (BeFields × List ℕ)
  parse_fields zero s = none
  parse_fields (suc fuel) [] = none
  parse_fields (suc fuel) (c ∷ s) = elim (c == b'e') [
    | true ↦ some (no_field, s)
    | false ↦ after_key (parse fuel) (parse_fields fuel) (read_string (c ∷ s))
  ]

-- Enough fuel for a tree.
unfoldable mutual
  pub size : BeNode → ℕ
  size (be_str s) = 1
  size (be_int i) = 1
  size (be_list l) = suc (size_items l)
  size (be_dict d) = suc (size_fields d)

  pub size_items : BeItems → ℕ
  size_items no_item = 1
  size_items (item n l) = suc (size n + size_items l)

  pub size_fields : BeFields → ℕ
  size_fields no_field = 1
  size_fields (field k n d) = suc (size n + size_fields d)
