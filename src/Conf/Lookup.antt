-- ===== src/Conf/Lookup.antt =====
-- get_conf_str and get_conf_int of src/conf.c on a file of settings, and a search through them.
use tox_suite.Base.{
  All-append, ℕ, ◌+◌, ◌-◌, ◌^◌, ◌<◌, ◌≡◌, refl, ap, ◌∙◌, ◌≢◌, Bool, true, false, ◌||◌, Option, none,
  some, List, [], ◌∷◌, ◌++◌, arith, ◌==◌, if◌then◌else◌, length, All, length-append, eq_bytes,
}
use mathlib.Core.List.{append-nil, append_assoc}
use tox_suite.Base.Decimal.{decimal}
use tox_suite.Base.Int.{pos}
use tox_suite.Base.Texts.{c_string, IsText, c_string_lem}
use tox_suite.Commands.Packs.{atoi-decimal, zero_text}
use tox_suite.Conf.{
  line_size, fgets_lines, until, strtok, has_hash, value_in, first_value, get_conf_str,
  get_conf_int,
}

-- A key and its value.
abbrev pub Setting : Type 0
Setting = List ℕ × List ℕ

-- What a line can hold.
pub record IsSetting (key value : List ℕ) : Type 0 where
  pub key_text : IsText key
  pub key_equals : All (λ c. c ≢ b'=') key
  pub key_newline : All (λ c. c ≢ 10) key
  pub key_hash : has_hash key ≡ false
  pub key_ne : key ≢ []
  pub value_text : IsText value
  pub value_newline : All (λ c. c ≢ 10) value
  pub value_ne : value ≢ []
  pub fits : length key + length value + 2 < line_size

-- The file with these settings.
abbrev pub conf_text : List Setting → List ℕ
conf_text [] = []
conf_text ((key, value) ∷ settings) = (key ++ b'=' ∷ value) ++ 10 ∷ conf_text settings

-- The first value of a key.
abbrev pub lookup : List ℕ → List Setting → Option (List ℕ)
lookup keyname [] = none
lookup keyname ((key, value) ∷ settings) =
    if eq_bytes keyname key then some value else lookup keyname settings

fgets-other :
    (room : ℕ) (line : List ℕ) (c : ℕ) (s : List ℕ)
    → c ≢ 10
    → 1 < room
    → fgets_lines room line (c ∷ s) ≡ fgets_lines (room - 1) (line ++ c ∷ []) s
fgets-other room line c s h l = rw (goes_on, fgets_lines) refl
  where
    goes_on : (c == 10 || room == 1) ≡ false
    goes_on = ground (arith, h, l)

fgets-line :
    (room : ℕ) (line w rest : List ℕ)
    → All (λ c. c ≢ 10) w
    → length w < room
    → fgets_lines room line (w ++ 10 ∷ rest)
      ≡ ((line ++ w) ++ 10 ∷ []) ∷ fgets_lines (line_size - 1) [] rest
fgets-line room line [] rest h l = rw (append-nil line) refl
fgets-line room line (c ∷ w) rest (h, hs) l =
    fgets-other room line c (w ++ 10 ∷ rest) h (omega arith)
    ∙ fgets-line (room - 1) (line ++ c ∷ []) w rest hs (omega arith)
    ∙ ap (λ t. (t ++ 10 ∷ []) ∷ fgets_lines (line_size - 1) [] rest) (append_assoc line (c ∷ []) w)

until-delim :
    (delim : ℕ) (s rest : List ℕ)
    → All (λ c. c ≢ delim) s
    → until delim (s ++ delim ∷ rest) ≡ (s, rest)
until-delim delim [] rest h = ground arith
until-delim delim (c ∷ s) rest (h, hs) = ground (arith, h, until-delim delim s rest hs)

strtok-delim :
    (delim : ℕ) (s rest : List ℕ)
    → All (λ c. c ≢ delim) s
    → s ≢ []
    → strtok delim (s ++ delim ∷ rest) ≡ some (s, rest)
strtok-delim delim [] rest h n = absurd (n refl)
strtok-delim delim (c ∷ s) rest h n =
    rw (differs c (h.0), strtok) (ap some (until-delim delim (c ∷ s) rest h))
  where
    differs : (c : ℕ) → c ≢ delim → (c == delim) ≡ false
    differs c h = ground (arith, h)

value_in-tokens :
    (keyname key value line : List ℕ)
    → strtok b'=' (c_string line) ≡ some (key, value ++ 10 ∷ [])
    → strtok 10 (value ++ 10 ∷ []) ≡ some (value, [])
    → has_hash key ≡ false
    → value_in keyname line ≡ (if eq_bytes keyname key then some value else none)
unfolding value_in
value_in-tokens keyname key value line k v h = rw (k, value_in) (rw v (ground (arith, h)))

value_in_lem :
    (keyname key value : List ℕ)
    → IsSetting key value
    → value_in keyname ((key ++ b'=' ∷ value) ++ 10 ∷ [])
      ≡ (if eq_bytes keyname key then some value else none)
value_in_lem keyname key value s =
    value_in-tokens keyname key value ((key ++ b'=' ∷ value) ++ 10 ∷ [])
      (ap (strtok b'=') (
          c_string_lem ((key ++ b'=' ∷ value) ++ 10 ∷ []) text
          ∙ append_assoc key (b'=' ∷ value) (10 ∷ []))
        ∙ strtok-delim b'=' key (value ++ 10 ∷ []) s.key_equals s.key_ne)
      (strtok-delim 10 value [] s.value_newline s.value_ne) s.key_hash
  where
    text : IsText ((key ++ b'=' ∷ value) ++ 10 ∷ [])
    text =
        All-append (λ c. c ≢ 0) (key ++ b'=' ∷ value) (10 ∷ [])
          (All-append (λ c. c ≢ 0) key (b'=' ∷ value) s.key_text ((λ e. omega arith), s.value_text))
          (omega arith)

first_value-cons :
    (keyname line value : List ℕ) (lines : List (List ℕ)) (b : Bool)
    → value_in keyname line ≡ (if b then some value else none)
    → first_value keyname (line ∷ lines) ≡ (if b then some value else first_value keyname lines)
unfolding first_value
first_value-cons keyname line value lines true e = rw (e, first_value) refl
first_value-cons keyname line value lines false e = rw (e, first_value) refl

first_value-lookup :
    (keyname : List ℕ) (settings : List Setting)
    → All (λ s. IsSetting s.0 s.1) settings
    → first_value keyname (fgets_lines (line_size - 1) [] (conf_text settings))
      ≡ lookup keyname settings
unfolding first_value
first_value-lookup keyname [] h = refl
first_value-lookup keyname ((key, value) ∷ settings) (s, h) =
    ap (first_value keyname)
      (fgets-line (line_size - 1) [] (key ++ b'=' ∷ value) (conf_text settings) one_line short)
    ∙ first_value-cons keyname ((key ++ b'=' ∷ value) ++ 10 ∷ []) value
        (fgets_lines (line_size - 1) [] (conf_text settings)) (eq_bytes keyname key)
        (value_in_lem keyname key value s)
    ∙ ap (λ r. if eq_bytes keyname key then some value else r)
        (first_value-lookup keyname settings h)
  where
    one_line : All (λ c. c ≢ 10) (key ++ b'=' ∷ value)
    one_line =
        All-append (λ c. c ≢ 10) key (b'=' ∷ value) s.key_newline
          ((λ e. omega arith), s.value_newline)

    short : length (key ++ b'=' ∷ value) < line_size - 1
    short = omega (arith, length-append key (b'=' ∷ value), s.fits)

-- get_conf_str finds the first value of a key: in a file of lines "key=value", each of at most 4095 bytes
-- with its newline, with a key that is not empty and holds no '=' and no '#', a value that is not
-- empty, and no terminator or newline in either, the result is that of a search through the
-- settings, NULL for a key that has none.
pub get_conf_str-lookup :
    (keyname : List ℕ) (settings : List Setting)
    → All (λ s. IsSetting s.0 s.1) settings
    → get_conf_str (some (conf_text settings)) keyname ≡ lookup keyname settings
unfolding get_conf_str
get_conf_str-lookup keyname settings h = first_value-lookup keyname settings h

-- get_conf_int finds a number: in such a file it returns n for a key whose first value is n in decimal
-- digits, where n fits an int.
pub get_conf_int-lookup :
    (keyname : List ℕ) (settings : List Setting) (n : ℕ)
    → All (λ s. IsSetting s.0 s.1) settings
    → n < 2 ^ 31
    → lookup keyname settings ≡ some (decimal n)
    → get_conf_int (some (conf_text settings)) keyname ≡ pos n
unfolding get_conf_int
get_conf_int-lookup keyname settings n h l e =
    rw (get_conf_str-lookup keyname settings h ∙ e, get_conf_int)
      (rw (atoi-decimal n l, zero_text n) refl)
