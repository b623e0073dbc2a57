-- ===== src/Conf.antt =====
-- src/conf.c: values of a file of lines "key=value".
pub mod Lookup
mod Tests
use tox_suite.Base.{
  ℕ, zero, suc, ◌+◌, ◌-◌, ◌*◌, ◌/◌, ◌%◌, ◌^◌, ◌≤◌, ◌<◌, ◌≡◌, refl, sym, ap, ◌∙◌, ◌≢◌, ◌↔◌, ◌⊎◌, inl,
  inr, Bool, true, false, ◌&&◌, ◌||◌, not, Option, none, some, List, [], ◌∷◌, ◌++◌, map, arith, ltb,
  leb, ◌==◌, if◌then◌else◌, ltb→lt, lt→ltb, not-ltb→le, not-leb→lt, leb→le, le→leb, ==_iff,
  Bool-cases, Option-cases, length, get_elem?, set, take, drop, All, length-append,
  take-append-drop, length-drop, eq_bytes, eq_bytes→eq, eq_bytes_refl,
}
use mathlib.Core.Option
use tox_suite.Base.Int.{ℤ, pos, negsuc}
use tox_suite.Base.Texts.{codes, c_string}
use tox_suite.Commands.{atoi, is_zero}

-- sizeof (line)
abbrev pub line_size : ℕ
line_size = 4096

-- What fgets reads one after another: lines with their newline, cut after 4095 bytes. `room` is what
-- still fits after the line so far.
abbrev pub fgets_lines : ℕ → List ℕ → List ℕ → List (List ℕ)
fgets_lines room [] [] = []
fgets_lines room (c ∷ line) [] = (c ∷ line) ∷ []
fgets_lines room line (c ∷ s) = elim (c == 10 || room == 1) [
  | true ↦ (line ++ c ∷ []) ∷ fgets_lines (line_size - 1) [] s
  | false ↦ fgets_lines (room - 1) (line ++ c ∷ []) s
]

-- The text before the first delimiter and what follows that delimiter.
abbrev pub until : ℕ → List ℕ → List ℕ × List ℕ
until delim [] = ([], [])
until delim (c ∷ s) =
    let (token, rest) = until delim s in if c == delim then ([], s) else (c ∷ token, rest)

-- strtok with one delimiter: the token and where the next call goes on.
abbrev pub strtok : ℕ → List ℕ → Option (List ℕ × List ℕ)
strtok delim [] = none
strtok delim (c ∷ s) = elim (c == delim) [
  | true ↦ strtok delim s
  | false ↦ some (until delim (c ∷ s))
]

-- strchr (key, '#') != NULL
abbrev pub has_hash : List ℕ → Bool
has_hash [] = false
has_hash (c ∷ s) = c == b'#' || has_hash s

-- The body of the loop: the value, if the line has it.
unfoldable pub value_in : List ℕ → List ℕ → Option (List ℕ)
value_in keyname line = elim (strtok b'=' (c_string line)) [
  | none ↦ none
  | some (key, rest) ↦ elim (strtok 10 rest) [
    | none ↦ none
    | some (value, end) ↦ if not (eq_bytes keyname key) || has_hash key then none else some value
  ]
]

unfoldable pub first_value : List ℕ → List (List ℕ) → Option (List ℕ)
first_value keyname [] = none
first_value keyname (line ∷ lines) = elim (value_in keyname line) [
  | none ↦ first_value keyname lines
  | some value ↦ some value
]

-- fp is the contents of the file, or NULL.
unfoldable pub get_conf_str : Option (List ℕ) → List ℕ → Option (List ℕ)
unfolding first_value
get_conf_str fp keyname = elim fp [
  | none ↦ none
  | some bytes ↦ first_value keyname (fgets_lines (line_size - 1) [] bytes)
]

unfoldable pub get_conf_int : Option (List ℕ) → List ℕ → ℤ
get_conf_int fp keyname = elim (get_conf_str fp keyname) [
  | none ↦ negsuc 0
  | some strnum ↦
      let number = atoi strnum in
      if is_zero number && not (eq_bytes strnum (codes "0")) then negsuc 0 else number
]
