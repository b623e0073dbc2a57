-- ===== src/Commands.antt =====
-- src/callbacks.c: the commands that a friend gives to the bot. `none` as a result is a fault: a
-- write past the array of arguments, or a NULL or dangling pointer.
pub mod Execute
pub mod Parsing
pub mod Packs
pub mod Asking
pub mod Arguments
pub mod Replies
pub mod Dialogue
pub mod Buffered
pub mod Answers
pub mod Xdcc
pub mod Announcing
pub mod Samples
mod Tests
mod TalkTests
use tox_suite.Base.{
  ℕ, zero, suc, ◌+◌, ◌-◌, ◌*◌, ◌/◌, ◌%◌, ◌^◌, ◌≤◌, ◌<◌, ◌≡◌, refl, sym, ap, ◌∙◌, ◌≢◌, ◌↔◌, ◌⊎◌, inl,
  inr, Bool, true, false, ◌&&◌, ◌||◌, not, Option, none, some, List, [], ◌∷◌, ◌++◌, map, arith, ltb,
  leb, ◌==◌, if◌then◌else◌, ltb→lt, lt→ltb, not-ltb→le, not-leb→lt, leb→le, le→leb, ==_iff,
  Bool-cases, Option-cases, length, get_elem?, set, take, drop, All, length-append,
  take-append-drop, length-drop, eq_bytes, eq_bytes→eq, eq_bytes_refl,
}
use mathlib.Core.Option
use tox_suite.Base.Decimal.{decimal}
use tox_suite.Base.Digits.{signed_decimal, read_digits}
use tox_suite.Base.Heap.{Heap, load}
use tox_suite.Base.Int.{ℤ, pos, negsuc, ltb_ℤ, sub_ℕ, beq_ℤ}
use tox_suite.Base.Results.{◌>>=◌}
use tox_suite.Base.Texts.{codes, c_string}
use tox_suite.Base.Words.{to_i32}
use tox_suite.Misc.Text.{gnu_basename}
use tox_suite.Misc.Sizes.{human_readable_filesize}
use tox_suite.Tox.{Tox}
use tox_suite.Transfer.{FileNode, FileSender, tox_file_id_length}
use tox_suite.Transfer.Filesend.{FileSendResult, Packlist, file_sender_new}

abbrev pub max_args_size : ℕ
max_args_size = 20

abbrev pub max_args_num : ℕ
max_args_num = 3

-- strchr and the terminator that is put there: the text before the first space and what follows it.
abbrev pub split_space : List ℕ → List ℕ × Option (List ℕ)
split_space [] = ([], none)
split_space (c ∷ cmd) =
    let (arg, end) = split_space cmd in if c == b' ' then ([], some cmd) else (c ∷ arg, end)

-- strcpy into args[n]. The array is a block of 60 bytes: a text that is too long goes on in the
-- next argument, and past the end it is a fault.
unfoldable pub put_arg : ℕ → List ℕ → List ℕ → Option (List ℕ)
put_arg n s args =
    let at = n * max_args_size in
    if ltb (max_args_num * max_args_size) (at + length s + 1)
    then none
    else some (take at args ++ (s ++ 0 ∷ drop (at + length s + 1) args))

-- args[n] as a C string.
abbrev pub arg_of : List ℕ → ℕ → List ℕ
arg_of args n = c_string (drop (n * max_args_size) args)

-- The loop of parse_command, with the number of arguments that may still follow.
unfoldable pub parse_args : ℕ → ℕ → List ℕ → List ℕ → Option (ℕ × List ℕ)
parse_args zero num_args cmd args = some (num_args, args)
parse_args (suc left) num_args cmd args = elim (put_arg num_args (split_space cmd).0 args) [
  | none ↦ none
  | some args' ↦ elim (split_space cmd).1 [
    | none ↦ some (num_args + 1, args')
    | some end ↦ parse_args left (num_args + 1) end args'
  ]
]

abbrev repeat_zero : ℕ → List ℕ
repeat_zero zero = []
repeat_zero (suc n) = 0 ∷ repeat_zero n

-- The array after memset.
abbrev pub no_args : List ℕ
no_args = repeat_zero (max_args_num * max_args_size)

unfoldable pub parse_command : List ℕ → Option (ℕ × List ℕ)
unfolding parse_args
parse_command cmd = parse_args max_args_num 0 cmd no_args

abbrev pub is_space : ℕ → Bool
is_space c = c == 32 || (leb 9 c && leb c 13)

-- strtol clamps at the bounds of a long, and its result is cut to an int.
abbrev pub clamp : ℕ → ℕ → ℕ
clamp bound n = if ltb bound n then bound else n

unfoldable pub atoi : List ℕ → ℤ
atoi [] = pos 0
atoi (c ∷ s) =
    let rest = atoi s in
    if is_space c
    then rest
    else if c == b'-'
    then to_i32 (sub_ℕ 0 (clamp (2 ^ 63) (read_digits 0 s).0))
    else if c == b'+'
    then to_i32 (pos (clamp (2 ^ 63 - 1) (read_digits 0 s).0))
    else to_i32 (pos (clamp (2 ^ 63 - 1) (read_digits 0 (c ∷ s)).0))

-- fnode[packn]->exists; out of the array it is a fault.
abbrev pub exists_at : List FileNode → ℤ → Option Bool
exists_at fnode (pos n) = elim (get_elem? fnode n) [ none ↦ none | some f ↦ some f.exists ]
exists_at fnode (negsuc n) = none

abbrev pub is_zero : ℤ → Bool
is_zero (pos n) = n == 0
is_zero (negsuc n) = false

abbrev pub is_minus_one : ℤ → Bool
is_minus_one (pos n) = false
is_minus_one (negsuc n) = n == 0

-- The tests of a pack number, up to the first that holds; the outer `none` is a fault, the inner
-- one the answer that the number was not found; `low` is the least number that the command takes,
-- and `is_text` says that the argument is no number.
unfoldable pub checked_pack : ℤ → List FileNode → Bool → ℤ → Option (Option ℤ)
checked_pack low fnode is_text packn =
    if is_text || ltb_ℤ packn low || not (ltb_ℤ packn (pos (length fnode)))
    then some none
    else if is_minus_one packn
    then some (some packn)
    else Option.map (λ exists. if exists then some packn else none) (exists_at fnode packn)

-- The pack that an argument names.
unfoldable pub wanted_pack : ℤ → List FileNode → List ℕ → Option (Option ℤ)
unfolding atoi checked_pack
wanted_pack low fnode arg =
    let packn = atoi arg in
    checked_pack low fnode (is_zero packn && not (eq_bytes arg (codes "0"))) packn
