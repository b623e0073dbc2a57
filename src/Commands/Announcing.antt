-- ===== src/Commands/Announcing.antt =====
-- group_chat_init and on_new_file of src/callbacks.c: a groupchat is told of new files.
use tox_suite.Base.{
  ℕ, ◌+◌, ◌-◌, ◌^◌, ◌≤◌, ◌<◌, ◌≡◌, refl, sym, ap, ◌∙◌, false, Option, none, some, List, [], ◌∷◌,
  ◌++◌, arith, ltb, if◌then◌else◌, length, take, drop, length-append,
}
use mathlib.Core.List.{append_assoc}
use tox_suite.Base.{take-append}
use tox_suite.Base.{take_all}
use tox_suite.Base.Decimal.{decimal, length-decimal-le}
use tox_suite.Base.Digits.{signed_decimal}
use tox_suite.Base.Int.{ℤ, pos}
use tox_suite.Base.Results.{◌>>=◌}
use tox_suite.Base.Texts.{codes}
use tox_suite.Misc.Text.{gnu_basename}
use tox_suite.Misc.Sizes.{human_readable_filesize, human_readable_filesize_lem}
use tox_suite.Transfer.{FileNode}
use tox_suite.Commands.{is_minus_one}

-- tox_add_groupchat, and tox_group_message_send, of whose failure only the log hears.
pub record Groups (S : Type 0) : Type 0 where
  pub add_groupchat : S → ℤ × S
  pub group_message_send : S → ℤ → List ℕ → S

abbrev pub path_max : ℕ
path_max = 4096

-- sizeof ("New file: # [9999  b]: %s") + PATH_MAX + 32
abbrev pub groupmsg_size : ℕ
groupmsg_size = 26 + path_max + 32

module _ {S : Type 0} (groups : Groups S) where
  -- The new group_chat_number, which is returned as well.
  unfoldable pub group_chat_init : S → ℤ × S
  group_chat_init m = groups.add_groupchat m

  -- What snprintf is to write, without the terminator.
  abbrev pub announcement : ℤ → List ℕ → List ℕ → List ℕ
  announcement packn hu_size path =
      codes "New file: #"
      ++ (signed_decimal packn ++ (codes " [" ++ (hu_size ++ (codes "] " ++ gnu_basename path))))

  -- The bytes of a buffer of this size, cut off by snprintf and with its terminator, that go out;
  -- their count is that of the whole text. More than the buffer holds is a fault.
  unfoldable pub sent_bytes : ℕ → List ℕ → List ℕ → Option (List ℕ)
  sent_bytes size junk text =
      if ltb size (length text + 1)
      then none
      else some (take (length text + 1) (take (size - 1) text ++ 0 ∷ drop (length text + 1) junk))

  unfoldable pub on_new_file : List ℕ → ℤ → FileNode → ℤ → S → Option S
  on_new_file junk group_chat_number fn packn m =
      if is_minus_one group_chat_number then some m else (do
        hu_size ← human_readable_filesize fn.length
        path ← fn.file
        bytes ← sent_bytes groupmsg_size junk (announcement packn hu_size path)
        some (groups.group_message_send m group_chat_number bytes))

  take-terminated :
      (text rest : List ℕ) → take (length text + 1) (text ++ 0 ∷ rest) ≡ text ++ 0 ∷ []
  take-terminated text rest =
      ap (take (length text + 1)) (sym (append_assoc text (0 ∷ []) rest))
      ∙ ap (λ n. take n ((text ++ 0 ∷ []) ++ rest)) (sym (length-append text (0 ∷ [])))
      ∙ take-append (text ++ 0 ∷ []) rest

  sent_bytes_fits :
      (size : ℕ) (junk text : List ℕ)
      → length text < size
      → sent_bytes size junk text ≡ some (text ++ 0 ∷ [])
  unfolding sent_bytes
  sent_bytes_fits size junk text fits =
      rw (room, take_all (size - 1) text (omega arith))
        (ap some (take-terminated text (drop (length text + 1) junk)))
    where
      room : ltb size (length text + 1) ≡ false
      room = ground arith

  announcement_fits :
      (n m c : ℕ) (path : List ℕ)
      → n < 2 ^ 31
      → m ≤ 9999
      → length (gnu_basename path) < path_max
      → length (announcement (pos n) (decimal m ++ b' ' ∷ c ∷ b'b' ∷ []) path) < groupmsg_size
  announcement_fits n m c path small few short =
      let hu_size = decimal m ++ b' ' ∷ c ∷ b'b' ∷ [] in
      omega (
        arith,
        length-append (decimal n) (codes " [" ++ (hu_size ++ (codes "] " ++ gnu_basename path))),
        length-append hu_size (codes "] " ++ gnu_basename path),
        length-append (decimal m) (b' ' ∷ c ∷ b'b' ∷ []),
        length-decimal-le n 9 (omega arith),
        length-decimal-le m 3 (omega arith),
      )

  -- A new file is announced whole: with a groupchat, where the file has a path with a base name
  -- below PATH_MAX bytes, a size below 2^63 and a pack number of an int, its size has a text, the
  -- buffer holds the announcement with its terminator, and just these bytes are sent to the
  -- groupchat.
  pub on_new_file_announces :
      (junk : List ℕ) (group_chat_number : ℤ) (fn : FileNode) (n : ℕ) (m : S) (path : List ℕ)
      → is_minus_one group_chat_number ≡ false
      → fn.file ≡ some path
      → fn.length < 2 ^ 63
      → n < 2 ^ 31
      → length (gnu_basename path) < path_max
      → (hu_size : List ℕ) × (human_readable_filesize fn.length ≡ some hu_size)
        × (length (announcement (pos n) hu_size path) + 1 ≤ groupmsg_size)
        × (on_new_file junk group_chat_number fn (pos n) m
            ≡ some (
                groups.group_message_send m group_chat_number
                  (announcement (pos n) hu_size path ++ 0 ∷ [])))
  unfolding on_new_file
  on_new_file_announces junk group_chat_number fn n m path there named sized small short =
      let (k, c, size_text, few) = human_readable_filesize_lem fn.length sized in
      let hu_size = decimal k ++ b' ' ∷ c ∷ b'b' ∷ [] in
      let fits = announcement_fits n k c path small few short in
      (
        hu_size,
        size_text,
        omega (arith, fits),
        rw (there, on_new_file)
            (rw size_text (
              rw named (
                rw (sent_bytes_fits groupmsg_size junk (announcement (pos n) hu_size path) fits)
                  refl))),
      )
