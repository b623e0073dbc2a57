-- ===== src/Transfer/Receive.antt =====
-- The callbacks of src/file.c that receive a file.
use tox_suite.Base.{
  eq_bytes_refl, refl, ℕ, ◌+◌, ◌^◌, ◌≤◌, ◌<◌, ◌≡◌, ◌≢◌, Bool, true, false, not, Option, some, List,
  [], ◌∷◌, ◌++◌, arith, ◌==◌, if◌then◌else◌, length, drop, length-append, eq_bytes, eq_bytes→eq,
}
use mathlib.Core.Option
use tox_suite.Base.Decimal.{decimal, length-decimal-le}
use tox_suite.Tox.{Tox}

-- TOX_FILE_KIND
pub data FileKind : Type 0 where
  plain avatar : FileKind
  unknown : ℕ → FileKind

module _ (tox : Tox) where
  -- Everything but a plain file is cancelled, and a plain file is accepted. The numbers are those
  -- of TOX_FILE_CONTROL_CANCEL and TOX_FILE_CONTROL_RESUME.
  unfoldable pub file_recv_cb :
      (cancel_code resume_code : ℕ) → tox.State → ℕ → ℕ → FileKind → tox.State
  file_recv_cb cancel_code resume_code t friend_number file_number plain =
      (tox.file_control t friend_number file_number resume_code).1
  file_recv_cb cancel_code resume_code t friend_number file_number avatar =
      (tox.file_control t friend_number file_number cancel_code).1
  file_recv_cb cancel_code resume_code t friend_number file_number (unknown k) =
      (tox.file_control t friend_number file_number cancel_code).1

-- sprintf (filename, "%u.%u.bin", friend_number, file_number)
unfoldable pub chunk_filename : ℕ → ℕ → List ℕ
chunk_filename friend_number file_number =
    decimal friend_number ++ b'.' ∷ (decimal file_number ++ b'.' ∷ b'b' ∷ b'i' ∷ b'n' ∷ [])

-- The files of the working directory: their bytes, by name.
abbrev pub Disk : Type 0
Disk = List ℕ → Option (List ℕ)

abbrev pub store : Disk → List ℕ → List ℕ → Disk
store disk name bytes other = if eq_bytes other name then some bytes else disk other

pub store_self : (disk : Disk) (name bytes : List ℕ) → store disk name bytes name ≡ some bytes
store_self disk name bytes = rw (eq_bytes_refl name) refl

-- fwrite at the start of a file replaces its first bytes.
unfoldable pub overwrite : List ℕ → List ℕ → List ℕ
overwrite old bytes = bytes ++ drop (length bytes) old

-- `writable` says which names fopen can open or create. The stream stands at the start of the file
-- when fseek has failed.
module _ (writable : List ℕ → Bool) (seek_fails : ℕ → Bool) where
  unfoldable pub file_recv_chunk_cb : Disk → ℕ → ℕ → ℕ → List ℕ → Disk
  unfolding overwrite
  file_recv_chunk_cb disk friend_number file_number position bytes =
      let name = chunk_filename friend_number file_number in
      if length bytes == 0
      then disk
      else if not (writable name)
      then disk
      else (let old = Option.get_or (disk name) [] in
          if not (seek_fails position)
          then store disk name old
          else store disk name (overwrite old bytes))

  -- Whatever chunk arrives at a position that fseek accepts, every file keeps the bytes it had; a
  -- file that is created stays empty.
  pub file_recv_chunk_cb_drops :
      (disk : Disk) (friend_number file_number position : ℕ) (bytes name : List ℕ)
      → seek_fails position ≡ false
      → Option.get_or (file_recv_chunk_cb disk friend_number file_number position bytes name) []
        ≡ Option.get_or (disk name) []
  unfolding file_recv_chunk_cb
  file_recv_chunk_cb_drops disk friend_number file_number position bytes name ok =
      ground (arith, eq_bytes→eq name (chunk_filename friend_number file_number), ok)

  -- If fseek fails, a chunk that is not empty replaces the first bytes of the transfer's file,
  -- whatever its position was, and no other file changes.
  pub file_recv_chunk_cb_misplaces :
      (disk : Disk) (friend_number file_number position : ℕ) (bytes name : List ℕ)
      → seek_fails position ≡ true
      → writable (chunk_filename friend_number file_number) ≡ true
      → length bytes ≢ 0
      → file_recv_chunk_cb disk friend_number file_number position bytes name ≡ (
          if eq_bytes name (chunk_filename friend_number file_number)
          then some
              (overwrite (Option.get_or (disk (chunk_filename friend_number file_number)) []) bytes)
          else disk name)
  unfolding file_recv_chunk_cb
  file_recv_chunk_cb_misplaces disk friend_number file_number position bytes name fails opens
        some_bytes =
      ground (arith, fails, opens)

-- The name of a received file fits its buffer of 256 bytes, with the terminator.
pub chunk_filename_fits :
    (friend_number file_number : ℕ)
    → friend_number < 2 ^ 32
    → file_number < 2 ^ 32
    → length (chunk_filename friend_number file_number) + 1 ≤ 26
unfolding chunk_filename
chunk_filename_fits friend_number file_number h k = omega (
  arith,
  length-append (decimal friend_number)
      (b'.' ∷ (decimal file_number ++ b'.' ∷ b'b' ∷ b'i' ∷ b'n' ∷ [])),
  length-append (decimal file_number) (b'.' ∷ b'b' ∷ b'i' ∷ b'n' ∷ []),
  length-decimal-le friend_number 9 (omega arith),
  length-decimal-le file_number 9 (omega arith),
)
