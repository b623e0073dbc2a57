-- ===== src/Profile.antt =====
-- src/toxdata.c: the profile of the client, loaded and saved with or without a passphrase, and the
-- files of public keys.
pub mod Saving
pub mod Keys
pub mod Removing
pub mod Tool
pub mod Copying
mod Tests
use tox_suite.Base.{
  ℕ, zero, suc, ◌+◌, ◌-◌, ◌*◌, ◌/◌, ◌%◌, ◌^◌, ◌≤◌, ◌<◌, ◌≡◌, refl, sym, ap, ◌∙◌, ◌≢◌, ◌↔◌, ◌⊎◌, inl,
  inr, Bool, true, false, ◌&&◌, ◌||◌, not, Option, none, some, List, [], ◌∷◌, ◌++◌, map, arith, ltb,
  leb, ◌==◌, if◌then◌else◌, ltb→lt, lt→ltb, not-ltb→le, not-leb→lt, leb→le, le→leb, ==_iff,
  Bool-cases, Option-cases, length, get_elem?, set, take, drop, All, length-append,
  take-append-drop, length-drop, eq_bytes, eq_bytes→eq, eq_bytes_refl,
}
use mathlib.Core.Option
use tox_suite.Base.Entries.{find_index, modify, erase_at, deref}
use tox_suite.Base.Int.{ℤ, pos, negsuc}
use tox_suite.Base.Texts.{codes, c_string}
use tox_suite.Sodium.{Sodium}
use tox_suite.Tox.{Tox}
use tox_suite.Friend.{
  FriendInfo, tox_public_key_size, friend_info_add_entry, friend_info_update,
  friend_info_by_public_keyhex, friend_info_destroy,
}
use tox_suite.Transfer.Receive.{Disk, store}

-- The calls of toxencryptsave, and the length that an encryption adds. An encryption depends on a
-- random salt; what it returns on the left is its error.
pub record PassCrypt : Type 0 where
  pub extra_length : ℕ
  pub is_encrypted : List ℕ → Bool
  pub encrypt : List ℕ → List ℕ → List ℕ → ℕ ⊎ List ℕ
  pub decrypt : List ℕ → List ℕ → Option (List ℕ)

-- EXIT_SUCCESS, EXIT_FAILURE and the -1 of the other errors.
abbrev pub exit_success : ℤ
exit_success = pos 0

abbrev pub exit_failure : ℤ
exit_failure = pos 1

abbrev pub error_code : ℤ
error_code = negsuc 0

module _ (crypt : PassCrypt) (tox : Tox) where
  -- tox_new of saved data gives a client, or NULL, and whether it reports TOX_ERR_NEW_OK.
  module _ (new : List ℕ → Option tox.State × Bool) where
    abbrev pub start : List ℕ → ℤ × Option tox.State
    start saved = ((if (new saved).1 then exit_success else exit_failure), (new saved).0)

    -- `old` is the client before; `junk` is what malloc returned for the deciphered data, of which
    -- file_size bytes are given to tox_new.
    unfoldable pub load_profile :
        (fopen : List ℕ → Option (List ℕ)) (stat : List ℕ → Option ℕ)
        → Option tox.State
        → List ℕ
        → List ℕ
        → Option (List ℕ)
        → ℤ × Option tox.State
    load_profile fopen stat old junk data_filename passphrase = elim (fopen data_filename) [
      | none ↦ (error_code, old)
      | some bytes ↦ elim (stat data_filename) [
        | none ↦ (error_code, old)
        | some file_size ↦
            if ltb (length bytes) file_size
            then (exit_failure, old)
            else (let save_data = take file_size bytes in
                if not (crypt.is_encrypted save_data) then start save_data else elim passphrase [
                  | none ↦ (exit_failure, old)
                  | some pass ↦ elim (crypt.decrypt save_data pass) [
                    | none ↦ (exit_failure, old)
                    | some clear ↦ start (take file_size (clear ++ drop (length clear) junk))
                  ]
                ])
      ]
    ]

  module _ (get_savedata : tox.State → List ℕ) (writable : List ℕ → Bool) where
    abbrev pub write_profile : Disk → List ℕ → List ℕ → ℤ × Disk
    write_profile disk filename bytes =
        if writable filename then (pos 0, store disk filename bytes) else (error_code, disk)

    unfoldable pub save_profile : List ℕ → Disk → tox.State → List ℕ → Option (List ℕ) → ℤ × Disk
    save_profile salt disk t filename passphrase = elim passphrase [
      | none ↦ write_profile disk filename (get_savedata t)
      | some pass ↦ elim (crypt.encrypt salt (get_savedata t) pass) [
        | inl err ↦ (pos err, disk)
        | inr encrypted ↦ write_profile disk filename encrypted
      ]
    ]

-- A line for each friend.
unfoldable pub key_lines : List FriendInfo → List ℕ
key_lines [] = []
key_lines (f ∷ friends_info) = c_string f.tox_id_hex ++ 10 ∷ key_lines friends_info

-- Whether it returns 0, and the disk.
unfoldable pub export_keys : (List ℕ → Bool) → Disk → List ℕ → List FriendInfo → Bool × Disk
unfolding key_lines
export_keys writable disk filename friends_info =
    if writable filename
    then (true, store disk filename (key_lines friends_info))
    else (false, disk)

-- What getline returns one after another: lines with their newline, and a last one without.
abbrev pub lines_onto : List ℕ → List ℕ → List (List ℕ)
lines_onto [] [] = []
lines_onto (c ∷ line) [] = (c ∷ line) ∷ []
lines_onto line (c ∷ s) = elim (c == 10) [
  | true ↦ (line ++ 10 ∷ []) ∷ lines_onto [] s
  | false ↦ lines_onto (line ++ c ∷ []) s
]

abbrev pub is_key_line : List ℕ → Bool
is_key_line line = length (c_string line) == tox_public_key_size * 2 + 1

module _ (sodium : Sodium) (tox : Tox) where
  -- The pointer that friend_info_add_entry returns.
  abbrev pub added_at : List FriendInfo → ℕ → ℕ
  added_at friends_info n =
      Option.get_or (find_index (λ e. ltb n e.friend_number) friends_info) (length friends_info)

  -- The body of the loop of import_keys. `fresh` is what malloc returned for an entry.
  unfoldable pub import_key :
      FriendInfo → tox.State → List FriendInfo → List ℕ → tox.State × List FriendInfo
  import_key fresh t friends_info line =
      if not (is_key_line line)
      then (t, friends_info)
      else (let (added, t') = tox.friend_add_norequest t (sodium.hex2bin (c_string line)) in
          elim added [
            | none ↦ (t', friends_info)
            | some n ↦ (
              t',
              modify (added_at friends_info n)
                  (λ f.
                    friend_info_update sodium tox t'
                      (record f { name = some (codes "_IMPORTED_KEY_") }))
                  (friend_info_add_entry fresh friends_info n),
            )
          ])

  unfoldable pub import_lines :
      FriendInfo → tox.State → List FriendInfo → List (List ℕ) → tox.State × List FriendInfo
  unfolding import_key
  import_lines fresh t friends_info [] = (t, friends_info)
  import_lines fresh t friends_info (line ∷ lines) =
      let (t', friends') = import_key fresh t friends_info line in
      import_lines fresh t' friends' lines

  unfoldable pub import_keys :
      (fopen : List ℕ → Option (List ℕ))
      → FriendInfo
      → tox.State
      → List FriendInfo
      → List ℕ
      → Bool × tox.State × List FriendInfo
  unfolding import_lines
  import_keys fopen fresh t friends_info filename = elim (fopen filename) [
    | none ↦ (false, t, friends_info)
    | some bytes ↦
        let (t', friends') = import_lines fresh t friends_info (lines_onto [] bytes) in
        (true, t', friends')
  ]

module _ (tox : Tox) where
  -- The body of the loop of remove_keys.
  unfoldable pub remove_key : tox.State → List FriendInfo → List ℕ → tox.State × List FriendInfo
  remove_key t friends_info line =
      if not (is_key_line line)
      then (t, friends_info)
      else elim (friend_info_by_public_keyhex friends_info (c_string line)) [
        | none ↦ (t, friends_info)
        | some i ↦ elim (get_elem? friends_info i) [
          | none ↦ (t, friends_info)
          | some f ↦
              let (deleted, t') = tox.friend_delete t f.friend_number in
              (t', (if deleted then friend_info_destroy i friends_info else friends_info))
        ]
      ]

  unfoldable pub remove_lines :
      tox.State → List FriendInfo → List (List ℕ) → tox.State × List FriendInfo
  unfolding remove_key
  remove_lines t friends_info [] = (t, friends_info)
  remove_lines t friends_info (line ∷ lines) =
      let (t', friends') = remove_key t friends_info line in remove_lines t' friends' lines

  unfoldable pub remove_keys :
      (fopen : List ℕ → Option (List ℕ))
      → tox.State
      → List FriendInfo
      → List ℕ
      → Bool × tox.State × List FriendInfo
  unfolding remove_lines
  remove_keys fopen t friends_info filename = elim (fopen filename) [
    | none ↦ (false, t, friends_info)
    | some bytes ↦
        let (t', friends') = remove_lines t friends_info (lines_onto [] bytes) in
        (true, t', friends')
  ]
