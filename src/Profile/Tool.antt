-- ===== src/Profile/Tool.antt =====
-- The main function of src/toxdatatool.c behind the parsing of its options: a profile is loaded, the keys
-- of its friends are exported, others imported or removed, old friends purged, and the profile is
-- saved. `none` as a result is a fault: a client that is NULL, or a free of an uninitialised pointer.
use tox_suite.Base.{
  ℕ, zero, Bool, true, false, ◌||◌, Option, none, some, List, [], ltb, if◌then◌else◌, length,
}
use mathlib.Core.Option
use tox_suite.Base.Int.{ℤ, pos}
use tox_suite.Sodium.{Sodium}
use tox_suite.Tox.{Tox}
use tox_suite.Friend.{FriendInfo, friends_info_init, friend_cleanup}
use tox_suite.Transfer.Receive.{Disk}
use tox_suite.Profile.{
  PassCrypt, exit_success, exit_failure, load_profile, save_profile, export_keys, import_keys,
  remove_keys,
}

pub record Options : Type 0 where
  pub passphrase : Option (List ℕ)
  pub exportfile : Option (List ℕ)
  pub importfile : Option (List ℕ)
  pub removefile : Option (List ℕ)
  pub purge_delay : ℕ
  pub toxfile : Option (List ℕ)

abbrev is_given : Option (List ℕ) → Bool
is_given none = false
is_given (some s) = true

-- saveflag
unfoldable pub saves : Options → Bool
saves o =
    is_given o.passphrase || is_given o.importfile || is_given o.removefile || ltb 0 o.purge_delay

-- The size that stat tells.
abbrev pub size_of : Disk → List ℕ → Option ℕ
size_of disk name = Option.map length (disk name)

-- `fresh`, `junk` and `salt` are what malloc returned and the random salt of an encryption, `now` is
-- the time, `accessible` says which files access allows and `writable` which fopen can write.
module _ (crypt : PassCrypt) (sodium : Sodium) (tox : Tox) (new : List ℕ → Option tox.State × Bool)
    (get_savedata : tox.State → List ℕ) (accessible writable : List ℕ → Bool) (fresh : FriendInfo)
    (junk salt : List ℕ) (now : ℕ) where
  unfoldable pub run_export : Option (List ℕ) → Disk → List FriendInfo → Disk
  run_export none disk friends_info = disk
  run_export (some name) disk friends_info = (export_keys writable disk name friends_info).1

  unfoldable pub run_import :
      Option (List ℕ) → Disk → tox.State → List FriendInfo → tox.State × List FriendInfo
  run_import none disk t friends_info = (t, friends_info)
  run_import (some name) disk t friends_info =
      let (ok, t', friends') = import_keys sodium tox disk fresh t friends_info name in
      (t', friends')

  unfoldable pub run_remove :
      Option (List ℕ) → Disk → tox.State → List FriendInfo → tox.State × List FriendInfo
  run_remove none disk t friends_info = (t, friends_info)
  run_remove (some name) disk t friends_info =
      let (ok, t', friends') = remove_keys tox disk t friends_info name in (t', friends')

  unfoldable pub run_purge : ℕ → tox.State → List FriendInfo → tox.State × List FriendInfo
  run_purge purge_delay t friends_info =
      if ltb 0 purge_delay
      then friend_cleanup tox t purge_delay now friends_info
      else (t, friends_info)

  -- The part that has a client; the result of save_profile is not read.
  unfoldable pub run_client : Options → List ℕ → Disk → tox.State → Disk
  run_client o toxfile disk t =
      let friends = friends_info_init sodium tox fresh t [] in
      let exported = run_export o.exportfile disk friends in
      let (t1, friends1) = run_import o.importfile exported t friends in
      let (t2, friends2) = run_remove o.removefile exported t1 friends1 in
      let (t3, friends3) = run_purge o.purge_delay t2 friends2 in
      if saves o
      then (save_profile crypt tox get_savedata writable salt exported t3 toxfile o.passphrase).1
      else exported

  abbrev pub run_loaded : Options → List ℕ → Disk → ℤ × Option tox.State → Option (ℤ × Disk)
  run_loaded o toxfile disk (pos zero, none) = none
  run_loaded o toxfile disk (pos zero, some t) = some (exit_success, run_client o toxfile disk t)
  run_loaded o toxfile disk (code, client) = some (exit_failure, disk)

  -- The exit code and the disk.
  unfoldable pub toxdatatool : Options → Disk → Option (ℤ × Disk)
  toxdatatool o disk = elim o.toxfile [
    | none ↦ none
    | some toxfile ↦
        if accessible toxfile
        then run_loaded o toxfile disk
            (load_profile crypt tox new disk (size_of disk) none junk toxfile o.passphrase)
        else none
  ]
