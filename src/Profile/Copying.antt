-- ===== src/Profile/Copying.antt =====
-- Two runs of src/toxdatatool.c, one with --export and one with --import.
use tox_suite.Base.{
  ℕ, ◌≡◌, refl, sym, ap, ◌∙◌, Bool, true, false, Option, none, some, List, [], map, length, All,
  eq_bytes,
}
use mathlib.Core.Option
use tox_suite.Base.Int.{ℤ, pos}
use tox_suite.Sodium.{Sodium}
use tox_suite.Tox.{Tox}
use tox_suite.Friend.{FriendInfo, friends_info_init}
use tox_suite.Transfer.Receive.{store_self, Disk, store}
use tox_suite.Profile.{
  PassCrypt, exit_success, load_profile, save_profile, export_keys, import_keys,
}
use tox_suite.Profile.Keys.{IsHex, key_line, add_keys, import_keys-export_keys}
use tox_suite.Profile.Saving.{load_plain}
use tox_suite.Profile.Tool.{
  Options, saves, size_of, run_export, run_import, run_remove, run_purge, run_client, toxdatatool,
}

-- "toxdatatool -x keys profile"
abbrev pub exporting : List ℕ → List ℕ → Options
exporting keys profile = record {
  passphrase = none;
  exportfile = some keys;
  importfile = none;
  removefile = none;
  purge_delay = 0;
  toxfile = some profile;
}

-- "toxdatatool -i keys profile"
abbrev pub importing : List ℕ → List ℕ → Options
importing keys profile = record {
  passphrase = none;
  exportfile = none;
  importfile = some keys;
  removefile = none;
  purge_delay = 0;
  toxfile = some profile;
}

module _ (crypt : PassCrypt) (sodium : Sodium) (tox : Tox) (new : List ℕ → Option tox.State × Bool)
    (get_savedata : tox.State → List ℕ) (accessible writable : List ℕ → Bool) (fresh : FriendInfo)
    (junk salt : List ℕ) (now : ℕ) where
  -- A profile on the disk that gives this client.
  pub record IsProfile (disk : Disk) (name bytes : List ℕ) (t : tox.State) : Type 0 where
    pub stored : disk name ≡ some bytes
    pub clear : crypt.is_encrypted bytes ≡ false
    pub starts : new bytes ≡ (some t, true)
    pub allowed : accessible name ≡ true

  abbrev pub tool : Options → Disk → Option (ℤ × Disk)
  tool = toxdatatool crypt sodium tox new get_savedata accessible writable fresh junk salt now

  abbrev client : Options → List ℕ → Disk → tox.State → Disk
  client = run_client crypt sodium tox new get_savedata accessible writable fresh junk salt now

  tool_runs :
      (o : Options) (disk : Disk) (name bytes : List ℕ) (t : tox.State)
      → o.toxfile ≡ some name
      → IsProfile disk name bytes t
      → tool o disk ≡ some (exit_success, client o name disk t)
  unfolding toxdatatool run_client saves
  tool_runs o disk name bytes t n p = rw (n, toxdatatool) (rw (p.allowed, loads) refl)
    where
      size : size_of disk name ≡ some (length bytes)
      size = ap (Option.map length) p.stored

      loads :
          load_profile crypt tox new disk (size_of disk) none junk name o.passphrase
          ≡ (pos 0, some t)
      loads =
          load_plain crypt tox new get_savedata writable disk (size_of disk) none junk name bytes
            o.passphrase p.stored size p.clear
          ∙ rw p.starts refl

  client_exports :
      (keys name : List ℕ) (disk : Disk) (t : tox.State)
      → client (exporting keys name) name disk t
        ≡ (export_keys writable disk keys (friends_info_init sodium tox fresh t [])).1
  unfolding run_client saves run_export run_import run_remove run_purge
  client_exports keys name disk t = refl

  client_imports :
      (keys name : List ℕ) (disk : Disk) (t : tox.State)
      → writable name ≡ true
      → client (importing keys name) name disk t
        ≡ store disk name (
            get_savedata
              (import_keys sodium tox disk fresh t
                (friends_info_init sodium tox fresh t [])
                keys).1)
  unfolding run_client saves run_export run_import run_remove run_purge save_profile
  client_imports keys name disk t w = rw w refl

  other_file :
      (disk disk' : Disk) (keys name : List ℕ) (fs : List FriendInfo)
      → writable keys ≡ true
      → eq_bytes name keys ≡ false
      → export_keys writable disk keys fs ≡ (true, disk')
      → disk' name ≡ disk name
  unfolding export_keys
  other_file disk disk' keys name fs w differs e =
      ap (λ r. r.1 name) (sym e) ∙ rw w (rw differs refl)

  -- Two runs of the tool copy friends: the first exports the keys of one profile's friends to a file, the
  -- second imports them into another profile. Where both profiles are plain, readable and accepted by
  -- tox_new, the file of keys and the second profile can be written and are different files, and the
  -- friends of the first profile have 64 hexadecimal digits that sodium_hex2bin reads as their binary
  -- keys, both runs exit with success and the second profile then holds the data of its client after
  -- each of these keys was added, in the order of the list.
  pub tool_copies :
      (disk : Disk) (keys a b bytes_a bytes_b : List ℕ) (ta tb : tox.State)
      → IsProfile disk a bytes_a ta
      → IsProfile disk b bytes_b tb
      → writable keys ≡ true
      → writable b ≡ true
      → eq_bytes b keys ≡ false
      → All
          (λ f. IsHex f.tox_id_hex × (sodium.hex2bin (key_line f) ≡ f.tox_id_bin))
          (friends_info_init sodium tox fresh ta [])
      → (disk' : Disk) × (disk'' : Disk) × (tool (exporting keys a) disk
          ≡ some (exit_success, disk'))
        × (tool (importing keys b) disk' ≡ some (exit_success, disk''))
        × (disk'' b
            ≡ some (
                get_savedata (
                  add_keys sodium tox tb
                    (map (λ f. f.tox_id_bin) (friends_info_init sodium tox fresh ta [])))))
  tool_copies disk keys a b bytes_a bytes_b ta tb pa pb wk wb differs hex =
      let fs = friends_info_init sodium tox fresh ta [] in
      let gs = friends_info_init sodium tox fresh tb [] in
      let (disk', exported, ok, added) =
        import_keys-export_keys sodium tox writable disk keys fs wk hex fresh tb gs in
      let kept = other_file disk disk' keys b fs wk differs exported in
      let pb' : IsProfile disk' b bytes_b tb = record {
        stored = kept ∙ pb.stored;
        clear = pb.clear;
        starts = pb.starts;
        allowed = pb.allowed;
      } in
      let data_b = get_savedata (import_keys sodium tox disk' fresh tb gs keys).1 in
      (
        disk',
        store disk' b data_b,
        tool_runs (exporting keys a) disk a bytes_a ta refl pa
            ∙ ap (λ d. some (exit_success, d))
                (client_exports keys a disk ta ∙ ap (λ r. r.1) exported),
        tool_runs (importing keys b) disk' b bytes_b tb refl pb'
            ∙ ap (λ d. some (exit_success, d)) (client_imports keys b disk' tb wb),
        store_self disk' b data_b ∙ ap (λ t. some (get_savedata t)) added,
      )
