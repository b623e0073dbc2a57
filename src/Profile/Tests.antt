-- ===== src/Profile/Tests.antt =====
-- Runs of the code of src/toxdata.c at concrete inputs.
use tox_suite.Base.{
  ℕ, zero, suc, ◌+◌, ◌-◌, ◌<◌, ◌≡◌, refl, inr, Bool, true, false, Option, none, some, List, [], ◌∷◌,
  map, arith, ◌==◌, if◌then◌else◌, length, take, All,
}
use tox_suite.Base.Int.{ℤ, pos}
use tox_suite.Base.Texts.{codes}
use tox_suite.Base.Ordered.{insert_before}
use tox_suite.Sodium.{Sodium}
use tox_suite.Tox.Recorder.{recorder, Call, plain_sodium}
use tox_suite.Friend.{
  friends_info_init, friends_info_update, friend_info_update, add_all, friend_info_add_entry,
  toupper, FriendInfo,
}
use tox_suite.Transfer.Receive.{Disk}
use tox_suite.Profile.{
  exit_success, PassCrypt, start, load_profile, save_profile, export_keys, import_keys,
}
use tox_suite.Profile.Saving.{IsPassCrypt, load_profile-save_profile_encrypted}
use tox_suite.Profile.Keys.{IsHex, key_line, add_keys, import_keys-export_keys}
use tox_suite.Profile.Copying.{IsProfile, tool, exporting, importing, tool_copies}
use tox_suite.Profile.Tool.{Options}

-- A cipher that only marks its text with a byte 1 and the length of the passphrase.
abbrev is_marked : List ℕ → Bool
is_marked [] = false
is_marked (c ∷ s) = c == 1

abbrev unmark : List ℕ → List ℕ → Option (List ℕ)
unmark [] pass = none
unmark (c ∷ []) pass = none
unmark (c ∷ n ∷ s) pass = if n == length pass then some s else none

abbrev marking : PassCrypt
marking = record {
  extra_length = 2;
  is_encrypted = is_marked;
  encrypt = λ salt plain pass. inr (1 ∷ length pass ∷ plain);
  decrypt = unmark;
}

marked :
    (salt plain pass c : List ℕ)
    → marking.encrypt salt plain pass ≡ inr c
    → 1 ∷ length pass ∷ plain ≡ c
marked salt plain pass c e = ground arith

marking-IsPassCrypt : IsPassCrypt marking
marking-IsPassCrypt = record {
  marks = λ salt plain pass c e. rw (← marked salt plain pass c e) refl;
  extends = λ salt plain pass c e. rw (← marked salt plain pass c e) (omega arith);
  decrypts = λ salt plain pass c e. rw (← marked salt plain pass c e) (ground arith);
}

abbrev no_disk : Disk
no_disk name = none

abbrev any_name : List ℕ → Bool
any_name name = true

-- The saved data are two bytes.
abbrev two_bytes : List Call → List ℕ
two_bytes t = 8 ∷ 9 ∷ []

abbrev new_client : List ℕ → Option (List Call) × Bool
new_client bytes = (some [], true)

load_profile-save_profile_encrypted_example :
    (disk' : Disk) × (save_profile marking recorder two_bytes any_name [] no_disk []
        (codes "p")
        (some (codes "abc"))
      ≡ (pos 0, disk'))
    × (load_profile marking recorder new_client disk'
          (λ name. some 4)
          none
          (0 ∷ 0 ∷ 77 ∷ 78 ∷ [])
          (codes "p")
          (some (codes "abc"))
        ≡ start marking recorder new_client (8 ∷ 9 ∷ 77 ∷ 78 ∷ []))
load_profile-save_profile_encrypted_example =
    load_profile-save_profile_encrypted marking recorder new_client two_bytes any_name
      marking-IsPassCrypt [] no_disk [] (codes "p") (λ name. some 4) none (0 ∷ 0 ∷ 77 ∷ 78 ∷ [])
      (codes "abc") (1 ∷ 3 ∷ 8 ∷ 9 ∷ []) refl refl refl

abbrev repeat : ℕ → ℕ → List ℕ
repeat zero c = []
repeat (suc n) c = c ∷ repeat n c

-- The keys are 64 digits, which libsodium is taken to read as 32 bytes.
abbrev hex_sodium : Sodium
hex_sodium = record plain_sodium { hex2bin = take 32 }

abbrev friend : ℕ → ℕ → FriendInfo
friend number digit = record {
  friend_number = number;
  name = none;
  status_message = none;
  tox_id_bin = repeat 32 digit;
  last_online = 0;
  status = 0;
  connection_status = 0;
  tox_id_hex = repeat 64 digit;
}

friend-IsHex : IsHex (repeat 64 b'7')
friend-IsHex = record { text = omega arith; size = refl; one_line = omega arith }

import_keys-export_keys_example :
    (disk' : Disk) × (export_keys any_name no_disk (codes "k") (friend 3 b'7' ∷ []) ≡ (true, disk'))
    × ((import_keys hex_sodium recorder disk' (friend 0 0) [] [] (codes "k")).0 ≡ true)
    × ((import_keys hex_sodium recorder disk' (friend 0 0) [] [] (codes "k")).1
        ≡ add_keys hex_sodium recorder [] (repeat 32 b'7' ∷ []))
import_keys-export_keys_example =
    import_keys-export_keys hex_sodium recorder any_name no_disk (codes "k") (friend 3 b'7' ∷ [])
      refl ((friend-IsHex, refl), tt) (friend 0 0) [] []

-- The saved data tell how many calls changed the client.
abbrev counted : List Call → List ℕ
counted t = (length t + 2) ∷ []

-- A key of one byte n is written as 64 digits n, and read from the first digit.
abbrev first_digit : List ℕ → List ℕ
first_digit [] = []
first_digit (c ∷ s) = (c - 48) ∷ []

abbrev all_digits : List ℕ → List ℕ
all_digits [] = []
all_digits (c ∷ s) = repeat 64 (48 + c)

abbrev digit_sodium : Sodium
digit_sodium = record plain_sodium { bin2hex = all_digits; hex2bin = first_digit }

-- The two profiles differ by one byte.
abbrev two_profiles : Disk
two_profiles name = some (length name ∷ 8 ∷ [])

two_profiles-IsProfile :
    (name : List ℕ)
    → (length name == 1) ≡ false
    → IsProfile marking digit_sodium recorder new_client counted any_name any_name
        (friend 0 0)
        []
        []
        0
        two_profiles
        name
        (length name ∷ 8 ∷ [])
        []
two_profiles-IsProfile name n = record { stored = refl; clear = n; starts = refl; allowed = refl }

digit-IsHex : (n : ℕ) → n < 10 → IsHex (repeat 64 (48 + n))
digit-IsHex n h = record { text = omega arith; size = refl; one_line = omega arith }

recorded_keys :
    All
      (λ f. IsHex f.tox_id_hex × (digit_sodium.hex2bin (key_line f) ≡ f.tox_id_bin))
      (friends_info_init digit_sodium recorder (friend 0 0) [] [])
unfolding friends_info_init friends_info_update friend_info_update add_all friend_info_add_entry
    insert_before toupper
recorded_keys = (
  (digit-IsHex 2 (omega arith), refl),
  ((digit-IsHex 5 (omega arith), refl), ((digit-IsHex 9 (omega arith), refl), tt)),
)

abbrev run : Options → Disk → Option (ℤ × Disk)
run = tool marking digit_sodium recorder new_client counted any_name any_name (friend 0 0) [] [] 0

tool_copies_example :
    (disk' : Disk) × (disk'' : Disk) × (run (exporting (codes "k") (codes "aa")) two_profiles
      ≡ some (exit_success, disk'))
    × (run (importing (codes "k") (codes "bbb")) disk' ≡ some (exit_success, disk''))
    × (disk'' (codes "bbb")
        ≡ some (
            counted (
              add_keys digit_sodium recorder [] (
                map
                  (λ f. f.tox_id_bin)
                  (friends_info_init digit_sodium recorder (friend 0 0) [] [])))))
tool_copies_example =
    tool_copies marking digit_sodium recorder new_client counted any_name any_name (friend 0 0) []
      [] 0 two_profiles (codes "k") (codes "aa") (codes "bbb") (2 ∷ 8 ∷ []) (3 ∷ 8 ∷ []) [] []
      (two_profiles-IsProfile (codes "aa") refl) (two_profiles-IsProfile (codes "bbb") refl) refl
      refl refl recorded_keys

abbrev locked_disk : Disk
locked_disk name = some (1 ∷ 2 ∷ 65 ∷ [])
