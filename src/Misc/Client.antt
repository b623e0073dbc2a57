-- ===== src/Misc/Client.antt =====
-- The client's own data and the texts about it, of src/misc.c.
use tox_suite.Base.{ℕ, ◌-◌, Option, none, some, List, [], ◌∷◌, ◌++◌, map, take}
use tox_suite.Base.Decimal.{decimal}
use tox_suite.Base.Texts.{codes, c_string}
use tox_suite.Misc.Sizes.{elapsed}
use tox_suite.Sodium.{Sodium}
use tox_suite.Friend.{toupper}

-- What toxcore tells of its client, over its state.
pub record ToxSelf (S : Type 0) : Type 0 where
  pub name : S → List ℕ
  pub status_message : S → List ℕ
  pub address : S → List ℕ
  pub connection_status : S → ℕ
  pub secret_key : S → List ℕ

-- struct client_info; NULL is `none`.
pub record ClientInfo : Type 0 where
  pub name : Option (List ℕ)
  pub status_message : Option (List ℕ)
  pub tox_id_bin : List ℕ
  pub tox_id_hex : List ℕ
  pub connect : ℕ

-- What "%s" writes; `null_text` is what the C library writes for NULL.
abbrev pub string_text : List ℕ → Option (List ℕ) → List ℕ
string_text null_text none = null_text
string_text null_text (some s) = c_string s

-- The other fields keep what they held.
unfoldable pub client_info_new : ClientInfo → ClientInfo
client_info_new own_info = record own_info { name = none; status_message = none }

module _ (sodium : Sodium) where
  unfoldable pub client_info_update : {S : Type 0} → ToxSelf S → S → ClientInfo
  unfolding toupper
  client_info_update self apptox = record {
    name = some (self.name apptox);
    status_message = some (self.status_message apptox);
    tox_id_bin = self.address apptox;
    tox_id_hex = map toupper (sodium.bin2hex (self.address apptox));
    connect = self.connection_status apptox;
  }

  -- strdup of the text.
  unfoldable pub human_readable_id : List ℕ → List ℕ
  human_readable_id address = c_string (sodium.bin2hex address)

  -- `behind` is what the buffer, made for an address, holds behind the key's digits, of which
  -- `toupper` is applied to all but the last byte.
  unfoldable pub print_secretkey : {S : Type 0} → ToxSelf S → S → List ℕ → List ℕ
  unfolding toupper
  print_secretkey self apptox behind =
      codes "Secret key : "
      ++ (c_string (map toupper (sodium.bin2hex (self.secret_key apptox) ++ 0 ∷ behind)) ++ 10 ∷ [])

-- The texts of the calls of fprintf, one after another.
unfoldable pub client_info_print : List ℕ → ClientInfo → List (List ℕ)
client_info_print null_text own_info =
    (codes "Name : " ++ (string_text null_text own_info.name ++ 10 ∷ []))
    ∷ (codes "tox:" ++ (c_string own_info.tox_id_hex ++ 10 ∷ []))
    ∷ (codes
          "----------------------------------- Status message -----------------------------------"
        ++ 10 ∷ [])
    ∷ (string_text null_text own_info.status_message ++ 10 ∷ [])
    ∷ (codes
          "--------------------------------------------------------------------------------------"
        ++ 10 ∷ [])
    ∷ []

-- snprintf keeps bufsize - 1 bytes of the text.
unfoldable pub get_elapsed_time_str : ℕ → ℕ → List ℕ
unfolding elapsed
get_elapsed_time_str bufsize secs =
    let (days, hours, minutes) = elapsed secs in
    take (bufsize - 1) (
      decimal days
      ++ (codes "d " ++ (decimal hours ++ (codes "h " ++ (decimal minutes ++ codes "m")))))
