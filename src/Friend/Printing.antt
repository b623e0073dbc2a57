-- ===== src/Friend/Printing.antt =====
-- friend_info_print and friends_info_print of src/friend.c: the texts of their calls of fprintf,
-- one after another.
use tox_suite.Base.{
  ℕ, zero, suc, ◌-◌, ◌%◌, Option, none, some, List, [], ◌∷◌, ◌++◌, ◌==◌, if◌then◌else◌, length,
  take,
}
use tox_suite.Base.Decimal.{decimal}
use tox_suite.Base.Digits.{signed_decimal}
use tox_suite.Base.Int.{pos}
use tox_suite.Base.Results.{◌>>=◌}
use tox_suite.Base.Texts.{codes, c_string}
use tox_suite.Base.Words.{to_i32}
use tox_suite.Misc.Client.{string_text}
use tox_suite.Friend.{FriendInfo, friends_info_number_of_friend}

abbrev pub spaces : ℕ → List ℕ
spaces zero = []
spaces (suc n) = b' ' ∷ spaces n

-- "%-20s" and the like, and "%3d".
abbrev pub pad_right : ℕ → List ℕ → List ℕ
pad_right width s = s ++ spaces (width - length s)

abbrev pub pad_left : ℕ → List ℕ → List ℕ
pad_left width s = spaces (width - length s) ++ s

-- A line with its newline.
abbrev pub line : List ℕ → List ℕ
line s = s ++ 10 ∷ []

abbrev pub status_text : ℕ → List ℕ
status_text status =
    if status == 0
    then codes "online"
    else if status == 1
    then codes "away"
    else if status == 2
    then codes "busy"
    else []

-- NULL for the friend is a fault.
unfoldable pub friend_info_print : List ℕ → Option FriendInfo → Option (List (List ℕ))
friend_info_print null_text none = none
friend_info_print null_text (some f) = some (
    line (codes "Name : " ++ string_text null_text f.name)
    ∷ line (codes "Status message : " ++ string_text null_text f.status_message)
    ∷ line (codes "Tox Public key : " ++ c_string f.tox_id_hex)
    ∷ line (codes "Status : " ++ status_text f.status)
    ∷ [])

-- "%c" writes one byte.
abbrev pub status_char : ℕ → ℕ
status_char status =
    if status == 0
    then b'O'
    else if status == 1
    then b'X'
    else if status == 2
    then b'/'
    else status % 256

abbrev pub connection_char : ℕ → ℕ
connection_char connection_status = if connection_status == 0 then b'X' else b'0'

-- `ctime` gives the date with its newline, or NULL, which strdup takes for a fault.
module _ (null_text : List ℕ) (ctime : ℕ → Option (List ℕ)) where
  unfoldable pub date_cell : ℕ → Option (List ℕ)
  date_cell last_online =
      if last_online == 0 then some (codes " | " ++ spaces 24) else elim (ctime last_online) [
        | none ↦ none
        | some date ↦ some (codes " | " ++ take (length (c_string date) - 1) (c_string date))
      ]

  unfoldable pub friend_row : FriendInfo → Option (List (List ℕ))
  friend_row f = do
    date ← date_cell f.last_online
    some (
        (codes "| " ++ pad_left 3 (signed_decimal (to_i32 (pos f.friend_number))))
        ∷ (codes " | " ++ pad_right 64 (c_string f.tox_id_hex))
        ∷ (codes " | " ++ pad_right 20 (string_text null_text f.name))
        ∷ (codes " | " ++ pad_right 90 (string_text null_text f.status_message))
        ∷ date
        ∷ (codes " | " ++ status_char f.status ∷ [])
        ∷ (codes " | " ++ connection_char f.connection_status ∷ [])
        ∷ line (codes " | ")
        ∷ [])

  unfoldable pub friend_rows : List FriendInfo → Option (List (List ℕ))
  friend_rows [] = some []
  friend_rows (f ∷ friends_info) = do
    row ← friend_row f
    rows ← friend_rows friends_info
    some (row ++ rows)

  abbrev rule : ℕ → List ℕ
  rule zero = []
  rule (suc n) = b'-' ∷ rule n

  unfoldable pub friends_info_print : List FriendInfo → Option (List (List ℕ))
  friends_info_print friends_info = do
    rows ← friend_rows friends_info
    some (
        line (
          codes "| "
          ++ (pad_left 3 (decimal (friends_info_number_of_friend friends_info))
              ++ (codes " | "
                  ++ (pad_right 64 (codes "< Public Key >")
                      ++ (codes " | "
                          ++ (pad_right 20 (codes "<name (truncated)>")
                              ++ (codes " | "
                                  ++ (pad_right 90 (codes "<status message (truncated)>")
                                      ++ (codes " | "
                                          ++ (pad_right 24 (codes "<last online>")
                                              ++ codes " | S | C |"))))))))))
        ∷ line (
            codes "|----:|"
            ++ (rule 66
                ++ (codes "|"
                    ++ (rule 22
                        ++ (codes "|"
                            ++ (rule 92 ++ (codes "|:" ++ (rule 24 ++ codes ":|---|---|"))))))))
        ∷ rows)
