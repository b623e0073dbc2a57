-- ===== src/Commands/Replies.antt =====
-- What friend_message of src/command.c works with: what getopt_long tells it, the cases of its
-- switch, the texts that it prints and printf_file of src/file.c.
use tox_suite.Base.{
  ℕ, zero, suc, ◌+◌, ◌/◌, ◌%◌, Bool, true, false, ◌||◌, not, Option, none, some, List, [], ◌∷◌,
  ◌++◌, ltb, ◌==◌, if◌then◌else◌, length,
}
use tox_suite.Base.Int.{ℤ}
use tox_suite.Base.Texts.{codes, c_string}
use tox_suite.Misc.Client.{ClientInfo}
use tox_suite.Friend.{FriendInfo}
use tox_suite.Friend.Printing.{line}
use tox_suite.Transfer.{FileNode, FileSender, zero_sender, zero_node}
use tox_suite.Transfer.Filesend.{Packlist}

-- What getopt_long returned in a round of the loop, with the variables that it set and the element
-- argv[1] at that time; `long_name` is long_options[option_index].name.
pub record Opt : Type 0 where
  pub code : ℕ
  pub this_optind : ℕ
  pub optopt : ℕ
  pub optarg : Option (List ℕ)
  pub long_name : List ℕ
  pub argv1 : List ℕ

-- The message after parse_command: the spaces in front of the words that it took apart are
-- terminators, as many as it can take arguments.
unfoldable pub cut_spaces : ℕ → List ℕ → List ℕ
cut_spaces zero message = message
cut_spaces (suc left) [] = []
cut_spaces (suc left) (c ∷ message) = elim (c == 0) [
  | true ↦ c ∷ message
  | false ↦ elim (c == b' ') [
    | true ↦ 0 ∷ cut_spaces left message
    | false ↦ c ∷ cut_spaces (suc left) message
  ]
]

-- The cases of the switch.
pub data Case : Type 0 where
  flagged digit addfriend info banner callme friends forgetme pamarkdown shema sendimage : Case
  whoiam xdcc unknown other : Case

unfoldable pub case_of : ℕ → Case
case_of c =
    if c == 0
    then flagged
    else if c == b'0' || (c == b'1' || c == b'2')
    then digit
    else if c == b'a'
    then addfriend
    else if c == b'i'
    then info
    else if c == b'b'
    then banner
    else if c == b'c'
    then callme
    else if c == b'f'
    then friends
    else if c == b'g'
    then forgetme
    else if c == b'p'
    then pamarkdown
    else if c == b's'
    then shema
    else if c == b't'
    then sendimage
    else if c == b'w'
    then whoiam
    else if c == b'x'
    then xdcc
    else if c == b'?'
    then unknown
    else other

-- "%o"; the fuel exceeds the number.
abbrev pub octal_onto : ℕ → ℕ → List ℕ → List ℕ
octal_onto zero n acc = acc
octal_onto (suc fuel) n acc =
    let rest = octal_onto fuel (n / 8) ((48 + n % 8) ∷ acc) in
    if ltb n 8 then (48 + n % 8) ∷ acc else rest

unfoldable pub octal : ℕ → List ℕ
octal n = octal_onto (suc n) n []

abbrev pub lines_of : List (List ℕ) → List (List ℕ)
lines_of [] = []
lines_of (s ∷ ss) = line s ∷ lines_of ss

unfoldable pub banner_texts : List (List ℕ)
banner_texts = lines_of (
    codes "`      :::::::::: ::::::::  :::    :::  ::::::::  :::::::::   :::::::: :::::::::::`"
    ∷ codes "`     :+:       :+:    :+: :+:    :+: :+:    :+: :+:    :+: :+:    :+:    :+:`"
    ∷ codes "`    +:+       +:+        +:+    +:+ +:+    +:+ +:+    +:+ +:+    +:+    +:+`"
    ∷ codes "`   +#++:++#  +#+        +#++:++#++ +#+    +:+ +#++:++#+  +#+    +:+    +#+`"
    ∷ codes "`  +#+       +#+        +#+    +#+ +#+    +#+ +#+    +#+ +#+    +#+    +#+`"
    ∷ codes "` #+#       #+#    #+# #+#    #+# #+#    #+# #+#    #+# #+#    #+#    #+#`"
    ∷ codes "`########## ########  ###    ###  ########  #########   ########     ###`"
    ∷ [])

abbrev pub concat_lines : List (List ℕ) → List ℕ
concat_lines [] = []
concat_lines (s ∷ ss) = line s ++ concat_lines ss

unfoldable pub shema_text : List ℕ
shema_text = concat_lines (
    codes "                 acti^e.keys                         expired.keys"
    ∷ codes "              +--------------+                    +--------------+"
    ∷ codes "     add()    |              |    trash()         |              |  purge()"
    ∷ codes "+------------^+              +-------------------^+              +---------->"
    ∷ codes "              |              |                    |              |"
    ∷ codes "              |              |                    |              |"
    ∷ codes "              |              |                    |              |"
    ∷ codes "              |  publickeys  |                    |  publickeys  |"
    ∷ codes "              |              |                    |              |"
    ∷ codes "              |              |    untrash()       |              |"
    ∷ codes "              |              +^-------------------+              |"
    ∷ codes "              |              |                    |              |"
    ∷ codes "              |              |                    |              |"
    ∷ codes "              +--------------+                    +--------------+"
    ∷ [])

-- The stream of fopencookie, by the write function that was given to it: what fprintf and fclose
-- make of the stream and of the state that the function works on. `opened` is NULL where it fails.
pub record Stdio : Type 1 where
  pub Stream : Type 0
  pub opened : Option Stream
  pub fprintf : (S : Type 0) → (S → List ℕ → ℕ × S) → Stream → List ℕ → S → Stream × S
  pub fclose : (S : Type 0) → (S → List ℕ → ℕ × S) → Stream → S → S

-- A file that open (filename, O_WRONLY) opened: st_size, whether the user owns it, whether it is a
-- regular file, whether fdopen succeeds, and what fread returns for a size: its bytes.
pub record Opened : Type 0 where
  pub st_size : ℕ
  pub is_owned : Bool
  pub is_regular : Bool
  pub has_stream : Bool
  pub fread : ℕ → List ℕ

-- The exit code and the text that is printed before. It never returns. `stat` is fstat's success.
unfoldable pub printf_file : (List ℕ → Option Opened) → Bool → List ℕ → ℕ × List (List ℕ)
printf_file open_file stat filename = elim (open_file filename) [
  | none ↦ (1, [])
  | some fd ↦
      if not stat || (not fd.is_owned || (not fd.is_regular || not fd.has_stream))
      then (1, [])
      else (let buffer = fd.fread fd.st_size in
          if length buffer == fd.st_size then (0, c_string buffer ∷ []) else (1, []))
]

-- What friend_message works with besides toxcore: toxav_call, toxcore's groupchats, the files, the
-- C library, the shared files and the members of suit_info that are only read.
pub record Services (S A : Type 0) : Type 0 where
  pub render : Packlist → List ℕ
  pub list_writable : Bool
  pub fopen : List ℕ → Option (List ℕ)
  pub open_wronly : List ℕ → Option Opened
  pub fstat : Bool
  pub time_text : ℕ → List ℕ
  pub ctime : ℕ → Option (List ℕ)
  pub null_text : List ℕ
  pub bin2hex : List ℕ → List ℕ
  pub invite_friend : S → ℕ → ℤ → S
  pub group_chat_number : ℤ
  pub fnode : List FileNode
  pub version : List ℕ
  pub own_info : ClientInfo
  pub friends_info : List FriendInfo
  pub getopt_long : List (List ℕ) → List Opt × List (List ℕ)
  pub toxav_call : A → ℕ → ℕ → ℕ → A

-- screenshot.png, to be offered as shot.png.
unfoldable pub screenshot : ℕ → FileSender
screenshot friend_number = record zero_sender {
  friend_number = friend_number;
  pathname = some (codes "screenshot.png");
  info = record zero_node { file = some (codes "shot.png") };
}

abbrev pub word_texts : List (List ℕ) → List (List ℕ)
word_texts [] = line [] ∷ []
word_texts (w ∷ ws) = (c_string w ++ b' ' ∷ []) ∷ word_texts ws

-- What is printed about the arguments that are no options.
unfoldable pub rest_texts : List (List ℕ) → List (List ℕ)
rest_texts [] = []
rest_texts (arg ∷ args) = codes "non-option ARGV-elements: " ∷ word_texts (arg ∷ args)
