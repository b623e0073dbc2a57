-- ===== src/Commands/Samples.antt =====
-- Inputs for the tests of a friend's messages.
use tox_suite.Base.{
  ℕ, ◌+◌, true, Option, none, some, List, [], ◌∷◌, ◌++◌, leb, ◌==◌, if◌then◌else◌, length, drop,
  eq_bytes,
}
use tox_suite.Base.Int.{ℤ, negsuc}
use tox_suite.Base.Texts.{codes}
use tox_suite.Friend.{FriendInfo}
use tox_suite.Tox.Recorder.{Call}
use tox_suite.Commands.Replies.{Opt, Stdio, Services}

abbrev pub room : ℕ
room = 4096

-- A stream that holds what waits.
abbrev pub printed : (S : Type 0) → (S → List ℕ → ℕ × S) → List ℕ → List ℕ → S → List ℕ × S
printed S write stream text t =
    if leb (length stream + length text) room
    then (stream ++ text, t)
    else ([], (write t (stream ++ text)).1)

abbrev pub closed : (S : Type 0) → (S → List ℕ → ℕ × S) → List ℕ → S → S
closed S write stream t = if length stream == 0 then t else (write t stream).1

abbrev pub plain_stdio : Stdio
plain_stdio = record { Stream = List ℕ; opened = some []; fprintf = printed; fclose = closed }

abbrev pub waiting : List ℕ → List ℕ
waiting stream = stream

-- Long options without arguments, known by their names.
abbrev pub option : ℕ → Opt
option c = record {
  code = c;
  this_optind = 1;
  optopt = 0;
  optarg = none;
  long_name = [];
  argv1 = [];
}

abbrev pub found : Option ℕ → List ℕ → List Opt × List (List ℕ) → List Opt × List (List ℕ)
found none w (opts, rest) = (opts, w ∷ rest)
found (some c) w (opts, rest) = (option c ∷ opts, rest)

abbrev pub known : List ℕ → Option ℕ
known w =
    if eq_bytes w (codes "--whoiam")
    then some b'w'
    else if eq_bytes w (codes "--callme")
    then some b'c'
    else if eq_bytes w (codes "--forgetme")
    then some b'g'
    else if eq_bytes w (codes "--pamarkdown")
    then some b'p'
    else none

abbrev pub options_in : List (List ℕ) → List Opt × List (List ℕ)
options_in [] = ([], [])
options_in (w ∷ ws) = found (known w) w (options_in ws)

abbrev pub plain_getopt : List (List ℕ) → List Opt × List (List ℕ)
plain_getopt argv = options_in (drop 1 argv)

abbrev pub no_invite : List Call → ℕ → ℤ → List Call
no_invite t friendnum group = t

abbrev pub ann : FriendInfo
ann = record {
  friend_number = 5;
  name = some (codes "Ann");
  status_message = some (codes "hello");
  tox_id_bin = [];
  last_online = 0;
  status = 1;
  connection_status = 1;
  tox_id_hex = codes "AB";
}

abbrev pub services : Services (List Call) (List ℕ)
services = record {
  render = λ p. [];
  list_writable = true;
  fopen = λ name. none;
  open_wronly = λ name. none;
  fstat = true;
  time_text = λ t. [];
  ctime = λ t. none;
  null_text = codes "(null)";
  bin2hex = λ bytes. bytes;
  invite_friend = no_invite;
  group_chat_number = negsuc 0;
  fnode = [];
  version = codes "1";
  own_info = record {
    name = none;
    status_message = none;
    tox_id_bin = [];
    tox_id_hex = [];
    connect = 0;
  };
  friends_info = ann ∷ [];
  getopt_long = plain_getopt;
  toxav_call = λ calls n audio video. n ∷ calls;
}
