-- ===== src/Commands/Tests.antt =====
-- Runs of the commands at concrete inputs.
use tox_suite.Base.{
  ℕ, zero, suc, ◌≡◌, refl, ◌≢◌, true, Option, none, some, List, [], ◌∷◌, ◌++◌, arith,
}
use tox_suite.Base.Decimal.{decimal}
use tox_suite.Base.Heap.{load}
use tox_suite.Base.Int.{ℤ, pos, negsuc}
use tox_suite.Base.Texts.{codes}
use tox_suite.Tox.Recorder.{recorder, Call, sent}
use tox_suite.Transfer.{FileNode, zero_node, FileSender, zero_sender}
use tox_suite.Transfer.Filesend.{FileSendResult, Packlist, Outcome, file_sender_new}
use tox_suite.Transfer.Send.{add_filesender}
use tox_suite.Misc.Text.{gnu_basename}
use tox_suite.Base.{inr}
use tox_suite.Commands.{parse_command, wanted_pack}
use tox_suite.Commands.Execute.{Bot, execute}
use tox_suite.Commands.Parsing.{IsWord, parse_command_overflows}
use tox_suite.Commands.Packs.{IsChecked, wanted_pack-IsPack}
use tox_suite.Commands.Asking.{execute_sends}
use tox_suite.Commands.Arguments.{IsToken}

abbrev repeat : ℕ → ℕ → List ℕ
repeat zero c = []
repeat (suc n) c = c ∷ repeat n c

parse_command_overflows_example :
    (parse_command (repeat 60 b'x') ≡ none) × (parse_command (repeat 60 b'x' ++ b' ' ∷ []) ≡ none)
parse_command_overflows_example =
    parse_command_overflows (repeat 60 b'x') [] (omega arith) (omega arith)

info-IsWord : IsWord (codes "info")
info-IsWord = record { text = omega arith; no_space = omega arith; fits = omega arith }

seven-IsWord : IsWord (codes "7")
seven-IsWord = record { text = omega arith; no_space = omega arith; fits = omega arith }

abbrev song : FileNode
song = record zero_node {
  file = some (codes "/m/song");
  length = 3;
  blake2b = some 0;
  exists = true;
}

wanted_pack-IsPack_example :
    (o : Option ℤ) × (wanted_pack (negsuc 0) (song ∷ []) (codes "1") ≡ some o)
    × IsChecked (negsuc 0) (song ∷ []) o
wanted_pack-IsPack_example = wanted_pack-IsPack (negsuc 0) (song ∷ []) (codes "1") (inr refl)

abbrev no_list : Packlist → List ℕ
no_list p = []

abbrev three_bytes : List ℕ → Option (List ℕ)
three_bytes name = some (1 ∷ 2 ∷ 3 ∷ [])

abbrev no_time : ℕ → List ℕ
no_time t = []

abbrev same_bytes : List ℕ → List ℕ
same_bytes bytes = bytes

abbrev no_invite : List Call → ℕ → ℤ → List Call
no_invite t friendnum group = t

abbrev bot : Bot recorder
bot = record { queue = []; heap = some (repeat 32 7) ∷ []; tox = [] }

abbrev song_sender : FileSender
song_sender = record zero_sender {
  info = record song { file = some (codes "song") };
  pathname = some (codes "/m/song");
  file = some (record { bytes = 1 ∷ 2 ∷ 3 ∷ []; readable = true });
  friend_number = 4;
}

abbrev offered : Outcome recorder no_list true three_bytes
offered = record {
  result = FileSendResult.ok;
  queue = song_sender ∷ [];
  heap = some (repeat 32 7) ∷ [];
  tox = sent 4 0 3 (codes "song") ∷ [];
}

song-offered :
    file_sender_new recorder no_list true three_bytes 4
      (song ∷ [])
      (pos 0)
      []
      (some (repeat 32 7) ∷ [])
      []
    ≡ some offered
unfolding file_sender_new add_filesender load gnu_basename
song-offered = refl

execute_sends_example :
    execute recorder no_list true three_bytes no_time same_bytes no_invite
      (negsuc 0)
      (song ∷ [])
      (codes "send" ++ b' ' ∷ decimal 0)
      4
      bot
    ≡ some (record {
      queue = song_sender ∷ [];
      heap = some (repeat 32 7) ∷ [];
      tox = sent 4 0 3 (codes "song") ∷ [];
    })
execute_sends_example =
    execute_sends recorder no_list true three_bytes no_time same_bytes no_invite (negsuc 0)
      (song ∷ []) 0 song 4 bot offered refl refl (omega arith) song-offered refl

word_IsToken : (s : List ℕ) → IsWord s → s ≢ [] → IsToken s
word_IsToken s w n = record { text = w.text; no_space = w.no_space; not_empty = n }

now-IsToken : IsToken (codes "now")
now-IsToken = record {
  text = omega arith;
  no_space = omega arith;
  not_empty = λ e. ground (arith, e);
}

info-IsToken : IsToken (codes "info")
info-IsToken = word_IsToken (codes "info") info-IsWord (λ e. ground (arith, e))
