-- ===== src/Commands/Execute.antt =====
-- The commands of src/callbacks.c and execute, which finds the one that a message names.
use tox_suite.Base.{
  ℕ, ◌-◌, Bool, not, Option, none, some, List, [], ◌∷◌, ◌++◌, ◌==◌, if◌then◌else◌, get_elem?, take,
  eq_bytes,
}
use tox_suite.Base.Decimal.{decimal}
use tox_suite.Base.Digits.{signed_decimal}
use tox_suite.Base.Heap.{Heap, load}
use tox_suite.Base.Int.{ℤ, pos, negsuc}
use tox_suite.Base.Results.{◌>>=◌}
use tox_suite.Base.Texts.{codes}
use tox_suite.Misc.Text.{gnu_basename}
use tox_suite.Misc.Sizes.{human_readable_filesize}
use tox_suite.Tox.{Tox}
use tox_suite.Transfer.{FileNode, FileSender, tox_file_id_length}
use tox_suite.Transfer.Filesend.{FileSendResult, Packlist, file_sender_new}
use tox_suite.Commands.{arg_of, parse_command, wanted_pack, is_minus_one}

abbrev pub syntax_err_msg : List ℕ
syntax_err_msg = codes "Invalid syntax!"

abbrev pub notfnd_err_msg : List ℕ
notfnd_err_msg = codes "Pack number not found"

abbrev pub notfnd_f_msg : List ℕ
notfnd_f_msg = codes "Could not open requested file"

abbrev pub queuefull_f_msg : List ℕ
queuefull_f_msg = codes "The queue is full, try later"

abbrev pub srverr_f_msg : List ℕ
srverr_f_msg = codes "Error sending file"

-- The answer to an outcome of file_sender_new.
abbrev pub failure_msg : FileSendResult → Option (List ℕ)
failure_msg FileSendResult.ok = none
failure_msg FileSendResult.err_fileio = some notfnd_f_msg
failure_msg FileSendResult.err_full = some queuefull_f_msg
failure_msg FileSendResult.err_sending = some srverr_f_msg
failure_msg FileSendResult.err = some srverr_f_msg

-- A line of the texts, after the 12 spaces that the continued literals start their lines with.
abbrev indented : List ℕ → List ℕ
indented s = codes "            " ++ s

abbrev pub help_msg : List ℕ
help_msg =
    10 ∷ codes " Supported commands:"
    ++ 10 ∷ indented (codes "invite          Join the groupchat where new files get announced")
    ++ 10 ∷ indented (codes "send -1         Request a list of all the files available")
    ++ 10 ∷ indented (codes "send x          Request the file (replace x with pack number)")
    ++ 10
      ∷ indented
          (codes "info x          Request details about the file (replace x with pack number)")

-- What the commands work on: the queue, the heap and toxcore.
module _ (tox : Tox) where
  abbrev pub Bot : Type 0
  Bot = record { queue : List FileSender; heap : Heap; tox : tox.State }

  abbrev pub answer : ℕ → List ℕ → Bot → Bot
  answer friendnum text bot = record bot {
    tox = (tox.friend_send_message bot.tox friendnum text).1;
  }

  -- The text of snprintf; `time_text` is what asctime and gmtime make of a time, without the
  -- newline, and `bin2hex` is that of libsodium.
  module _ (time_text : ℕ → List ℕ) (bin2hex : List ℕ → List ℕ) where
    unfoldable pub info_msg : Heap → ℤ → FileNode → Option (List ℕ)
    info_msg heap packn fn = do
      p ← fn.blake2b
      hash ← load heap p
      path ← fn.file
      hu_size ← human_readable_filesize fn.length
      some (
          codes "Pack Info for Pack #"
          ++ (signed_decimal packn
              ++ (codes ":"
                  ++ (10 ∷ indented (codes "Filename       ")
                      ++ (gnu_basename path
                          ++ (10 ∷ indented (codes "Filesize       ")
                              ++ (decimal fn.length
                                  ++ (codes " ["
                                      ++ (hu_size
                                          ++ (codes "]"
                                              ++ (10 ∷ indented (codes "Last Modified  ")
                                                  ++ (time_text fn.mtime
                                                      ++ (codes " GMT"
                                                          ++ (10
                                                            ∷ indented (codes "Blake2b        ")
                                                            ++ bin2hex (
                                                            take tox_file_id_length
                                                            hash)))))))))))))))

    -- The message takes its terminator along.
    unfoldable pub cmd_info : List FileNode → ℕ → ℕ → List ℕ → Bot → Option Bot
    cmd_info fnode friendnum argc argv bot =
        if not (argc == 1)
        then some (answer friendnum syntax_err_msg bot)
        else elim (wanted_pack (pos 0) fnode (arg_of argv 1)) [
          | none ↦ none
          | some none ↦ some (answer friendnum notfnd_err_msg bot)
          | some (some (negsuc n)) ↦ none
          | some (some (pos n)) ↦ do
            fn ← get_elem? fnode n
            text ← info_msg bot.heap (pos n) fn
            some (answer friendnum (text ++ 0 ∷ []) bot)
        ]

  -- The parameters are those of file_sender_new.
  module _ (render : Packlist → List ℕ) (list_writable : Bool)
      (fopen : List ℕ → Option (List ℕ)) where
    unfoldable pub cmd_send : List FileNode → ℕ → ℕ → List ℕ → Bot → Option Bot
    cmd_send fnode friendnum argc argv bot =
        if not (argc == 1)
        then some (answer friendnum syntax_err_msg bot)
        else elim (wanted_pack (negsuc 0) fnode (arg_of argv 1)) [
          | none ↦ none
          | some none ↦ some (answer friendnum notfnd_err_msg bot)
          | some (some packn) ↦
              elim (file_sender_new tox render list_writable fopen friendnum fnode packn bot.queue
                bot.heap bot.tox) [
                  | none ↦ none
                  | some o ↦
                      let after : Bot = record { queue = o.queue; heap = o.heap; tox = o.tox } in
                      some (elim (failure_msg o.result) [
                        | none ↦ after
                        | some text ↦ answer friendnum text after
                      ])
                ]
        ]

    -- `group_chat_number` is -1 without a groupchat; `invite_friend` is tox_invite_friend, whose
    -- result is only logged.
    module _ (time_text : ℕ → List ℕ) (bin2hex : List ℕ → List ℕ)
        (invite_friend : tox.State → ℕ → ℤ → tox.State) (group_chat_number : ℤ) where
      unfoldable pub cmd_invite : ℕ → Bot → Bot
      cmd_invite friendnum bot =
          if is_minus_one group_chat_number
          then bot
          else record bot { tox = invite_friend bot.tox friendnum group_chat_number }

      unfoldable pub cmd_help : ℕ → Bot → Bot
      cmd_help friendnum bot = answer friendnum help_msg bot

      -- The search through bot_commands.
      unfoldable pub execute : List FileNode → List ℕ → ℕ → Bot → Option Bot
      execute fnode cmd friendnum bot = elim (parse_command cmd) [
        | none ↦ none
        | some (num_args, args) ↦
            if eq_bytes (arg_of args 0) (codes "invite")
            then some (cmd_invite friendnum bot)
            else if eq_bytes (arg_of args 0) (codes "help")
            then some (cmd_help friendnum bot)
            else if eq_bytes (arg_of args 0) (codes "info")
            then cmd_info time_text bin2hex fnode friendnum (num_args - 1) args bot
            else if eq_bytes (arg_of args 0) (codes "send")
            then cmd_send fnode friendnum (num_args - 1) args bot
            else some bot
      ]
