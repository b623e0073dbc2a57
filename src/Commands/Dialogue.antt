-- ===== src/Commands/Dialogue.antt =====
-- friend_message of src/command.c, the callback for a friend's text. `none` as a result is a fault.
use tox_suite.Base.{
  ℕ, Bool, true, false, ◌&&◌, not, Option, none, some, List, [], ◌∷◌, ◌++◌, ◌==◌, if◌then◌else◌,
}
use mathlib.Core.Option
use tox_suite.Base.Texts.{codes, c_string}
use tox_suite.Misc.Client.{client_info_print}
use tox_suite.Misc.Stream.{toxstream_write}
use tox_suite.Tox.{Tox}
use tox_suite.Call.{audio_bitrate}
use tox_suite.Friend.Printing.{line, friend_info_print, friends_info_print}
use tox_suite.Friend.Registry.{entry_of}
use tox_suite.Transfer.Send.{add_filesender}
use tox_suite.Commands.{max_args_num}
use tox_suite.Commands.Arguments.{argexp}
use tox_suite.Commands.Execute.{Bot, execute}
use tox_suite.Commands.Replies.{
  Opt, Case, flagged, digit, info, banner, callme, friends, forgetme, pamarkdown, shema, sendimage,
  whoiam, xdcc, unknown, other, case_of, cut_spaces, octal, banner_texts, shema_text, rest_texts,
  Stdio, printf_file, Services, screenshot,
}

module _ (tox : Tox) (limit : ℕ) (stdio : Stdio) (A : Type 0) (si : Services tox.State A) where
  -- `on` is the static variable xdcc.
  pub record World : Type 0 where
    pub bot : Bot tox
    pub av : A
    pub on : Bool

  -- The callback returned, or the program ended with an exit code.
  pub data Progress : Type 0 where
    returned : World → Progress
    exited : ℕ → World → Progress

  abbrev pub writer : ℕ → tox.State → List ℕ → ℕ × tox.State
  writer friend_number t text = toxstream_write tox limit t friend_number text

  -- printf_file ends in exit.
  abbrev pub ends : Case → Bool
  ends pamarkdown = true
  ends c = false

  -- A round of the loop before its action: the texts that it prints, and the new digit_optind.
  unfoldable pub case_texts : Case → Opt → ℕ → ℕ → Option (List (List ℕ) × ℕ)
  case_texts flagged o friend_number digit_optind = some (
    (codes "option " ++ c_string o.long_name) ∷ (elim (o.optarg) [
      | none ↦ line [] ∷ []
      | some arg ↦ (codes " with arg " ++ c_string arg) ∷ line [] ∷ []
    ]),
    digit_optind,
  )
  case_texts digit o friend_number digit_optind =
      let said = line (codes "option " ++ o.code ∷ []) ∷ [] in
      some (
        (if not (digit_optind == 0) && not (digit_optind == o.this_optind)
            then line (codes "digits occur in two different argv-elements.") ∷ said
            else said),
        o.this_optind,
      )
  case_texts info o friend_number digit_optind = some (
    line (codes "ToxSuite version " ++ si.version) ∷ client_info_print si.null_text si.own_info,
    digit_optind,
  )
  case_texts banner o friend_number digit_optind = some (banner_texts, digit_optind)
  case_texts friends o friend_number digit_optind =
      Option.map (λ texts. (texts, digit_optind))
        (friends_info_print si.null_text si.ctime si.friends_info)
  case_texts forgetme o friend_number digit_optind =
      some (line (codes "Bye old friend... I'll never forget you!") ∷ [], digit_optind)
  case_texts pamarkdown o friend_number digit_optind =
      some ((printf_file si.open_wronly si.fstat (codes "pa.md")).1, digit_optind)
  case_texts shema o friend_number digit_optind = some (shema_text ∷ [], digit_optind)
  case_texts whoiam o friend_number digit_optind =
      Option.map (λ texts. (texts, digit_optind))
        (friend_info_print si.null_text (entry_of si.friends_info friend_number))
  case_texts unknown o friend_number digit_optind = some (
    line (
          codes "option "
          ++ (c_string o.argv1 ++ (codes " not implemented,optopt=" ++ o.optopt ∷ [])))
        ∷ [],
    digit_optind,
  )
  case_texts other o friend_number digit_optind = some (
    line (codes "?? getopt returned character code 0" ++ (octal o.code ++ codes " ??")) ∷ [],
    digit_optind,
  )
  case_texts c o friend_number digit_optind = some ([], digit_optind)

  -- FileSender_new puts the sender at the head of the queue, where add_filesender works on it.
  unfoldable pub send_screenshot : ℕ → Bot tox → Option (Bot tox)
  send_screenshot friend_number bot =
      Option.map
        (λ sent. record { queue = sent.sender ∷ bot.queue; heap = sent.heap; tox = sent.tox })
        (add_filesender tox si.fopen (screenshot friend_number) bot.heap bot.tox)

  -- Its action, behind the texts.
  unfoldable pub case_action : Case → ℕ → World → Option World
  case_action callme friend_number w =
      some (record w { av = si.toxav_call w.av friend_number audio_bitrate 0 })
  case_action forgetme friend_number w =
      some
        (record w { bot = record (w.bot) { tox = (tox.friend_delete w.bot.tox friend_number).1 } })
  case_action sendimage friend_number w =
      Option.map (λ bot. record w { bot = bot }) (send_screenshot friend_number w.bot)
  case_action xdcc friend_number w = some (record w { on = not w.on })
  case_action c friend_number w = some w

  -- Calls of fprintf, one after another.
  unfoldable pub print_all : ℕ → stdio.Stream → List (List ℕ) → tox.State → stdio.Stream × tox.State
  print_all friend_number stream [] t = (stream, t)
  print_all friend_number stream (text ∷ texts) t =
      let (stream', t') = stdio.fprintf tox.State (writer friend_number) stream text t in
      print_all friend_number stream' texts t'

  abbrev pub with_tox : World → tox.State → World
  with_tox w t = record w { bot = record (w.bot) { tox = t } }

  abbrev pub close : ℕ → stdio.Stream → World → World
  close friend_number stream w =
      with_tox w (stdio.fclose tox.State (writer friend_number) stream w.bot.tox)

  -- A round of the loop for each option, then the other arguments and fclose. exit closes the
  -- stream as well.
  unfoldable pub run_options :
      ℕ → List (List ℕ) → List Opt → ℕ → stdio.Stream → World → Option Progress
  run_options friend_number rest [] digit_optind stream w =
      let (stream', t') = print_all friend_number stream (rest_texts rest) w.bot.tox in
      some (returned (close friend_number stream' (with_tox w t')))
  run_options friend_number rest (o ∷ opts) digit_optind stream w =
      elim (case_texts (case_of o.code) o friend_number digit_optind) [
        | none ↦ none
        | some (texts, digit_optind') ↦
            let (stream', t') = print_all friend_number stream texts w.bot.tox in
            elim (ends (case_of o.code)) [
              | true ↦ some (
                  exited (printf_file si.open_wronly si.fstat (codes "pa.md")).0
                    (close friend_number stream' (with_tox w t')))
              | false ↦ elim (case_action (case_of o.code) friend_number (with_tox w t')) [
                | none ↦ none
                | some w' ↦ run_options friend_number rest opts digit_optind' stream' w'
              ]
            ]
      ]

  -- With xdcc on, the message is given to execute first, which writes to it.
  unfoldable pub run_execute : Bool → ℕ → List ℕ → World → Option (List ℕ × World)
  run_execute false friend_number message w = some (message, w)
  run_execute true friend_number message w =
      Option.map (λ bot. (cut_spaces max_args_num message, record w { bot = bot }))
        (execute tox si.render si.list_writable si.fopen si.time_text si.bin2hex si.invite_friend
          si.group_chat_number si.fnode (c_string message) friend_number w.bot)

  -- The rest of the callback: from the test of argexp on, from argexp on, and from fopencookie on.
  unfoldable pub after_argexp : Option (List (List ℕ)) → ℕ → stdio.Stream → World → Option Progress
  after_argexp none friend_number stream w = some (returned w)
  after_argexp (some argv) friend_number stream w =
      let (opts, rest) = si.getopt_long argv in run_options friend_number rest opts 0 stream w

  unfoldable pub after_execute : Option (List ℕ × World) → ℕ → ℕ → stdio.Stream → Option Progress
  after_execute none friend_number size stream = none
  after_execute (some (message, w)) friend_number size stream =
      after_argexp (argexp message size b'!') friend_number stream w

  unfoldable pub after_open : Option stdio.Stream → ℕ → List ℕ → ℕ → World → Option Progress
  after_open none friend_number message size w = some (returned w)
  after_open (some stream) friend_number message size w =
      after_execute (run_execute w.on friend_number message w) friend_number size stream

  -- `message` is what stands in memory at the message and behind it, `size` is the length that
  -- toxcore gives.
  unfoldable pub friend_message : ℕ → List ℕ → ℕ → World → Option Progress
  unfolding after_open after_execute after_argexp
  friend_message friend_number message size w = after_open stdio.opened friend_number message size w
