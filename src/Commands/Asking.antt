-- ===== src/Commands/Asking.antt =====
-- A friend who asks for a pack by its number.
use tox_suite.Base.{
  ℕ, ◌^◌, ◌<◌, ◌≡◌, refl, ◌∙◌, ◌≢◌, Bool, true, Option, some, List, ◌∷◌, ◌++◌, arith, get_elem?,
}
use tox_suite.Base.Decimal.{decimal, length-decimal-le}
use tox_suite.Base.Digits.{decimal-All}
use tox_suite.Base.Int.{ℤ, pos, negsuc}
use tox_suite.Base.Texts.{codes}
use tox_suite.Tox.{Tox}
use tox_suite.Transfer.{FileNode}
use tox_suite.Transfer.Filesend.{FileSendResult, Packlist, Outcome, file_sender_new}
use tox_suite.Commands.{arg_of, parse_command, wanted_pack}
use tox_suite.Commands.Execute.{Bot, cmd_send, execute}
use tox_suite.Commands.Parsing.{IsWord, parse_command-words}
use tox_suite.Commands.Packs.{wanted_pack-decimal}

send-IsWord : IsWord (codes "send")
send-IsWord = record { text = omega arith; no_space = omega arith; fits = omega arith }

decimal-IsWord : (n : ℕ) → n < 2 ^ 31 → IsWord (decimal n)
decimal-IsWord n h = record {
  text = decimal-All (λ c. c ≢ 0) (λ d l e. omega arith) n;
  no_space = decimal-All (λ c. c ≢ b' ') (λ d l e. omega arith) n;
  fits = omega (arith, length-decimal-le n 9 (omega arith));
}

module _ (tox : Tox) (render : Packlist → List ℕ) (list_writable : Bool)
    (fopen : List ℕ → Option (List ℕ)) (time_text : ℕ → List ℕ) (bin2hex : List ℕ → List ℕ)
    (invite_friend : tox.State → ℕ → ℤ → tox.State) (group_chat_number : ℤ) where
  execute-send :
      (fnode : List FileNode) (cmd args : List ℕ) (friendnum : ℕ) (bot : Bot tox)
      → parse_command cmd ≡ some (2, args)
      → arg_of args 0 ≡ codes "send"
      → execute tox render list_writable fopen time_text bin2hex invite_friend group_chat_number
          fnode cmd friendnum bot
        ≡ cmd_send tox render list_writable fopen fnode friendnum 1 args bot
  unfolding execute
  execute-send fnode cmd args friendnum bot p a = rw (p, execute) (rw a refl)

  cmd_send_ok :
      (fnode : List FileNode) (friendnum : ℕ) (args arg : List ℕ) (bot : Bot tox) (packn : ℤ)
      (o : Outcome tox render list_writable fopen)
      → arg_of args 1 ≡ arg
      → wanted_pack (negsuc 0) fnode arg ≡ some (some packn)
      → file_sender_new tox render list_writable fopen friendnum fnode packn bot.queue bot.heap
          bot.tox
        ≡ some o
      → o.result ≡ FileSendResult.ok
      → cmd_send tox render list_writable fopen fnode friendnum 1 args bot
        ≡ some (record { queue = o.queue; heap = o.heap; tox = o.tox })
  unfolding cmd_send
  cmd_send_ok fnode friendnum args arg bot packn o a w s e =
      rw (a, cmd_send) (rw w (rw s (rw e refl)))

  -- A friend gets the file that has been asked for: where the shared file of number n exists, n
  -- fits an int and file_sender_new offers it without an error, the message "send n" leaves the
  -- queue, the heap and toxcore exactly as this call of file_sender_new does, and no other answer
  -- is sent.
  pub execute_sends :
      (fnode : List FileNode) (n : ℕ) (f : FileNode) (friendnum : ℕ) (bot : Bot tox)
      (o : Outcome tox render list_writable fopen)
      → get_elem? fnode n ≡ some f
      → f.exists ≡ true
      → n < 2 ^ 31
      → file_sender_new tox render list_writable fopen friendnum fnode
          (pos n)
          bot.queue
          bot.heap
          bot.tox
        ≡ some o
      → o.result ≡ FileSendResult.ok
      → execute tox render list_writable fopen time_text bin2hex invite_friend group_chat_number
          fnode
          (codes "send" ++ b' ' ∷ decimal n)
          friendnum
          bot
        ≡ some (record { queue = o.queue; heap = o.heap; tox = o.tox })
  execute_sends fnode n f friendnum bot o e x l s r =
      let (args, parsed, first, second) =
        parse_command-words (codes "send") (decimal n) send-IsWord (decimal-IsWord n l) in
      execute-send fnode (codes "send" ++ b' ' ∷ decimal n) args friendnum bot parsed first
      ∙ cmd_send_ok fnode friendnum args (decimal n) bot (pos n) o second
          (wanted_pack-decimal fnode n f e x l) s r
