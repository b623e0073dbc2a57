-- ===== src/Commands/Xdcc.antt =====
-- The messages that execute sees before getopt_long, and the command that ends the program.
use tox_suite.Base.{
  ℕ, suc, ◌+◌, ◌<◌, ◌≡◌, refl, sym, ap, ◌∙◌, ◌≢◌, true, false, some, List, [], ◌∷◌, ◌++◌, arith,
  ◌==◌, length, take, All, length-append,
}
use mathlib.Core.List.{append-nil}
use mathlib.Core.Option
use tox_suite.Base.{take_all}
use tox_suite.Base.Texts.{codes, c_string, IsText}
use tox_suite.Tox.{Tox}
use tox_suite.Commands.Arguments.{
  argexp, IsToken, tokens_from, tokens_from-word, push-token, c_string-append,
}
use tox_suite.Commands.Execute.{Bot, execute}
use tox_suite.Commands.Replies.{Opt, pamarkdown, case_of, cut_spaces, printf_file, Stdio, Services}
use tox_suite.Commands.Dialogue.{
  exited, case_texts, print_all, close, with_tox, run_options, run_execute, after_argexp,
  after_execute, after_open, friend_message,
}
use tox_suite.Commands.Buffered.{Here, friend_message_argv}

cut_spaces-word :
    (k : ℕ) (w rest : List ℕ)
    → IsText w
    → All (λ c. c ≢ b' ') w
    → cut_spaces (suc k) (w ++ rest) ≡ w ++ cut_spaces (suc k) rest
unfolding cut_spaces
cut_spaces-word k [] rest text plain = refl
cut_spaces-word k (c ∷ w) rest (t, text) (p, plain) =
    rw (not_zero, cut_spaces) (rw not_space (ap (◌∷◌ c) (cut_spaces-word k w rest text plain)))
  where
    not_zero : (c == 0) ≡ false
    not_zero = ground (arith, t)

    not_space : (c == b' ') ≡ false
    not_space = ground (arith, p)

cut_spaces-space :
    (k : ℕ) (rest : List ℕ) → cut_spaces (suc k) (b' ' ∷ rest) ≡ 0 ∷ cut_spaces k rest
unfolding cut_spaces
cut_spaces-space k rest = refl

-- After the cut, a command has no arguments any more.
argexp-cut_spaces :
    (w rest : List ℕ) (size : ℕ)
    → IsToken w
    → length w < size
    → argexp (cut_spaces 3 (b'!' ∷ (w ++ b' ' ∷ rest))) size b'!'
      ≡ some (codes "arg0" ∷ (codes "--" ++ w) ∷ [])
unfolding argexp
argexp-cut_spaces w rest size h long =
    ap (λ m. argexp m size b'!') cut
    ∙ ap (λ line. some (tokens_from [] line)) whole
    ∙ ap (λ tokens. some (codes "arg0" ∷ tokens))
        (ap (tokens_from []) (sym (append-nil (codes "--" ++ w)))
          ∙ tokens_from-word (codes "--") w [] h.no_space
          ∙ push-token (codes "--" ++ w) [] (λ e. ground (arith, e)))
  where
    cut : cut_spaces 3 (b'!' ∷ (w ++ b' ' ∷ rest)) ≡ b'!' ∷ (w ++ 0 ∷ cut_spaces 2 rest)
    cut =
        cut_spaces-word 2 (b'!' ∷ []) (w ++ b' ' ∷ rest) ((λ e. omega arith), tt)
          ((λ e. omega arith), tt)
        ∙ ap (◌∷◌ b'!') (cut_spaces-word 2 w (b' ' ∷ rest) h.text h.no_space)
        ∙ ap (λ t. b'!' ∷ (w ++ t)) (cut_spaces-space 2 rest)

    whole :
        take (size + 6) (codes "arg0 --" ++ c_string (w ++ 0 ∷ cut_spaces 2 rest))
        ≡ codes "arg0 --" ++ w
    whole =
        ap (λ s. take (size + 6) (codes "arg0 --" ++ s))
          (c_string-append w (0 ∷ cut_spaces 2 rest) h.text ∙ append-nil w)
        ∙ take_all (size + 6) (codes "arg0 --" ++ w)
            (omega (arith, length-append (codes "arg0 --") w))

module _ (tox : Tox) (limit : ℕ) (stdio : Stdio) (A : Type 0) (si : Services tox.State A) where
  -- With xdcc on, a friend's command loses its arguments: where fopencookie gives a stream and
  -- execute has a result, a message of the delimiter, a word that is not empty and holds neither a
  -- space nor a terminator, a space and anything else, longer than the word, gives getopt_long
  -- "arg0" and the word behind "--" alone, since parse_command has put a terminator in place of the
  -- space.
  pub xdcc_drops_arguments :
      (n : ℕ) (w rest : List ℕ) (size : ℕ) (stream : stdio.Stream) (v : Here tox limit stdio A si)
      (bot : Bot tox)
      → stdio.opened ≡ some stream
      → v.on ≡ true
      → execute tox si.render si.list_writable si.fopen si.time_text si.bin2hex si.invite_friend
          si.group_chat_number si.fnode
          (c_string (b'!' ∷ (w ++ b' ' ∷ rest)))
          n
          v.bot
        ≡ some bot
      → IsToken w
      → length w < size
      → (let r = si.getopt_long (codes "arg0" ∷ (codes "--" ++ w) ∷ []) in
          friend_message tox limit stdio A si n (b'!' ∷ (w ++ b' ' ∷ rest)) size v
          ≡ run_options tox limit stdio A si n r.1 r.0 0 stream (record v { bot = bot }))
  unfolding friend_message run_execute
  xdcc_drops_arguments n w rest size stream v bot opened on done h long =
      let message = b'!' ∷ (w ++ b' ' ∷ rest) in
      ap (λ o. after_open tox limit stdio A si o n message size v) opened
      ∙ ap
          (λ b.
            after_execute tox limit stdio A si (run_execute tox limit stdio A si b n message v) n
              size stream)
          on
      ∙ ap
          (λ o.
            after_execute tox limit stdio A si
              (Option.map (λ bot. (cut_spaces 3 message, record v { bot = bot })) o) n size stream)
          done
      ∙ ap (λ o. after_argexp tox limit stdio A si o n stream (record v { bot = bot }))
          (argexp-cut_spaces w rest size h long)

  exits :
      (n : ℕ) (rest : List (List ℕ)) (o : Opt) (opts : List Opt) (stream : stdio.Stream)
      (v : Here tox limit stdio A si)
      → case_of o.code ≡ pamarkdown
      → (v' : Here tox limit stdio A si) × (run_options tox limit stdio A si n rest
            (o ∷ opts)
            0
            stream
            v
          ≡ some (exited (printf_file si.open_wronly si.fstat (codes "pa.md")).0 v'))
  unfolding run_options case_texts
  exits n rest o opts stream v p =
      let printed =
        print_all tox limit stdio A si n stream
          (printf_file si.open_wronly si.fstat (codes "pa.md")).1 v.bot.tox in
      (
        close tox limit stdio A si n printed.0 (with_tox tox limit stdio A si v printed.1),
        rw (p, run_options) (rw p refl),
      )

  -- A friend can end the program: where fopencookie gives a stream, xdcc is off, argexp takes the
  -- message apart, and the first option that getopt_long finds is pamarkdown, the program exits
  -- with the code of printf_file, whatever the file is like.
  pub pamarkdown_exits :
      (n : ℕ) (memory : List ℕ) (size : ℕ) (stream : stdio.Stream) (v : Here tox limit stdio A si)
      (argv : List (List ℕ)) (o : Opt) (opts : List Opt) (rest : List (List ℕ))
      → stdio.opened ≡ some stream
      → v.on ≡ false
      → argexp memory size b'!' ≡ some argv
      → si.getopt_long argv ≡ (o ∷ opts, rest)
      → case_of o.code ≡ pamarkdown
      → (v' : Here tox limit stdio A si) × (friend_message tox limit stdio A si n memory size v
          ≡ some (exited (printf_file si.open_wronly si.fstat (codes "pa.md")).0 v'))
  pamarkdown_exits n memory size stream v argv o opts rest opened off parsed found p =
      let (v', same) = exits n rest o opts stream v p in
      (
        v',
        friend_message_argv tox limit stdio A si n memory size stream v argv opened off parsed
            ∙ ap (λ r. run_options tox limit stdio A si n r.1 r.0 0 stream v) found
            ∙ same,
      )
