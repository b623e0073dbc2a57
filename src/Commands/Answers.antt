-- ===== src/Commands/Answers.antt =====
-- What a friend gets for the commands of a message.
use tox_suite.Base.{
  ℕ, ◌≤◌, ◌<◌, ◌≡◌, refl, ap, ◌∙◌, false, some, List, [], ◌∷◌, ◌++◌, arith, length, All,
}
use tox_suite.Base.Results.{◌>>=◌}
use tox_suite.Base.Texts.{codes}
use tox_suite.Friend.Printing.{line}
use tox_suite.Misc.Stream.{IsHeard, concat, send_all}
use tox_suite.Tox.{Tox}
use tox_suite.Commands.Arguments.{argexp}
use tox_suite.Commands.Replies.{Opt, forgetme, case_of, rest_texts, Stdio, Services}
use tox_suite.Commands.Dialogue.{
  returned, ends, case_texts, case_action, with_tox, run_options, friend_message,
}
use tox_suite.Commands.Buffered.{
  IsBuffered, Here, all_texts, all_actions, friend_message_argv, run_options_waits, close_flushes,
  friend_message_waits, close_sends, unheard,
}

module _ (tox : Tox) (limit : ℕ) (stdio : Stdio) (A : Type 0) (si : Services tox.State A) where
  abbrev goodbye_text : List ℕ
  goodbye_text = line (codes "Bye old friend... I'll never forget you!")

  says :
      (n : ℕ) (o : Opt)
      → case_of o.code ≡ forgetme
      → all_texts tox limit stdio A si n (o ∷ []) 0 ≡ some (goodbye_text ∷ [])
  unfolding case_texts
  says n o goodbye =
      ap
        (λ c.
          case_texts tox limit stdio A si c o n 0
          >>= (λ r. all_texts tox limit stdio A si n [] r.1 >>= (λ more. some (r.0 ++ more))))
        goodbye

  does :
      (n : ℕ) (o : Opt) (w : Here tox limit stdio A si)
      → case_of o.code ≡ forgetme
      → all_actions tox limit stdio A si n (o ∷ []) w
        ≡ some (with_tox tox limit stdio A si w (tox.friend_delete w.bot.tox n).1)
  unfolding case_action
  does n o w goodbye =
      ap (λ c. case_action tox limit stdio A si c n w >>= all_actions tox limit stdio A si n [])
        goodbye

  module _ (room : ℕ) (pending : stdio.Stream → List ℕ) (laws : IsBuffered stdio room pending) where
    -- A friend's command is answered as a whole and in order, after everything that it asks for has
    -- been done: where fopencookie gives an empty, fully buffered stream, xdcc is off, argexp takes
    -- the message apart into argv, no option that getopt_long finds is pamarkdown, the texts and
    -- the actions of the options all have a result, and the texts with that about the other
    -- arguments fit the buffer, friend_message returns, and the world afterwards is the one after
    -- the actions with messages sent to the friend, none empty or longer than toxcore's limit,
    -- which make up the texts one after another. The friend hears after the actions, that is,
    -- toxcore takes its messages that are neither empty nor too long and stays in a state in which
    -- it does, and toxcore's limit is not 0.
    pub friend_message_answers :
        (n : ℕ) (memory : List ℕ) (size : ℕ) (stream : stdio.Stream)
        (w w' : Here tox limit stdio A si) (argv : List (List ℕ)) (texts : List (List ℕ))
        (Hears : tox.State → Type 0)
        → 0 < limit
        → IsHeard tox limit n Hears
        → Hears w'.bot.tox
        → stdio.opened ≡ some stream
        → pending stream ≡ []
        → w.on ≡ false
        → argexp memory size b'!' ≡ some argv
        → All (λ o. ends tox limit stdio A si (case_of o.code) ≡ false) (si.getopt_long argv).0
        → all_texts tox limit stdio A si n (si.getopt_long argv).0 0 ≡ some texts
        → all_actions tox limit stdio A si n (si.getopt_long argv).0 w ≡ some w'
        → length (concat tox limit (texts ++ rest_texts (si.getopt_long argv).1)) ≤ room
        → (ms : List (List ℕ)) × (concat tox limit ms
            ≡ concat tox limit (texts ++ rest_texts (si.getopt_long argv).1))
          × All (λ m. (0 < length m) × (length m ≤ limit)) ms
          × (friend_message tox limit stdio A si n memory size w
              ≡ some (
                  returned (with_tox tox limit stdio A si w' (send_all tox limit w'.bot.tox n ms))))
    friend_message_answers n memory size stream w w' argv texts Hears l heard hears opened empty off
          parsed stay said done fits =
        let (stream', same, held) =
          friend_message_waits tox limit stdio A si room pending laws n memory size stream w w' argv
            texts opened empty off parsed stay said done fits in
        let (ms, joined, sizes, closed) =
          close_sends tox limit stdio A si room pending laws n stream' w'
            (concat tox limit (texts ++ rest_texts (si.getopt_long argv).1)) Hears l heard hears
            held in
        (ms, joined, sizes, same ∙ ap (λ v. some (returned v)) closed)

    -- The goodbye of forgetme reaches nobody: where fopencookie gives an empty, fully buffered
    -- stream with room for it, xdcc is off, getopt_long finds this one option and no other
    -- argument, and toxcore, once the friend is deleted, refuses every message to it,
    -- friend_message returns and the world afterwards is the one before with the friend deleted.
    -- toxcore has seen no message at all.
    pub forgetme_unheard :
        (n : ℕ) (memory : List ℕ) (size : ℕ) (stream : stdio.Stream) (w : Here tox limit stdio A si)
        (argv : List (List ℕ)) (o : Opt)
        → stdio.opened ≡ some stream
        → pending stream ≡ []
        → w.on ≡ false
        → argexp memory size b'!' ≡ some argv
        → si.getopt_long argv ≡ (o ∷ [], [])
        → case_of o.code ≡ forgetme
        → 41 ≤ room
        → ((m : List ℕ)
            → tox.friend_send_message (tox.friend_delete w.bot.tox n).1 n m
              ≡ (false, (tox.friend_delete w.bot.tox n).1))
        → friend_message tox limit stdio A si n memory size w
          ≡ some (returned (with_tox tox limit stdio A si w (tox.friend_delete w.bot.tox n).1))
    unfolding rest_texts
    forgetme_unheard n memory size stream w argv o opened empty off parsed found goodbye fits
          refused =
        let (stream', same, held) =
          run_options_waits tox limit stdio A si room pending laws n [] (o ∷ []) 0 stream w
            (with_tox tox limit stdio A si w (tox.friend_delete w.bot.tox n).1) (goodbye_text ∷ [])
            (ap (ends tox limit stdio A si) goodbye, tt) (says n o goodbye) (does n o w goodbye)
            (omega (arith, ap length empty)) in
        friend_message_argv tox limit stdio A si n memory size stream w argv opened off parsed
        ∙ ap (λ r. run_options tox limit stdio A si n r.1 r.0 0 stream w) found
        ∙ same
        ∙ ap (λ v. some (returned v))
            (close_flushes tox limit stdio A si room pending laws n stream'
                (with_tox tox limit stdio A si w (tox.friend_delete w.bot.tox n).1)
                (pending stream') refl
              ∙ ap (with_tox tox limit stdio A si w) (
                  unheard tox limit stdio A si room pending laws n (tox.friend_delete w.bot.tox n).1
                    (pending stream') refused))
