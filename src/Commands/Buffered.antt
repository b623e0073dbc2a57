-- ===== src/Commands/Buffered.antt =====
-- The texts of a message's commands wait in the buffer of the stream.
use tox_suite.Base.{
  ℕ, ◌+◌, ◌≤◌, ◌<◌, ◌≡◌, refl, sym, ap, ◌∙◌, false, Option, some, List, [], ◌∷◌, ◌++◌, arith, ◌==◌,
  if◌then◌else◌, length, All, length-append,
}
use mathlib.Core.List.{append-nil, append_assoc}
use mathlib.Core.Option.{some-injective}
use tox_suite.Base.Results.{◌>>=◌, >>=-eq-some}
use tox_suite.Misc.Stream.{
  concat, send_all, toxstream_write, toxstream_write_lem, IsHeard, toxstream_write_refused,
}
use tox_suite.Tox.{Tox}
use tox_suite.Commands.Arguments.{argexp}
use tox_suite.Commands.Replies.{Opt, case_of, rest_texts, Stdio, Services}
use tox_suite.Commands.Dialogue.{
  World, returned, writer, ends, case_texts, case_action, print_all, with_tox, close, run_options,
  run_execute, after_open, after_execute, after_argexp, friend_message,
}

-- Full buffering: a text that fits the buffer waits there, and fclose gives what waits to the write
-- function at once.
pub record IsBuffered (stdio : Stdio) (room : ℕ) (pending : stdio.Stream → List ℕ) : Type 1 where
  pub waits :
      (S : Type 0) (write : S → List ℕ → ℕ × S) (stream : stdio.Stream) (text : List ℕ) (t : S)
      → length (pending stream) + length text ≤ room
      → (stream' : stdio.Stream) × (stdio.fprintf S write stream text t ≡ (stream', t))
        × (pending stream' ≡ pending stream ++ text)
  pub flushes :
      (S : Type 0) (write : S → List ℕ → ℕ × S) (stream : stdio.Stream) (t : S)
      → stdio.fclose S write stream t
        ≡ (if length (pending stream) == 0 then t else (write t (pending stream)).1)

module _ (tox : Tox) (limit : ℕ) (stdio : Stdio) (A : Type 0) (si : Services tox.State A) where
  abbrev pub Here : Type 0
  Here = World tox limit stdio A si

  -- The texts that the options of a message print, and the world after their actions.
  abbrev pub all_texts : ℕ → List Opt → ℕ → Option (List (List ℕ))
  all_texts n [] d = some []
  all_texts n (o ∷ opts) d = do
    said ← case_texts tox limit stdio A si (case_of o.code) o n d
    more ← all_texts n opts said.1
    some (said.0 ++ more)

  abbrev pub all_actions : ℕ → List Opt → Here → Option Here
  all_actions n [] w = some w
  all_actions n (o ∷ opts) w = do
    w' ← case_action tox limit stdio A si (case_of o.code) n w
    all_actions n opts w'

  all_texts-cons :
      (n : ℕ) (o : Opt) (opts : List Opt) (d : ℕ) (texts : List (List ℕ))
      → all_texts n (o ∷ opts) d ≡ some texts
      → (first : List (List ℕ)) × (d' : ℕ) × (more : List (List ℕ)) × (case_texts tox limit stdio A
            si
            (case_of o.code)
            o
            n
            d
          ≡ some (first, d'))
        × (all_texts n opts d' ≡ some more)
        × (first ++ more ≡ texts)
  all_texts-cons n o opts d texts said =
      let (r, first_said, said') =
        >>=-eq-some (case_texts tox limit stdio A si (case_of o.code) o n d)
          (λ r. all_texts n opts r.1 >>= (λ more. some (r.0 ++ more))) said in
      let (more, more_said, joined) =
        >>=-eq-some (all_texts n opts r.1) (λ more. some (r.0 ++ more)) said' in
      (r.0, r.1, more, first_said, more_said, some-injective (r.0 ++ more) texts joined)

  run_options-cons :
      (n : ℕ) (rest : List (List ℕ)) (o : Opt) (opts : List Opt) (d d' : ℕ)
      (stream s : stdio.Stream) (w w1 : Here) (first : List (List ℕ))
      → case_texts tox limit stdio A si (case_of o.code) o n d ≡ some (first, d')
      → print_all tox limit stdio A si n stream first w.bot.tox ≡ (s, w.bot.tox)
      → ends tox limit stdio A si (case_of o.code) ≡ false
      → case_action tox limit stdio A si (case_of o.code) n w ≡ some w1
      → run_options tox limit stdio A si n rest (o ∷ opts) d stream w
        ≡ run_options tox limit stdio A si n rest opts d' s w1
  unfolding run_options
  run_options-cons n rest o opts d d' stream s w w1 first said printed stay acted =
      rw (said, run_options)
        (rw stay (
          rw printed
            (rw acted (ap (λ p. run_options tox limit stdio A si n rest opts d' p.0 w1) printed))))

  -- Up to the loop nothing happens to a command while xdcc is off.
  pub friend_message_argv :
      (n : ℕ) (memory : List ℕ) (size : ℕ) (stream : stdio.Stream) (w : Here) (argv : List (List ℕ))
      → stdio.opened ≡ some stream
      → w.on ≡ false
      → argexp memory size b'!' ≡ some argv
      → friend_message tox limit stdio A si n memory size w
        ≡ run_options tox limit stdio A si n
            (si.getopt_long argv).1
            (si.getopt_long argv).0
            0
            stream
            w
  unfolding friend_message run_execute
  friend_message_argv n memory size stream w argv opened off parsed =
      ap (λ o. after_open tox limit stdio A si o n memory size w) opened
      ∙ ap
          (λ b.
            after_execute tox limit stdio A si (run_execute tox limit stdio A si b n memory w) n
              size stream)
          off
      ∙ ap (λ o. after_argexp tox limit stdio A si o n stream w) parsed

  concat-append :
      (xs ys : List (List ℕ))
      → concat tox limit (xs ++ ys) ≡ concat tox limit xs ++ concat tox limit ys
  concat-append [] ys = refl
  concat-append (x ∷ xs) ys = simp (concat-append xs ys, append_assoc)

  module _ (room : ℕ) (pending : stdio.Stream → List ℕ) (laws : IsBuffered stdio room pending) where
    print_all_waits :
        (n : ℕ) (texts : List (List ℕ)) (stream : stdio.Stream) (t : tox.State)
        → length (pending stream) + length (concat tox limit texts) ≤ room
        → (stream' : stdio.Stream) × (print_all tox limit stdio A si n stream texts t
            ≡ (stream', t))
          × (pending stream' ≡ pending stream ++ concat tox limit texts)
    unfolding print_all
    print_all_waits n [] stream t fits = (stream, refl, sym (append-nil (pending stream)))
    print_all_waits n (text ∷ texts) stream t fits =
        let (s, same, held) =
          laws.waits tox.State (writer tox limit stdio A si n) stream text t
            (omega (arith, length-append text (concat tox limit texts))) in
        let (s', same', held') = print_all_waits n texts s t (
          omega (
            arith,
            ap length held,
            length-append (pending stream) text,
            length-append text (concat tox limit texts),
          )) in
        (
          s',
          rw same same',
          held'
              ∙ ap (λ p. p ++ concat tox limit texts) held
              ∙ append_assoc (pending stream) text (concat tox limit texts),
        )

    pub run_options_waits :
        (n : ℕ) (rest : List (List ℕ)) (opts : List Opt) (d : ℕ) (stream : stdio.Stream)
        (w w' : Here) (texts : List (List ℕ))
        → All (λ o. ends tox limit stdio A si (case_of o.code) ≡ false) opts
        → all_texts n opts d ≡ some texts
        → all_actions n opts w ≡ some w'
        → length (pending stream) + length (concat tox limit (texts ++ rest_texts rest)) ≤ room
        → (stream' : stdio.Stream) × (run_options tox limit stdio A si n rest opts d stream w
            ≡ some (returned (close tox limit stdio A si n stream' w')))
          × (pending stream' ≡ pending stream ++ concat tox limit (texts ++ rest_texts rest))
    unfolding run_options
    run_options_waits n rest [] d stream w w' texts stay said done fits =
        let empty : [] ≡ texts = some-injective [] texts said in
        let (s, same, held) =
          print_all_waits n (rest_texts rest) stream w.bot.tox
            (omega (arith, ap (λ ts. length (concat tox limit (ts ++ rest_texts rest))) empty)) in
        (
          s,
          rw same (
              ap (λ v. some (returned (close tox limit stdio A si n s v)))
                (some-injective w w' done)),
          held ∙ ap (λ ts. pending stream ++ concat tox limit (ts ++ rest_texts rest)) empty,
        )
    run_options_waits n rest (o ∷ opts) d stream w w' texts stay said done fits =
        let (first, d', more, first_said, more_said, whole) =
          all_texts-cons n o opts d texts said in
        let (w1, acted, done') =
          >>=-eq-some (case_action tox limit stdio A si (case_of o.code) n w) (all_actions n opts)
            done in
        let split : concat tox limit (texts ++ rest_texts rest)
            ≡ concat tox limit first ++ concat tox limit (more ++ rest_texts rest) =
          ap (λ ts. concat tox limit (ts ++ rest_texts rest)) (sym whole)
          ∙ ap (concat tox limit) (append_assoc first more (rest_texts rest))
          ∙ concat-append first (more ++ rest_texts rest) in
        let sizes : length (concat tox limit (texts ++ rest_texts rest))
            ≡ length (concat tox limit first)
              + length (concat tox limit (more ++ rest_texts rest)) =
          ap length split
          ∙ length-append (concat tox limit first) (concat tox limit (more ++ rest_texts rest)) in
        let (s, same, held) = print_all_waits n first stream w.bot.tox (omega (arith, sizes)) in
        let (s', same', held') =
          run_options_waits n rest opts d' s w1 w' more stay.1 more_said done' (
            omega (
              arith,
              sizes,
              ap length held,
              length-append (pending stream) (concat tox limit first),
            )) in
        (
          s',
          run_options-cons n rest o opts d d' stream s w w1 first first_said same stay.0 acted
              ∙ same',
          held'
              ∙ ap (λ p. p ++ concat tox limit (more ++ rest_texts rest)) held
              ∙ append_assoc (pending stream) (concat tox limit first)
                  (concat tox limit (more ++ rest_texts rest))
              ∙ ap (λ c. pending stream ++ c) (sym split),
        )

    -- What fclose makes of a stream in which a text waits.
    abbrev pub flushed : ℕ → tox.State → List ℕ → tox.State
    flushed n t [] = t
    flushed n t (c ∷ cs) = (toxstream_write tox limit t n (c ∷ cs)).1

    flushed_lem :
        (n : ℕ) (t : tox.State) (p : List ℕ)
        → (if length p == 0 then t else (toxstream_write tox limit t n p).1) ≡ flushed n t p
    flushed_lem n t [] = refl
    flushed_lem n t (c ∷ cs) = ground arith

    pub close_flushes :
        (n : ℕ) (stream : stdio.Stream) (w : Here) (total : List ℕ)
        → pending stream ≡ total
        → close tox limit stdio A si n stream w
          ≡ with_tox tox limit stdio A si w (flushed n w.bot.tox total)
    close_flushes n stream w total held = ap (with_tox tox limit stdio A si w) (
        laws.flushes tox.State (writer tox limit stdio A si n) stream w.bot.tox
        ∙ flushed_lem n w.bot.tox (pending stream)
        ∙ ap (flushed n w.bot.tox) held)

    -- What a message comes to that is only given to getopt_long.
    pub friend_message_waits :
        (n : ℕ) (memory : List ℕ) (size : ℕ) (stream : stdio.Stream) (w w' : Here)
        (argv : List (List ℕ)) (texts : List (List ℕ))
        → stdio.opened ≡ some stream
        → pending stream ≡ []
        → w.on ≡ false
        → argexp memory size b'!' ≡ some argv
        → All (λ o. ends tox limit stdio A si (case_of o.code) ≡ false) (si.getopt_long argv).0
        → all_texts n (si.getopt_long argv).0 0 ≡ some texts
        → all_actions n (si.getopt_long argv).0 w ≡ some w'
        → length (concat tox limit (texts ++ rest_texts (si.getopt_long argv).1)) ≤ room
        → (stream' : stdio.Stream) × (friend_message tox limit stdio A si n memory size w
            ≡ some (returned (close tox limit stdio A si n stream' w')))
          × (pending stream' ≡ concat tox limit (texts ++ rest_texts (si.getopt_long argv).1))
    friend_message_waits n memory size stream w w' argv texts opened empty off parsed stay said done
          fits =
        let (stream', same, held) =
          run_options_waits n (si.getopt_long argv).1 (si.getopt_long argv).0 0 stream w w' texts
            stay said done (omega (arith, ap length empty)) in
        (
          stream',
          friend_message_argv n memory size stream w argv opened off parsed ∙ same,
          held
              ∙ ap (λ p. p ++ concat tox limit (texts ++ rest_texts (si.getopt_long argv).1)) empty,
        )

    pub close_sends :
        (n : ℕ) (stream : stdio.Stream) (w : Here) (total : List ℕ) (Hears : tox.State → Type 0)
        → 0 < limit
        → IsHeard tox limit n Hears
        → Hears w.bot.tox
        → pending stream ≡ total
        → (ms : List (List ℕ)) × (concat tox limit ms ≡ total)
          × All (λ m. (0 < length m) × (length m ≤ limit)) ms
          × (close tox limit stdio A si n stream w
              ≡ with_tox tox limit stdio A si w (send_all tox limit w.bot.tox n ms))
    close_sends n stream w [] Hears l heard hears held =
        ([], refl, tt, close_flushes n stream w [] held)
    close_sends n stream w (c ∷ cs) Hears l heard hears held =
        let (ms, joined, sizes, written) =
          toxstream_write_lem tox limit n Hears l heard w.bot.tox (c ∷ cs) hears in
        (
          ms,
          joined,
          sizes,
          close_flushes n stream w (c ∷ cs) held
              ∙ ap (λ r. with_tox tox limit stdio A si w r.1) written,
        )

    pub unheard :
        (n : ℕ) (t : tox.State) (p : List ℕ)
        → ((m : List ℕ) → tox.friend_send_message t n m ≡ (false, t))
        → flushed n t p ≡ t
    unheard n t [] refused = refl
    unheard n t (c ∷ cs) refused = toxstream_write_refused tox limit t n c cs refused
