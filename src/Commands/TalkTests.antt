-- ===== src/Commands/TalkTests.antt =====
-- Messages of a friend at concrete inputs.
use tox_suite.Base.{
  ℕ, ◌+◌, ◌≤◌, ◌<◌, ◌≡◌, refl, Bool, true, false, none, some, List, [], ◌∷◌, ◌++◌, arith, le→leb,
  length, All,
}
use tox_suite.Base.Texts.{codes, c_string}
use tox_suite.Friend.{friend_info_by_friend_number}
use tox_suite.Friend.Printing.{line, friend_info_print}
use tox_suite.Misc.Text.{gnu_basename}
use tox_suite.Misc.Sizes.{human_readable_filesize}
use tox_suite.Base.{not, ◌&&◌, leb, ◌==◌, if◌then◌else◌, Bool-cases, inl, inr}
use tox_suite.Misc.Stream.{IsHeard, concat, send_all}
use tox_suite.Tox.{Tox}
use tox_suite.Tox.Recorder.{recorder, Call, deleted, messaged}
use tox_suite.Commands.{parse_command, put_arg}
use tox_suite.Commands.Arguments.{IsToken, argexp}
use tox_suite.Commands.Execute.{execute}
use tox_suite.Commands.Replies.{case_of, forgetme, pamarkdown, printf_file, rest_texts}
use tox_suite.Commands.Samples.{room, printed, plain_stdio, waiting, option, services}
use tox_suite.Commands.Dialogue.{
  World, returned, exited, ends, case_texts, case_action, with_tox, run_options, friend_message,
}
use tox_suite.Commands.Buffered.{IsBuffered, all_texts, all_actions}
use tox_suite.Commands.Answers.{friend_message_answers, forgetme_unheard}
use tox_suite.Base.Int.{pos}
use tox_suite.Transfer.{FileNode, zero_node}
use tox_suite.Commands.Announcing.{
  Groups, groupmsg_size, announcement, on_new_file, on_new_file_announces,
}
use tox_suite.Commands.Xdcc.{xdcc_drops_arguments, pamarkdown_exits}

printed_waits :
    (S : Type 0) (write : S → List ℕ → ℕ × S) (stream text : List ℕ) (t : S)
    → length stream + length text ≤ room
    → printed S write stream text t ≡ (stream ++ text, t)
printed_waits S write stream text t fits = rw (le→leb _ _ fits) refl

plain_stdio-IsBuffered : IsBuffered plain_stdio room waiting
plain_stdio-IsBuffered = record {
  waits = λ S write stream text t fits.
      (stream ++ text, printed_waits S write stream text t fits, refl);
  flushes = λ S write stream t. refl;
}

abbrev Bots : Type 0
Bots = World recorder 1372 plain_stdio (List ℕ) services

abbrev before : Bots
before = record { bot = record { queue = []; heap = []; tox = [] }; av = []; on = false }

-- A toxcore that takes a message to a friend that is not deleted, if it is neither empty nor too
-- long.
abbrev reaches : ℕ → List Call → Bool
reaches n [] = true
reaches n (deleted k ∷ s) = not (k == n) && reaches n s
reaches n (c ∷ s) = reaches n s

abbrev takes : List Call → ℕ → List ℕ → Bool × List Call
takes s n m =
    if reaches n s && not (length m == 0) && leb (length m) 1372
    then (true, messaged n m ∷ s)
    else (false, s)

abbrev talkative : Tox
talkative = record recorder { friend_send_message = takes }

talkative-IsHeard : IsHeard talkative 1372 5 (λ s. reaches 5 s ≡ true)
talkative-IsHeard t m hears some_text fits = elim (Bool-cases (takes_it t m)) [
  | inl e ↦ rw e (refl, hears)
  | inr e ↦ absurd (ground (arith, e, hears, some_text, fits))
]
  where
    takes_it : List Call → List ℕ → Bool
    takes_it t m = reaches 5 t && not (length m == 0) && leb (length m) 1372

abbrev answer_texts : List (List ℕ)
answer_texts =
    line (codes "Name : Ann")
    ∷ line (codes "Status message : hello")
    ∷ line (codes "Tox Public key : AB")
    ∷ line (codes "Status : away")
    ∷ []

abbrev asked : List (List ℕ)
asked = codes "arg0" ∷ codes "--whoiam" ∷ codes "--callme" ∷ codes "now" ∷ []

asked-argexp : argexp (codes "!whoiam --callme now") 20 b'!' ≡ some asked
unfolding argexp
asked-argexp = refl

abbrev ready : World talkative 1372 plain_stdio (List ℕ) services
ready = record { bot = record { queue = []; heap = []; tox = [] }; av = []; on = false }

asked_stay :
    All
      (λ o. ends talkative 1372 plain_stdio (List ℕ) services (case_of o.code) ≡ false)
      (services.getopt_long asked).0
unfolding case_of
asked_stay = (refl, (refl, tt))

asked-all_texts :
    all_texts talkative 1372 plain_stdio (List ℕ) services 5 (services.getopt_long asked).0 0
    ≡ some answer_texts
unfolding case_of case_texts friend_info_by_friend_number friend_info_print
asked-all_texts = refl

asked-all_actions :
    all_actions talkative 1372 plain_stdio (List ℕ) services 5 (services.getopt_long asked).0 ready
    ≡ some (record ready { av = 5 ∷ [] })
unfolding case_of case_action
asked-all_actions = refl

asked_fits :
    length (concat talkative 1372 (answer_texts ++ rest_texts (services.getopt_long asked).1))
    ≤ room
unfolding rest_texts
asked_fits = omega arith

friend_message_answers_example :
    (ms : List (List ℕ)) × (concat talkative 1372 ms
      ≡ concat talkative 1372 (answer_texts ++ rest_texts (codes "now" ∷ [])))
    × All (λ m. (0 < length m) × (length m ≤ 1372)) ms
    × (friend_message talkative 1372 plain_stdio
          (List ℕ)
          services
          5
          (codes "!whoiam --callme now")
          20
          ready
        ≡ some (
            returned (
              with_tox talkative 1372 plain_stdio
                (List ℕ)
                services
                (record ready { av = 5 ∷ [] })
                (send_all talkative 1372 [] 5 ms))))
friend_message_answers_example =
    friend_message_answers talkative 1372 plain_stdio (List ℕ) services room waiting
      plain_stdio-IsBuffered 5 (codes "!whoiam --callme now") 20 [] ready
      (record ready { av = 5 ∷ [] }) asked answer_texts (λ s. reaches 5 s ≡ true) (omega arith)
      talkative-IsHeard refl refl refl refl asked-argexp asked_stay asked-all_texts
      asked-all_actions asked_fits

-- A toxcore that knows no message for anybody once it has deleted a friend.
abbrev hears : List Call → ℕ → List ℕ → Bool × List Call
hears (deleted k ∷ s) n m = (false, deleted k ∷ s)
hears s n m = (true, messaged n m ∷ s)

abbrev forgetful : Tox
forgetful = record recorder { friend_send_message = hears }

leave-argexp : argexp (codes "!forgetme") 9 b'!' ≡ some (codes "arg0" ∷ codes "--forgetme" ∷ [])
unfolding argexp
leave-argexp = refl

leave-case_of : case_of b'g' ≡ forgetme
unfolding case_of
leave-case_of = refl

abbrev stranger : World forgetful 1372 plain_stdio (List ℕ) services
stranger = record { bot = record { queue = []; heap = []; tox = [] }; av = []; on = false }

forgetme_unheard_example :
    friend_message forgetful 1372 plain_stdio (List ℕ) services 5 (codes "!forgetme") 9 stranger
    ≡ some
        (returned (with_tox forgetful 1372 plain_stdio (List ℕ) services stranger (deleted 5 ∷ [])))
forgetme_unheard_example =
    forgetme_unheard forgetful 1372 plain_stdio (List ℕ) services room waiting
      plain_stdio-IsBuffered 5 (codes "!forgetme") 9 [] stranger
      (codes "arg0" ∷ codes "--forgetme" ∷ []) (option b'g') refl refl refl leave-argexp refl
      leave-case_of (omega arith) (λ m. refl)

callme-IsToken : IsToken (codes "callme")
callme-IsToken = record {
  text = omega arith;
  no_space = omega arith;
  not_empty = λ e. ground (arith, e);
}

nothing-execute :
    execute recorder services.render services.list_writable services.fopen services.time_text
      services.bin2hex services.invite_friend services.group_chat_number services.fnode
      (c_string (codes "!callme now"))
      5
      before.bot
    ≡ some before.bot
unfolding execute parse_command put_arg
nothing-execute = refl

xdcc_drops_arguments_example :
    friend_message recorder 1372 plain_stdio
      (List ℕ)
      services
      5
      (codes "!callme now")
      11
      (record before { on = true })
    ≡ run_options recorder 1372 plain_stdio
        (List ℕ)
        services
        5
        []
        (option b'c' ∷ [])
        0
        []
        (record before { on = true })
xdcc_drops_arguments_example =
    xdcc_drops_arguments recorder 1372 plain_stdio (List ℕ) services 5 (codes "callme")
      (codes "now") 11 [] (record before { on = true }) before.bot refl refl nothing-execute
      callme-IsToken (omega arith)

long-argexp : argexp (codes "!pamarkdown") 11 b'!' ≡ some (codes "arg0" ∷ codes "--pamarkdown" ∷ [])
unfolding argexp
long-argexp = refl

long-case_of : case_of b'p' ≡ pamarkdown
unfolding case_of
long-case_of = refl

pamarkdown_exits_example :
    (v : Bots) × (friend_message recorder 1372 plain_stdio
        (List ℕ)
        services
        5
        (codes "!pamarkdown")
        11
        before
      ≡ some (exited (printf_file (λ name. none) true (codes "pa.md")).0 v))
pamarkdown_exits_example =
    pamarkdown_exits recorder 1372 plain_stdio (List ℕ) services 5 (codes "!pamarkdown") 11 []
      before (codes "arg0" ∷ codes "--pamarkdown" ∷ []) (option b'p') [] [] refl refl long-argexp
      refl long-case_of

-- Group chats that keep what they are told.
abbrev chats : Groups (List (List ℕ))
chats = record { add_groupchat = λ s. (pos 0, s); group_message_send = λ s n m. m ∷ s }

abbrev song : FileNode
song = record zero_node { file = some (codes "/srv/pub/song.ogg"); length = 2048 }

on_new_file_announces_example :
    (hu_size : List ℕ) × (human_readable_filesize 2048 ≡ some hu_size)
    × (length (announcement chats (pos 3) hu_size (codes "/srv/pub/song.ogg")) + 1 ≤ groupmsg_size)
    × (on_new_file chats [] (pos 0) song (pos 3) []
        ≡ some ((announcement chats (pos 3) hu_size (codes "/srv/pub/song.ogg") ++ 0 ∷ []) ∷ []))
unfolding gnu_basename
on_new_file_announces_example =
    on_new_file_announces chats [] (pos 0) song 3 [] (codes "/srv/pub/song.ogg") refl refl
      (omega arith) (omega arith) (omega arith)
