-- ===== src/Call/Steps.antt =====
-- The steps of a call tester, and what the callbacks and the iterations keep.
use tox_suite.Base.Results.{on_result}
use tox_suite.Base.{length, ◌*◌}
use tox_suite.Base.{
  ℕ, ◌*◌, ◌/◌, ◌≡◌, refl, ap, ◌⊎◌, inl, inr, Bool, true, false, Option, none, some, List, arith,
  ltb, ◌==◌, if◌then◌else◌, Bool-cases, Option-cases,
}
use tox_suite.Tox.{Tox}
use tox_suite.Base.Results.{OnResult, on_result}
use tox_suite.Timespec.{Timespec, nanosec_timeout, nsec_per_msec, nsec_per_sec}
use tox_suite.Transfer.Send.{add_filesender}
use tox_suite.Toxav.{Toxav, unmute_audio}
use tox_suite.Call.{
  CallStep, entering, greeter, recording, saving, sending, echoing, bye, next_step, Recording,
  CallTester, audio_playback, Played, advance, call_test_duration, frame_pointer, frame_size, play,
  sent_frame,
}
use tox_suite.Call.OneShot.{
  World, Stepped, calltest_iterate_one_shot, greet, enter, record_until, save, send_recording, echo,
  in_av, recording_sender,
}

-- The moves of a tester within an iteration.
pub data Moves : CallStep → CallStep → Type 0 where
  -- An iteration that enters plays the greeting too, or finds nothing to play.
  greets : Moves entering greeter
  greets_silently : Moves entering recording
  plays_greeting : Moves greeter greeter
  greeted : Moves greeter recording
  records : Moves recording recording
  recorded : Moves recording saving
  saved : Moves saving sending
  sends : Moves sending echoing
  plays_echo : Moves echoing echoing
  echoed : Moves echoing bye

sent_frame-keeps :
    (av : Toxav) (ct : CallTester) (rec : Recording) (r : Bool × av.State)
    → ((sent_frame av ct rec r).tester.step ≡ ct.step)
      × ((sent_frame av ct rec r).tester.friend_number ≡ ct.friend_number)
unfolding sent_frame
sent_frame-keeps av ct rec (true, s) = (refl, refl)
sent_frame-keeps av ct rec (false, s) = (refl, refl)

play-keeps :
    (av : Toxav) (s : av.State) (ct : CallTester) (rec : Recording)
    → OnResult
        (λ p. (p.tester.step ≡ ct.step) × (p.tester.friend_number ≡ ct.friend_number))
        (play av s ct rec)
unfolding play
play-keeps av s ct rec = elim (Bool-cases (ltb ct.samples_send rec.samples_count)) [
  | inl e ↦
      elim (Bool-cases
        (ltb (length (frame_pointer av ct rec)) (frame_size av rec * rec.channels))) [
          | inl f ↦ rw e (rw f tt)
          | inr f ↦ rw e (
              rw f (
                sent_frame-keeps av ct rec (
                  av.audio_send_frame s ct.friend_number (frame_pointer av ct rec)
                    (frame_size av rec) rec.channels rec.samplerate)))
        ]
  | inr e ↦ rw e (refl, refl)
]

audio_playback-keeps :
    (av : Toxav) (s : av.State) (ct : CallTester) (rec : Option Recording) (p : Played av)
    → audio_playback av s ct rec ≡ some p
    → (p.tester.step ≡ ct.step) × (p.tester.friend_number ≡ ct.friend_number)
unfolding audio_playback
audio_playback-keeps av s ct none p h = cc
audio_playback-keeps av s ct (some rec) p h = elim (Bool-cases (rec.samplerate == 0)) [
  | inl e ↦ absurd (ground (arith, e, h))
  | inr e ↦
      on_result (λ p. (p.tester.step ≡ ct.step) × (p.tester.friend_number ≡ ct.friend_number))
        (play av s (record ct { delay = frame_size av rec * 1000 / rec.samplerate * nsec_per_msec })
          rec)
        p
        (play-keeps av s
          (record ct { delay = frame_size av rec * 1000 / rec.samplerate * nsec_per_msec }) rec)
        (ground (arith, e, h))
]

-- Where the tester stands after an iteration that found it in a step.
abbrev pub Follows : CallTester → Option CallTester → Type 0
Follows ct none = ct.step ≡ bye
Follows ct (some ct') = Moves ct.step ct'.step × (ct'.friend_number ≡ ct.friend_number)

module _ (tox : Tox) (av : Toxav) (fopen : List ℕ → Option (List ℕ)) (fresh : Recording)
    (greeting : Option Recording) (tp : Timespec) where
  -- The tester stays in the step or goes to the next.
  abbrev Along : CallStep → ℕ → Stepped tox av fopen → Type 0
  Along from number r =
      (ct' : CallTester) × (r.tester ≡ some ct')
      × ((ct'.step ≡ from) ⊎ (ct'.step ≡ next_step from))
      × (ct'.friend_number ≡ number)

  playback-Along :
      (o : Option (Played av)) (ended going : Played av → Stepped tox av fopen) (from : CallStep)
      (n : ℕ)
      → ((p : Played av) → o ≡ some p → Along from n (ended p) × Along from n (going p))
      → OnResult (Along from n) (elim o [
        | none ↦ none
        | some p ↦ if p.count == 0 then some (ended p) else some (going p)
      ])
  playback-Along none ended going from n h = tt
  playback-Along (some p) ended going from n h = elim (Bool-cases (p.count == 0)) [
    | inl e ↦ rw e (h p refl).0
    | inr e ↦ rw e (h p refl).1
  ]

  greet-Along :
      (w : World tox av fopen) (ct : CallTester)
      → OnResult (Along ct.step ct.friend_number) (greet tox av fopen greeting tp w ct)
  unfolding greet
  greet-Along w ct =
      playback-Along (audio_playback av w.av_state ct greeting)
        (λ p. record {
          world = in_av tox av fopen w (av.call_control p.av ct.friend_number unmute_audio);
          tester = some (advance (record (p.tester) { callstart = tp }));
        })
        (λ p. record { world = in_av tox av fopen w p.av; tester = some p.tester }) ct.step
        ct.friend_number
        (λ p e.
          let (same, number) = audio_playback-keeps av w.av_state ct greeting p e in
          (
            (advance (record (p.tester) { callstart = tp }), refl, inr (ap next_step same), number),
            (p.tester, refl, inl same, number),
          ))

  echo-Along :
      (w : World tox av fopen) (ct : CallTester)
      → OnResult (Along ct.step ct.friend_number) (echo tox av fopen w ct)
  unfolding echo
  echo-Along w ct =
      playback-Along (audio_playback av w.av_state ct (some ct.ctrecord))
        (λ p. record { world = in_av tox av fopen w p.av; tester = some (advance p.tester) })
        (λ p. record { world = in_av tox av fopen w p.av; tester = some p.tester }) ct.step
        ct.friend_number
        (λ p e.
          let (same, number) = audio_playback-keeps av w.av_state ct (some ct.ctrecord) p e in
          (
            (advance p.tester, refl, inr (ap next_step same), number),
            (p.tester, refl, inl same, number),
          ))

  record-Along :
      (w : World tox av fopen) (ct : CallTester)
      → OnResult (Along ct.step ct.friend_number) (record_until tox av fopen tp w ct)
  unfolding record_until
  record-Along w ct =
      elim (Bool-cases (nanosec_timeout ct.callstart tp (call_test_duration * nsec_per_sec))) [
        | inl e ↦ rw e (advance ct, refl, inr refl, refl)
        | inr e ↦ rw e (ct, refl, inl refl, refl)
      ]

  follow :
      (from here : CallStep) (ct : CallTester) (o : Option (Stepped tox av fopen))
      → ct.step ≡ from
      → Moves from here
      → Moves from (next_step here)
      → OnResult (Along here ct.friend_number) o
      → OnResult (λ r. Follows ct r.tester) o
  follow from here ct none at_step stay go h = tt
  follow from here ct (some r) at_step stay go (ct', e, inl step, n) =
      rw e (rw (at_step, step) stay, n)
  follow from here ct (some r) at_step stay go (ct', e, inr step, n) =
      rw e (rw (at_step, step) go, n)

  send-Follows :
      (w : World tox av fopen) (ct : CallTester)
      → ct.step ≡ sending
      → OnResult (λ r. Follows ct r.tester) (send_recording tox av fopen w ct)
  unfolding send_recording next_step
  send-Follows w ct at_step =
      elim (Option-cases
        (add_filesender tox fopen (recording_sender tox av fopen ct) w.heap w.tox_state)) [
          | inl e ↦ rw (e, send_recording, OnResult) tt
          | inr (offered, e) ↦ rw (e, send_recording, OnResult) (rw at_step sends, refl)
        ]

  pub by_step :
      (w : World tox av fopen) (ct : CallTester) (step : CallStep)
      → OnResult
          (λ r. Follows (record ct { step = step }) r.tester)
          (calltest_iterate_one_shot tox av fopen fresh greeting tp w (record ct { step = step }))
  unfolding calltest_iterate_one_shot enter save next_step
  by_step w ct entering =
      let (w', ct') = enter tox av fopen fresh w (record ct { step = entering }) in
      follow entering greeter (record ct { step = entering })
        (greet tox av fopen greeting tp w' ct') refl greets greets_silently (greet-Along w' ct')
  by_step w ct greeter =
      follow greeter greeter (record ct { step = greeter })
        (greet tox av fopen greeting tp w (record ct { step = greeter })) refl plays_greeting
        greeted (greet-Along w (record ct { step = greeter }))
  by_step w ct recording =
      follow recording recording (record ct { step = recording })
        (record_until tox av fopen tp w (record ct { step = recording })) refl records recorded
        (record-Along w (record ct { step = recording }))
  by_step w ct saving = (saved, refl)
  by_step w ct sending = send-Follows w (record ct { step = sending }) refl
  by_step w ct echoing =
      follow echoing echoing (record ct { step = echoing })
        (echo tox av fopen w (record ct { step = echoing })) refl plays_echo echoed
        (echo-Along w (record ct { step = echoing }))
  by_step w ct bye = refl

  -- Each iteration moves a tester along the steps of the call test, in their order, and drops it in
  -- the step BYE and in no other.
  pub calltest_iterate_one_shot_moves :
      (w : World tox av fopen) (ct : CallTester) (r : Stepped tox av fopen)
      → calltest_iterate_one_shot tox av fopen fresh greeting tp w ct ≡ some r
      → Follows ct r.tester
  calltest_iterate_one_shot_moves w ct r h =
      on_result (λ r. Follows ct r.tester)
        (calltest_iterate_one_shot tox av fopen fresh greeting tp w ct) r (by_step w ct ct.step) h
