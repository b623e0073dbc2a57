-- ===== src/Call/OneShot.antt =====
-- calltest_iterate_one_shot and calltest_iterate of src/call.c: what a tester does in each step,
-- and the iteration over all testers.
use tox_suite.Base.{ℕ, ◌*◌, Option, none, some, List, [], ◌∷◌, ◌==◌, if◌then◌else◌, take}
use mathlib.Core.Option
use tox_suite.Base.Heap.{Heap}
use tox_suite.Timespec.{Timespec, nanosec_timeout, nsec_per_sec}
use tox_suite.Tox.{Tox}
use tox_suite.Toxav.{Toxav, mute_audio, unmute_audio, cancel}
use tox_suite.Transfer.{FileSender, zero_sender, zero_node}
use tox_suite.Transfer.Send.{add_filesender}
use tox_suite.Call.{
  entering, greeter, recording, saving, sending, echoing, bye, Recording, CallTester,
  call_test_duration, advance, record_init, audio_playback,
}

module _ (tox : Tox) (av : Toxav) (fopen : List ℕ → Option (List ℕ)) where
  -- What a step may change besides the tester.
  pub record World : Type 0 where
    pub queue : List FileSender
    pub heap : Heap
    pub tox_state : tox.State
    pub av_state : av.State

  -- The world afterwards, and the tester unless it was destroyed.
  abbrev pub Stepped : Type 0
  Stepped = record { world : World; tester : Option CallTester }

  abbrev pub in_av : World → av.State → World
  in_av w s = record w { av_state = s }

  abbrev pub stays : World → CallTester → Option Stepped
  stays w ct = some (record { world = w; tester = some ct })

  unfoldable pub greet : Option Recording → Timespec → World → CallTester → Option Stepped
  greet greeting tp w ct = elim (audio_playback av w.av_state ct greeting) [
    | none ↦ none
    | some p ↦
        if p.count == 0
        then stays (in_av w (av.call_control p.av ct.friend_number unmute_audio))
            (advance (record (p.tester) { callstart = tp }))
        else stays (in_av w p.av) p.tester
  ]

  -- The copy of the playback that ENTERING makes is not read anywhere.
  unfoldable pub enter : Recording → World → CallTester → World × CallTester
  enter fresh w ct = (
    in_av w (av.call_control w.av_state ct.friend_number mute_audio),
    advance (record ct { playback = some (record_init fresh); samples_send = 0 }),
  )

  unfoldable pub record_until : Timespec → World → CallTester → Option Stepped
  record_until tp w ct =
      if nanosec_timeout ct.callstart tp (call_test_duration * nsec_per_sec)
      then stays (in_av w (av.call_control w.av_state ct.friend_number mute_audio)) (advance ct)
      else stays w ct

  -- audio_write, and the reset for the echo.
  unfoldable pub save : World → CallTester → Option Stepped
  save w ct =
      stays
        (in_av w (
          av.sf_write w.av_state ct.outfilename
            (take (ct.ctrecord.samples_count * ct.ctrecord.channels) ct.ctrecord.pcm)
            ct.ctrecord.channels ct.ctrecord.samplerate))
        (advance (record ct { samples_send = 0 }))

  -- "call-test.wav"
  abbrev pub call_test_name : List ℕ
  call_test_name =
      b'c' ∷ b'a' ∷ b'l' ∷ b'l' ∷ b'-' ∷ b't' ∷ b'e' ∷ b's' ∷ b't' ∷ b'.' ∷ b'w' ∷ b'a' ∷ b'v' ∷ []

  abbrev pub recording_sender : CallTester → FileSender
  recording_sender ct = record zero_sender {
    friend_number = ct.friend_number;
    pathname = some ct.outfilename;
    info = record zero_node { file = some call_test_name };
  }

  unfoldable pub send_recording : World → CallTester → Option Stepped
  send_recording w ct = elim (add_filesender tox fopen (recording_sender ct) w.heap w.tox_state) [
    | none ↦ none
    | some sent ↦
        stays (record w { queue = sent.sender ∷ w.queue; heap = sent.heap; tox_state = sent.tox })
          (advance ct)
  ]

  unfoldable pub echo : World → CallTester → Option Stepped
  echo w ct = elim (audio_playback av w.av_state ct (some ct.ctrecord)) [
    | none ↦ none
    | some p ↦
        if p.count == 0
        then stays (in_av w p.av) (advance p.tester)
        else stays (in_av w p.av) p.tester
  ]

  -- ENTERING falls through to GREETER.
  unfoldable pub calltest_iterate_one_shot :
      Recording → Option Recording → Timespec → World → CallTester → Option Stepped
  unfolding greet enter record_until save send_recording echo
  calltest_iterate_one_shot fresh greeting tp w ct = elim ct.step [
    | entering ↦ let (w', ct') = enter fresh w ct in greet greeting tp w' ct'
    | greeter ↦ greet greeting tp w ct
    | recording ↦ record_until tp w ct
    | saving ↦ save w ct
    | sending ↦ send_recording w ct
    | echoing ↦ echo w ct
    | bye ↦ some (record {
      world = in_av w (av.call_control w.av_state ct.friend_number cancel);
      tester = none;
    })
  ]

  -- The tester, unless it was destroyed, before the others.
  abbrev pub keep : Option CallTester → List CallTester → List CallTester
  keep none cts = cts
  keep (some ct) cts = ct ∷ cts

  -- calltest_iterate: one shot for each tester, in order.
  unfoldable pub calltest_iterate :
      Recording
      → Option Recording
      → Timespec
      → World
      → List CallTester
      → Option (World × List CallTester)
  calltest_iterate fresh greeting tp w [] = some (w, [])
  calltest_iterate fresh greeting tp w (ct ∷ cts) =
      elim (calltest_iterate_one_shot fresh greeting tp w ct) [
        | none ↦ none
        | some r ↦
            Option.map (λ (w', rest). (w', keep r.tester rest))
              (calltest_iterate fresh greeting tp r.world cts)
      ]
