-- ===== src/Call.antt =====
-- src/call.c and src/call.h: the call test, in which a caller hears a greeting, is recorded, gets
-- the recording as a file and hears it again. `none` as a result is a fault: a NULL pointer or a
-- division by zero.
pub mod Testers
pub mod Playback
pub mod OneShot
pub mod Steps
pub mod Iterate
pub mod Frames
pub mod Startup
pub mod Video
mod Tests
use tox_suite.Base.{
  ℕ, zero, suc, ◌+◌, ◌-◌, ◌*◌, ◌/◌, ◌%◌, ◌^◌, ◌≤◌, ◌<◌, ◌≡◌, refl, sym, ap, ◌∙◌, ◌≢◌, ◌↔◌, ◌⊎◌, inl,
  inr, Bool, true, false, ◌&&◌, ◌||◌, not, Option, none, some, List, [], ◌∷◌, ◌++◌, map, arith, ltb,
  leb, ◌==◌, if◌then◌else◌, ltb→lt, lt→ltb, not-ltb→le, not-leb→lt, leb→le, le→leb, ==_iff,
  Bool-cases, Option-cases, length, get_elem?, set, take, drop, All, length-append,
  take-append-drop, length-drop, eq_bytes, eq_bytes→eq, eq_bytes_refl,
}
use mathlib.Core.Option
use tox_suite.Base.Entries.{find_index, modify}
use tox_suite.Base.Ordered.{insert_before}
use tox_suite.Base.Heap.{Heap}
use tox_suite.Base.Words.{u32_mod}
use tox_suite.Timespec.{Timespec, nanosec_timeout, nsec_per_msec, nsec_per_sec}
use tox_suite.Tox.{Tox}
use tox_suite.Toxav.{Toxav, mute_audio, unmute_audio, cancel}
use tox_suite.Transfer.{FileSender, FileNode, zero_sender, zero_node, file_sender_alloc}
use tox_suite.Transfer.Send.{add_filesender}

pub data CallStep : Type 0 where
  entering greeter recording saving sending echoing bye : CallStep

-- struct record: the samples of all channels, interleaved.
pub record Recording : Type 0 where
  pub pcm : List ℕ
  pub channels : ℕ
  pub samples_count : ℕ
  pub samplerate : ℕ

pub record CallTester : Type 0 where
  pub friend_number : ℕ
  pub step : CallStep
  pub samples_send : ℕ
  pub ctrecord : Recording
  pub playback : Option Recording
  pub callstart : Timespec
  pub delay : ℕ
  pub elapsed : ℕ
  pub outfilename : List ℕ

abbrev pub tester_number : CallTester → ℕ
tester_number ct = ct.friend_number

-- In milliseconds.
abbrev pub audio_length : ℕ
audio_length = 20

abbrev pub default_delay : ℕ
default_delay = audio_length * nsec_per_msec

-- In seconds.
abbrev pub call_test_duration : ℕ
call_test_duration = 10

abbrev pub max_ns : ℕ
max_ns = 999999999

abbrev pub audio_bitrate : ℕ
audio_bitrate = 48

abbrev pub video_bitrate : ℕ
video_bitrate = 5000

-- `ct->step++`
unfoldable pub next_step : CallStep → CallStep
next_step entering = greeter
next_step greeter = recording
next_step recording = saving
next_step saving = sending
next_step sending = echoing
next_step echoing = bye
next_step bye = bye

abbrev pub advance : CallTester → CallTester
advance ct = record ct { step = next_step ct.step }

-- record_init leaves the channels and the rate as they are.
unfoldable pub record_init : Recording → Recording
record_init rec = record rec { pcm = []; samples_count = 0 }

unfoldable pub call_tester_by_friend_number : List CallTester → ℕ → Option ℕ
call_tester_by_friend_number call_testers friend_number =
    find_index (λ ct. ct.friend_number == friend_number) call_testers

-- `fresh` is what malloc returned; the file name is the one that mkstemps made.
unfoldable pub new_tester : CallTester → ℕ → List ℕ → CallTester
unfolding record_init
new_tester fresh friend_number outfilename = record fresh {
  ctrecord = record_init fresh.ctrecord;
  playback = none;
  friend_number = friend_number;
  step = entering;
  elapsed = 0;
  delay = default_delay;
  outfilename = outfilename;
}

-- `outfilename` is `none` when strdup has no memory.
unfoldable pub call_tester_add_entry :
    CallTester → Option (List ℕ) → List CallTester → ℕ → List CallTester
call_tester_add_entry fresh outfilename call_testers friend_number =
    elim (call_tester_by_friend_number call_testers friend_number) [
      | some i ↦ call_testers
      | none ↦ elim outfilename [
        | none ↦ call_testers
        | some path ↦
            let calltester = new_tester fresh friend_number path in
            insert_before (λ entry. ltb calltester.friend_number entry.friend_number) calltester
              call_testers
      ]
    ]

-- The bits of TOXAV_FRIEND_CALL_STATE that the program reads.
pub record CallState : Type 0 where
  pub error : Bool
  pub finished : Bool
  pub sending_a : Bool
  pub sending_v : Bool
  pub accepting_a : Bool
  pub accepting_v : Bool

-- calltest_iteration_interval
unfoldable pub interval_loop : ℕ → List CallTester → ℕ
interval_loop ldelay [] = ldelay
interval_loop ldelay (ct ∷ cts) =
    interval_loop (if ltb ldelay ct.delay then ldelay else ct.delay) cts

unfoldable pub calltest_iteration_interval : List CallTester → ℕ
unfolding interval_loop
calltest_iteration_interval = interval_loop max_ns

-- realloc and memcpy in audio_receive_frame: the old samples up to the write position, whatever
-- realloc returned where there were fewer, and the new samples.
unfoldable pub append_at : ℕ → List ℕ → ℕ → List ℕ → List ℕ
append_at junk old zero new = new
append_at junk [] (suc position) new = junk ∷ append_at junk [] position new
append_at junk (s ∷ old) (suc position) new = s ∷ append_at junk old position new

unfoldable pub record_frame : ℕ → List ℕ → ℕ → ℕ → ℕ → Recording → Recording
unfolding append_at
record_frame junk pcm sample_count channels sampling_rate prec = record {
  pcm =
      append_at junk prec.pcm (channels * prec.samples_count) (take (channels * sample_count) pcm);
  channels = channels;
  samples_count = prec.samples_count + sample_count;
  samplerate = sampling_rate;
}

-- A frame counts in the step RECORDING only.
unfoldable pub record_if_recording : ℕ → List ℕ → ℕ → ℕ → ℕ → CallTester → CallTester
unfolding record_frame
record_if_recording junk pcm sample_count channels sampling_rate ct = elim ct.step [
  | recording ↦ record ct {
    ctrecord = record_frame junk pcm sample_count channels sampling_rate ct.ctrecord;
  }
  | _ ↦ ct
]

unfoldable pub audio_receive_frame : ℕ → List CallTester → ℕ → List ℕ → ℕ → ℕ → ℕ → List CallTester
unfolding record_if_recording
audio_receive_frame junk calltesters friend_number pcm sample_count channels sampling_rate =
    elim (call_tester_by_friend_number calltesters friend_number) [
      | none ↦ calltesters
      | some i ↦
          modify i (record_if_recording junk pcm sample_count channels sampling_rate) calltesters
    ]

module _ (av : Toxav) where
  unfoldable pub call :
      CallTester
      → Option (List ℕ)
      → av.State
      → List CallTester
      → ℕ
      → Bool
      → Bool
      → av.State × List CallTester
  call fresh outfilename s calltesters friend_number audio_enabled video_enabled = (
    av.answer s friend_number (if audio_enabled then audio_bitrate else 0)
        (if video_enabled then video_bitrate else 0),
    call_tester_add_entry fresh outfilename calltesters friend_number,
  )

  unfoldable pub call_state :
      CallTester
      → Option (List ℕ)
      → av.State
      → List CallTester
      → ℕ
      → CallState
      → av.State × List CallTester
  call_state fresh outfilename s calltesters friend_number state =
      let send_audio = state.sending_a && state.accepting_a in
      let send_video = state.sending_v && state.accepting_v in
      if state.error
      then (s, calltesters)
      else if state.sending_a
      then (
        av.bit_rate_set s friend_number (if send_audio then audio_bitrate else 0)
            (if send_video then video_bitrate else 0),
        call_tester_add_entry fresh outfilename calltesters friend_number,
      )
      else if state.finished
      then elim (call_tester_by_friend_number calltesters friend_number) [
        | none ↦ (s, calltesters)
        | some i ↦ (s, modify i (λ ct. record ct { step = bye }) calltesters)
      ]
      else (s, calltesters)

  -- The samples of one frame; the product is an unsigned 32-bit one.
  abbrev pub frame_size : Recording → ℕ
  frame_size rec = rec.samplerate * audio_length % u32_mod / 1000

  -- The tester, the count that is returned and toxav afterwards.
  abbrev pub Played : Type 0
  Played = record { tester : CallTester; count : ℕ; av : av.State }

  -- What follows toxav_audio_send_frame, by its success.
  sent_frame : CallTester → Recording → Bool × av.State → Played
  sent_frame ct rec (true, s) = record {
    tester = record ct { samples_send = ct.samples_send + frame_size rec };
    count = frame_size rec;
    av = s;
  }
  sent_frame ct rec (false, s) = record { tester = ct; count = 0; av = s }

  -- The block that the sent samples start in.
  abbrev pub frame_pointer : CallTester → Recording → List ℕ
  frame_pointer ct rec = drop (ct.samples_send * rec.channels) rec.pcm

  -- toxav reads the samples of a whole frame, of each channel; beyond the block it is a fault.
  play : av.State → CallTester → Recording → Option Played
  unfolding sent_frame
  play s ct rec =
      if ltb ct.samples_send rec.samples_count
      then (if ltb (length (frame_pointer ct rec)) (frame_size rec * rec.channels)
          then none
          else some (
              sent_frame ct rec (
                av.audio_send_frame s ct.friend_number (frame_pointer ct rec) (frame_size rec)
                  rec.channels rec.samplerate)))
      else some (record { tester = ct; count = 0; av = s })

  -- The delay is the length of the frame.
  unfoldable pub audio_playback : av.State → CallTester → Option Recording → Option Played
  unfolding play
  audio_playback s ct none = none
  audio_playback s ct (some rec) =
      if rec.samplerate == 0
      then none
      else play s (record ct { delay = frame_size rec * 1000 / rec.samplerate * nsec_per_msec }) rec
