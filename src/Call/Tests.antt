-- ===== src/Call/Tests.antt =====
-- Runs of the call test, and the theorems at concrete testers.
use tox_suite.Base.{
  ◌==◌, ◌&&◌, ℕ, suc, ◌≡◌, refl, true, false, Option, none, some, List, [], ◌∷◌, arith,
}
use tox_suite.Base.Int.{pos, negsuc}
use tox_suite.Call.Video.{rows, video_receive_frame, video_receive_frame_echoes}
use tox_suite.Base.Ordered.{IsGrowing}
use tox_suite.Timespec.{Timespec}
use tox_suite.Tox.Recorder.{recorder}
use tox_suite.Toxav.{Toxav}
use tox_suite.Call.{
  next_step, CallStep, saving, sending, greeter, recording, bye, Recording, CallTester,
  audio_playback, tester_number, CallState,
}
use tox_suite.Call.OneShot.{World, calltest_iterate_one_shot, calltest_iterate}
use tox_suite.Call.Playback.{audio_playback_overreads}
use tox_suite.Call.Steps.{Moves, calltest_iterate_one_shot_moves}

-- A line that takes every frame and counts them.
abbrev line : Toxav
line = record {
  State = ℕ;
  answer = λ s n a v. s;
  bit_rate_set = λ s n a v. s;
  call_control = λ s n c. s;
  audio_send_frame = λ s n pcm count channels rate. (true, suc s);
  sf_write = λ s path pcm channels rate. s;
}

-- Ten samples in frames of four.
abbrev tune : Recording
tune = record {
  pcm = 1 ∷ 2 ∷ 3 ∷ 4 ∷ 5 ∷ 6 ∷ 7 ∷ 8 ∷ 9 ∷ 10 ∷ [];
  channels = 1;
  samples_count = 10;
  samplerate = 200;
}

abbrev midnight : Timespec
midnight = record { tv_sec = pos 0; tv_nsec = pos 0 }

abbrev tester : ℕ → CallStep → ℕ → CallTester
tester n step samples_send = record {
  friend_number = n;
  step = step;
  samples_send = samples_send;
  ctrecord = tune;
  playback = none;
  callstart = midnight;
  delay = 20000000;
  elapsed = 0;
  outfilename = b'/' ∷ b't' ∷ [];
}

abbrev two : List CallTester
two = tester 2 recording 0 ∷ tester 5 bye 0 ∷ []

two-IsGrowing : IsGrowing tester_number two
two-IsGrowing = ((omega arith, tt), (tt, tt))

abbrev calling : CallState
calling = record {
  error = false;
  finished = false;
  sending_a = true;
  sending_v = false;
  accepting_a = true;
  accepting_v = false;
}

fopen : List ℕ → Option (List ℕ)
fopen path = none

abbrev world : World recorder line fopen
world = record { queue = []; heap = []; tox_state = []; av_state = 0 }

-- Ten samples are two frames of four and a half; eight are two frames.
abbrev short_tune : Recording
short_tune = record tune { pcm = 1 ∷ 2 ∷ 3 ∷ 4 ∷ 5 ∷ 6 ∷ 7 ∷ 8 ∷ []; samples_count = 8 }

audio_playback_overreads_example : audio_playback line 0 (tester 2 greeter 8) (some tune) ≡ none
audio_playback_overreads_example =
    audio_playback_overreads line 0 (tester 2 greeter 8) tune refl (omega arith) (omega arith)
      (omega arith)

-- A line that takes frames of four samples of one channel only, to friend 2.
abbrev picky : Toxav
picky = record line {
  audio_send_frame = λ s n pcm count channels rate. (count == 4 && channels == 1 && n == 2, s);
}

saves_next :
    calltest_iterate_one_shot recorder line fopen tune none midnight world (tester 2 saving 3)
    ≡ some (record { world = world; tester = some (tester 2 sending 0) })
unfolding calltest_iterate_one_shot next_step
saves_next = refl

iterated :
    calltest_iterate recorder line fopen tune none midnight world
      (tester 2 saving 3 ∷ tester 5 bye 0 ∷ [])
    ≡ some (world, tester 2 sending 0 ∷ [])
unfolding calltest_iterate calltest_iterate_one_shot next_step
iterated = refl

calltest_iterate_one_shot_moves_example :
    Moves saving sending × (tester_number (tester 2 sending 0) ≡ 2)
calltest_iterate_one_shot_moves_example =
    calltest_iterate_one_shot_moves recorder line fopen tune none midnight world (tester 2 saving 3)
      (record { world = world; tester = some (tester 2 sending 0) }) saves_next

-- A line that keeps the planes of the frames.
abbrev screen : List (List ℕ) → ℕ → ℕ → ℕ → List ℕ → List ℕ → List ℕ → List (List ℕ)
screen s n width height y u v = y ∷ u ∷ v ∷ s

-- What malloc returned, and a frame of four by two with a byte or two of padding in its rows, the
-- luma plane upside down.
abbrev fresh_block : ℕ → List ℕ
fresh_block k = 7 ∷ 7 ∷ 7 ∷ 7 ∷ 7 ∷ 7 ∷ 7 ∷ 7 ∷ []

abbrev luma : List ℕ
luma = 1 ∷ 2 ∷ 3 ∷ 4 ∷ 0 ∷ 5 ∷ 6 ∷ 7 ∷ 8 ∷ 0 ∷ []

abbrev blue : List ℕ
blue = 11 ∷ 12 ∷ 0 ∷ 0 ∷ []

abbrev red : List ℕ
red = 21 ∷ 22 ∷ 0 ∷ []

video_receive_frame_echoes_example :
    (u_rest : List ℕ) × (v_rest : List ℕ) × (video_receive_frame screen fresh_block [] 3 4 2 luma
        blue red
        (negsuc 4)
        (pos 4)
        (pos 3)
      ≡ some ((1 ∷ 2 ∷ 3 ∷ 4 ∷ 5 ∷ 6 ∷ 7 ∷ 8 ∷ []) ∷ (11 ∷ 12 ∷ u_rest) ∷ (21 ∷ 22 ∷ v_rest) ∷ []))
unfolding rows
video_receive_frame_echoes_example =
    video_receive_frame_echoes screen fresh_block [] 3 2 2 luma blue red (negsuc 4) (pos 4) (pos 3)
      (omega arith) (omega arith) (omega arith) (omega arith) (omega arith) (omega arith)
      (omega arith) (λ k. omega arith)
