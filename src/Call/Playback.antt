-- ===== src/Call/Playback.antt =====
-- The playing of a recording, frame by frame.
use tox_suite.Base.{lt→ltb}
use tox_suite.Base.{
  ℕ, zero, suc, ◌+◌, ◌-◌, ◌*◌, ◌/◌, ◌≤◌, ◌<◌, ◌≡◌, refl, inl, inr, true, Option, none, some, List,
  arith, ltb, ◌==◌, if◌then◌else◌, Bool-cases, length, length-drop,
}
use tox_suite.Timespec.{nsec_per_msec}
use mathlib.Core.Path.{subst}
use native.Mathlib.Nat.{mul_comm, add-mul, mul-lt-mul_of_pos_right}
use tox_suite.Toxav.{Toxav}
use tox_suite.Call.{Recording, CallTester, Played, audio_playback, play, frame_size, frame_pointer}
use tox_suite.Call.Frames.{IsRecorded}

-- The samples behind the pointer, in a recording of the counted size.
length-frame_pointer :
    (av : Toxav) (ct : CallTester) (rec : Recording)
    → IsRecorded rec
    → length (frame_pointer av ct rec)
      ≡ rec.samples_count * rec.channels - ct.samples_send * rec.channels
length-frame_pointer av ct rec whole = omega (
  arith,
  whole,
  mul_comm rec.channels rec.samples_count,
  length-drop (ct.samples_send * rec.channels) rec.pcm,
)

play_short :
    (av : Toxav) (s : av.State) (ct : CallTester) (rec : Recording)
    → ltb ct.samples_send rec.samples_count ≡ true
    → ltb (length (frame_pointer av ct rec)) (frame_size av rec * rec.channels) ≡ true
    → play av s ct rec ≡ none
unfolding play
play_short av s ct rec left short = rw (left, play) (rw short refl)

abbrev at_frame_delay : (av : Toxav) → CallTester → Recording → CallTester
at_frame_delay av ct rec = record ct {
  delay = frame_size av rec * 1000 / rec.samplerate * nsec_per_msec;
}

-- A last frame that is not whole is a fault: where a recording of the counted size, with a channel
-- at least, has samples left but fewer than a frame, audio_playback sends a whole frame from there,
-- whose samples toxav reads beyond the end of the buffer.
pub audio_playback_overreads :
    (av : Toxav) (s : av.State) (ct : CallTester) (rec : Recording)
    → IsRecorded rec
    → 0 < rec.channels
    → ct.samples_send < rec.samples_count
    → rec.samples_count < ct.samples_send + frame_size av rec
    → audio_playback av s ct (some rec) ≡ none
unfolding audio_playback
audio_playback_overreads av s ct rec whole some_channel unfinished last =
    elim (Bool-cases (rec.samplerate == 0)) [
      | inl e ↦ rw e refl
      | inr e ↦ rw e (
          play_short av s (at_frame_delay av ct rec) rec (lt→ltb _ _ unfinished) (lt→ltb _ _ short))
    ]
  where
    short : length (frame_pointer av ct rec) < frame_size av rec * rec.channels
    short = omega (
      arith,
      length-frame_pointer av ct rec whole,
      mul-lt-mul_of_pos_right unfinished some_channel,
      subst (λ x. rec.samples_count * rec.channels < x)
          (add-mul ct.samples_send (frame_size av rec) rec.channels)
          (mul-lt-mul_of_pos_right last some_channel),
    )

-- While the call with friend n is on, toxav takes a frame of this recording that is whole, and the
-- call is still on.
abbrev pub IsTaken : (av : Toxav) → Recording → ℕ → (av.State → Type 0) → Type 0
IsTaken av rec n InCall =
    (s : av.State) (pcm : List ℕ)
    → InCall s
    → frame_size av rec * rec.channels ≤ length pcm
    → ((av.audio_send_frame s n pcm (frame_size av rec) rec.channels rec.samplerate).0 ≡ true)
      × InCall (av.audio_send_frame s n pcm (frame_size av rec) rec.channels rec.samplerate).1

-- What a call that sends a frame leaves.
abbrev Sends : (av : Toxav) → CallTester → Recording → (av.State → Type 0) → Played av → Type 0
Sends av ct rec InCall p =
    (p.count ≡ frame_size av rec)
    × (p.tester.samples_send ≡ ct.samples_send + frame_size av rec)
    × (p.tester.friend_number ≡ ct.friend_number)
    × InCall p.av

-- Frames are sent until the count is 0, at most `fuel` of them; `none` is a fault or too little
-- fuel.
abbrev pub play_all : (av : Toxav) → ℕ → av.State → CallTester → Recording → Option CallTester
play_all av zero s ct rec = none
play_all av (suc fuel) s ct rec = elim (audio_playback av s ct (some rec)) [
  | none ↦ none
  | some p ↦ if p.count == 0 then some p.tester else play_all av fuel p.av p.tester rec
]
