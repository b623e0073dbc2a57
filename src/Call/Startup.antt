-- ===== src/Call/Startup.antt =====
-- The start and the end of the call test in src/call.c: calltest_init, audio_load,
-- calltest_destroy, and bit_rate_status_cb.
use tox_suite.Base.{
  ℕ, ◌-◌, ◌*◌, Bool, true, false, Option, none, some, List, [], ◌∷◌, ◌++◌, take, drop,
}
use tox_suite.Base.Texts.{codes}
use tox_suite.Call.{CallTester, Recording, record_init}

-- The callbacks of toxav that the program sets.
pub data AvEvent : Type 0 where
  on_call on_call_state on_audio_frame on_video_frame on_bit_rate : AvEvent

-- toxav_callback_call and its kin: whether a function or NULL is set.
abbrev pub Register : Type 0 → Type 0
Register S = S → AvEvent → Bool → S

-- What sf_open finds in a file: its SF_INFO, the samples of all channels, and how many frames
-- sf_readf_short returns.
pub record SoundFile : Type 0 where
  pub frames : ℕ
  pub channels : ℕ
  pub samplerate : ℕ
  pub samples : List ℕ
  pub readf : ℕ

abbrev pub greeter_filename : List ℕ
greeter_filename = codes "greeter.wav"

-- `fresh` and `junk` are what malloc returned for the record and for the samples.
unfoldable pub audio_load :
    Recording → List ℕ → (List ℕ → Option SoundFile) → List ℕ → Option Recording
unfolding record_init
audio_load fresh junk sf_open filename = elim (sf_open filename) [
  | none ↦ none
  | some file ↦
      let count = file.readf * file.channels in
      some (record (record_init fresh) {
        samplerate = file.samplerate;
        channels = file.channels;
        pcm =
            take count file.samples ++ take (file.frames * file.channels - count) (drop count junk);
        samples_count = file.readf;
      })
]

-- record_free and the entries' destruction leave no trace in the model but the list.
unfoldable pub call_testers_destroy : List CallTester → List CallTester
call_testers_destroy [] = []
call_testers_destroy (ct ∷ calltesters) = call_testers_destroy calltesters

module _ {S : Type 0} (register : Register S) where
  -- The list of testers, the greeting and toxav.
  unfoldable pub calltest_init : Option Recording → S → List CallTester × Option Recording × S
  calltest_init greeter toxav = (
    [],
    greeter,
    register
        (register (register (register toxav on_call true) on_call_state true) on_audio_frame true)
        on_bit_rate true,
  )

  unfoldable pub calltest_destroy : List CallTester → S → List CallTester × S
  unfolding call_testers_destroy
  calltest_destroy calltesters toxav = (
    call_testers_destroy calltesters,
    register
        (register
          (register (register (register toxav on_call false) on_call_state false) on_audio_frame
            false)
          on_video_frame false)
        on_bit_rate false,
  )
