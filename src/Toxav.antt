-- ===== src/Toxav.antt =====
-- The calls of toxav and libsndfile that the call test makes, over an unknown state.
use tox_suite.Base.{ℕ, Bool, List}

-- TOXAV_CALL_CONTROL
pub data CallControl : Type 0 where
  mute_audio unmute_audio cancel : CallControl

pub record Toxav : Type 1 where
  pub State : Type 0
  -- toxav_answer and toxav_bit_rate_set, by friend, audio and video bit rate.
  pub answer : State → ℕ → ℕ → ℕ → State
  pub bit_rate_set : State → ℕ → ℕ → ℕ → State
  pub call_control : State → ℕ → CallControl → State
  -- toxav_audio_send_frame, by friend, the samples from the pointer to the end of their block, the
  -- sample count, the channels and the sampling rate: whether it succeeded.
  pub audio_send_frame : State → ℕ → List ℕ → ℕ → ℕ → ℕ → Bool × State
  -- sf_open for writing with sf_write_short and sf_close, by path, samples, channels and rate.
  pub sf_write : State → List ℕ → List ℕ → ℕ → ℕ → State
