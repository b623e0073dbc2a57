-- ===== src/Tox.antt =====
-- The calls of toxcore that the program makes, over an unknown state of the library. Nothing is
-- assumed of them here; a theorem names what it needs.
pub mod Recorder
use tox_suite.Base.{ℕ, Bool, Option, List}

pub record Tox : Type 1 where
  pub State : Type 0
  -- tox_friend_add_norequest: the new friend's number, or `none` for an error.
  pub friend_add_norequest : State → List ℕ → Option ℕ × State
  -- tox_friend_delete: whether it succeeded.
  pub friend_delete : State → ℕ → Bool × State
  pub self_get_friend_list : State → List ℕ
  pub friend_get_last_online : State → ℕ → ℕ
  pub friend_get_public_key : State → ℕ → List ℕ
  pub friend_get_name : State → ℕ → List ℕ
  pub friend_get_status_message : State → ℕ → List ℕ
  pub friend_get_status : State → ℕ → ℕ
  pub friend_get_connection_status : State → ℕ → ℕ
  -- tox_friend_send_message, by friend and text: whether it succeeded.
  pub friend_send_message : State → ℕ → List ℕ → Bool × State
  -- tox_file_send, by friend, kind, length, file id and name: the file's number, UINT32_MAX for an
  -- error.
  pub file_send : State → ℕ → ℕ → ℕ → Option (List ℕ) → List ℕ → ℕ × State
  pub file_get_file_id : State → ℕ → ℕ → List ℕ
  -- tox_file_send_chunk, by friend, file, position and data.
  pub file_send_chunk : State → ℕ → ℕ → ℕ → List ℕ → State
  -- tox_file_control, by friend, file and control: whether it succeeded.
  pub file_control : State → ℕ → ℕ → ℕ → Bool × State
