-- ===== src/Tox/Recorder.antt =====
-- A toxcore that records the calls that change it, newest first, and answers queries from the
-- friend number. The tests run on it.
use tox_suite.Base.{
  ℕ, ◌+◌, ◌*◌, Bool, true, false, Option, none, some, List, [], ◌∷◌, if◌then◌else◌, length, take,
  eq_bytes,
}
use tox_suite.Base.Words.{u32_max}
use tox_suite.Sodium.{Sodium}
use tox_suite.Tox.{Tox}

pub data Call : Type 0 where
  added : List ℕ → Call
  deleted : ℕ → Call
  messaged : ℕ → List ℕ → Call
  sent : ℕ → ℕ → ℕ → List ℕ → Call
  chunk : ℕ → ℕ → ℕ → List ℕ → Call
  control : ℕ → ℕ → ℕ → Call

-- A key is refused if it is empty; a message if it is; a file if it has no name.
abbrev answers_add : List ℕ → List Call → Option ℕ × List Call
answers_add [] s = (none, s)
answers_add (k ∷ ks) s = (some k, added (k ∷ ks) ∷ s)

abbrev answers_message : List Call → ℕ → List ℕ → Bool × List Call
answers_message s n [] = (false, s)
answers_message s n (c ∷ cs) = (true, messaged n (c ∷ cs) ∷ s)

abbrev answers_send : List Call → ℕ → ℕ → ℕ → Option (List ℕ) → List ℕ → ℕ × List Call
answers_send s n kind len id [] = (u32_max, s)
answers_send s n kind len id (c ∷ cs) = (length s, sent n kind len (c ∷ cs) ∷ s)

-- It has the friends 5, 2 and 9.
abbrev pub recorder : Tox
recorder = record {
  State = List Call;
  friend_add_norequest = λ s key. answers_add key s;
  friend_delete = λ s n. (true, deleted n ∷ s);
  self_get_friend_list = λ s. 5 ∷ 2 ∷ 9 ∷ [];
  friend_get_last_online = λ s n. n * 100;
  friend_get_public_key = λ s n. n ∷ [];
  friend_get_name = λ s n. (b'A' + n) ∷ [];
  friend_get_status_message = λ s n. [];
  friend_get_status = λ s n. 0;
  friend_get_connection_status = λ s n. 0;
  friend_send_message = answers_message;
  file_send = answers_send;
  file_get_file_id = λ s n file. n ∷ file ∷ [];
  file_send_chunk = λ s n file position bytes. chunk n file position bytes ∷ s;
  file_control = λ s n file c. (true, control n file c ∷ s);
}

abbrev pub plain_sodium : Sodium
plain_sodium = record {
  bin2hex = λ bytes. bytes;
  hex2bin = λ hex. hex;
  memcmp = λ a b n. if eq_bytes (take n a) (take n b) then 0 else 1;
}
