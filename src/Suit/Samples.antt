-- ===== src/Suit/Samples.antt =====
-- Inputs for the tests of the main program.
use tox_suite.Base.{ℕ, zero, suc, inl, true, false, none, some, List, [], ◌∷◌, set}
use tox_suite.Base.Texts.{codes}
use tox_suite.Tox.{Tox}
use tox_suite.Tox.Recorder.{recorder, Call}
use tox_suite.Friend.{FriendInfo}
use tox_suite.Transfer.{zero_node}
use tox_suite.Profile.{PassCrypt}
use tox_suite.Call.Startup.{Register}
use tox_suite.Suit.Startup.{Environment, Launch, Fresh}

abbrev pub repeat : ℕ → ℕ → List ℕ
repeat zero c = []
repeat (suc n) c = c ∷ repeat n c

-- The friends have keys of 32 bytes.
abbrev pub keyed : Tox
keyed = record recorder { friend_get_public_key = λ s n. repeat 32 n }

-- Nothing is encrypted.
abbrev pub clear : PassCrypt
clear = record {
  extra_length = 0;
  is_encrypted = λ bytes. false;
  encrypt = λ salt plain pass. inl 1;
  decrypt = λ bytes pass. none;
}

abbrev pub quiet : Register (List ℕ)
quiet s event set = s

abbrev pub sys : Launch (List Call) (List ℕ)
sys = record {
  opens_dir = λ name. true;
  fchdir = true;
  permitted = λ name. true;
  new = λ bytes. (some [], true);
  new_blank = (some [], true);
  self = record {
    name = λ t. [];
    status_message = λ t. [];
    address = λ t. [];
    connection_status = λ t. 0;
    secret_key = λ t. [];
  };
  set_name = λ t name. t;
  set_status_message = λ t status. t;
  max_name_length = 128;
  max_status_message_length = 1007;
  bootstrap = λ t ip port key. t;
  callback = λ t event. t;
  toxav_new = λ t. (some [], t);
  av_callback = quiet;
  sf_open = λ name. none;
}

abbrev pub nobody : ℕ → FriendInfo
nobody number = record {
  friend_number = number;
  name = none;
  status_message = none;
  tox_id_bin = repeat 32 9;
  last_online = 0;
  status = 0;
  connection_status = 0;
  tox_id_hex = [];
}

abbrev pub fresh : Fresh
fresh = record {
  node = zero_node;
  friend = nobody 77;
  recording = record { pcm = []; channels = 0; samples_count = 0; samplerate = 0 };
  pcm = [];
  profile = [];
}

abbrev pub at_home : Environment
at_home = record { passphrase = none; name = none; status_msg = none; home = some (codes "/home") }
