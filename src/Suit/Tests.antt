-- ===== src/Suit/Tests.antt =====
-- The polling loop at concrete readings.
use tox_suite.Base.{ℕ, ◌<◌, ◌≡◌, refl, inl, inr, true, none, List, [], ◌∷◌, arith, All}
use tox_suite.Base.Int.{pos, ◌+ℤ◌, ◌-ℤ◌, ◌*ℤ◌}
use tox_suite.Base.Words.{u64_max}
use tox_suite.Timespec.{Timespec, timespec_subtract, timespec_to_ns}
use tox_suite.Tox.Recorder.{recorder}
use tox_suite.Friend.{FriendInfo}
use tox_suite.Suit.{Polling, sleep_delay, purge_friends}
use tox_suite.Suit.Rounds.{Reading, rounds, Saves, rounds_save_nothing, sleep_delay_wraps}
use tox_suite.Suit.Purging.{purge_keeps_unseen}

abbrev at : ℕ → ℕ → Timespec
at s n = record { tv_sec = pos s; tv_nsec = pos n }

abbrev start : Polling
start = record {
  tsprev = at 0 0;
  tstox = at 0 0;
  tsav = at 0 0;
  tsfriend = at 0 0;
  tscalltest = at 0 0;
  should_save = true;
}

abbrev reading : Reading
reading = record {
  calltest_delay = 20000000;
  tox_interval = 50;
  toxav_interval = 200;
  now = at 0 5000000;
}

rounds_save_nothing_example : All (λ a. ¬ Saves a) (rounds (reading ∷ reading ∷ []) start)
rounds_save_nothing_example = rounds_save_nothing (reading ∷ reading ∷ []) start

passed : timespec_to_ns (timespec_subtract (at 7 30000000) (at 7 0)) ≡ pos 30000000
unfolding timespec_to_ns timespec_subtract ◌+ℤ◌ ◌-ℤ◌ ◌*ℤ◌
passed = refl

sleep_delay_wraps_example :
    999999999 < sleep_delay 20000000 50000000 200000000 (at 7 30000000) (at 7 0)
sleep_delay_wraps_example =
    sleep_delay_wraps 20000000 50000000 200000000 (at 7 30000000) (at 7 0) 30000000 passed
      (omega arith) (omega arith) (omega arith) (omega arith) (inl (omega arith))

abbrev friend : ℕ → ℕ → FriendInfo
friend n t = record {
  friend_number = n;
  name = none;
  status_message = none;
  tox_id_bin = [];
  last_online = t;
  status = 0;
  connection_status = 0;
  tox_id_hex = [];
}

abbrev friends : List FriendInfo
friends = friend 1 1700000000 ∷ friend 4 u64_max ∷ []

purge_keeps_unseen_example :
    All (λ f. f.last_online ≡ u64_max) (purge_friends recorder [] 3000000000000000 friends).1
purge_keeps_unseen_example =
    purge_keeps_unseen recorder [] 3000000000000000 friends (omega arith) (omega arith)
      (inr (omega arith), (inl refl, tt))
