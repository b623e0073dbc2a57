-- ===== src/Suit.antt =====
-- src/suit.c: one round of the polling loop in `main`, the purge that it calls, and the flag of
-- src/toxdata.c that asks for a save.
pub mod Rounds
pub mod Purging
pub mod Startup
pub mod Shutdown
pub mod Restarting
pub mod Resuming
pub mod Events
pub mod Reached
pub mod Samples
mod Tests
mod StartTests
use tox_suite.Base.{
  ℕ, zero, suc, ◌+◌, ◌-◌, ◌*◌, ◌/◌, ◌%◌, ◌^◌, ◌≤◌, ◌<◌, ◌≡◌, refl, sym, ap, ◌∙◌, ◌≢◌, ◌↔◌, ◌⊎◌, inl,
  inr, Bool, true, false, ◌&&◌, ◌||◌, not, Option, none, some, List, [], ◌∷◌, ◌++◌, map, arith, ltb,
  leb, ◌==◌, if◌then◌else◌, ltb→lt, lt→ltb, not-ltb→le, not-leb→lt, leb→le, le→leb, ==_iff,
  Bool-cases, Option-cases, length, get_elem?, set, take, drop, All, length-append,
  take-append-drop, length-drop, eq_bytes, eq_bytes→eq, eq_bytes_refl,
}
use tox_suite.Base.Int.{ℤ, pos, ltb_ℤ}
use tox_suite.Base.Words.{to_i32, to_u64, sub_u64}
use tox_suite.Timespec.{
  Timespec, nsec_per_usec, nsec_per_msec, nsec_per_sec, nanosec_timeout, timespec_subtract,
  timespec_to_ns,
}
use tox_suite.Tox.{Tox}
use tox_suite.Friend.{FriendInfo, friend_cleanup}

-- SEC_PER_HOUR * HOUR_PER_DAY * 30
abbrev pub friend_purge_interval : ℕ
friend_purge_interval = 3600 * 24 * 30

-- The timestamps of the loop, and shouldSaveConfig.
pub record Polling : Type 0 where
  pub tsprev : Timespec
  pub tstox : Timespec
  pub tsav : Timespec
  pub tsfriend : Timespec
  pub tscalltest : Timespec
  pub should_save : Bool

-- What a round does besides: `idle` says whether file_do is called, whether the profile is saved,
-- and what nanosleep is asked for.
pub data Action : Type 0 where
  run_calltest run_tox run_toxav : Action
  purge : ℕ → Action
  idle : Bool → Bool → ℕ → Action

-- min of src/misc.c at three arguments; each is read as an `int`, that is by its low 32 bits.
unfoldable pub min_of : ℕ → ℕ → ℕ → ℤ
min_of a b c =
    let first = to_i32 (pos a) in
    let second = to_i32 (pos b) in
    let third = to_i32 (pos c) in
    let low = if ltb_ℤ second first then second else first in if ltb_ℤ third low then third else low

unfoldable pub sleep_delay : ℕ → ℕ → ℕ → Timespec → Timespec → ℕ
unfolding min_of
sleep_delay calltest_delay tox_delay toxav_delay now prev =
    sub_u64 (to_u64 (min_of calltest_delay tox_delay toxav_delay))
      (to_u64 (timespec_to_ns (timespec_subtract now prev)))
    / 10

-- The delays are those that calltest_iteration_interval, tox_iteration_interval and
-- toxav_iteration_interval return, the last two in milliseconds.
unfoldable pub round : ℕ → ℕ → ℕ → Timespec → Polling → Action × Polling
unfolding sleep_delay
round calltest_delay tox_interval toxav_interval now l =
    let tox_delay = tox_interval * nsec_per_msec in
    let toxav_delay = toxav_interval * nsec_per_msec in
    if nanosec_timeout l.tscalltest now calltest_delay
    then (run_calltest, record l { tscalltest = now })
    else if nanosec_timeout l.tstox now tox_delay
    then (run_tox, record l { tstox = now })
    else if nanosec_timeout l.tsav now toxav_delay
    then (run_toxav, record l { tsav = now })
    else if nanosec_timeout l.tsfriend now (friend_purge_interval * nsec_per_sec)
    then (purge (to_u64 (timespec_to_ns now)), record l { tsfriend = now; should_save = true })
    else (let cleared = record l { should_save = false } in
        (
          idle (nanosec_timeout l.tsfriend now (5000 * nsec_per_usec)) cleared.should_save
              (sleep_delay calltest_delay tox_delay toxav_delay now l.tsprev),
          record cleared { tsprev = now },
        ))

-- The purge of a round.
unfoldable pub purge_friends :
    (tox : Tox) → tox.State → ℕ → List FriendInfo → tox.State × List FriendInfo
purge_friends tox t current_time friends_info =
    friend_cleanup tox t friend_purge_interval current_time friends_info
