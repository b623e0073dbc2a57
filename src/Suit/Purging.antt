-- ===== src/Suit/Purging.antt =====
-- Whom the purge of the polling loop deletes.
use tox_suite.Base.{
  ℕ, ◌*◌, ◌^◌, ◌≤◌, ◌<◌, ◌≡◌, ◌⊎◌, inl, inr, Bool, true, false, List, [], ◌∷◌, arith, Bool-cases,
  All,
}
use tox_suite.Base.Words.{u64_max, u64_mod}
use tox_suite.Tox.{Tox}
use tox_suite.Friend.{FriendInfo, is_expired, friend_cleanup}
use tox_suite.Suit.{purge_friends, friend_purge_interval}

-- Never seen, or seen at a time in seconds that fits 40 bits.
abbrev pub HasPlainTime : FriendInfo → Type 0
HasPlainTime f = (f.last_online ≡ u64_max) ⊎ (f.last_online < 2 ^ 40)

-- The interval in seconds is behind the clock in nanoseconds.
expired :
    (now : ℕ) (f : FriendInfo)
    → now < u64_mod
    → friend_purge_interval * 1000000000 ≤ now
    → HasPlainTime f
    → (f.last_online ≡ u64_max) ⊎ (is_expired friend_purge_interval now f ≡ true)
unfolding is_expired
expired now f w late (inl never) = inl never
expired now f w late (inr seen) = inr (ground arith)

module _ (tox : Tox) (now : ℕ) where
  cleanup_keeps :
      (t : tox.State) (fs : List FriendInfo)
      → now < u64_mod
      → friend_purge_interval * 1000000000 ≤ now
      → All HasPlainTime fs
      → All (λ f. f.last_online ≡ u64_max) (friend_cleanup tox t friend_purge_interval now fs).1
  unfolding friend_cleanup
  cleanup_keeps t [] w late times = tt
  cleanup_keeps t (f ∷ fs) w late times =
      elim (Bool-cases (is_expired friend_purge_interval now f)) [
        | inl e ↦
            rw (e, friend_cleanup, All)
              (cleanup_keeps (tox.friend_delete t f.friend_number).1 fs w late times.1)
        | inr e ↦
            rw (e, friend_cleanup, All)
              (kept (expired now f w late times.0) e, cleanup_keeps t fs w late times.1)
      ]
    where
      kept : {A : Type 0} {b : Bool} → A ⊎ (b ≡ true) → b ≡ false → A
      kept (inl a) e = a
      kept (inr t) e = ground (arith, t, e)

-- The loop compares seconds with the nanoseconds of its clock: once the clock shows 30 days, the
-- purge keeps no friend that was ever seen, however recently.
pub purge_keeps_unseen :
    (tox : Tox) (t : tox.State) (now : ℕ) (fs : List FriendInfo)
    → now < u64_mod
    → friend_purge_interval * 1000000000 ≤ now
    → All HasPlainTime fs
    → All (λ f. f.last_online ≡ u64_max) (purge_friends tox t now fs).1
unfolding purge_friends
purge_keeps_unseen tox t now fs w late times = cleanup_keeps tox now t fs w late times
