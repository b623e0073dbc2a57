-- ===== src/Friend/Purge.antt =====
-- friend_cleanup: which friends it deletes, and in which order.
use tox_suite.Base.{
  ℕ, ◌+◌, ◌≤◌, ◌<◌, ◌≡◌, refl, ◌⊎◌, inl, inr, true, false, List, [], ◌∷◌, arith, All,
}
use mathlib.Core.List.{filter, foldl}
use native.Mathlib.Decide.{dec_lt, ℕ_discrete}
use tox_suite.Base.Words.{u64_max, u64_mod}
use tox_suite.Tox.{Tox}
use tox_suite.Friend.{FriendInfo, is_expired, friend_cleanup}

-- Last seen less than the timeout ago, or never seen.
abbrev pub IsRecent : ℕ → ℕ → FriendInfo → Type 0
IsRecent timeout now f = (f.last_online ≡ u64_max) ⊎ (now < f.last_online + timeout)

unfoldable pub recent? : (timeout now : ℕ) (f : FriendInfo) → Dec (IsRecent timeout now f)
unfolding dec_lt ℕ_discrete
recent? timeout now f = elim (ℕ_discrete f.last_online u64_max) [
  | yes never ↦ yes (inl never)
  | no seen ↦ elim (dec_lt now (f.last_online + timeout)) [
    | yes h ↦ yes (inr h)
    | no h ↦ no (λ r. elim r [ inl e ↦ seen e | inr l ↦ h l ])
  ]
]

unfoldable pub stale? : (timeout now : ℕ) (f : FriendInfo) → Dec (¬ IsRecent timeout now f)
unfolding recent?
stale? timeout now f = elim (recent? timeout now f) [ yes r ↦ no (λ s. s r) | no s ↦ yes s ]

-- Seen at the clock's reading at the latest, or never.
abbrev pub SeenBefore : ℕ → FriendInfo → Type 0
SeenBefore now f = (f.last_online ≡ u64_max) ⊎ (f.last_online ≤ now)

is_expired_lem :
    (timeout now : ℕ) (f : FriendInfo)
    → now < u64_mod
    → SeenBefore now f
    → is_expired timeout now f ≡ elim (recent? timeout now f) [ yes _ ↦ false | no _ ↦ true ]
unfolding is_expired recent?
is_expired_lem timeout now f h (inl never) = ground arith
is_expired_lem timeout now f h (inr seen) = ground arith

module _ (tox : Tox) where
  abbrev pub delete_all : tox.State → List FriendInfo → tox.State
  delete_all = foldl (λ t f. (tox.friend_delete t f.friend_number).1)

  -- At a clock that no friend's last sight lies ahead of, the friends seen less than the timeout
  -- ago and those never seen stay, in their order; the others are deleted from toxcore too, each
  -- once, in the order of the list.
  pub friend_cleanup_lem :
      (t : tox.State) (timeout now : ℕ) (fs : List FriendInfo)
      → now < u64_mod
      → All (SeenBefore now) fs
      → friend_cleanup tox t timeout now fs
        ≡ (delete_all t (filter (stale? timeout now) fs), filter (recent? timeout now) fs)
  unfolding friend_cleanup stale?
  friend_cleanup_lem t timeout now [] h a = refl
  friend_cleanup_lem t timeout now (f ∷ fs) h a = ground (
    arith,
    is_expired_lem timeout now f h a.0,
    friend_cleanup_lem t timeout now fs h a.1,
    friend_cleanup_lem (tox.friend_delete t f.friend_number).1 timeout now fs h a.1,
  )
