-- ===== src/Friend/Callbacks.antt =====
-- What the callbacks of toxcore change in the list of friends.
use tox_suite.Base.{
  ℕ, ◌≡◌, refl, sym, ◌∙◌, ◌⊎◌, inl, inr, Option, none, some, List, map, ◌==◌, if◌then◌else◌,
  Option-cases, get_elem?,
}
use mathlib.Core.Option
use tox_suite.Base.Entries.{
  find_first, has_key, find_first-modify, map-modify, get_elem?-find_index, modify,
}
use tox_suite.Base.Ordered.{IsSorted}
use tox_suite.Tox.{Tox}
use tox_suite.Friend.{
  FriendInfo, number_of, friend_info_by_friend_number, friend_request_cb, friend_name_cb,
  friend_status_message_cb, friend_status_cb,
}
use tox_suite.Friend.Registry.{
  entry_of, entry_of_lem, friend_info_add_entry-entry_of, friend_info_add_entry-IsSorted,
}

-- A callback that rewrites one friend's entry by f: it has a result exactly when the friend has an
-- entry; then the entry is rewritten, no other friend's is, and the numbers stay in place.
abbrev pub Rewrites :
    (FriendInfo → FriendInfo) → ℕ → List FriendInfo → Option (List FriendInfo) → Type 0
Rewrites f n fs r =
    ((r ≡ none) × (entry_of fs n ≡ none))
    ⊎ ((old : FriendInfo) × (fs' : List FriendInfo) × (r ≡ some fs')
        × (entry_of fs n ≡ some old)
        × ((j : ℕ) → entry_of fs' j ≡ (if j == n then some (f old) else entry_of fs j))
        × (map number_of fs' ≡ map number_of fs))

pub rewrite_lookup :
    (f : FriendInfo → FriendInfo) (n j : ℕ) (fs : List FriendInfo) (i : ℕ) (x : FriendInfo)
    → ((x : FriendInfo) → number_of (f x) ≡ number_of x)
    → friend_info_by_friend_number fs n ≡ some i
    → get_elem? fs i ≡ some x
    → entry_of (modify i f fs) j ≡ (if j == n then some (f x) else entry_of fs j)
rewrite_lookup f n j fs i x keep found at =
    rw (entry_of_lem (modify i f fs) j, entry_of_lem fs j)
      (find_first-modify number_of n j f fs i keep (unfold friend_info_by_friend_number in found)
        ∙ rw there)
  where
    there : find_first (has_key number_of n) fs ≡ some x
    there = sym (entry_of_lem fs n) ∙ rw found at

rewrite_found :
    (f : FriendInfo → FriendInfo) (n : ℕ) (fs : List FriendInfo)
    → ((x : FriendInfo) → number_of (f x) ≡ number_of x)
    → Rewrites f n fs (Option.map (λ i. modify i f fs) (friend_info_by_friend_number fs n))
rewrite_found f n fs keep = elim (Option-cases (friend_info_by_friend_number fs n)) [
  | inl missing ↦ inl (rw missing, rw missing)
  | inr (i, found) ↦
      let (x, at) =
        get_elem?-find_index (has_key number_of n) fs i
          (unfold friend_info_by_friend_number in found) in
      rw found (
        inr (
          x,
          modify i f fs,
          refl,
          at,
          (λ j. rewrite_lookup f n j fs i x keep found at),
          map-modify number_of f fs i keep,
        ))
]

-- Each of the three callbacks for the name, the status message and the status rewrites just that
-- field of the friend's entry; for a friend without an entry it dereferences NULL.
pub callbacks_rewrite :
    (n : ℕ) (text : List ℕ) (status : ℕ) (fs : List FriendInfo)
    → Rewrites (λ f. record f { name = some text }) n fs (friend_name_cb n text fs)
      × Rewrites
          (λ f. record f { status_message = some text })
          n
          fs
          (friend_status_message_cb n text fs)
      × Rewrites (λ f. record f { status = status }) n fs (friend_status_cb n status fs)
unfolding friend_name_cb friend_status_message_cb friend_status_cb
callbacks_rewrite n text status fs = (
  rewrite_found _ n fs (λ x. refl),
  rewrite_found _ n fs (λ x. refl),
  rewrite_found _ n fs (λ x. refl),
)

module _ (tox : Tox) where
  -- A friend request that toxcore accepts, under a number without an entry, adds exactly one entry,
  -- found under that number with no name and no status message, and keeps the list ordered.
  pub friend_request_cb_adds :
      (fresh : FriendInfo) (t : tox.State) (key : List ℕ) (fs : List FriendInfo) (n j : ℕ)
      → (tox.friend_add_norequest t key).0 ≡ some n
      → entry_of fs n ≡ none
      → IsSorted number_of fs
      → IsSorted number_of (friend_request_cb tox fresh t key fs).1
        × (entry_of (friend_request_cb tox fresh t key fs).1 j ≡ (
            if n == j
            then some (record fresh { friend_number = n; name = none; status_message = none })
            else entry_of fs j))
  unfolding friend_request_cb
  friend_request_cb_adds fresh t key fs n j added absent sorted =
      rw (added, friend_request_cb)
        (
          friend_info_add_entry-IsSorted fresh fs n sorted,
          friend_info_add_entry-entry_of fresh fs n j absent,
        )

  -- One that it refuses leaves the list alone.
  pub friend_request_cb_refused :
      (fresh : FriendInfo) (t : tox.State) (key : List ℕ) (fs : List FriendInfo)
      → (tox.friend_add_norequest t key).0 ≡ none
      → (friend_request_cb tox fresh t key fs).1 ≡ fs
  unfolding friend_request_cb
  friend_request_cb_refused fresh t key fs refused = rw (refused, friend_request_cb)
