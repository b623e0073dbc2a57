-- ===== src/Friend/Tests.antt =====
-- Runs of the friend list, and the theorems at concrete lists.
use tox_suite.Base.{ℕ, ◌≡◌, refl, inl, inr, none, some, List, [], ◌∷◌, map, arith, All}
use mathlib.Core.List.{Perm, filter}
use tox_suite.Base.Words.{u64_max}
use tox_suite.Base.Ordered.{IsSorted}
use tox_suite.Tox.Recorder.{recorder, plain_sodium, deleted}
use tox_suite.Friend.{
  FriendInfo, number_of, friends_info_init, friend_info_update, friend_cleanup, friend_name_cb,
  friend_status_message_cb, friend_status_cb,
}
use tox_suite.Friend.Registry.{friends_info_init_complete}
use tox_suite.Friend.Callbacks.{Rewrites, callbacks_rewrite}
use tox_suite.Friend.Purge.{friend_cleanup_lem, delete_all, stale?, recent?}

-- What malloc may return.
abbrev fresh : FriendInfo
fresh = record {
  friend_number = 77;
  name = none;
  status_message = none;
  tox_id_bin = [];
  last_online = 0;
  status = 3;
  connection_status = 3;
  tox_id_hex = [];
}

abbrev seen : ℕ → ℕ → FriendInfo
seen n t = record fresh { friend_number = n; last_online = t }

abbrev friends : List FriendInfo
friends = seen 1 950 ∷ seen 4 u64_max ∷ seen 6 400 ∷ []

init_numbers : map number_of (friends_info_init plain_sodium recorder fresh [] []) ≡ 2 ∷ 5 ∷ 9 ∷ []
unfolding friends_info_init
init_numbers = refl

friends_info_init_complete_example :
    IsSorted number_of (friends_info_init plain_sodium recorder fresh [] [])
    × Perm (map number_of (friends_info_init plain_sodium recorder fresh [] [])) (5 ∷ 2 ∷ 9 ∷ [])
    × All
        (λ f. friend_info_update plain_sodium recorder [] f ≡ f)
        (friends_info_init plain_sodium recorder fresh [] [])
friends_info_init_complete_example = friends_info_init_complete plain_sodium recorder fresh []

callbacks_rewrite_example :
    Rewrites
      (λ f. record f { name = some (b'B' ∷ []) })
      4
      friends
      (friend_name_cb 4 (b'B' ∷ []) friends)
    × Rewrites
        (λ f. record f { status_message = some (b'B' ∷ []) })
        4
        friends
        (friend_status_message_cb 4 (b'B' ∷ []) friends)
    × Rewrites (λ f. record f { status = 1 }) 4 friends (friend_status_cb 4 1 friends)
callbacks_rewrite_example = callbacks_rewrite 4 (b'B' ∷ []) 1 friends

unknown_friend : friend_name_cb 5 [] friends ≡ none
unfolding friend_name_cb
unknown_friend = refl

cleanup_run :
    friend_cleanup recorder [] 100 1000 friends ≡ (deleted 6 ∷ [], seen 1 950 ∷ seen 4 u64_max ∷ [])
unfolding friend_cleanup
cleanup_run = refl

friend_cleanup_lem_example :
    friend_cleanup recorder [] 100 1000 friends
    ≡ (delete_all recorder [] (filter (stale? 100 1000) friends), filter (recent? 100 1000) friends)
friend_cleanup_lem_example =
    friend_cleanup_lem recorder [] 100 1000 friends (omega arith)
      (inr (omega arith), (inl refl, (inr (omega arith), tt)))
