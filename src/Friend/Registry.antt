-- ===== src/Friend/Registry.antt =====
-- The list of friends stays ordered by friend number and holds one entry for each friend of
-- toxcore.
use tox_suite.Base.{
  ℕ, ◌≡◌, refl, sym, ap, ◌∙◌, Option, none, some, List, [], ◌∷◌, ◌++◌, map, ◌==◌, if◌then◌else◌,
  All,
}
use mathlib.Core.List.{Perm, perm_middle, append-nil}
use mathlib.Core.List.Perm
use tox_suite.Base.Entries.{find_first, has_key, deref, deref-find_index}
use tox_suite.Base.Ordered.{
  insert_before-perm, insert_by-IsSorted, IsSorted, AtLeast, find_first-insert_before,
}
use tox_suite.Sodium.{Sodium}
use tox_suite.Tox.{Tox}
use tox_suite.Friend.{
  FriendInfo, number_of, new_entry, friend_info_add_entry, friend_info_by_friend_number,
  friend_info_update, friends_info_update, add_all, friends_info_init,
}

pub friend_info_add_entry-IsSorted :
    (fresh : FriendInfo) (fs : List FriendInfo) (n : ℕ)
    → IsSorted number_of fs
    → IsSorted number_of (friend_info_add_entry fresh fs n)
unfolding friend_info_add_entry
friend_info_add_entry-IsSorted fresh fs n s = insert_by-IsSorted number_of (new_entry fresh n) fs s

map-friend_info_add_entry :
    (fresh : FriendInfo) (fs : List FriendInfo) (n : ℕ)
    → Perm (map number_of (friend_info_add_entry fresh fs n)) (n ∷ map number_of fs)
unfolding friend_info_add_entry
map-friend_info_add_entry fresh fs n =
    Perm.map number_of (insert_before-perm _ (new_entry fresh n) fs)

module _ (sodium : Sodium) (tox : Tox) where
  add_all-IsSorted :
      (fresh : FriendInfo) (fs : List FriendInfo) (ns : List ℕ)
      → IsSorted number_of fs
      → IsSorted number_of (add_all sodium tox fresh fs ns)
  unfolding add_all
  add_all-IsSorted fresh fs [] s = s
  add_all-IsSorted fresh fs (n ∷ ns) s =
      add_all-IsSorted fresh (friend_info_add_entry fresh fs n) ns
        (friend_info_add_entry-IsSorted fresh fs n s)

  map-add_all :
      (fresh : FriendInfo) (fs : List FriendInfo) (ns : List ℕ)
      → Perm (map number_of (add_all sodium tox fresh fs ns)) (map number_of fs ++ ns)
  unfolding add_all
  map-add_all fresh fs [] = rw append-nil (Perm.refl _)
  map-add_all fresh fs (n ∷ ns) =
      Perm.trans (map-add_all fresh (friend_info_add_entry fresh fs n) ns) (
        Perm.trans (Perm.append_right ns (map-friend_info_add_entry fresh fs n))
          (Perm.symm (perm_middle (map number_of fs) ns)))

  friends_info_update-AtLeast :
      (s : tox.State) (n : ℕ) (fs : List FriendInfo)
      → AtLeast number_of n fs
      → AtLeast number_of n (friends_info_update sodium tox s fs)
  unfolding friends_info_update
  friends_info_update-AtLeast s n [] a = tt
  friends_info_update-AtLeast s n (f ∷ fs) a = (a.0, friends_info_update-AtLeast s n fs a.1)

  friends_info_update-IsSorted :
      (s : tox.State) (fs : List FriendInfo)
      → IsSorted number_of fs
      → IsSorted number_of (friends_info_update sodium tox s fs)
  unfolding friends_info_update
  friends_info_update-IsSorted s [] a = tt
  friends_info_update-IsSorted s (f ∷ fs) a =
      (friends_info_update-AtLeast s f.friend_number fs a.0, friends_info_update-IsSorted s fs a.1)

  map-friends_info_update :
      (s : tox.State) (fs : List FriendInfo)
      → map number_of (friends_info_update sodium tox s fs) ≡ map number_of fs
  unfolding friends_info_update
  map-friends_info_update s [] = refl
  map-friends_info_update s (f ∷ fs) = ap (◌∷◌ f.friend_number) (map-friends_info_update s fs)

  friends_info_update_fresh :
      (s : tox.State) (fs : List FriendInfo)
      → All (λ f. friend_info_update sodium tox s f ≡ f) (friends_info_update sodium tox s fs)
  unfolding friends_info_update
  friends_info_update_fresh s [] = tt
  friends_info_update_fresh s (f ∷ fs) = (refl, friends_info_update_fresh s fs)

  -- Starting from no entries, `friends_info_init` leaves the entries ordered by friend number, with
  -- the numbers of toxcore's friend list, each as often as there, and another update of an entry
  -- would change nothing in it.
  pub friends_info_init_complete :
      (fresh : FriendInfo) (s : tox.State)
      → IsSorted number_of (friends_info_init sodium tox fresh s [])
        × Perm
            (map number_of (friends_info_init sodium tox fresh s []))
            (tox.self_get_friend_list s)
        × All (λ f. friend_info_update sodium tox s f ≡ f) (friends_info_init sodium tox fresh s [])
  unfolding friends_info_init
  friends_info_init_complete fresh s = (
    friends_info_update-IsSorted s _ (add_all-IsSorted fresh [] (tox.self_get_friend_list s) tt),
    rw map-friends_info_update (map-add_all fresh [] (tox.self_get_friend_list s)),
    friends_info_update_fresh s _,
  )

-- The entry that a search by friend number leads to.
abbrev pub entry_of : List FriendInfo → ℕ → Option FriendInfo
entry_of fs n = deref fs (friend_info_by_friend_number fs n)

pub entry_of_lem :
    (fs : List FriendInfo) (n : ℕ) → entry_of fs n ≡ find_first (has_key number_of n) fs
unfolding friend_info_by_friend_number
entry_of_lem fs n = deref-find_index (has_key number_of n) fs

-- An entry added under a new number is found under it, without a name and a status message, all
-- other searches find what they found before, and the count grows by one.
pub friend_info_add_entry-entry_of :
    (fresh : FriendInfo) (fs : List FriendInfo) (n j : ℕ)
    → entry_of fs n ≡ none
    → entry_of (friend_info_add_entry fresh fs n) j ≡ (
        if n == j
        then some (record fresh { friend_number = n; name = none; status_message = none })
        else entry_of fs j)
unfolding new_entry
friend_info_add_entry-entry_of fresh fs n j absent =
    rw (entry_of_lem fs j, entry_of_lem (friend_info_add_entry fresh fs n) j)
      (unfold friend_info_add_entry in
        find_first-insert_before number_of j _ (new_entry fresh n) fs
          (sym (entry_of_lem fs n) ∙ absent))
