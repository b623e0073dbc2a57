-- ===== src/Friend.antt =====
-- src/friend.c and src/friend.h: the list of friends, its queries, its updates from toxcore and the
-- callbacks that toxcore makes. `none` as a result is the dereference of a NULL pointer.
pub mod Registry
pub mod Callbacks
pub mod Purge
pub mod Printing
mod Tests
use tox_suite.Base.{
  ℕ, zero, suc, ◌+◌, ◌-◌, ◌*◌, ◌/◌, ◌%◌, ◌^◌, ◌≤◌, ◌<◌, ◌≡◌, refl, sym, ap, ◌∙◌, ◌≢◌, ◌↔◌, ◌⊎◌, inl,
  inr, Bool, true, false, ◌&&◌, ◌||◌, not, Option, none, some, List, [], ◌∷◌, ◌++◌, map, arith, ltb,
  leb, ◌==◌, if◌then◌else◌, ltb→lt, lt→ltb, not-ltb→le, not-leb→lt, leb→le, le→leb, ==_iff,
  Bool-cases, Option-cases, length, get_elem?, set, take, drop, All, length-append,
  take-append-drop, length-drop, eq_bytes, eq_bytes→eq, eq_bytes_refl,
}
use mathlib.Core.Option
use tox_suite.Base.Entries.{find_index, modify, deref, erase_at}
use tox_suite.Base.Ordered.{insert_before}
use tox_suite.Base.Words.{u64_max, sub_u64}
use tox_suite.Sodium.{Sodium}
use tox_suite.Tox.{Tox}

-- A text is its bytes without the terminator; NULL is `none`.
pub record FriendInfo : Type 0 where
  pub friend_number : ℕ
  pub name : Option (List ℕ)
  pub status_message : Option (List ℕ)
  pub tox_id_bin : List ℕ
  pub last_online : ℕ
  pub status : ℕ
  pub connection_status : ℕ
  pub tox_id_hex : List ℕ

abbrev pub tox_public_key_size : ℕ
tox_public_key_size = 32

-- toupper in the C locale.
unfoldable pub toupper : ℕ → ℕ
toupper c = if leb b'a' c && leb c b'z' then c - 32 else c

abbrev pub number_of : FriendInfo → ℕ
number_of f = f.friend_number

-- `fresh` is what malloc returned, with indeterminate contents.
new_entry : FriendInfo → ℕ → FriendInfo
new_entry fresh friend_number = record fresh {
  friend_number = friend_number;
  name = none;
  status_message = none;
}

unfoldable pub friend_info_add_entry : FriendInfo → List FriendInfo → ℕ → List FriendInfo
unfolding new_entry insert_before
friend_info_add_entry fresh friends_info friend_number =
    let friend = new_entry fresh friend_number in
    insert_before (λ entry. ltb friend.friend_number entry.friend_number) friend friends_info

unfoldable pub friend_info_by_friend_number : List FriendInfo → ℕ → Option ℕ
friend_info_by_friend_number friends_info friend_number =
    find_index (λ f. f.friend_number == friend_number) friends_info

-- strncmp over texts that hold no terminator.
unfoldable pub friend_info_by_public_keyhex : List FriendInfo → List ℕ → Option ℕ
friend_info_by_public_keyhex friends_info public_key =
    find_index
      (λ f.
        eq_bytes (take (tox_public_key_size * 2) f.tox_id_hex)
          (take (tox_public_key_size * 2) public_key))
      friends_info

unfoldable pub friends_info_number_of_friend : List FriendInfo → ℕ
friends_info_number_of_friend [] = 0
friends_info_number_of_friend (f ∷ fs) = friends_info_number_of_friend fs + 1

-- list_del and the three calls of free.
unfoldable pub friend_info_destroy : ℕ → List FriendInfo → List FriendInfo
friend_info_destroy = erase_at

-- list_for_each_entry_safe has the successor at hand when it destroys an entry.
pub friends_info_destroy : List FriendInfo → List FriendInfo
friends_info_destroy [] = []
friends_info_destroy (f ∷ fs) = friends_info_destroy fs

pub print_friends_pubkeys : List FriendInfo → List (List ℕ)
print_friends_pubkeys [] = []
print_friends_pubkeys (f ∷ fs) = (f.tox_id_hex ++ (10 ∷ [])) ∷ print_friends_pubkeys fs

unfoldable pub friend_info_by_public_keybin : Sodium → List FriendInfo → List ℕ → Option ℕ
friend_info_by_public_keybin sodium friends_info public_key =
    find_index (λ f. sodium.memcmp f.tox_id_bin public_key tox_public_key_size == 0) friends_info

module _ (sodium : Sodium) (tox : Tox) where
  open tox use {State}

  unfoldable pub friend_info_update : State → FriendInfo → FriendInfo
  unfolding toupper
  friend_info_update apptox friend =
      let n = friend.friend_number in
      let key = tox.friend_get_public_key apptox n in
      record friend {
        last_online = tox.friend_get_last_online apptox n;
        tox_id_bin = key;
        tox_id_hex = map toupper (sodium.bin2hex key);
        name = some (tox.friend_get_name apptox n);
        status_message = some (tox.friend_get_status_message apptox n);
        status = tox.friend_get_status apptox n;
        connection_status = tox.friend_get_connection_status apptox n;
      }

  unfoldable pub friends_info_update : State → List FriendInfo → List FriendInfo
  unfolding friend_info_update
  friends_info_update apptox [] = []
  friends_info_update apptox (f ∷ fs) = friend_info_update apptox f ∷ friends_info_update apptox fs

  -- The loop of `friends_info_init` over `friend_list`.
  unfoldable pub add_all : FriendInfo → List FriendInfo → List ℕ → List FriendInfo
  unfolding friend_info_add_entry
  add_all fresh friends_info [] = friends_info
  add_all fresh friends_info (n ∷ ns) =
      add_all fresh (friend_info_add_entry fresh friends_info n) ns

  unfoldable pub friends_info_init : FriendInfo → State → List FriendInfo → List FriendInfo
  unfolding friends_info_update add_all
  friends_info_init fresh apptox friends_info =
      friends_info_update apptox (add_all fresh friends_info (tox.self_get_friend_list apptox))

-- The two tests of the loop of `friend_cleanup`; the subtraction is unsigned.
unfoldable pub is_expired : ℕ → ℕ → FriendInfo → Bool
is_expired timeout current_time f =
    if f.last_online == u64_max
    then false
    else if ltb (sub_u64 current_time f.last_online) timeout
    then false
    else true

module _ (tox : Tox) where
  open tox use {State}

  -- friend_request_cb
  unfoldable pub friend_request_cb :
      FriendInfo → State → List ℕ → List FriendInfo → State × List FriendInfo
  unfolding friend_info_add_entry
  friend_request_cb fresh t public_key friends_info =
      let (added, t') = tox.friend_add_norequest t public_key in
      elim added [
        | none ↦ (t', friends_info)
        | some friend_number ↦ (t', friend_info_add_entry fresh friends_info friend_number)
      ]

  -- The result of tox_friend_delete is not read.
  unfoldable pub friend_cleanup : State → ℕ → ℕ → List FriendInfo → State × List FriendInfo
  unfolding is_expired
  friend_cleanup t timeout current_time [] = (t, [])
  friend_cleanup t timeout current_time (f ∷ fs) = elim (is_expired timeout current_time f) [
    | true ↦ friend_cleanup (tox.friend_delete t f.friend_number).1 timeout current_time fs
    | false ↦ let (t', kept) = friend_cleanup t timeout current_time fs in (t', f ∷ kept)
  ]

-- friend_name_cb
unfoldable pub friend_name_cb : ℕ → List ℕ → List FriendInfo → Option (List FriendInfo)
unfolding friend_info_by_friend_number
friend_name_cb friend_number name friends_info =
    Option.map (λ i. modify i (λ f. record f { name = some name }) friends_info)
      (friend_info_by_friend_number friends_info friend_number)

unfoldable pub friend_status_message_cb : ℕ → List ℕ → List FriendInfo → Option (List FriendInfo)
unfolding friend_info_by_friend_number
friend_status_message_cb friend_number message friends_info =
    Option.map (λ i. modify i (λ f. record f { status_message = some message }) friends_info)
      (friend_info_by_friend_number friends_info friend_number)

unfoldable pub friend_status_cb : ℕ → ℕ → List FriendInfo → Option (List FriendInfo)
unfolding friend_info_by_friend_number
friend_status_cb friend_number status friends_info =
    Option.map (λ i. modify i (λ f. record f { status = status }) friends_info)
      (friend_info_by_friend_number friends_info friend_number)
