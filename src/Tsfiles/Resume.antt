-- ===== src/Tsfiles/Resume.antt =====
-- resume_send and friend_connection_status_cb of src/tsfiles.c: the loaded transfers of a friend
-- who comes online are offered again.
use tox_suite.Base.{
  ℕ, ◌≡◌, refl, sym, ◌∙◌, inl, inr, Bool, true, false, ◌||◌, Option, none, some, List, [], ◌∷◌, map,
  arith, ◌==◌, if◌then◌else◌, ==_iff, Bool-cases, Option-cases, get_elem?, All,
}
use mathlib.Core.Path.{subst}
use tox_suite.Base.Entries.{modify, has_key, find_first_fits}
use tox_suite.Friend.Registry.{entry_of, entry_of_lem}
use tox_suite.Friend.Callbacks.{rewrite_lookup}
use tox_suite.Base.Heap.{Heap, malloc, load, load-malloc_old}
use tox_suite.Base.Results.{◌>>=◌}
use tox_suite.Tox.{Tox}
use tox_suite.Friend.{FriendInfo, number_of, friend_info_by_friend_number}
use tox_suite.Transfer.{FileSender}
use tox_suite.Transfer.Send.{Sent, add_filesender, IsReady, Grows, hash_bytes}
use tox_suite.Transfer.Send.Offering.{Offered, add_filesender_ready}

abbrev pub pathname_of : FileSender → Option (List ℕ)
pathname_of f = f.pathname

hash_bytes-malloc :
    (p : Option ℕ) (heap : Heap) (bytes : List ℕ) (hash : Option (List ℕ))
    → hash_bytes p heap ≡ some hash
    → hash_bytes p (malloc heap bytes) ≡ some hash
hash_bytes-malloc none heap bytes hash e = e
hash_bytes-malloc (some p) heap bytes hash e = elim (Option-cases (load heap p)) [
  | inl d ↦ ground (arith, d)
  | inr (old, l) ↦ ground (arith, l, load-malloc_old heap bytes old p l)
]

IsReady-Grows :
    (heap heap' : Heap) (fs : List FileSender)
    → Grows heap heap'
    → All (IsReady heap) fs
    → All (IsReady heap') fs
IsReady-Grows heap heap' [] g r = tt
IsReady-Grows heap heap' (f ∷ fs) (inl e) ((named, (hash, h)), rs) =
    ((named, (hash, rw e h)), IsReady-Grows heap heap' fs (inl e) rs)
IsReady-Grows heap heap' (f ∷ fs) (inr (bytes, e)) ((named, (hash, h)), rs) = (
  (named, (hash, rw e (hash_bytes-malloc f.info.blake2b heap bytes hash h))),
  IsReady-Grows heap heap' fs (inr (bytes, e)) rs,
)

found_at :
    (fs : List FriendInfo) (n : ℕ) (f : FriendInfo)
    → entry_of fs n ≡ some f
    → (i : ℕ) × (friend_info_by_friend_number fs n ≡ some i)
      × (get_elem? fs i ≡ some f)
      × (f.friend_number ≡ n)
found_at fs n f e = elim (Option-cases (friend_info_by_friend_number fs n)) [
  | inl missing ↦ absurd (ground (arith, missing, e))
  | inr (i, found) ↦ (
    i,
    found,
    ground (arith, found, e),
    (==_iff f.friend_number n).0
        (find_first_fits (has_key number_of n) fs f (sym (entry_of_lem fs n) ∙ e)),
  )
]

module _ (tox : Tox) (fopen : List ℕ → Option (List ℕ)) where
  -- FileQueueSend, FileQueueLoad, the heap and toxcore.
  abbrev pub Resumed : Type 0
  Resumed = record {
    sending : List FileSender;
    loaded : List FileSender;
    heap : Heap;
    tox : tox.State;
  }

  -- The first loaded sender of another friend ends the loop.
  unfoldable pub resume_send :
      List FileSender → List FileSender → Heap → tox.State → ℕ → Option Resumed
  resume_send sending [] heap t number =
      some (record { sending = sending; loaded = []; heap = heap; tox = t })
  resume_send sending (f ∷ loaded) heap t number = elim (f.friend_number == number) [
    | false ↦ some (record { sending = sending; loaded = f ∷ loaded; heap = heap; tox = t })
    | true ↦ elim (add_filesender tox fopen f heap t) [
      | none ↦ none
      | some sent ↦ resume_send (sent.sender ∷ sending) loaded sent.heap sent.tox number
    ]
  ]

  -- What is left behind a friend's first loaded senders, and what goes before it.
  abbrev pub after_own : ℕ → List FileSender → List FileSender
  after_own number [] = []
  after_own number (f ∷ fs) = elim (f.friend_number == number) [
    | true ↦ after_own number fs
    | false ↦ f ∷ fs
  ]

  -- The paths of these senders, moved one by one to the head.
  abbrev pub own_onto : ℕ → List FileSender → List (Option (List ℕ)) → List (Option (List ℕ))
  own_onto number [] paths = paths
  own_onto number (f ∷ fs) paths = elim (f.friend_number == number) [
    | true ↦ own_onto number fs (f.pathname ∷ paths)
    | false ↦ paths
  ]

  -- The senders at the front of the loaded queue that are of the friend are offered one after
  -- another, each moved to the head of the queue of those being sent; from the first of another
  -- friend on nothing changes.
  abbrev pub Resumes : ℕ → List FileSender → List FileSender → Heap → tox.State → Resumed → Type 0
  Resumes number sending [] heap t r =
      r ≡ record { sending = sending; loaded = []; heap = heap; tox = t }
  Resumes number sending (f ∷ loaded) heap t r = elim (f.friend_number == number) [
    | true ↦
        (sent : Sent tox) × Offered tox fopen f heap t sent
        × Resumes number (sent.sender ∷ sending) loaded sent.heap sent.tox r
    | false ↦ r ≡ record { sending = sending; loaded = f ∷ loaded; heap = heap; tox = t }
  ]

  -- What a friend's coming online does, and what its going offline does.
  abbrev pub IfOnline :
      Bool → ℕ → List FileSender → List FileSender → Heap → tox.State → Resumed → Type 0
  IfOnline true number sending loaded heap t r = Resumes number sending loaded heap t r
  IfOnline false number sending loaded heap t r =
      r ≡ record { sending = sending; loaded = loaded; heap = heap; tox = t }

  resume_own :
      (sending loaded : List FileSender) (f : FileSender) (heap : Heap) (t : tox.State) (number : ℕ)
      (sent : Sent tox)
      → (f.friend_number == number) ≡ true
      → add_filesender tox fopen f heap t ≡ some sent
      → resume_send sending (f ∷ loaded) heap t number
        ≡ resume_send (sent.sender ∷ sending) loaded sent.heap sent.tox number
  unfolding resume_send
  resume_own sending loaded f heap t number sent own e =
      rw (own, resume_send) (rw (e, resume_send) refl)

  -- resume_send returns when each loaded sender has a name, and no hash or a live one: the senders
  -- at the front of the loaded queue that are of the friend are offered and move to the queue of
  -- those being sent, each to its head, and the others stay as they are, from the first one of
  -- another friend on.
  pub resume_send_lem :
      (sending loaded : List FileSender) (heap : Heap) (t : tox.State) (number : ℕ)
      → All (IsReady heap) loaded
      → (r : Resumed) × (resume_send sending loaded heap t number ≡ some r)
        × (r.loaded ≡ after_own number loaded)
        × (map pathname_of r.sending ≡ own_onto number loaded (map pathname_of sending))
        × Resumes number sending loaded heap t r
  unfolding resume_send
  resume_send_lem sending [] heap t number h =
      (record { sending = sending; loaded = []; heap = heap; tox = t }, refl, refl, refl, refl)
  resume_send_lem sending (f ∷ loaded) heap t number (r, rs) =
      elim (Bool-cases (f.friend_number == number)) [
        | inl own ↦
            let (sent, e, path, grows, offered) = add_filesender_ready tox fopen f heap t r in
            let (s, returns, left, moved, resumes) =
              resume_send_lem (sent.sender ∷ sending) loaded sent.heap sent.tox number
                (IsReady-Grows heap sent.heap loaded grows rs) in
            (
              s,
              resume_own sending loaded f heap t number sent own e ∙ returns,
              left ∙ rw (own, after_own) refl,
              moved ∙ rw path (rw (own, own_onto) refl),
              rw (own, Resumes) (sent, offered, resumes),
            )
        | inr other ↦ (
          record { sending = sending; loaded = f ∷ loaded; heap = heap; tox = t },
          rw (other, resume_send) refl,
          rw (other, after_own) refl,
          rw (other, own_onto) refl,
          rw (other, Resumes) refl,
        )
      ]

  -- The codes are those of TOX_CONNECTION_TCP and TOX_CONNECTION_UDP.
  module _ (tcp_code udp_code : ℕ) where
    abbrev pub is_online : ℕ → Bool
    is_online status = status == tcp_code || status == udp_code

    unfoldable pub friend_connection_status_cb :
        ℕ
        → ℕ
        → List FriendInfo
        → List FileSender
        → List FileSender
        → Heap
        → tox.State
        → Option (List FriendInfo × Resumed)
    friend_connection_status_cb friend_number status friends_info sending loaded heap t = do
      i ← friend_info_by_friend_number friends_info friend_number
      f ← get_elem? friends_info i
      let friends' = modify i (λ f. record f { connection_status = status }) friends_info
      r ←
          if is_online status
          then resume_send sending loaded heap t f.friend_number
          else some (record { sending = sending; loaded = loaded; heap = heap; tox = t })
      some (friends', r)

    -- The callback for a friend in the list returns when each loaded sender can be offered: that
    -- friend alone gets the new connection status, and the friend's senders at the front of the
    -- loaded queue are moved to the queue of those being sent if the status is TCP or UDP, one
    -- after another, each offered to toxcore unless its file cannot be opened; otherwise both
    -- queues, the heap and toxcore stay as they are.
    pub friend_connection_status_cb_lem :
        (n status : ℕ) (friends_info : List FriendInfo) (f : FriendInfo)
        (sending loaded : List FileSender) (heap : Heap) (t : tox.State)
        → entry_of friends_info n ≡ some f
        → All (IsReady heap) loaded
        → (friends' : List FriendInfo) × (r : Resumed) × (friend_connection_status_cb n status
              friends_info sending loaded heap t
            ≡ some (friends', r))
          × ((j : ℕ)
              → entry_of friends' j ≡ (
                  if j == n
                  then some (record f { connection_status = status })
                  else entry_of friends_info j))
          × (r.loaded ≡ (if is_online status then after_own n loaded else loaded))
          × (map pathname_of r.sending ≡ (
              if is_online status
              then own_onto n loaded (map pathname_of sending)
              else map pathname_of sending))
          × IfOnline (is_online status) n sending loaded heap t r
    unfolding friend_connection_status_cb
    friend_connection_status_cb_lem n status friends_info f sending loaded heap t entry ready =
        let set_status = λ (f : FriendInfo). record f { connection_status = status } in
        let (i, found, at, same) = found_at friends_info n f entry in
        let friends' = modify i set_status friends_info in
        let others =
          λ (j : ℕ). rewrite_lookup set_status n j friends_info i f (λ x. refl) found at in
        elim (Bool-cases (is_online status)) [
          | inl online ↦
              let (r, returns, left, moved, resumes) =
                resume_send_lem sending loaded heap t f.friend_number ready in
              (
                friends',
                r,
                rw (found, at, online, returns) refl,
                others,
                rw online (left ∙ rw same refl),
                rw online (moved ∙ rw same refl),
                rw online (subst (λ m. Resumes m sending loaded heap t r) same resumes),
              )
          | inr offline ↦ (
            friends',
            record { sending = sending; loaded = loaded; heap = heap; tox = t },
            rw (found, at, offline) refl,
            others,
            rw offline refl,
            rw offline refl,
            rw offline refl,
          )
        ]
