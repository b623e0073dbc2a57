-- ===== src/Suit/Reached.antt =====
-- What holds of the main program in every state that the callbacks and the purges bring it to.
use tox_suite.Base.{
  ℕ, zero, suc, ◌≡◌, refl, sym, ap, ◌∙◌, inl, inr, Bool, false, Option, none, some, List, [], ◌∷◌,
  arith, Bool-cases, Option-cases, get_elem?,
}
use mathlib.Core.Option
use mathlib.Core.Option.{some-injective}
use mathlib.Core.Path.{subst}
use tox_suite.Base.Entries.{modify}
use tox_suite.Base.Ordered.{AtLeast, IsSorted}
use tox_suite.Base.Results.{◌>>=◌, OnResult, on_result, on_map}
use tox_suite.Tox.{Tox}
use tox_suite.Friend.{
  FriendInfo, number_of, friend_info_by_friend_number, friend_request_cb, friend_name_cb,
  friend_status_message_cb, friend_status_cb, friend_cleanup, is_expired, friends_info_init,
}
use tox_suite.Friend.Registry.{friend_info_add_entry-IsSorted, friends_info_init_complete}
use tox_suite.Transfer.Callbacks.{file_chunk_request_cb, file_recv_control_cb}
use tox_suite.Tsfiles.Resume.{Resumed, friend_connection_status_cb}
use tox_suite.Commands.Replies.{Stdio, Services}
use tox_suite.Commands.Dialogue.{returned, exited, Progress}
use tox_suite.Suit.{purge_friends, friend_purge_interval}
use tox_suite.Bencode.{Bencode}
use tox_suite.Sodium.{Sodium}
use tox_suite.Profile.{PassCrypt}
use tox_suite.Transfer.Receive.{Disk}
use tox_suite.Suit.Startup.{
  Run, going, leaves, faults, Environment, Launch, Fresh, Running, startup,
}
use tox_suite.Suit.Events.{
  Event, self_connected, requested, texted, name_changed, status_changed, status_message_changed,
  connected, chunk_requested, controlled, offered, chunk_received, purge_due, Platform, Program,
  Outcome, alive, ended, step, run, services, answered, with_friends, with_resumed, with_served,
  with_queue, next,
}

-- The friends of a list are in order.
abbrev InOrder : List FriendInfo → Type 0
InOrder = IsSorted number_of

modify-AtLeast :
    (n i : ℕ) (g : FriendInfo → FriendInfo) (fs : List FriendInfo)
    → ((f : FriendInfo) → number_of (g f) ≡ number_of f)
    → AtLeast number_of n fs
    → AtLeast number_of n (modify i g fs)
modify-AtLeast n i g [] keep h = tt
modify-AtLeast n zero g (f ∷ fs) keep h = (omega (arith, h, keep f), h.1)
modify-AtLeast n (suc i) g (f ∷ fs) keep h = (h.0, modify-AtLeast n i g fs keep h.1)

-- A write that keeps the number keeps the order.
modify-InOrder :
    (i : ℕ) (g : FriendInfo → FriendInfo) (fs : List FriendInfo)
    → ((f : FriendInfo) → number_of (g f) ≡ number_of f)
    → InOrder fs
    → InOrder (modify i g fs)
modify-InOrder i g [] keep h = tt
modify-InOrder zero g (f ∷ fs) keep h =
    (subst (λ n. AtLeast number_of n fs) (sym (keep f)) h.0, h.1)
modify-InOrder (suc i) g (f ∷ fs) keep h =
    (modify-AtLeast f.friend_number i g fs keep h.0, modify-InOrder i g fs keep h.1)

module _ (tox : Tox) where
  request-InOrder :
      (fresh : FriendInfo) (t : tox.State) (key : List ℕ) (fs : List FriendInfo)
      → InOrder fs
      → InOrder (friend_request_cb tox fresh t key fs).1
  unfolding friend_request_cb
  request-InOrder fresh t key fs h = elim (Option-cases (tox.friend_add_norequest t key).0) [
    | inl e ↦ rw (e, friend_request_cb) h
    | inr (n, e) ↦ rw (e, friend_request_cb) (friend_info_add_entry-IsSorted fresh fs n h)
  ]

  cleanup-AtLeast :
      (t : tox.State) (timeout now n : ℕ) (fs : List FriendInfo)
      → AtLeast number_of n fs
      → AtLeast number_of n (friend_cleanup tox t timeout now fs).1
  unfolding friend_cleanup
  cleanup-AtLeast t timeout now n [] h = tt
  cleanup-AtLeast t timeout now n (f ∷ fs) h = elim (Bool-cases (is_expired timeout now f)) [
    | inl e ↦
        rw (e, friend_cleanup)
          (cleanup-AtLeast (tox.friend_delete t f.friend_number).1 timeout now n fs h.1)
    | inr e ↦ rw (e, friend_cleanup) (h.0, cleanup-AtLeast t timeout now n fs h.1)
  ]

  cleanup-InOrder :
      (t : tox.State) (timeout now : ℕ) (fs : List FriendInfo)
      → InOrder fs
      → InOrder (friend_cleanup tox t timeout now fs).1
  unfolding friend_cleanup
  cleanup-InOrder t timeout now [] h = tt
  cleanup-InOrder t timeout now (f ∷ fs) h = elim (Bool-cases (is_expired timeout now f)) [
    | inl e ↦
        rw (e, friend_cleanup)
          (cleanup-InOrder (tox.friend_delete t f.friend_number).1 timeout now fs h.1)
    | inr e ↦
        rw (e, friend_cleanup)
          (
            cleanup-AtLeast t timeout now f.friend_number fs h.0,
            cleanup-InOrder t timeout now fs h.1,
          )
  ]

module _ (tox : Tox) (AV : Type 0) (limit : ℕ) (stdio : Stdio) (sys : Services tox.State AV)
    (seek_fails : ℕ → Bool) (platform : Platform) (fresh : FriendInfo) where
  abbrev This : Type 0
  This = Program tox AV limit stdio sys seek_fails platform fresh

  -- The friends are in order, whether the program runs or has ended.
  abbrev pub IsOrderly : Outcome tox AV limit stdio sys seek_fails platform fresh → Type 0
  IsOrderly (alive bot) = IsSorted number_of bot.si.friends_info
  IsOrderly (ended code bot) = IsSorted number_of bot.si.friends_info

  abbrev make : This → List FriendInfo → Outcome tox AV limit stdio sys seek_fails platform fresh
  make = with_friends tox AV limit stdio sys seek_fails platform fresh

  rewritten :
      (bot : This) (g : FriendInfo → FriendInfo) (o : Option ℕ)
      → ((f : FriendInfo) → number_of (g f) ≡ number_of f)
      → InOrder bot.si.friends_info
      → OnResult IsOrderly
          (Option.map (make bot) (Option.map (λ i. modify i g bot.si.friends_info) o))
  rewritten bot g none keep h = tt
  rewritten bot g (some i) keep h = modify-InOrder i g bot.si.friends_info keep h

  talked-IsOrderly :
      (bot : This)
      (o : Option (
        Progress tox limit stdio AV
          (services tox AV limit stdio sys seek_fails platform fresh bot.si)))
      → InOrder bot.si.friends_info
      → OnResult IsOrderly (answered tox AV limit stdio sys seek_fails platform fresh bot o)
  talked-IsOrderly bot none h = tt
  talked-IsOrderly bot (some (returned w)) h = h
  talked-IsOrderly bot (some (exited code w)) h = h

  paired :
      {R : Type 0} (fs : List FriendInfo) (m : Option R)
      → InOrder fs
      → OnResult (λ (r : List FriendInfo × R). InOrder r.0) (m >>= (λ r. some (fs, r)))
  paired fs none h = tt
  paired fs (some r) h = h

  connected-InOrder :
      (bot : This) (n code : ℕ)
      → InOrder bot.si.friends_info
      → OnResult
          (λ (r : List FriendInfo × Resumed tox sys.fopen). InOrder r.0)
          (friend_connection_status_cb tox sys.fopen platform.tcp platform.udp n code
            bot.si.friends_info bot.si.sending bot.si.loaded bot.si.heap bot.si.tox)
  unfolding friend_connection_status_cb
  connected-InOrder bot n code h =
      elim (Option-cases (friend_info_by_friend_number bot.si.friends_info n)) [
        | inl e ↦ rw (e, friend_connection_status_cb) tt
        | inr (i, e) ↦
            rw (e, friend_connection_status_cb)
              (elim (Option-cases (get_elem? bot.si.friends_info i)) [
                | inl none_there ↦ rw none_there tt
                | inr (f, there) ↦ rw there (
                    paired
                      (modify i (λ f. record f { connection_status = code }) bot.si.friends_info) _
                      (modify-InOrder i _ bot.si.friends_info (λ f. refl) h))
              ])
      ]

  resumed-IsOrderly :
      (bot : This) (o : Option (List FriendInfo × Resumed tox sys.fopen))
      → OnResult (λ (r : List FriendInfo × Resumed tox sys.fopen). InOrder r.0) o
      → OnResult IsOrderly
          (Option.map (with_resumed tox AV limit stdio sys seek_fails platform fresh bot) o)
  resumed-IsOrderly bot none h = tt
  resumed-IsOrderly bot (some r) h = h

  step-IsOrderly :
      (e : Event) (bot : This)
      → InOrder bot.si.friends_info
      → OnResult IsOrderly (step tox AV limit stdio sys seek_fails platform fresh e bot)
  unfolding step friend_name_cb friend_status_cb friend_status_message_cb purge_friends
  step-IsOrderly (self_connected code) bot h = h
  step-IsOrderly (requested key) bot h =
      request-InOrder tox fresh bot.si.tox key bot.si.friends_info h
  step-IsOrderly (texted n memory size) bot h = talked-IsOrderly bot _ h
  step-IsOrderly (name_changed n text) bot h = rewritten bot _ _ (λ f. refl) h
  step-IsOrderly (status_changed n code) bot h = rewritten bot _ _ (λ f. refl) h
  step-IsOrderly (status_message_changed n text) bot h = rewritten bot _ _ (λ f. refl) h
  step-IsOrderly (connected n code) bot h = resumed-IsOrderly bot _ (connected-InOrder bot n code h)
  step-IsOrderly (chunk_requested n file position len) bot h =
      on_map IsOrderly (with_served tox AV limit stdio sys seek_fails platform fresh bot)
        (file_chunk_request_cb tox seek_fails bot.si.sending bot.si.heap bot.si.tox n file position
          len)
        (λ r. h)
  step-IsOrderly (controlled n file control) bot h =
      on_map IsOrderly (with_queue tox AV limit stdio sys seek_fails platform fresh bot)
        (file_recv_control_cb bot.si.sending bot.si.heap n file control) (λ r. h)
  step-IsOrderly (offered n file kind) bot h = h
  step-IsOrderly (chunk_received n file position bytes) bot h = h
  step-IsOrderly (purge_due now) bot h =
      cleanup-InOrder tox bot.si.tox friend_purge_interval now bot.si.friends_info h

  next-IsOrderly :
      (rest : This → Option (Outcome tox AV limit stdio sys seek_fails platform fresh))
      (o : Option (Outcome tox AV limit stdio sys seek_fails platform fresh))
      → ((bot : This) → InOrder bot.si.friends_info → OnResult IsOrderly (rest bot))
      → OnResult IsOrderly o
      → OnResult IsOrderly (next tox AV limit stdio sys seek_fails platform fresh rest o)
  next-IsOrderly rest none keep h = tt
  next-IsOrderly rest (some (alive bot)) keep h = keep bot h
  next-IsOrderly rest (some (ended code bot)) keep h = h

  run-IsOrderly :
      (es : List Event) (bot : This)
      → InOrder bot.si.friends_info
      → OnResult IsOrderly (run tox AV limit stdio sys seek_fails platform fresh es bot)
  unfolding run
  run-IsOrderly [] bot h = h
  run-IsOrderly (e ∷ es) bot h =
      next-IsOrderly (run tox AV limit stdio sys seek_fails platform fresh es) _ (run-IsOrderly es)
        (step-IsOrderly e bot h)

-- The friends that a start has, and those that its client tells of.
abbrev friends_of : {S AV : Type 0} → Run (Running S AV) → List FriendInfo
friends_of (going si) = si.friends_info
friends_of (leaves code) = []
friends_of faults = []

abbrev told_of :
    (sodium : Sodium) (tox : Tox) {AV : Type 0}
    → FriendInfo
    → Run (Running tox.State AV)
    → List FriendInfo
told_of sodium tox new (going si) = friends_info_init sodium tox new si.tox []
told_of sodium tox new (leaves code) = []
told_of sodium tox new faults = []

module _ (crypt : PassCrypt) (sodium : Sodium) (b : Bencode) (tox : Tox) (AV : Type 0)
    (launch : Launch tox.State AV) (malloc : Fresh) where
  friends_of-startup :
      (env : Environment) (disk : Disk)
      → friends_of (startup crypt sodium b tox AV launch malloc env disk)
        ≡ told_of sodium tox malloc.friend (startup crypt sodium b tox AV launch malloc env disk)
  unfolding startup
  friends_of-startup env disk = ground arith

  -- In whatever state the program is, its friends are in the order of their numbers: from a start
  -- that has come to the loop, with xdcc off, whatever callbacks of toxcore and purges follow one
  -- another, if none of them is a fault, then the friends are in order, whether the program still
  -- runs or has ended in a callback.
  pub reached-IsOrderly :
      (limit : ℕ) (stdio : Stdio) (sys : Services tox.State AV) (seek_fails : ℕ → Bool)
      (platform : Platform) (fresh : FriendInfo) (env : Environment) (disk : Disk)
      (si : Running tox.State AV) (es : List Event)
      (o : Outcome tox AV limit stdio sys seek_fails platform fresh)
      → startup crypt sodium b tox AV launch malloc env disk ≡ going si
      → run tox AV limit stdio sys seek_fails platform fresh es
          (record { si = si; xdcc = false; disk = disk })
        ≡ some o
      → IsOrderly tox AV limit stdio sys seek_fails platform fresh o
  reached-IsOrderly limit stdio sys seek_fails platform fresh env disk si es o started reached =
      let told : si.friends_info ≡ friends_info_init sodium tox malloc.friend si.tox [] =
        ap friends_of (sym started)
        ∙ friends_of-startup env disk
        ∙ ap (told_of sodium tox malloc.friend) started in
      on_result (IsOrderly tox AV limit stdio sys seek_fails platform fresh) _ o
        (run-IsOrderly tox AV limit stdio sys seek_fails platform fresh es
          (record { si = si; xdcc = false; disk = disk })
          (subst InOrder (sym told) (friends_info_init_complete sodium tox malloc.friend si.tox).0))
        reached
