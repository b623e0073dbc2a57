-- ===== src/Suit/StartTests.antt =====
-- Ends and starts of the program at concrete files.
use tox_suite.Base.{
  ℕ, ◌≡◌, refl, Bool, true, false, none, some, List, [], ◌∷◌, arith, if◌then◌else◌, eq_bytes,
}
use tox_suite.Base.Heap.{Heap, load}
use tox_suite.Base.Texts.{codes}
use tox_suite.Bencode.Plain.{plain, plain-IsBencode}
use tox_suite.Tox.Recorder.{Call, plain_sodium}
use tox_suite.Friend.{
  FriendInfo, friend_info_by_friend_number, friend_info_by_public_keybin, friends_info_init,
  friend_info_update, toupper,
}
use tox_suite.Misc.Client.{client_info_update}
use tox_suite.Transfer.{FileSender, FileNode, zero_sender, zero_node, file_queue_init}
use tox_suite.Transfer.Receive.{Disk}
use tox_suite.Tsfiles.{be_node_loadfile}
use tox_suite.Tsfiles.Nodes.{IsComplete}
use tox_suite.Tsfiles.Shrlist.{Saved, load_shrlist, read_shrlist}
use tox_suite.Tsfiles.Senders.{senders_file, load_senders}
use tox_suite.Tsfiles.Kept.{Kept, IsSender, Keyed, Known, Queued}
use tox_suite.Profile.{load_profile}
use tox_suite.Call.Startup.{audio_load, calltest_init}
use tox_suite.Suit.Samples.{repeat, keyed, clear, quiet, sys, nobody, fresh, at_home}
use tox_suite.Suit.Startup.{
  going, Running, data_filename, shrlist_filename, enter_home, get_client, set_user_config,
  bootstrap_dht, callbacks_init, startup,
}
use tox_suite.Suit.Shutdown.{Ended, shutdown}
use tox_suite.Suit.Restarting.{restart_loses_transfers}
use tox_suite.Base.Entries.{modify}
use tox_suite.Tox.Recorder.{added}
use tox_suite.Friend.{friend_request_cb, friend_name_cb, friend_info_add_entry}
use tox_suite.Commands.Arguments.{argexp}
use tox_suite.Commands.Replies.{case_of, rest_texts}
use tox_suite.Commands.Dialogue.{
  friend_message, run_execute, after_open, after_execute, after_argexp, run_options, print_all,
  case_texts, case_action,
}
use tox_suite.Commands.Samples.{plain_stdio, services}
use tox_suite.Suit.Events.{
  Event, requested, name_changed, texted, self_connected, Platform, Outcome, alive, step, run,
}
use tox_suite.Suit.Reached.{IsOrderly, reached-IsOrderly}
use tox_suite.Suit.Resuming.{restart_resumes}

abbrev savedata : List Call → List ℕ
savedata t = codes "profile"

abbrev any_name : List ℕ → Bool
any_name name = true

abbrev one_hash : Heap
one_hash = some (repeat 32 7) ∷ []

abbrev song : FileNode
song = record zero_node { file = some (codes "song"); length = 4321; blake2b = some 0 }

song-IsComplete : IsComplete one_hash song (codes "song") (repeat 32 7)
unfolding load
song-IsComplete = record {
  named = refl;
  name_text = omega arith;
  hashed = refl;
  hash_size = refl;
  length_fits = omega arith;
}

abbrev saved_song : Saved
saved_song = record { name = codes "song"; len = 4321; hash = repeat 32 7 }

abbrev sender : FileSender
sender = record zero_sender { friend_number = 4; pathname = some (codes "/m/song"); info = song }

abbrev kept : Kept
kept = record {
  key = repeat 32 9;
  path = codes "/m/song";
  name = codes "song";
  len = 4321;
  hash = repeat 32 7;
}

sender-IsSender : IsSender one_hash sender kept 4
sender-IsSender = record {
  path_set = refl;
  path_text = omega arith;
  node = song-IsComplete;
  len_set = refl;
  number_set = refl;
  key_size = refl;
}

sender-Queued : Queued (Keyed (nobody 4 ∷ [])) one_hash (sender ∷ []) (kept ∷ [])
unfolding friend_info_by_friend_number
sender-Queued = (sender-IsSender, (nobody 4, refl, refl), tt)

abbrev no_files : Disk
no_files name = none

abbrev running : Running (List Call) (List ℕ)
running = record {
  tox = [];
  toxav = [];
  should_save = false;
  own_info = record {
    name = none;
    status_message = none;
    tox_id_bin = [];
    tox_id_hex = [];
    connect = 0;
  };
  friends_info = nobody 4 ∷ [];
  calltesters = [];
  greeter = none;
  shared = song ∷ [];
  file_recheck = true;
  sending = sender ∷ [];
  loaded = [];
  heap = one_hash;
}

home-enter_home : enter_home sys (some (codes "/home")) ≡ going tt
unfolding enter_home
home-enter_home = refl

begun-callbacks_init :
    callbacks_init sys (bootstrap_dht plain_sodium sys (set_user_config sys at_home []))
    ≡ (some [], [])
unfolding callbacks_init bootstrap_dht set_user_config
begun-callbacks_init = refl

abbrev friends_now : List FriendInfo
friends_now = friends_info_init plain_sodium keyed (nobody 77) [] []

nine-Known : Known plain_sodium friends_now (repeat 32 9) 9
unfolding friends_info_init friend_info_by_public_keybin toupper
nine-Known = (friend_info_update plain_sodium keyed [] (nobody 9), refl, refl)

restart_resumes_example :
    (e : Ended (List ℕ)) × (si' : Running (List Call) (List ℕ)) × (shutdown clear plain keyed
        (List ℕ)
        quiet
        savedata
        any_name
        []
        none
        running
        no_files
      ≡ some e)
    × (startup clear plain_sodium plain keyed (List ℕ) sys fresh at_home e.disk ≡ going si')
    × (si'.tox ≡ [])
    × (si'.friends_info ≡ friends_now)
    × Queued (Known plain_sodium friends_now) si'.heap si'.loaded (kept ∷ [])
    × (si'.should_save ≡ false)
restart_resumes_example =
    restart_resumes clear plain_sodium plain keyed (List ℕ) sys fresh savedata any_name at_home
      no_files [] running saved_song [] kept [] [] [] [] plain-IsBencode (song-IsComplete, refl, tt)
      sender-Queued refl refl refl refl refl home-enter_home refl begun-callbacks_init
      ((9, nine-Known), tt)

-- The state that a start without files comes to.
abbrev idle : Running (List Call) (List ℕ)
idle = record running {
  own_info = client_info_update plain_sodium sys.self [];
  friends_info = friends_now;
  shared = [];
  sending = [];
  heap = [];
}

abbrev with_profile : Disk
with_profile name = if eq_bytes name data_filename then some (codes "profile") else none

idle-startup :
    startup clear plain_sodium plain keyed (List ℕ) sys fresh at_home with_profile ≡ going idle
unfolding startup enter_home get_client set_user_config bootstrap_dht callbacks_init load_shrlist
    read_shrlist load_senders be_node_loadfile file_queue_init audio_load calltest_init load_profile
idle-startup = refl

restart_loses_transfers_example :
    (e : Ended (List ℕ)) × (shutdown clear plain keyed
        (List ℕ)
        quiet
        savedata
        any_name
        []
        none
        idle
        with_profile
      ≡ some e)
    × (e.disk senders_file ≡ none)
    × (e.disk shrlist_filename ≡ none)
restart_loses_transfers_example =
    restart_loses_transfers clear plain_sodium plain keyed (List ℕ) sys fresh savedata any_name
      at_home with_profile [] idle plain-IsBencode idle-startup

abbrev orders : Platform
orders = record {
  tcp = 1;
  udp = 2;
  control_cancel = 2;
  control_resume = 0;
  writable = λ name. true;
}

abbrev no_seek_fails : ℕ → Bool
no_seek_fails position = false

-- A friend is added, gets a name and asks for a call.
abbrev happened : List Event
happened =
    requested (7 ∷ [])
    ∷ name_changed 7 (codes "Bob")
    ∷ texted 7 (codes "!callme") 7
    ∷ self_connected 1
    ∷ []

abbrev reached : Outcome keyed (List ℕ) 1372 plain_stdio services no_seek_fails orders (nobody 77)
reached = alive (record {
  si = record idle {
    tox = added (7 ∷ []) ∷ [];
    toxav = 7 ∷ [];
    friends_info =
        modify 2 (λ f. record f { name = some (codes "Bob") })
          (friend_info_add_entry (nobody 77) friends_now 7);
  };
  xdcc = false;
  disk = with_profile;
})

happened-run :
    run keyed
      (List ℕ)
      1372
      plain_stdio
      services
      no_seek_fails
      orders
      (nobody 77)
      happened
      (record { si = idle; xdcc = false; disk = with_profile })
    ≡ some reached
unfolding run step friend_request_cb friend_name_cb friend_info_by_friend_number friend_message
    run_execute after_open after_execute after_argexp argexp run_options print_all case_texts
    case_action case_of rest_texts friends_info_init
happened-run = refl

reached-IsOrderly_example :
    IsOrderly keyed (List ℕ) 1372 plain_stdio services no_seek_fails orders (nobody 77) reached
reached-IsOrderly_example =
    reached-IsOrderly clear plain_sodium plain keyed (List ℕ) sys fresh 1372 plain_stdio services
      no_seek_fails orders (nobody 77) at_home with_profile idle happened reached idle-startup
      happened-run
