-- ===== src/Tsfiles/Tests.antt =====
-- Runs of the code of src/tsfiles.c at concrete inputs.
use tox_suite.Base.{
  ℕ, zero, suc, ◌≡◌, refl, inl, Bool, true, none, some, List, [], ◌∷◌, map, arith, ◌==◌,
  if◌then◌else◌,
}
use tox_suite.Base.Heap.{Heap, load}
use tox_suite.Base.Int.{pos}
use tox_suite.Base.Texts.{codes}
use tox_suite.Bencode.{BeNode, be_int, be_dict, no_field, field}
use tox_suite.Bencode.Plain.{plain, plain-IsBencode}
use tox_suite.Tox.Recorder.{recorder, plain_sodium}
use tox_suite.Friend.{FriendInfo, friend_info_by_friend_number, friend_info_by_public_keybin}
use tox_suite.Friend.Registry.{entry_of}
use tox_suite.Transfer.{FileSender, FileNode, zero_sender, zero_node}
use tox_suite.Transfer.Receive.{Disk}
use tox_suite.Transfer.Send.{IsReady}
use tox_suite.Tsfiles.Length.{HasTextKeys}
use tox_suite.Tsfiles.Nodes.{IsComplete}
use tox_suite.Tsfiles.Shrlist.{
  Saved, Holds, Loaded, read_shrlist, load_shrlist, dump_shrlist, load_shrlist-dump_shrlist,
}
use tox_suite.Tsfiles.Senders.{save_senders, load_senders, save_senders-ends}
use tox_suite.Tsfiles.Kept.{Kept, IsSender, Keyed, Known, Queued}
use tox_suite.Tsfiles.Restart.{senders_resume}
use tox_suite.Tsfiles.Resume.{
  Resumes, Resumed, pathname_of, friend_connection_status_cb, friend_connection_status_cb_lem,
}

abbrev repeat : ℕ → ℕ → List ℕ
repeat zero c = []
repeat (suc n) c = c ∷ repeat n c

abbrev one_hash : Heap
one_hash = some (repeat 32 7) ∷ []

abbrev song : FileNode
song = record zero_node { file = some (codes "song"); length = 4321; blake2b = some 0 }

song-IsComplete : IsComplete one_hash song (codes "song") (repeat 32 7)
unfolding load
song-IsComplete = record {
  named = refl;
  name_text = omega arith;
  hashed = refl;
  hash_size = refl;
  length_fits = omega arith;
}

abbrev saved_song : Saved
saved_song = record { name = codes "song"; len = 4321; hash = repeat 32 7 }

songs-Holds : Holds one_hash (song ∷ song ∷ []) (saved_song ∷ saved_song ∷ [])
songs-Holds = (song-IsComplete, refl, (song-IsComplete, refl, tt))

abbrev no_disk : Disk
no_disk name = none

abbrev any_name : List ℕ → Bool
any_name name = true

load_shrlist-dump_shrlist_example :
    (disk' : Disk) × (r : Loaded) × (dump_shrlist plain any_name no_disk
        (codes "shr.dat")
        (song ∷ song ∷ [])
        one_hash
      ≡ some disk')
    × (read_shrlist plain disk' zero_node (codes "shr.dat") [] [] ≡ some r)
    × (load_shrlist plain disk' zero_node (codes "shr.dat") [] [] ≡ some (true, r.heap))
    × Holds r.heap r.shr_list (saved_song ∷ saved_song ∷ [])
load_shrlist-dump_shrlist_example =
    load_shrlist-dump_shrlist plain plain-IsBencode any_name no_disk (codes "shr.dat")
      (song ∷ song ∷ []) saved_song (saved_song ∷ []) one_hash songs-Holds refl zero_node [] [] []
      tt

abbrev friend : ℕ → FriendInfo
friend number = record {
  friend_number = number;
  name = none;
  status_message = none;
  tox_id_bin = repeat 32 9;
  last_online = 0;
  status = 0;
  connection_status = 0;
  tox_id_hex = [];
}

abbrev sender : FileSender
sender = record zero_sender { friend_number = 4; pathname = some (codes "/m/song"); info = song }

abbrev pathless : FileSender
pathless = record zero_sender { friend_number = 4; info = song }

abbrev kept : Kept
kept = record {
  key = repeat 32 9;
  path = codes "/m/song";
  name = codes "song";
  len = 4321;
  hash = repeat 32 7;
}

sender-IsSender : IsSender one_hash sender kept 4
sender-IsSender = record {
  path_set = refl;
  path_text = omega arith;
  node = song-IsComplete;
  len_set = refl;
  number_set = refl;
  key_size = refl;
}

sender-Queued : Queued (Keyed (friend 4 ∷ [])) one_hash (sender ∷ []) (kept ∷ [])
unfolding friend_info_by_friend_number
sender-Queued = (sender-IsSender, (friend 4, refl, refl), tt)

-- The friend's number is another one after the restart.
Known-later : Known plain_sodium (friend 6 ∷ []) (repeat 32 9) 6
unfolding friend_info_by_public_keybin
Known-later = (friend 6, refl, refl)

save_senders-ends_example :
    save_senders plain any_name no_disk (friend 4 ∷ []) (pathless ∷ sender ∷ []) one_hash
    ≡ save_senders plain any_name no_disk (friend 4 ∷ []) [] one_hash
save_senders-ends_example =
    save_senders-ends plain (friend 4 ∷ []) any_name no_disk [] (sender ∷ []) pathless one_hash
      (inl refl)

four-entry : entry_of (friend 2 ∷ friend 4 ∷ []) 4 ≡ some (friend 4)
unfolding friend_info_by_friend_number
four-entry = refl

song-IsReady : IsReady one_hash sender
unfolding load
song-IsReady = ((codes "song", refl), (some (repeat 32 7), refl))

-- One of the two friends comes online.
-- Where every path leads to a file.
abbrev song_disk : Disk
song_disk name = some (1 ∷ 2 ∷ [])

friend_connection_status_cb_lem_example :
    (friends' : List FriendInfo) × (r : Resumed recorder song_disk) × (friend_connection_status_cb
        recorder song_disk 1 2 4 1
        (friend 2 ∷ friend 4 ∷ [])
        []
        (sender ∷ [])
        one_hash
        []
      ≡ some (friends', r))
    × ((j : ℕ)
        → entry_of friends' j ≡ (
            if j == 4
            then some (record (friend 4) { connection_status = 1 })
            else entry_of (friend 2 ∷ friend 4 ∷ []) j))
    × (r.loaded ≡ [])
    × (map pathname_of r.sending ≡ some (codes "/m/song") ∷ [])
    × Resumes recorder song_disk 4 [] (sender ∷ []) one_hash [] r
friend_connection_status_cb_lem_example =
    friend_connection_status_cb_lem recorder song_disk 1 2 4 1 (friend 2 ∷ friend 4 ∷ []) (friend 4)
      [] (sender ∷ []) one_hash [] four-entry (song-IsReady, tt)

abbrev tree : BeNode
tree = be_dict (field (codes "length") (be_int (pos 4321)) no_field)

tree-HasTextKeys : HasTextKeys tree
unfolding HasTextKeys
tree-HasTextKeys = omega arith

six-entry : entry_of (friend 6 ∷ []) 6 ≡ some (friend 6)
unfolding friend_info_by_friend_number
six-entry = refl

senders_resume_example :
    (disk' : Disk) × (loaded : List FileSender) × (heap' : Heap) × (friends' : List FriendInfo)
    × (r : Resumed recorder song_disk) × (save_senders plain any_name no_disk
          (friend 4 ∷ [])
          (sender ∷ [])
          one_hash
        ≡ some (true, disk'))
    × (load_senders plain_sodium (friend 6 ∷ []) plain disk' [] [] ≡ some (true, loaded, heap'))
    × (friend_connection_status_cb recorder song_disk 1 2 6 2 (friend 6 ∷ []) [] loaded heap' []
        ≡ some (friends', r))
    × (map pathname_of r.sending ≡ some (codes "/m/song") ∷ [])
    × (r.loaded ≡ [])
    × Queued (Known plain_sodium (friend 6 ∷ [])) heap' loaded (kept ∷ [])
    × Resumes recorder song_disk 6 [] loaded heap' [] r
senders_resume_example =
    senders_resume plain plain-IsBencode plain_sodium recorder song_disk 1 2 any_name no_disk
      (friend 4 ∷ []) (sender ∷ []) kept [] one_hash sender-Queued refl (friend 6 ∷ []) 6 2
      (friend 6) [] (Known-later, tt) six-entry refl
