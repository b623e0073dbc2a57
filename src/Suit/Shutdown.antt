-- ===== src/Suit/Shutdown.antt =====
-- The end of the main program in src/suit.c, behind the polling loop.
use tox_suite.Base.{
  ℕ, ◌≡◌, sym, ap, ◌∙◌, Bool, true, false, Option, none, some, List, arith, ltb, if◌then◌else◌,
  length, eq_bytes,
}
use tox_suite.Base.Heap.{Heap}
use tox_suite.Base.Results.{◌>>=◌, >>=-eq-some}
use tox_suite.Bencode.{Bencode, BeNode}
use tox_suite.Tsfiles.{encoded}
use tox_suite.Tox.{Tox}
use tox_suite.Transfer.{file_queue_destroy}
use tox_suite.Transfer.Receive.{Disk, store}
use tox_suite.Friend.{FriendInfo}
use tox_suite.Transfer.{FileSender}
use tox_suite.Tsfiles.Shrlist.{dump_shrlist}
use tox_suite.Tsfiles.Senders.{save_senders, collect_senders, senders_file}
use tox_suite.Profile.{PassCrypt, save_profile}
use tox_suite.Call.{CallTester}
use tox_suite.Call.Startup.{Register, calltest_destroy}
use tox_suite.Suit.Startup.{Running, data_filename, shrlist_filename}

-- What is left: the files, the testers and toxav, and the heap unless freeing the queues was a
-- fault.
pub record Ended (AV : Type 0) : Type 0 where
  pub disk : Disk
  pub calltesters : List CallTester
  pub toxav : AV
  pub freed : Option Heap

module _ (crypt : PassCrypt) (b : Bencode) (tox : Tox) (AV : Type 0) (av_callback : Register AV)
    (get_savedata : tox.State → List ℕ) (writable : List ℕ → Bool) where
  unfoldable pub shutdown :
      List ℕ → Option (List ℕ) → Running tox.State AV → Disk → Option (Ended AV)
  shutdown salt passphrase si disk = do
    disk1 ← dump_shrlist b writable disk shrlist_filename si.shared si.heap
    (saved, disk2) ← save_senders b writable disk1 si.friends_info si.sending si.heap
    let (code, disk3) =
        save_profile crypt tox get_savedata writable salt disk2 si.tox data_filename passphrase
    let (calltesters, toxav) = calltest_destroy av_callback si.calltesters si.toxav
    some (record {
      disk = disk3;
      calltesters = calltesters;
      toxav = toxav;
      freed = file_queue_destroy si.sending si.heap >>= file_queue_destroy si.loaded;
    })

  -- Each save writes its own file.
  pub save_profile_others :
      (salt : List ℕ) (disk : Disk) (t : tox.State) (passphrase : Option (List ℕ)) (name : List ℕ)
      → eq_bytes name data_filename ≡ false
      → (save_profile crypt tox get_savedata writable salt disk t data_filename passphrase).1 name
        ≡ disk name
  unfolding save_profile
  save_profile_others salt disk t none name other = ground arith
  save_profile_others salt disk t (some pass) name other = ground arith

  abbrev disk_after : Option (Bool × Disk) → Disk
  disk_after none name = none
  disk_after (some r) name = r.1 name

  -- save_senders behind its loop.
  abbrev after_collect : Disk → BeNode → Option (Bool × Disk)
  after_collect disk root = some (
      if ltb 2 (length (encoded b root))
      then (if writable senders_file
          then (true, store disk senders_file (encoded b root))
          else (false, disk))
      else (true, λ name. if eq_bytes name senders_file then none else disk name))

  after_collect_others :
      (disk disk' : Disk) (root : BeNode) (ok : Bool) (name : List ℕ)
      → eq_bytes name senders_file ≡ false
      → after_collect disk root ≡ some (ok, disk')
      → disk' name ≡ disk name
  after_collect_others disk disk' root ok name other written =
      ap (λ (o : Option (Bool × Disk)). disk_after o name) (sym written) ∙ ground (arith, other)

  pub save_senders_others :
      (disk disk' : Disk) (friends_info : List FriendInfo) (queue : List FileSender) (heap : Heap)
      (ok : Bool) (name : List ℕ)
      → eq_bytes name senders_file ≡ false
      → save_senders b writable disk friends_info queue heap ≡ some (ok, disk')
      → disk' name ≡ disk name
  unfolding save_senders
  save_senders_others disk disk' friends_info queue heap ok name other saved =
      let (root, collected, written) =
        >>=-eq-some (collect_senders b b.create_list friends_info queue heap) (after_collect disk)
          saved in
      after_collect_others disk disk' root ok name other written
