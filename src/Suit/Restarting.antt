-- ===== src/Suit/Restarting.antt =====
-- What the files hold after the end of the main program, and what its next start makes of them.
use tox_suite.Base.{
  ℕ, ◌≡◌, refl, sym, ap, ◌∙◌, Bool, true, false, Option, none, some, List, [], arith, if◌then◌else◌,
  eq_bytes,
}
use tox_suite.Base.Heap.{Heap}
use tox_suite.Base.Results.{◌>>=◌}
use tox_suite.Bencode.{Bencode, be_list, no_item, IsBencode, wire}
use tox_suite.Sodium.{Sodium}
use tox_suite.Tox.{Tox}
use tox_suite.Transfer.{FileNode, FileSender, file_queue_init, file_queue_destroy}
use tox_suite.Transfer.Receive.{Disk}
use tox_suite.Friend.{FriendInfo}
use tox_suite.Tsfiles.{encoded}
use tox_suite.Tsfiles.Length.{be_node_len-wire, HasTextKeys}
use tox_suite.Tsfiles.Shrlist.{dump_shrlist}
use tox_suite.Tsfiles.Senders.{save_senders, senders_file}
use tox_suite.Profile.{PassCrypt, save_profile}
use tox_suite.Call.Startup.{Register, calltest_destroy}
use tox_suite.Suit.Startup.{
  Run, going, leaves, faults, Environment, Launch, Fresh, Running, data_filename, shrlist_filename,
  startup,
}
use tox_suite.Suit.Shutdown.{Ended, shutdown, save_profile_others}

-- What a start has queued and shared.
abbrev holdings : {S AV : Type 0} → Run (Running S AV) → List FileSender × List FileNode
holdings (going r) = (r.sending, r.shared)
holdings (leaves code) = ([], [])
holdings faults = ([], [])

module _ (crypt : PassCrypt) (sodium : Sodium) (b : Bencode) (tox : Tox) (AV : Type 0)
    (sys : Launch tox.State AV) (fresh : Fresh) where
  holdings-startup :
      (env : Environment) (disk : Disk)
      → holdings (startup crypt sodium b tox AV sys fresh env disk) ≡ ([], [])
  unfolding startup file_queue_init
  holdings-startup env disk = ground arith

abbrev pub removed : Disk → Disk
removed disk name = if eq_bytes name senders_file then none else disk name

module _ (crypt : PassCrypt) (b : Bencode) (tox : Tox) (AV : Type 0) (av_callback : Register AV)
    (get_savedata : tox.State → List ℕ) (writable : List ℕ → Bool) where
  abbrev pub saved_profile : List ℕ → Option (List ℕ) → Disk → tox.State → Disk
  saved_profile salt passphrase disk t =
      (save_profile crypt tox get_savedata writable salt disk t data_filename passphrase).1

  -- The two lists are saved before the profile.
  pub shutdown_saves :
      (salt : List ℕ) (passphrase : Option (List ℕ)) (si : Running tox.State AV)
      (disk disk1 disk2 : Disk) (ok : Bool)
      → dump_shrlist b writable disk shrlist_filename si.shared si.heap ≡ some disk1
      → save_senders b writable disk1 si.friends_info si.sending si.heap ≡ some (ok, disk2)
      → (e : Ended AV) × (shutdown crypt b tox AV av_callback get_savedata writable salt passphrase
            si disk
          ≡ some e)
        × (e.disk ≡ saved_profile salt passphrase disk2 si.tox)
  unfolding shutdown
  shutdown_saves salt passphrase si disk disk1 disk2 ok dumped saved =
      let left = calltest_destroy av_callback si.calltesters si.toxav in
      (
        record {
          disk = saved_profile salt passphrase disk2 si.tox;
          calltesters = left.0;
          toxav = left.1;
          freed = file_queue_destroy si.sending si.heap >>= file_queue_destroy si.loaded;
        },
        rw (dumped, shutdown) (rw saved refl),
        refl,
      )

  empty-dump_shrlist :
      IsBencode b
      → (disk : Disk) (heap : Heap)
      → dump_shrlist b writable disk shrlist_filename [] heap ≡ some disk
  unfolding dump_shrlist wire HasTextKeys
  empty-dump_shrlist l disk heap =
      rw (ap (encoded b) l.creates_list, (be_node_len-wire b l (be_list no_item) tt).1) refl

  empty-save_senders :
      IsBencode b
      → (disk : Disk) (friends_info : List FriendInfo) (heap : Heap)
      → save_senders b writable disk friends_info [] heap ≡ some (true, removed disk)
  unfolding save_senders wire HasTextKeys
  empty-save_senders l disk friends_info heap =
      rw (ap (encoded b) l.creates_list, (be_node_len-wire b l (be_list no_item) tt).1) refl

-- Transfers that wait for their friends do not survive a second restart: where bencode works as
-- described, and the program ends in the state that its start left, no friend having come online,
-- the end completes its saves, savesender.dat is gone, whatever transfers the start loaded from it,
-- and savfileshr.dat is as it was.
pub restart_loses_transfers :
    (crypt : PassCrypt) (sodium : Sodium) (b : Bencode) (tox : Tox) (AV : Type 0)
    (sys : Launch tox.State AV) (fresh : Fresh) (get_savedata : tox.State → List ℕ)
    (writable : List ℕ → Bool) (env : Environment) (disk : Disk) (salt : List ℕ)
    (si : Running tox.State AV)
    → IsBencode b
    → startup crypt sodium b tox AV sys fresh env disk ≡ going si
    → (e : Ended AV) × (shutdown crypt b tox AV sys.av_callback get_savedata writable salt
          env.passphrase si disk
        ≡ some e)
      × (e.disk senders_file ≡ none)
      × (e.disk shrlist_filename ≡ disk shrlist_filename)
restart_loses_transfers crypt sodium b tox AV sys fresh get_savedata writable env disk salt si l
      started =
    let idle : (si.sending, si.shared) ≡ ([], []) =
      ap holdings (sym started) ∙ holdings-startup crypt sodium b tox AV sys fresh env disk in
    let dumped : dump_shrlist b writable disk shrlist_filename si.shared si.heap ≡ some disk =
      ap
        (λ (h : List FileSender × List FileNode).
          dump_shrlist b writable disk shrlist_filename h.1 si.heap)
        idle
      ∙ empty-dump_shrlist crypt b tox AV sys.av_callback get_savedata writable l disk si.heap in
    let saved : save_senders b writable disk si.friends_info si.sending si.heap
        ≡ some (true, removed disk) =
      ap
        (λ (h : List FileSender × List FileNode).
          save_senders b writable disk si.friends_info h.0 si.heap)
        idle
      ∙ empty-save_senders crypt b tox AV sys.av_callback get_savedata writable l disk
          si.friends_info si.heap in
    let (e, ended, left) =
      shutdown_saves crypt b tox AV sys.av_callback get_savedata writable salt env.passphrase si
        disk disk (removed disk) true dumped saved in
    let kept : (name : List ℕ)
        → eq_bytes name data_filename ≡ false
        → e.disk name ≡ removed disk name =
      λ name other.
        ap (λ (d : Disk). d name) left
        ∙ save_profile_others crypt b tox AV sys.av_callback get_savedata writable salt
            (removed disk) si.tox env.passphrase name other in
    (e, ended, kept senders_file refl, kept shrlist_filename refl)
