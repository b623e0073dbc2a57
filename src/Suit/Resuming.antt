-- ===== src/Suit/Resuming.antt =====
-- A whole end and start of the main program: what was saved is loaded.
use tox_suite.Base.{
  ℕ, ◌≡◌, refl, sym, ap, ◌∙◌, Bool, true, false, Option, none, some, List, [], ◌∷◌, if◌then◌else◌,
}
use mathlib.Core.Path.{subst}
use tox_suite.Base.Heap.{Heap}
use tox_suite.Base.Int.{ℤ, pos}
use tox_suite.Bencode.{Bencode, IsBencode}
use tox_suite.Sodium.{Sodium}
use tox_suite.Tox.{Tox}
use tox_suite.Transfer.{FileNode, FileSender, file_queue_init}
use tox_suite.Transfer.Receive.{Disk, store}
use tox_suite.Friend.{FriendInfo, friends_info_init}
use tox_suite.Misc.Client.{client_info_update}
use tox_suite.Tsfiles.{be_node_loadfile}
use tox_suite.Tsfiles.Shrlist.{load_shrlist, read_shrlist, Saved, Holds, load_shrlist-dump_shrlist}
use tox_suite.Tsfiles.Senders.{load_senders, senders_file}
use tox_suite.Tsfiles.Kept.{Kept, Keyed, Known, AllKnown, Queued, loaded_onto}
use tox_suite.Tsfiles.Restored.{load_senders-save_senders}
use tox_suite.Profile.{
  PassCrypt, load_profile, save_profile, exit_success, exit_failure, error_code,
}
use tox_suite.Profile.Saving.{load_plain}
use tox_suite.Call.Startup.{audio_load, calltest_init, greeter_filename}
use tox_suite.Suit.Startup.{
  going, Environment, Launch, Fresh, Running, data_filename, shrlist_filename, size_on, enter_home,
  get_client, set_user_config, bootstrap_dht, callbacks_init, startup,
}
use tox_suite.Suit.Shutdown.{Ended, shutdown, save_senders_others}
use tox_suite.Suit.Restarting.{saved_profile, shutdown_saves}

-- A load reads its own file only.
load_shrlist_same :
    (b : Bencode) (disk disk' : Disk) (fresh : FileNode) (name : List ℕ) (shr : List FileNode)
    (heap : Heap)
    → disk' name ≡ disk name
    → load_shrlist b disk' fresh name shr heap ≡ load_shrlist b disk fresh name shr heap
unfolding load_shrlist read_shrlist be_node_loadfile
load_shrlist_same b disk disk' fresh name shr heap same =
    ap (λ o. load_shrlist b (λ other. o) fresh name shr heap) same

load_senders_same :
    (sodium : Sodium) (friends_info : List FriendInfo) (b : Bencode) (disk disk' : Disk)
    (queue : List FileSender) (heap : Heap)
    → disk' senders_file ≡ disk senders_file
    → load_senders sodium friends_info b disk' queue heap
      ≡ load_senders sodium friends_info b disk queue heap
unfolding load_senders be_node_loadfile
load_senders_same sodium friends_info b disk disk' queue heap same =
    ap (λ o. load_senders sodium friends_info b (λ other. o) queue heap) same

module _ (crypt : PassCrypt) (sodium : Sodium) (b : Bencode) (tox : Tox) (AV : Type 0)
    (sys : Launch tox.State AV) (fresh : Fresh) (get_savedata : tox.State → List ℕ)
    (writable : List ℕ → Bool) where
  saved_profile_lem :
      (salt : List ℕ) (disk : Disk) (t0 : tox.State)
      → writable data_filename ≡ true
      → saved_profile crypt b tox AV sys.av_callback get_savedata writable salt none disk t0
        ≡ store disk data_filename (get_savedata t0)
  unfolding save_profile
  saved_profile_lem salt disk t0 w =
      ap
        (λ ok.
          let written : ℤ × Disk =
            if ok
            then (pos 0, store disk data_filename (get_savedata t0))
            else (error_code, disk) in
          written.1)
        w

  -- A profile on the disk is the client of the start.
  get_client-store :
      (disk : Disk) (bytes : List ℕ) (t : tox.State) (passphrase : Option (List ℕ))
      → sys.permitted data_filename ≡ true
      → crypt.is_encrypted bytes ≡ false
      → sys.new bytes ≡ (some t, true)
      → get_client crypt sodium b tox AV sys fresh passphrase (store disk data_filename bytes)
        ≡ going (t, false)
  unfolding get_client
  get_client-store disk bytes t passphrase p plain made = rw (p, get_client) (rw loaded refl)
    where
      loaded :
          load_profile crypt tox sys.new
            (store disk data_filename bytes)
            (size_on (store disk data_filename bytes))
            none
            fresh.profile
            data_filename
            passphrase
          ≡ (exit_success, some t)
      loaded =
          load_plain crypt tox sys.new get_savedata writable (store disk data_filename bytes)
            (size_on (store disk data_filename bytes)) none fresh.profile data_filename bytes
            passphrase refl refl plain
          ∙ ap
              (λ (r : Option tox.State × Bool). ((if r.1 then exit_success else exit_failure), r.0))
              made

  startup_lem :
      (env : Environment) (disk : Disk) (t t2 : tox.State) (toxav : AV) (shr : Bool × Heap)
      (ok : Bool) (loaded : List FileSender) (heap : Heap)
      → enter_home sys env.home ≡ going tt
      → get_client crypt sodium b tox AV sys fresh env.passphrase disk ≡ going (t, false)
      → callbacks_init sys (bootstrap_dht sodium sys (set_user_config sys env t)) ≡ (some toxav, t2)
      → load_shrlist b disk fresh.node shrlist_filename [] [] ≡ some shr
      → load_senders sodium (friends_info_init sodium tox fresh.friend t2 []) b disk [] shr.1
        ≡ some (ok, loaded, heap)
      → (si : Running tox.State AV) × (startup crypt sodium b tox AV sys fresh env disk ≡ going si)
        × (si.tox ≡ t2)
        × (si.friends_info ≡ friends_info_init sodium tox fresh.friend t2 [])
        × (si.loaded ≡ loaded)
        × (si.heap ≡ heap)
        × (si.should_save ≡ false)
  unfolding startup file_queue_init
  startup_lem env disk t t2 toxav shr ok loaded heap home client made files senders =
      let t1 = bootstrap_dht sodium sys (set_user_config sys env t) in
      let greeting = audio_load fresh.recording fresh.pcm sys.sf_open greeter_filename in
      let tested = calltest_init sys.av_callback greeting toxav in
      (
        record {
          tox = t2;
          toxav = tested.2;
          should_save = false;
          own_info = client_info_update sodium sys.self t1;
          friends_info = friends_info_init sodium tox fresh.friend t2 [];
          calltesters = tested.0;
          greeter = tested.1;
          shared = [];
          file_recheck = true;
          sending = [];
          loaded = loaded;
          heap = heap;
        },
        rw (home, startup) (rw client (rw made (rw files (rw senders refl)))),
        refl,
        refl,
        refl,
        refl,
        refl,
      )

  -- The program takes up its work after a restart. Let bencode work as IsBencode says, let the
  -- running program hold at least one shared file, each named, hashed and of a length below 2^64,
  -- and at least one transfer, each with a path, such a file and a known friend with a key of 32
  -- bytes, and let the three files be writable, the profile readable again and not encrypted, with
  -- no passphrase set. Then the end of the program completes its saves; and a start on the files
  -- that it leaves, in a home that can be entered, where tox_new takes the saved data for a client,
  -- toxav_new succeeds and the friends of the client know the keys of the transfers, comes to the
  -- loop with this client, its friends and one loaded transfer for each saved one, in the opposite
  -- order, and without the wish to save.
  pub restart_resumes :
      (env : Environment) (disk : Disk) (salt : List ℕ) (si : Running tox.State AV) (file : Saved)
      (files : List Saved) (k : Kept) (ks : List Kept) (t t2 : tox.State) (toxav : AV)
      → IsBencode b
      → Holds si.heap si.shared (file ∷ files)
      → Queued (Keyed si.friends_info) si.heap si.sending (k ∷ ks)
      → writable shrlist_filename ≡ true
      → writable senders_file ≡ true
      → writable data_filename ≡ true
      → sys.permitted data_filename ≡ true
      → crypt.is_encrypted (get_savedata si.tox) ≡ false
      → enter_home sys env.home ≡ going tt
      → sys.new (get_savedata si.tox) ≡ (some t, true)
      → callbacks_init sys (bootstrap_dht sodium sys (set_user_config sys env t)) ≡ (some toxav, t2)
      → AllKnown sodium (friends_info_init sodium tox fresh.friend t2 []) (k ∷ ks)
      → (e : Ended AV) × (si' : Running tox.State AV) × (shutdown crypt b tox AV sys.av_callback
            get_savedata writable salt none si disk
          ≡ some e)
        × (startup crypt sodium b tox AV sys fresh env e.disk ≡ going si')
        × (si'.tox ≡ t2)
        × (si'.friends_info ≡ friends_info_init sodium tox fresh.friend t2 [])
        × Queued
            (Known sodium (friends_info_init sodium tox fresh.friend t2 []))
            si'.heap
            si'.loaded
            (loaded_onto (k ∷ ks) [])
        × (si'.should_save ≡ false)
  restart_resumes env disk salt si file files k ks t t2 toxav l holds queued shr_ok send_ok data_ok
        permitted plain home new made known =
      let friends = friends_info_init sodium tox fresh.friend t2 [] in
      let (disk1, shr, dumped, held_local, files_back, held) =
        load_shrlist-dump_shrlist b l writable disk shrlist_filename si.shared file files si.heap
          holds shr_ok fresh.node [] [] [] tt in
      let (disk2, r, saved, senders_back, back) =
        load_senders-save_senders b l si.friends_info writable disk1 si.sending k ks si.heap queued
          send_ok sodium friends known shr.heap [] [] tt in
      let disk3 = store disk2 data_filename (get_savedata si.tox) in
      let (e, ended, left) =
        shutdown_saves crypt b tox AV sys.av_callback get_savedata writable salt none si disk disk1
          disk2 true dumped saved in
      let on_disk : e.disk ≡ disk3 = left ∙ saved_profile_lem salt disk2 si.tox data_ok in
      let same_files : disk3 shrlist_filename ≡ disk1 shrlist_filename =
        save_senders_others crypt b tox AV sys.av_callback get_savedata writable disk1 disk2
          si.friends_info si.sending si.heap true shrlist_filename refl saved in
      let (si', started, client, friends_now, loaded_now, heap_now, clean) =
        startup_lem env disk3 t t2 toxav (true, shr.heap) true r.0 r.1 home
          (get_client-store disk2 (get_savedata si.tox) t env.passphrase permitted plain new) made
          (load_shrlist_same b disk1 disk3 fresh.node shrlist_filename [] [] same_files
            ∙ files_back)
          (load_senders_same sodium friends b disk2 disk3 [] shr.heap refl ∙ senders_back) in
      (
        e,
        si',
        ended,
        ap (λ d. startup crypt sodium b tox AV sys fresh env d) on_disk ∙ started,
        client,
        friends_now,
        subst (λ h. Queued (Known sodium friends) h si'.loaded (loaded_onto (k ∷ ks) []))
            (sym heap_now)
            (subst (λ q. Queued (Known sodium friends) r.1 q (loaded_onto (k ∷ ks) []))
              (sym loaded_now) back),
        clean,
      )
