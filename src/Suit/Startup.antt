-- ===== src/Suit/Startup.antt =====
-- The start of the main program in src/suit.c, up to the polling loop.
use tox_suite.Base.{
  ℕ, Bool, true, false, not, Option, none, some, List, [], ◌∷◌, ltb, ◌==◌, if◌then◌else◌, length,
  take,
}
use Prim.Native.String.{String}
use mathlib.Core.Option
use tox_suite.Base.Heap.{Heap}
use tox_suite.Base.Int.{ℤ, pos, negsuc}
use tox_suite.Base.Texts.{codes}
use tox_suite.Bencode.{Bencode}
use tox_suite.Sodium.{Sodium}
use tox_suite.Tox.{Tox}
use tox_suite.Friend.{FriendInfo, friends_info_init}
use tox_suite.Misc.Client.{ToxSelf, ClientInfo, client_info_update}
use tox_suite.Transfer.{FileNode, FileSender, file_queue_init}
use tox_suite.Transfer.Receive.{Disk}
use tox_suite.Tsfiles.Shrlist.{load_shrlist}
use tox_suite.Tsfiles.Senders.{load_senders}
use tox_suite.Profile.{PassCrypt, load_profile}
use tox_suite.Call.{CallTester, Recording}
use tox_suite.Call.Startup.{Register, SoundFile, greeter_filename, audio_load, calltest_init}

-- main goes on, leaves with an exit code, or meets a fault.
pub data Run {ℓ} (A : Type ℓ) : Type ℓ where
  going : A → Run A
  leaves : ℕ → Run A
  faults : Run A

infixl 5 ◌>>=◌
abbrev pub ◌>>=◌ {ℓ κ} : {A : Type ℓ} {B : Type κ} → Run A → (A → Run B) → Run B
going a >>= f = f a
leaves code >>= f = leaves code
faults >>= f = faults

abbrev pub or_fault {ℓ} : {A : Type ℓ} → Option A → Run A
or_fault none = faults
or_fault (some a) = going a

-- getenv: NULL is `none`.
pub record Environment : Type 0 where
  pub passphrase : Option (List ℕ)
  pub name : Option (List ℕ)
  pub status_msg : Option (List ℕ)
  pub home : Option (List ℕ)

abbrev pub data_filename : List ℕ
data_filename = codes "data.tox"

abbrev pub shrlist_filename : List ℕ
shrlist_filename = codes "savfileshr.dat"

pub record ToxNode : Type 0 where
  pub ip : Option (List ℕ)
  pub port : ℕ
  pub key : List ℕ

abbrev node : String → String → ToxNode
node ip key = record { ip = some (codes ip); port = 33445; key = codes key }

unfoldable pub nodes : List ToxNode
nodes =
    node "127.0.0.1" "728925473812C7AAC482BE7250BCCAD0B8CB9F737BF3D42ABD34459C1768F854"
    ∷ node "144.76.60.215" "04119E835DF3E78BACF0F84235B300546AF8B936F035185E2A8E9E0A67C8924F"
    ∷ node "192.210.149.121" "F404ABAA1C99A9D37D61AB54898F56793E1DEF8BD46B1038B9D822E8460FAB67"
    ∷ node "195.154.119.113" "E398A69646B8CEACA9F0B84F553726C1C49270558C57DF5F3C368F05A7D71354"
    ∷ node "46.38.239.179" "F5A1A38EFB6BD3C2C8AF8B10D85F0F89E931704D349F1D0720C3C4059AF2440A"
    ∷ node "76.191.23.96" "93574A3FAB7D612FEA29FD8D67D3DD10DFD07A075A5D62E8AF3DD9F5D0932E11"
    ∷ record { ip = none; port = 0; key = [] }
    ∷ []

-- The callbacks of toxcore that callbacks_init sets.
pub data ToxEvent : Type 0 where
  on_connection_status on_friend_message on_friend_request on_friend_name : ToxEvent
  on_friend_status on_friend_connection_status on_friend_status_message : ToxEvent
  on_chunk_request on_recv_control on_recv_chunk on_recv : ToxEvent

-- The calls of toxcore and the system that only the start makes. `new` is tox_new of saved data,
-- `new_blank` without; `limit` names the constants of toxcore.
pub record Launch (S AV : Type 0) : Type 0 where
  pub opens_dir : List ℕ → Bool
  pub fchdir : Bool
  pub permitted : List ℕ → Bool
  pub new : List ℕ → Option S × Bool
  pub new_blank : Option S × Bool
  pub self : ToxSelf S
  pub set_name : S → List ℕ → S
  pub set_status_message : S → List ℕ → S
  pub max_name_length : ℕ
  pub max_status_message_length : ℕ
  pub bootstrap : S → List ℕ → ℕ → List ℕ → S
  pub callback : S → ToxEvent → S
  pub toxav_new : S → Option AV × S
  pub av_callback : Register AV
  pub sf_open : List ℕ → Option SoundFile

-- open and fchdir; open of NULL fails.
unfoldable pub enter_home : {S AV : Type 0} → Launch S AV → Option (List ℕ) → Run (Unit {0})
enter_home sys none = leaves 1
enter_home sys (some home) =
    if not (sys.opens_dir home) then leaves 1 else if not sys.fchdir then leaves 1 else going tt

-- The value for toxcore, cut to the limit.
unfoldable pub cut_to : ℕ → List ℕ → List ℕ
cut_to limit s = if ltb limit (length s) then take limit s else s

unfoldable pub set_own_name : {S AV : Type 0} → Launch S AV → Option (List ℕ) → S → S
unfolding cut_to
set_own_name sys none t = t
set_own_name sys (some name) t = sys.set_name t (cut_to sys.max_name_length name)

unfoldable pub set_own_status : {S AV : Type 0} → Launch S AV → Option (List ℕ) → S → S
unfolding cut_to
set_own_status sys none t = t
set_own_status sys (some status) t =
    sys.set_status_message t (cut_to sys.max_status_message_length status)

unfoldable pub set_user_config : {S AV : Type 0} → Launch S AV → Environment → S → S
unfolding set_own_name set_own_status
set_user_config sys env t = set_own_status sys env.status_msg (set_own_name sys env.name t)

module _ (sodium : Sodium) where
  -- The loop ends at a node without an address.
  unfoldable pub bootstrap_from : {S AV : Type 0} → Launch S AV → List ToxNode → S → S
  bootstrap_from sys [] t = t
  bootstrap_from sys (n ∷ ns) t = elim (n.ip) [
    | none ↦ t
    | some ip ↦ bootstrap_from sys ns (sys.bootstrap t ip n.port (sodium.hex2bin n.key))
  ]

  unfoldable pub bootstrap_dht : {S AV : Type 0} → Launch S AV → S → S
  unfolding bootstrap_from nodes
  bootstrap_dht sys t = bootstrap_from sys nodes t

unfoldable pub callbacks_init : {S AV : Type 0} → Launch S AV → S → Option AV × S
callbacks_init sys t =
    let set = sys.callback in
    sys.toxav_new (
      set
        (set
          (set
            (set
              (set
                (set
                  (set
                    (set
                      (set (set (set t on_connection_status) on_friend_message) on_friend_request)
                      on_friend_name)
                    on_friend_status)
                  on_friend_connection_status)
                on_friend_status_message)
              on_chunk_request)
            on_recv_control)
          on_recv_chunk)
        on_recv)

-- What malloc returned for what the start allocates.
pub record Fresh : Type 0 where
  pub node : FileNode
  pub friend : FriendInfo
  pub recording : Recording
  pub pcm : List ℕ
  pub profile : List ℕ

-- What the program holds in its loop.
pub record Running (S AV : Type 0) : Type 0 where
  pub tox : S
  pub toxav : AV
  pub should_save : Bool
  pub own_info : ClientInfo
  pub friends_info : List FriendInfo
  pub calltesters : List CallTester
  pub greeter : Option Recording
  pub shared : List FileNode
  pub file_recheck : Bool
  pub sending : List FileSender
  pub loaded : List FileSender
  pub heap : Heap

abbrev pub is_success : ℤ → Bool
is_success (pos n) = n == 0
is_success (negsuc n) = false

-- A client of toxcore must not be NULL from here on.
abbrev pub client_of : {S : Type 0} → Option S → Bool → Run (S × Bool)
client_of none created = faults
client_of (some t) created = going (t, created)

-- The size that stat tells of a file.
abbrev pub size_on : Disk → List ℕ → Option ℕ
size_on disk filename = Option.map length (disk filename)

abbrev pub accessible : (List ℕ → Bool) → Disk → List ℕ → Bool
accessible permitted disk filename = elim (disk filename) [
  | none ↦ false
  | some bytes ↦ permitted filename
]

module _ (crypt : PassCrypt) (sodium : Sodium) (b : Bencode) (tox : Tox) (AV : Type 0)
    (sys : Launch tox.State AV) (fresh : Fresh) where
  -- A profile that is there is loaded; else a new client is made, to be saved. si->tox is NULL
  -- before.
  unfoldable pub get_client : Option (List ℕ) → Disk → Run (tox.State × Bool)
  get_client passphrase disk =
      if accessible sys.permitted disk data_filename
      then (let (code, t) =
            load_profile crypt tox sys.new disk (size_on disk) none fresh.profile data_filename
              passphrase in
          if is_success code then client_of t false else leaves 1)
      else if sys.new_blank.1
      then client_of sys.new_blank.0 true
      else leaves 1

  -- A NULL toxav is a fault in calltest_init. load_shrlist reads into a list of its own.
  unfoldable pub startup : Environment → Disk → Run (Running tox.State AV)
  startup env disk = do
    _ ← enter_home sys env.home
    (t, created) ← get_client env.passphrase disk
    let t1 = bootstrap_dht sodium sys (set_user_config sys env t)
    let own_info = client_info_update sodium sys.self t1
    let (made, t2) = callbacks_init sys t1
    toxav ← or_fault made
    let greeting = audio_load fresh.recording fresh.pcm sys.sf_open greeter_filename
    let (calltesters, greeter, toxav') = calltest_init sys.av_callback greeting toxav
    let friends_info = friends_info_init sodium tox fresh.friend t2 []
    (files_ok, shr_heap) ← or_fault (load_shrlist b disk fresh.node shrlist_filename [] [])
    (ok, loaded, heap) ← or_fault (load_senders sodium friends_info b disk file_queue_init shr_heap)
    going (record {
      tox = t2;
      toxav = toxav';
      should_save = created;
      own_info = own_info;
      friends_info = friends_info;
      calltesters = calltesters;
      greeter = greeter;
      shared = [];
      file_recheck = true;
      sending = file_queue_init;
      loaded = loaded;
      heap = heap;
    })
