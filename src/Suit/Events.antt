-- ===== src/Suit/Events.antt =====
-- What the main program of src/suit.c becomes by the callbacks that callbacks_init sets, and by the
-- purge of a round.
use tox_suite.Base.{ℕ, Bool, true, Option, none, some, List, [], ◌∷◌}
use mathlib.Core.Option
use tox_suite.Base.Heap.{Heap}
use tox_suite.Tox.{Tox}
use tox_suite.Friend.{
  FriendInfo, friend_request_cb, friend_name_cb, friend_status_message_cb, friend_status_cb,
}
use tox_suite.Transfer.{FileSender}
use tox_suite.Transfer.Callbacks.{FileControl, Served, file_chunk_request_cb, file_recv_control_cb}
use tox_suite.Transfer.Receive.{Disk, FileKind, file_recv_cb, file_recv_chunk_cb}
use tox_suite.Tsfiles.Resume.{Resumed, friend_connection_status_cb}
use tox_suite.Commands.Replies.{Stdio, Services}
use tox_suite.Commands.Dialogue.{World, Progress, returned, exited, friend_message}
use tox_suite.Suit.{purge_friends}
use tox_suite.Suit.Startup.{Running}

-- What toxcore reports, and the clock of a purge. A message is what stands in memory, with its
-- length.
pub data Event : Type 0 where
  self_connected : ℕ → Event
  requested : List ℕ → Event
  texted : ℕ → List ℕ → ℕ → Event
  name_changed : ℕ → List ℕ → Event
  status_changed : ℕ → ℕ → Event
  status_message_changed : ℕ → List ℕ → Event
  connected : ℕ → ℕ → Event
  chunk_requested : ℕ → ℕ → ℕ → ℕ → Event
  controlled : ℕ → ℕ → FileControl → Event
  offered : ℕ → ℕ → FileKind → Event
  chunk_received : ℕ → ℕ → ℕ → List ℕ → Event
  purge_due : ℕ → Event

-- The codes of TOX_CONNECTION and TOX_FILE_CONTROL that the callbacks use, and which files fopen
-- can open for writing or create.
pub record Platform : Type 0 where
  pub tcp : ℕ
  pub udp : ℕ
  pub control_cancel : ℕ
  pub control_resume : ℕ
  pub writable : List ℕ → Bool

module _ (tox : Tox) (AV : Type 0) (limit : ℕ) (stdio : Stdio) (sys : Services tox.State AV)
    (seek_fails : ℕ → Bool) (platform : Platform) (fresh : FriendInfo) where
  -- The program, the static variable of friend_message, and the files that are received.
  pub record Program : Type 0 where
    pub si : Running tox.State AV
    pub xdcc : Bool
    pub disk : Disk

  -- The loop goes on, or the program has ended within a callback.
  pub data Outcome : Type 0 where
    alive : Program → Outcome
    ended : ℕ → Program → Outcome

  -- What friend_message reads of the program.
  abbrev pub services : Running tox.State AV → Services tox.State AV
  services si = record sys {
    fnode = si.shared;
    own_info = si.own_info;
    friends_info = si.friends_info;
  }

  abbrev pub world_of : (bot : Program) → World tox limit stdio AV (services bot.si)
  world_of bot = record {
    bot = record { queue = bot.si.sending; heap = bot.si.heap; tox = bot.si.tox };
    av = bot.si.toxav;
    on = bot.xdcc;
  }

  abbrev pub talked : (bot : Program) → World tox limit stdio AV (services bot.si) → Program
  talked bot w = record {
    si = record (bot.si) {
      tox = w.bot.tox;
      toxav = w.av;
      sending = w.bot.queue;
      heap = w.bot.heap;
    };
    xdcc = w.on;
    disk = bot.disk;
  }

  abbrev pub answered :
      (bot : Program) → Option (Progress tox limit stdio AV (services bot.si)) → Option Outcome
  answered bot none = none
  answered bot (some (returned w)) = some (alive (talked bot w))
  answered bot (some (exited code w)) = some (ended code (talked bot w))

  abbrev pub with_friends : Program → List FriendInfo → Outcome
  with_friends bot friends_info =
      alive (record bot { si = record (bot.si) { friends_info = friends_info } })

  abbrev pub with_resumed : Program → List FriendInfo × Resumed tox sys.fopen → Outcome
  with_resumed bot (friends_info, r) =
      with_friends
        (record bot {
          si = record (bot.si) {
            tox = r.tox;
            sending = r.sending;
            loaded = r.loaded;
            heap = r.heap;
          };
        })
        friends_info

  abbrev pub with_served : Program → Served tox seek_fails → Outcome
  with_served bot r =
      alive (record bot { si = record (bot.si) { tox = r.tox; sending = r.queue; heap = r.heap } })

  abbrev pub with_queue : Program → List FileSender × Heap → Outcome
  with_queue bot (sending, heap) =
      alive (record bot { si = record (bot.si) { sending = sending; heap = heap } })

  -- The change that an event makes.
  unfoldable pub step : Event → Program → Option Outcome
  step (self_connected code) bot = some (alive bot)
  step (requested public_key) bot =
      let (t, friends_info) =
        friend_request_cb tox fresh bot.si.tox public_key bot.si.friends_info in
      some (with_friends (record bot { si = record (bot.si) { tox = t } }) friends_info)
  step (texted friend_number memory size) bot =
      answered bot (
        friend_message tox limit stdio AV (services bot.si) friend_number memory size
          (world_of bot))
  step (name_changed friend_number text) bot =
      Option.map (with_friends bot) (friend_name_cb friend_number text bot.si.friends_info)
  step (status_changed friend_number code) bot =
      Option.map (with_friends bot) (friend_status_cb friend_number code bot.si.friends_info)
  step (status_message_changed friend_number text) bot =
      Option.map (with_friends bot)
        (friend_status_message_cb friend_number text bot.si.friends_info)
  step (connected friend_number code) bot = Option.map (with_resumed bot) (
      friend_connection_status_cb tox sys.fopen platform.tcp platform.udp friend_number code
        bot.si.friends_info bot.si.sending bot.si.loaded bot.si.heap bot.si.tox)
  step (chunk_requested friend_number file_number position len) bot = Option.map (with_served bot) (
      file_chunk_request_cb tox seek_fails bot.si.sending bot.si.heap bot.si.tox friend_number
        file_number position len)
  step (controlled friend_number file_number control) bot =
      Option.map (with_queue bot)
        (file_recv_control_cb bot.si.sending bot.si.heap friend_number file_number control)
  step (offered friend_number file_number kind) bot = some (
      alive (record bot {
        si = record (bot.si) {
          tox =
              file_recv_cb tox platform.control_cancel platform.control_resume bot.si.tox
                friend_number file_number kind;
        };
      }))
  step (chunk_received friend_number file_number position bytes) bot = some (
      alive (record bot {
        disk =
            file_recv_chunk_cb platform.writable seek_fails bot.disk friend_number file_number
              position bytes;
      }))
  step (purge_due now) bot =
      let (t, friends_info) = purge_friends tox bot.si.tox now bot.si.friends_info in
      some (
        with_friends (record bot { si = record (bot.si) { tox = t; should_save = true } })
          friends_info)

  -- The program goes on unless it has ended.
  abbrev pub next : (Program → Option Outcome) → Option Outcome → Option Outcome
  next rest none = none
  next rest (some (alive bot)) = rest bot
  next rest (some (ended code bot)) = some (ended code bot)

  -- One event after another, while the program runs.
  unfoldable pub run : List Event → Program → Option Outcome
  run [] bot = some (alive bot)
  run (e ∷ es) bot = next (run es) (step e bot)
