-- ===== src/Tests/Server.antt =====
-- Runs of the room server: a step of the push loop, acknowledgements, a stored post, and new settings.
use meshelle.Tests.Room.{lobby}
use meshelle.Prelude.{Bytes, In, Option, [], false, none, replicate, some, true, ℕ, ◌<◌, ◌∷◌, ◌≡◌}
use meshelle.Room.Session.{ClientSession, Timings}
use meshelle.Config.Model.{RoomSettings, read_write}
use meshelle.Room.Acl.{allow_unknown}
use meshelle.Tests.Proto.{secret, toy}
use meshelle.Tests.Store.{alice, board, bob}
use meshelle.Room.Server.{Moment, Server, is_pending, on_ack, push_once}
use meshelle.Room.Server.Upkeep.{apply_settings}
use meshelle.Tests.Mesh.{fresh_radio}
use meshelle.Room.Server.Acks
use meshelle.Room.Server.Upkeep.InFlight
use meshelle.Room.Server.Upkeep.Reload
use meshelle.Room.Server.Pushes
use meshelle.Room.Server.Places

abbrev timings : Timings
timings = record {
  server_response_delay = 300;
  txt_ack_delay = 200;
  reply_delay = 1500;
  push_notify_delay = 2000;
  sync_push_interval = 1200;
  push_ack_timeout_flood = 12000;
  push_timeout_base = 4000;
  push_ack_timeout_factor = 2000;
  post_sync_delay = 6;
  max_push_failures = 3;
}

abbrev pub session_of : Bytes → ℕ → Option Bytes → ClientSession
session_of key since pending = record {
  public_key = key;
  shared_secret = secret;
  role = read_write;
  source = allow_unknown;
  sync_since = since;
  last_timestamp = 5;
  out_path = [];
  out_path_len = 0xff;
  last_activity = 1;
  pending_ack = pending;
  push_post_ts = 20;
  push_is_welcome = false;
  ack_timeout = 9000;
  push_failures = 0;
  welcome = [];
}

-- Alice waits for an acknowledgement; it is Bob's turn.
abbrev pub served : Server
served = record {
  slug = b'L' ∷ [];
  version = b'1' ∷ [];
  room_id = 1;
  identity = record { public_key = replicate 32 0x77; private_key = replicate 64 9; seed = none };
  settings = lobby;
  timings = timings;
  sessions = session_of alice 10 (some (1 ∷ 2 ∷ 3 ∷ 4 ∷ [])) ∷ session_of bob 10 none ∷ [];
  round_robin = 1;
  next_push = 0;
  last_unique = 0;
  db = board;
  radio = fresh_radio;
  sent = [];
  scheduled = [];
}

abbrev pub moment : Moment
moment = record {
  now = 100;
  monotonic = 5000;
  attempt = 2;
  random = 1 ∷ 2 ∷ 3 ∷ 4 ∷ [];
  stamp = record { hour = 0; minute = 1; day = 1; month = 1; year = 1970 };
}

push_once-keeps_example :
    let after = (push_once toy moment served).1 in
    (Places.cursors after.sessions ≡ Places.cursors served.sessions)
    × (after.db.posts ≡ served.db.posts)
    × (after.db.clients ≡ served.db.clients)
    × ((t : ClientSession)
        → In t served.sessions
        → is_pending t ≡ true
        → moment.monotonic < t.ack_timeout
        → In t after.sessions)
push_once-keeps_example = Pushes.push_once-keeps toy moment served

on_ack-Answered_example :
    Acks.Answered (1 ∷ 2 ∷ 3 ∷ 4 ∷ []) served (on_ack (1 ∷ 2 ∷ 3 ∷ 4 ∷ []) served)
on_ack-Answered_example = Acks.on_ack-Answered (1 ∷ 2 ∷ 3 ∷ 4 ∷ []) served

store_post-keeps_example : InFlight.Stores 5000000000 0 bob (b'h' ∷ b'i' ∷ []) served
store_post-keeps_example =
    InFlight.store_post-keeps 5000000000 0 bob (b'h' ∷ b'i' ∷ []) served (λ e. cc)

abbrev reloaded : RoomSettings
reloaded = record lobby { members = record { pubkey = alice; role = read_write } ∷ [] }

apply_settings-Each_example :
    Reload.Each
      (Reload.Readmitted reloaded)
      served.sessions
      (apply_settings reloaded served).sessions
    × (apply_settings reloaded served ≡ record served {
      settings = reloaded;
      sessions = (apply_settings reloaded served).sessions;
    })
    × (apply_settings reloaded (apply_settings reloaded served) ≡ apply_settings reloaded served)
apply_settings-Each_example = Reload.apply_settings-Each reloaded served
