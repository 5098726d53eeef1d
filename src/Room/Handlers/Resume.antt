-- ===== src/Room/Handlers/Resume.antt =====
-- `start` of room/server.py.
use meshelle.Prelude.{Bytes, List, Option, [], false, none, some, ◌∷◌}
use meshelle.Proto.Crypto.{Primitives}
use meshelle.Config.Model.{Role, RoomSettings, role_for_member}
use meshelle.Store.Model.{Client}
use meshelle.Store.Clients.{list_clients}
use meshelle.Room.Acl.{RoleSource, allow_unknown, member, resolve_without_password}
use meshelle.Room.Session.{ClientSession}
use meshelle.Room.Server.{Moment}
use meshelle.Room.Server.Upkeep.{prune_room_clients}
use meshelle.Room.Exec.{Exec, caught, modify, put_session, return, state, ◌>>=◌, ◌>>◌}
use meshelle.Proto.Identity

abbrev pub source_of : Option Role → RoleSource
source_of none = allow_unknown
source_of (some r) = member

-- A known client's session after a restart.
abbrev pub resumed : RoomSettings → Client → Bytes → ClientSession
resumed settings client secret = record {
  public_key = client.public_key;
  shared_secret = secret;
  role = resolve_without_password settings client.public_key;
  source = source_of (role_for_member settings client.public_key);
  sync_since = client.sync_since;
  last_timestamp = client.last_timestamp;
  out_path = client.out_path;
  out_path_len = client.out_path_len;
  last_activity = client.last_activity;
  pending_ack = none;
  push_post_ts = 0;
  push_is_welcome = false;
  ack_timeout = 0;
  push_failures = 0;
  welcome = [];
}

module _ (c : Primitives) where
  -- The loop over the clients: one whose key gives no secret is skipped.
  unfoldable pub resume : List Client → Exec (Unit {0})
  unfolding put_session
  resume [] = return tt
  resume (client ∷ clients) = do
    sv ← state
    caught (Identity.shared_secret c sv.identity client.public_key) (resume clients) (λ secret. (do
      modify (λ t. record t {
        sessions = put_session client.public_key (resumed t.settings client secret) t.sessions;
      })
      resume clients))

  unfoldable pub start : Moment → Exec (Unit {0})
  unfolding resume
  start m = do
    sv ← state
    let (forgotten, db) = prune_room_clients m.now sv sv.db
    modify (λ t. record t { db = db })
    resume (list_clients db sv.room_id)
