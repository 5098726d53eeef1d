-- ===== src/Room/Handlers/Logins.antt =====
-- `_on_anon_request` and `_login` of room/server.py.
use meshelle.Prelude.{
  Bool, Bytes, List, Option, [], false, find, if◌then◌else◌, leb, length, none, not, some, true, ℕ,
  ◌&&◌, ◌==◌, ◌=b=◌,
}
use meshelle.Proto.Constants.{is_flood, out_path_unknown}
use meshelle.Proto.Crypto.{Primitives}
use meshelle.Proto.Packet.{Packet}
use meshelle.Proto.LoginRequest.{LoginRequest}
use meshelle.Config.Model.{permission}
use meshelle.Store.Clients.{record_login}
use meshelle.Room.Acl.{Grant, resolve}
use meshelle.Room.Session.{ClientSession, forget_path}
use meshelle.Room.Posts.{split_welcome}
use meshelle.Room.Server.{Moment, node_hash}
use meshelle.Room.Server.Upkeep.{pause_pushes}
use meshelle.Room.Server.Responses.{login_response, open_anon}
use meshelle.Room.Exec.{
  Exec, caught, change, lift, modify, next_unique, put_session, return, state, ◌>>=◌, ◌>>◌,
}
use meshelle.Room.Handlers.Sending.{send_response}
use meshelle.Proto.AnonRequest
use meshelle.Proto.LoginRequest

-- The fields that the constructor call gives, and the defaults of the others.
abbrev pub new_session : Bytes → Bytes → Grant → ClientSession
new_session public_key secret grant = record {
  public_key = public_key;
  shared_secret = secret;
  role = grant.role;
  source = grant.source;
  sync_since = 0;
  last_timestamp = 0;
  out_path = [];
  out_path_len = out_path_unknown;
  last_activity = 0;
  pending_ack = none;
  push_post_ts = 0;
  push_is_welcome = false;
  ack_timeout = 0;
  push_failures = 0;
  welcome = [];
}

-- `existing or ClientSession(...)`
abbrev pub session_or : Option ClientSession → ClientSession → ClientSession
session_or none fresh = fresh
session_or (some existing) fresh = existing

abbrev pub is_replay : ℕ → Option ClientSession → Bool
is_replay timestamp none = false
is_replay timestamp (some existing) = leb timestamp existing.last_timestamp

-- What a login writes into the session object, before it is known how it arrived.
abbrev pub entered : Grant → Bytes → ℕ → ℕ → ℕ → ClientSession → ClientSession
entered grant secret sync_since timestamp now s = record s {
  role = grant.role;
  source = grant.source;
  shared_secret = secret;
  sync_since = sync_since;
  last_timestamp = timestamp;
  last_activity = now;
  pending_ack = none;
  push_failures = 0;
}

abbrev pub forget_path_if : Bool → ClientSession → ClientSession
forget_path_if by_flood s = if by_flood then forget_path s else s

abbrev pub session_of : Bytes → List ClientSession → Option ClientSession
session_of key sessions = find (λ t. t.public_key =b= key) sessions

-- The session object that a login leaves, made from the one that there was.
abbrev pub login_session :
    ℕ → Bool → Bytes → Bytes → LoginRequest → Grant → ℕ → Option ClientSession → ClientSession
login_session now by_flood key secret login grant sync_since existing = forget_path_if by_flood (
    entered grant secret sync_since login.timestamp now
      (session_or existing (new_session key secret grant)))

-- `if login.sync_since == 0 and self._settings.welcome: ...`
unfoldable pub give_welcome : Bytes → ℕ → Exec (Unit {0})
unfolding change
give_welcome key sync_since = do
  sv ← state
  if (sync_since == 0) && not (length sv.settings.welcome == 0)
      then (do
        chunks ← lift (split_welcome sv.settings.welcome)
        change key (λ s. record s { welcome = chunks }))
      else return tt

module _ (c : Primitives) where
  -- The rest of `_login`, for a session that is granted a role and is no replay.
  unfoldable pub admit : Moment → Packet → Bytes → Bytes → LoginRequest → Grant → Exec (Unit {0})
  unfolding put_session give_welcome
  admit m packet key secret login grant = do
    sv ← state
    let by_flood = is_flood packet.route
    let (client, db) =
        record_login sv.db sv.room_id key (permission grant.role) login.timestamp login.sync_since
          m.now by_flood
    let s =
        login_session m.now by_flood key secret login grant client.sync_since
          (session_of key sv.sessions)
    modify (λ t. record t { db = db; sessions = put_session key s t.sessions })
    give_welcome key login.sync_since
    modify (pause_pushes m.monotonic)
    stamp ← next_unique m
    reply ← lift (login_response grant.role stamp m.random)
    send_response c s packet reply

  abbrev pub admit_granted :
      Moment → Packet → Bytes → Bytes → LoginRequest → Bool → Option Grant → Exec (Unit {0})
  admit_granted m packet key secret login replayed none = return tt
  admit_granted m packet key secret login replayed (some grant) =
      if replayed then return tt else admit m packet key secret login grant

  -- `_login`
  unfoldable pub log_in : Moment → Packet → Bytes → Bytes → LoginRequest → Exec (Unit {0})
  unfolding admit
  log_in m packet key secret login = do
    sv ← state
    admit_granted m packet key secret login (is_replay login.timestamp (session_of key sv.sessions))
        (resolve sv.settings key login.password)

  unfoldable pub on_anon_request : Moment → Packet → Exec Bool
  unfolding log_in
  on_anon_request m packet = do
    a ← lift (AnonRequest.decode packet.payload)
    sv ← state
    if a.dest_hash == node_hash sv
        then caught (open_anon c sv a) (return false) (λ (secret, plaintext). (do
          login ← lift (LoginRequest.decode plaintext)
          log_in m packet a.sender_public_key secret login
          return true))
        else return false
