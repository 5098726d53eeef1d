-- ===== src/Room/Server.antt =====
-- The state of `RoomServer` of room/server.py, its push loop's step and its acknowledgements. The
-- sessions are in the order of the dictionary; a session object is a place in that list. What a
-- method wrote before it raised stays written, so the state comes back beside an error too.
pub mod Places
pub mod Pushes
pub mod Acks
pub mod Upkeep
pub mod Responses
use meshelle.Prelude.{
  Bool, Bytes, List, Option, [], drop, false, get_or, if◌then◌else◌, leb, length, ltb, map, none,
  not, some, suc, true, zero, ℕ, ◌%◌, ◌&&◌, ◌++◌, ◌+◌, ◌-◌, ◌==◌, ◌=b=◌, ◌∷◌,
}
use meshelle.Proto.Error.{Result, err, ok, ◌>>=◌, ◌>>◌}
use meshelle.Proto.Constants.{PayloadType, direct, flood, is_flood, path, txt_msg, v1}
use meshelle.Proto.Crypto.{Primitives}
use meshelle.Proto.Packet.{Packet}
use meshelle.Config.Model.{RoomSettings}
use meshelle.Store.Model.{Db, Post, post_push}
use meshelle.Store.Posts.{next_unsynced_post}
use meshelle.Store.Clients.{advance_sync}
use meshelle.Store.Counters.{increment_counter}
use meshelle.Mesh.Clock.{Datetime, unique_now}
use meshelle.Proto.Text.{Text}
use meshelle.Room.Session.{
  ClientSession, Timings, has_out_path, push_ack_timeout, session_hash_size, session_hop_count,
}
use meshelle.Room.Posts.{build_push}
use meshelle.Proto.Identity.{LocalIdentity, make, shared_secret}
use meshelle.Room.Stats.{RadioStats, encode}
use meshelle.Proto.Crypto
use meshelle.Proto.Packet
use meshelle.Proto.Datagram

-- What the sink is given. A lifetime is in seconds, as `DEFAULT_SEND_TTL` is.
pub record Outgoing : Type 0 where
  pub packet : Packet
  pub priority : ℕ
  pub ttl : ℕ

abbrev pub default_send_ttl : ℕ
default_send_ttl = 30

-- `sink.send(packet)`, with the defaults of the other arguments.
abbrev pub plainly : Packet → Outgoing
plainly p = record { packet = p; priority = 0; ttl = default_send_ttl }

-- A packet that `_schedule` gave to the scheduler, and its delay.
pub record Scheduled : Type 0 where
  pub packet : Packet
  pub delay : ℕ

pub record Server : Type 0 where
  pub slug : Text
  pub version : Text
  pub room_id : ℕ
  pub identity : LocalIdentity
  pub settings : RoomSettings
  pub timings : Timings
  pub sessions : List ClientSession
  pub round_robin : ℕ
  pub next_push : ℕ
  pub last_unique : ℕ
  pub db : Db
  pub radio : RadioStats
  pub sent : List Outgoing
  pub scheduled : List Scheduled

-- What one call reads from outside: the wall clock, the monotonic clock, the random
-- attempt, the four random bytes, and the wall clock as a `datetime`.
pub record Moment : Type 0 where
  pub now : ℕ
  pub monotonic : ℕ
  pub attempt : ℕ
  pub random : Bytes
  pub stamp : Datetime

-- `_node_hash`, the first byte of the key.
abbrev pub node_hash : Server → ℕ
node_hash sv = get_or sv.identity.public_key 0 0

-- A change of the session object at a place.
unfoldable pub set_at :
    ℕ → (ClientSession → ClientSession) → List ClientSession → List ClientSession
set_at i f [] = []
set_at zero f (s ∷ ss) = f s ∷ ss
set_at (suc i) f (s ∷ ss) = s ∷ set_at i f ss

abbrev pub update_session : ℕ → (ClientSession → ClientSession) → Server → Server
update_session i f sv = record sv { sessions = set_at i f sv.sessions }

-- The body of the loop of `_expire_pending_acks`, by what is pending.
abbrev pub expire_pending : Option Bytes → ℕ → ClientSession → ClientSession
expire_pending none monotonic s = s
expire_pending (some _) monotonic s =
    if ltb monotonic s.ack_timeout
    then s
    else record s { pending_ack = none; push_failures = s.push_failures + 1 }

abbrev pub expire_ack : ℕ → ClientSession → ClientSession
expire_ack monotonic s = expire_pending s.pending_ack monotonic s

abbrev pub expire_pending_acks : ℕ → Server → Server
expire_pending_acks monotonic sv = record sv { sessions = map (expire_ack monotonic) sv.sessions }

-- `_addressed`
unfoldable pub addressed : ClientSession → PayloadType → Bytes → Result Packet
addressed s kind payload =
    if has_out_path s
    then Packet.make (record {
      route = direct;
      kind = kind;
      payload = payload;
      path = s.out_path;
      path_hash_size = session_hash_size s;
      transport_codes = (0, 0);
      version = v1;
    })
    else Packet.make (record {
      route = flood;
      kind = kind;
      payload = payload;
      path = [];
      path_hash_size = 1;
      transport_codes = (0, 0);
      version = v1;
    })

abbrev pub is_pending : ClientSession → Bool
is_pending s = elim s.pending_ack [ none ↦ false | some _ ↦ true ]

-- `hmac.compare_digest` with what is pending, if anything is.
abbrev pub is_this : Bytes → Option Bytes → Bool
is_this checksum none = false
is_this checksum (some pending) = pending =b= checksum

abbrev pub awaits : Bytes → ClientSession → Bool
awaits checksum s = is_this checksum s.pending_ack

-- What an acknowledgement changes in its session.
unfoldable pub acknowledged : ClientSession → ClientSession
acknowledged s =
    let heard : ClientSession = record s { pending_ack = none; push_failures = 0 } in
    if s.push_is_welcome
    then record heard { welcome = drop 1 s.welcome }
    else record heard { sync_since = s.push_post_ts }

-- A session that does not wait stays in front of the others.
abbrev pub in_front :
    ClientSession
    → Option (ClientSession × List ClientSession)
    → Option (ClientSession × List ClientSession)
in_front s none = none
in_front s (some (heard, rest)) = some (heard, s ∷ rest)

-- The first session that waits for it, and the sessions with that one changed.
unfoldable pub take_ack : Bytes → List ClientSession → Option (ClientSession × List ClientSession)
unfolding acknowledged
take_ack checksum [] = none
take_ack checksum (s ∷ ss) =
    let later = in_front s (take_ack checksum ss) in
    if awaits checksum s then some (s, acknowledged s ∷ ss) else later

-- The cursor in the database, which a welcome chunk leaves alone.
abbrev pub stored_ack : Server → ClientSession → Db
stored_ack sv s =
    if s.push_is_welcome then sv.db else advance_sync sv.db sv.room_id s.public_key s.push_post_ts

-- `_on_ack`
unfoldable pub on_ack : Bytes → Server → Bool × Server
unfolding take_ack
on_ack checksum sv = elim (take_ack checksum sv.sessions) [
  | none ↦ (false, sv)
  | some (s, sessions) ↦ (true, record sv { sessions = sessions; db = stored_ack sv s })
]

module _ (c : Primitives) where
  -- The packet of a push and its timeout, after the session has been marked.
  unfoldable pub push_packet : Server → ClientSession → Bytes → Result Packet
  unfolding addressed
  push_packet sv s plaintext = do
    d ← Datagram.seal c (get_or s.public_key 0 0) (node_hash sv) s.shared_secret plaintext
    payload ← Datagram.encode d
    addressed s txt_msg payload

  abbrev pub pushed : Bytes → ℕ → Bool → ClientSession → ClientSession
  pushed plaintext post_ts is_welcome s = record s {
    pending_ack = some (Crypto.ack_hash c plaintext s.public_key);
    push_post_ts = post_ts;
    push_is_welcome = is_welcome;
  }

  -- `_push`, to the session at a place.
  unfoldable pub push :
      Moment → ℕ → ClientSession → Bytes → ℕ → Bool → Server → Result (Unit {0}) × Server
  unfolding push_packet set_at
  push m i s plaintext post_ts is_welcome sv =
      let marked = update_session i (pushed plaintext post_ts is_welcome) sv in
      elim (push_packet sv s plaintext) [
        | err e ↦ (err e, marked)
        | ok p ↦
            let timeout =
              m.monotonic + push_ack_timeout sv.timings (is_flood p.route) (session_hop_count s) in
            let timed = update_session i (λ t. record t { ack_timeout = timeout }) marked in
            (ok tt, record timed { sent = timed.sent ++ plainly p ∷ [] })
      ]

  -- `_push_welcome`, of the first chunk.
  unfoldable pub push_welcome :
      Moment → ℕ → ClientSession → Text → Server → Result (Unit {0}) × Server
  unfolding push
  push_welcome m i s chunk sv =
      let stamp = unique_now sv.last_unique m.now in
      let stamped : Server = record sv { last_unique = stamp } in
      elim (build_push stamp sv.identity.public_key chunk m.attempt (length s.out_path)) [
        | err e ↦ (err e, stamped)
        | ok plaintext ↦ push m i s plaintext 0 true stamped
      ]

  -- A push that went through is counted.
  abbrev pub counted_push : Result (Unit {0}) × Server → Result (Unit {0}) × Server
  counted_push (err e, sv) = (err e, sv)
  counted_push (ok done, sv) =
      (ok tt, record sv { db = increment_counter sv.db sv.room_id post_push 1 })

  -- The push of a post.
  unfoldable pub push_post : Moment → ℕ → ClientSession → Post → Server → Result (Unit {0}) × Server
  unfolding push
  push_post m i s post sv =
      elim (build_push post.post_ts post.author_public_key post.text m.attempt
        (length s.out_path)) [
          | err e ↦ (err e, sv)
          | ok plaintext ↦ counted_push (push m i s plaintext post.post_ts false sv)
        ]

  -- Whether a session may be pushed to: nothing outstanding, active, and not given up.
  abbrev pub may_push : Timings → ClientSession → Bool
  may_push t s =
      not (is_pending s)
      && (not (s.last_activity == 0) && not (leb t.max_push_failures s.push_failures))

  -- The answer of a push that went through.
  abbrev pub went_out : Result (Unit {0}) × Server → Result Bool × Server
  went_out (err e, sv) = (err e, sv)
  went_out (ok done, sv) = (ok true, sv)

  -- The rest of `push_once`, for the session whose turn it is.
  unfoldable pub push_to : Moment → ℕ → ClientSession → Server → Result Bool × Server
  unfolding push_welcome push_post
  push_to m i s sv = if not (may_push sv.timings s) then (ok false, sv) else elim s.welcome [
    | chunk ∷ more ↦ went_out (push_welcome m i s chunk sv)
    | [] ↦
        elim (next_unsynced_post sv.db sv.room_id s.public_key s.sync_since
          (m.now - sv.timings.post_sync_delay)) [
            | none ↦ (ok false, sv)
            | some post ↦ went_out (push_post m i s post sv)
          ]
  ]

  -- The session whose turn it is, in the rotation over all of them.
  unfoldable pub push_turn : Moment → List ClientSession → Server → Result Bool × Server
  unfolding push_to
  push_turn m [] sv = (ok false, sv)
  push_turn m (first ∷ more) sv =
      let n = length (first ∷ more) in
      let i = sv.round_robin % n in
      push_to m i (get_or (first ∷ more) i first) (record sv { round_robin = (i + 1) % n })

  -- `push_once`
  unfoldable pub push_once : Moment → Server → Result Bool × Server
  unfolding push_turn
  push_once m sv =
      let expired = expire_pending_acks m.monotonic sv in push_turn m expired.sessions expired
