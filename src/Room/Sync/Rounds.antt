-- ===== src/Room/Sync/Rounds.antt =====
-- What the rounds of pushes and acknowledgements deliver.
use meshelle.Prelude.{Bytes, List, [], length, map, ℕ, ◌++◌, ◌∷◌, ◌≡◌}
use meshelle.Proto.Error.{ok}
use meshelle.Proto.Crypto.{Primitives}
use meshelle.Store.Model.{Post, post_push}
use meshelle.Store.Clients.{advance_sync}
use meshelle.Store.Counters.{increment_counter}
use meshelle.Room.Session.{ClientSession}
use meshelle.Room.Server.{Moment, Server, plainly, push_packet}
use meshelle.Room.Server.Acks.{NoneAwaits}
use meshelle.Room.Sync.{rounds}
use meshelle.Room.Sync.Awaited.{synced}
use meshelle.Room.Sync.Round.{push_message}
use meshelle.Proto.Packet.{Packet}
use meshelle.Proto.TextMessage.{TextMessage}
use meshelle.Room.Sync.Delivered.{Complete}
use meshelle.Proto.Crypto
use meshelle.Proto.TextMessage

-- The push of a post to a session can be made, and no session in front waits for its
-- acknowledgement.
abbrev pub Sendable :
    Primitives → Moment → Server → List ClientSession → ClientSession → Post → Type 0
Sendable c m sv before s post =
    (plaintext : Bytes) × (p : Packet) × (TextMessage.encode (push_message m s post) ≡ ok plaintext)
    × (push_packet c sv s plaintext ≡ ok p)
    × NoneAwaits (Crypto.ack_hash c plaintext s.public_key) before

module _ (c : Primitives) (before later : List ClientSession) where
  -- The state after a round that delivered a post.
  abbrev delivered_state : Server → ClientSession → Post → ℕ → Packet → Server
  delivered_state sv s post timeout p = record sv {
    sessions = before ++ synced s post.post_ts timeout ∷ later;
    sent = sv.sent ++ plainly p ∷ [];
    db =
        advance_sync (increment_counter sv.db sv.room_id post_push 1) sv.room_id s.public_key
          post.post_ts;
  }

  module _ (posts : List Post) where
    -- The rounds from a state deliver the timestamps of the posts that are due.
    abbrev pub Delivers : List Moment → Server → ClientSession → ℕ → Type 0
    Delivers ms sv s limit =
        (ps : List Post) × Complete posts sv.room_id s.public_key s.sync_since limit ps
        × ((rounds c ms (length before) sv).0 ≡ map (λ p. p.post_ts) ps)
