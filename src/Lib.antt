-- ===== src/Lib.antt =====
-- A model of meshelle, a MeshCore room server, and the theorems about it.
--
-- Paths are from the repository's root. src/meshelle/proto is the wire format: module Proto holds
-- the frame (Proto.Packet), the encrypted envelopes (Proto.Datagram, Proto.AnonRequest), the
-- plaintext bodies (Proto.TextMessage, Proto.LoginRequest, Proto.ServerRequest, Proto.PathReturn,
-- Proto.Ack), the cryptographic schemes over given primitives (Proto.Crypto), keys and signatures
-- (Proto.Ed25519, Proto.Identity), adverts (Proto.Advert) and the UTF-8 helpers (Proto.Text).
--
-- src/meshelle/store is module Store: rows as lists, the queries of store/repo.py as filters and
-- changes of rows. src/meshelle/config/model.py is Config.Model, the settings of a room, with two
-- validators in Config.Checks and its public keys' text in Config.Keys, and config/dotenv.py
-- Config.Dotenv, the parser of an environment file and its application. src/meshelle/room/acl.py is
-- Room.Acl, a login's resolution to a role, and room/stats.py Room.Stats. room/posts.py is
-- Room.Posts, what a push looks like. Room.Session is the `ClientSession` of room/server.py, and
-- Room.Server the state of `RoomServer` with `push_once`, `_push` and `_on_ack`: an action returns
-- the state beside its result, so what it wrote before an error stays. Room.Server.Upkeep has
-- `_store_post`, client retention and `apply_settings`, and Room.Server.Responses the login
-- response and the packets of responses. Room.Exec is a method of `RoomServer` as a function of its
-- state, and Room.Handlers the methods themselves: `handle` and `_on_datagram`, with the logins,
-- messages, requests, returned paths, the start, and the sending methods in child modules.
-- room/admin_cli.py is Room.AdminCli, whose actions are methods that the context gives. A
-- dictionary of sessions is a list in its order, and a session object is known by its place or by
-- its key. Room.Replay says what a packet does to the sessions, and Room.Sync what rounds of pushes
-- and acknowledgements deliver. The loops that sleep between two steps are not modelled.
--
-- src/meshelle/mesh is module Mesh: Mesh.Clock, the seen table Mesh.Dedupe, and Mesh.Dispatcher,
-- which marks what it sends, drops what it knows and offers the rest to the rooms, which are given.
-- src/meshelle/transport/framing.py is Transport.Framing, and companion/link.py Companion.Link: the
-- handshake, the dispatch of the node's frames, and the queue of outgoing packets with the rounds
-- of its loop. Times are in ticks of the monotonic clock.
--
-- The primitives of hashlib, hmac and cryptography are a record of functions with their documented
-- laws. The transports, the link's supervisor, key files and the reading of configuration files are
-- input and output and not modelled.
--
-- Bounds: the UTF-8 decoder and the frame reader are structural; `pow_mod` and the curve's
-- double-and-add have fuel 256, as many bits as their exponent has at most; a text is split with
-- one round of fuel for each code point and one more, and each round takes one at least; an
-- environment file is parsed with one round for each line. A 32-bit field is packed by `pack_u32`,
-- which fails out of range as `struct.pack` does. The monotonic clock is read once in a step, and a
-- negative difference of two times, which the source compares with times that are not negative, is
-- 0.
pub mod Prelude
pub mod Proto
pub mod Config
pub mod Store
pub mod Mesh
pub mod Transport
pub mod Room
pub mod Companion
pub mod Tests
