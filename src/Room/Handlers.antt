-- ===== src/Room/Handlers.antt =====
-- `handle` and `_on_datagram` of room/server.py: a packet that the dispatcher offers to the room.
pub mod Sending
pub mod Logins
pub mod Messages
pub mod Requests
pub mod Paths
pub mod Resume
pub mod Claims
use meshelle.Prelude.{
  Bool, Bytes, List, [], false, filter, get_or, if◌then◌else◌, true, ℕ, ◌==◌, ◌∷◌,
}
use meshelle.Proto.Error.{Result, err, is_packet_error, ok}
use meshelle.Proto.Constants.{PayloadType, ack, anon_req, path, req, response, txt_msg}
use meshelle.Proto.Crypto.{Primitives, shared_secret}
use meshelle.Proto.Packet.{Packet, decode}
use meshelle.Proto.Datagram.{Datagram, open_with}
use meshelle.Room.Session.{ClientSession}
use meshelle.Room.Server.{Moment, Server, node_hash}
use meshelle.Room.Exec.{Exec, caught, lift, return, state, ◌>>=◌, ◌>>◌}
use meshelle.Room.Handlers.Logins.{on_anon_request}
use meshelle.Room.Handlers.Messages.{on_text}
use meshelle.Room.Handlers.Requests.{on_request}
use meshelle.Room.Handlers.Paths.{claim, on_path_return}
use meshelle.Proto.Datagram
use meshelle.Proto.Ack

-- `_candidate_sessions`
abbrev pub candidate_sessions : ℕ → List ClientSession → List ClientSession
candidate_sessions src_hash sessions = filter (λ s. get_or s.public_key 0 0 == src_hash) sessions

-- Where a `PacketError` is caught, the packet was the room's.
abbrev pub forgiven : Result Bool × Server → Result Bool × Server
forgiven (ok claimed, sv) = (ok claimed, sv)
forgiven (err raised, sv) = if is_packet_error raised then (ok true, sv) else (err raised, sv)

module _ (c : Primitives) where
  -- What an opened datagram carries, by the packet's type.
  unfoldable pub on_opened : Moment → Packet → PayloadType → ClientSession → Bytes → Exec (Unit {0})
  on_opened m packet txt_msg s plaintext = on_text c m s plaintext
  on_opened m packet req s plaintext = on_request c m s packet plaintext
  on_opened m packet path s plaintext = on_path_return m s plaintext
  on_opened m packet _ s plaintext = return tt

  -- The loop over the candidates: the first that the datagram opens for.
  unfoldable pub try_sessions : Moment → Packet → Datagram → List ClientSession → Exec Bool
  unfolding on_opened
  try_sessions m packet d [] = return false
  try_sessions m packet d (s ∷ ss) =
      caught (open_with c s.shared_secret d) (try_sessions m packet d ss)
        (λ plaintext. (do on_opened m packet packet.kind s plaintext; return true))

  unfoldable pub on_datagram : Moment → Packet → Exec Bool
  unfolding try_sessions
  on_datagram m packet = do
    d ← lift (Datagram.decode packet.payload)
    sv ← state
    if d.dest_hash == node_hash sv
        then try_sessions m packet d (candidate_sessions d.src_hash sv.sessions)
        else return false

  -- A bare acknowledgement.
  unfoldable pub on_bare_ack : Packet → Exec Bool
  on_bare_ack packet = do a ← lift (Ack.decode packet.payload); claim a.checksum

  unfoldable pub handle_kind : Moment → Packet → PayloadType → Exec Bool
  unfolding on_datagram on_bare_ack
  handle_kind m packet ack = on_bare_ack packet
  handle_kind m packet anon_req = on_anon_request c m packet
  handle_kind m packet req = on_datagram m packet
  handle_kind m packet txt_msg = on_datagram m packet
  handle_kind m packet path = on_datagram m packet
  handle_kind m packet response = on_datagram m packet
  handle_kind m packet _ = return false

  unfoldable pub handle : Moment → Packet → Exec Bool
  unfolding handle_kind
  handle m packet = λ sv. forgiven (handle_kind m packet packet.kind sv)
