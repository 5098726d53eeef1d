-- ===== src/Room/Handlers/Sending/Kept.antt =====
-- What the sending methods of room/server.py leave alone: all but the queues and the clock's mark.
use meshelle.Prelude.{Bool, Bytes, List, [], if◌then◌else◌, ℕ, ◌++◌, ◌∷◌}
use meshelle.Proto.Constants.{ack, advert, direct, flood}
use meshelle.Proto.Crypto.{Primitives}
use meshelle.Proto.Text.{Text}
use meshelle.Proto.Packet.{Packet}
use meshelle.Proto.TextMessage.{TextMessage}
use meshelle.Mesh.Clock.{unique_now}
use meshelle.Room.Session.{ClientSession}
use meshelle.Room.Server.{Moment, Outgoing, Scheduled, Server, addressed}
use meshelle.Room.Server.Responses.{cli_reply_packet, response_packet}
use meshelle.Room.Exec.{next_unique}
use meshelle.Room.Exec.Kept.{IsPreorder, Keeps, Keeps-lifted}
use meshelle.Room.Handlers.Sending.{
  advert_data, bare_packet, reply_stamp, schedule, send_ack, send_advert, send_cli_reply,
  send_response,
}
use meshelle.Proto.Ack
use meshelle.Proto.Packet
use meshelle.Proto.Advert

module _ (Kept : Server → Server → Type 0) (order : IsPreorder Kept)
    (sends : (sv : Server) (o : List Outgoing) (q : List Scheduled) (n : ℕ)
      → Kept sv (record sv { sent = o; scheduled = q; last_unique = n })) where
  pub schedule-Keeps : (p : Packet) (delay : ℕ) → Keeps Kept order (schedule p delay)
  unfolding schedule
  schedule-Keeps p delay sv =
      sends sv sv.sent (sv.scheduled ++ record { packet = p; delay = delay } ∷ []) sv.last_unique

  pub next_unique-Keeps : (m : Moment) → Keeps Kept order (next_unique m)
  next_unique-Keeps m sv = sends sv sv.sent sv.scheduled (unique_now sv.last_unique m.now)

  module _ (c : Primitives) where
    pub send_response-Keeps :
        (s : ClientSession) (request : Packet) (payload : Bytes)
        → Keeps Kept order (send_response c s request payload)
    unfolding send_response
    send_response-Keeps s request payload sv =
        Keeps-lifted Kept order (response_packet c sv s request payload) _
          (λ p. schedule-Keeps p sv.timings.server_response_delay) sv

    pub send_ack-Keeps :
        (s : ClientSession) (checksum : Bytes) (delay : ℕ)
        → Keeps Kept order (send_ack c s checksum delay)
    unfolding send_ack
    send_ack-Keeps s checksum delay =
        Keeps-lifted Kept order (Ack.make (record { checksum = checksum; trailer = [] })) _ (λ a.
          Keeps-lifted Kept order (addressed s ack (Ack.encode a)) _ (λ p. schedule-Keeps p delay))

    pub send_cli_reply-Keeps :
        (m : Moment) (s : ClientSession) (request : TextMessage) (text : Text) (delay : ℕ)
        → Keeps Kept order (send_cli_reply c m s request text delay)
    unfolding send_cli_reply
    send_cli_reply-Keeps m s request text delay sv =
        let stamp = unique_now sv.last_unique m.now in
        let stamped : Server = record sv { last_unique = stamp } in
        order.transitive (next_unique-Keeps m sv) (
          Keeps-lifted Kept order
            (cli_reply_packet c stamped s text (reply_stamp stamp request.timestamp)) _
            (λ p. schedule-Keeps p delay) stamped)

    pub send_advert-Keeps :
        (m : Moment) (is_flooded : Bool) → Keeps Kept order (send_advert c m is_flooded)
    unfolding send_advert
    send_advert-Keeps m is_flooded sv =
        let stamp = unique_now sv.last_unique m.now in
        let stamped : Server = record sv { last_unique = stamp } in
        order.transitive (next_unique-Keeps m sv) (
          Keeps-lifted Kept order (Advert.create c stamped.identity stamp (advert_data stamped)) _
            (λ a. Keeps-lifted Kept order (Advert.encode a) _ (λ payload.
              Keeps-lifted Kept order
                (Packet.make (bare_packet (if is_flooded then flood else direct) advert payload)) _
                (λ p after. sends after _ after.scheduled after.last_unique)))
            stamped)
