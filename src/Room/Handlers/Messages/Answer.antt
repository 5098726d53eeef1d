-- ===== src/Room/Handlers/Messages/Answer.antt =====
-- What the answer to a message in room/server.py leaves alone.
use meshelle.Prelude.{Bool, Bytes, List, if◌then◌else◌, length, ℕ, ◌==◌}
use meshelle.Proto.Crypto.{Primitives}
use meshelle.Proto.Text.{Text}
use meshelle.Proto.TextMessage.{TextMessage}
use meshelle.Room.Session.{ClientSession}
use meshelle.Room.Server.{Moment, Outgoing, Scheduled, Server}
use meshelle.Room.Exec.{return}
use meshelle.Room.Exec.Kept.{IsPreorder, Keeps, Keeps->>=, Keeps-if}
use meshelle.Room.Handlers.Sending.{send_ack}
use meshelle.Room.Handlers.Sending.Kept.{send_ack-Keeps, send_cli_reply-Keeps}
use meshelle.Room.Handlers.Messages.{send_answer}

module _ (Kept : Server → Server → Type 0) (order : IsPreorder Kept)
    (sends : (sv : Server) (o : List Outgoing) (q : List Scheduled) (n : ℕ)
      → Kept sv (record sv { sent = o; scheduled = q; last_unique = n }))
    (c : Primitives) where
  pub send_answer-Keeps :
      (m : Moment) (s : ClientSession) (message : TextMessage) (checksum : Bytes)
      (answer : Text × Bool)
      → Keeps Kept order (send_answer c m s message checksum answer)
  unfolding send_answer
  send_answer-Keeps m s message checksum (reply, to_ack) sv =
      Keeps->>= Kept order
        (if to_ack then send_ack c s checksum sv.timings.txt_ack_delay else return tt) _
        (Keeps-if Kept order to_ack _ _
          (send_ack-Keeps Kept order sends c s checksum sv.timings.txt_ack_delay)
          (λ after. order.reflexive after))
        (λ sent.
          Keeps-if Kept order (length reply == 0) _ _ (λ after. order.reflexive after)
            (send_cli_reply-Keeps Kept order sends c m s message reply _))
        sv
