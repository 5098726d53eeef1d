-- ===== src/Tests/Handlers.antt =====
-- Runs of the room server's handlers.
use meshelle.Prelude.{◌⊎◌, Bytes, In, [], inr, none, refl, replicate, ◌++◌, ◌∷◌, ◌≡◌}
use meshelle.Proto.Error.{ok}
use meshelle.Proto.Constants.{anon_req, flood, plain, txt_type, v1}
use meshelle.Proto.Packet.{Packet}
use meshelle.Proto.TextMessage.{TextMessage}
use meshelle.Room.Session.{ClientSession}
use meshelle.Room.Handlers.{handle}
use meshelle.Room.Handlers.Messages.{on_text}
use meshelle.Room.Replay.{Follows, IsDistinct}
use meshelle.Room.Replay.Forgotten.{Idle}
use meshelle.Room.Replay.Entering.{Precedes}
use meshelle.Tests.Proto.{toy}
use meshelle.Tests.Store.{bob}
use meshelle.Tests.Server.{moment, served, session_of}
use meshelle.Proto.Plain.{c_string}
use meshelle.Room.Replay.Handled
use meshelle.Room.Handlers.Claims
use meshelle.Room.Handlers.Messages.Silent
use meshelle.Proto.TextMessage

-- A login of one whom the room does not know, with the administrators' password.
abbrev login_packet : Packet
login_packet = record {
  route = flood;
  kind = anon_req;
  payload =
      0x77
      ∷ (replicate 32 0xdd
          ++ (10 ∷ 10 ∷ 10 ∷ 0 ∷ 0 ∷ 0 ∷ 0 ∷ 0 ∷ 0 ∷ 0 ∷ b'a' ∷ b'b' ∷ replicate 6 0));
  path = [];
  path_hash_size = 1;
  transport_codes = (0, 0);
  version = v1;
}

served-IsDistinct : IsDistinct served.sessions
served-IsDistinct = (((λ e. cc), tt), ((tt), tt))

handle-Raises_example :
    let after = (handle toy moment login_packet served).1 in
    ((t : ClientSession) → In t after.sessions → Precedes served.sessions t)
    × ((s : ClientSession)
        → In s served.sessions
        → ((t : ClientSession) × In t after.sessions × Follows s t)
          ⊎ Idle moment.now served s.public_key)
    × IsDistinct after.sessions
handle-Raises_example = Handled.handle-Raises toy moment login_packet served served-IsDistinct

handle-Outcome_example : Claims.Outcome toy served (handle toy moment login_packet served)
handle-Outcome_example = Claims.handle-Outcome toy moment login_packet served

-- The timestamp is the last one that was heard of Bob.
abbrev retry : Bytes
retry = 5 ∷ 0 ∷ 0 ∷ 0 ∷ 0 ∷ b'h' ∷ b'i' ∷ []

abbrev retried : TextMessage
retried = record { timestamp = 5; kind = plain; attempt = 0; text = b'h' ∷ b'i' ∷ [] }

retry_decoded : TextMessage.decode retry ≡ ok retried
unfolding TextMessage.decode TextMessage.read_kind txt_type c_string
retry_decoded = refl

on_text-db_example : (on_text toy moment (session_of bob 10 none) retry served).1.db ≡ served.db
on_text-db_example =
    Silent.on_text-db toy moment (session_of bob 10 none) retry retried served retry_decoded
      (inr refl)
