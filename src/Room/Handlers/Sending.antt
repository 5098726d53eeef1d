-- ===== src/Room/Handlers/Sending.antt =====
-- What room/server.py schedules and sends besides pushes.
pub mod Kept
use meshelle.Prelude.{Bool, Bytes, [], if◌then◌else◌, ℕ, ◌++◌, ◌+◌, ◌==◌, ◌∷◌}
use meshelle.Proto.Crypto.{Primitives}
use meshelle.Proto.Text.{Text}
use meshelle.Proto.Packet.{Packet}
use meshelle.Proto.TextMessage.{TextMessage, encode}
use meshelle.Proto.Advert.{AdvertData}
use meshelle.Room.Session.{ClientSession}
use meshelle.Room.Server.{Moment, Server, addressed}
use meshelle.Room.Server.Responses.{cli_reply_packet, response_packet}
use meshelle.Room.Exec.{Exec, lift, modify, next_unique, state, ◌>>=◌, ◌>>◌}
use meshelle.Proto.Constants.{PayloadType, RouteType, ack, advert, direct, flood, path, room, v1}
use meshelle.Proto.Packet
use meshelle.Proto.Ack
use meshelle.Proto.Advert

-- `_schedule`
unfoldable pub schedule : Packet → ℕ → Exec (Unit {0})
schedule p delay =
    modify
      (λ sv. record sv { scheduled = sv.scheduled ++ record { packet = p; delay = delay } ∷ [] })

abbrev pub advert_send_ttl : ℕ
advert_send_ttl = 600

-- The data of the room's advert.
abbrev pub advert_data : Server → AdvertData
advert_data sv = record {
  node_type = room;
  name = sv.settings.name;
  location = sv.settings.location;
  feat1 = 0;
  feat2 = 0;
}

abbrev pub bare_packet : RouteType → PayloadType → Bytes → Packet
bare_packet route kind payload = record {
  route = route;
  kind = kind;
  payload = payload;
  path = [];
  path_hash_size = 1;
  transport_codes = (0, 0);
  version = v1;
}

-- A console shows the request beside the reply, so their timestamps differ.
abbrev pub reply_stamp : ℕ → ℕ → ℕ
reply_stamp stamp requested = if stamp == requested then stamp + 1 else stamp

module _ (c : Primitives) where
  -- `_send_response`
  unfoldable pub send_response : ClientSession → Packet → Bytes → Exec (Unit {0})
  unfolding schedule
  send_response s request payload = do
    sv ← state
    p ← lift (response_packet c sv s request payload)
    schedule p sv.timings.server_response_delay

  -- `_send_ack`
  unfoldable pub send_ack : ClientSession → Bytes → ℕ → Exec (Unit {0})
  unfolding schedule
  send_ack s checksum delay = do
    a ← lift (Ack.make (record { checksum = checksum; trailer = [] }))
    p ← lift (addressed s ack (Ack.encode a))
    schedule p delay

  -- `_send_cli_reply`
  unfoldable pub send_cli_reply : Moment → ClientSession → TextMessage → Text → ℕ → Exec (Unit {0})
  unfolding schedule
  send_cli_reply m s request text delay = do
    stamp ← next_unique m
    sv ← state
    p ← lift (cli_reply_packet c sv s text (reply_stamp stamp request.timestamp))
    schedule p delay

  unfoldable pub send_advert : Moment → Bool → Exec (Unit {0})
  send_advert m is_flooded = do
    stamp ← next_unique m
    sv ← state
    a ← lift (Advert.create c sv.identity stamp (advert_data sv))
    payload ← lift (Advert.encode a)
    p ← lift (Packet.make (bare_packet (if is_flooded then flood else direct) advert payload))
    modify (λ sv. record sv {
      sent =
          sv.sent
          ++ record { packet = p; priority = if is_flooded then 3 else 0; ttl = advert_send_ttl }
            ∷ [];
    })
