-- ===== src/Mesh/Dispatcher.antt =====
-- mesh/dispatcher.py. The rooms are given: a node hash, and a handler that may change the
-- dispatcher (it can send) and the rest of the program.
pub mod Echo
use meshelle.Prelude.{
  Bool, Bytes, List, Option, [], false, filter, if◌then◌else◌, none, some, true, ℕ, ℤ, ◌++◌, ◌+◌,
  ◌==◌, ◌∷◌,
}
use meshelle.Proto.Error.{Result, err, ok}
use meshelle.Proto.Constants.{
  PayloadType, ack, anon_req, is_flood, path, payload_code, req, response, txt_msg,
}
use meshelle.Proto.Crypto.{Primitives}
use meshelle.Proto.Packet.{Packet}
use meshelle.Mesh.Dedupe.{SeenTable, check_and_mark, mark}
use meshelle.Room.Stats.{RadioStats, encode}
use meshelle.Proto.Packet
use meshelle.Proto.AnonRequest
use meshelle.Proto.Datagram
use meshelle.Proto.Crypto

-- `ReceivedPacket` of companion/link.py; the signal's quality is in quarters.
pub record ReceivedPacket : Type 0 where
  pub raw : Bytes
  pub rssi : ℤ
  pub snr_quarters : ℤ

-- A frame handed to the companion link, with its priority and time to live.
pub record Sent : Type 0 where
  pub raw : Bytes
  pub priority : ℕ
  pub ttl : Option ℕ

pub record Dispatcher : Type 0 where
  pub seen : SeenTable
  pub radio : RadioStats
  pub sent : List Sent

-- Payload types whose payload starts with a datagram's header.
unfoldable pub is_addressed : PayloadType → Bool
is_addressed req = true
is_addressed response = true
is_addressed txt_msg = true
is_addressed path = true
is_addressed _ = false

abbrev pub count_sent : Packet → RadioStats → RadioStats
count_sent p r =
    let r1 : RadioStats = record r { packets_sent = r.packets_sent + 1 } in
    if is_flood p.route
    then record r1 { sent_flood = r1.sent_flood + 1 }
    else record r1 { sent_direct = r1.sent_direct + 1 }

abbrev pub count_received : Packet → ReceivedPacket → RadioStats → RadioStats
count_received p received r =
    let r1 : RadioStats = record r {
      packets_recv = r.packets_recv + 1;
      last_rssi = received.rssi;
      last_snr_quarters = received.snr_quarters;
    } in
    if is_flood p.route
    then record r1 { recv_flood = r1.recv_flood + 1 }
    else record r1 { recv_direct = r1.recv_direct + 1 }

abbrev pub count_duplicate : Packet → RadioStats → RadioStats
count_duplicate p r =
    if is_flood p.route
    then record r { flood_dups = r.flood_dups + 1 }
    else record r { direct_dups = r.direct_dups + 1 }

module _ (c : Primitives) where
  abbrev pub hash_of : Packet → Bytes
  hash_of p = Crypto.packet_hash c (payload_code p.kind) p.payload

  -- The packet is marked and counted before it is encoded, and so also where that fails.
  unfoldable pub send : ℕ → Packet → ℕ → Option ℕ → Dispatcher → Result (Unit {0}) × Dispatcher
  send now p priority ttl d =
      let counted : Dispatcher = record d {
        seen = mark now (hash_of p) d.seen;
        radio = count_sent p d.radio;
      } in
      elim (Packet.encode p) [
        | err e ↦ (err e, counted)
        | ok raw ↦ (
          ok tt,
          record counted {
            sent = counted.sent ++ record { raw = raw; priority = priority; ttl = ttl } ∷ [];
          },
        )
      ]

  module _ {Room Rest : Type 0} (node_hash : Room → ℕ)
      (handle : Room → Packet → ReceivedPacket → Dispatcher × Rest → Bool × Dispatcher × Rest) where
    -- `_by_hash.get(dest_hash, [])`
    abbrev pub by_hash : ℕ → List Room → List Room
    by_hash dest rooms = filter (λ room. node_hash room == dest) rooms

    unfoldable pub candidates : List Room → Packet → Option (List Room)
    unfolding is_addressed
    candidates rooms p = elim p.kind [
      | ack ↦ some rooms
      | anon_req ↦ elim (AnonRequest.decode p.payload) [
        | err e ↦ none
        | ok a ↦ some (by_hash a.dest_hash rooms)
      ]
      | kind ↦
          if is_addressed kind
          then elim (Datagram.decode p.payload) [
            | err e ↦ none
            | ok d ↦ some (by_hash d.dest_hash rooms)
          ]
          else none
    ]

    -- Each room in turn, until one claims the packet.
    unfoldable pub offer :
        List Room → Packet → ReceivedPacket → Dispatcher × Rest → Bool × Dispatcher × Rest
    offer [] p received (d, rest) = (false, d, rest)
    offer (room ∷ rooms) p received s =
        let (claimed, d, rest) = handle room p received s in
        let next = offer rooms p received (d, rest) in if claimed then (true, d, rest) else next

    unfoldable pub route_packet :
        List Room → Packet → ReceivedPacket → Dispatcher × Rest → Bool × Dispatcher × Rest
    unfolding candidates offer
    route_packet rooms p received s = elim (candidates rooms p) [
      | none ↦ (false, s.0, s.1)
      | some chosen ↦ offer chosen p received s
    ]

    unfoldable pub dispatch :
        ℕ → List Room → ReceivedPacket → Dispatcher × Rest → Bool × Dispatcher × Rest
    unfolding route_packet
    dispatch now rooms received (d, rest) = elim (Packet.decode received.raw) [
      | err e ↦
          (false, record d { radio = record d.radio { err_events = d.radio.err_events + 1 } }, rest)
      | ok p ↦
          let counted = count_received p received d.radio in
          let (known, seen) = check_and_mark now (hash_of p) d.seen in
          if known
          then (false, record d { seen = seen; radio = count_duplicate p counted }, rest)
          else route_packet rooms p received (record d { seen = seen; radio = counted }, rest)
    ]
