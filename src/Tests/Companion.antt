-- ===== src/Tests/Companion.antt =====
-- Runs of the companion link.
use meshelle.Prelude.{
  All, Bytes, List, [], before_first, false, inr, negsuc, refl, replicate, true, ◌++◌, ◌∷◌, ◌≡◌,
}
use meshelle.Proto.Text.{utf8_encode}
use meshelle.Proto.Text.Codec.{decode_replace}
use meshelle.Companion.Link.{Inbox, Outbound, closed, dropped, sent, waiting}
use meshelle.Companion.Link.Queue.{Event, call, round}
use meshelle.Companion.Link
use meshelle.Companion.Link.Handshake
use meshelle.Companion.Link.Queue

-- A packet is queued, the connection fails, the next one carries it; a second packet is too late.
abbrev events : List Event
events =
    call 0 (1 ∷ 2 ∷ []) 0 30000 []
    ∷ round 5 false
    ∷ call 6 (3 ∷ 4 ∷ []) 0 100 []
    ∷ call 6 (replicate 175 0) 0 100 []
    ∷ round 200 true
    ∷ round 300 true
    ∷ round 400 true
    ∷ []

abbrev first_item : Outbound
first_item = record { payload = 65 ∷ 0 ∷ 1 ∷ 2 ∷ []; expires_at = 30000; description = [] }

abbrev second_item : Outbound
second_item = record { payload = 65 ∷ 0 ∷ 3 ∷ 4 ∷ []; expires_at = 106; description = [] }

queue_emptied :
    Queue.run events []
    ≡ ((5, closed) ∷ (200, sent first_item) ∷ (300, dropped second_item) ∷ (400, waiting) ∷ [], [])
unfolding Queue.run Link.send_packet Link.send_turn
queue_emptied = refl

run-IsOrdered_example :
    (Queue.all_leave (Queue.run events []).0 ++ (Queue.run events []).1
      ≡ [] ++ Queue.accepted events)
    × All Queue.IsTimely (Queue.run events []).0
run-IsOrdered_example = Queue.run-IsOrdered events []

-- A node of old firmware, which sends no version text, and which has heard an advert meanwhile.
abbrev device_frame : Bytes
device_frame = 13 ∷ 7 ∷ replicate 6 0 ++ b'M' ∷ replicate 11 0 ++ b'X' ∷ replicate 39 0

abbrev self_frame : Bytes
self_frame =
    5 ∷ 1 ∷ 22 ∷ 30 ∷ replicate 32 9
    ++ replicate 12 0
    ++ 0 ∷ 1 ∷ 0 ∷ 0 ∷ 2 ∷ 0 ∷ 0 ∷ 0 ∷ 8 ∷ 5 ∷ b'N' ∷ []

shaken_hands : Handshake.handshake [] (device_frame ∷ (0x80 ∷ []) ∷ self_frame ∷ [] ∷ []) ≡ (
  (22 ∷ 3 ∷ []) ∷ (1 ∷ 1 ∷ replicate 6 0) ∷ [],
  inr (
    record {
      firmware_version_code = 7;
      firmware_version = [];
      build_date = b'M' ∷ [];
      manufacturer = b'X' ∷ [];
      path_hash_mode = 0;
      public_key = replicate 32 9;
      node_name = b'N' ∷ [];
      tx_power_dbm = 22;
      max_tx_power_dbm = 30;
      frequency_khz = 256;
      bandwidth_hz = 2;
      spreading_factor = 8;
      coding_rate = 5;
    },
    [] ∷ [],
  ),
)
unfolding Handshake.handshake Handshake.parse_self_info before_first utf8_encode decode_replace
shaken_hands = refl

abbrev inbox : Inbox
inbox = record { packets = []; time_responses = [] }

packet_dispatched :
    Link.dispatch (0x88 ∷ 0xfc ∷ 0x9c ∷ 1 ∷ []) inbox
    ≡ inr (record {
      packets = record { raw = 1 ∷ []; snr_quarters = negsuc 3; rssi = negsuc 99 } ∷ [];
      time_responses = [];
    })
unfolding Link.dispatch
packet_dispatched = refl

refused_probe : Handshake.probe_raw_packet_support ((1 ∷ 1 ∷ []) ∷ []) ≡ inr false
unfolding Handshake.probe_raw_packet_support
refused_probe = refl
