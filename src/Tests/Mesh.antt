-- ===== src/Tests/Mesh.antt =====
-- Runs of the mesh layer, the framing and the statistics.
use meshelle.Prelude.{
  Bool, Bytes, List, [], arith, negsuc, none, pos, refl, some, true, ℕ, ◌++◌, ◌+◌, ◌∷◌, ◌≡◌,
}
use meshelle.Proto.Error.{ok}
use meshelle.Proto.Packet.{Packet}
use meshelle.Mesh.Dedupe.{SeenTable, check_and_mark, mark}
use meshelle.Mesh.Dedupe.Recall.{check_and_mark-marked, mark_all}
use meshelle.Transport.Framing.{read_frame}
use meshelle.Transport.Framing.Resync.{IsFrameIn, received_frame}
use meshelle.Room.Stats.{RadioStats}
use meshelle.Mesh.Clock.{RisesFrom, unique_series}
use meshelle.Mesh.Dispatcher.{Dispatcher, ReceivedPacket, dispatch, send}
use meshelle.Tests.Proto.{three_hops, toy}
use meshelle.Proto.Constants
use meshelle.Mesh.Clock
use meshelle.Proto.Packet
use meshelle.Mesh.Dispatcher.Echo
use meshelle.Room.Stats
use meshelle.Room.Stats.Encoded
use meshelle.Transport.Framing.Resync

-- The clock is set back between the calls.
unique_series-RisesFrom_example : RisesFrom 10 (unique_series 10 (100 ∷ 90 ∷ 100 ∷ 101 ∷ []))
unique_series-RisesFrom_example = Clock.unique_series-RisesFrom 10 (100 ∷ 90 ∷ 100 ∷ 101 ∷ [])

abbrev table : SeenTable
table = record { ttl = 900; capacity = 3; entries = record { hash = 7 ∷ []; stamped = 1 } ∷ [] }

abbrev marks : List (ℕ × Bytes)
marks = (60, 8 ∷ []) ∷ (70, 9 ∷ []) ∷ []

check_and_mark-marked_example :
    (check_and_mark 949 (5 ∷ []) (mark_all marks (mark 50 (5 ∷ []) table))).0 ≡ true
check_and_mark-marked_example =
    check_and_mark-marked (5 ∷ []) 50 949 marks table
      ((omega arith, omega arith), ((omega arith, omega arith), tt)) (omega arith) (omega arith)

abbrev pub fresh_radio : RadioStats
fresh_radio = record {
  started_at = 0;
  packets_recv = 0;
  packets_sent = 70000;
  sent_flood = 70000;
  sent_direct = 0;
  recv_flood = 0;
  recv_direct = 0;
  direct_dups = 0;
  flood_dups = 90000;
  err_events = 0;
  last_rssi = negsuc 89;
  last_snr_quarters = pos 12;
}

abbrev node : Dispatcher
node = record { seen = table; radio = fresh_radio; sent = [] }

-- One room that claims every packet.
abbrev claims : ℕ → Packet → ReceivedPacket → Dispatcher × ℕ → Bool × Dispatcher × ℕ
claims room p received (d, n) = (true, d, n + 1)

-- The packet of three hops comes back with a fourth hop in its path.
abbrev echo : ReceivedPacket
echo = record {
  raw =
      0x20 ∷ 0x34 ∷ 0x12 ∷ 0xff ∷ 0xff ∷ 0x44 ∷ 10 ∷ 11 ∷ 12 ∷ 13 ∷ 14 ∷ 15 ∷ 16 ∷ 17 ∷ 1 ∷ 2 ∷ 3
      ∷ [];
  rssi = negsuc 89;
  snr_quarters = pos 12;
}

abbrev four_hops : Packet
four_hops = record three_hops { path = 10 ∷ 11 ∷ 12 ∷ 13 ∷ 14 ∷ 15 ∷ 16 ∷ 17 ∷ [] }

echo_decoded : Packet.decode echo.raw ≡ ok four_hops
unfolding Packet.decode Packet.decode_fields Packet.read_codes Packet.read_path Packet.read_payload
    Packet.read_kind Packet.make Packet.check Constants.route_type Constants.payload_type
    Constants.payload_version
echo_decoded = refl

abbrev after_send : Dispatcher
after_send = (send toy 50 three_hops 0 none node).1

abbrev later : Dispatcher
later = record after_send { seen = mark_all marks after_send.seen }

dispatch-send_example :
    dispatch toy (λ room. room) claims 949 (1 ∷ []) echo (later, 0)
    ≡ Echo.ignored toy (λ room. room) claims 949 four_hops echo later 0
dispatch-send_example =
    Echo.dispatch-send toy (λ room. room) claims 50 949 (1 ∷ []) echo node 0 marks three_hops
      four_hops 0 none ((omega arith, omega arith), ((omega arith, omega arith), tt)) (omega arith)
      (omega arith) echo_decoded refl refl

encode-stats_example : Encoded.Packs 52 (Stats.encode (Stats.build fresh_radio 5000 70000 3))
encode-stats_example = Encoded.encode-stats fresh_radio 5000 70000 3 (omega arith) (omega arith)

read_frame-received_example :
    read_frame ((1 ∷ 2 ∷ []) ++ received_frame (8 ∷ 9 ∷ []) ++ 5 ∷ []) ≡ some (8 ∷ 9 ∷ [], 5 ∷ [])
read_frame-received_example =
    Resync.read_frame-received (1 ∷ 2 ∷ []) (8 ∷ 9 ∷ []) (5 ∷ []) (refl, (refl, tt)) (omega arith)
      (omega arith)

-- A marker with a length of zero stands before the frame.
false_start : read_frame (b'>' ∷ 0 ∷ 0 ∷ b'>' ∷ 1 ∷ 0 ∷ 7 ∷ []) ≡ some (7 ∷ [], [])
unfolding read_frame
false_start = refl

read_frame-IsFrameIn_example : IsFrameIn (b'>' ∷ 0 ∷ 0 ∷ b'>' ∷ 1 ∷ 0 ∷ 7 ∷ []) (7 ∷ []) []
read_frame-IsFrameIn_example =
    Resync.read_frame-IsFrameIn (b'>' ∷ 0 ∷ 0 ∷ b'>' ∷ 1 ∷ 0 ∷ 7 ∷ []) (7 ∷ []) [] false_start
