-- ===== src/Tests/Sync.antt =====
-- Runs of synchronisation.
use meshelle.Tests.Server.{moment, served, session_of}
use meshelle.Tests.Proto.{three_hops, toy, toy-IsSound}
use meshelle.Tests.Store.{alice, bob, bob_is_owed, post_at}
use meshelle.Prelude.{Bytes, [], arith, none, refl, some, true, ◌=b=◌, ◌∷◌, ◌≡◌}
use meshelle.Proto.Error.{Result, err, ok}
use meshelle.Store.Clients.{advance_sync}
use meshelle.Store.Counters.{increment_counter}
use meshelle.Proto.Crypto.{ack_hash, aes_key, encrypt_then_mac, mac}
use meshelle.Proto.Text.{utf8_truncate}
use meshelle.Proto.Datagram.{max_plaintext_len}
use meshelle.Proto.Packet.{Packet}
use meshelle.Store.Model.{Post}
use meshelle.Room.Server.{Server, on_ack, push_packet, push_to}
use meshelle.Room.Posts.{build_push}
use meshelle.Room.Sync.{rounds}
use meshelle.Room.Sync.Read
use meshelle.Room.Sync.Round
use meshelle.Room.Sync.Rounds
use meshelle.Proto.TextMessage
use meshelle.Store.Posts
use meshelle.Proto.Datagram
use meshelle.Proto.Packet

-- It is Bob's turn, and he is owed the last post.
abbrev pushed_once : Server
pushed_once = (push_to toy moment 1 (session_of bob 10 none) served).1

bob_is_pushed : push_to toy moment 1 (session_of bob 10 none) served ≡ (ok true, pushed_once)
unfolding push_to Posts.next_unsynced_post ◌=b=◌ build_push Datagram.seal encrypt_then_mac aes_key
    mac Datagram.encode Packet.make Packet.check utf8_truncate max_plaintext_len
bob_is_pushed = refl

push_to-PushRead_example :
    Read.PushRead toy toy-IsSound moment served
      (session_of alice 10 (some (1 ∷ 2 ∷ 3 ∷ 4 ∷ [])) ∷ [])
      (session_of bob 10 none)
      []
      (post_at 3 alice 30)
      pushed_once
push_to-PushRead_example =
    Read.push_to-PushRead toy toy-IsSound moment served
      (session_of alice 10 (some (1 ∷ 2 ∷ 3 ∷ 4 ∷ [])) ∷ []) [] (session_of bob 10 none)
      (post_at 3 alice 30) pushed_once refl refl refl bob_is_owed (omega arith) (omega arith) refl
      bob_is_pushed

-- Bob is alone.
abbrev alone : Server
alone = record served { sessions = session_of bob 10 none ∷ [] }

abbrev value_or : {A : Type 0} → Result A → A → A
value_or (ok a) other = a
value_or (err raised) other = other

abbrev plaintext_of : Post → Bytes
plaintext_of post =
    value_or (TextMessage.encode (Round.push_message moment (session_of bob 10 none) post)) []

abbrev packet_of : Post → Packet
packet_of post =
    value_or (push_packet toy alone (session_of bob 10 none) (plaintext_of post)) three_hops

abbrev IsSent : Post → Type 0
IsSent post = Rounds.Sendable toy moment alone [] (session_of bob 10 none) post

rounds_run : (rounds toy (moment ∷ moment ∷ []) 0 alone).0 ≡ 30 ∷ []
unfolding rounds push_to Posts.next_unsynced_post ◌=b=◌ build_push Datagram.seal encrypt_then_mac
    aes_key mac Datagram.encode Packet.make Packet.check utf8_truncate max_plaintext_len on_ack
    ack_hash advance_sync increment_counter
rounds_run = refl
