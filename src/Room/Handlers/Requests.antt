-- ===== src/Room/Handlers/Requests.antt =====
-- `_on_request` and the replies to requests of room/server.py.
use meshelle.Prelude.{
  Bool, Bytes, List, [], from_le, get_or, if◌then◌else◌, leb, length, ltb, min, none, not, take, ℕ,
  ◌&&◌, ◌++◌, ◌-◌, ◌/◌, ◌==◌, ◌∷◌,
}
use meshelle.Proto.Error.{Result, ok, pack_u32}
use meshelle.Proto.Constants.{
  ack, direct, is_direct, permission_code, req_get_access_list, req_get_status, req_keep_alive, v1,
}
use meshelle.Proto.Crypto.{Primitives}
use meshelle.Proto.Datagram.{max_plaintext_len}
use meshelle.Proto.Packet.{Packet}
use meshelle.Proto.ServerRequest.{ServerRequest}
use meshelle.Config.Model.{Member, permission}
use meshelle.Store.Model.{post_push, posted}
use meshelle.Store.Posts.{count_unsynced_posts}
use meshelle.Store.Clients.{force_sync_since}
use meshelle.Store.Counters.{counter_value}
use meshelle.Room.Session.{ClientSession, has_out_path, session_hash_size}
use meshelle.Room.Server.{Moment, Server}
use meshelle.Room.Exec.{Exec, change, heard, lift, modify, return, state, ◌>>=◌, ◌>>◌}
use meshelle.Room.Handlers.Sending.{schedule, send_response}
use meshelle.Room.Handlers.Messages.{is_admin}
use meshelle.Proto.Ack
use meshelle.Proto.Packet
use meshelle.Proto.Crypto
use meshelle.Proto.ServerRequest
use meshelle.Room.Stats

abbrev pub acl_entry_len : ℕ
acl_entry_len = 7

abbrev pub acl_pubkey_prefix_len : ℕ
acl_pubkey_prefix_len = 6

abbrev pub response_timestamp_len : ℕ
response_timestamp_len = 4

abbrev pub access_list_capacity : ℕ
access_list_capacity = (max_plaintext_len 0 - response_timestamp_len) / acl_entry_len

unfoldable pub access_entries : List Member → Bytes
access_entries [] = []
access_entries (e ∷ es) =
    take acl_pubkey_prefix_len e.pubkey ++ permission_code (permission e.role) ∷ access_entries es

-- `_access_list_reply`
unfoldable pub access_list_reply : Server → Bytes
unfolding access_entries
access_list_reply sv = access_entries (take access_list_capacity sv.settings.members)

-- `_status_reply`
unfoldable pub status_reply : Moment → Server → Result Bytes
status_reply m sv = Stats.encode (
    Stats.build sv.radio m.monotonic (counter_value sv.db sv.room_id posted)
      (counter_value sv.db sv.room_id post_push))

-- `request.data[:2].ljust(2, b"\\x00") == b"\\x00\\x00"`
abbrev pub is_unfiltered : Bytes → Bool
is_unfiltered data_bytes = (get_or data_bytes 0 0 == 0) && (get_or data_bytes 1 0 == 0)

-- `_request_reply`
unfoldable pub request_reply : Moment → ClientSession → ServerRequest → Server → Result Bytes
unfolding access_list_reply status_reply
request_reply m s request sv =
    if request.req_type == req_get_status
    then status_reply m sv
    else if (request.req_type == req_get_access_list)
        && (is_admin s.role && is_unfiltered request.body)
    then ok (access_list_reply sv)
    else ok []

abbrev pub forced_since : Bytes → ℕ
forced_since data_bytes = if leb 4 (length data_bytes) then from_le (take 4 data_bytes) else 0

-- `if force_since > 0 and force_since != session.sync_since: ...`
unfoldable pub force_cursor : ClientSession → ℕ → Exec (Unit {0})
unfolding change
force_cursor s since =
    if ltb 0 since && not (since == s.sync_since)
    then (do
      change s.public_key (λ t. record t { sync_since = since })
      modify (λ sv. record sv { db = force_sync_since sv.db sv.room_id s.public_key since }))
    else return tt

-- The session's cursor then.
abbrev pub cursor_after : ClientSession → ℕ → ℕ
cursor_after s since = if ltb 0 since then since else s.sync_since

module _ (c : Primitives) where
  -- The answer to a keep-alive, over the path that is known.
  unfoldable pub answer_keep_alive : ClientSession → Bytes → ℕ → Exec (Unit {0})
  answer_keep_alive s plaintext since = do
    sv ← state
    let unsynced = count_unsynced_posts sv.db sv.room_id s.public_key since
    a ← lift (
        Ack.make (record {
          checksum = Crypto.ack_hash c (take 9 plaintext) s.public_key;
          trailer = min unsynced 0xff ∷ [];
        }))
    p ← lift (
        Packet.make (record {
          route = direct;
          kind = ack;
          payload = Ack.encode a;
          path = s.out_path;
          path_hash_size = session_hash_size s;
          transport_codes = (0, 0);
          version = v1;
        }))
    schedule p sv.timings.server_response_delay

  unfoldable pub on_keep_alive : ClientSession → Bytes → ServerRequest → Exec (Unit {0})
  unfolding change force_cursor answer_keep_alive
  on_keep_alive s plaintext request = do
    let since = forced_since request.body
    force_cursor s since
    change s.public_key (λ t. record t { pending_ack = none })
    if has_out_path s then answer_keep_alive s plaintext (cursor_after s since) else return tt

  -- A reply that is not empty is sent, behind the request's timestamp.
  unfoldable pub send_reply : ClientSession → Packet → ℕ → Bytes → Exec (Unit {0})
  send_reply s packet timestamp [] = return tt
  send_reply s packet timestamp (b ∷ bs) = do
    stamp ← lift (pack_u32 timestamp)
    send_response c s packet (stamp ++ b ∷ bs)

  -- A request that is no replay.
  unfoldable pub take_request :
      Moment → ClientSession → Packet → Bytes → ServerRequest → Exec (Unit {0})
  unfolding change on_keep_alive send_reply
  take_request m s packet plaintext request = do
    change s.public_key (heard request.timestamp m.now)
    if (request.req_type == req_keep_alive) && is_direct packet.route
        then on_keep_alive s plaintext request
        else (do
          sv ← state
          reply ← lift (request_reply m s request sv)
          send_reply s packet request.timestamp reply)

  unfoldable pub on_request : Moment → ClientSession → Packet → Bytes → Exec (Unit {0})
  unfolding take_request
  on_request m s packet plaintext = do
    request ← lift (ServerRequest.decode plaintext)
    if ltb request.timestamp s.last_timestamp
        then return tt
        else take_request m s packet plaintext request
