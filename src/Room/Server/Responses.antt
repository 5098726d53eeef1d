-- ===== src/Room/Server/Responses.antt =====
-- `_login_response` and the packets of `_send_response` and `_send_cli_reply` of room/server.py.
pub mod Login
pub mod Bundled
use meshelle.Prelude.{Bytes, [], get_or, if◌then◌else◌, length, ℕ, ◌++◌, ◌-◌, ◌==◌, ◌∷◌}
use meshelle.Proto.Error.{Result, bad_login_response, guard, ok, pack_u32, ◌>>=◌, ◌>>◌}
use meshelle.Proto.Constants.{
  Permission, admin, cli_data, firmware_ver_level, flood, guest, is_flood, login_response_len, path,
  payload_code, permission_code, resp_server_login_ok, response, txt_msg, v1,
}
use meshelle.Proto.Crypto.{Primitives, shared_secret}
use meshelle.Proto.Packet.{Packet}
use meshelle.Proto.PathReturn.{PathReturn}
use meshelle.Config.Model.{Role, permission}
use meshelle.Room.Session.{ClientSession}
use meshelle.Room.Server.{Server, addressed, node_hash}
use meshelle.Proto.Text.{Text, utf8_truncate}
use meshelle.Proto.Datagram.{max_plaintext_len}
use meshelle.Proto.AnonRequest.{AnonRequest}
use meshelle.Proto.Packet
use meshelle.Proto.PathReturn
use meshelle.Proto.Datagram
use meshelle.Proto.TextMessage
use meshelle.Proto.AnonRequest
use meshelle.Proto.Identity

-- The admin flag that apps used before the permissions byte.
abbrev pub legacy_admin : Permission → ℕ
legacy_admin admin = 1
legacy_admin guest = 2
legacy_admin _ = 0

-- `_login_response`, at the timestamp and with the four random bytes that are given.
unfoldable pub login_response : Role → ℕ → Bytes → Result Bytes
login_response role stamp random = do
  reflected ← pack_u32 stamp
  let response =
      reflected
      ++ (resp_server_login_ok
          ∷ 0
          ∷ legacy_admin (permission role)
          ∷ permission_code (permission role)
          ∷ [])
      ++ random
      ++ firmware_ver_level ∷ []
  guard (length response == login_response_len) bad_login_response
  ok response

module _ (c : Primitives) where
  -- A plaintext sealed for a client, as a datagram's payload.
  unfoldable pub sealed_for : Server → ClientSession → Bytes → Result Bytes
  sealed_for sv s plaintext = do
    d ← Datagram.seal c (get_or s.public_key 0 0) (node_hash sv) s.shared_secret plaintext
    Datagram.encode d

  -- The answer to a flooded request, which carries the request's path.
  unfoldable pub flood_response : Server → ClientSession → Packet → Bytes → Result Packet
  unfolding sealed_for
  flood_response sv s request payload = do
    bundled ← PathReturn.make (record {
      path = request.path;
      path_hash_size = request.path_hash_size;
      extra_type = payload_code response;
      extra = payload;
    })
    plaintext ← PathReturn.encode bundled
    sealed ← sealed_for sv s plaintext
    Packet.make (record {
      route = flood;
      kind = path;
      payload = sealed;
      path = [];
      path_hash_size = request.path_hash_size;
      transport_codes = (0, 0);
      version = v1;
    })

  unfoldable pub direct_response : Server → ClientSession → Bytes → Result Packet
  unfolding sealed_for
  direct_response sv s payload = do sealed ← sealed_for sv s payload; addressed s response sealed

  -- What `_send_response` schedules.
  unfoldable pub response_packet : Server → ClientSession → Packet → Bytes → Result Packet
  unfolding flood_response direct_response
  response_packet sv s request payload =
      if is_flood request.route
      then flood_response sv s request payload
      else direct_response sv s payload

  -- The packet of a console's reply, at a timestamp.
  unfoldable pub cli_reply_packet : Server → ClientSession → Text → ℕ → Result Packet
  unfolding sealed_for
  cli_reply_packet sv s text now = do
    plaintext ← TextMessage.encode (record {
      timestamp = now;
      kind = cli_data;
      attempt = 0;
      text = utf8_truncate text (max_plaintext_len (length s.out_path) - TextMessage.prefix_len);
    })
    sealed ← sealed_for sv s plaintext
    addressed s txt_msg sealed

  -- The shared secret and the plaintext of an anonymous request.
  unfoldable pub open_anon : Server → AnonRequest → Result (Bytes × Bytes)
  open_anon sv a = do
    secret ← Identity.shared_secret c sv.identity a.sender_public_key
    plaintext ← AnonRequest.open_with c secret a
    ok (secret, plaintext)
