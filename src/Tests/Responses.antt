-- ===== src/Tests/Responses.antt =====
-- Runs of the room server's responses.
use meshelle.Prelude.{
  Bytes, [], arith, from_le, get_or, length, none, refl, replicate, take, ℕ, ◌++◌, ◌∷◌, ◌≡◌,
}
use meshelle.Proto.Error.{ok}
use meshelle.Proto.Constants.{flood, path}
use meshelle.Proto.Packet.{Packet}
use meshelle.Proto.Packet.Valid.{IsValid}
use meshelle.Room.Server.Responses.{login_response, response_packet}
use meshelle.Tests.Proto.{three_hops, toy, toy-IsSound}
use meshelle.Tests.Store.{bob}
use meshelle.Tests.Server.{served, session_of}
use meshelle.Config.Model
use meshelle.Room.Server.Responses.Login
use meshelle.Room.Server.Responses.Bundled

login_response_lem_example :
    (response : Bytes) × (login_response Model.admin 1700000000 (1 ∷ 2 ∷ 3 ∷ 4 ∷ []) ≡ ok response)
    × (length response ≡ 13)
    × (from_le (take 4 response) ≡ 1700000000)
    × (get_or response 4 1 ≡ 0)
    × (get_or response 5 1 ≡ 0)
    × (get_or response 7 0 ≡ 3)
login_response_lem_example =
    Login.login_response_lem Model.admin 1700000000 (1 ∷ 2 ∷ 3 ∷ 4 ∷ []) (omega arith) refl

three_hops-IsValid : IsValid three_hops
three_hops-IsValid = record {
  size_pos = omega arith;
  size_le = omega arith;
  whole = refl;
  path_le = omega arith;
  hops_le = omega arith;
  payload_le = omega arith;
  payload_pos = omega arith;
}

response_packet-flood_example :
    (p : Packet) × (n : ℕ) × (response_packet toy served
        (session_of bob 10 none)
        three_hops
        (9 ∷ [])
      ≡ ok p)
    × (p.route ≡ flood)
    × (p.kind ≡ path)
    × (Bundled.read_bundle toy (replicate 32 5) p.payload
        ≡ ok (record {
          path = three_hops.path;
          path_hash_size = 2;
          extra_type = 1;
          extra = (9 ∷ []) ++ replicate n 0;
        }))
response_packet-flood_example =
    Bundled.response_packet-flood toy toy-IsSound served (session_of bob 10 none) three_hops
      (9 ∷ []) three_hops-IsValid refl refl (omega arith) (omega arith) (omega arith)
