-- ===== src/Proto/Packet.antt =====
-- `Packet` of proto/packet.py: the outer frame.
pub mod Valid
pub mod RoundTrip
pub mod Canonical
use meshelle.Prelude.{
  Bytes, [], bit_and, bit_or, drop, from_le, if◌then◌else◌, leb, length, not, shl, shr, take, ℕ,
  ◌%◌, ◌&&◌, ◌*◌, ◌++◌, ◌+◌, ◌-◌, ◌/◌, ◌==◌, ◌∷◌,
}
use meshelle.Proto.Error.{
  Result, bad_hash_size, byte_of, empty_payload, err, guard, long_path, long_payload,
  missing_path_length, no_payload, ok, pack_u16, ragged_path, reserved_hash_size, reserved_type,
  short_packet, too_many_hops, truncated_codes, truncated_path, ◌>>=◌, ◌>>◌,
}
use meshelle.Proto.Constants.{
  PayloadType, PayloadVersion, RouteType, has_transport_codes, max_packet_payload, max_path_size,
  path_hash_size_mask, path_hash_size_shift, path_hop_count_mask, payload_code, payload_type,
  payload_version, ph_route_mask, ph_type_mask, ph_type_shift, ph_ver_mask, ph_ver_shift,
  route_code, route_type, transport_codes_size, version_code,
}

abbrev pub max_path_hash_size : ℕ
max_path_hash_size = 3

pub record Packet : Type 0 where
  pub route : RouteType
  pub kind : PayloadType
  pub payload : Bytes
  pub path : Bytes
  pub path_hash_size : ℕ
  pub transport_codes : ℕ × ℕ
  pub version : PayloadVersion

abbrev pub hop_count : Packet → ℕ
hop_count p = length p.path / p.path_hash_size

-- `__post_init__`
unfoldable pub check : Packet → Result (Unit {0})
check p = do
  guard (leb 1 p.path_hash_size && leb p.path_hash_size max_path_hash_size) bad_hash_size
  guard (length p.path % p.path_hash_size == 0) ragged_path
  guard (leb (length p.path) max_path_size) long_path
  guard (leb (hop_count p) path_hop_count_mask) too_many_hops
  guard (leb (length p.payload) max_packet_payload) long_payload
  guard (not (length p.payload == 0)) empty_payload

-- The constructor call, which runs `__post_init__`.
unfoldable pub make : Packet → Result Packet
make p = do check p; ok p

abbrev pub header : Packet → ℕ
header p =
    bit_or
      (bit_or (shl (version_code p.version) ph_ver_shift) (shl (payload_code p.kind) ph_type_shift))
      (route_code p.route)

abbrev pub path_length_byte : Packet → ℕ
path_length_byte p = bit_or (shl (p.path_hash_size - 1) path_hash_size_shift) (hop_count p)

-- `struct.pack("<HH", *codes)` where the route has transport codes.
unfoldable pub encode_codes : Packet → Result Bytes
encode_codes p =
    if has_transport_codes p.route
    then (do a ← pack_u16 p.transport_codes.0; b ← pack_u16 p.transport_codes.1; ok (a ++ b))
    else ok []

unfoldable pub encode : Packet → Result Bytes
encode p = do
  h ← byte_of (header p)
  codes ← encode_codes p
  l ← byte_of (path_length_byte p)
  ok (h ++ (codes ++ (l ++ (p.path ++ p.payload))))

-- In the readers below a list stands for `raw[offset:]`.
unfoldable pub read_codes : RouteType → Bytes → Result (ℕ × ℕ × Bytes)
read_codes route rest =
    if has_transport_codes route
    then (do
      guard (leb transport_codes_size (length rest)) truncated_codes
      ok (from_le (take 2 rest), from_le (take 2 (drop 2 rest)), drop transport_codes_size rest))
    else ok (0, 0, rest)

abbrev pub hash_size_of : ℕ → ℕ
hash_size_of b = bit_and (shr b path_hash_size_shift) path_hash_size_mask + 1

abbrev pub hops_of : ℕ → ℕ
hops_of b = bit_and b path_hop_count_mask

unfoldable pub read_path : Bytes → Result (ℕ × Bytes × Bytes)
read_path [] = err missing_path_length
read_path (b ∷ rest) = do
  guard (leb (hash_size_of b) max_path_hash_size) reserved_hash_size
  guard (leb (hops_of b * hash_size_of b) max_path_size) long_path
  guard (leb (hops_of b * hash_size_of b) (length rest)) truncated_path
  ok (
    hash_size_of b,
    take (hops_of b * hash_size_of b) rest,
    drop (hops_of b * hash_size_of b) rest,
  )

unfoldable pub read_payload : Bytes → Result Bytes
read_payload [] = err no_payload
read_payload (b ∷ rest) = do
  guard (leb (length (b ∷ rest)) max_packet_payload) long_payload
  ok (b ∷ rest)

-- `PayloadType(n)`, its `ValueError` turned into a `PacketError`.
unfoldable pub read_kind : ℕ → Result PayloadType
read_kind n = elim (payload_type n) [ ok k ↦ ok k | err _ ↦ err reserved_type ]

unfoldable pub decode_fields : ℕ → Bytes → Result Packet
decode_fields h rest = do
  route ← route_type (bit_and h ph_route_mask)
  kind ← read_kind (bit_and (shr h ph_type_shift) ph_type_mask)
  version ← payload_version (bit_and (shr h ph_ver_shift) ph_ver_mask)
  (a, b, rest1) ← read_codes route rest
  (size, path, rest2) ← read_path rest1
  payload ← read_payload rest2
  make (record {
    route = route;
    kind = kind;
    payload = payload;
    path = path;
    path_hash_size = size;
    transport_codes = (a, b);
    version = version;
  })

unfoldable pub decode : Bytes → Result Packet
decode [] = err short_packet
decode (h ∷ []) = err short_packet
decode (h ∷ b ∷ rest) = decode_fields h (b ∷ rest)
