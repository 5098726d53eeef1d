-- ===== src/Proto/Packet/RoundTrip.antt =====
-- Decoding of what `Packet` of proto/packet.py encodes.
use native.Mathlib.Nat.{div-add-mod}
use meshelle.Prelude.{
  Bool-cases, Bytes, [], arith, bit_and, bit_and_03, bit_and_0f, bit_and_3f, bit_or_header,
  bit_or_path_length, drop-append, false, from_le-le_bytes_2, inl, inr, le_bytes, length,
  length-append, le→leb, lt→ltb, refl, shr, suc, take-append, ℕ, ◌%◌, ◌*◌, ◌++◌, ◌+◌, ◌-◌, ◌/◌, ◌<◌,
  ◌^◌, ◌∙◌, ◌∷◌, ◌≡◌, ◌≤◌,
}
use meshelle.Proto.Error.{ok, ◌>>=◌}
use meshelle.Proto.Constants.{
  has_transport_codes, payload_code, payload_code-lt, payload_type-payload_code, payload_version,
  payload_version-version_code, ph_route_mask, ph_type_mask, ph_type_shift, ph_ver_mask,
  ph_ver_shift, route_code, route_code-lt, route_type, route_type-route_code, version_code,
  version_code-lt,
}
use meshelle.Proto.Packet.{
  Packet, decode, decode_fields, encode, encode_codes, hash_size_of, header, hop_count, hops_of,
  make, path_length_byte, read_codes, read_kind, read_path, read_payload,
}
use meshelle.Proto.Packet.Valid.{IsValid, check-IsValid}

-- The transport codes that the frame can carry: two 16-bit words, or none.
pub record CodesFit (p : Packet) : Type 0 where
  pub first : p.transport_codes.0 < 2 ^ 16
  pub second : p.transport_codes.1 < 2 ^ 16
  pub absent :
      has_transport_codes p.route ≡ false → (p.transport_codes.0 ≡ 0) × (p.transport_codes.1 ≡ 0)

pub header_sum :
    (p : Packet)
    → header p ≡ version_code p.version * 64 + payload_code p.kind * 4 + route_code p.route
header_sum p =
    bit_or_header (version_code p.version) (payload_code p.kind) (route_code p.route)
      (version_code-lt p.version) (payload_code-lt p.kind) (route_code-lt p.route)

header-lt : (p : Packet) → header p < 256
header-lt p =
    omega (
      arith,
      header_sum p,
      version_code-lt p.version,
      payload_code-lt p.kind,
      route_code-lt p.route,
    )

pub path_length_byte_sum :
    (p : Packet) → IsValid p → path_length_byte p ≡ (p.path_hash_size - 1) * 64 + hop_count p
path_length_byte_sum p v =
    bit_or_path_length (p.path_hash_size - 1) (hop_count p) (omega (arith, v.size_le))
      (omega (arith, v.hops_le))

path_length_byte-lt : (p : Packet) → IsValid p → path_length_byte p < 256
path_length_byte-lt p v = omega (arith, path_length_byte_sum p v, v.size_le, v.hops_le)

-- The three fields of the header byte.
route-header : (p : Packet) → route_type (bit_and (header p) ph_route_mask) ≡ ok p.route
route-header p =
    let low : bit_and (header p) ph_route_mask ≡ route_code p.route =
      omega (arith, bit_and_03 (header p) (header-lt p), header_sum p, route_code-lt p.route) in
    rw low (route_type-route_code p.route)

kind-header :
    (p : Packet) → read_kind (bit_and (shr (header p) ph_type_shift) ph_type_mask) ≡ ok p.kind
unfolding read_kind
kind-header p =
    let mid : bit_and (shr (header p) ph_type_shift) ph_type_mask ≡ payload_code p.kind = omega (
      arith,
      bit_and_0f (header p / 4) (omega (arith, header-lt p)),
      header_sum p,
      route_code-lt p.route,
      payload_code-lt p.kind,
    ) in
    rw mid (rw (payload_type-payload_code p.kind, read_kind) refl)

version-header :
    (p : Packet)
    → payload_version (bit_and (shr (header p) ph_ver_shift) ph_ver_mask) ≡ ok p.version
version-header p =
    let top : bit_and (shr (header p) ph_ver_shift) ph_ver_mask ≡ version_code p.version = omega (
      arith,
      bit_and_03 (header p / 64) (omega (arith, header-lt p)),
      header_sum p,
      route_code-lt p.route,
      payload_code-lt p.kind,
      version_code-lt p.version,
    ) in
    rw top (payload_version-version_code p.version)

hash_size-path_length_byte :
    (p : Packet) → IsValid p → hash_size_of (path_length_byte p) ≡ p.path_hash_size
hash_size-path_length_byte p v = omega (
  arith,
  bit_and_03 (path_length_byte p / 64) (omega (arith, path_length_byte-lt p v)),
  path_length_byte_sum p v,
  v.size_le,
  v.size_pos,
  v.hops_le,
)

hops-path_length_byte : (p : Packet) → IsValid p → hops_of (path_length_byte p) ≡ hop_count p
hops-path_length_byte p v = omega (
  arith,
  bit_and_3f (path_length_byte p) (path_length_byte-lt p v),
  path_length_byte_sum p v,
  v.size_le,
  v.size_pos,
  v.hops_le,
)

-- A path whose length the hash size divides has that many hops.
pub hops_times_size : (n s : ℕ) → 1 ≤ s → n % s ≡ 0 → n / s * s ≡ n
hops_times_size n s hs h = omega (arith, div-add-mod n s)

encode_codes-read_codes :
    (p : Packet) (rest : Bytes)
    → CodesFit p
    → (cs : Bytes) × (encode_codes p ≡ ok cs)
      × (read_codes p.route (cs ++ rest) ≡ ok (p.transport_codes.0, p.transport_codes.1, rest))
unfolding encode_codes read_codes
encode_codes-read_codes p rest f = elim (Bool-cases (has_transport_codes p.route)) [
  | inl has ↦ (
    le_bytes 2 p.transport_codes.0 ++ le_bytes 2 p.transport_codes.1,
    rw (has, lt→ltb _ _ f.first, lt→ltb _ _ f.second) refl,
    rw (has, from_le-le_bytes_2 _ f.first, from_le-le_bytes_2 _ f.second)
        (rw (le→leb 4 (suc (suc (suc (suc (length rest))))) (omega arith)) refl),
  )
  | inr lacks ↦ ([], rw lacks refl, rw lacks (ground (arith, f.absent lacks)))
]

path_bytes-encode :
    (p : Packet)
    → IsValid p
    → hops_of (path_length_byte p) * hash_size_of (path_length_byte p) ≡ length p.path
path_bytes-encode p v =
    rw (hops-path_length_byte p v, hash_size-path_length_byte p v)
      (hops_times_size (length p.path) p.path_hash_size v.size_pos v.whole)

read_path-encode :
    (p : Packet)
    → IsValid p
    → read_path (path_length_byte p ∷ (p.path ++ p.payload))
      ≡ ok (p.path_hash_size, p.path, p.payload)
unfolding read_path
read_path-encode p v =
    let fits : length p.path ≤ length (p.path ++ p.payload) =
      omega (arith, length-append p.path p.payload) in
    rw (path_bytes-encode p v, hash_size-path_length_byte p v)
      (rw (le→leb _ _ v.size_le, le→leb _ _ v.path_le, le→leb _ _ fits)
        (rw (take-append _ p.path p.payload refl, drop-append _ p.path p.payload refl) refl))

read_payload-IsValid : (p : Packet) → IsValid p → read_payload p.payload ≡ ok p.payload
read_payload-IsValid p v = go p.payload v.payload_pos v.payload_le
  where
    go : (b : Bytes) → 1 ≤ length b → length b ≤ 184 → read_payload b ≡ ok b
    go [] h k = absurd (omega arith)
    go (b ∷ bs) h k = unfold read_payload in rw (le→leb _ _ k) refl

-- The frame of a valid packet, as the parts that `encode` joins.
pub encode_lem :
    (p : Packet) (cs : Bytes)
    → IsValid p
    → encode_codes p ≡ ok cs
    → encode p ≡ ok (header p ∷ (cs ++ path_length_byte p ∷ (p.path ++ p.payload)))
unfolding encode
encode_lem p cs v e = rw (lt→ltb _ _ (header-lt p), e, lt→ltb _ _ (path_length_byte-lt p v)) refl

decode_fields-encode :
    (p : Packet) (cs : Bytes)
    → IsValid p
    → read_codes p.route (cs ++ path_length_byte p ∷ (p.path ++ p.payload))
      ≡ ok (p.transport_codes.0, p.transport_codes.1, path_length_byte p ∷ (p.path ++ p.payload))
    → decode_fields (header p) (cs ++ path_length_byte p ∷ (p.path ++ p.payload)) ≡ ok p
unfolding decode_fields make
decode_fields-encode p cs v e =
    rw (route-header p, kind-header p, version-header p, e)
      (rw (read_path-encode p v, read_payload-IsValid p v, check-IsValid p v) refl)

-- A frame has its header and a path length byte at least.
decode_cons :
    (h b : ℕ) (cs rest : Bytes) → decode (h ∷ (cs ++ b ∷ rest)) ≡ decode_fields h (cs ++ b ∷ rest)
unfolding decode
decode_cons h b [] rest = refl
decode_cons h b (c ∷ cs) rest = refl

-- The frame of a valid packet whose transport codes fit decodes to the packet.
pub decode-encode : (p : Packet) → IsValid p → CodesFit p → (encode p >>= decode) ≡ ok p
decode-encode p v f =
    let tail : Bytes = path_length_byte p ∷ (p.path ++ p.payload) in
    let (cs, e, r) = encode_codes-read_codes p tail f in
    rw (encode_lem p cs v e) (
      decode_cons (header p) (path_length_byte p) cs (p.path ++ p.payload)
      ∙ decode_fields-encode p cs v r)
