-- ===== src/Proto/Packet/Canonical.antt =====
-- Encoding of what `Packet` of proto/packet.py decodes.
use mathlib.Core.Path.{ap₂}
use native.Mathlib.Nat.{mul-div_cancel}
use meshelle.Prelude.{
  All, All-append_right, Bool-cases, Bytes, IsByte, [], arith, bit_and_03, bit_and_0f, bit_and_3f,
  from_le, inl, inr, le_bytes, length, length-take, lt→ltb, refl, take-append-drop, true, ℕ, ◌*◌,
  ◌++◌, ◌/◌, ◌<◌, ◌^◌, ◌∙◌, ◌∷◌, ◌≡◌,
}
use meshelle.Proto.Error.{ok}
use meshelle.Proto.Constants.{
  PayloadType, has_transport_codes, payload_code, payload_code-payload_type, route_code-route_type,
  version_code-payload_version,
}
use meshelle.Proto.Packet.{
  Packet, decode, encode, encode_codes, hash_size_of, header, hop_count, hops_of, path_length_byte,
  read_codes, read_kind, read_path, read_payload,
}
use meshelle.Proto.Packet.Valid.{IsValid, Parsed, decode_fields-Parsed}
use meshelle.Proto.Packet.RoundTrip.{encode_lem, header_sum, path_length_byte_sum}

payload_code-read_kind : (n : ℕ) (k : PayloadType) → read_kind n ≡ ok k → payload_code k ≡ n
unfolding read_kind
payload_code-read_kind n k e = ground (arith, payload_code-payload_type n k)

header-Parsed : (h : ℕ) (rest : Bytes) (p : Packet) → h < 256 → Parsed h rest p → header p ≡ h
header-Parsed h rest p lt d = omega (
  arith,
  bit_and_03 h lt,
  bit_and_0f (h / 4) (omega arith),
  bit_and_03 (h / 64) (omega arith),
  route_code-route_type _ p.route d.route,
  payload_code-read_kind _ p.kind d.kind,
  version_code-payload_version _ p.version d.version,
  header_sum p,
)

le_bytes_2-from_le : (x y : ℕ) → x < 256 → y < 256 → le_bytes 2 (from_le (x ∷ y ∷ [])) ≡ x ∷ y ∷ []
le_bytes_2-from_le x y hx hy = ground arith

from_le_2-lt : (x y : ℕ) → x < 256 → y < 256 → from_le (x ∷ y ∷ []) < 2 ^ 16
from_le_2-lt x y hx hy = omega arith

-- The codes that were read are written as the bytes that were taken.
codes-read_codes :
    (p : Packet) (rest after : Bytes)
    → All IsByte rest
    → has_transport_codes p.route ≡ true
    → read_codes p.route rest ≡ ok (p.transport_codes.0, p.transport_codes.1, after)
    → (cs : Bytes) × (encode_codes p ≡ ok cs) × (cs ++ after ≡ rest)
unfolding encode_codes read_codes
codes-read_codes p (x ∷ y ∷ z ∷ w ∷ rest) after (hx, (hy, (hz, (hw, hs)))) has e =
    let first : from_le (x ∷ y ∷ []) ≡ p.transport_codes.0 = ground arith in
    let second : from_le (z ∷ w ∷ []) ≡ p.transport_codes.1 = ground arith in
    let remains : rest ≡ after = ground arith in
    (
      x ∷ y ∷ z ∷ w ∷ [],
      rw
          (
            has,
            ← first,
            ← second,
            lt→ltb _ _ (from_le_2-lt x y hx hy),
            lt→ltb _ _ (from_le_2-lt z w hz hw),
          )
          (ap₂ (λ a b. ok (a ++ b)) (le_bytes_2-from_le x y hx hy) (le_bytes_2-from_le z w hz hw)),
      rw remains refl,
    )
codes-read_codes p [] after bytes has e = ground arith
codes-read_codes p (x ∷ []) after bytes has e = ground arith
codes-read_codes p (x ∷ y ∷ []) after bytes has e = ground arith
codes-read_codes p (x ∷ y ∷ z ∷ []) after bytes has e = ground arith

encode_codes-Parsed :
    (p : Packet) (rest after : Bytes)
    → All IsByte rest
    → read_codes p.route rest ≡ ok (p.transport_codes.0, p.transport_codes.1, after)
    → (cs : Bytes) × (encode_codes p ≡ ok cs) × (cs ++ after ≡ rest)
encode_codes-Parsed p rest after bytes e = elim (Bool-cases (has_transport_codes p.route)) [
  | inl has ↦ codes-read_codes p rest after bytes has e
  | inr lacks ↦ unfold encode_codes read_codes in ([], rw lacks refl, ground arith)
]

read_path-inv :
    (p : Packet) (b : ℕ) (bs rest : Bytes)
    → read_path (b ∷ bs) ≡ ok (p.path_hash_size, p.path, rest)
    → (p.path_hash_size ≡ hash_size_of b)
      × (length p.path ≡ hops_of b * hash_size_of b)
      × (p.path ++ rest ≡ bs)
unfolding read_path
read_path-inv p b bs rest e = ground (
  arith,
  length-take (hops_of b * hash_size_of b) bs,
  take-append-drop (hops_of b * hash_size_of b) bs,
)

path_length_byte-read_path :
    (p : Packet) (after rest : Bytes)
    → All IsByte after
    → IsValid p
    → read_path after ≡ ok (p.path_hash_size, p.path, rest)
    → path_length_byte p ∷ (p.path ++ rest) ≡ after
path_length_byte-read_path p [] rest bytes v e = unfold read_path in cc
path_length_byte-read_path p (b ∷ bs) rest bytes v e =
    let (size, len, joined) = read_path-inv p b bs rest e in
    let hops : hop_count p ≡ hops_of b =
      rw (len, size) (mul-div_cancel (hops_of b) (omega arith)) in
    let same : path_length_byte p ≡ b = omega (
      arith,
      path_length_byte_sum p v,
      bit_and_03 (b / 64) (omega arith),
      bit_and_3f b (omega arith),
    ) in
    rw (same, joined) refl

read_payload-inv : (rest payload : Bytes) → read_payload rest ≡ ok payload → payload ≡ rest
unfolding read_payload
read_payload-inv [] payload e = cc
read_payload-inv (b ∷ bs) payload e = ground arith

encode-decode_fields :
    (h : ℕ) (rest : Bytes) (p : Packet)
    → IsByte h
    → All IsByte rest
    → Parsed h rest p
    → encode p ≡ ok (h ∷ rest)
encode-decode_fields h rest p hb bytes d =
    let (cs, e, joined) = encode_codes-Parsed p rest d.after_codes bytes d.codes in
    let bytes' : All IsByte d.after_codes =
      All-append_right IsByte cs d.after_codes (rw joined bytes) in
    let tail : path_length_byte p ∷ (p.path ++ p.payload) ≡ d.after_codes =
      rw (read_payload-inv d.after_path p.payload d.payload)
        (path_length_byte-read_path p d.after_codes d.after_path bytes' d.valid d.path) in
    encode_lem p cs d.valid e ∙ rw (header-Parsed h rest p hb d, tail, joined) refl

-- What `decode` accepts is exactly the frame of the packet that it returns.
pub encode-decode :
    (raw : Bytes) (p : Packet) → All IsByte raw → decode raw ≡ ok p → encode p ≡ ok raw
unfolding decode
encode-decode [] p bytes e = cc
encode-decode (h ∷ []) p bytes e = cc
encode-decode (h ∷ b ∷ rest) p bytes e =
    encode-decode_fields h (b ∷ rest) p bytes.0 bytes.1 (decode_fields-Parsed h (b ∷ rest) p e)
