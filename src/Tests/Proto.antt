-- ===== src/Tests/Proto.antt =====
-- Runs of the wire format.
use meshelle.Prelude.{
  All, All-replicate, Bytes, IsByte, List, [], arith, from_le, inl, length, refl, replicate, some,
  take, ℕ, ◌%◌, ◌++◌, ◌<◌, ◌=b=◌, ◌^◌, ◌↔◌, ◌∷◌, ◌≡◌, ◌≤◌,
}
use meshelle.Proto.Error.{ok, ◌>>=◌}
use meshelle.Proto.Constants.{
  direct, max_raw_tx_packet, path, signed_plain, transport_flood, txt_msg, v1,
}
use meshelle.Proto.Text.{IsScalar, Text, utf8_encode, utf8_truncate}
use meshelle.Proto.Crypto.{IsSound, Primitives, aes_key, encrypt_then_mac, mac}
use meshelle.Proto.Packet.{Packet}
use meshelle.Proto.TextMessage.{TextMessage}
use meshelle.Proto.LoginRequest.{LoginRequest}
use meshelle.Proto.AnonRequest.{AnonRequest}
use meshelle.Proto.PathReturn.{PathReturn}
use meshelle.Proto.Constants
use meshelle.Proto.Packet
use meshelle.Proto.Packet.RoundTrip as Frame
use meshelle.Proto.Packet.Canonical
use meshelle.Proto.Datagram
use meshelle.Proto.Datagram.Budget
use meshelle.Proto.Datagram.RoundTrip as Envelope
use meshelle.Proto.TextMessage
use meshelle.Proto.TextMessage.RoundTrip as Message
use meshelle.Proto.LoginRequest
use meshelle.Proto.AnonRequest
use meshelle.Proto.PathReturn
use meshelle.Proto.PathReturn.RoundTrip as Return
use meshelle.Proto.Text.Codec
use meshelle.Proto.Text.Truncate
use meshelle.Proto.Text.Split
use meshelle.Proto.Ed25519
use meshelle.Proto.Ed25519.Clamped
use meshelle.Proto.Advert
use meshelle.Proto.Advert.RoundTrip as Announced
use meshelle.Proto.Text.Split.Chunks

-- Primitives that meet what is assumed of them; they hide nothing.
abbrev pub toy : Primitives
toy = record {
  sha256 = λ d. replicate 32 (length d % 256);
  hmac_sha256 = λ k d. replicate 32 (from_le (take 2 d) % 256);
  aes_encrypt = λ k d. d;
  aes_decrypt = λ k d. d;
  exchange = λ k u. some (replicate 32 7);
  sha512 = λ d. replicate 64 (length d % 256);
  ed25519_public = λ seed. take 32 seed;
  ed25519_sign = λ seed m. replicate 64 (from_le (take 2 m) % 256);
  ed25519_verify = λ key m sig. sig =b= replicate 64 (from_le (take 2 m) % 256);
}

pub toy-IsSound : IsSound toy
toy-IsSound = record {
  length_sha256 = λ d. refl;
  length_sha512 = λ d. refl;
  sha512-IsByte = λ d. All-replicate IsByte 64 (length d % 256) (omega arith);
  length_hmac = λ k d. refl;
  length_aes = λ k d. refl;
  aes_round_trip = λ k d hk hd. refl;
}

abbrev pub secret : Bytes
secret = replicate 32 5

abbrev pub three_hops : Packet
three_hops = record {
  route = transport_flood;
  kind = path;
  payload = 1 ∷ 2 ∷ 3 ∷ [];
  path = 10 ∷ 11 ∷ 12 ∷ 13 ∷ 14 ∷ 15 ∷ [];
  path_hash_size = 2;
  transport_codes = (0x1234, 0xffff);
  version = v1;
}

abbrev three_hops_raw : Bytes
three_hops_raw =
    0x20 ∷ 0x34 ∷ 0x12 ∷ 0xff ∷ 0xff ∷ 0x43 ∷ 10 ∷ 11 ∷ 12 ∷ 13 ∷ 14 ∷ 15 ∷ 1 ∷ 2 ∷ 3 ∷ []

three_hops_encoded : Packet.encode three_hops ≡ ok three_hops_raw
unfolding Packet.encode Packet.encode_codes
three_hops_encoded = refl

three_hops_decoded : Packet.decode three_hops_raw ≡ ok three_hops
unfolding Packet.decode Packet.decode_fields Packet.read_codes Packet.read_path Packet.read_payload
    Packet.read_kind Packet.make Packet.check Constants.route_type Constants.payload_type
    Constants.payload_version
three_hops_decoded = refl

decode-encode_example : (Packet.encode three_hops >>= Packet.decode) ≡ ok three_hops
decode-encode_example =
    Frame.decode-encode three_hops (omega arith)
      (record { first = omega arith; second = omega arith; absent = λ e. cc })

encode-decode_example : Packet.encode three_hops ≡ ok three_hops_raw
encode-decode_example =
    Canonical.encode-decode three_hops_raw three_hops (omega arith) three_hops_decoded

abbrev signed_post : TextMessage
signed_post = record {
  timestamp = 1700000000;
  kind = signed_plain;
  attempt = 2;
  text = 0 ∷ 1 ∷ 0 ∷ 2 ∷ b'h' ∷ b'i' ∷ [];
}

decode-received_example :
    ((((TextMessage.encode signed_post >>= Datagram.seal toy 7 9 secret) >>= Datagram.encode)
        >>= Envelope.received toy secret)
      >>= λ got. TextMessage.decode got.2)
    ≡ ok signed_post
decode-received_example =
    Message.decode-received toy toy-IsSound 7 9 secret signed_post (omega arith) (omega arith) refl
      (omega arith)

abbrev first_login : LoginRequest
first_login = record { timestamp = 1700000000; sync_since = 0; password = b'p' ∷ b'w' ∷ [] }

decode-encode_login_example :
    (LoginRequest.encode first_login >>= λ plaintext.
    LoginRequest.decode (plaintext ++ replicate 6 0))
    ≡ ok first_login
decode-encode_login_example =
    LoginRequest.decode-encode_login first_login 6 (omega arith) (omega arith) (omega arith)

abbrev anon : AnonRequest
anon = record { dest_hash = 200; sender_public_key = replicate 32 3; sealed = 1 ∷ 2 ∷ 3 ∷ [] }

decode-encode_anon_example : (AnonRequest.encode anon >>= AnonRequest.decode) ≡ ok anon
decode-encode_anon_example = AnonRequest.decode-encode_anon anon (omega arith) refl (omega arith)

abbrev way_back : PathReturn
way_back = record { path = 1 ∷ 2 ∷ 3 ∷ 4 ∷ []; path_hash_size = 2; extra_type = 1; extra = 9 ∷ [] }

decode-encode_path_example :
    (PathReturn.encode way_back >>= λ plaintext. PathReturn.decode (plaintext ++ (0 ∷ 0 ∷ [])))
    ≡ ok (record way_back { extra = 9 ∷ 0 ∷ 0 ∷ [] })
decode-encode_path_example = Return.decode-encode_path way_back (0 ∷ 0 ∷ []) (omega arith)

-- "aé€" takes six bytes; five hold only the first two code points.
abbrev accents : Text
accents = b'a' ∷ 0xe9 ∷ 0x20ac ∷ []

accents_cut : utf8_truncate accents 5 ≡ b'a' ∷ 0xc3 ∷ 0xa9 ∷ []
unfolding utf8_truncate
accents_cut = refl

accents-IsScalar : All IsScalar accents
accents-IsScalar = (inl (omega arith), (inl (omega arith), (inl (omega arith), tt)))

utf8_truncate_lem_example :
    (k : ℕ) × (utf8_truncate accents 5 ≡ utf8_encode (take k accents))
    × (length (utf8_truncate accents 5) ≤ 5)
    × ((j : ℕ) → j ≤ length accents → length (utf8_encode (take j accents)) ≤ 5 → j ≤ k)
utf8_truncate_lem_example = Truncate.utf8_truncate_lem accents 5 accents-IsScalar

decode-utf8_encode_example :
    (Codec.decode_strict (utf8_encode accents) ≡ some accents)
    × (Codec.decode_replace (utf8_encode accents) ≡ accents)
decode-utf8_encode_example = Codec.decode-utf8_encode accents accents-IsScalar

-- An overlong form and a cut sequence are replaced, part by part.
replaced :
    Codec.decode_replace (0xc0 ∷ 0xaf ∷ 0xe2 ∷ 0x82 ∷ b'a' ∷ [])
    ≡ 0xfffd ∷ 0xfffd ∷ 0xfffd ∷ b'a' ∷ []
unfolding Codec.decode_replace
replaced = refl

abbrev carrier : Packet
carrier = record {
  route = direct;
  kind = txt_msg;
  payload = 7 ∷ 9 ∷ 1 ∷ 1 ∷ 1 ∷ replicate 15 0;
  path = 4 ∷ 5 ∷ [];
  path_hash_size = 1;
  transport_codes = (0, 0);
  version = v1;
}

abbrev carrier_raw : Bytes
carrier_raw = 0x0a ∷ 2 ∷ 4 ∷ 5 ∷ carrier.payload

carrier_sealed : (Datagram.seal toy 7 9 secret (1 ∷ []) >>= Datagram.encode) ≡ ok carrier.payload
unfolding Datagram.seal Datagram.encode encrypt_then_mac aes_key mac
carrier_sealed = refl

carrier_encoded : Packet.encode carrier ≡ ok carrier_raw
unfolding Packet.encode Packet.encode_codes
carrier_encoded = refl

length-encode-le_iff_example :
    (length carrier_raw ≤ max_raw_tx_packet) ↔ (1 ≤ Datagram.max_plaintext_len 2)
length-encode-le_iff_example =
    Budget.length-encode-le_iff toy toy-IsSound 7 9 secret (1 ∷ []) carrier carrier_raw
      (omega arith) (omega arith) refl (omega arith) refl carrier_sealed carrier_encoded

abbrev two_words : Text
two_words = 0xe9 ∷ 0xe9 ∷ b' ' ∷ b'b' ∷ b'c' ∷ []

utf8_split-Splits_example :
    (chunks : List Bytes) × (Split.utf8_split two_words 5 ≡ ok chunks)
    × Chunks.Splits 5 two_words chunks
utf8_split-Splits_example = Chunks.utf8_split-Splits two_words 5 (omega arith) (
  inl (omega arith),
  (inl (omega arith), (inl (omega arith), (inl (omega arith), (inl (omega arith), tt)))),
)

clamp_scalar-bounds_example :
    (s : Bytes) × (Ed25519.clamp_scalar (replicate 32 0xff) ≡ ok s)
    × (length s ≡ 32)
    × (from_le s % 8 ≡ 0)
    × (2 ^ 254 ≤ from_le s)
    × (from_le s < 2 ^ 255)
clamp_scalar-bounds_example =
    Clamped.clamp_scalar-bounds (replicate 32 0xff) refl
      (All-replicate IsByte 32 0xff (omega arith))

abbrev announced : Advert.Advert
announced = record {
  public_key = replicate 32 7;
  timestamp = 1700000000;
  signature = replicate 64 9;
  appdata = 0x83 ∷ b'L' ∷ b'o' ∷ b'b' ∷ b'b' ∷ b'y' ∷ [];
}

decode-encode_advert_example : (Advert.encode announced >>= Advert.decode) ≡ ok announced
decode-encode_advert_example =
    Announced.decode-encode_advert announced refl (omega arith) refl (omega arith)
