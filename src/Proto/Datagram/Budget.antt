-- ===== src/Proto/Datagram/Budget.antt =====
-- `max_plaintext_len` of proto/packet.py and the companion's frame buffer.
use meshelle.Prelude.{
  Bytes, IsByte, [], arith, false, length, length-append, refl, ℕ, ◌++◌, ◌+◌, ◌↔◌, ◌∷◌, ◌≡◌, ◌≤◌,
}
use meshelle.Proto.Error.{ok, ◌>>=◌}
use meshelle.Proto.Constants.{has_transport_codes, max_raw_tx_packet}
use meshelle.Proto.Packet.{Packet}
use meshelle.Proto.Packet.Valid.{IsValid}
use meshelle.Proto.Crypto.{IsSound, Primitives, padding}
use meshelle.Proto.Crypto.Sealed.{ciphertext, encrypt_then_mac_lem, length-sealed, tag}
use meshelle.Proto.Datagram.{encode, max_plaintext_len, seal}
use meshelle.Proto.Packet
use meshelle.Proto.Packet.RoundTrip as Frame
use meshelle.Proto.Datagram.RoundTrip

-- The frame of a route without transport codes has two bytes beside path and payload.
pub length-encode :
    (p : Packet) (raw : Bytes)
    → IsValid p
    → has_transport_codes p.route ≡ false
    → Packet.encode p ≡ ok raw
    → length raw ≡ 2 + length p.path + length p.payload
unfolding Packet.encode_codes
length-encode p raw v lacks e =
    let frame : Packet.encode p
        ≡ ok (Packet.header p ∷ Packet.path_length_byte p ∷ (p.path ++ p.payload)) =
      Frame.encode_lem p [] v (rw lacks refl) in
    let same : raw ≡ Packet.header p ∷ Packet.path_length_byte p ∷ (p.path ++ p.payload) = cc in
    rw same (omega (arith, length-append p.path p.payload))

-- The payload of a datagram: two hashes, the MAC, and the plaintext in whole blocks.
pub length-seal :
    (c : Primitives) (s : IsSound c) (dest src : ℕ) (secret plaintext payload : Bytes)
    → IsByte dest
    → IsByte src
    → length secret ≡ 32
    → (seal c dest src secret plaintext >>= encode) ≡ ok payload
    → length payload ≡ 4 + (length plaintext + padding plaintext)
unfolding seal
length-seal c s dest src secret plaintext payload hd hs full e =
    let sealed : Bytes = tag c s secret plaintext full ++ ciphertext c s secret plaintext full in
    let written : (seal c dest src secret plaintext >>= encode) ≡ ok (dest ∷ src ∷ sealed) =
      rw (encrypt_then_mac_lem c s secret plaintext full) (RoundTrip.encode_lem _ hd hs) in
    let same : payload ≡ dest ∷ src ∷ sealed = cc in
    rw same (omega (arith, length-sealed c s secret plaintext full))

-- The packet that carries a sealed plaintext to a client fits the companion's frame buffer exactly
-- when the plaintext is no longer than `max_plaintext_len` of the path's length.
pub length-encode-le_iff :
    (c : Primitives) (s : IsSound c) (dest src : ℕ) (secret plaintext : Bytes) (p : Packet)
    (raw : Bytes)
    → IsByte dest
    → IsByte src
    → length secret ≡ 32
    → IsValid p
    → has_transport_codes p.route ≡ false
    → (seal c dest src secret plaintext >>= encode) ≡ ok p.payload
    → Packet.encode p ≡ ok raw
    → (length raw ≤ max_raw_tx_packet) ↔ (length plaintext ≤ max_plaintext_len (length p.path))
unfolding max_plaintext_len
length-encode-le_iff c s dest src secret plaintext p raw hd hs full v lacks sealed e =
    let size = length-encode p raw v lacks e in
    let body = length-seal c s dest src secret plaintext p.payload hd hs full sealed in
    (λ h. ground (arith, size, body, v.path_le), λ h. ground (arith, size, body, v.path_le))
