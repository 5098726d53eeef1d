-- ===== src/Proto/Datagram/RoundTrip.antt =====
-- What a peer reads of a sealed datagram.
use meshelle.Prelude.{Bytes, IsByte, arith, length, lt→ltb, refl, suc, ℕ, ◌++◌, ◌<◌, ◌∷◌, ◌≡◌, ◌≤◌}
use meshelle.Proto.Error.{Result, ok, ◌>>=◌}
use meshelle.Proto.Crypto.{IsSound, Primitives, padded}
use meshelle.Proto.Crypto.Sealed.{
  ciphertext, encrypt_then_mac_lem, mac_then_decrypt_sealed, nonempty, tag,
}
use meshelle.Proto.Datagram.{Datagram, decode, encode, open_with, seal}

pub encode_lem :
    (d : Datagram)
    → IsByte d.dest_hash
    → IsByte d.src_hash
    → encode d ≡ ok (d.dest_hash ∷ d.src_hash ∷ d.sealed)
unfolding encode
encode_lem d hd hs = rw (lt→ltb _ _ hd, lt→ltb _ _ hs) refl

pub decode_lem :
    (x y : ℕ) (sealed : Bytes)
    → 2 < length sealed
    → decode (x ∷ y ∷ sealed) ≡ ok (record { dest_hash = x; src_hash = y; sealed = sealed })
unfolding decode
decode_lem x y sealed h = rw (lt→ltb 4 (suc (suc (length sealed))) (omega arith)) refl

-- What a peer reads of a datagram: the two hashes and, with the secret, the plaintext.
abbrev pub received : Primitives → Bytes → Bytes → Result (ℕ × ℕ × Bytes)
received c secret payload = do
  d ← decode payload
  plain ← open_with c secret d
  ok (d.dest_hash, d.src_hash, plain)

-- What is sealed for a peer opens at the peer, behind the two hashes it was sent with.
pub received-seal :
    (c : Primitives) (s : IsSound c) (dest src : ℕ) (secret plaintext : Bytes)
    → IsByte dest
    → IsByte src
    → length secret ≡ 32
    → 1 ≤ length plaintext
    → ((seal c dest src secret plaintext >>= encode) >>= received c secret)
      ≡ ok (dest, src, padded plaintext)
unfolding seal open_with
received-seal c s dest src secret plaintext hd hs full h =
    let sealed : Bytes = tag c s secret plaintext full ++ ciphertext c s secret plaintext full in
    let d : Datagram = record { dest_hash = dest; src_hash = src; sealed = sealed } in
    rw (encrypt_then_mac_lem c s secret plaintext full) (
      rw (encode_lem d hd hs) (
        rw (decode_lem dest src sealed (nonempty c s secret plaintext full h))
          (rw (mac_then_decrypt_sealed c s secret plaintext full h) refl)))
