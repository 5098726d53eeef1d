-- ===== src/Proto/AnonRequest.antt =====
-- `AnonRequest` of proto/packet.py.
use meshelle.Prelude.{
  Bytes, IsByte, arith, drop, drop-append, get_or, length, length-append, length-drop, ltb, lt→ltb,
  refl, suc, sym, take, take-append, ℕ, ◌++◌, ◌+◌, ◌<◌, ◌==◌, ◌∷◌, ◌≡◌,
}
use meshelle.Proto.Error.{
  Result, bad_public_key, byte_of, guard, ok, short_anon_request, ◌>>=◌, ◌>>◌,
}
use meshelle.Proto.Constants.{cipher_mac_size, pub_key_size}
use meshelle.Proto.Crypto.{Primitives, mac_then_decrypt}

abbrev pub header_len : ℕ
header_len = 1 + pub_key_size

pub record AnonRequest : Type 0 where
  pub dest_hash : ℕ
  pub sender_public_key : Bytes
  pub sealed : Bytes

unfoldable pub make : AnonRequest → Result AnonRequest
make a = do guard (length a.sender_public_key == pub_key_size) bad_public_key; ok a

unfoldable pub encode : AnonRequest → Result Bytes
encode a = do dest ← byte_of a.dest_hash; ok (dest ++ (a.sender_public_key ++ a.sealed))

unfoldable pub decode : Bytes → Result AnonRequest
unfolding make
decode payload = do
  guard (ltb (header_len + cipher_mac_size) (length payload)) short_anon_request
  make (record {
    dest_hash = get_or payload 0 0;
    sender_public_key = take pub_key_size (drop 1 payload);
    sealed = drop header_len payload;
  })

unfoldable pub open_with : Primitives → Bytes → AnonRequest → Result Bytes
open_with c secret a = mac_then_decrypt c secret a.sealed

drop_33 :
    (x : ℕ) (key sealed : Bytes) → length key ≡ 32 → drop header_len (x ∷ (key ++ sealed)) ≡ sealed
drop_33 x key sealed h = drop-append 32 key sealed (sym h)

-- An anonymous request comes back from its payload, the sender's key included.
pub decode-encode_anon :
    (a : AnonRequest)
    → IsByte a.dest_hash
    → length a.sender_public_key ≡ pub_key_size
    → cipher_mac_size < length a.sealed
    → (encode a >>= decode) ≡ ok a
unfolding encode decode
decode-encode_anon a hd hk hs =
    let size = length-append a.sender_public_key a.sealed in
    rw (lt→ltb _ _ hd) (
      rw
        (
          lt→ltb 35 (suc (length (a.sender_public_key ++ a.sealed))) (omega arith),
          take-append 32 a.sender_public_key a.sealed (sym hk),
          drop-append 32 a.sender_public_key a.sealed (sym hk),
          hk,
        )
        refl)

-- Whatever the payload, a decoded request carries a whole public key and more than a MAC.
pub decode-sizes :
    (payload : Bytes) (a : AnonRequest)
    → decode payload ≡ ok a
    → (length a.sender_public_key ≡ pub_key_size) × (cipher_mac_size < length a.sealed)
unfolding decode
decode-sizes payload a e = ground (arith, length-drop 33 payload)
