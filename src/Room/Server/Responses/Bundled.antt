-- ===== src/Room/Server/Responses/Bundled.antt =====
-- What a client reads of the answer to a flooded request.
use meshelle.Prelude.{
  Bool-cases, Bytes, IsByte, [], ap, arith, get_or, inl, inr, length, length-append, le→leb, ltb,
  refl, replicate, suc, sym, true, zero, ℕ, ◌%◌, ◌++◌, ◌+◌, ◌/◌, ◌∙◌, ◌∷◌, ◌≡◌, ◌≤◌,
}
use meshelle.Proto.Error.{>>=-eq-ok, Result, byte_of, err, ok, value_error, ◌>>=◌}
use meshelle.Proto.Constants.{flood, is_flood, path, payload_code, response, v1}
use meshelle.Proto.Crypto.{IsSound, Primitives, padding}
use meshelle.Proto.Packet.{Packet}
use meshelle.Proto.Packet.Valid.{IsValid, check-IsValid}
use meshelle.Proto.PathReturn.{PathReturn}
use meshelle.Proto.Crypto.Sealed.{ciphertext, encrypt_then_mac_lem, length-sealed, tag}
use meshelle.Proto.Datagram.RoundTrip.{encode_lem, received, received-seal}
use meshelle.Room.Session.{ClientSession}
use meshelle.Room.Server.{Server, node_hash}
use meshelle.Room.Server.Responses.{flood_response, response_packet, sealed_for}
use meshelle.Proto.PathReturn.RoundTrip.{IsPackable, decode-encode_path}
use meshelle.Proto.Datagram
use meshelle.Proto.Packet
use meshelle.Proto.PathReturn

-- What a client makes of a path return's payload: it opens it and decodes the plaintext.
abbrev pub read_bundle : Primitives → Bytes → Bytes → Result PathReturn
read_bundle c secret payload = do
  (dest, src, opened) ← received c secret payload
  PathReturn.decode opened

no_hops : (size : ℕ) → 1 ≤ size → size ≤ 3 → (0 % size ≡ 0) × (0 / size ≤ 63)
no_hops zero low high = absurd (omega arith)
no_hops (suc zero) low high = (refl, omega arith)
no_hops (suc (suc zero)) low high = (refl, omega arith)
no_hops (suc (suc (suc zero))) low high = (refl, omega arith)
no_hops (suc (suc (suc (suc n)))) low high = absurd (omega arith)

length-byte_of : (n : ℕ) (bytes : Bytes) → byte_of n ≡ ok bytes → length bytes ≡ 1
length-byte_of n bytes h = elim (Bool-cases (ltb n 256)) [
  | inl fits ↦
      let known : byte_of n ≡ ok (n ∷ []) = rw fits refl in
      ap {B = ℕ} (λ r. elim r [ ok b ↦ length b | err _ ↦ 1 ]) (sym h ∙ known)
  | inr wide ↦
      let known : byte_of n ≡ err value_error = rw wide refl in
      ap {B = ℕ} (λ r. elim r [ ok b ↦ length b | err _ ↦ 1 ]) (sym h ∙ known)
]

length-encode :
    (r : PathReturn) (plaintext : Bytes)
    → PathReturn.encode r ≡ ok plaintext
    → length plaintext ≡ 2 + (length r.path + length r.extra)
unfolding PathReturn.encode
length-encode r plaintext h =
    let (l, el, h1) = >>=-eq-ok (byte_of (PathReturn.packed r)) _ h in
    let (e, ee, h2) = >>=-eq-ok (byte_of r.extra_type) _ h1 in
    let same = ap {B = ℕ} (λ x. elim x [ ok b ↦ length b | err _ ↦ 0 ]) h2 in
    omega (
      arith,
      same,
      length-byte_of _ l el,
      length-byte_of _ e ee,
      length-append l (r.path ++ (e ++ r.extra)),
      length-append r.path (e ++ r.extra),
      length-append e r.extra,
    )

decoded-nonempty :
    (plaintext : Bytes) (r : PathReturn)
    → PathReturn.decode (plaintext ++ []) ≡ ok r
    → 1 ≤ length plaintext
unfolding PathReturn.decode
decoded-nonempty [] r h = cc
decoded-nonempty (b ∷ plaintext) r h = omega arith

module _ (c : Primitives) (sound : IsSound c) (sv : Server) (s : ClientSession) (request : Packet)
    (payload : Bytes) where
  abbrev pub bundle : PathReturn
  bundle = record {
    path = request.path;
    path_hash_size = request.path_hash_size;
    extra_type = payload_code response;
    extra = payload;
  }

  bundle-IsPackable : IsValid request → IsPackable bundle
  bundle-IsPackable valid = record {
    size_pos = valid.size_pos;
    size_le = valid.size_le;
    whole = valid.whole;
    hops_le = valid.hops_le;
    extra_byte = omega arith;
  }

  make-bundle : IsValid request → PathReturn.make bundle ≡ ok bundle
  unfolding PathReturn.make
  make-bundle valid = rw (le→leb _ _ valid.size_pos, le→leb _ _ valid.size_le, valid.whole) refl

  read_bundle-sealed_for :
      IsValid request
      → length s.shared_secret ≡ 32
      → IsByte (get_or s.public_key 0 0)
      → IsByte (node_hash sv)
      → (plaintext : Bytes) × (sealed : Bytes) × (PathReturn.encode bundle ≡ ok plaintext)
        × (sealed_for c sv s plaintext ≡ ok sealed)
        × (1 ≤ length plaintext)
        × (read_bundle c s.shared_secret sealed
            ≡ ok (record bundle { extra = payload ++ replicate (padding plaintext) 0 }))
  unfolding sealed_for
  read_bundle-sealed_for valid full dest src =
      let packable = bundle-IsPackable valid in
      let (plaintext, encoded, unpadded) =
        >>=-eq-ok (PathReturn.encode bundle) (λ p. PathReturn.decode (p ++ []))
          (decode-encode_path bundle [] packable) in
      let zeros = replicate (padding plaintext) 0 in
      let decoded =
        sym (ap (λ m. m >>= λ p. PathReturn.decode (p ++ zeros)) encoded)
        ∙ decode-encode_path bundle zeros packable in
      let (sealed, made, opened) =
        >>=-eq-ok (sealed_for c sv s plaintext) (received c s.shared_secret) (
          received-seal c sound (get_or s.public_key 0 0) (node_hash sv) s.shared_secret plaintext
            dest src full (decoded-nonempty plaintext _ unpadded)) in
      (plaintext, sealed, encoded, made, decoded-nonempty plaintext _ unpadded, rw opened decoded)

  length-sealed_for :
      (plaintext sealed : Bytes)
      → length s.shared_secret ≡ 32
      → IsByte (get_or s.public_key 0 0)
      → IsByte (node_hash sv)
      → sealed_for c sv s plaintext ≡ ok sealed
      → length sealed ≡ 4 + (length plaintext + padding plaintext)
  unfolding sealed_for Datagram.seal
  length-sealed_for plaintext sealed full dest src made =
      let body : Bytes =
        tag c sound s.shared_secret plaintext full
        ++ ciphertext c sound s.shared_secret plaintext full in
      let d : Datagram.Datagram = record {
        dest_hash = get_or s.public_key 0 0;
        src_hash = node_hash sv;
        sealed = body;
      } in
      let known : sealed_for c sv s plaintext ≡ ok (get_or s.public_key 0 0 ∷ node_hash sv ∷ body) =
        rw (encrypt_then_mac_lem c sound s.shared_secret plaintext full) (encode_lem d dest src) in
      let same = ap {B = ℕ} (λ r. elim r [ ok b ↦ length b | err _ ↦ 0 ]) (sym made ∙ known) in
      omega (arith, same, length-sealed c sound s.shared_secret plaintext full)

  -- The answer to a valid flooded request is a flooded path return that the client can read: it
  -- carries the request's path, and behind the response's type the payload, up to the cipher's
  -- padding. The client's secret has 32 bytes, the keys are of bytes, and the path and the payload
  -- fit one packet together.
  pub response_packet-flood :
      IsValid request
      → is_flood request.route ≡ true
      → length s.shared_secret ≡ 32
      → IsByte (get_or s.public_key 0 0)
      → IsByte (node_hash sv)
      → length request.path + length payload ≤ 174
      → (p : Packet) × (n : ℕ) × (response_packet c sv s request payload ≡ ok p)
        × (p.route ≡ flood)
        × (p.kind ≡ path)
        × (read_bundle c s.shared_secret p.payload
            ≡ ok (record bundle { extra = payload ++ replicate n 0 }))
  unfolding response_packet flood_response Packet.make
  response_packet-flood valid flooded full dest src fits =
      let (plaintext, sealed, encoded, made, some_bytes, readable) =
        read_bundle-sealed_for valid full dest src in
      let size = length-sealed_for plaintext sealed full dest src made in
      let p : Packet = record {
        route = flood;
        kind = path;
        payload = sealed;
        path = [];
        path_hash_size = request.path_hash_size;
        transport_codes = (0, 0);
        version = v1;
      } in
      let plain_size = length-encode bundle plaintext encoded in
      let no_path = no_hops request.path_hash_size valid.size_pos valid.size_le in
      let accepted : Packet.check p ≡ ok tt = check-IsValid p (record {
        size_pos = valid.size_pos;
        size_le = valid.size_le;
        whole = no_path.0;
        path_le = omega arith;
        hops_le = no_path.1;
        payload_le = omega (arith, size, plain_size, fits);
        payload_pos = omega (arith, size);
      }) in
      (
        p,
        padding plaintext,
        rw (flooded, make-bundle valid, encoded, made, accepted) refl,
        refl,
        refl,
        readable,
      )
