-- ===== src/Proto/Packet/Valid.antt =====
-- The packets that the constructor of `Packet` in proto/packet.py accepts.
use meshelle.Prelude.{Bytes, [], arith, bit_and, length, shr, sym, ℕ, ◌%◌, ◌/◌, ◌∷◌, ◌≡◌, ◌≤◌}
use meshelle.Proto.Error.{>>=-eq-ok, ok}
use meshelle.Proto.Constants.{
  payload_version, ph_route_mask, ph_type_mask, ph_type_shift, ph_ver_mask, ph_ver_shift,
  route_type,
}
use meshelle.Proto.Packet.{
  Packet, check, decode, decode_fields, make, read_codes, read_kind, read_path, read_payload,
}
use mathlib.Core.Path.{subst}

-- What `__post_init__` accepts.
pub record IsValid (p : Packet) : Type 0 where
  pub size_pos : 1 ≤ p.path_hash_size
  pub size_le : p.path_hash_size ≤ 3
  pub whole : length p.path % p.path_hash_size ≡ 0
  pub path_le : length p.path ≤ 64
  pub hops_le : length p.path / p.path_hash_size ≤ 63
  pub payload_le : length p.payload ≤ 184
  pub payload_pos : 1 ≤ length p.payload

pub check-IsValid : (p : Packet) → IsValid p → check p ≡ ok tt
unfolding check
check-IsValid p v = ground arith

pub IsValid-check : (p : Packet) → check p ≡ ok tt → IsValid p
unfolding check
IsValid-check p h = record {
  size_pos = ground arith;
  size_le = ground arith;
  whole = ground arith;
  path_le = ground arith;
  hops_le = ground arith;
  payload_le = ground arith;
  payload_pos = ground arith;
}

-- Whatever the constructor returns is its argument, and valid.
pub make-IsValid : (p q : Packet) → make p ≡ ok q → (p ≡ q) × IsValid q
unfolding make
make-IsValid p q h =
    let (u, checked, e) = >>=-eq-ok (check p) (λ _. ok p) h in
    let same : p ≡ q = cc in (same, rw (← same) (IsValid-check p checked))

-- What the parts of `decode_fields` returned, when the whole returned `p`.
pub record Parsed (h : ℕ) (rest : Bytes) (p : Packet) : Type 0 where
  pub after_codes : Bytes
  pub after_path : Bytes
  pub route : route_type (bit_and h ph_route_mask) ≡ ok p.route
  pub kind : read_kind (bit_and (shr h ph_type_shift) ph_type_mask) ≡ ok p.kind
  pub version : payload_version (bit_and (shr h ph_ver_shift) ph_ver_mask) ≡ ok p.version
  pub codes : read_codes p.route rest ≡ ok (p.transport_codes.0, p.transport_codes.1, after_codes)
  pub path : read_path after_codes ≡ ok (p.path_hash_size, p.path, after_path)
  pub payload : read_payload after_path ≡ ok p.payload
  pub valid : IsValid p

pub decode_fields-Parsed :
    (h : ℕ) (rest : Bytes) (p : Packet) → decode_fields h rest ≡ ok p → Parsed h rest p
unfolding decode_fields
decode_fields-Parsed h rest p e =
    let (route, e1, f1) = >>=-eq-ok (route_type (bit_and h ph_route_mask)) _ e in
    let (kind, e2, f2) = >>=-eq-ok (read_kind (bit_and (shr h ph_type_shift) ph_type_mask)) _ f1 in
    let (version, e3, f3) =
      >>=-eq-ok (payload_version (bit_and (shr h ph_ver_shift) ph_ver_mask)) _ f2 in
    let (codes, e4, f4) = >>=-eq-ok (read_codes route rest) _ f3 in
    let (paths, e5, f5) = >>=-eq-ok (read_path codes.2) _ f4 in
    let (body, e6, f6) = >>=-eq-ok (read_payload paths.2) _ f5 in
    let (same, v) = make-IsValid _ p f6 in
    subst (Parsed h rest) same (record {
      after_codes = codes.2;
      after_path = paths.2;
      route = e1;
      kind = e2;
      version = e3;
      codes = e4;
      path = e5;
      payload = e6;
      valid = subst IsValid (sym same) v;
    })

-- `decode` returns no packet that the constructor would refuse.
pub decode-IsValid : (raw : Bytes) (p : Packet) → decode raw ≡ ok p → IsValid p
unfolding decode
decode-IsValid [] p e = cc
decode-IsValid (h ∷ []) p e = cc
decode-IsValid (h ∷ b ∷ rest) p e = (decode_fields-Parsed h (b ∷ rest) p e).valid
