-- ===== src/Proto/Ed25519.antt =====
-- proto/ed25519_expanded.py: signing with a MeshCore private key. Numbers are residues modulo the
-- field's prime.
pub mod Clamped
use meshelle.Prelude.{
  Bytes, [], bit_and, bit_or, drop, from_le, get_or, if◌then◌else◌, le_bytes, length, suc, take,
  zero, ℕ, ◌%◌, ◌*◌, ◌++◌, ◌+◌, ◌-◌, ◌/◌, ◌==◌, ◌^◌, ◌∷◌,
}
use meshelle.Proto.Error.{Result, guard, ok, value_error, ◌>>=◌, ◌>>◌}
use meshelle.Proto.Constants.{prv_key_size, pub_key_size, seed_size}
use meshelle.Proto.Crypto.{Primitives, p25519, pow_mod}

-- The order of the base point.
abbrev pub order : ℕ
order = 2 ^ 252 + 27742317777372353535851937790883648493

-- `(a - b) % P`
abbrev pub sub_mod : ℕ → ℕ → ℕ
sub_mod a b = (a + p25519 - b % p25519) % p25519

-- `pow(z, P - 2, P)`
unfoldable pub inverse : ℕ → ℕ
unfolding pow_mod
inverse z = pow_mod 256 (z % p25519) (p25519 - 2) p25519

-- `_D`
unfoldable pub curve_d : ℕ
unfolding inverse
curve_d = sub_mod 0 (121665 * inverse 121666)

-- Extended coordinates.
pub record Point : Type 0 where
  pub x : ℕ
  pub y : ℕ
  pub z : ℕ
  pub t : ℕ

abbrev pub identity_point : Point
identity_point = record { x = 0; y = 1; z = 1; t = 0 }

-- `x if (x * x - xx) % P == 0 else x * pow(2, (P - 1) // 4, P) % P`
abbrev pub root_of : ℕ → ℕ → ℕ
root_of xx x =
    if sub_mod (x * x) xx == 0 then x else x * pow_mod 256 2 ((p25519 - 1) / 4) p25519 % p25519

abbrev pub even_root : ℕ → ℕ
even_root x = if x % 2 == 0 then x else p25519 - x

unfoldable pub recover_x : ℕ → ℕ
unfolding inverse curve_d pow_mod
recover_x y =
    let xx = sub_mod (y * y) 1 * inverse (curve_d * y * y + 1) % p25519 in
    even_root (root_of xx (pow_mod 256 xx ((p25519 + 3) / 8) p25519))

unfoldable pub base_y : ℕ
unfolding inverse
base_y = 4 * inverse 5 % p25519

unfoldable pub base : Point
unfolding recover_x base_y
base = record { x = recover_x base_y; y = base_y; z = 1; t = recover_x base_y * base_y % p25519 }

-- `_add`
unfoldable pub add : Point → Point → Point
unfolding curve_d
add p q =
    let a = sub_mod p.y p.x * sub_mod q.y q.x % p25519 in
    let b = (p.y + p.x) * (q.y + q.x) % p25519 in
    let c = p.t * 2 * curve_d * q.t % p25519 in
    let d = p.z * 2 * q.z % p25519 in
    let e = sub_mod b a in
    let f = sub_mod d c in
    let g = (d + c) % p25519 in
    let h = (b + a) % p25519 in
    record { x = e * f % p25519; y = g * h % p25519; z = f * g % p25519; t = e * h % p25519 }

-- The loop of `_scalar_mult`; `fuel` bounds the bits of the scalar.
unfoldable pub double_and_add : ℕ → ℕ → Point → Point → Point
unfolding add
double_and_add zero scalar point result = result
double_and_add (suc fuel) scalar point result =
    let rest =
      double_and_add fuel (scalar / 2) (add point point)
        (if scalar % 2 == 1 then add result point else result) in
    if scalar == 0 then result else rest

unfoldable pub scalar_mult : ℕ → Point → Point
unfolding double_and_add
scalar_mult scalar point = double_and_add 256 scalar point identity_point

-- `_encode`
unfoldable pub encode_point : Point → Bytes
unfolding inverse
encode_point p =
    let z_inv = inverse p.z in
    let x = p.x * z_inv % p25519 in
    let y = p.y * z_inv % p25519 in le_bytes 32 (y + x % 2 * 2 ^ 255)

-- The first byte and the last one of 32, clamped.
abbrev pub clamp_first : ℕ → ℕ
clamp_first b = bit_and b 248

abbrev pub clamp_last : ℕ → ℕ
clamp_last b = bit_or (bit_and b 63) 64

unfoldable pub clamp_scalar : Bytes → Result Bytes
clamp_scalar raw = do
  guard (length raw == 32) value_error
  ok (clamp_first (get_or raw 0 0) ∷ (take 30 (drop 1 raw) ++ clamp_last (get_or raw 31 0) ∷ []))

module _ (c : Primitives) where
  unfoldable pub expanded_from_seed : Bytes → Result Bytes
  expanded_from_seed seed = do
    guard (length seed == seed_size) value_error
    scalar ← clamp_scalar (take 32 (c.sha512 seed))
    ok (scalar ++ drop 32 (c.sha512 seed))

  unfoldable pub derive_public_key : Bytes → Result Bytes
  derive_public_key private_key = do
    guard (length private_key == prv_key_size) value_error
    scalar ← clamp_scalar (take 32 private_key)
    ok (encode_point (scalar_mult (from_le scalar) base))

  unfoldable pub sign : Bytes → Bytes → Bytes → Result Bytes
  sign private_key public_key message = do
    guard (length private_key == prv_key_size) value_error
    guard (length public_key == pub_key_size) value_error
    scalar ← clamp_scalar (take 32 private_key)
    let prefix = drop 32 private_key
    let r = from_le (c.sha512 (prefix ++ message)) % order
    let big_r = encode_point (scalar_mult r base)
    let k = from_le (c.sha512 (big_r ++ public_key ++ message)) % order
    ok (big_r ++ le_bytes 32 ((r + k * from_le scalar) % order))
