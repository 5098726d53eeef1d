-- ===== src/Proto/Identity.antt =====
-- `LocalIdentity` and `verify_signature` of proto/identity.py. The key files are input and output.
use meshelle.Prelude.{
  Bool, Bytes, List, Option, [], get_or, if◌then◌else◌, length, none, some, ◌&&◌, ◌==◌, ◌=b=◌, ◌||◌,
  ◌∷◌,
}
use meshelle.Proto.Error.{Result, err, guard, identity_error, ok, out_of_fuel, ◌>>=◌, ◌>>◌}
use meshelle.Proto.Constants.{prv_key_size, pub_key_size, seed_size}
use meshelle.Proto.Crypto.{Primitives}
use meshelle.Proto.Ed25519
use meshelle.Proto.Crypto

pub record LocalIdentity : Type 0 where
  pub public_key : Bytes
  pub private_key : Bytes
  pub seed : Option Bytes

abbrev pub is_reserved_public_key : Bytes → Bool
is_reserved_public_key key = (get_or key 0 0 == 0x00) || (get_or key 0 0 == 0xff)

-- `except ValueError` around the calls of `ed25519_expanded` is not written: the sizes are checked.
module _ (c : Primitives) where
  unfoldable pub check_seed : LocalIdentity → Result (Unit {0})
  check_seed i = elim i.seed [
    | none ↦ ok tt
    | some seed ↦ do
      guard (length seed == seed_size) identity_error
      expanded ← Ed25519.expanded_from_seed c seed
      guard (expanded =b= i.private_key) identity_error
  ]

  -- The constructor call, which runs `__post_init__`.
  unfoldable pub make : LocalIdentity → Result LocalIdentity
  unfolding check_seed
  make i = do
    guard (length i.public_key == pub_key_size) identity_error
    guard (length i.private_key == prv_key_size) identity_error
    derived ← Ed25519.derive_public_key c i.private_key
    guard (derived =b= i.public_key) identity_error
    check_seed i
    ok i

  unfoldable pub from_seed : Bytes → Result LocalIdentity
  unfolding make
  from_seed seed = do
    guard (length seed == seed_size) identity_error
    expanded ← Ed25519.expanded_from_seed c seed
    make (record { public_key = c.ed25519_public seed; private_key = expanded; seed = some seed })

  unfoldable pub from_expanded : Bytes → Result LocalIdentity
  unfolding make
  from_expanded private_key = do
    guard (length private_key == prv_key_size) identity_error
    derived ← Ed25519.derive_public_key c private_key
    make (record { public_key = derived; private_key = private_key; seed = none })

  -- `generate`, over the random seeds that are drawn; it goes on where they end.
  unfoldable pub generate : List Bytes → Result LocalIdentity
  unfolding make
  generate [] = err out_of_fuel
  generate (seed ∷ seeds) =
      let more = generate seeds in
      if is_reserved_public_key (c.ed25519_public seed) then more else (do
        expanded ← Ed25519.expanded_from_seed c seed
        make (record {
          public_key = c.ed25519_public seed;
          private_key = expanded;
          seed = some seed;
        }))

  unfoldable pub sign : LocalIdentity → Bytes → Result Bytes
  sign i message = elim i.seed [
    | none ↦ Ed25519.sign c i.private_key i.public_key message
    | some seed ↦ ok (c.ed25519_sign seed message)
  ]

  unfoldable pub shared_secret : LocalIdentity → Bytes → Result Bytes
  shared_secret i peer = Crypto.shared_secret c i.private_key peer

  unfoldable pub verify_signature : Bytes → Bytes → Bytes → Bool
  verify_signature key message signature =
      (length key == pub_key_size)
      && (length signature == 64)
      && c.ed25519_verify key message signature
