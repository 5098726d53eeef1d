-- ===== src/Proto/Crypto.antt =====
-- proto/crypto.py over the primitives that it takes from `hashlib`, `hmac` and `cryptography`.
pub mod Sealed
use mathlib.Core.Option
use meshelle.Prelude.{
  All, Bool, Bytes, IsByte, Option, drop, from_le, if◌then◌else◌, le_bytes, leb, length, ltb, none,
  replicate, some, suc, take, zero, ℕ, ◌%◌, ◌*◌, ◌++◌, ◌+◌, ◌-◌, ◌/◌, ◌==◌, ◌=b=◌, ◌^◌, ◌||◌, ◌∷◌,
  ◌≡◌,
}
use meshelle.Proto.Error.{Result, decryption_error, err, guard, ok, value_error, ◌>>=◌, ◌>>◌}
use meshelle.Proto.Constants.{
  cipher_block_size, cipher_key_size, cipher_mac_size, max_hash_size, pub_key_size,
}

-- The primitives. `exchange` is none where OpenSSL refuses an all-zero secret. The three of Ed25519
-- take a seed, a seed and a message, and a public key, a message and a signature.
pub record Primitives : Type 0 where
  pub sha256 : Bytes → Bytes
  pub hmac_sha256 : Bytes → Bytes → Bytes
  pub aes_encrypt : Bytes → Bytes → Bytes
  pub aes_decrypt : Bytes → Bytes → Bytes
  pub exchange : Bytes → Bytes → Option Bytes
  pub sha512 : Bytes → Bytes
  pub ed25519_public : Bytes → Bytes
  pub ed25519_sign : Bytes → Bytes → Bytes
  pub ed25519_verify : Bytes → Bytes → Bytes → Bool

-- What is relied on: the digests' size, and that AES undoes itself on whole blocks.
pub record IsSound (c : Primitives) : Type 0 where
  pub length_sha256 : (d : Bytes) → length (c.sha256 d) ≡ 32
  pub length_sha512 : (d : Bytes) → length (c.sha512 d) ≡ 64
  pub sha512-IsByte : (d : Bytes) → All IsByte (c.sha512 d)
  pub length_hmac : (k d : Bytes) → length (c.hmac_sha256 k d) ≡ 32
  pub length_aes : (k d : Bytes) → length (c.aes_encrypt k d) ≡ length d
  pub aes_round_trip :
      (k d : Bytes)
      → length k ≡ cipher_key_size
      → length d % cipher_block_size ≡ 0
      → c.aes_decrypt k (c.aes_encrypt k d) ≡ d

-- `-len(plaintext) % CIPHER_BLOCK_SIZE`
abbrev pub padding : Bytes → ℕ
padding plaintext = (cipher_block_size - length plaintext % cipher_block_size) % cipher_block_size

abbrev pub padded : Bytes → Bytes
padded plaintext = plaintext ++ replicate (padding plaintext) 0

-- The Curve25519 field prime.
abbrev pub p25519 : ℕ
p25519 = 2 ^ 255 - 19

-- `pow(base, exponent, modulus)`, by squaring; `fuel` bounds the bits of the exponent.
unfoldable pub pow_mod : ℕ → ℕ → ℕ → ℕ → ℕ
pow_mod zero base exponent modulus = 1 % modulus
pow_mod (suc fuel) base exponent modulus =
    let rest = pow_mod fuel (base * base % modulus) (exponent / 2) modulus in
    if exponent == 0 then 1 % modulus else if exponent % 2 == 1 then base * rest % modulus else rest

unfoldable pub edwards_to_montgomery_u : Bytes → Result Bytes
unfolding pow_mod
edwards_to_montgomery_u key = do
  guard (length key == pub_key_size) value_error
  let y = from_le key % 2 ^ 255
  let numerator = (y + 1) % p25519
  let denominator = pow_mod 256 ((p25519 + 1 - y % p25519) % p25519) (p25519 - 2) p25519
  ok (le_bytes 32 (numerator * denominator % p25519))

module _ (c : Primitives) where
  unfoldable pub shared_secret : Bytes → Bytes → Result Bytes
  shared_secret private_key peer = do
    guard (length private_key == 32 || length private_key == 64) value_error
    u ← edwards_to_montgomery_u peer
    elim (c.exchange (take 32 private_key) u) [ none ↦ err decryption_error | some s ↦ ok s ]

  -- `_aes_ecb` raises on a short secret; the cipher's key is the secret's first half.
  unfoldable pub aes_key : Bytes → Result Bytes
  aes_key secret = do
    guard (leb cipher_key_size (length secret)) value_error
    ok (take cipher_key_size secret)

  unfoldable pub mac : Bytes → Bytes → Result Bytes
  mac secret ciphertext = do
    guard (length secret == pub_key_size) value_error
    ok (take cipher_mac_size (c.hmac_sha256 secret ciphertext))

  unfoldable pub encrypt_then_mac : Bytes → Bytes → Result Bytes
  encrypt_then_mac secret plaintext = do
    key ← aes_key secret
    let ciphertext = c.aes_encrypt key (padded plaintext)
    tag ← mac secret ciphertext
    ok (tag ++ ciphertext)

  unfoldable pub mac_then_decrypt : Bytes → Bytes → Result Bytes
  mac_then_decrypt secret payload = do
    guard (ltb cipher_mac_size (length payload)) decryption_error
    let ciphertext = drop cipher_mac_size payload
    guard (length ciphertext % cipher_block_size == 0) decryption_error
    tag ← mac secret ciphertext
    guard (take cipher_mac_size payload =b= tag) decryption_error
    key ← aes_key secret
    ok (c.aes_decrypt key ciphertext)

  unfoldable pub ack_hash : Bytes → Bytes → Bytes
  ack_hash message peer = take 4 (c.sha256 (message ++ peer))

  unfoldable pub packet_hash : ℕ → Bytes → Bytes
  packet_hash kind payload = take max_hash_size (c.sha256 (kind ∷ payload))
