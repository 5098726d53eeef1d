-- ===== src/Proto/Crypto/Sealed.antt =====
-- Opening of what `encrypt_then_mac` of proto/crypto.py seals.
use meshelle.Prelude.{
  =b=_refl, Bytes, ap, arith, drop-append, length, length-append, length-replicate, length-take,
  le→leb, lt→ltb, refl, replicate, sym, take, take-append, ℕ, ◌%◌, ◌++◌, ◌+◌, ◌<◌, ◌≡◌, ◌≤◌,
}
use meshelle.Proto.Error.{ok, ◌>>=◌}
use meshelle.Proto.Crypto.{
  IsSound, Primitives, aes_key, encrypt_then_mac, mac, mac_then_decrypt, padded, padding,
}

pub length-padded : (plaintext : Bytes) → length (padded plaintext) % 16 ≡ 0
length-padded plaintext = omega (
  arith,
  length-append plaintext (replicate (padding plaintext) 0),
  length-replicate {A = ℕ} (padding plaintext) 0,
)

module _ (c : Primitives) (s : IsSound c) (secret plaintext : Bytes)
    (full : length secret ≡ 32) where
  abbrev pub ciphertext : Bytes
  ciphertext = c.aes_encrypt (take 16 secret) (padded plaintext)

  abbrev pub tag : Bytes
  tag = take 2 (c.hmac_sha256 secret ciphertext)

  length-tag : length tag ≡ 2
  length-tag =
      omega
        (arith, length-take 2 (c.hmac_sha256 secret ciphertext), s.length_hmac secret ciphertext)

  aes_key_lem : aes_key c secret ≡ ok (take 16 secret)
  unfolding aes_key
  aes_key_lem = rw (le→leb 16 (length secret) (omega arith)) refl

  mac_lem : mac c secret ciphertext ≡ ok tag
  unfolding mac
  mac_lem = rw full refl

  -- A secret of 32 bytes seals every plaintext.
  pub encrypt_then_mac_lem : encrypt_then_mac c secret plaintext ≡ ok (tag ++ ciphertext)
  unfolding encrypt_then_mac
  encrypt_then_mac_lem = rw (aes_key_lem, mac_lem) refl

  pub length-ciphertext : length ciphertext ≡ length plaintext + padding plaintext
  length-ciphertext = omega (
    arith,
    s.length_aes (take 16 secret) (padded plaintext),
    length-append plaintext (replicate (padding plaintext) 0),
    length-replicate {A = ℕ} (padding plaintext) 0,
  )

  pub length-sealed : length (tag ++ ciphertext) ≡ 2 + (length plaintext + padding plaintext)
  length-sealed = omega (arith, length-append tag ciphertext, length-tag, length-ciphertext)

  whole_blocks : length ciphertext % 16 ≡ 0
  whole_blocks = rw (s.length_aes (take 16 secret) (padded plaintext)) (length-padded plaintext)

  opened : c.aes_decrypt (take 16 secret) ciphertext ≡ padded plaintext
  opened =
      s.aes_round_trip (take 16 secret) (padded plaintext) (omega (arith, length-take 16 secret))
        (length-padded plaintext)

  pub nonempty : 1 ≤ length plaintext → 2 < length (tag ++ ciphertext)
  nonempty h = omega (arith, length-sealed)

  pub mac_then_decrypt_sealed :
      1 ≤ length plaintext → mac_then_decrypt c secret (tag ++ ciphertext) ≡ ok (padded plaintext)
  unfolding mac_then_decrypt
  mac_then_decrypt_sealed h =
      rw
        (
          drop-append 2 tag ciphertext (sym length-tag),
          take-append 2 tag ciphertext (sym length-tag),
          lt→ltb _ _ (nonempty h),
        )
        (rw (whole_blocks, mac_lem) (rw (=b=_refl tag, aes_key_lem) (ap ok opened)))

  -- What is sealed with a secret opens with it, as the plaintext padded with zeros to a block.
  pub mac_then_decrypt-encrypt_then_mac :
      1 ≤ length plaintext
      → (encrypt_then_mac c secret plaintext >>= mac_then_decrypt c secret) ≡ ok (padded plaintext)
  mac_then_decrypt-encrypt_then_mac h = rw encrypt_then_mac_lem (mac_then_decrypt_sealed h)
