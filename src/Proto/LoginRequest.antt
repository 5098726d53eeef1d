-- ===== src/Proto/LoginRequest.antt =====
-- `LoginRequest` of proto/packet.py.
use meshelle.Prelude.{
  Bytes, arith, drop, from_le, from_le-le_bytes_4, leb, length, lt→ltb, replicate, take, ℕ, ◌++◌,
  ◌<◌, ◌^◌, ◌≡◌,
}
use meshelle.Proto.Error.{Result, guard, ok, pack_u32, short_login, ◌>>=◌, ◌>>◌}
use meshelle.Proto.Plain.{NoNul, c_string, c_string-append_zeros}

pub record LoginRequest : Type 0 where
  pub timestamp : ℕ
  pub sync_since : ℕ
  pub password : Bytes

abbrev pub prefix_len : ℕ
prefix_len = 8

unfoldable pub encode : LoginRequest → Result Bytes
encode l = do
  stamp ← pack_u32 l.timestamp
  since ← pack_u32 l.sync_since
  ok (stamp ++ (since ++ l.password))

unfoldable pub decode : Bytes → Result LoginRequest
decode plaintext = do
  guard (leb prefix_len (length plaintext)) short_login
  ok (record {
    timestamp = from_le (take 4 plaintext);
    sync_since = from_le (take 4 (drop 4 plaintext));
    password = c_string (drop prefix_len plaintext);
  })

-- A login with a password free of NUL is read back, whatever zeros the cipher added.
pub decode-encode_login :
    (l : LoginRequest) (n : ℕ)
    → l.timestamp < 2 ^ 32
    → l.sync_since < 2 ^ 32
    → NoNul l.password
    → (encode l >>= λ plaintext. decode (plaintext ++ replicate n 0)) ≡ ok l
unfolding encode decode
decode-encode_login l n ht hs hp =
    rw (lt→ltb _ _ ht, lt→ltb _ _ hs)
      (rw
        (
          from_le-le_bytes_4 l.timestamp ht,
          from_le-le_bytes_4 l.sync_since hs,
          c_string-append_zeros l.password n hp,
        )
        (ground arith))
