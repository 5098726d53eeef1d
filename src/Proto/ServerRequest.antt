-- ===== src/Proto/ServerRequest.antt =====
-- `ServerRequest` of proto/packet.py.
use meshelle.Prelude.{
  Bytes, IsByte, arith, drop, from_le, from_le-le_bytes_4, get_or, leb, length, ltb, lt→ltb, take,
  ℕ, ◌++◌, ◌<◌, ◌^◌, ◌∷◌, ◌≡◌,
}
use meshelle.Proto.Error.{Result, guard, ok, pack_u32, short_request, struct_error, ◌>>=◌, ◌>>◌}

pub record ServerRequest : Type 0 where
  pub timestamp : ℕ
  pub req_type : ℕ
  pub body : Bytes

abbrev pub prefix_len : ℕ
prefix_len = 5

-- `struct.pack("<IB", timestamp, req_type) + data`
unfoldable pub encode : ServerRequest → Result Bytes
encode r = do
  stamp ← pack_u32 r.timestamp
  guard (ltb r.req_type 256) struct_error
  ok (stamp ++ (r.req_type ∷ r.body))

unfoldable pub decode : Bytes → Result ServerRequest
decode plaintext = do
  guard (leb prefix_len (length plaintext)) short_request
  ok (record {
    timestamp = from_le (take 4 plaintext);
    req_type = get_or plaintext 4 0;
    body = drop prefix_len plaintext;
  })

-- A request is read back, with the cipher's padding behind its data.
pub decode-encode_request :
    (r : ServerRequest) (pad : Bytes)
    → r.timestamp < 2 ^ 32
    → IsByte r.req_type
    → (encode r >>= λ plaintext. decode (plaintext ++ pad)) ≡ ok (record r { body = r.body ++ pad })
unfolding encode decode
decode-encode_request r pad ht hr =
    rw (lt→ltb _ _ ht, lt→ltb _ _ hr) (rw (from_le-le_bytes_4 r.timestamp ht) (ground arith))
