-- ===== src/Proto/PathReturn.antt =====
-- `PathReturn` of proto/packet.py.
pub mod RoundTrip
use meshelle.Prelude.{
  Bytes, [], bit_or, drop, leb, length, shl, take, ℕ, ◌%◌, ◌&&◌, ◌*◌, ◌++◌, ◌-◌, ◌/◌, ◌==◌, ◌∷◌,
}
use meshelle.Proto.Error.{
  Result, bad_hash_size, byte_of, empty_path_return, err, guard, ok, ragged_path,
  reserved_hash_size, truncated_path, ◌>>=◌, ◌>>◌,
}
use meshelle.Proto.Constants.{path_hash_size_shift}
use meshelle.Proto.Packet.{hash_size_of, hops_of, max_path_hash_size}

pub record PathReturn : Type 0 where
  pub path : Bytes
  pub path_hash_size : ℕ
  pub extra_type : ℕ
  pub extra : Bytes

abbrev pub hop_count : PathReturn → ℕ
hop_count r = length r.path / r.path_hash_size

-- The constructor call, which runs `__post_init__`.
unfoldable pub make : PathReturn → Result PathReturn
make r = do
  guard (leb 1 r.path_hash_size && leb r.path_hash_size max_path_hash_size) bad_hash_size
  guard (length r.path % r.path_hash_size == 0) ragged_path
  ok r

abbrev pub packed : PathReturn → ℕ
packed r = bit_or (shl (r.path_hash_size - 1) path_hash_size_shift) (hop_count r)

unfoldable pub encode : PathReturn → Result Bytes
encode r = do l ← byte_of (packed r); e ← byte_of r.extra_type; ok (l ++ (r.path ++ (e ++ r.extra)))

-- `rest[0] if rest else 0xFF`, and `rest[1:]`.
abbrev pub extra_type_of : Bytes → ℕ
extra_type_of [] = 0xff
extra_type_of (x ∷ rest) = x

unfoldable pub decode : Bytes → Result PathReturn
unfolding make
decode [] = err empty_path_return
decode (b ∷ rest) = do
  guard (leb (hash_size_of b) max_path_hash_size) reserved_hash_size
  guard (leb (hops_of b * hash_size_of b) (length rest)) truncated_path
  let after = drop (hops_of b * hash_size_of b) rest
  make (record {
    path = take (hops_of b * hash_size_of b) rest;
    path_hash_size = hash_size_of b;
    extra_type = extra_type_of after;
    extra = drop 1 after;
  })
