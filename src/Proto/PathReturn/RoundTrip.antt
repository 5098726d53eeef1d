-- ===== src/Proto/PathReturn/RoundTrip.antt =====
-- Decoding of what `PathReturn` of proto/packet.py encodes.
use meshelle.Prelude.{
  Bytes, IsByte, append_assoc, arith, bit_and_03, bit_and_3f, bit_or, bit_or_path_length,
  drop-append, length, length-append, le→leb, lt→ltb, refl, take-append, ℕ, ◌%◌, ◌*◌, ◌++◌, ◌+◌,
  ◌-◌, ◌/◌, ◌<◌, ◌∷◌, ◌≡◌, ◌≤◌,
}
use meshelle.Proto.Error.{ok, ◌>>=◌}
use meshelle.Proto.PathReturn.{PathReturn, decode, encode, hop_count}
use meshelle.Proto.Packet.{hash_size_of, hops_of}
use meshelle.Proto.Packet.RoundTrip.{hops_times_size}

pub record IsPackable (r : PathReturn) : Type 0 where
  pub size_pos : 1 ≤ r.path_hash_size
  pub size_le : r.path_hash_size ≤ 3
  pub whole : length r.path % r.path_hash_size ≡ 0
  pub hops_le : hop_count r ≤ 63
  pub extra_byte : IsByte r.extra_type

-- The packed byte, and the two fields that are read from it.
packed_sum :
    (s n : ℕ)
    → 1 ≤ s
    → s ≤ 3
    → n ≤ 63
    → (bit_or ((s - 1) * 64) n < 256)
      × (hash_size_of (bit_or ((s - 1) * 64) n) ≡ s)
      × (hops_of (bit_or ((s - 1) * 64) n) ≡ n)
packed_sum s n hs hs' hn =
    let b : ℕ = (s - 1) * 64 + n in
    rw (bit_or_path_length (s - 1) n (omega arith) (omega arith))
      (omega (arith, bit_and_03 (b / 64) (omega arith), bit_and_3f b (omega arith)))

-- A packable path return is read back from its encoding; padding joins the extra bytes.
pub decode-encode_path :
    (r : PathReturn) (pad : Bytes)
    → IsPackable r
    → (encode r >>= λ plaintext. decode (plaintext ++ pad))
      ≡ ok (record r { extra = r.extra ++ pad })
unfolding encode decode
decode-encode_path r pad v =
    let (small, size, hops) =
      packed_sum r.path_hash_size (hop_count r) v.size_pos v.size_le v.hops_le in
    let n = hops_times_size (length r.path) r.path_hash_size v.size_pos v.whole in
    let rest : Bytes = r.extra_type ∷ (r.extra ++ pad) in
    let fits : length r.path ≤ length (r.path ++ rest) = omega (arith, length-append r.path rest) in
    rw (lt→ltb _ _ small, lt→ltb _ _ v.extra_byte)
      (rw (append_assoc r.path (r.extra_type ∷ r.extra) pad, hops, size)
        (rw (n, le→leb _ _ v.size_le)
          (rw (le→leb _ _ fits) (
            rw (take-append _ r.path rest refl, drop-append _ r.path rest refl)
              (rw (le→leb _ _ v.size_pos, v.whole) refl)))))
