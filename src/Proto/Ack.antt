-- ===== src/Proto/Ack.antt =====
-- `Ack` of proto/packet.py.
use meshelle.Prelude.{
  Bytes, arith, drop, drop-append, leb, length, length-append, le→leb, refl, sym, take, take-append,
  ℕ, ◌++◌, ◌==◌, ◌≡◌,
}
use meshelle.Proto.Error.{Result, bad_checksum, guard, ok, short_ack, ◌>>◌}

abbrev pub len : ℕ
len = 4

pub record Ack : Type 0 where
  pub checksum : Bytes
  pub trailer : Bytes

unfoldable pub make : Ack → Result Ack
make a = do guard (length a.checksum == len) bad_checksum; ok a

unfoldable pub encode : Ack → Bytes
encode a = a.checksum ++ a.trailer

unfoldable pub decode : Bytes → Result Ack
unfolding make
decode payload = do
  guard (leb len (length payload)) short_ack
  make (record { checksum = take len payload; trailer = drop len payload })

-- `decode` reads exactly the payloads of four bytes or more, and undoes `encode`.
pub decode-encode_ack : (a : Ack) → length a.checksum ≡ len → decode (encode a) ≡ ok a
unfolding decode encode
decode-encode_ack a h =
    let size = length-append a.checksum a.trailer in
    rw
      (
        le→leb 4 (length (a.checksum ++ a.trailer)) (omega arith),
        take-append 4 a.checksum a.trailer (sym h),
        drop-append 4 a.checksum a.trailer (sym h),
        h,
      )
      refl
