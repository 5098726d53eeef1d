-- ===== src/Proto/Advert/RoundTrip.antt =====
-- Adverts of proto/advert.py, sent and read back.
use meshelle.Prelude.{
  arith, drop, drop-append, drop-append_more, from_le-le_bytes_4, le_bytes, length, length-append,
  le→leb, lt→ltb, refl, sym, take-append, ◌++◌, ◌<◌, ◌^◌, ◌∙◌, ◌≡◌, ◌≤◌,
}
use meshelle.Proto.Error.{ok, ◌>>=◌}
use meshelle.Proto.Constants.{max_advert_data_size, pub_key_size, signature_size}
use meshelle.Proto.Advert.{Advert, decode, encode}

-- An advert comes back from its payload: the key, the time, the signature and the data.
pub decode-encode_advert :
    (a : Advert)
    → length a.public_key ≡ pub_key_size
    → a.timestamp < 2 ^ 32
    → length a.signature ≡ signature_size
    → length a.appdata ≤ max_advert_data_size
    → (encode a >>= decode) ≡ ok a
unfolding encode decode
decode-encode_advert a hk ht hs hd =
    let stamp = le_bytes 4 a.timestamp in
    let tail = stamp ++ (a.signature ++ a.appdata) in
    let size = length-append a.public_key tail in
    let rest = length-append a.signature a.appdata in
    let after_key : drop 32 (a.public_key ++ tail) ≡ tail =
      drop-append 32 a.public_key tail (sym hk) in
    let after_stamp : drop 36 (a.public_key ++ tail) ≡ a.signature ++ a.appdata =
      drop-append_more 36 4 a.public_key tail (omega arith) in
    let after_all : drop 100 (a.public_key ++ tail) ≡ a.appdata =
      drop-append_more 100 68 a.public_key tail (omega arith)
      ∙ drop-append 64 a.signature a.appdata (sym hs) in
    rw (lt→ltb _ _ ht) (
      rw
        (
          le→leb 100 (length (a.public_key ++ tail)) (omega arith),
          take-append 32 a.public_key tail (sym hk),
          after_key,
          after_stamp,
          after_all,
          take-append 64 a.signature a.appdata (sym hs),
          from_le-le_bytes_4 a.timestamp ht,
          hk,
          hs,
          le→leb (length a.appdata) 32 hd,
        )
        refl)
