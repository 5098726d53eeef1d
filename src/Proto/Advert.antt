-- ===== src/Proto/Advert.antt =====
-- proto/advert.py. A location is in millionths of a degree, as on the wire.
pub mod RoundTrip
use meshelle.Prelude.{
  [], Bool, Bytes, Option, bit_and, bit_or, drop, from_le, if◌then◌else◌, le_bytes, leb, length,
  ltb, negsuc, none, not, pos, some, suc, take, zero, ℕ, ℤ, ◌++◌, ◌+◌, ◌-◌, ◌==◌, ◌^◌, ◌∷◌,
}
use meshelle.Proto.Error.{
  Result, bad_public_key, bad_signature, byte_of, empty_appdata, err, guard, long_appdata, ok,
  pack_u16, pack_u32, short_advert, struct_error, truncated_appdata, ◌>>=◌, ◌>>◌,
}
use meshelle.Proto.Constants.{
  AdvertType, adv_feat1_mask, adv_feat2_mask, adv_latlon_mask, adv_name_mask, advert_code, chat,
  max_advert_data_size, nothing, pub_key_size, repeater, room, sensor, signature_size,
}
use meshelle.Proto.Text.{Text, utf8_truncate}
use meshelle.Proto.Text.Codec.{decode_replace}
use meshelle.Proto.Crypto.{Primitives}
use meshelle.Proto.Identity.{LocalIdentity, sign, verify_signature}

abbrev pub advert_type_mask : ℕ
advert_type_mask = 0x0f

pub record AdvertData : Type 0 where
  pub node_type : AdvertType
  pub name : Text
  pub location : Option (ℤ × ℤ)
  pub feat1 : ℕ
  pub feat2 : ℕ

-- The `i` of `struct.pack`.
unfoldable pub pack_i32 : ℤ → Result Bytes
pack_i32 (pos n) = if ltb n (2 ^ 31) then ok (le_bytes 4 n) else err struct_error
pack_i32 (negsuc n) = if ltb n (2 ^ 31) then ok (le_bytes 4 (2 ^ 32 - 1 - n)) else err struct_error

abbrev pub read_i32 : Bytes → ℤ
read_i32 bytes =
    if ltb (from_le bytes) (2 ^ 31)
    then pos (from_le bytes)
    else negsuc (2 ^ 32 - 1 - from_le bytes)

-- An optional field: its flag, and its bytes.
abbrev pub Field : Type 0
Field = ℕ × Bytes

abbrev pub location_field : Option (ℤ × ℤ) → Result Field
location_field none = ok (0, [])
location_field (some (lat, lon)) = do
  a ← pack_i32 lat
  b ← pack_i32 lon
  ok (adv_latlon_mask, a ++ b)

abbrev pub feature_field : ℕ → ℕ → Result Field
feature_field mask zero = ok (0, [])
feature_field mask (suc n) = do a ← pack_u16 (suc n); ok (mask, a)

-- `if encoded_name: flags |= ADV_NAME_MASK; body += encoded_name`
abbrev pub name_field : Text → ℕ → Field
name_field name used =
    let encoded = utf8_truncate name (max_advert_data_size - 1 - used) in
    if length encoded == 0 then (0, []) else (adv_name_mask, encoded)

unfoldable pub encode_data : AdvertData → Result Bytes
unfolding pack_i32 utf8_truncate
encode_data d = do
  (f1, b1) ← location_field d.location
  (f2, b2) ← feature_field adv_feat1_mask d.feat1
  (f3, b3) ← feature_field adv_feat2_mask d.feat2
  let body = b1 ++ (b2 ++ b3)
  let (f4, b4) = name_field d.name (length body)
  flags ← byte_of (
      bit_or
        (bit_or (bit_or (bit_or (bit_and (advert_code d.node_type) advert_type_mask) f1) f2) f3) f4)
  ok (flags ++ (body ++ b4))

abbrev pub has_flag : ℕ → ℕ → Bool
has_flag flags mask = not (bit_and flags mask == 0)

-- In the readers a list stands for `appdata[offset:]`.
unfoldable pub read_location : ℕ → Bytes → Result (Option (ℤ × ℤ) × Bytes)
read_location flags rest =
    if has_flag flags adv_latlon_mask
    then (do
      guard (leb 8 (length rest)) truncated_appdata
      ok (some (read_i32 (take 4 rest), read_i32 (take 4 (drop 4 rest))), drop 8 rest))
    else ok (none, rest)

unfoldable pub read_feature : ℕ → ℕ → Bytes → Result (ℕ × Bytes)
read_feature mask flags rest =
    if has_flag flags mask
    then (do guard (leb 2 (length rest)) truncated_appdata; ok (from_le (take 2 rest), drop 2 rest))
    else ok (0, rest)

abbrev pub read_name : ℕ → Bytes → Text
read_name flags rest = if has_flag flags adv_name_mask then decode_replace rest else []

-- `AdvertType(n)`, and `NONE` for the reserved ones.
unfoldable pub read_type : ℕ → AdvertType
read_type n =
    if n == 1
    then chat
    else if n == 2
    then repeater
    else if n == 3
    then room
    else if n == 4
    then sensor
    else nothing

unfoldable pub decode_data : Bytes → Result AdvertData
unfolding read_location read_feature read_type decode_replace
decode_data [] = err empty_appdata
decode_data (flags ∷ rest) = do
  (location, rest1) ← read_location flags rest
  (feat1, rest2) ← read_feature adv_feat1_mask flags rest1
  (feat2, rest3) ← read_feature adv_feat2_mask flags rest2
  ok (record {
    node_type = read_type (bit_and flags advert_type_mask);
    name = read_name flags rest3;
    location = location;
    feat1 = feat1;
    feat2 = feat2;
  })

pub record Advert : Type 0 where
  pub public_key : Bytes
  pub timestamp : ℕ
  pub signature : Bytes
  pub appdata : Bytes

abbrev pub header_len : ℕ
header_len = pub_key_size + 4 + signature_size

-- The constructor call, which runs `__post_init__`.
unfoldable pub make : Advert → Result Advert
make a = do
  guard (length a.public_key == pub_key_size) bad_public_key
  guard (length a.signature == signature_size) bad_signature
  guard (leb (length a.appdata) max_advert_data_size) long_appdata
  ok a

unfoldable pub signed_message : Bytes → ℕ → Bytes → Result Bytes
signed_message key timestamp appdata = do stamp ← pack_u32 timestamp; ok (key ++ (stamp ++ appdata))

unfoldable pub encode : Advert → Result Bytes
encode a = do
  stamp ← pack_u32 a.timestamp
  ok (a.public_key ++ (stamp ++ (a.signature ++ a.appdata)))

unfoldable pub decode : Bytes → Result Advert
unfolding make
decode payload = do
  guard (leb header_len (length payload)) short_advert
  make (record {
    public_key = take pub_key_size payload;
    timestamp = from_le (take 4 (drop pub_key_size payload));
    signature = take signature_size (drop (pub_key_size + 4) payload);
    appdata = drop header_len payload;
  })

module _ (c : Primitives) where
  -- `is_valid`
  unfoldable pub is_valid : Advert → Result Bool
  unfolding signed_message
  is_valid a = do
    message ← signed_message a.public_key a.timestamp a.appdata
    ok (verify_signature c a.public_key message a.signature)

  unfoldable pub create : LocalIdentity → ℕ → AdvertData → Result Advert
  unfolding encode_data signed_message make
  create identity timestamp d = do
    appdata ← encode_data d
    message ← signed_message identity.public_key timestamp appdata
    signature ← sign c identity message
    make (record {
      public_key = identity.public_key;
      timestamp = timestamp;
      signature = signature;
      appdata = appdata;
    })
