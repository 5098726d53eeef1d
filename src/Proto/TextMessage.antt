-- ===== src/Proto/TextMessage.antt =====
-- `TextMessage` of proto/packet.py.
pub mod RoundTrip
use meshelle.Prelude.{
  Bytes, bit_and, bit_or, drop, from_le, get_or, leb, length, shl, shr, take, ℕ, ◌++◌, ◌+◌, ◌∷◌,
}
use meshelle.Proto.Error.{
  Result, err, guard, ok, pack_u32, short_text, unsupported_text, ◌>>=◌, ◌>>◌,
}
use meshelle.Proto.Constants.{
  TxtType, signed_author_prefix_len, signed_plain, txt_attempt_mask, txt_code, txt_flags_type_shift,
  txt_type,
}
use meshelle.Proto.Crypto.{Primitives}
use meshelle.Proto.Plain.{c_string}
use meshelle.Proto.Crypto

pub record TextMessage : Type 0 where
  pub timestamp : ℕ
  pub kind : TxtType
  pub attempt : ℕ
  pub text : Bytes

abbrev pub prefix_len : ℕ
prefix_len = 5

abbrev pub flags : TxtType → ℕ → ℕ
flags kind attempt =
    bit_or (shl (txt_code kind) txt_flags_type_shift) (bit_and attempt txt_attempt_mask)

-- `struct.pack("<IB", timestamp, flags) + text`
unfoldable pub encode : TextMessage → Result Bytes
encode m = do stamp ← pack_u32 m.timestamp; ok (stamp ++ (flags m.kind m.attempt ∷ m.text))

-- `TxtType(n)`, its `ValueError` turned into a `PacketError`.
unfoldable pub read_kind : ℕ → Result TxtType
read_kind n = elim (txt_type n) [ ok k ↦ ok k | err _ ↦ err unsupported_text ]

-- How much of the text stands before the part that is trimmed at a NUL.
abbrev pub untrimmed_len : TxtType → ℕ
untrimmed_len signed_plain = signed_author_prefix_len
untrimmed_len _ = 0

unfoldable pub decode : Bytes → Result TextMessage
decode plaintext = do
  guard (leb prefix_len (length plaintext)) short_text
  let flag_byte = get_or plaintext 4 0
  kind ← read_kind (shr flag_byte txt_flags_type_shift)
  ok (record {
    timestamp = from_le (take 4 plaintext);
    kind = kind;
    attempt = bit_and flag_byte txt_attempt_mask;
    text =
        take (untrimmed_len kind) (drop prefix_len plaintext)
        ++ c_string (drop (prefix_len + untrimmed_len kind) plaintext);
  })

abbrev pub author_prefix : TextMessage → Bytes
author_prefix m = take (untrimmed_len m.kind) m.text

abbrev pub body : TextMessage → Bytes
body m = drop (untrimmed_len m.kind) m.text

unfoldable pub ack_hash : Primitives → TextMessage → Bytes → Result Bytes
ack_hash c m peer = do message ← encode m; ok (Crypto.ack_hash c message peer)
