-- ===== src/Proto/TextMessage/RoundTrip.antt =====
-- Decoding of a text message after the cipher's padding, and after a sealed datagram.
use meshelle.Prelude.{
  Bytes, IsByte, [], ap, arith, bit_and, bit_and_03, bit_or_flags, drop, from_le,
  from_le-le_bytes_4, le_bytes, length, le→leb, lt→ltb, refl, replicate, shr, suc, take, zero, ℕ,
  ◌*◌, ◌++◌, ◌+◌, ◌<◌, ◌^◌, ◌∙◌, ◌∷◌, ◌≡◌, ◌≤◌,
}
use meshelle.Proto.Error.{Result, ok, ◌>>=◌}
use meshelle.Proto.Constants.{
  TxtType, txt_attempt_mask, txt_code, txt_code-lt, txt_flags_type_shift, txt_type-txt_code,
}
use meshelle.Proto.Plain.{NoNul, c_string, c_string-append_zeros}
use meshelle.Proto.TextMessage.{TextMessage, body, decode, encode, read_kind, untrimmed_len}
use meshelle.Proto.Crypto.{IsSound, Primitives, padding}
use meshelle.Proto.Datagram
use meshelle.Proto.Datagram.RoundTrip as Envelope

-- A message that the wire can carry: the trimmed part of the text has no NUL, and a signed text
-- begins with its author's four bytes.
pub record IsSendable (m : TextMessage) : Type 0 where
  pub stamp : m.timestamp < 2 ^ 32
  pub tries : m.attempt < 4
  pub author : untrimmed_len m.kind ≤ length m.text
  pub no_nul : NoNul (body m)

encode_lem :
    (m : TextMessage)
    → IsSendable m
    → encode m ≡ ok (le_bytes 4 m.timestamp ++ (txt_code m.kind * 4 + m.attempt) ∷ m.text)
unfolding encode
encode_lem m s =
    let low : bit_and m.attempt txt_attempt_mask ≡ m.attempt =
      omega (arith, bit_and_03 m.attempt (omega (arith, s.tries)), s.tries) in
    rw (lt→ltb _ _ s.stamp, low)
      (rw (bit_or_flags (txt_code m.kind) m.attempt (omega (arith, txt_code-lt m.kind)) s.tries)
        refl)

read_kind-flags :
    (k : TxtType) (a : ℕ) → a < 4 → read_kind (shr (txt_code k * 4 + a) txt_flags_type_shift) ≡ ok k
unfolding read_kind
read_kind-flags k a h =
    let top : shr (txt_code k * 4 + a) txt_flags_type_shift ≡ txt_code k = omega arith in
    rw top (rw (txt_type-txt_code k, read_kind) refl)

attempt-flags : (k : TxtType) (a : ℕ) → a < 4 → bit_and (txt_code k * 4 + a) txt_attempt_mask ≡ a
attempt-flags k a h =
    omega (arith, bit_and_03 (txt_code k * 4 + a) (omega (arith, txt_code-lt k)), txt_code-lt k)

-- The text, read back from in front of `n` bytes of padding.
text_lem :
    (u : ℕ) (text : Bytes) (n : ℕ)
    → u ≤ length text
    → NoNul (drop u text)
    → take u (text ++ replicate n 0) ++ c_string (drop u (text ++ replicate n 0)) ≡ text
text_lem zero text n h k = c_string-append_zeros text n k
text_lem (suc u) [] n h k = absurd (omega arith)
text_lem (suc u) (b ∷ bs) n h k = ap (◌∷◌ b) (text_lem u bs n (omega arith) k)

drop_five : (a b c d f u : ℕ) (rest : Bytes) → drop (5 + u) (a ∷ b ∷ c ∷ d ∷ f ∷ rest) ≡ drop u rest
drop_five a b c d f u rest =
    let e : 5 + u ≡ suc (suc (suc (suc (suc u)))) = omega arith in rw e refl

decode_cons :
    (a b c d f : ℕ) (rest : Bytes) (k : TxtType)
    → read_kind (shr f txt_flags_type_shift) ≡ ok k
    → decode (a ∷ b ∷ c ∷ d ∷ f ∷ rest)
      ≡ ok (record {
        timestamp = from_le (a ∷ b ∷ c ∷ d ∷ []);
        kind = k;
        attempt = bit_and f txt_attempt_mask;
        text = take (untrimmed_len k) rest ++ c_string (drop (untrimmed_len k) rest);
      })
unfolding decode
decode_cons a b c d f rest k e =
    rw (le→leb 5 (suc (suc (suc (suc (suc (length rest)))))) (omega arith), e)
      (rw (drop_five a b c d f (untrimmed_len k) rest) refl)

message_eq :
    (k : TxtType) (t a t' a' : ℕ) (x x' : Bytes)
    → t ≡ t'
    → a ≡ a'
    → x ≡ x'
    → ◌≡◌ {A = Result TextMessage}
        (ok (record { timestamp = t; kind = k; attempt = a; text = x }))
        (ok (record { timestamp = t'; kind = k; attempt = a'; text = x' }))
message_eq k t a t' a' x x' p q r = cc

-- A sendable message is read back from its encoding, whatever zeros the cipher added.
pub decode-encode_text :
    (m : TextMessage) (n : ℕ)
    → IsSendable m
    → (encode m >>= λ plaintext. decode (plaintext ++ replicate n 0)) ≡ ok m
decode-encode_text m n s =
    let flag_byte = txt_code m.kind * 4 + m.attempt in
    rw (encode_lem m s) (
      decode_cons _ _ _ _ flag_byte (m.text ++ replicate n 0) m.kind
        (read_kind-flags m.kind m.attempt s.tries)
      ∙ message_eq m.kind _ _ m.timestamp m.attempt _ m.text
          (from_le-le_bytes_4 m.timestamp s.stamp) (attempt-flags m.kind m.attempt s.tries)
          (text_lem (untrimmed_len m.kind) m.text n s.author s.no_nul))

-- A sendable message that is sealed for a peer in a datagram is what the peer decodes, and so the
-- acknowledgement that the peer computes is the one that the sender expects.
pub decode-received :
    (c : Primitives) (sound : IsSound c) (dest src : ℕ) (secret : Bytes) (m : TextMessage)
    → IsByte dest
    → IsByte src
    → length secret ≡ 32
    → IsSendable m
    → ((((encode m >>= Datagram.seal c dest src secret) >>= Datagram.encode)
          >>= Envelope.received c secret)
        >>= λ got. decode got.2)
      ≡ ok m
decode-received c sound dest src secret m hd hs full s =
    let plaintext : Bytes = le_bytes 4 m.timestamp ++ (txt_code m.kind * 4 + m.attempt) ∷ m.text in
    rw (encode_lem m s) (
      rw (Envelope.received-seal c sound dest src secret plaintext hd hs full (omega arith))
        (rw (encode_lem m s) at (decode-encode_text m (padding plaintext) s)))
