-- ===== src/Proto/Text.antt =====
-- proto/text.py, over the UTF-8 codec of the Python strings that it is given.
pub mod Codec
pub mod Truncate
pub mod Split
use meshelle.Prelude.{
  Bool, Bytes, List, [], bit_and, get_or, if◌then◌else◌, leb, length, ltb, suc, take, zero, ℕ, ◌%◌,
  ◌++◌, ◌+◌, ◌/◌, ◌<◌, ◌==◌, ◌∷◌, ◌⊎◌,
}

-- A Python string: its code points. (A lone surrogate, which `encode` refuses, is not a text.)
abbrev pub Text : Type 0
Text = List ℕ

abbrev pub IsScalar : ℕ → Type 0
IsScalar c = (c < 0xd800) ⊎ ((0xdfff < c) × (c < 0x110000))

-- The bytes of one code point, and of a text: `text.encode("utf-8")`.
abbrev pub utf8 : ℕ → Bytes
utf8 c =
    if ltb c 0x80
    then c ∷ []
    else if ltb c 0x800
    then (0xc0 + c / 64) ∷ (0x80 + c % 64) ∷ []
    else if ltb c 0x10000
    then (0xe0 + c / 4096) ∷ (0x80 + c / 64 % 64) ∷ (0x80 + c % 64) ∷ []
    else (0xf0 + c / 262144) ∷ (0x80 + c / 4096 % 64) ∷ (0x80 + c / 64 % 64) ∷ (0x80 + c % 64) ∷ []

unfoldable pub utf8_encode : Text → Bytes
utf8_encode [] = []
utf8_encode (c ∷ cs) = utf8 c ++ utf8_encode cs

-- `(b & 0xC0) == 0x80`
abbrev pub is_continuation : ℕ → Bool
is_continuation b = bit_and b 0xc0 == 0x80

-- `while cut > 0 and (encoded[cut] & 0xC0) == 0x80: cut -= 1`
unfoldable pub back_off : Bytes → ℕ → ℕ
back_off encoded zero = zero
back_off encoded (suc cut) =
    let further = back_off encoded cut in
    if is_continuation (get_or encoded (suc cut) 0) then further else suc cut

unfoldable pub utf8_truncate : Text → ℕ → Bytes
unfolding utf8_encode back_off
utf8_truncate text max_bytes =
    let encoded = utf8_encode text in
    if max_bytes == 0
    then []
    else if leb (length encoded) max_bytes
    then encoded
    else take (back_off encoded max_bytes) encoded
