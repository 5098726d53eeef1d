-- ===== src/Config/Keys.antt =====
-- The public keys of config/model.py: their text, and the bytes of it.
use meshelle.Prelude.{
  All, Bool, Bytes, IsByte, Option, [], ap, arith, false, filter, hex, hex_digit, if◌then◌else◌,
  is_space, leb, length, none, not, refl, some, strip, strip_left, strip_right, ℕ, ◌%◌, ◌&&◌, ◌*◌,
  ◌+◌, ◌-◌, ◌/◌, ◌<◌, ◌==◌, ◌||◌, ◌∙◌, ◌∷◌, ◌≡◌, ◌≤◌, ◌⊎◌,
}
use meshelle.Proto.Text.{Text}

abbrev pub hex_value : ℕ → Option ℕ
hex_value c =
    if leb 48 c && leb c 57
    then some (c - 48)
    else if leb 97 c && leb c 102
    then some (c - 87)
    else if leb 65 c && leb c 70
    then some (c - 55)
    else none

-- The white space that `bytes.fromhex` skips between two bytes.
abbrev pub is_ascii_space : ℕ → Bool
is_ascii_space c = (leb 9 c && leb c 13) || (c == 32)

-- The byte of two digits, in front of the others.
abbrev pub byte_onto : Option ℕ → Option ℕ → Option Bytes → Option Bytes
byte_onto (some high) (some low) (some rest) = some ((16 * high + low) ∷ rest)
byte_onto _ _ _ = none

-- `bytes.fromhex(text)`; `none` is its `ValueError`.
unfoldable pub from_hex : Text → Option Bytes
from_hex [] = some []
from_hex (c ∷ []) = if is_ascii_space c then some [] else none
from_hex (c ∷ d ∷ rest) =
    let skipped = from_hex (d ∷ rest) in
    let later = from_hex rest in
    if is_ascii_space c then skipped else byte_onto (hex_value c) (hex_value d) later

-- `value.strip().replace(" ", "").replace(":", "")`
unfoldable pub cleaned : Text → Text
unfolding strip
cleaned value = filter (λ c. not ((c == 32) || (c == 58))) (strip value)

-- The bytes, if they are a key's.
abbrev pub sized : Option Bytes → Option Bytes
sized none = none
sized (some raw) = if length raw == 32 then some raw else none

-- `parse_public_key` of a text; `none` is a `ConfigValueError`.
unfoldable pub parse_public_key : Text → Option Bytes
unfolding from_hex cleaned
parse_public_key value = sized (from_hex (cleaned value))

-- A character that no step removes.
abbrev IsKept : ℕ → Type 0
IsKept c = (is_space c ≡ false) × (48 ≤ c) × (c < 58 ⊎ 59 ≤ c)

hex_digit-IsKept : (n : ℕ) → n < 16 → IsKept (hex_digit n)
unfolding is_space
hex_digit-IsKept n h = (ground arith, ground arith, ground arith)

hex_value-hex_digit : (n : ℕ) → n < 16 → hex_value (hex_digit n) ≡ some n
hex_value-hex_digit n h = ground arith

hex-AllKept : (bs : Bytes) → All IsByte bs → All IsKept (hex bs)
unfolding hex
hex-AllKept [] h = tt
hex-AllKept (b ∷ bs) (h, hs) = (
  hex_digit-IsKept (b / 16) (omega arith),
  (hex_digit-IsKept (b % 16) (omega arith), hex-AllKept bs hs),
)

strip_right-kept : (text : Text) → All IsKept text → strip_right text ≡ text
unfolding strip_right
strip_right-kept [] h = refl
strip_right-kept (c ∷ []) h = rw h.0.0 refl
strip_right-kept (c ∷ d ∷ rest) h =
    let same : strip_right (d ∷ rest) ≡ d ∷ rest = strip_right-kept (d ∷ rest) h.1 in rw same refl

strip_left-kept : (text : Text) → All IsKept text → strip_left text ≡ text
unfolding strip_left
strip_left-kept [] h = refl
strip_left-kept (c ∷ cs) h = rw h.0.0 refl

filter-kept :
    (text : Text) → All IsKept text → filter (λ c. not ((c == 32) || (c == 58))) text ≡ text
filter-kept [] h = refl
filter-kept (c ∷ cs) h = ground (arith, filter-kept cs h.1)

digit_not_space : (n : ℕ) → n < 16 → is_ascii_space (hex_digit n) ≡ false
digit_not_space n h = ground arith

from_hex-hex : (bs : Bytes) → All IsByte bs → from_hex (hex bs) ≡ some bs
unfolding from_hex hex
from_hex-hex [] h = refl
from_hex-hex (b ∷ bs) (h, hs) =
    let same : 16 * (b / 16) + b % 16 ≡ b = omega arith in
    rw
      (
        digit_not_space (b / 16) (omega arith),
        hex_value-hex_digit (b / 16) (omega arith),
        hex_value-hex_digit (b % 16) (omega arith),
        from_hex-hex bs hs,
        same,
      )
      refl

cleaned-hex : (bs : Bytes) → All IsByte bs → cleaned (hex bs) ≡ hex bs
unfolding cleaned strip
cleaned-hex bs h =
    let kept = hex-AllKept bs h in
    rw (strip_left-kept (hex bs) kept, strip_right-kept (hex bs) kept) (filter-kept (hex bs) kept)

-- A key of 32 bytes is read back from its hexadecimal text.
pub parse_public_key-hex :
    (key : Bytes) → All IsByte key → length key ≡ 32 → parse_public_key (hex key) ≡ some key
unfolding parse_public_key
parse_public_key-hex key h size =
    ap (λ text. sized (from_hex text)) (cleaned-hex key h)
    ∙ ap sized (from_hex-hex key h)
    ∙ rw size refl
