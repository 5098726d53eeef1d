-- ===== src/Proto/Text/Codec.antt =====
-- `bytes.decode("utf-8")`: the decoder of the Unicode standard, which Python follows.
use mathlib.Core.Option
use meshelle.Prelude.{
  All, Bytes, List, Option, [], ap, arith, false, if◌then◌else◌, leb, ltb, lt→ltb, map, none, refl,
  some, suc, true, ℕ, ◌%◌, ◌&&◌, ◌*◌, ◌++◌, ◌+◌, ◌-◌, ◌/◌, ◌<◌, ◌==◌, ◌∙◌, ◌∷◌, ◌≡◌, ◌≤◌,
}
use meshelle.Proto.Text.{IsScalar, Text, utf8, utf8_encode}

-- The decoder's state: the bytes still needed, the bits so far, and the range of the next byte.
pub record Pending : Type 0 where
  pub needed : ℕ
  pub bits : ℕ
  pub low : ℕ
  pub high : ℕ

-- What a byte at the start of a code point begins: the code point itself, a sequence, or nothing.
pub data Start : Type 0 where
  done : ℕ → Start
  begin : Pending → Start
  invalid : Start

abbrev sequence : ℕ → ℕ → ℕ → ℕ → Start
sequence n b lo hi = begin (record { needed = n; bits = b; low = lo; high = hi })

unfoldable pub start : ℕ → Start
start b =
    if ltb b 0x80
    then done b
    else if ltb b 0xc2
    then invalid
    else if ltb b 0xe0
    then sequence 1 (b - 0xc0) 0x80 0xbf
    else if b == 0xe0
    then sequence 2 0 0xa0 0xbf
    else if b == 0xed
    then sequence 2 13 0x80 0x9f
    else if ltb b 0xf0
    then sequence 2 (b - 0xe0) 0x80 0xbf
    else if b == 0xf0
    then sequence 3 0 0x90 0xbf
    else if ltb b 0xf4
    then sequence 3 (b - 0xf0) 0x80 0xbf
    else if b == 0xf4
    then sequence 3 4 0x80 0x8f
    else invalid

-- `none` stands for one maximal invalid part of the bytes.
unfoldable pub decode_marks : Option Pending → Bytes → List (Option ℕ)
decode_marks none [] = []
decode_marks (some p) [] = none ∷ []
decode_marks none (b ∷ bs) = elim (start b) [
  | done c ↦ some c ∷ decode_marks none bs
  | begin p ↦ decode_marks (some p) bs
  | invalid ↦ none ∷ decode_marks none bs
]
decode_marks (some p) (b ∷ bs) = elim (leb p.low b && leb b p.high) [
  | true ↦ elim (p.needed == 1) [
    | true ↦ some (p.bits * 64 + (b - 0x80)) ∷ decode_marks none bs
    | false ↦
        decode_marks
          (some (record {
            needed = p.needed - 1;
            bits = p.bits * 64 + (b - 0x80);
            low = 0x80;
            high = 0xbf;
          }))
          bs
  ]
  | false ↦ elim (start b) [
    | done c ↦ none ∷ some c ∷ decode_marks none bs
    | begin q ↦ none ∷ decode_marks (some q) bs
    | invalid ↦ none ∷ none ∷ decode_marks none bs
  ]
]

abbrev replace_mark : Option ℕ → ℕ
replace_mark none = 0xfffd
replace_mark (some c) = c

-- `raw.decode("utf-8", errors="replace")`
unfoldable pub decode_replace : Bytes → Text
unfolding decode_marks start
decode_replace raw = map replace_mark (decode_marks none raw)

abbrev all_marks : List (Option ℕ) → Option Text
all_marks [] = some []
all_marks (none ∷ ms) = none
all_marks (some c ∷ ms) = Option.map (λ cs. c ∷ cs) (all_marks ms)

-- `raw.decode("utf-8")`, which raises (`none`) on invalid bytes.
unfoldable pub decode_strict : Bytes → Option Text
unfolding decode_marks start
decode_strict raw = all_marks (decode_marks none raw)

-- A continuation byte that is in range: in the middle of a sequence, and at its end.
decode_marks_middle :
    (n bits lo hi b : ℕ) (rest : Bytes)
    → lo ≤ b
    → b ≤ hi
    → decode_marks
        (some (record { needed = suc (suc n); bits = bits; low = lo; high = hi }))
        (b ∷ rest)
      ≡ decode_marks
          (some (record { needed = suc n; bits = bits * 64 + (b - 0x80); low = 0x80; high = 0xbf }))
          rest
unfolding decode_marks
decode_marks_middle n bits lo hi b rest hl hh = ground arith

decode_marks_last :
    (bits lo hi b : ℕ) (rest : Bytes)
    → lo ≤ b
    → b ≤ hi
    → decode_marks (some (record { needed = 1; bits = bits; low = lo; high = hi })) (b ∷ rest)
      ≡ some (bits * 64 + (b - 0x80)) ∷ decode_marks none rest
unfolding decode_marks
decode_marks_last bits lo hi b rest hl hh = ground arith

decode_marks_done :
    (b c : ℕ) (rest : Bytes)
    → start b ≡ done c
    → decode_marks none (b ∷ rest) ≡ some c ∷ decode_marks none rest
unfolding decode_marks
decode_marks_done b c rest e = rw (e, decode_marks) refl

decode_marks_begin :
    (b : ℕ) (p : Pending) (rest : Bytes)
    → start b ≡ begin p
    → decode_marks none (b ∷ rest) ≡ decode_marks (some p) rest
unfolding decode_marks
decode_marks_begin b p rest e = rw (e, decode_marks) refl

start_one : (b : ℕ) → b < 0x80 → start b ≡ done b
unfolding start
start_one b h = rw (lt→ltb _ _ h) refl

start_two : (q : ℕ) → 2 ≤ q → q < 32 → start (0xc0 + q) ≡ sequence 1 q 0x80 0xbf
unfolding start
start_two q h k = ground arith

start_three :
    (q : ℕ)
    → q < 16
    → start (0xe0 + q)
      ≡ sequence 2 q (if q == 0 then 0xa0 else 0x80) (if q == 13 then 0x9f else 0xbf)
unfolding start
start_three q h = ground arith

start_four :
    (q : ℕ)
    → q < 5
    → start (0xf0 + q)
      ≡ sequence 3 q (if q == 0 then 0x90 else 0x80) (if q == 4 then 0x8f else 0xbf)
unfolding start
start_four q h = ground arith

one_byte :
    (c : ℕ) (rest : Bytes)
    → c < 0x80
    → decode_marks none (c ∷ rest) ≡ some c ∷ decode_marks none rest
one_byte c rest h = decode_marks_done c c rest (start_one c h)

two_bytes :
    (c : ℕ) (rest : Bytes)
    → 0x80 ≤ c
    → c < 0x800
    → decode_marks none ((0xc0 + c / 64) ∷ (0x80 + c % 64) ∷ rest) ≡ some c ∷ decode_marks none rest
two_bytes c rest h k =
    let value : c / 64 * 64 + (0x80 + c % 64 - 0x80) ≡ c = omega arith in
    decode_marks_begin (0xc0 + c / 64) _ ((0x80 + c % 64) ∷ rest)
      (start_two (c / 64) (omega arith) (omega arith))
    ∙ decode_marks_last (c / 64) 0x80 0xbf (0x80 + c % 64) rest (omega arith) (omega arith)
    ∙ rw value refl

three_bytes :
    (c : ℕ) (rest : Bytes)
    → 0x800 ≤ c
    → c < 0x10000
    → IsScalar c
    → decode_marks none ((0xe0 + c / 4096) ∷ (0x80 + c / 64 % 64) ∷ (0x80 + c % 64) ∷ rest)
      ≡ some c ∷ decode_marks none rest
three_bytes c rest h k s =
    let value : (c / 4096 * 64 + (0x80 + c / 64 % 64 - 0x80)) * 64 + (0x80 + c % 64 - 0x80) ≡ c =
      omega arith in
    decode_marks_begin (0xe0 + c / 4096) _ ((0x80 + c / 64 % 64) ∷ (0x80 + c % 64) ∷ rest)
      (start_three (c / 4096) (omega arith))
    ∙ decode_marks_middle 0 (c / 4096) (if c / 4096 == 0 then 0xa0 else 0x80)
        (if c / 4096 == 13 then 0x9f else 0xbf) (0x80 + c / 64 % 64) ((0x80 + c % 64) ∷ rest)
        (ground arith) (ground arith)
    ∙ decode_marks_last _ 0x80 0xbf (0x80 + c % 64) rest (omega arith) (omega arith)
    ∙ rw value refl

four_bytes :
    (c : ℕ) (rest : Bytes)
    → 0x10000 ≤ c
    → c < 0x110000
    → decode_marks none (
        (0xf0 + c / 262144)
        ∷ (0x80 + c / 4096 % 64)
        ∷ (0x80 + c / 64 % 64)
        ∷ (0x80 + c % 64)
        ∷ rest)
      ≡ some c ∷ decode_marks none rest
four_bytes c rest h k =
    let value : ((c / 262144 * 64 + (0x80 + c / 4096 % 64 - 0x80)) * 64
              + (0x80 + c / 64 % 64 - 0x80))
            * 64
          + (0x80 + c % 64 - 0x80)
        ≡ c =
      omega arith in
    decode_marks_begin (0xf0 + c / 262144) _ _ (start_four (c / 262144) (omega arith))
    ∙ decode_marks_middle 1 (c / 262144) (if c / 262144 == 0 then 0x90 else 0x80)
        (if c / 262144 == 4 then 0x8f else 0xbf) (0x80 + c / 4096 % 64) _ (ground arith)
        (ground arith)
    ∙ decode_marks_middle 0 _ 0x80 0xbf (0x80 + c / 64 % 64) _ (omega arith) (omega arith)
    ∙ decode_marks_last _ 0x80 0xbf (0x80 + c % 64) rest (omega arith) (omega arith)
    ∙ rw value refl

-- One code point is read back from its bytes.
decode_marks-utf8 :
    (c : ℕ) (rest : Bytes)
    → IsScalar c
    → decode_marks none (utf8 c ++ rest) ≡ some c ∷ decode_marks none rest
decode_marks-utf8 c rest h =
    ground (arith, one_byte c rest, two_bytes c rest, three_bytes c rest, four_bytes c rest)

decode_marks-utf8_encode :
    (t : Text) → All IsScalar t → decode_marks none (utf8_encode t) ≡ map some t
unfolding utf8_encode decode_marks
decode_marks-utf8_encode [] h = refl
decode_marks-utf8_encode (c ∷ cs) h =
    decode_marks-utf8 c (utf8_encode cs) h.0 ∙ ap (◌∷◌ (some c)) (decode_marks-utf8_encode cs h.1)

marks_back : (t : Text) → all_marks (map some t) ≡ some t
marks_back [] = refl
marks_back (c ∷ cs) = rw (marks_back cs) refl

replaced_back : (t : Text) → map replace_mark (map some t) ≡ t
replaced_back [] = refl
replaced_back (c ∷ cs) = ap (◌∷◌ c) (replaced_back cs)

-- A text is read back from its encoding, by the strict decoder and by the replacing one.
pub decode-utf8_encode :
    (t : Text)
    → All IsScalar t
    → (decode_strict (utf8_encode t) ≡ some t) × (decode_replace (utf8_encode t) ≡ t)
unfolding decode_strict decode_replace
decode-utf8_encode t h = (
  rw (decode_marks-utf8_encode t h) (marks_back t),
  rw (decode_marks-utf8_encode t h) (replaced_back t),
)
