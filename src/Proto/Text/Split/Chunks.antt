-- ===== src/Proto/Text/Split/Chunks.antt =====
-- The chunks of `utf8_split` of proto/text.py.
use mathlib.Core.Path.{subst}
use mathlib.Core.Option.{some-injective, none-ne-some}
use meshelle.Prelude.{
  ==→eq, All, All-drop, All-take, Bool-cases, Bytes, List, Option, Option-cases, [], ap, arith,
  drop, false, inl, inr, leb, length, length-append, length-drop, length-take, ltb, none, refl,
  some, suc, sym, take, zero, ℕ, ◌&&◌, ◌+◌, ◌/◌, ◌<◌, ◌==◌, ◌∙◌, ◌∷◌, ◌≡◌, ◌≤◌,
}
use meshelle.Proto.Text.{IsScalar, Text, utf8, utf8_encode, utf8_truncate}
use meshelle.Proto.Text.Split.{chunk_of, cut_at, lstrip, rfind_space, split_loop, utf8_split}
use meshelle.Proto.Text.Codec.{decode-utf8_encode, decode_strict}
use meshelle.Proto.Error.{ok}
use meshelle.Proto.Text.Truncate.{fit, fit-maximal, fit-prefix, length-fit, utf8_truncate-fit}

length-lstrip : (t : Text) → length (lstrip t) ≤ length t
unfolding lstrip
length-lstrip [] = omega arith
length-lstrip (c ∷ cs) = ground (arith, length-lstrip cs)

All-lstrip : (t : Text) → All IsScalar t → All IsScalar (lstrip t)
unfolding lstrip
All-lstrip [] h = h
All-lstrip (c ∷ cs) (hc, hs) = elim (Bool-cases (c == b' ')) [
  | inl space ↦ rw space (All-lstrip cs hs)
  | inr other ↦ rw other (hc, hs)
]

utf8_short : (c : ℕ) → length (utf8 c) ≤ 4
utf8_short c = ground arith

-- A chunk is a prefix of what is consumed, and not empty.
abbrev pub IsCut : Text → Text → Type 0
IsCut consumed chunk = (k : ℕ) × (chunk ≡ take k consumed) × (1 ≤ k) × (k ≤ length consumed)

take_whole : {A : Type 0} (xs : List A) → take (length xs) xs ≡ xs
take_whole [] = refl
take_whole (x ∷ xs) = ap (◌∷◌ x) (take_whole xs)

rfind_space-lt : (t : Text) (k : ℕ) → rfind_space t ≡ some k → k < length t
unfolding rfind_space
rfind_space-lt [] k h = cc
rfind_space-lt (c ∷ cs) k h = elim (Option-cases (rfind_space cs)) [
  | inl e ↦ elim (Bool-cases (c == b' ')) [
    | inl space ↦
        let here : rfind_space (c ∷ cs) ≡ some 0 = rw (e, rfind_space, space) refl in
        omega (arith, some-injective 0 k (sym here ∙ h))
    | inr other ↦
        let nowhere : rfind_space (c ∷ cs) ≡ none = rw (e, rfind_space, other) refl in
        absurd (none-ne-some k (sym nowhere ∙ h))
  ]
  | inr (j, e) ↦
      let later : rfind_space (c ∷ cs) ≡ some (suc j) = rw (e, rfind_space) refl in
      omega (arith, some-injective (suc j) k (sym later ∙ h), rfind_space-lt cs j e)
]

cut_at-IsCut :
    (consumed : Text) (o : Option ℕ)
    → ((k : ℕ) → o ≡ some k → k < length consumed)
    → 1 ≤ length consumed
    → IsCut consumed (cut_at consumed o)
cut_at-IsCut consumed none h some_text =
    (length consumed, sym (take_whole consumed), some_text, omega arith)
cut_at-IsCut consumed (some k) h some_text =
    elim (Bool-cases (ltb 0 k && leb (length consumed / 2) k)) [
      | inl late ↦ rw late (k, refl, ground arith, omega (arith, h k refl))
      | inr early ↦ rw early (length consumed, sym (take_whole consumed), some_text, omega arith)
    ]

chunk_of-IsCut :
    (remaining consumed : Text) → 1 ≤ length consumed → IsCut consumed (chunk_of remaining consumed)
unfolding chunk_of
chunk_of-IsCut remaining consumed some_text =
    elim (Bool-cases (ltb (length consumed) (length remaining))) [
      | inl shorter ↦
          rw shorter
            (cut_at-IsCut consumed (rfind_space consumed) (rfind_space-lt consumed) some_text)
      | inr whole ↦ rw whole (length consumed, sym (take_whole consumed), some_text, omega arith)
    ]

length-take_le : {A : Type 0} (k : ℕ) (xs : List A) → k ≤ length xs → length (take k xs) ≡ k
length-take_le k xs h = omega (arith, length-take k xs)

take-take :
    {A : Type 0} (k n : ℕ) (xs : List A) → k ≤ length (take n xs) → take k (take n xs) ≡ take k xs
take-take zero n xs h = refl
take-take (suc k) zero xs h = absurd (omega arith)
take-take (suc k) (suc n) [] h = refl
take-take (suc k) (suc n) (x ∷ xs) h = ap (◌∷◌ x) (take-take k n xs (omega arith))

length-encode_take : (k : ℕ) (t : Text) → length (utf8_encode (take k t)) ≤ length (utf8_encode t)
unfolding utf8_encode
length-encode_take zero t = omega arith
length-encode_take (suc k) [] = omega arith
length-encode_take (suc k) (c ∷ cs) = omega (
  arith,
  length-encode_take k cs,
  length-append (utf8 c) (utf8_encode (take k cs)),
  length-append (utf8 c) (utf8_encode cs),
)

length-encode_pos : (t : Text) → 1 ≤ length t → 1 ≤ length (utf8_encode t)
unfolding utf8_encode
length-encode_pos [] h = absurd (omega arith)
length-encode_pos (c ∷ cs) h = ground (arith, length-append (utf8 c) (utf8_encode cs))

-- What `lstrip` removes is a run of spaces.
lstrip_lem : (t : Text) → (n : ℕ) × (lstrip t ≡ drop n t) × All (λ c. c ≡ b' ') (take n t)
unfolding lstrip
lstrip_lem [] = (0, refl, tt)
lstrip_lem (c ∷ cs) = elim (Bool-cases (c == b' ')) [
  | inl space ↦
      let (n, e, spaces) = lstrip_lem cs in rw space (suc n, e, (==→eq c b' ' space, spaces))
  | inr other ↦ rw other (0, refl, tt)
]

-- The chunks of a text: each is the encoding of the next one or more whole code points, in at most
-- `max_bytes`; then a run of spaces may be left out; and nothing is left behind the last one.
abbrev pub Splits : ℕ → Text → List Bytes → Type 0
Splits max_bytes t [] = t ≡ []
Splits max_bytes t (b ∷ bs) =
    (k n : ℕ) × (1 ≤ k)
    × (k ≤ length t)
    × (b ≡ utf8_encode (take k t))
    × (length b ≤ max_bytes)
    × All (λ c. c ≡ b' ') (take n (drop k t))
    × Splits max_bytes (drop n (drop k t)) bs

-- What one round of the loop reads.
round_lem :
    (c : ℕ) (cs : Text) (max_bytes : ℕ)
    → 4 ≤ max_bytes
    → All IsScalar (c ∷ cs)
    → (consumed : Text) × (k : ℕ) × (utf8_truncate (c ∷ cs) max_bytes ≡ utf8_encode consumed)
      × (decode_strict (utf8_encode consumed) ≡ some consumed)
      × (1 ≤ length (utf8_encode consumed))
      × (chunk_of (c ∷ cs) consumed ≡ take k (c ∷ cs))
      × (1 ≤ k)
      × (k ≤ length (c ∷ cs))
      × (length (utf8_encode (take k (c ∷ cs))) ≤ max_bytes)
unfolding utf8_encode
round_lem c cs max_bytes big scalars =
    let t = c ∷ cs in
    let consumed = fit t max_bytes in
    let one : length (utf8_encode (take 1 t)) ≤ max_bytes =
      omega (arith, length-append (utf8 c) [], utf8_short c) in
    let some_text = fit-maximal t max_bytes 1 (omega arith) one in
    let prefix = fit-prefix t max_bytes in
    let kept = subst (All IsScalar) prefix (All-take IsScalar (length consumed) t scalars) in
    let (k, cut, pos_k, fits) = chunk_of-IsCut t consumed some_text in
    let same : take k consumed ≡ take k t =
      ap (take k) (sym prefix)
      ∙ take-take k (length consumed) t (omega (arith, ap length prefix, fits)) in
    (
      consumed,
      k,
      utf8_truncate-fit t max_bytes scalars,
      (decode-utf8_encode consumed kept).0,
      length-encode_pos consumed some_text,
      cut ∙ same,
      pos_k,
      omega (arith, fits, ap length prefix, length-take (length consumed) t),
      omega (
        arith,
        ap (λ x. length (utf8_encode x)) same,
        length-encode_take k consumed,
        length-fit t max_bytes,
      ),
    )

split_loop-Splits :
    (fuel : ℕ) (t : Text) (max_bytes : ℕ)
    → length t < fuel
    → 4 ≤ max_bytes
    → All IsScalar t
    → (chunks : List Bytes) × (split_loop fuel t max_bytes ≡ ok chunks) × Splits max_bytes t chunks
unfolding split_loop
split_loop-Splits zero t max_bytes enough big scalars = absurd (omega arith)
split_loop-Splits (suc fuel) [] max_bytes enough big scalars = ([], refl, refl)
split_loop-Splits (suc fuel) (c ∷ cs) max_bytes enough big scalars =
    let t = c ∷ cs in
    let (consumed, k, cand, dec, some_bytes, cut, pos_k, whole, small) =
      round_lem c cs max_bytes big scalars in
    let after = drop k t in
    let (n, stripped, spaces) = lstrip_lem after in
    let (chunks, rest, splits) =
      split_loop-Splits fuel (drop n after) max_bytes
        (omega (arith, length-drop n after, length-drop k t)) big
        (All-drop IsScalar n after (All-drop IsScalar k t scalars)) in
    let kept : (length (utf8_encode consumed) == 0) ≡ false = ground arith in
    (
      utf8_encode (take k t) ∷ chunks,
      rw (cand, kept, dec, cut, length-take_le k t whole, stripped, rest) refl,
      (k, n, pos_k, whole, refl, small, spaces, splits),
    )

-- Splitting a text into chunks of four bytes or more ends, and every chunk is the encoding of whole
-- code points, at least one of them, in at most `max_bytes`. The chunks are all of the text, except
-- for spaces left out between them.
pub utf8_split-Splits :
    (t : Text) (max_bytes : ℕ)
    → 4 ≤ max_bytes
    → All IsScalar t
    → (chunks : List Bytes) × (utf8_split t max_bytes ≡ ok chunks) × Splits max_bytes t chunks
unfolding utf8_split
utf8_split-Splits t max_bytes big scalars =
    let some_room : (max_bytes == 0) ≡ false = ground arith in
    let (chunks, e, splits) =
      split_loop-Splits (length t + 1) t max_bytes (omega arith) big scalars in
    (chunks, rw (some_room, e) refl, splits)
