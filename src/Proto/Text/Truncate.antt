-- ===== src/Proto/Text/Truncate.antt =====
-- Which prefix of a text `utf8_truncate` of proto/text.py returns.
use meshelle.Prelude.{
  All, Bool-cases, Bytes, List, [], ap, arith, bit_and_c0, false, get_or, if◌then◌else◌, inl, inr,
  leb, length, length-append, le→leb, ltb, refl, suc, take, true, zero, ℕ, ◌%◌, ◌&&◌, ◌++◌, ◌+◌,
  ◌-◌, ◌/◌, ◌<◌, ◌==◌, ◌∙◌, ◌∷◌, ◌≡◌, ◌≤◌,
}
use meshelle.Proto.Text.{
  IsScalar, Text, back_off, is_continuation, utf8, utf8_encode, utf8_truncate,
}

-- The longest prefix of a text whose encoding has at most `n` bytes.
unfoldable pub fit : Text → ℕ → Text
fit [] n = []
fit (c ∷ cs) n = if leb (length (utf8 c)) n then c ∷ fit cs (n - length (utf8 c)) else []

-- What a byte more in front does to the place where the walk ends.
back_off-cons :
    (b : ℕ) (bs : Bytes) (k : ℕ)
    → back_off (b ∷ bs) (suc k)
      ≡ (if is_continuation (get_or bs 0 0) && (back_off bs k == 0) then 0 else suc (back_off bs k))
unfolding back_off
back_off-cons b bs zero = ground arith
back_off-cons b bs (suc k) = ground (arith, back_off-cons b bs k)

continuation : (x : ℕ) → is_continuation (0x80 + x % 64) ≡ true
continuation x = ground (arith, bit_and_c0 (0x80 + x % 64))

ascii_lead : (c : ℕ) → c < 0x80 → is_continuation c ≡ false
ascii_lead c h = ground (arith, bit_and_c0 c)

high_lead : (c : ℕ) → 0xc0 ≤ c → c < 0x100 → is_continuation c ≡ false
high_lead c h k = ground (arith, bit_and_c0 c)

-- No text begins with a continuation byte.
encode_lead : (t : Text) → All IsScalar t → is_continuation (get_or (utf8_encode t) 0 0) ≡ false
unfolding utf8_encode
encode_lead [] h = refl
encode_lead (c ∷ cs) h = ground (
  arith,
  ascii_lead c,
  high_lead (0xc0 + c / 64),
  high_lead (0xe0 + c / 4096),
  high_lead (0xf0 + c / 262144),
)

-- The walk from inside a code point ends at its first byte; from behind it, where it ends in the
-- bytes that follow.
back_off-point :
    (b : ℕ) (xs rest : Bytes) (n : ℕ)
    → All (λ x. is_continuation x ≡ true) xs
    → is_continuation (get_or rest 0 0) ≡ false
    → back_off (b ∷ (xs ++ rest)) n
      ≡ (if ltb (length xs) n then suc (length xs) + back_off rest (n - suc (length xs)) else 0)
unfolding back_off
back_off-point b xs rest zero h lead = ground arith
back_off-point b [] rest (suc k) h lead =
    let e : suc k - 1 ≡ k = omega arith in rw (back_off-cons b rest k, lead, e) (ground arith)
back_off-point b (x ∷ xs) rest (suc k) h lead =
    let e : suc k - suc (suc (length xs)) ≡ k - suc (length xs) = omega arith in
    rw (back_off-cons b (x ∷ (xs ++ rest)) k, h.0, back_off-point x xs rest k h.1 lead, e)
      (ground arith)

-- The bytes behind the first of a code point.
abbrev tail_of : Bytes → Bytes
tail_of [] = []
tail_of (b ∷ bs) = bs

utf8_shape :
    (c : ℕ)
    → (utf8 c ≡ get_or (utf8 c) 0 0 ∷ tail_of (utf8 c))
      × All (λ x. is_continuation x ≡ true) (tail_of (utf8 c))
utf8_shape c = ground (arith, continuation c, continuation (c / 64), continuation (c / 4096))

take-append_add {ℓ} :
    {A : Type ℓ} (xs ys : List A) (n : ℕ) → take (length xs + n) (xs ++ ys) ≡ xs ++ take n ys
take-append_add [] ys n = let e : 0 + n ≡ n = omega arith in rw e refl
take-append_add (x ∷ xs) ys n =
    let e : suc (length xs) + n ≡ suc (length xs + n) = omega arith in
    rw e (ap (◌∷◌ x) (take-append_add xs ys n))

back_off-utf8 :
    (c : ℕ) (rest : Bytes) (n : ℕ)
    → is_continuation (get_or rest 0 0) ≡ false
    → back_off (utf8 c ++ rest) n ≡ (
        if leb (length (utf8 c)) n
        then length (utf8 c) + back_off rest (n - length (utf8 c))
        else 0)
back_off-utf8 c rest n lead =
    let (shape, cont) = utf8_shape c in
    rw shape
      (rw (back_off-point (get_or (utf8 c) 0 0) (tail_of (utf8 c)) rest n cont lead) (ground arith))

take-nil {ℓ} : {A : Type ℓ} (n : ℕ) → take {A = A} n [] ≡ []
take-nil zero = refl
take-nil (suc n) = refl

-- The cut text is the encoding of the part that fits.
cut_lem :
    (t : Text) (n : ℕ)
    → All IsScalar t
    → take (back_off (utf8_encode t) n) (utf8_encode t) ≡ utf8_encode (fit t n)
unfolding fit utf8_encode
cut_lem [] n h = take-nil (back_off [] n)
cut_lem (c ∷ cs) n h = elim (Bool-cases (leb (length (utf8 c)) n)) [
  | inl fits ↦
      rw (back_off-utf8 c (utf8_encode cs) n (encode_lead cs h.1), fits)
        (take-append_add (utf8 c) (utf8_encode cs) (back_off (utf8_encode cs) (n - length (utf8 c)))
          ∙ ap (λ r. utf8 c ++ r) (cut_lem cs (n - length (utf8 c)) h.1))
  | inr over ↦ rw (back_off-utf8 c (utf8_encode cs) n (encode_lead cs h.1), over) refl
]

-- A text that fits whole is kept whole.
pub fit_whole : (t : Text) (n : ℕ) → length (utf8_encode t) ≤ n → fit t n ≡ t
unfolding fit utf8_encode
fit_whole [] n h = refl
fit_whole (c ∷ cs) n h =
    let size = length-append (utf8 c) (utf8_encode cs) in
    rw (le→leb (length (utf8 c)) n (omega (arith, size)))
      (ap (◌∷◌ c) (fit_whole cs (n - length (utf8 c)) (omega (arith, size))))

fit_zero : (t : Text) → fit t 0 ≡ []
unfolding fit
fit_zero [] = refl
fit_zero (c ∷ cs) = ground arith

-- The bytes kept are those of the longest prefix of whole code points that fits in `max_bytes`.
pub utf8_truncate-fit :
    (t : Text) (max_bytes : ℕ)
    → All IsScalar t
    → utf8_truncate t max_bytes ≡ utf8_encode (fit t max_bytes)
unfolding utf8_truncate
utf8_truncate-fit t max_bytes h =
    ground
      (arith, cut_lem t max_bytes h, fit_whole t max_bytes, fit_zero t, ap utf8_encode (fit_zero t))

-- What `fit` keeps fits, is a prefix, and the next code point would not have fitted.
pub length-fit : (t : Text) (n : ℕ) → length (utf8_encode (fit t n)) ≤ n
unfolding fit utf8_encode
length-fit [] n = omega arith
length-fit (c ∷ cs) n = ground (
  arith,
  length-fit cs (n - length (utf8 c)),
  length-append (utf8 c) (utf8_encode (fit cs (n - length (utf8 c)))),
)

pub fit-prefix : (t : Text) (n : ℕ) → take (length (fit t n)) t ≡ fit t n
unfolding fit
fit-prefix [] n = refl
fit-prefix (c ∷ cs) n = ground (arith, fit-prefix cs (n - length (utf8 c)))

pub fit-maximal :
    (t : Text) (n k : ℕ) → k ≤ length t → length (utf8_encode (take k t)) ≤ n → k ≤ length (fit t n)
unfolding fit utf8_encode
fit-maximal t n zero hk h = omega arith
fit-maximal [] n (suc k) hk h = absurd (omega arith)
fit-maximal (c ∷ cs) n (suc k) hk h =
    let size = length-append (utf8 c) (utf8_encode (take k cs)) in
    let room : length (utf8 c) ≤ n = omega (arith, size) in
    rw (le→leb (length (utf8 c)) n room)
      (omega (arith, fit-maximal cs (n - length (utf8 c)) k (omega arith) (omega (arith, size))))

-- `utf8_truncate` returns the bytes of a prefix of whole code points of the text, at most
-- `max_bytes` of them, and no longer prefix has an encoding that short.
pub utf8_truncate_lem :
    (t : Text) (max_bytes : ℕ)
    → All IsScalar t
    → (k : ℕ) × (utf8_truncate t max_bytes ≡ utf8_encode (take k t))
      × (length (utf8_truncate t max_bytes) ≤ max_bytes)
      × ((j : ℕ) → j ≤ length t → length (utf8_encode (take j t)) ≤ max_bytes → j ≤ k)
utf8_truncate_lem t max_bytes h = (
  length (fit t max_bytes),
  rw (utf8_truncate-fit t max_bytes h, fit-prefix t max_bytes) refl,
  rw (utf8_truncate-fit t max_bytes h) (length-fit t max_bytes),
  λ j hj hn. fit-maximal t max_bytes j hj hn,
)
