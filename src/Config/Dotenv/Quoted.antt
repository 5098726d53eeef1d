-- ===== src/Config/Dotenv/Quoted.antt =====
-- Values of config/dotenv.py in quotes.
use meshelle.Prelude.{
  Bool-cases, List, [], ap, arith, drop, drop-append_more, false, if◌then◌else◌, inl, inr, is_space,
  length, refl, some, strip, strip_left, strip_right, take, take-append, ℕ, ◌++◌, ◌+◌, ◌==◌, ◌||◌,
  ◌∙◌, ◌∷◌, ◌≡◌,
}
use meshelle.Proto.Text.{Text}
use meshelle.Config.Dotenv.{
  closing_quote, escape_of, got, quoted_value, read_body, read_quoted, read_value, unescape,
}

-- How a value is written between double quotes: a backslash before a backslash or a quote.
abbrev pub escape : Text → Text
escape [] = []
escape (c ∷ cs) = if (c == 92) || (c == b'"') then 92 ∷ c ∷ escape cs else c ∷ escape cs

unescape-plain : (c : ℕ) (cs : Text) → (c == 92) ≡ false → unescape (c ∷ cs) ≡ c ∷ unescape cs
unfolding unescape
unescape-plain c [] h = refl
unescape-plain c (d ∷ ds) h = rw h refl

unescape-escape : (v : Text) → unescape (escape v) ≡ v
unfolding unescape
unescape-escape [] = refl
unescape-escape (c ∷ cs) =
    let rest = unescape-escape cs in
    elim (Bool-cases ((c == 92) || (c == b'"'))) [
      | inl special ↦
          let itself : escape_of c ≡ c ∷ [] = ground arith in rw (special, itself, rest) refl
      | inr ordinary ↦
          let not_backslash : (c == 92) ≡ false = ground arith in
          rw ordinary (unescape-plain c (escape cs) not_backslash ∙ ap (◌∷◌ c) rest)
    ]

closing_quote-escape :
    (v : Text) → closing_quote false b'"' (escape v ++ b'"' ∷ []) ≡ some (length (escape v))
unfolding closing_quote
closing_quote-escape [] = refl
closing_quote-escape (c ∷ cs) =
    let rest = closing_quote-escape cs in
    elim (Bool-cases ((c == 92) || (c == b'"'))) [
      | inl special ↦ rw (special, rest) refl
      | inr ordinary ↦
          let not_backslash : (c == 92) ≡ false = ground arith in
          let not_quote : (c == b'"') ≡ false = ground arith in
          rw (ordinary, closing_quote, not_backslash, not_quote, rest) refl
    ]

-- A text between quotes has no white space to strip.
strip_right-quoted : (xs : Text) → strip_right (xs ++ b'"' ∷ []) ≡ xs ++ b'"' ∷ []
unfolding strip_right is_space
strip_right-quoted [] = refl
strip_right-quoted (x ∷ []) = refl
strip_right-quoted (x ∷ y ∷ ys) = rw (strip_right-quoted (y ∷ ys)) refl

strip-quoted : (xs : Text) → strip (b'"' ∷ xs ++ b'"' ∷ []) ≡ b'"' ∷ xs ++ b'"' ∷ []
unfolding strip strip_left is_space
strip-quoted xs = strip_right-quoted (b'"' ∷ xs)

read_quoted-closed :
    (number quote : ℕ) (buffer : Text) (later : List Text) (consumed end : ℕ)
    → closing_quote false quote buffer ≡ some end
    → read_quoted number quote buffer later consumed ≡ quoted_value number quote buffer consumed end
unfolding read_quoted
read_quoted-closed number quote buffer [] consumed end e = rw (e, read_quoted) refl
read_quoted-closed number quote buffer (l ∷ ls) consumed end e = rw (e, read_quoted) refl

quoted_value-escape :
    (number : ℕ) (v : Text)
    → quoted_value number b'"' (escape v ++ b'"' ∷ []) 0 (length (escape v)) ≡ got (v, 0)
unfolding quoted_value strip strip_left strip_right
quoted_value-escape number v =
    let nothing_after : drop (length (escape v) + 1) (escape v ++ b'"' ∷ []) ≡ [] =
      drop-append_more (length (escape v) + 1) 1 (escape v) (b'"' ∷ []) refl in
    let inside : take (length (escape v)) (escape v ++ b'"' ∷ []) ≡ escape v =
      take-append (length (escape v)) (escape v) (b'"' ∷ []) refl in
    rw (nothing_after, inside, unescape-escape v) refl

-- Every value, with spaces, quotes, backslashes and number signs in it, is read back from double
-- quotes, where its backslashes and quotes are escaped, and takes no further line.
pub read_value-escape :
    (number : ℕ) (v : Text) (later : List Text)
    → read_value number (b'"' ∷ escape v ++ b'"' ∷ []) later ≡ got (v, 0)
unfolding read_value read_body
read_value-escape number v later = rw (strip-quoted (escape v)) (
    read_quoted-closed number b'"' (escape v ++ b'"' ∷ []) later 0 (length (escape v))
      (closing_quote-escape v)
    ∙ quoted_value-escape number v)
