-- ===== src/Config/Dotenv.antt =====
-- config/dotenv.py: the parser of an environment file, and its application. An environment is a list
-- of names with their values. Reading the file itself is input.
pub mod Quoted
pub mod Applied
use mathlib.Core.Option
use meshelle.Prelude.{
  Bool, List, Option, [], any, codes, drop, false, get_or, if◌then◌else◌, is_space, leb, length,
  map, none, not, some, starts_with, strip, strip_left, suc, take, true, zero, ℕ, ◌&&◌, ◌++◌, ◌+◌,
  ◌==◌, ◌=b=◌, ◌||◌, ◌∷◌,
}
use meshelle.Proto.Text.{Text}

-- The messages of `DotenvError`. `no_fuel` stands where the model's fuel ends.
pub data Fault : Type 0 where
  no_separator bad_name repeated_name text_after_quote unterminated no_fuel : Fault

-- A fault is at a line.
pub data Reading {ℓ} (A : Type ℓ) : Type ℓ where
  fault : Fault → ℕ → Reading A
  got : A → Reading A

infixl 5 ◌>>=◌
abbrev pub ◌>>=◌ {ℓ κ} : {A : Type ℓ} {B : Type κ} → Reading A → (A → Reading B) → Reading B
fault f number >>= rest = fault f number
got a >>= rest = rest a

infixl 5 ◌>>◌
abbrev pub ◌>>◌ {κ} : {B : Type κ} → Reading (Unit {0}) → Reading B → Reading B
first >> rest = first >>= λ done. rest

abbrev pub expect : Bool → Fault → ℕ → Reading (Unit {0})
expect false f number = fault f number
expect true f number = got tt

pub record DotenvEntry : Type 0 where
  pub name : Text
  pub value : Text
  pub line : ℕ

-- The characters that end a line for `str.splitlines`.
abbrev pub is_line_break : ℕ → Bool
is_line_break c =
    (leb 10 c && leb c 13)
    || (leb 28 c && leb c 30)
    || (c == 0x85)
    || (c == 0x2028)
    || (c == 0x2029)

abbrev pub onto_line : ℕ → List Text → List Text
onto_line c [] = (c ∷ []) ∷ []
onto_line c (l ∷ ls) = (c ∷ l) ∷ ls

-- `text.splitlines()`; a line feed behind a carriage return belongs to it.
unfoldable pub split_lines : Bool → Text → List Text
split_lines after_return [] = []
split_lines after_return (c ∷ cs) =
    let joined = split_lines false cs in
    let ended = split_lines (c == 13) cs in
    if after_return && (c == 10)
    then joined
    else if is_line_break c
    then [] ∷ ended
    else onto_line c joined

abbrev pub is_name_start : ℕ → Bool
is_name_start c = (leb b'A' c && leb c b'Z') || (leb b'a' c && leb c b'z') || (c == b'_')

abbrev pub is_name_part : ℕ → Bool
is_name_part c = is_name_start c || (leb b'0' c && leb c b'9')

unfoldable pub all_name_parts : Text → Bool
all_name_parts [] = true
all_name_parts (c ∷ cs) = is_name_part c && all_name_parts cs

-- `NAME_RE.fullmatch(name)`
unfoldable pub is_name : Text → Bool
unfolding all_name_parts
is_name [] = false
is_name (c ∷ cs) = is_name_start c && all_name_parts cs

-- `EXPORT_PREFIX.sub("", text)`
unfoldable pub without_export : Text → Text
without_export text =
    if starts_with text (codes "export") && is_space (get_or text 6 0)
    then strip_left (drop 6 text)
    else text

-- `text.partition("=")`, if there is a separator.
unfoldable pub partition : Text → Option (Text × Text)
partition [] = none
partition (c ∷ cs) =
    let rest = Option.map (λ (before, after). (c ∷ before, after)) (partition cs) in
    if c == b'=' then some ([], cs) else rest

-- The text before an inline comment: `#` at the start or behind white space, which is left out.
unfoldable pub before_comment : Bool → Text → Text
before_comment spaced [] = []
before_comment spaced (c ∷ cs) =
    let rest = c ∷ before_comment (is_space c) cs in if spaced && (c == b'#') then [] else rest

abbrev pub later_by_one : Option ℕ → Option ℕ
later_by_one o = Option.map (λ n. suc n) o

-- `_closing_quote`; an escaped character of a double-quoted value is passed over.
unfoldable pub closing_quote : Bool → ℕ → Text → Option ℕ
closing_quote escaped quote [] = none
closing_quote true quote (c ∷ cs) = later_by_one (closing_quote false quote cs)
closing_quote false quote (c ∷ cs) =
    let passed = later_by_one (closing_quote true quote cs) in
    let further = later_by_one (closing_quote false quote cs) in
    if (quote == b'"') && (c == 92) then passed else if c == quote then some 0 else further

-- `ESCAPES.get(following, "\\" + following)`
abbrev pub escape_of : ℕ → Text
escape_of c =
    if c == b'n'
    then 10 ∷ []
    else if c == b'r'
    then 13 ∷ []
    else if c == b't'
    then 9 ∷ []
    else if (c == 92) || (c == b'"') || (c == 39)
    then c ∷ []
    else 92 ∷ c ∷ []

-- `_unescape`
unfoldable pub unescape : Text → Text
unescape [] = []
unescape (c ∷ []) = c ∷ []
unescape (c ∷ d ∷ rest) =
    let taken = escape_of d ++ unescape rest in
    let kept = c ∷ unescape (d ∷ rest) in if c == 92 then taken else kept

-- A value whose closing quote is at a place of the buffer, and how many more lines it took.
unfoldable pub quoted_value : ℕ → ℕ → Text → ℕ → ℕ → Reading (Text × ℕ)
unfolding unescape
quoted_value number quote buffer consumed end = do
  let trailing = strip (drop (end + 1) buffer)
  expect ((length trailing == 0) || starts_with trailing (b'#' ∷ [])) text_after_quote number
  got (if quote == b'"' then unescape (take end buffer) else take end buffer, consumed)

abbrev pub closed_or : ℕ → ℕ → Text → ℕ → Option ℕ → Reading (Text × ℕ) → Reading (Text × ℕ)
closed_or number quote buffer consumed none otherwise = otherwise
closed_or number quote buffer consumed (some end) otherwise =
    quoted_value number quote buffer consumed end

-- The loop over the lines of a quoted value.
unfoldable pub read_quoted : ℕ → ℕ → Text → List Text → ℕ → Reading (Text × ℕ)
unfolding closing_quote quoted_value
read_quoted number quote buffer [] consumed =
    closed_or number quote buffer consumed (closing_quote false quote buffer)
      (fault unterminated number)
read_quoted number quote buffer (l ∷ ls) consumed =
    let more = read_quoted number quote (buffer ++ 10 ∷ l) ls (consumed + 1) in
    closed_or number quote buffer consumed (closing_quote false quote buffer) more

abbrev pub is_quote : ℕ → Bool
is_quote c = (c == b'"') || (c == 39)

unfoldable pub read_body : ℕ → Text → List Text → Reading (Text × ℕ)
unfolding read_quoted before_comment
read_body number [] later = got ([], 0)
read_body number (c ∷ cs) later =
    if is_quote c
    then read_quoted number c cs later 0
    else got (strip (before_comment true (c ∷ cs)), 0)

-- `_read_value`, of the text behind the separator and the lines that follow.
unfoldable pub read_value : ℕ → Text → List Text → Reading (Text × ℕ)
unfolding read_body
read_value number remainder later = read_body number (strip remainder) later

abbrev pub separated : ℕ → Option (Text × Text) → Reading (Text × Text)
separated number none = fault no_separator number
separated number (some parts) = got parts

-- One assignment: the entry, and how many more lines it took.
unfoldable pub read_entry : ℕ → Text → List Text → List Text → Reading (DotenvEntry × ℕ)
unfolding read_value is_name partition without_export
read_entry number stripped later seen = do
  (before, remainder) ← separated number (partition (without_export stripped))
  let name = strip before
  expect (is_name name) bad_name number
  expect (not (any (λ other. other =b= name) seen)) repeated_name number
  (value, consumed) ← read_value number remainder later
  got (record { name = name; value = value; line = number }, consumed)

abbrev pub is_skipped : Text → Bool
is_skipped stripped = (length stripped == 0) || starts_with stripped (b'#' ∷ [])

-- The loop of `parse_dotenv`, with a round of fuel for each line.
unfoldable pub parse_lines : ℕ → ℕ → List Text → List Text → Reading (List DotenvEntry)
unfolding read_entry
parse_lines fuel number [] seen = got []
parse_lines zero number (l ∷ ls) seen = fault no_fuel number
parse_lines (suc fuel) number (l ∷ ls) seen =
    let skipped = parse_lines fuel (number + 1) ls seen in
    if is_skipped (strip l) then skipped else (do
      (entry, consumed) ← read_entry number (strip l) ls seen
      entries ← parse_lines fuel (number + 1 + consumed) (drop consumed ls) (entry.name ∷ seen)
      got (entry ∷ entries))

unfoldable pub parse_dotenv : Text → Reading (List DotenvEntry)
unfolding parse_lines split_lines
parse_dotenv text = let lines = split_lines false text in parse_lines (length lines) 1 lines []
