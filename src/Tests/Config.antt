-- ===== src/Tests/Config.antt =====
-- Runs of the environment file's parser.
use meshelle.Prelude.{List, [], codes, none, refl, some, starts_with, strip, ◌++◌, ◌=b=◌, ◌∷◌, ◌≡◌}
use meshelle.Proto.Text.{Text}
use meshelle.Config.Dotenv.{DotenvEntry, got, read_value}
use meshelle.Config.Dotenv.Quoted.{escape}
use meshelle.Config.Dotenv.Applied.{Environ, apply_dotenv, value_of}
use meshelle.Config.Keys
use meshelle.Config.Dotenv
use meshelle.Config.Dotenv.Quoted
use meshelle.Config.Dotenv.Applied

-- A password with a space, a number sign, a quote and a backslash.
abbrev password : Text
password = codes "a #b" ++ 34 ∷ 92 ∷ []

read_value-escape_example : read_value 1 (34 ∷ escape password ++ 34 ∷ []) [] ≡ got (password, 0)
read_value-escape_example = Quoted.read_value-escape 1 password []

-- A line of its own, an exported name, and a value over two lines.
abbrev file : Text
file = codes "# rooms" ++ 10 ∷ codes "export A=x #y" ++ 10 ∷ codes "B='p" ++ 10 ∷ codes "q'"

file_parsed :
    Dotenv.parse_dotenv file
    ≡ got (
        record { name = codes "A"; value = codes "x"; line = 2 }
        ∷ record { name = codes "B"; value = codes "p" ++ 10 ∷ codes "q"; line = 3 }
        ∷ [])
unfolding Dotenv.parse_dotenv ◌=b=◌ strip starts_with
file_parsed = refl

abbrev entries : List DotenvEntry
entries = record { name = codes "A"; value = codes "x"; line = 2 } ∷ []

abbrev environ : Environ
environ = (codes "A", codes "real") ∷ []

apply_dotenv-keeps_example :
    value_of (codes "A") (apply_dotenv entries environ (codes "B" ∷ [])).environ
    ≡ some (codes "real")
unfolding ◌=b=◌
apply_dotenv-keeps_example =
    Applied.apply_dotenv-keeps entries environ (codes "B" ∷ []) (codes "A") (codes "real")
      (refl, tt) refl

-- Two bytes in the form that the apps print, and a digit that is missing.
bytes_read : Keys.from_hex (Keys.cleaned (codes " DE:ad ")) ≡ some (0xde ∷ 0xad ∷ [])
unfolding Keys.from_hex Keys.cleaned strip
bytes_read = refl

key_too_short : Keys.parse_public_key (codes "dead") ≡ none
unfolding Keys.parse_public_key Keys.from_hex Keys.cleaned strip
key_too_short = refl
