-- ===== src/Proto/Text/Split.antt =====
-- `utf8_split` of proto/text.py.
pub mod Chunks
use meshelle.Prelude.{
  Bytes, List, Option, [], drop, if◌then◌else◌, leb, length, ltb, none, not, some, suc, take, zero,
  ℕ, ◌&&◌, ◌+◌, ◌/◌, ◌==◌, ◌∷◌,
}
use meshelle.Proto.Error.{Result, err, guard, ok, out_of_fuel, value_error, ◌>>=◌, ◌>>◌}
use meshelle.Proto.Text.{Text, utf8_encode, utf8_truncate}
use meshelle.Proto.Text.Codec.{decode_strict}

-- `text.rfind(" ")`
unfoldable pub rfind_space : Text → Option ℕ
rfind_space [] = none
rfind_space (c ∷ cs) = elim (rfind_space cs) [
  | some k ↦ some (suc k)
  | none ↦ if c == b' ' then some 0 else none
]

-- `text.lstrip(" ")`
unfoldable pub lstrip : Text → Text
lstrip [] = []
lstrip (c ∷ cs) = let rest = lstrip cs in if c == b' ' then rest else c ∷ cs

-- Where the text is cut: at its last space, if that keeps at least half of it.
abbrev pub cut_at : Text → Option ℕ → Text
cut_at consumed none = consumed
cut_at consumed (some split_at) =
    if ltb 0 split_at && leb (length consumed / 2) split_at
    then take split_at consumed
    else consumed

unfoldable pub chunk_of : Text → Text → Text
unfolding rfind_space
chunk_of remaining consumed =
    if ltb (length consumed) (length remaining)
    then cut_at consumed (rfind_space consumed)
    else consumed

-- `candidate.decode("utf-8")`
abbrev pub decoded : Option Text → Result Text
decoded none = err value_error
decoded (some t) = ok t

-- The `while` loop, with a round of fuel for each chunk.
unfoldable pub split_loop : ℕ → Text → ℕ → Result (List Bytes)
unfolding chunk_of lstrip
split_loop zero remaining max_bytes = err out_of_fuel
split_loop (suc fuel) [] max_bytes = ok []
split_loop (suc fuel) (c ∷ cs) max_bytes = do
  let candidate = utf8_truncate (c ∷ cs) max_bytes
  guard (not (length candidate == 0)) value_error
  consumed ← decoded (decode_strict candidate)
  let chunk = chunk_of (c ∷ cs) consumed
  chunks ← split_loop fuel (lstrip (drop (length chunk) (c ∷ cs))) max_bytes
  ok (utf8_encode chunk ∷ chunks)

unfoldable pub utf8_split : Text → ℕ → Result (List Bytes)
unfolding split_loop
utf8_split text max_bytes = do
  guard (not (max_bytes == 0)) value_error
  split_loop (length text + 1) text max_bytes
