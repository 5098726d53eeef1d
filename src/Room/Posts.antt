-- ===== src/Room/Posts.antt =====
-- room/posts.py: taking in the text of a post, and what a pushed post looks like.
use meshelle.Prelude.{
  Bytes, List, [], if◌then◌else◌, length, min, strip, take, ℕ, ◌++◌, ◌+◌, ◌-◌, ◌==◌, ◌∷◌,
}
use meshelle.Proto.Error.{Result, ok, pack_u32, ◌>>=◌}
use meshelle.Proto.Constants.{max_post_text_len, signed_author_prefix_len, signed_plain}
use meshelle.Proto.Text.{Text, utf8_truncate}
use meshelle.Proto.Text.Codec.{decode_replace, decode_strict}
use meshelle.Proto.Text.Split.{decoded, utf8_split}
use meshelle.Proto.Datagram.{max_plaintext_len}
use meshelle.Proto.TextMessage.{flags}
use meshelle.Proto.TextMessage

abbrev pub push_overhead : ℕ
push_overhead = TextMessage.prefix_len + signed_author_prefix_len

unfoldable pub push_text_budget : ℕ → ℕ
push_text_budget path_bytes = min max_post_text_len (max_plaintext_len path_bytes - push_overhead)

-- `utf8_truncate(...).decode("utf-8")`, of the bytes decoded with replacements
unfoldable pub decode_post_text : Bytes → Result Text
decode_post_text raw =
    decoded (decode_strict (utf8_truncate (decode_replace raw) max_post_text_len))

-- The comprehension that decodes the chunks.
unfoldable pub decode_chunks : List Bytes → Result (List Text)
decode_chunks [] = ok []
decode_chunks (chunk ∷ chunks) = do
  t ← decoded (decode_strict chunk)
  ts ← decode_chunks chunks
  ok (t ∷ ts)

unfoldable pub split_welcome : Text → Result (List Text)
unfolding decode_chunks push_text_budget
split_welcome text =
    if length (strip text) == 0
    then ok []
    else (do chunks ← utf8_split text (push_text_budget 64); decode_chunks chunks)

-- The attempt's bits are given: the caller's, or random ones.
unfoldable pub build_push : ℕ → Bytes → Text → ℕ → ℕ → Result Bytes
unfolding push_text_budget
build_push post_ts author text attempt path_bytes = do
  stamp ← pack_u32 post_ts
  ok (
      stamp
      ++ (flags signed_plain attempt ∷ take signed_author_prefix_len author
          ++ utf8_truncate text (push_text_budget path_bytes)))
