-- ===== src/Transport/Framing.antt =====
-- transport/framing.py. A list stands for the bytes that a stream still gives before it ends; the
-- timeouts are not modelled.
pub mod Resync
use meshelle.Prelude.{
  Bool, Bytes, Option, [], drop, if◌then◌else◌, le_bytes, leb, length, ltb, none, some, take, ℕ,
  ◌*◌, ◌++◌, ◌+◌, ◌==◌, ◌||◌, ◌∷◌,
}
use meshelle.Proto.Constants.{max_frame_size}

abbrev pub frame_start_tx : ℕ
frame_start_tx = b'<'

abbrev pub frame_start_rx : ℕ
frame_start_rx = b'>'

abbrev pub max_frame_len : ℕ
max_frame_len = max_frame_size

-- `FramingError`, or the frame.
unfoldable pub encode_frame : Bytes → Option Bytes
encode_frame payload =
    if length payload == 0
    then none
    else if ltb max_frame_len (length payload)
    then none
    else some (frame_start_tx ∷ le_bytes 2 (length payload) ++ payload)

-- `length == 0 or length > MAX_FRAME_LEN`
abbrev pub is_implausible : ℕ → Bool
is_implausible n = (n == 0) || ltb max_frame_len n

-- `readexactly(length)`: `none` is `IncompleteReadError`.
abbrev pub read_body : ℕ → Bytes → Option (Bytes × Bytes)
read_body n rest = if leb n (length rest) then some (take n rest, drop n rest) else none

-- The payload, and what the stream still gives. An implausible length has been consumed with its
-- marker.
unfoldable pub read_frame : Bytes → Option (Bytes × Bytes)
read_frame [] = none
read_frame (b ∷ []) = none
read_frame (b ∷ lo ∷ []) =
    let next = read_frame (lo ∷ []) in if b == frame_start_rx then none else next
read_frame (b ∷ lo ∷ hi ∷ rest) =
    let next = read_frame (lo ∷ hi ∷ rest) in
    let resumed = read_frame rest in
    if b == frame_start_rx
    then (if is_implausible (lo + 256 * hi) then resumed else read_body (lo + 256 * hi) rest)
    else next
