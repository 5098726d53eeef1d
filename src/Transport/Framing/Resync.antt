-- ===== src/Transport/Framing/Resync.antt =====
-- What the frame reader of transport/framing.py finds in a stream.
use mathlib.Core.Option.{some-injective, none-ne-some}
use meshelle.Prelude.{
  ==→eq, All, Bool-cases, Bytes, [], ap, arith, drop, drop-append, false, inl, inr, leb, leb→le,
  length, length-append, length-take, none, refl, some, sym, take, take-append, take-append-drop,
  true, ℕ, ◌%◌, ◌*◌, ◌++◌, ◌+◌, ◌/◌, ◌<◌, ◌==◌, ◌∙◌, ◌∷◌, ◌≡◌, ◌≤◌,
}
use meshelle.Transport.Framing.{
  frame_start_rx, is_implausible, max_frame_len, read_body, read_frame,
}

-- A frame as the companion sends it.
abbrev pub received_frame : Bytes → Bytes
received_frame payload = frame_start_rx ∷ (length payload % 256 ∷ length payload / 256 ∷ payload)

read_frame-frame :
    (payload rest : Bytes)
    → 0 < length payload
    → length payload ≤ max_frame_len
    → read_frame (received_frame payload ++ rest) ≡ some (payload, rest)
unfolding read_frame
read_frame-frame payload rest some_bytes fits =
    let n : length payload % 256 + 256 * (length payload / 256) ≡ length payload = omega arith in
    let plausible : is_implausible (length payload) ≡ false = ground arith in
    let whole : leb (length payload) (length (payload ++ rest)) ≡ true =
      let size = length-append payload rest in ground arith in
    rw
      (
        n,
        plausible,
        whole,
        take-append (length payload) payload rest refl,
        drop-append (length payload) payload rest refl,
      )
      refl

read_frame-skip :
    (b : ℕ) (rest : Bytes) → (b == frame_start_rx) ≡ false → read_frame (b ∷ rest) ≡ read_frame rest
unfolding read_frame
read_frame-skip b [] other = refl
read_frame-skip b (lo ∷ []) other = rw other refl
read_frame-skip b (lo ∷ hi ∷ rest) other = rw other refl

-- Bytes without the marker in front of a frame are skipped, and the frame's payload and what comes
-- after it are returned, if the payload has a size that the companion can send.
pub read_frame-received :
    (junk payload rest : Bytes)
    → All (λ b. (b == frame_start_rx) ≡ false) junk
    → 0 < length payload
    → length payload ≤ max_frame_len
    → read_frame (junk ++ received_frame payload ++ rest) ≡ some (payload, rest)
read_frame-received [] payload rest clean some_bytes fits =
    read_frame-frame payload rest some_bytes fits
read_frame-received (b ∷ junk) payload rest (other, clean) some_bytes fits =
    read_frame-skip b (junk ++ received_frame payload ++ rest) other
    ∙ read_frame-received junk payload rest clean some_bytes fits

-- A part of the stream that ends in a whole frame.
abbrev pub IsFrameIn : Bytes → Bytes → Bytes → Type 0
IsFrameIn stream payload rest =
    (skipped : Bytes) × (lo hi : ℕ) × (stream
      ≡ skipped ++ frame_start_rx ∷ lo ∷ hi ∷ payload ++ rest)
    × (length payload ≡ lo + 256 * hi)
    × (0 < length payload)
    × (length payload ≤ max_frame_len)

IsFrameIn-cons :
    (b : ℕ) (stream payload rest : Bytes)
    → IsFrameIn stream payload rest
    → IsFrameIn (b ∷ stream) payload rest
IsFrameIn-cons b stream payload rest (skipped, lo, hi, e, n, low, high) =
    (b ∷ skipped, lo, hi, ap (◌∷◌ b) e, n, low, high)

read_body-IsFrameIn :
    (lo hi : ℕ) (more payload rest : Bytes)
    → is_implausible (lo + 256 * hi) ≡ false
    → read_body (lo + 256 * hi) more ≡ some (payload, rest)
    → IsFrameIn (frame_start_rx ∷ lo ∷ hi ∷ more) payload rest
read_body-IsFrameIn lo hi more payload rest plausible h =
    elim (Bool-cases (leb (lo + 256 * hi) (length more))) [
      | inl whole ↦
          let step : read_body (lo + 256 * hi) more
              ≡ some (take (lo + 256 * hi) more, drop (lo + 256 * hi) more) =
            rw whole refl in
          let taken = sym step ∙ h in
          let both = some-injective _ _ taken in
          let p : take (lo + 256 * hi) more ≡ payload = ap (λ x. x.0) both in
          let r : drop (lo + 256 * hi) more ≡ rest = ap (λ x. x.1) both in
          let size = length-take (lo + 256 * hi) more in
          let n : length payload ≡ lo + 256 * hi =
            let fits = leb→le (lo + 256 * hi) (length more) whole in
            sym (ap length p) ∙ size ∙ omega arith in
          (
            [],
            lo,
            hi,
            rw (sym p, sym r, take-append-drop (lo + 256 * hi) more) refl,
            n,
            ground arith,
            ground arith,
          )
      | inr short ↦
          let step : read_body (lo + 256 * hi) more ≡ none = rw short refl in
          absurd (none-ne-some (payload, rest) (sym step ∙ h))
    ]

-- Whatever stands in the stream, a payload that is returned is that of a frame in it: its length is
-- the declared one, from 1 to the companion's buffer, and the rest of the stream follows it.
pub read_frame-IsFrameIn :
    (stream payload rest : Bytes)
    → read_frame stream ≡ some (payload, rest)
    → IsFrameIn stream payload rest
unfolding read_frame
read_frame-IsFrameIn [] payload rest h = cc
read_frame-IsFrameIn (b ∷ []) payload rest h = cc
read_frame-IsFrameIn (b ∷ lo ∷ []) payload rest h = absurd (ground (arith, h))
read_frame-IsFrameIn (b ∷ lo ∷ hi ∷ more) payload rest h = elim (Bool-cases (b == frame_start_rx)) [
  | inl marker ↦ elim (Bool-cases (is_implausible (lo + 256 * hi))) [
    | inl wrong ↦
        let resumed : read_frame more ≡ some (payload, rest) =
          let step : read_frame (b ∷ lo ∷ hi ∷ more) ≡ read_frame more = rw (marker, wrong) refl in
          sym step ∙ h in
        IsFrameIn-cons b _ payload rest (
          IsFrameIn-cons lo _ payload rest
            (IsFrameIn-cons hi more payload rest (read_frame-IsFrameIn more payload rest resumed)))
    | inr plausible ↦
        let body : read_body (lo + 256 * hi) more ≡ some (payload, rest) =
          let step : read_frame (b ∷ lo ∷ hi ∷ more) ≡ read_body (lo + 256 * hi) more =
            rw (marker, plausible) refl in
          sym step ∙ h in
        rw (==→eq b frame_start_rx marker)
          (read_body-IsFrameIn lo hi more payload rest plausible body)
  ]
  | inr other ↦
      let next : read_frame (lo ∷ hi ∷ more) ≡ some (payload, rest) =
        sym (read_frame-skip b (lo ∷ hi ∷ more) other) ∙ h in
      IsFrameIn-cons b _ payload rest (read_frame-IsFrameIn (lo ∷ hi ∷ more) payload rest next)
]
