-- ===== src/Proto/Ed25519/Clamped.antt =====
-- The scalar of proto/ed25519_expanded.py after `clamp_scalar`.
use mathlib.Core.Path.{subst}
use meshelle.Prelude.{
  All, All-drop, All-take, Bytes, IsByte, [], arith, bit_and_f8, bit_or_40, drop, from_le, get_or,
  length, length-append, length-drop, length-take, refl, suc, take, zero, ℕ, ◌%◌, ◌*◌, ◌++◌, ◌<◌,
  ◌^◌, ◌∙◌, ◌∷◌, ◌≡◌, ◌≤◌,
}
use meshelle.Proto.Error.{ok}
use meshelle.Proto.Ed25519.{clamp_first, clamp_last, clamp_scalar}

power_256 : ℕ → ℕ
power_256 zero = 1
power_256 (suc n) = 256 * power_256 n

get_or-IsByte : (bs : Bytes) (i : ℕ) → All IsByte bs → IsByte (get_or bs i 0)
get_or-IsByte [] i h = omega arith
get_or-IsByte (b ∷ bs) zero h = h.0
get_or-IsByte (b ∷ bs) (suc i) h = get_or-IsByte bs i h.1

-- A number whose highest byte is from 64 to 127.
from_le-top :
    (bs : Bytes) (z : ℕ)
    → All IsByte bs
    → 64 ≤ z
    → z < 128
    → (64 * power_256 (length bs) ≤ from_le (bs ++ z ∷ []))
      × (from_le (bs ++ z ∷ []) < 128 * power_256 (length bs))
unfolding power_256
from_le-top [] z h lo hi = (omega arith, omega arith)
from_le-top (b ∷ bs) z (hb, hs) lo hi =
    let (rest_lo, rest_hi) = from_le-top bs z hs lo hi in (omega arith, omega arith)

-- Clamping 32 bytes gives a scalar of 32 bytes that is a multiple of the cofactor 8, and whose
-- highest bit is bit 254.
pub clamp_scalar-bounds :
    (raw : Bytes)
    → length raw ≡ 32
    → All IsByte raw
    → (s : Bytes) × (clamp_scalar raw ≡ ok s)
      × (length s ≡ 32)
      × (from_le s % 8 ≡ 0)
      × (2 ^ 254 ≤ from_le s)
      × (from_le s < 2 ^ 255)
unfolding clamp_scalar power_256
clamp_scalar-bounds raw h hb =
    let first = clamp_first (get_or raw 0 0) in
    let z = clamp_last (get_or raw 31 0) in
    let middle = take 30 (drop 1 raw) in
    let first_value = bit_and_f8 (get_or raw 0 0) (get_or-IsByte raw 0 hb) in
    let z_value = bit_or_40 (get_or raw 31 0) (get_or-IsByte raw 31 hb) in
    let first_byte = get_or-IsByte raw 0 hb in
    let size : length middle ≡ 30 = omega (arith, length-take 30 (drop 1 raw), length-drop 1 raw) in
    let top : length (first ∷ middle) ≡ 31 = rw size refl in
    let (lo, hi) =
      from_le-top (first ∷ middle) z
        (omega arith, All-take IsByte 30 (drop 1 raw) (All-drop IsByte 1 raw hb)) (omega arith)
        (omega arith) in
    (
      first ∷ (middle ++ z ∷ []),
      rw h refl,
      length-append (first ∷ middle) (z ∷ []) ∙ rw size refl,
      omega arith,
      subst (λ n. 64 * power_256 n ≤ from_le (first ∷ (middle ++ z ∷ []))) top lo,
      subst (λ n. from_le (first ∷ (middle ++ z ∷ [])) < 128 * power_256 n) top hi,
    )
