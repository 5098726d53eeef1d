-- ===== src/Proto/Plain.antt =====
-- `_c_string` of proto/packet.py: the text in front of the first NUL.
use meshelle.Prelude.{
  All, Bytes, [], arith, if◌then◌else◌, refl, replicate, suc, zero, ℕ, ◌++◌, ◌<◌, ◌==◌, ◌∷◌, ◌≡◌,
}

-- `body[:body.find(b"\x00")]`, or the whole body where there is no NUL.
unfoldable pub c_string : Bytes → Bytes
c_string [] = []
c_string (b ∷ bs) = let rest = c_string bs in if b == 0 then [] else b ∷ rest

-- A text without a NUL.
abbrev pub NoNul : Bytes → Type 0
NoNul = All (λ b. 0 < b)

-- Cipher padding behind a text without a NUL is cut off again.
pub c_string-append_zeros :
    (text : Bytes) (n : ℕ) → NoNul text → c_string (text ++ replicate n 0) ≡ text
unfolding c_string
c_string-append_zeros [] zero h = refl
c_string-append_zeros [] (suc n) h = refl
c_string-append_zeros (b ∷ bs) n h = ground (arith, c_string-append_zeros bs n)

pub c_string-NoNul : (text : Bytes) → NoNul (c_string text)
unfolding c_string
c_string-NoNul [] = tt
c_string-NoNul (b ∷ bs) = ground (arith, c_string-NoNul bs)
