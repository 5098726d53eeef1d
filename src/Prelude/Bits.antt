-- ===== src/Prelude/Bits.antt =====
-- Facts about masks and shifts of one byte, from tables that evaluation checks.
use mathlib.Core.Bool.{Bool, true, ◌&&◌}
use mathlib.Core.Path.{◌≡◌, refl, ◌∙◌}
use Prim.Native.Nat.{bit_and, bit_or, ℕ, zero, suc, ◌<◌, ◌+◌, ◌*◌, ◌/◌, ◌%◌}
use meshelle.Prelude.Tests.{==→eq, ◌==◌}
use native.Mathlib.Omega.{arith}

-- Whether the tables of two functions agree up to a length.
same_table : (f g : ℕ → ℕ) → ℕ → Bool
same_table f g zero = true
same_table f g (suc n) = (f n == g n) && same_table f g n

table_entry : (f g : ℕ → ℕ) (n x : ℕ) → x < n → same_table f g n ≡ true → (f x == g x) ≡ true
unfolding same_table
table_entry f g zero x below h = absurd (omega arith)
table_entry f g (suc n) x below h = ground (arith, table_entry f g n x)

-- Two functions whose tables agree are equal below the tables' length.
table : (n : ℕ) (f g : ℕ → ℕ) → same_table f g n ≡ true → (x : ℕ) → x < n → f x ≡ g x
table n f g t x below = ==→eq (f x) (g x) (table_entry f g n x below t)

pub bit_and_03 : (x : ℕ) → x < 256 → bit_and x 0x03 ≡ x % 4
unfolding same_table
bit_and_03 = table 256 (λ x. bit_and x 0x03) (λ x. x % 4) refl

pub bit_and_0f : (x : ℕ) → x < 256 → bit_and x 0x0f ≡ x % 16
unfolding same_table
bit_and_0f = table 256 (λ x. bit_and x 0x0f) (λ x. x % 16) refl

pub bit_and_3f : (x : ℕ) → x < 256 → bit_and x 0x3f ≡ x % 64
unfolding same_table
bit_and_3f = table 256 (λ x. bit_and x 0x3f) (λ x. x % 64) refl

pub bit_and_c0 : (x : ℕ) → x < 256 → bit_and x 0xc0 ≡ x / 64 * 64
unfolding same_table
bit_and_c0 = table 256 (λ x. bit_and x 0xc0) (λ x. x / 64 * 64) refl

pub bit_and_f8 : (x : ℕ) → x < 256 → bit_and x 248 ≡ x / 8 * 8
unfolding same_table
bit_and_f8 = table 256 (λ x. bit_and x 248) (λ x. x / 8 * 8) refl

-- Bit 6 set, and bit 7 cleared.
pub bit_or_40 : (x : ℕ) → x < 256 → bit_or (bit_and x 63) 64 ≡ x % 64 + 64
unfolding same_table
bit_or_40 = table 256 (λ x. bit_or (bit_and x 63) 64) (λ x. x % 64 + 64) refl

join_222_table : (x : ℕ) → x < 256 → bit_or (bit_or (x / 64 * 64) (x / 4 % 16 * 4)) (x % 4) ≡ x
unfolding same_table
join_222_table =
    table 256 (λ x. bit_or (bit_or (x / 64 * 64) (x / 4 % 16 * 4)) (x % 4)) (λ x. x) refl

join_26_table : (x : ℕ) → x < 256 → bit_or (x / 64 * 64) (x % 64) ≡ x
unfolding same_table
join_26_table = table 256 (λ x. bit_or (x / 64 * 64) (x % 64)) (λ x. x) refl

join_62_table : (x : ℕ) → x < 256 → bit_or (x / 4 * 4) (x % 4) ≡ x
unfolding same_table
join_62_table = table 256 (λ x. bit_or (x / 4 * 4) (x % 4)) (λ x. x) refl

parts_eq : (f : ℕ → ℕ → ℕ → ℕ) (a b c x y z : ℕ) → a ≡ x → b ≡ y → c ≡ z → f a b c ≡ f x y z
parts_eq f a b c x y z p q r = cc

-- The packet header byte: two bits, four bits, two bits.
pub bit_or_header :
    (v t r : ℕ) → v < 4 → t < 16 → r < 4 → bit_or (bit_or (v * 64) (t * 4)) r ≡ v * 64 + t * 4 + r
bit_or_header v t r hv ht hr =
    parts_eq (λ a b c. bit_or (bit_or (a * 64) (b * 4)) c) v t r _ _ _ (omega arith) (omega arith)
      (omega arith)
    ∙ join_222_table (v * 64 + t * 4 + r) (omega arith)

-- The path length byte: two bits and six bits.
pub bit_or_path_length : (s n : ℕ) → s < 4 → n < 64 → bit_or (s * 64) n ≡ s * 64 + n
bit_or_path_length s n hs hn =
    parts_eq (λ a b c. bit_or (a * 64) b) s n 0 _ _ 0 (omega arith) (omega arith) refl
    ∙ join_26_table (s * 64 + n) (omega arith)

-- The text flags byte: six bits and two bits.
pub bit_or_flags : (t a : ℕ) → t < 64 → a < 4 → bit_or (t * 4) a ≡ t * 4 + a
bit_or_flags t a ht ha =
    parts_eq (λ a b c. bit_or (a * 4) b) t a 0 _ _ 0 (omega arith) (omega arith) refl
    ∙ join_62_table (t * 4 + a) (omega arith)
