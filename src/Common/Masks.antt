-- ===== src/Common/Masks.antt =====
-- Setting and testing one bit of a word of any size, from the digits that the native operations
-- stand for.
use Prim.Native.Nat.{
  ℕ, zero, suc, ◌+◌, ◌*◌, ◌/◌, ◌%◌, ◌^◌, ◌≤◌, ◌<◌, min, max, bit_and, bit_or, digits,
  bit_and-bitwise, bit_or-bitwise,
}
use mathlib.Core.Path.{◌≡◌, refl, ◌∙◌}
use native.Mathlib.Nat.{pow-suc}
use native.Mathlib.Omega.{arith}

-- The count of digits to go may be any number that is large enough.
digits_count :
    (z : ℕ → ℕ) (f : ℕ → ℕ → ℕ) (n m a b : ℕ) → a ≤ n → a ≤ m → digits z f n a b ≡ digits z f m a b
digits_count z f zero zero a b p q = refl
digits_count z f zero (suc m) zero b p q = refl
digits_count z f zero (suc m) (suc a) b p q = absurd (omega arith)
digits_count z f (suc n) zero zero b p q = refl
digits_count z f (suc n) zero (suc a) b p q = absurd (omega arith)
digits_count z f (suc n) (suc m) zero b p q = refl
digits_count z f (suc n) (suc m) (suc a) b p q =
    omega (arith, digits_count z f n m (suc a / 2) (b / 2) (omega arith) (omega arith))

bit_and_lowest : (a b : ℕ) → bit_and a b ≡ bit_and (a / 2) (b / 2) * 2 + min (a % 2) (b % 2)
bit_and_lowest zero b = omega (arith, bit_and-bitwise 0 b, bit_and-bitwise 0 (b / 2))
bit_and_lowest (suc a) b = omega (
  arith,
  bit_and-bitwise (suc a) b,
  bit_and-bitwise (suc a / 2) (b / 2),
  digits_count (λ c. zero) min a (suc a / 2) (suc a / 2) (b / 2) (omega arith) (omega arith),
)

bit_or_lowest : (a b : ℕ) → bit_or a b ≡ bit_or (a / 2) (b / 2) * 2 + max (a % 2) (b % 2)
bit_or_lowest zero b = omega (arith, bit_or-bitwise 0 b, bit_or-bitwise 0 (b / 2))
bit_or_lowest (suc a) b = omega (
  arith,
  bit_or-bitwise (suc a) b,
  bit_or-bitwise (suc a / 2) (b / 2),
  digits_count (λ c. c) max a (suc a / 2) (suc a / 2) (b / 2) (omega arith) (omega arith),
)

no_bits_below : (n a : ℕ) → a < n → bit_and a 0 ≡ 0
no_bits_below zero a h = absurd (omega arith)
no_bits_below (suc n) zero h = refl
no_bits_below (suc n) (suc a) h =
    omega (arith, bit_and_lowest (suc a) 0, no_bits_below n (suc a / 2) (omega arith))

half_bit_or : (a b : ℕ) → bit_or a b / 2 ≡ bit_or (a / 2) (b / 2)
half_bit_or a b = omega (arith, bit_or_lowest a b)

half_pow : (k : ℕ) → 2 ^ suc k / 2 ≡ 2 ^ k
half_pow k = omega (arith, pow-suc 2 k)

no_bits : (a : ℕ) → bit_and a 0 ≡ 0
no_bits a = no_bits_below (suc a) a (omega arith)

-- A bit other than the lowest is that of the half.
bit_and_pow_suc : (k x : ℕ) → bit_and x (2 ^ suc k) ≡ bit_and (x / 2) (2 ^ k) * 2
bit_and_pow_suc k x = bit_and_lowest x (2 ^ suc k) ∙ rw (half_pow k) (omega (arith, pow-suc 2 k))

-- A bit that has been set is seen.
pub set_bit_seen : (k x : ℕ) → 0 < bit_and (bit_or x (2 ^ k)) (2 ^ k)
set_bit_seen zero x = omega (arith, bit_and_lowest (bit_or x 1) 1, bit_or_lowest x 1)
set_bit_seen (suc k) x =
    rw (bit_and_pow_suc k, half_bit_or x, half_pow k) (omega (arith, set_bit_seen k (x / 2)))

-- A bit that is seen stays so, whatever is set besides.
pub seen_bit_stays : (k x y : ℕ) → 0 < bit_and x (2 ^ k) → 0 < bit_and (bit_or x y) (2 ^ k)
seen_bit_stays zero x y h = omega (
  arith,
  bit_and_lowest x 1,
  bit_and_lowest (bit_or x y) 1,
  bit_or_lowest x y,
  no_bits (x / 2),
  no_bits (bit_or x y / 2),
)
seen_bit_stays (suc k) x y h =
    let part : 0 < bit_and (x / 2) (2 ^ k) = omega (arith, bit_and_pow_suc k x) in
    rw (bit_and_pow_suc k, half_bit_or x) (omega (arith, seen_bit_stays k (x / 2) (y / 2) part))
