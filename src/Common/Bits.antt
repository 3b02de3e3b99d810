-- ===== src/Common/Bits.antt =====
-- Masks on bytes and 16-bit words as arithmetic: tables checked by evaluation.
use Prim.Native.Nat.{ℕ, zero, suc, ◌+◌, ◌*◌, ◌/◌, ◌%◌, ◌<◌, bit_and, bit_or}
use mathlib.Core.Path.{◌≡◌, refl}
use mathlib.Core.Bool.{Bool, true, ◌&&◌}
use native.Mathlib.Omega.{arith}
use safeswitch_router.Common.Logic.{◌==◌}

module _ (f g : ℕ → ℕ) where
  agree_below : ℕ → Bool
  agree_below zero = true
  agree_below (suc n) = f n == g n && agree_below n

  agree_below→eq : (n : ℕ) → agree_below n ≡ true → (i : ℕ) → i < n → f i ≡ g i
  unfolding agree_below
  agree_below→eq zero e i h = absurd (omega arith)
  agree_below→eq (suc n) e i h = ground (arith, agree_below→eq n (ground arith) i)

pub top_two_bits : (b : ℕ) → b < 256 → bit_and b 0xC0 ≡ b / 64 * 64
unfolding agree_below
top_two_bits = agree_below→eq _ _ 256 refl

pub low_six_bits : (b : ℕ) → b < 256 → bit_and b 0x3F ≡ b % 64
unfolding agree_below
low_six_bits = agree_below→eq _ _ 256 refl

-- `flags |= 0x8000` sets the top bit.
pub set_response_bit : (w : ℕ) → w < 65536 → bit_or w 0x8000 ≡ w % 32768 + 32768
unfolding agree_below
set_response_bit = agree_below→eq _ _ 65536 refl

-- `flags |= 0x0080` sets bit 7.
pub set_recursion_bit : (w : ℕ) → w < 65536 → bit_or w 0x0080 ≡ w / 256 * 256 + 128 + w % 128
unfolding agree_below
set_recursion_bit = agree_below→eq _ _ 65536 refl

-- `flags |= 0x0003` sets the two lowest bits.
pub set_low_two_bits : (w : ℕ) → w < 65536 → bit_or w 0x0003 ≡ w / 4 * 4 + 3
unfolding agree_below
set_low_two_bits = agree_below→eq _ _ 65536 refl

-- `flags & 0xFFF0`, which is also `flags &^ 0x000F` on 16 bits.
pub clear_low_four_bits : (w : ℕ) → w < 65536 → bit_and w 0xFFF0 ≡ w / 16 * 16
unfolding agree_below
clear_low_four_bits = agree_below→eq _ _ 65536 refl

-- `| 0x0002` where the four lowest bits are clear.
set_bit_one_table : (n : ℕ) → n < 4096 → bit_or (n * 16) 0x0002 ≡ n * 16 + 2
unfolding agree_below
set_bit_one_table = agree_below→eq _ _ 4096 refl

pub set_bit_one : (w : ℕ) → w < 65536 → bit_or (w / 16 * 16) 0x0002 ≡ w / 16 * 16 + 2
set_bit_one w h = set_bit_one_table (w / 16) (omega arith)
