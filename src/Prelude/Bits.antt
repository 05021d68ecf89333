-- ===== src/Prelude/Bits.antt =====
-- Facts about masks and shifts that hold on bytes, checked value by value.
use Prim.Native.Nat.{ℕ, zero, suc, ◌+◌, ◌*◌, ◌/◌, ◌%◌, ◌<◌, bit_and, bit_or}
use mathlib.Core.Path.{◌≡◌, refl}
use mathlib.Core.Bool.{Bool, true, ◌&&◌}
use native.Mathlib.Omega.{arith}
use shredstream_sdk_go.Prelude.Tests.{◌==◌, ==_iff}

-- A test of every number below the bound.
unfoldable pub all_below : ℕ → (ℕ → Bool) → Bool
all_below zero p = true
all_below (suc n) p = p n && all_below n p

pub all_below→true : (n : ℕ) (p : ℕ → Bool) (x : ℕ) → all_below n p ≡ true → x < n → p x ≡ true
unfolding all_below
all_below→true zero p x h lt = absurd (omega arith)
all_below→true (suc n) p x h lt = ground (arith, all_below→true n p x)

-- Two functions that agree on every number below the bound.
pub agree_below :
    (n : ℕ) (f g : ℕ → ℕ) → all_below n (λ x. f x == g x) ≡ true → (x : ℕ) → x < n → f x ≡ g x
agree_below n f g h x lt = (==_iff (f x) (g x)).0 (all_below→true n (λ x. f x == g x) x h lt)

pub low_seven_bits : (b : ℕ) → b < 256 → bit_and b 0x7f ≡ b % 128
unfolding all_below
low_seven_bits = agree_below 256 (λ b. bit_and b 0x7f) (λ b. b % 128) refl

pub low_two_bits : (b : ℕ) → b < 256 → bit_and b 0x03 ≡ b % 4
unfolding all_below
low_two_bits = agree_below 256 (λ b. bit_and b 0x03) (λ b. b % 4) refl

pub low_four_bits : (b : ℕ) → b < 256 → bit_and b 0x0f ≡ b % 16
unfolding all_below
low_four_bits = agree_below 256 (λ b. bit_and b 0x0f) (λ b. b % 16) refl

pub high_bit : (b : ℕ) → b < 256 → bit_and b 0x80 ≡ b / 128 * 128
unfolding all_below
high_bit = agree_below 256 (λ b. bit_and b 0x80) (λ b. b / 128 * 128) refl

pub set_high_bit : (b : ℕ) → b < 128 → bit_or b 0x80 ≡ b + 128
unfolding all_below
set_high_bit = agree_below 128 (λ b. bit_or b 0x80) (λ b. b + 128) refl

pub two_high_bits : (b : ℕ) → b < 256 → bit_and b 0xc0 ≡ b / 64 * 64
unfolding all_below
two_high_bits = agree_below 256 (λ b. bit_and b 0xc0) (λ b. b / 64 * 64) refl

pub second_bit : (b : ℕ) → b < 256 → bit_and b 0x40 ≡ b / 64 % 2 * 64
unfolding all_below
second_bit = agree_below 256 (λ b. bit_and b 0x40) (λ b. b / 64 % 2 * 64) refl
