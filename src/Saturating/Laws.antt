-- ===== src/Saturating/Laws.antt =====
-- The four operations as truncated arithmetic on numbers of any size.
use shredstream_sdk_go.Prelude.{ℕ, ◌+◌, ◌-◌, ◌^◌, ◌<◌, ◌≡◌, min, arith}
use shredstream_sdk_go.Saturating.{
  max_u64, max_u32, saturating_add_u64, saturating_sub_u64, saturating_add_u32, saturating_sub_u32,
}

saturating_add_u64_lem :
    (a b : ℕ) → a < 2 ^ 64 → b < 2 ^ 64 → saturating_add_u64 a b ≡ min (a + b) max_u64
unfolding saturating_add_u64
saturating_add_u64_lem a b h k = ground arith

saturating_sub_u64_lem : (a b : ℕ) → a < 2 ^ 64 → b < 2 ^ 64 → saturating_sub_u64 a b ≡ a - b
unfolding saturating_sub_u64
saturating_sub_u64_lem a b h k = ground arith

saturating_add_u32_lem :
    (a b : ℕ) → a < 2 ^ 32 → b < 2 ^ 32 → saturating_add_u32 a b ≡ min (a + b) max_u32
unfolding saturating_add_u32
saturating_add_u32_lem a b h k = ground arith

saturating_sub_u32_lem : (a b : ℕ) → a < 2 ^ 32 → b < 2 ^ 32 → saturating_sub_u32 a b ≡ a - b
unfolding saturating_sub_u32
saturating_sub_u32_lem a b h k = ground arith

-- Of 64-bit arguments the sum and the difference are exact, but for a result outside the type: then
-- the nearest end of the type is the result.
pub saturating_u64 :
    (a b : ℕ)
    → a < 2 ^ 64
    → b < 2 ^ 64
    → (saturating_add_u64 a b ≡ min (a + b) max_u64) × (saturating_sub_u64 a b ≡ a - b)
saturating_u64 a b h k = (saturating_add_u64_lem a b h k, saturating_sub_u64_lem a b h k)

-- The same of 32-bit arguments and the 32-bit operations.
saturating_u32 :
    (a b : ℕ)
    → a < 2 ^ 32
    → b < 2 ^ 32
    → (saturating_add_u32 a b ≡ min (a + b) max_u32) × (saturating_sub_u32 a b ≡ a - b)
saturating_u32 a b h k = (saturating_add_u32_lem a b h k, saturating_sub_u32_lem a b h k)
