-- ===== src/Saturating.antt =====
-- saturating.go: additions and subtractions that stop at the ends of their type.
pub mod Laws
use shredstream_sdk_go.Prelude.{ℕ, ◌+◌, ◌-◌, ◌%◌, ◌^◌, ltb, if◌then◌else◌}

abbrev pub max_u64 : ℕ
max_u64 = 2 ^ 64 - 1

abbrev pub max_u32 : ℕ
max_u32 = 2 ^ 32 - 1

unfoldable pub saturating_add_u64 : ℕ → ℕ → ℕ
saturating_add_u64 a b = if ltb (max_u64 - b) a then max_u64 else (a + b) % 2 ^ 64

unfoldable pub saturating_sub_u64 : ℕ → ℕ → ℕ
saturating_sub_u64 a b = if ltb a b then 0 else (a + 2 ^ 64 - b) % 2 ^ 64

unfoldable pub saturating_add_u32 : ℕ → ℕ → ℕ
saturating_add_u32 a b = if ltb (max_u32 - b) a then max_u32 else (a + b) % 2 ^ 32

unfoldable pub saturating_sub_u32 : ℕ → ℕ → ℕ
saturating_sub_u32 a b = if ltb a b then 0 else (a + 2 ^ 32 - b) % 2 ^ 32
