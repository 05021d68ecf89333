-- ===== src/Galois.antt =====
-- internal/galois/gf256.go: the field of 256 elements, by tables of logarithms.
pub mod Powers
pub mod Xor
pub mod Field
use shredstream_sdk_go.Prelude.{
  ℕ, zero, suc, ◌+◌, ◌-◌, ◌*◌, ◌%◌, List, [], ◌∷◌, ◌++◌, Bool, true, false, ◌||◌, Option, none,
  some, ltb, leb, ◌==◌, if◌then◌else◌, get_or, set, replicate, bit_and, bit_xor,
}

abbrev pub primitive_poly : ℕ
primitive_poly = 0x11D

-- The step of the loop of `init`: `b <<= 1; if b >= 256 { b ^= PrimitivePoly; b &= 0xFF }`.
unfoldable pub times_two : ℕ → ℕ
times_two b = let b' = b * 2 in if leb 256 b' then bit_and (bit_xor b' primitive_poly) 0xFF else b'

-- What the loop writes to `expTable[log]` in `n` rounds from `b`.
unfoldable pub powers : ℕ → ℕ → List ℕ
powers zero b = []
powers (suc n) b = b ∷ powers n (times_two b)

-- Each power is written at `log` and at `log + 255`.
unfoldable pub exp_table : List ℕ
exp_table = powers 255 1 ++ powers 255 1

-- `logTable[b] = log`, round by round.
unfoldable pub log_loop : ℕ → ℕ → ℕ → List ℕ → List ℕ
log_loop zero log b table = table
log_loop (suc n) log b table = log_loop n (suc log) (times_two b) (set table b log)

unfoldable pub log_table : List ℕ
log_table = log_loop 255 0 1 (replicate 256 0)

unfoldable pub exp_at : ℕ → ℕ
exp_at i = get_or exp_table i 0

unfoldable pub log_at : ℕ → ℕ
log_at a = get_or log_table a 0

unfoldable pub add : ℕ → ℕ → ℕ
add a b = bit_xor a b

unfoldable pub mul : ℕ → ℕ → ℕ
mul a b = if a == 0 || b == 0 then 0 else exp_at (log_at a + log_at b)

-- `none` is the panic on a division by zero.
unfoldable pub div : ℕ → ℕ → Option ℕ
div a b =
    if a == 0
    then some 0
    else if b == 0
    then none
    else if ltb (log_at a) (log_at b)
    then some (exp_at (log_at a + 255 - log_at b))
    else some (exp_at (log_at a - log_at b))

unfoldable pub inv : ℕ → Option ℕ
inv a = if a == 0 then none else some (exp_at (255 - log_at a))

-- Exp. `n` is never negative.
unfoldable pub exp : ℕ → ℕ → ℕ
exp a n = if n == 0 then 1 else if a == 0 then 0 else exp_at (log_at a * n % 255)
