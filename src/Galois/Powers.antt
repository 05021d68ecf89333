-- ===== src/Galois/Powers.antt =====
-- The tables as powers of two in the field.
use shredstream_sdk_go.Prelude.{
  ℕ, zero, suc, ◌+◌, ◌%◌, ◌<◌, ◌≡◌, refl, ap, ◌∙◌, Bool, true, ◌&&◌, ltb, leb, ◌==◌, ==_iff,
  bit_xor, arith, all_below, all_below→true, agree_below,
}
use shredstream_sdk_go.Galois.{times_two, powers, exp_table, log_table, log_loop, exp_at, log_at}

-- `b` times the `n`-th power of two.
unfoldable pub shifted : ℕ → ℕ → ℕ
shifted zero b = b
shifted (suc n) b = shifted n (times_two b)

exp_table_check : all_below 510 (λ i. exp_at i == shifted i 1) ≡ true
unfolding all_below exp_at exp_table powers times_two shifted
exp_table_check = refl

pub exp_at_lem : (i : ℕ) → i < 510 → exp_at i ≡ shifted i 1
exp_at_lem = agree_below 510 exp_at (λ i. shifted i 1) exp_table_check

log_table_check :
    all_below 255 (λ a. (exp_at (log_at (suc a)) == suc a) && ltb (log_at (suc a)) 255) ≡ true
unfolding all_below exp_at exp_table powers times_two log_at log_table log_loop
log_table_check = refl

exp_log_check :
    all_below 255 (λ i. (log_at (exp_at i) == i) && (leb 1 (exp_at i) && ltb (exp_at i) 256)) ≡ true
unfolding all_below exp_at exp_table powers times_two log_at log_table log_loop
exp_log_check = refl

times_two_check :
    all_below 256
      (λ a. all_below 256 (λ b. times_two (bit_xor a b) == bit_xor (times_two a) (times_two b)))
    ≡ true
unfolding all_below times_two
times_two_check = refl

times_two_range : all_below 256 (λ a. ltb (times_two a) 256) ≡ true
unfolding all_below times_two
times_two_range = refl

xor_range : all_below 256 (λ a. all_below 256 (λ b. ltb (bit_xor a b) 256)) ≡ true
unfolding all_below
xor_range = refl

-- A test of every pair of bytes.
pub all_pairs→true :
    (m n : ℕ) (p : ℕ → ℕ → Bool) (a b : ℕ)
    → all_below m (λ x. all_below n (p x)) ≡ true
    → a < m
    → b < n
    → p a b ≡ true
all_pairs→true m n p a b h ha hb =
    all_below→true n (p a) b (all_below→true m (λ x. all_below n (p x)) a h ha) hb

pub xor-lt : (a b : ℕ) → a < 256 → b < 256 → bit_xor a b < 256
xor-lt a b ha hb =
    ground (arith, all_pairs→true 256 256 (λ x y. ltb (bit_xor x y) 256) a b xor_range ha hb)

times_two-xor :
    (a b : ℕ) → a < 256 → b < 256 → times_two (bit_xor a b) ≡ bit_xor (times_two a) (times_two b)
times_two-xor a b ha hb =
    (==_iff (times_two (bit_xor a b)) (bit_xor (times_two a) (times_two b))).0 (
      all_pairs→true 256 256 (λ x y. times_two (bit_xor x y) == bit_xor (times_two x) (times_two y))
        a b times_two_check ha hb)

times_two-lt : (a : ℕ) → a < 256 → times_two a < 256
times_two-lt a h =
    ground (arith, all_below→true 256 (λ x. ltb (times_two x) 256) a times_two_range h)

pub shifted-lt : (n b : ℕ) → b < 256 → shifted n b < 256
unfolding shifted
shifted-lt zero b h = h
shifted-lt (suc n) b h = shifted-lt n (times_two b) (times_two-lt b h)

-- Multiplication by a power of two is linear.
pub shifted-xor :
    (n a b : ℕ) → a < 256 → b < 256 → shifted n (bit_xor a b) ≡ bit_xor (shifted n a) (shifted n b)
unfolding shifted
shifted-xor zero a b ha hb = refl
shifted-xor (suc n) a b ha hb =
    ap (shifted n) (times_two-xor a b ha hb)
    ∙ shifted-xor n (times_two a) (times_two b) (times_two-lt a ha) (times_two-lt b hb)

pub shifted-zero : (n : ℕ) → shifted n 0 ≡ 0
unfolding shifted times_two
shifted-zero zero = refl
shifted-zero (suc n) = shifted-zero n

pub shifted-add : (m n b : ℕ) → shifted (m + n) b ≡ shifted m (shifted n b)
unfolding shifted
shifted-add m zero b = let e : m + 0 ≡ m = omega arith in rw e
shifted-add m (suc n) b =
    let e : m + suc n ≡ suc (m + n) = omega arith in rw e (shifted-add m n (times_two b))

pub exp-log : (a : ℕ) → 0 < a → a < 256 → (exp_at (log_at a) ≡ a) × (log_at a < 255)
exp-log zero h k = elim h [ ]
exp-log (suc a) h k = ground (
  arith,
  all_below→true 255 (λ x. (exp_at (log_at (suc x)) == suc x) && ltb (log_at (suc x)) 255) a
      log_table_check,
)

pub log-exp : (i : ℕ) → i < 255 → (log_at (exp_at i) ≡ i) × (0 < exp_at i) × (exp_at i < 256)
log-exp i h = ground (
  arith,
  all_below→true 255 (λ x. (log_at (exp_at x) == x) && (leb 1 (exp_at x) && ltb (exp_at x) 256)) i
      exp_log_check,
)

period_check : all_below 510 (λ i. exp_at i == exp_at (i % 255)) ≡ true
unfolding all_below exp_at exp_table powers times_two
period_check = refl

pub exp-mod : (i : ℕ) → i < 510 → exp_at i ≡ exp_at (i % 255)
exp-mod = agree_below 510 exp_at (λ i. exp_at (i % 255)) period_check
