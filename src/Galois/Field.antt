-- ===== src/Galois/Field.antt =====
-- The operations of gf256.go make the bytes a field.
use shredstream_sdk_go.Prelude.{
  ℕ, zero, suc, ◌+◌, ◌-◌, ◌%◌, ◌<◌, ◌≡◌, refl, sym, ap, ap₂, ◌∙◌, Option, some, dec_lt, bit_xor,
  arith,
}
use shredstream_sdk_go.Galois.{
  exp_at, log_at, exp_table, log_table, powers, log_loop, times_two, add, mul, div, inv,
}
use shredstream_sdk_go.Galois.Xor.{add_comm, add_assoc, zero-add, add_self}
use shredstream_sdk_go.Galois.Powers.{
  shifted, exp_at_lem, xor-lt, shifted-lt, shifted-xor, shifted-zero, shifted-add, exp-log, log-exp,
  exp-mod,
}

mul_pos : (a b : ℕ) → 0 < a → 0 < b → mul a b ≡ exp_at (log_at a + log_at b)
unfolding mul
mul_pos a b h k = ground arith

pub zero-mul : (b : ℕ) → mul 0 b ≡ 0
unfolding mul
zero-mul b = refl

mul-zero : (a : ℕ) → mul a 0 ≡ 0
unfolding mul
mul-zero a = ground arith

pub mul-shifted : (a b : ℕ) → 0 < a → a < 256 → b < 256 → mul a b ≡ shifted (log_at a) b
mul-shifted a zero h ha hb = mul-zero a ∙ sym (shifted-zero (log_at a))
mul-shifted a (suc b) h ha hb =
    let (same_a, low_a) = exp-log a h ha in
    let (same_b, low_b) = exp-log (suc b) (omega arith) hb in
    let i = log_at a in
    let j = log_at (suc b) in
    mul_pos a (suc b) h (omega arith)
    ∙ exp_at_lem (i + j) (omega arith)
    ∙ shifted-add i j 1
    ∙ ap (shifted i) (sym (exp_at_lem j (omega arith)) ∙ same_b)

-- Multiplication distributes over addition.
pub mul-add : (a b c : ℕ) → a < 256 → b < 256 → c < 256 → mul a (add b c) ≡ add (mul a b) (mul a c)
unfolding add
mul-add zero b c ha hb hc = rw (zero-mul, zero-mul, zero-mul) refl
mul-add (suc a) b c ha hb hc =
    let some_a : 0 < suc a = omega arith in
    mul-shifted (suc a) (bit_xor b c) some_a ha (xor-lt b c hb hc)
    ∙ shifted-xor (log_at (suc a)) b c hb hc
    ∙ ap₂ bit_xor (sym (mul-shifted (suc a) b some_a ha hb))
        (sym (mul-shifted (suc a) c some_a ha hc))

pub mul_comm : (a b : ℕ) → mul a b ≡ mul b a
mul_comm zero b = zero-mul b ∙ sym (mul-zero b)
mul_comm (suc a) zero = mul-zero (suc a) ∙ sym (zero-mul (suc a))
mul_comm (suc a) (suc b) =
    let e : log_at (suc a) + log_at (suc b) ≡ log_at (suc b) + log_at (suc a) = omega arith in
    mul_pos (suc a) (suc b) (omega arith) (omega arith)
    ∙ ap exp_at e
    ∙ sym (mul_pos (suc b) (suc a) (omega arith) (omega arith))

-- The product of two elements that are not zero, with its logarithm.
log-mul :
    (a b : ℕ)
    → 0 < a
    → a < 256
    → 0 < b
    → b < 256
    → (log_at (mul a b) ≡ (log_at a + log_at b) % 255) × (0 < mul a b) × (mul a b < 256)
log-mul a b h ha k hb =
    let (same_a, low_a) = exp-log a h ha in
    let (same_b, low_b) = exp-log b k hb in
    let n = log_at a + log_at b in
    let product : mul a b ≡ exp_at (n % 255) = mul_pos a b h k ∙ exp-mod n (omega arith) in
    rw product (log-exp (n % 255) (omega arith))

pub mul_assoc : (a b c : ℕ) → a < 256 → b < 256 → c < 256 → mul (mul a b) c ≡ mul a (mul b c)
mul_assoc zero b c ha hb hc = rw (zero-mul, zero-mul, zero-mul) refl
mul_assoc (suc a) zero c ha hb hc = rw (mul-zero, zero-mul, mul-zero) refl
mul_assoc (suc a) (suc b) zero ha hb hc = rw (mul-zero, mul-zero, mul-zero) refl
mul_assoc (suc a) (suc b) (suc c) ha hb hc =
    let (log_ab, pos_ab, low_ab) = log-mul (suc a) (suc b) (omega arith) ha (omega arith) hb in
    let (log_bc, pos_bc, low_bc) = log-mul (suc b) (suc c) (omega arith) hb (omega arith) hc in
    let x = log_at (suc a) in
    let y = log_at (suc b) in
    let z = log_at (suc c) in
    let low_x = (exp-log (suc a) (omega arith) ha).1 in
    let low_z = (exp-log (suc c) (omega arith) hc).1 in
    let left : mul (mul (suc a) (suc b)) (suc c) ≡ exp_at ((x + y) % 255 + z) =
      mul_pos (mul (suc a) (suc b)) (suc c) pos_ab (omega arith)
      ∙ ap (λ (i : ℕ). exp_at (i + z)) log_ab in
    let right : mul (suc a) (mul (suc b) (suc c)) ≡ exp_at (x + (y + z) % 255) =
      mul_pos (suc a) (mul (suc b) (suc c)) (omega arith) pos_bc
      ∙ ap (λ (i : ℕ). exp_at (x + i)) log_bc in
    let same : ((x + y) % 255 + z) % 255 ≡ (x + (y + z) % 255) % 255 = omega arith in
    left
    ∙ exp-mod ((x + y) % 255 + z) (omega arith)
    ∙ ap exp_at same
    ∙ sym (exp-mod (x + (y + z) % 255) (omega arith))
    ∙ sym right

pub one-mul : (a : ℕ) → a < 256 → mul 1 a ≡ a
unfolding log_at log_table log_loop times_two shifted
one-mul a h = mul-shifted 1 a (omega arith) (omega arith) h

inverse_lem : (a : ℕ) → 0 < a → a < 256 → mul a (exp_at (255 - log_at a)) ≡ 1
inverse_lem a h ha =
    let (same, low) = exp-log a h ha in
    let i = 255 - log_at a in
    let power : exp_at i ≡ exp_at (i % 255) = exp-mod i (omega arith) in
    let (log_i, pos_i, low_i) = log-exp (i % 255) (omega arith) in
    let log_is : log_at (exp_at i) ≡ i % 255 = rw power log_i in
    let pos_is : 0 < exp_at i = rw power pos_i in
    let total : (log_at a + i % 255) % 255 ≡ 0 = omega arith in
    mul_pos a (exp_at i) h pos_is
    ∙ ap (λ (j : ℕ). exp_at (log_at a + j)) log_is
    ∙ exp-mod (log_at a + i % 255) (omega arith)
    ∙ ap exp_at total
    ∙ (unfold exp_at exp_table powers in refl)

inv_lem : (a : ℕ) → 0 < a → a < 256 → (b : ℕ) × (inv a ≡ some b) × (mul a b ≡ 1)
unfolding inv
inv_lem a h ha = (exp_at (255 - log_at a), ground arith, inverse_lem a h ha)

pub mul-lt : (a b : ℕ) → a < 256 → b < 256 → mul a b < 256
mul-lt zero b ha hb = rw zero-mul (omega arith)
mul-lt (suc a) b ha hb =
    rw (mul-shifted (suc a) b (omega arith) ha hb) (shifted-lt (log_at (suc a)) b hb)

-- The laws of a field, on bytes.
pub record IsField (plus times : ℕ → ℕ → ℕ) (inverse : ℕ → Option ℕ) : Type 0 where
  pub plus_closed : (a b : ℕ) → a < 256 → b < 256 → plus a b < 256
  pub plus_comm : (a b : ℕ) → a < 256 → b < 256 → plus a b ≡ plus b a
  pub plus_assoc : (a b c : ℕ) → a < 256 → b < 256 → c < 256 → plus (plus a b) c ≡ plus a (plus b c)
  pub plus_zero : (a : ℕ) → a < 256 → plus 0 a ≡ a
  pub plus_self : (a : ℕ) → a < 256 → plus a a ≡ 0
  pub times_closed : (a b : ℕ) → a < 256 → b < 256 → times a b < 256
  pub times_comm : (a b : ℕ) → times a b ≡ times b a
  pub times_assoc :
      (a b c : ℕ) → a < 256 → b < 256 → c < 256 → times (times a b) c ≡ times a (times b c)
  pub times_one : (a : ℕ) → a < 256 → times 1 a ≡ a
  pub times_plus :
      (a b c : ℕ) → a < 256 → b < 256 → c < 256 → times a (plus b c) ≡ plus (times a b) (times a c)
  pub times_inverse : (a : ℕ) → 0 < a → a < 256 → (b : ℕ) × (inverse a ≡ some b) × (times a b ≡ 1)

-- With Add, Mul and Inv the 256 bytes are a field in which every element is its own negative: sums and
-- products are bytes, both operations are commutative and associative, 0 and 1 are their units,
-- multiplication distributes over addition, and Inv gives every byte but 0 its inverse.
pub field : IsField add mul inv
field = record {
  plus_closed = unfold add in xor-lt;
  plus_comm = add_comm;
  plus_assoc = add_assoc;
  plus_zero = zero-add;
  plus_self = add_self;
  times_closed = mul-lt;
  times_comm = mul_comm;
  times_assoc = mul_assoc;
  times_one = one-mul;
  times_plus = mul-add;
  times_inverse = inv_lem;
}

mul-power :
    (a b : ℕ)
    → 0 < a
    → a < 256
    → 0 < b
    → b < 256
    → mul a (exp_at (255 - log_at b)) ≡ exp_at ((log_at a + (255 - log_at b) % 255) % 255)
mul-power a b h ha k hb =
    let low_a = (exp-log a h ha).1 in
    let low_b = (exp-log b k hb).1 in
    let i = 255 - log_at b in
    let power : exp_at i ≡ exp_at (i % 255) = exp-mod i (omega arith) in
    let (log_i, pos_i, low_i) = log-exp (i % 255) (omega arith) in
    let log_is : log_at (exp_at i) ≡ i % 255 = rw power log_i in
    let pos_is : 0 < exp_at i = rw power pos_i in
    mul_pos a (exp_at i) h pos_is
    ∙ ap (λ (j : ℕ). exp_at (log_at a + j)) log_is
    ∙ exp-mod (log_at a + i % 255) (omega arith)

quotient :
    (a b : ℕ) → 0 < a → a < 256 → 0 < b → b < 256 → div a b ≡ some (mul a (exp_at (255 - log_at b)))
unfolding div
quotient a b h ha k hb =
    let low_a = (exp-log a h ha).1 in
    let low_b = (exp-log b k hb).1 in
    let product = mul-power a b h ha k hb in
    let n = (log_at a + (255 - log_at b) % 255) % 255 in
    elim (dec_lt (log_at a) (log_at b)) [
      | yes less ↦
          let same : n ≡ log_at a + 255 - log_at b = omega arith in
          ground (arith, product, ap exp_at same)
      | no more ↦
          let same : n ≡ log_at a - log_at b = omega arith in
          ground (arith, product, ap exp_at same)
    ]

-- Division by a byte other than 0 is multiplication by its inverse.
pub div-mul-inv :
    (a b : ℕ) → a < 256 → 0 < b → b < 256 → (c : ℕ) × (inv b ≡ some c) × (div a b ≡ some (mul a c))
unfolding inv
div-mul-inv zero b ha h hb =
    (exp_at (255 - log_at b), ground arith, rw zero-mul (unfold div in refl))
div-mul-inv (suc a) b ha h hb =
    (exp_at (255 - log_at b), ground arith, quotient (suc a) b (omega arith) ha h hb)
