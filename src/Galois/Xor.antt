-- ===== src/Galois/Xor.antt =====
-- Addition of the field: exclusive or on bytes.
use shredstream_sdk_go.Prelude.{
  ℕ, ◌+◌, ◌*◌, ◌/◌, ◌%◌, ◌<◌, ◌≡◌, refl, sym, ap, ap₂, ◌∙◌, true, leb, ◌==◌, ==_iff, bit_xor, arith,
  all_below, all_below→true,
}
use shredstream_sdk_go.Galois.{add}
use shredstream_sdk_go.Galois.Powers.{all_pairs→true, xor-lt}

-- A byte sum is two sums of half bytes.
halves_check :
    all_below 256 (λ a.
      all_below 256
        (λ b. bit_xor a b == bit_xor (a / 16) (b / 16) * 16 + bit_xor (a % 16) (b % 16)))
    ≡ true
unfolding all_below
halves_check = refl

comm_check : all_below 256 (λ a. all_below 256 (λ b. bit_xor a b == bit_xor b a)) ≡ true
unfolding all_below
comm_check = refl

unit_check : all_below 256 (λ a. bit_xor 0 a == a) ≡ true
unfolding all_below
unit_check = refl

self_check : all_below 256 (λ a. bit_xor a a == 0) ≡ true
unfolding all_below
self_check = refl

half_assoc_check :
    all_below 16 (λ a.
      all_below 16 (λ b. all_below 16 (λ c. bit_xor (bit_xor a b) c == bit_xor a (bit_xor b c))))
    ≡ true
unfolding all_below
half_assoc_check = refl

half_range : all_below 16 (λ a. all_below 16 (λ b. leb (bit_xor a b) 15)) ≡ true
unfolding all_below
half_range = refl

halves :
    (a b : ℕ)
    → a < 256
    → b < 256
    → bit_xor a b ≡ bit_xor (a / 16) (b / 16) * 16 + bit_xor (a % 16) (b % 16)
halves a b h k =
    (==_iff (bit_xor a b) (bit_xor (a / 16) (b / 16) * 16 + bit_xor (a % 16) (b % 16))).0 (
      all_pairs→true 256 256
        (λ x y. bit_xor x y == bit_xor (x / 16) (y / 16) * 16 + bit_xor (x % 16) (y % 16)) a b
        halves_check h k)

half_assoc :
    (a b c : ℕ) → a < 16 → b < 16 → c < 16 → bit_xor (bit_xor a b) c ≡ bit_xor a (bit_xor b c)
half_assoc a b c ha hb hc = (==_iff (bit_xor (bit_xor a b) c) (bit_xor a (bit_xor b c))).0 (
    all_below→true 16 (λ z. bit_xor (bit_xor a b) z == bit_xor a (bit_xor b z)) c
      (all_pairs→true 16 16
        (λ x y. all_below 16 (λ z. bit_xor (bit_xor x y) z == bit_xor x (bit_xor y z))) a b
        half_assoc_check ha hb)
      hc)

half-lt : (a b : ℕ) → a < 16 → b < 16 → bit_xor a b < 16
half-lt a b ha hb =
    ground (arith, all_pairs→true 16 16 (λ x y. leb (bit_xor x y) 15) a b half_range ha hb)

pub add_comm : (a b : ℕ) → a < 256 → b < 256 → add a b ≡ add b a
unfolding add
add_comm a b ha hb =
    (==_iff (bit_xor a b) (bit_xor b a)).0
      (all_pairs→true 256 256 (λ x y. bit_xor x y == bit_xor y x) a b comm_check ha hb)

pub zero-add : (a : ℕ) → a < 256 → add 0 a ≡ a
unfolding add
zero-add a h =
    (==_iff (bit_xor 0 a) a).0 (all_below→true 256 (λ x. bit_xor 0 x == x) a unit_check h)

pub add_self : (a : ℕ) → a < 256 → add a a ≡ 0
unfolding add
add_self a h =
    (==_iff (bit_xor a a) 0).0 (all_below→true 256 (λ x. bit_xor x x == 0) a self_check h)

pub add_assoc : (a b c : ℕ) → a < 256 → b < 256 → c < 256 → add (add a b) c ≡ add a (add b c)
unfolding add
add_assoc a b c ha hb hc =
    let low_ab = half-lt (a % 16) (b % 16) (omega arith) (omega arith) in
    let low_bc = half-lt (b % 16) (c % 16) (omega arith) (omega arith) in
    let top = half_assoc (a / 16) (b / 16) (c / 16) (omega arith) (omega arith) (omega arith) in
    let low = half_assoc (a % 16) (b % 16) (c % 16) (omega arith) (omega arith) (omega arith) in
    let ab = halves a b ha hb in
    let bc = halves b c hb hc in
    let q : bit_xor a b / 16 ≡ bit_xor (a / 16) (b / 16) = omega arith in
    let r : bit_xor a b % 16 ≡ bit_xor (a % 16) (b % 16) = omega arith in
    let q' : bit_xor b c / 16 ≡ bit_xor (b / 16) (c / 16) = omega arith in
    let r' : bit_xor b c % 16 ≡ bit_xor (b % 16) (c % 16) = omega arith in
    halves (bit_xor a b) c (xor-lt a b ha hb) hc
    ∙ ap₂ (λ (x y : ℕ). x * 16 + y)
        (ap (λ (x : ℕ). bit_xor x (c / 16)) q ∙ top ∙ ap (bit_xor (a / 16)) (sym q'))
        (ap (λ (x : ℕ). bit_xor x (c % 16)) r ∙ low ∙ ap (bit_xor (a % 16)) (sym r'))
    ∙ sym (halves a (bit_xor b c) ha (xor-lt b c hb hc))
