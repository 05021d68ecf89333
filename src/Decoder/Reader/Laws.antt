-- ===== src/Decoder/Reader/Laws.antt =====
-- Two properties that the readers of decoder.go have, each with a rule for every way to build one.
use shredstream_sdk_go.Prelude.{
  ℕ, zero, suc, ◌+◌, ◌*◌, ◌≤◌, ◌≡◌, refl, ap, List, [], ◌∷◌, ◌++◌, arith, length, length-append,
  length-drop, drop, slice, slice-append, get_or-append, drop-append,
}
use shredstream_sdk_go.Decoder.Reader.{
  Outcome, complete, incomplete, failed, Reader, then_read, ◌>>=◌, pure, read_bytes, read_byte,
  copy_array, read_array, times, nested,
}

-- A reader that completes stays within the slice, and bytes behind what it read change nothing.
pub record IsSteady {ℓ} {A : Type ℓ} (r : Reader A) : Type ℓ where
  pub bounds :
      (b : List ℕ) (pos : ℕ) (a : A) (next : ℕ)
      → pos ≤ length b
      → r b pos ≡ complete a next
      → (pos ≤ next) × (next ≤ length b)
  pub extend :
      (b more : List ℕ) (pos : ℕ) (a : A) (next : ℕ)
      → pos ≤ length b
      → r b pos ≡ complete a next
      → r (b ++ more) pos ≡ complete a next

pub complete-value {ℓ} : {A : Type ℓ} {a c : A} {m n : ℕ} → complete a m ≡ complete c n → a ≡ c
complete-value e = cc

pub complete-position {ℓ} : {A : Type ℓ} {a c : A} {m n : ℕ} → complete a m ≡ complete c n → m ≡ n
complete-position e = cc

pub then_read-eq-complete {ℓ κ} :
    {A : Type ℓ} {B : Type κ} (m : Outcome A) (f : A → ℕ → Outcome B) {b : B} {next : ℕ}
    → then_read m f ≡ complete b next
    → (a : A) × (mid : ℕ) × (m ≡ complete a mid) × (f a mid ≡ complete b next)
then_read-eq-complete (complete a mid) f h = (a, mid, refl, h)
then_read-eq-complete incomplete f h = cc
then_read-eq-complete (failed e) f h = cc

pub pure-IsSteady {ℓ} : {A : Type ℓ} (a : A) → IsSteady (pure a)
pure-IsSteady a = record {
  bounds = λ b pos c next h e. let p = complete-position e in omega arith;
  extend = λ b more pos c next h e. e;
}

pub bind-IsSteady {ℓ κ} :
    {A : Type ℓ} {B : Type κ} {m : Reader A} {f : A → Reader B}
    → IsSteady m
    → ((a : A) → IsSteady (f a))
    → IsSteady (m >>= f)
bind-IsSteady {m} {f} hm hf = record {
  bounds = λ b pos c next h e.
      let (a, mid, first, second) = then_read-eq-complete (m b pos) (λ a mid. f a b mid) e in
      let (lo, hi) = hm.bounds b pos a mid h first in
      let (lo', hi') = (hf a).bounds b mid c next hi second in omega arith;
  extend = λ b more pos c next h e.
      let (a, mid, first, second) = then_read-eq-complete (m b pos) (λ a mid. f a b mid) e in
      let (lo, hi) = hm.bounds b pos a mid h first in
      rw (hm.extend b more pos a mid h first) ((hf a).extend b more mid c next hi second);
}

pub read_bytes-IsSteady : (n : ℕ) → IsSteady (read_bytes n)
unfolding read_bytes
read_bytes-IsSteady n = record {
  bounds = λ b pos a next h e. ground arith;
  extend = λ b more pos a next h e.
      ground (arith, length-append b more, slice-append b more pos (pos + n));
}

pub read_byte-IsSteady : IsSteady read_byte
unfolding read_byte
read_byte-IsSteady = record {
  bounds = λ b pos a next h e. ground arith;
  extend =
      λ b more pos a next h e. ground (arith, length-append b more, get_or-append b more pos 0);
}

copy_array-append :
    (count width : ℕ) (b more : List ℕ) (pos : ℕ)
    → pos + count * width ≤ length b
    → copy_array count width (b ++ more) pos ≡ copy_array count width b pos
unfolding copy_array
copy_array-append zero width b more pos h = refl
copy_array-append (suc count) width b more pos h =
    let fits : pos + width ≤ length b = grind arith in
    let rest : pos + width + count * width ≤ length b = grind arith in
    let low : pos ≤ pos + width = omega arith in
    rw (slice-append b more pos (pos + width) fits low) (
      ap (◌∷◌ (slice b pos (pos + width)))
        (copy_array-append count width b more (pos + width) rest))

pub read_array-IsSteady : (count width : ℕ) → IsSteady (read_array count width)
unfolding read_array
read_array-IsSteady count width = record {
  bounds = λ b pos a next h e. ground arith;
  extend = λ b more pos a next h e.
      ground (arith, length-append b more, copy_array-append count width b more pos);
}

pub times-IsSteady {ℓ} : {A : Type ℓ} {r : Reader A} (n : ℕ) → IsSteady r → IsSteady (times n r)
unfolding times
times-IsSteady zero hr = pure-IsSteady []
times-IsSteady {r} (suc n) hr =
    bind-IsSteady hr (λ x. bind-IsSteady (times-IsSteady n hr) (λ xs. pure-IsSteady (x ∷ xs)))

pub nested-IsSteady {ℓ} : {A : Type ℓ} {r : Reader A} → IsSteady r → IsSteady (nested r)
unfolding nested
nested-IsSteady {r} hr = record {
  bounds = λ b pos a next h e.
      let (c, used, inner, outer) =
        then_read-eq-complete (r (drop pos b) 0) (λ c used. complete c (pos + used)) e in
      let (lo, hi) = hr.bounds (drop pos b) 0 c used (omega arith) inner in
      let at_next = complete-position outer in omega (arith, length-drop pos b);
  extend = λ b more pos a next h e.
      let (c, used, inner, outer) =
        then_read-eq-complete (r (drop pos b) 0) (λ c used. complete c (pos + used)) e in
      rw (drop-append pos b more h, hr.extend (drop pos b) more 0 c used (omega arith) inner) outer;
}
