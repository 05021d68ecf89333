-- ===== src/Prelude/Slices.antt =====
-- Byte slices: reading at an index, sub-slices and little-endian numbers.
use Prim.Native.Nat.{ℕ, zero, suc, ◌+◌, ◌-◌, ◌*◌, ◌/◌, ◌%◌, ◌^◌, ◌≤◌, ◌<◌}
use mathlib.Core.Path.{◌≡◌, refl, sym, ap, ◌∙◌}
use mathlib.Core.List.{List, [], ◌∷◌, ◌++◌}
use native.Mathlib.Omega.{arith}
use shredstream_sdk_go.Prelude.Lists.{length, get_or, take, drop, length-take, length-drop}

-- A predicate on every element.
abbrev pub All {ℓ κ} : {A : Type ℓ} → (A → Type κ) → List A → Type κ
All P [] = Unit
All P (x ∷ xs) = P x × All P xs

abbrev pub IsByte : ℕ → Type 0
IsByte b = b < 256

-- `raw[i:j]`.
unfoldable pub slice {ℓ} : {A : Type ℓ} → List A → ℕ → ℕ → List A
slice raw i j = take (j - i) (drop i raw)

-- `binary.LittleEndian.Uint16` and its wider forms, on the bytes given.
unfoldable pub little_endian : List ℕ → ℕ
little_endian [] = 0
little_endian (b ∷ bs) = b + 256 * little_endian bs

-- The `n` bytes of a number, lowest first.
unfoldable pub le_bytes : ℕ → ℕ → List ℕ
le_bytes zero v = []
le_bytes (suc n) v = v % 256 ∷ le_bytes n (v / 256)

pub little_endian-le_bytes : (n v : ℕ) → v < 256 ^ n → little_endian (le_bytes n v) ≡ v
unfolding little_endian le_bytes
little_endian-le_bytes zero v h = omega arith
little_endian-le_bytes (suc n) v h =
    let small : v / 256 < 256 ^ n = grind arith in
    omega (arith, little_endian-le_bytes n (v / 256) small)

pub length-le_bytes : (n v : ℕ) → length (le_bytes n v) ≡ n
unfolding le_bytes
length-le_bytes zero v = refl
length-le_bytes (suc n) v = ap suc (length-le_bytes n (v / 256))

pub le_bytes-IsByte : (n v : ℕ) → All IsByte (le_bytes n v)
unfolding le_bytes
le_bytes-IsByte zero v = tt
le_bytes-IsByte (suc n) v = (omega arith, le_bytes-IsByte n (v / 256))

module _ {ℓ} {A : Type ℓ} where
  pub length-slice : (raw : List A) (i j : ℕ) → j ≤ length raw → length (slice raw i j) ≡ j - i
  unfolding slice
  length-slice raw i j h = omega (arith, length-take (j - i) (drop i raw), length-drop i raw)

  pub take-append : (n : ℕ) (xs ys : List A) → n ≤ length xs → take n (xs ++ ys) ≡ take n xs
  take-append zero xs ys h = refl
  take-append (suc n) [] ys h = elim h [ ]
  take-append (suc n) (x ∷ xs) ys h = ap (◌∷◌ x) (take-append n xs ys (omega arith))

  pub drop-append : (n : ℕ) (xs ys : List A) → n ≤ length xs → drop n (xs ++ ys) ≡ drop n xs ++ ys
  drop-append zero xs ys h = refl
  drop-append (suc n) [] ys h = elim h [ ]
  drop-append (suc n) (x ∷ xs) ys h = drop-append n xs ys (omega arith)

  pub take-length : (xs ys : List A) → take (length xs) (xs ++ ys) ≡ xs
  take-length [] ys = refl
  take-length (x ∷ xs) ys = ap (◌∷◌ x) (take-length xs ys)

  pub drop-length : (xs ys : List A) → drop (length xs) (xs ++ ys) ≡ ys
  drop-length [] ys = refl
  drop-length (x ∷ xs) ys = drop-length xs ys

  drop-nil : (n : ℕ) → drop {A = A} n [] ≡ []
  drop-nil zero = refl
  drop-nil (suc n) = refl

  pub drop-drop : (m n : ℕ) (xs : List A) → drop m (drop n xs) ≡ drop (n + m) xs
  drop-drop m zero xs = let e : m ≡ zero + m = omega arith in ap (λ k. drop k xs) e
  drop-drop m (suc n) [] = drop-nil m ∙ sym (drop-nil (suc n + m))
  drop-drop m (suc n) (x ∷ xs) =
      let e : suc (n + m) ≡ suc n + m = omega arith in
      drop-drop m n xs ∙ ap (λ k. drop k (x ∷ xs)) e

  -- A slice within bounds does not change when the slice's owner grows.
  pub slice-append :
      (raw more : List A) (i j : ℕ)
      → j ≤ length raw
      → i ≤ j
      → slice (raw ++ more) i j ≡ slice raw i j
  unfolding slice
  slice-append raw more i j h k =
      ap (take (j - i)) (drop-append i raw more (omega arith))
      ∙ take-append (j - i) (drop i raw) more (omega (arith, length-drop i raw))

  pub get_or-append :
      (raw more : List A) (i : ℕ) (d : A)
      → i < length raw
      → get_or (raw ++ more) i d ≡ get_or raw i d
  get_or-append [] more i d h = elim h [ ]
  get_or-append (x ∷ xs) more zero d h = refl
  get_or-append (x ∷ xs) more (suc i) d h = get_or-append xs more i d (omega arith)

  -- What stands behind a prefix is found at the prefix's length.
  pub slice-middle :
      (pre mid rest : List A)
      → slice (pre ++ (mid ++ rest)) (length pre) (length pre + length mid) ≡ mid
  unfolding slice
  slice-middle pre mid rest =
      let e : length pre + length mid - length pre ≡ length mid = omega arith in
      rw (drop-length, e) (take-length mid rest)

  pub get_or-shift :
      (pre xs : List A) (k : ℕ) (d : A) → get_or (pre ++ xs) (length pre + k) d ≡ get_or xs k d
  get_or-shift [] xs k d = let e : 0 + k ≡ k = omega arith in rw e
  get_or-shift (y ∷ ys) xs k d =
      let e : suc (length ys) + k ≡ suc (length ys + k) = omega arith in
      rw e (get_or-shift ys xs k d)

  pub get_or-middle :
      (pre : List A) (x d : A) (rest : List A) → get_or (pre ++ (x ∷ rest)) (length pre) d ≡ x
  get_or-middle [] x d rest = refl
  get_or-middle (y ∷ ys) x d rest = get_or-middle ys x d rest

abbrev pub concat {ℓ} : {A : Type ℓ} → List (List A) → List A
concat [] = []
concat (x ∷ xs) = x ++ concat xs

abbrev pub total {ℓ} : {A : Type ℓ} → List (List A) → ℕ
total [] = 0
total (x ∷ xs) = length x + total xs

module _ {ℓ} {A : Type ℓ} where
  drop-append_more : (n : ℕ) (xs ys : List A) → drop (length xs + n) (xs ++ ys) ≡ drop n ys
  drop-append_more n [] ys = let e : 0 + n ≡ n = omega arith in rw e
  drop-append_more n (x ∷ xs) ys =
      let e : suc (length xs) + n ≡ suc (length xs + n) = omega arith in
      rw e (drop-append_more n xs ys)

  -- A field of a record laid out without gaps is the slice at the total of the fields before it.
  pub slice-field :
      (before : List (List A)) (field : List A) (after : List (List A))
      → slice (concat (before ++ (field ∷ after))) (total before) (total before + length field)
        ≡ field
  unfolding slice
  slice-field [] field after =
      let e : 0 + length field - 0 ≡ length field = omega arith in
      rw e (take-length field (concat after))
  slice-field (x ∷ xs) field after =
      let e : length x + total xs + length field - (length x + total xs)
          ≡ total xs + length field - total xs =
        omega arith in
      rw (drop-append_more, e) (slice-field xs field after)
