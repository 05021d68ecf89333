-- ===== src/Decoder/Reader/Format.antt =====
-- Readers against the bytes of a wire format.
use shredstream_sdk_go.Prelude.{
  ℕ, ◌+◌, ◌*◌, ◌≡◌, refl, ap, ◌∙◌, List, [], ◌∷◌, ◌++◌, arith, length, length-append, All,
  slice-middle, get_or-middle, drop-length, append_assoc, append-nil,
}
use shredstream_sdk_go.Decoder.Reader.{
  complete, Reader, ◌>>=◌, pure, read_bytes, read_byte, copy_array, read_array, times, nested,
}

-- Wherever `bytes` stand in a slice, the reader reads them as `a` and stops behind them.
pub record Reads {ℓ} {A : Type ℓ} (r : Reader A) (bytes : List ℕ) (a : A) : Type ℓ where
  pub read_at :
      (pre rest : List ℕ)
      → r (pre ++ (bytes ++ rest)) (length pre) ≡ complete a (length pre + length bytes)

pub pure-Reads {ℓ} : {A : Type ℓ} (a : A) → Reads (pure a) [] a
pure-Reads a = record { read_at = λ pre rest. ap (complete a) (omega arith) }

pub bind-Reads {ℓ κ} :
    {A : Type ℓ} {B : Type κ} {m : Reader A} (f : A → Reader B) {bytes bytes' : List ℕ} (a : A)
    {b : B}
    → Reads m bytes a
    → Reads (f a) bytes' b
    → Reads (m >>= f) (bytes ++ bytes') b
bind-Reads {m} f {bytes} {bytes'} a {b} hm hf = record {
  read_at = λ pre rest.
      let p : pre ++ ((bytes ++ bytes') ++ rest) ≡ pre ++ (bytes ++ (bytes' ++ rest)) =
        ap (◌++◌ pre) (append_assoc bytes bytes' rest) in
      let q : (pre ++ bytes) ++ (bytes' ++ rest) ≡ pre ++ (bytes ++ (bytes' ++ rest)) =
        append_assoc pre bytes (bytes' ++ rest) in
      let second = rw (q, length-append pre bytes) at (hf.read_at (pre ++ bytes) rest) in
      let total : length pre + length bytes + length bytes'
          ≡ length pre + length (bytes ++ bytes') =
        omega (arith, length-append bytes bytes') in
      rw (p, hm.read_at pre (bytes' ++ rest)) (second ∙ ap (complete b) total);
}

pub read_bytes-Reads : (bytes : List ℕ) → Reads (read_bytes (length bytes)) bytes bytes
unfolding read_bytes
read_bytes-Reads bytes = record {
  read_at = λ pre rest. ground (
    arith,
    length-append pre (bytes ++ rest),
    length-append bytes rest,
    slice-middle pre bytes rest,
  );
}

pub read_byte-Reads : (x : ℕ) → Reads read_byte (x ∷ []) x
unfolding read_byte
read_byte-Reads x = record {
  read_at = λ pre rest. ground (arith, length-append pre (x ∷ rest), get_or-middle pre x 0 rest);
}

-- The bytes of a sequence, one element after the other.
unfoldable pub encode_all {ℓ} : {A : Type ℓ} → (A → List ℕ) → List A → List ℕ
encode_all f [] = []
encode_all f (x ∷ xs) = f x ++ encode_all f xs

pub times-Reads {ℓ κ} :
    {A : Type ℓ} {r : Reader A} {f : A → List ℕ} (P : A → Type κ)
    → ((a : A) → P a → Reads r (f a) a)
    → (xs : List A) → All P xs
    → Reads (times (length xs) r) (encode_all f xs) xs
unfolding times encode_all
times-Reads P h [] ps = pure-Reads []
times-Reads {r} {f} P h (x ∷ xs) (p, ps) = record {
  read_at = λ pre rest.
      let both =
        bind-Reads (λ y. times (length xs) r >>= λ ys. pure (y ∷ ys)) x (h x p)
          (bind-Reads (λ ys. pure (x ∷ ys)) xs (times-Reads P h xs ps) (pure-Reads (x ∷ xs))) in
      rw (append-nil) at (both.read_at pre rest);
}

pub nested-Reads {ℓ} :
    {A : Type ℓ} {r : Reader A} {bytes : List ℕ} {a : A}
    → Reads r bytes a
    → Reads (nested r) bytes a
unfolding nested
nested-Reads {r} {bytes} {a} h = record {
  read_at = λ pre rest.
      let inner : r (bytes ++ rest) 0 ≡ complete a (length bytes) =
        h.read_at [] rest ∙ ap (complete a) (omega arith) in
      rw (drop-length pre (bytes ++ rest), inner) refl;
}

copy_array-eq :
    (xs : List (List ℕ)) (width : ℕ) (pre rest : List ℕ)
    → All (λ x. length x ≡ width) xs
    → copy_array (length xs) width (pre ++ (encode_all (λ x. x) xs ++ rest)) (length pre) ≡ xs
unfolding copy_array encode_all
copy_array-eq [] width pre rest h = refl
copy_array-eq (x ∷ xs) width pre rest (e, h) =
    let behind = encode_all (λ y. y) xs ++ rest in
    let p : pre ++ ((x ++ encode_all (λ y. y) xs) ++ rest) ≡ pre ++ (x ++ behind) =
      ap (◌++◌ pre) (append_assoc x (encode_all (λ y. y) xs) rest) in
    let q : (pre ++ x) ++ behind ≡ pre ++ (x ++ behind) = append_assoc pre x behind in
    let next = rw (q, length-append pre x) at (copy_array-eq xs width (pre ++ x) rest h) in
    rw (p, ← e, slice-middle pre x behind) (ap (◌∷◌ x) (rw (← e) at next))

length-encode_all :
    (xs : List (List ℕ)) (width : ℕ)
    → All (λ x. length x ≡ width) xs
    → length (encode_all (λ x. x) xs) ≡ length xs * width
unfolding encode_all
length-encode_all [] width h = omega arith
length-encode_all (x ∷ xs) width (e, h) =
    grind (arith, length-append x (encode_all (λ y. y) xs), length-encode_all xs width h)

pub read_array-Reads :
    (xs : List (List ℕ)) (width : ℕ)
    → All (λ x. length x ≡ width) xs
    → Reads (read_array (length xs) width) (encode_all (λ x. x) xs) xs
unfolding read_array
read_array-Reads xs width h = record {
  read_at = λ pre rest. ground (
    arith,
    length-append pre (encode_all (λ x. x) xs ++ rest),
    length-append (encode_all (λ x. x) xs) rest,
    length-encode_all xs width h,
    copy_array-eq xs width pre rest h,
  );
}
