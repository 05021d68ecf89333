-- ===== src/Fec/Coding.antt =====
-- The shortcuts of mulSlice and mulSliceXor for the factors 0 and 1.
use shredstream_sdk_go.Prelude.{
  ℕ, zero, suc, ◌<◌, ◌≡◌, refl, sym, ap, ap₂, ◌∙◌, List, [], ◌∷◌, map, arith, length, replicate,
  bit_xor, All, IsByte,
}
use shredstream_sdk_go.Galois.{add, mul}
use shredstream_sdk_go.Galois.Field.{zero-mul, one-mul, mul-lt}
use shredstream_sdk_go.Galois.Xor.{zero-add, add_comm}
use shredstream_sdk_go.Galois.Powers.{xor-lt}
use shredstream_sdk_go.Matrix.{add_row}
use shredstream_sdk_go.Fec.{copy_over, xor_over, mul_slice, mul_slice_xor, code_rest, code_slice}

copy_over_lem : (xs out : List ℕ) → length xs ≡ length out → copy_over xs out ≡ xs
unfolding copy_over
copy_over_lem [] [] h = refl
copy_over_lem [] (o ∷ out) h = absurd (omega arith)
copy_over_lem (x ∷ xs) [] h = absurd (omega arith)
copy_over_lem (x ∷ xs) (o ∷ out) h = ap (◌∷◌ x) (copy_over_lem xs out (omega arith))

length-map : (f : ℕ → ℕ) (xs : List ℕ) → length (map f xs) ≡ length xs
length-map f [] = refl
length-map f (x ∷ xs) = ap suc (length-map f xs)

map-one : (xs : List ℕ) → All IsByte xs → map (mul 1) xs ≡ xs
map-one [] h = refl
map-one (x ∷ xs) (b, h) = ap₂ (◌∷◌) (one-mul x b) (map-one xs h)

map-zero : (xs out : List ℕ) → length xs ≡ length out → map (λ _. 0) out ≡ map (mul 0) xs
map-zero [] [] h = refl
map-zero [] (o ∷ out) h = absurd (omega arith)
map-zero (x ∷ xs) [] h = absurd (omega arith)
map-zero (x ∷ xs) (o ∷ out) h = ap₂ (◌∷◌) (sym (zero-mul x)) (map-zero xs out (omega arith))

-- mulSlice writes the product of every byte, whatever stood in `out`.
mul_slice_lem :
    (c : ℕ) (xs out : List ℕ)
    → All IsByte xs
    → length xs ≡ length out
    → mul_slice c xs out ≡ map (mul c) xs
unfolding mul_slice
mul_slice_lem zero xs out bytes h = map-zero xs out h
mul_slice_lem (suc zero) xs out bytes h = copy_over_lem xs out h ∙ sym (map-one xs bytes)
mul_slice_lem (suc (suc c)) xs out bytes h =
    ground
      (arith, copy_over_lem (map (mul (suc (suc c))) xs) out, length-map (mul (suc (suc c))) xs)

add_row-zero : (xs out : List ℕ) → All IsByte out → out ≡ add_row out 0 xs
unfolding add_row
add_row-zero xs [] h = refl
add_row-zero [] (o ∷ out) h = refl
add_row-zero (x ∷ xs) (o ∷ out) (b, h) =
    let none_added : bit_xor o (mul 0 x) ≡ o =
      ap (bit_xor o) (zero-mul x) ∙ (unfold add in add_comm o 0 b (omega arith) ∙ zero-add o b) in
    ap₂ (◌∷◌) (sym none_added) (add_row-zero xs out h)

xor_over-map :
    (c : ℕ) (xs out : List ℕ)
    → length xs ≡ length out
    → xor_over (map (mul c) xs) out ≡ add_row out c xs
unfolding xor_over add_row
xor_over-map c [] [] h = refl
xor_over-map c [] (o ∷ out) h = absurd (omega arith)
xor_over-map c (x ∷ xs) [] h = absurd (omega arith)
xor_over-map c (x ∷ xs) (o ∷ out) h =
    ap (◌∷◌ (bit_xor o (mul c x))) (xor_over-map c xs out (omega arith))

-- mulSliceXor adds the products to what stood in `out`.
mul_slice_xor_lem :
    (c : ℕ) (xs out : List ℕ)
    → All IsByte xs
    → All IsByte out
    → length xs ≡ length out
    → mul_slice_xor c xs out ≡ add_row out c xs
unfolding mul_slice_xor
mul_slice_xor_lem zero xs out bytes bytes' h = add_row-zero xs out bytes'
mul_slice_xor_lem (suc zero) xs out bytes bytes' h =
    ap (λ (l : List ℕ). xor_over l out) (sym (map-one xs bytes)) ∙ xor_over-map 1 xs out h
mul_slice_xor_lem (suc (suc c)) xs out bytes bytes' h =
    ground (arith, xor_over-map (suc (suc c)) xs out h)

-- The sum of the inputs, each multiplied by its factor of the row, on top of `acc`.
unfoldable pub combine : List ℕ → List (List ℕ) → List ℕ → List ℕ
combine row [] acc = acc
combine [] (x ∷ inputs) acc = acc
combine (c ∷ row) (x ∷ inputs) acc = combine row inputs (add_row acc c x)

-- A shard: bytes, of the length that all shards have.
abbrev pub IsShard : ℕ → List ℕ → Type 0
IsShard n x = (length x ≡ n) × All IsByte x

length-add_row : (c : ℕ) (xs out : List ℕ) → length (add_row out c xs) ≡ length out
unfolding add_row
length-add_row c xs [] = refl
length-add_row c [] (o ∷ out) = refl
length-add_row c (x ∷ xs) (o ∷ out) = ap suc (length-add_row c xs out)

add_row-IsByte :
    (c : ℕ) (xs out : List ℕ)
    → c < 256
    → All IsByte xs
    → All IsByte out
    → All IsByte (add_row out c xs)
unfolding add_row
add_row-IsByte c xs [] hc p q = tt
add_row-IsByte c [] (o ∷ out) hc p q = q
add_row-IsByte c (x ∷ xs) (o ∷ out) hc (px, p) (qo, q) =
    (xor-lt o (mul c x) qo (mul-lt c x hc px), add_row-IsByte c xs out hc p q)

add_row-IsShard :
    (n c : ℕ) (xs out : List ℕ)
    → c < 256
    → IsShard n xs
    → IsShard n out
    → IsShard n (add_row out c xs)
add_row-IsShard n c xs out hc (hx, bx) (ho, bo) =
    (length-add_row c xs out ∙ ho, add_row-IsByte c xs out hc bx bo)

code_rest-combine :
    (n : ℕ) (row : List ℕ) (inputs : List (List ℕ)) (out : List ℕ)
    → All IsByte row
    → All (IsShard n) inputs
    → IsShard n out
    → code_rest row inputs out ≡ combine row inputs out
unfolding code_rest combine
code_rest-combine n row [] out h k o = refl
code_rest-combine n [] (x ∷ inputs) out h k o = refl
code_rest-combine n (c ∷ row) (x ∷ inputs) out (hc, h) ((hx, bx), k) (ho, bo) =
    let same = mul_slice_xor_lem c x out bx bo (hx ∙ sym ho) in
    rw same (
      code_rest-combine n row inputs (add_row out c x) h k
        (add_row-IsShard n c x out hc (hx, bx) (ho, bo)))

zeros-add_row :
    (c : ℕ) (x : List ℕ)
    → c < 256
    → All IsByte x
    → add_row (replicate (length x) 0) c x ≡ map (mul c) x
unfolding add_row
zeros-add_row c [] hc h = refl
zeros-add_row c (x ∷ xs) hc (b, h) =
    ap₂ (◌∷◌) (unfold add in zero-add (mul c x) (mul-lt c x hc b)) (zeros-add_row c xs hc h)

zeros-IsShard : (n : ℕ) → IsShard n (replicate n 0)
zeros-IsShard zero = (refl, tt)
zeros-IsShard (suc n) = let (len, bytes) = zeros-IsShard n in (ap suc len, (omega arith, bytes))

-- A slice that codeSomeSlices writes is the sum of the inputs, each multiplied by its factor of the
-- matrix row in the field, whatever the slice held before: the shortcuts for the factors 0 and 1 and
-- the first round, which overwrites, change nothing.
pub code_slice-combine :
    (n : ℕ) (c : ℕ) (row : List ℕ) (x : List ℕ) (inputs : List (List ℕ)) (out : List ℕ)
    → All IsByte (c ∷ row)
    → All (IsShard n) (x ∷ inputs)
    → length out ≡ n
    → code_slice (c ∷ row) (x ∷ inputs) out ≡ combine (c ∷ row) (x ∷ inputs) (replicate n 0)
unfolding code_slice combine
code_slice-combine n c row x inputs out (hc, h) ((hx, bx), k) ho =
    let zeros : add_row (replicate n 0) c x ≡ map (mul c) x = rw hx at (zeros-add_row c x hc bx) in
    let first : mul_slice c x out ≡ add_row (replicate n 0) c x =
      mul_slice_lem c x out bx (hx ∙ sym ho) ∙ sym zeros in
    rw first (
      code_rest-combine n row inputs (add_row (replicate n 0) c x) h k
        (add_row-IsShard n c x (replicate n 0) hc (hx, bx) (zeros-IsShard n)))
