-- ===== src/Matrix.antt =====
-- internal/galois/matrix.go: matrices over the field, as lists of rows. Every row has its own part of
-- one buffer, so that writing to one row never changes another.
use shredstream_sdk_go.Prelude.{
  ℕ, zero, suc, ◌*◌, ◌%◌, List, [], ◌∷◌, ◌++◌, map, true, false, Option, none, some, ◌==◌,
  if◌then◌else◌, length, get_or, set, slice, bit_xor,
}
use shredstream_sdk_go.Galois.{mul, div, exp}

abbrev pub Matrix : Type 0
Matrix = List (List ℕ)

-- `m[r][c]`, with 0 for what is out of range.
unfoldable pub entry : Matrix → ℕ → ℕ → ℕ
entry m r c = get_or (get_or m r []) c 0

unfoldable pub rows : Matrix → ℕ
rows m = length m

unfoldable pub cols : Matrix → ℕ
cols [] = 0
cols (r ∷ m) = length r

-- `f from`, `f (from + 1)`, … for `n` numbers: the loops that fill a row or a matrix.
unfoldable pub tabulate {ℓ} : {A : Type ℓ} → ℕ → ℕ → (ℕ → A) → List A
tabulate zero from f = []
tabulate (suc n) from f = f from ∷ tabulate n (suc from) f

unfoldable pub identity : ℕ → Matrix
identity size = tabulate size 0 (λ i. tabulate size 0 (λ j. if i == j then 1 else 0))

unfoldable pub new_vandermonde : ℕ → ℕ → Matrix
new_vandermonde n_rows n_cols = tabulate n_rows 0 (λ r. tabulate n_cols 0 (λ c. exp (r % 256) c))

-- `v ^= Mul(m[r][i], rhs[i][c])` for `n` rounds from `i`.
unfoldable pub dot : ℕ → ℕ → (ℕ → ℕ) → (ℕ → ℕ) → ℕ → ℕ
dot zero i f g v = v
dot (suc n) i f g v = dot n (suc i) f g (bit_xor v (mul (f i) (g i)))

-- `none` is the panic on dimensions that do not match.
unfoldable pub multiply : Matrix → Matrix → Option Matrix
multiply m rhs =
    if cols m == rows rhs
    then some (
        tabulate (rows m) 0
          (λ r. tabulate (cols rhs) 0 (λ c. dot (cols m) 0 (entry m r) (λ i. entry rhs i c) 0)))
    else none

unfoldable pub augment_rows : Matrix → Matrix → Matrix
augment_rows [] rhs = []
augment_rows (r ∷ m) [] = []
augment_rows (r ∷ m) (s ∷ rhs) = (r ++ s) ∷ augment_rows m rhs

unfoldable pub augment : Matrix → Matrix → Option Matrix
augment m rhs = if rows m == rows rhs then some (augment_rows m rhs) else none

unfoldable pub sub_matrix : Matrix → ℕ → ℕ → ℕ → ℕ → Matrix
sub_matrix m r0 c0 r1 c1 = map (λ r. slice r c0 c1) (slice m r0 r1)

unfoldable pub swap_rows : Matrix → ℕ → ℕ → Matrix
swap_rows m r1 r2 = if r1 == r2 then m else set (set m r1 (get_or m r2 [])) r2 (get_or m r1 [])

-- `for rb := r+1; rb < rows; rb++`: the first row from `rb` with an entry in column `r` is swapped up.
unfoldable pub swap_pivot : ℕ → Matrix → ℕ → ℕ → Matrix
swap_pivot zero m r rb = m
swap_pivot (suc n) m r rb = elim (entry m rb r == 0) [
  | false ↦ swap_rows m r rb
  | true ↦ swap_pivot n m r (suc rb)
]

-- `m[rb][c] ^= Mul(scale, m[r][c])` for all `c`.
unfoldable pub add_row : List ℕ → ℕ → List ℕ → List ℕ
add_row [] scale row = []
add_row (x ∷ xs) scale [] = x ∷ xs
add_row (x ∷ xs) scale (y ∷ ys) = bit_xor x (mul scale y) ∷ add_row xs scale ys

-- Row `rb` loses its entry in column `r`, if it has one.
unfoldable pub clear_entry : Matrix → ℕ → ℕ → Matrix
clear_entry m r rb =
    if entry m rb r == 0
    then m
    else set m rb (add_row (get_or m rb []) (entry m rb r) (get_or m r []))

-- `for rb := from; rb < from+n; rb++`.
unfoldable pub clear_rows : ℕ → Matrix → ℕ → ℕ → Matrix
clear_rows zero m r rb = m
clear_rows (suc n) m r rb = clear_rows n (clear_entry m r rb) r (suc rb)

-- The pivot row is scaled so that its pivot is 1; `none` is ErrSingular. Div fails on 0 only.
unfoldable pub scale_pivot : Matrix → ℕ → Option Matrix
scale_pivot m r =
    if entry m r r == 0
    then none
    else if entry m r r == 1
    then some m
    else elim (div 1 (entry m r r)) [
      | none ↦ none
      | some scale ↦ some (set m r (map (mul scale) (get_or m r [])))
    ]

-- The first loop of GaussianElim, on the `n` rows from `r`.
unfoldable pub forward : ℕ → Matrix → ℕ → Option Matrix
forward zero m r = some m
forward (suc n) m r =
    let m' = if entry m r r == 0 then swap_pivot n m r (suc r) else m in
    elim (scale_pivot m' r) [
      | none ↦ none
      | some m'' ↦ forward n (clear_rows n m'' r (suc r)) (suc r)
    ]

-- The second loop, on the `n` columns from `d`.
unfoldable pub backward : ℕ → Matrix → ℕ → Matrix
backward zero m d = m
backward (suc n) m d = backward n (clear_rows d m d 0) (suc d)

unfoldable pub gaussian_elim : Matrix → Option Matrix
gaussian_elim m = elim (forward (rows m) m 0) [
  | none ↦ none
  | some m' ↦ some (backward (rows m) m' 0)
]

-- `none` is ErrSingular. The panic on a matrix that is not square is left to the caller: every call in
-- fec.go has a square matrix.
unfoldable pub inverse : Matrix → Option Matrix
inverse m = elim (augment m (identity (rows m))) [
  | none ↦ none
  | some work ↦ elim (gaussian_elim work) [
    | none ↦ none
    | some done ↦ some (sub_matrix done 0 (rows m) (rows m) (2 * rows m))
  ]
]
