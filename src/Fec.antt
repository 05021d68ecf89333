-- ===== src/Fec.antt =====
-- fec.go: Reed-Solomon codes over the field.
pub mod Cache
pub mod Coding
pub mod Reconstruct
pub mod Kept
pub mod Rebuilt
use shredstream_sdk_go.Prelude.{
  ℕ, zero, suc, ◌+◌, ◌-◌, List, [], ◌∷◌, ◌++◌, map, Bool, true, false, ◌&&◌, ◌||◌, not, Option,
  none, some, ltb, leb, ◌==◌, if◌then◌else◌, length, get_or, set, take, drop, replicate, bit_xor,
}
use shredstream_sdk_go.Galois.{mul}
use shredstream_sdk_go.Matrix.{Matrix, new_vandermonde, sub_matrix, inverse, multiply, tabulate}

pub data FecError : Type 0 where
  invalid_shard_counts too_many_shards singular : FecError
  shard_count empty_shard shard_size_mismatch too_few_shards : FecError

pub data Coded {ℓ} (A : Type ℓ) : Type ℓ where
  ok : A → Coded A
  err : FecError → Coded A

infixl 5 ◌>>=◌
abbrev pub ◌>>=◌ {ℓ κ} : {A : Type ℓ} {B : Type κ} → Coded A → (A → Coded B) → Coded B
ok a >>= f = f a
err e >>= f = err e

abbrev or_singular {ℓ} : {A : Type ℓ} → Option A → Coded A
or_singular none = err singular
or_singular (some a) = ok a

pub record ReedSolomon : Type 0 where
  pub data_shards : ℕ
  pub total_shards : ℕ
  pub matrix : Matrix
  pub parity_rows : Matrix

-- The counts are never negative. Multiply does not panic here: the Vandermonde matrix has `n_data`
-- columns, and the inverse as many rows.
unfoldable pub new_reed_solomon : ℕ → ℕ → Coded ReedSolomon
new_reed_solomon n_data coding =
    if n_data == 0
    then err invalid_shard_counts
    else if ltb 256 (n_data + coding)
    then err too_many_shards
    else (or_singular
          (inverse (sub_matrix (new_vandermonde (n_data + coding) n_data) 0 0 n_data n_data))
        >>= λ top_inv.
            or_singular (multiply (new_vandermonde (n_data + coding) n_data) top_inv) >>= λ m.
            ok (record {
              data_shards = n_data;
              total_shards = n_data + coding;
              matrix = m;
              parity_rows = tabulate coding 0 (λ i. get_or m (n_data + i) []);
            }))

-- `copy(out, in)`, and the loops that write `out[i]` for each `i` of `in`.
unfoldable pub copy_over : List ℕ → List ℕ → List ℕ
copy_over [] out = out
copy_over (x ∷ xs) [] = []
copy_over (x ∷ xs) (o ∷ out) = x ∷ copy_over xs out

unfoldable pub xor_over : List ℕ → List ℕ → List ℕ
xor_over [] out = out
xor_over (x ∷ xs) [] = []
xor_over (x ∷ xs) (o ∷ out) = bit_xor o x ∷ xor_over xs out

-- `galois.MulTable(c)[b]` is `Mul(c, b)`.
unfoldable pub mul_slice : ℕ → List ℕ → List ℕ → List ℕ
mul_slice c input out =
    if c == 0
    then map (λ _. 0) out
    else if c == 1
    then copy_over input out
    else copy_over (map (mul c) input) out

unfoldable pub mul_slice_xor : ℕ → List ℕ → List ℕ → List ℕ
mul_slice_xor c input out =
    if c == 0 then out else if c == 1 then xor_over input out else xor_over (map (mul c) input) out

-- The inner loop of codeSomeSlices behind its first round.
unfoldable pub code_rest : List ℕ → List (List ℕ) → List ℕ → List ℕ
code_rest row [] out = out
code_rest [] (x ∷ inputs) out = out
code_rest (c ∷ row) (x ∷ inputs) out = code_rest row inputs (mul_slice_xor c x out)

unfoldable pub code_slice : List ℕ → List (List ℕ) → List ℕ → List ℕ
code_slice row [] out = out
code_slice [] (x ∷ inputs) out = out
code_slice (c ∷ row) (x ∷ inputs) out = code_rest row inputs (mul_slice c x out)

unfoldable pub code_some_slices : Matrix → List (List ℕ) → List (List ℕ) → List (List ℕ)
code_some_slices m inputs [] = []
code_some_slices [] inputs (out ∷ outputs) = out ∷ outputs
code_some_slices (row ∷ m) inputs (out ∷ outputs) =
    code_slice row inputs out ∷ code_some_slices m inputs outputs
