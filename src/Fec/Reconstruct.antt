-- ===== src/Fec/Reconstruct.antt =====
-- Encode and reconstructInternal of fec.go. A nil shard is an empty one.
use shredstream_sdk_go.Prelude.{
  ℕ, zero, suc, ◌-◌, List, [], ◌∷◌, ◌++◌, map, Bool, true, false, ◌&&◌, not, ltb, ◌==◌,
  if◌then◌else◌, length, get_or, set, take, drop, replicate,
}
use shredstream_sdk_go.Matrix.{Matrix, entry, inverse, tabulate}
use shredstream_sdk_go.Fec.{
  Coded, ok, err, ◌>>=◌, or_singular, shard_count, empty_shard, shard_size_mismatch, too_few_shards,
  ReedSolomon, code_some_slices,
}

unfoldable pub all_sized : ℕ → List (List ℕ) → Bool
all_sized n [] = true
all_sized n (s ∷ shards) = length s == n && all_sized n shards

-- The source gives a parity shard of length 0 a new slice of the length of all shards, which is 0 there.
unfoldable pub encode : ReedSolomon → List (List ℕ) → Coded (List (List ℕ))
encode rs shards =
    if not (length shards == rs.total_shards)
    then err shard_count
    else if not (all_sized (length (get_or shards 0 [])) shards)
    then err shard_size_mismatch
    else ok (
        take rs.data_shards shards
        ++ code_some_slices rs.parity_rows (take rs.data_shards shards)
            (drop rs.data_shards shards))

-- The first loop: the length of the present shards and how many there are.
unfoldable pub measure : List (List ℕ) → List Bool → ℕ → ℕ → Coded (ℕ × ℕ)
measure [] present shard_len num_present = ok (shard_len, num_present)
measure (s ∷ shards) [] shard_len num_present = ok (shard_len, num_present)
measure (s ∷ shards) (false ∷ present) shard_len num_present =
    measure shards present shard_len num_present
measure (s ∷ shards) (true ∷ present) shard_len num_present = elim (length s == 0) [
  | true ↦ err empty_shard
  | false ↦ elim (shard_len == 0) [
    | true ↦ measure shards present (length s) (suc num_present)
    | false ↦ elim (length s == shard_len) [
      | true ↦ measure shards present shard_len (suc num_present)
      | false ↦ err shard_size_mismatch
    ]
  ]
]

-- validIdx and invalidIdx, from the index `i`; `room` is what validIdx may still take.
unfoldable pub valid_indices : ℕ → ℕ → List Bool → List ℕ
valid_indices room i [] = []
valid_indices room i (false ∷ present) = valid_indices room (suc i) present
valid_indices zero i (true ∷ present) = valid_indices zero (suc i) present
valid_indices (suc room) i (true ∷ present) = i ∷ valid_indices room (suc i) present

unfoldable pub invalid_indices : ℕ → List Bool → List ℕ
invalid_indices i [] = []
invalid_indices i (true ∷ present) = invalid_indices (suc i) present
invalid_indices i (false ∷ present) = i ∷ invalid_indices (suc i) present

-- The indices up to the first that is not below `n`, and those that are not below `n`.
unfoldable pub below : ℕ → List ℕ → List ℕ
below n [] = []
below n (i ∷ is) = if ltb i n then i ∷ below n is else []

unfoldable pub from : ℕ → List ℕ → List ℕ
from n [] = []
from n (i ∷ is) = if ltb i n then from n is else i ∷ from n is

unfoldable pub write_shards : List ℕ → List (List ℕ) → List (List ℕ) → List (List ℕ)
write_shards [] slices shards = shards
write_shards (i ∷ is) [] shards = shards
write_shards (i ∷ is) (s ∷ slices) shards = write_shards is slices (set shards i s)

-- The missing shards are zeroed, coded from the inputs by their rows, and stand in the shards again.
unfoldable pub recode : List ℕ → ℕ → (ℕ → List ℕ) → List (List ℕ) → List (List ℕ) → List (List ℕ)
recode missing shard_len row inputs shards =
    write_shards missing
      (code_some_slices (map row missing) inputs (map (λ _. replicate shard_len 0) missing)) shards

unfoldable pub mark_present : ℕ → List Bool → List Bool
mark_present zero present = present
mark_present (suc n) [] = []
mark_present (suc n) (b ∷ present) = true ∷ mark_present n present

-- The rows of the matrix that belong to the shards used.
unfoldable pub rows_used : ReedSolomon → List Bool → Matrix
rows_used rs present =
    map (λ vi. tabulate rs.data_shards 0 (entry rs.matrix vi))
      (valid_indices rs.data_shards 0 present)

unfoldable pub fill_data : ReedSolomon → List (List ℕ) → List Bool → ℕ → Matrix → List (List ℕ)
fill_data rs shards present shard_len decode =
    recode (below rs.data_shards (invalid_indices 0 present)) shard_len (λ mi. get_or decode mi [])
      (map (λ vi. get_or shards vi []) (valid_indices rs.data_shards 0 present)) shards

unfoldable pub fill_parity : ReedSolomon → List (List ℕ) → List Bool → ℕ → List (List ℕ)
fill_parity rs shards present shard_len =
    recode (from rs.data_shards (invalid_indices 0 present)) shard_len
      (λ mi. get_or rs.parity_rows (mi - rs.data_shards) []) (take rs.data_shards shards) shards

unfoldable pub fill :
    ReedSolomon → List (List ℕ) → List Bool → Bool → ℕ → Matrix → List (List ℕ) × List Bool
fill rs shards present data_only shard_len decode =
    let shards' = fill_data rs shards present shard_len decode in
    if data_only
    then (shards', mark_present rs.data_shards present)
    else (fill_parity rs shards' present shard_len, mark_present rs.total_shards present)

-- The part behind the first loop, which found `num_present` shards of the length `shard_len`.
unfoldable pub rebuild :
    ReedSolomon → List (List ℕ) → List Bool → Bool → ℕ × ℕ → Coded (List (List ℕ) × List Bool)
rebuild rs shards present data_only (shard_len, num_present) =
    if num_present == rs.total_shards
    then ok (shards, present)
    else if ltb num_present rs.data_shards
    then err too_few_shards
    else (or_singular (inverse (rows_used rs present)) >>= λ decode.
        ok (fill rs shards present data_only shard_len decode))

-- Every error comes before the first write, so that an error leaves the shards as they are.
unfoldable pub reconstruct_internal :
    ReedSolomon → List (List ℕ) → List Bool → Bool → Coded (List (List ℕ) × List Bool)
reconstruct_internal rs shards present data_only =
    if not (length shards == rs.total_shards && length present == rs.total_shards)
    then err shard_count
    else measure shards present 0 0 >>= rebuild rs shards present data_only

unfoldable pub reconstruct :
    ReedSolomon → List (List ℕ) → List Bool → Coded (List (List ℕ) × List Bool)
reconstruct rs shards present = reconstruct_internal rs shards present false

unfoldable pub reconstruct_data :
    ReedSolomon → List (List ℕ) → List Bool → Coded (List (List ℕ) × List Bool)
reconstruct_data rs shards present = reconstruct_internal rs shards present true
