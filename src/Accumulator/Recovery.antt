-- ===== src/Accumulator/Recovery.antt =====
-- tryReconstruct of accumulator.go: the lost data shreds of an FEC set, from the shreds received.
pub mod Missing
use shredstream_sdk_go.Prelude.{
  ℕ, zero, suc, ◌+◌, ◌-◌, List, [], ◌∷◌, ◌++◌, map, Bool, true, false, ◌&&◌, ◌||◌, not, Option,
  none, some, ltb, leb, ◌==◌, if◌then◌else◌, length, get_or, set, replicate,
}
use shredstream_sdk_go.Variant.{VariantKind, size_of_signature, data_shred_payload_len}
use shredstream_sdk_go.Fec.{Coded, ok, err, ReedSolomon}
use shredstream_sdk_go.Fec.Reconstruct.{reconstruct_data}
use shredstream_sdk_go.Fec.Cache.{ReedSolomonCache, get_or_build}
use shredstream_sdk_go.Accumulator.FecSet.{
  FecSetBuffer, code_shard_slice, data_shard_slice, variant_as_data, is_code_merkle,
}

pub record DataShredRef : Type 0 where
  pub pos : ℕ
  pub raw : List ℕ

-- The arrays `shards` and `present`.
pub record Shards : Type 0 where
  pub shards : List (List ℕ)
  pub present : List Bool

-- The shard is stored unless it is nil or has another length than the set's.
unfoldable pub store : FecSetBuffer → ℕ → Option (List ℕ) → Shards → Shards
store f idx none s = s
store f idx (some shard) s =
    if length shard == f.shard_len
    then record { shards = set s.shards idx shard; present = set s.present idx true }
    else s

-- The loop over `f.code`, whose positions are all different, so that its order does not matter.
unfoldable pub place_code : FecSetBuffer → List (ℕ × List ℕ) → Shards → Shards
place_code f [] s = s
place_code f ((pos, raw) ∷ code) s = place_code f code (
    if leb (f.num_data + f.num_coding) (f.num_data + pos)
    then s
    else store f (f.num_data + pos) (code_shard_slice raw f.variant) s)

unfoldable pub place_data : FecSetBuffer → List DataShredRef → Shards → Shards
place_data f [] s = s
place_data f (d ∷ ds) s = place_data f ds (
    if leb f.num_data d.pos || get_or s.present d.pos false
    then s
    else store f d.pos (data_shard_slice d.raw (variant_as_data f.variant)) s)

unfoldable pub count_present : List Bool → ℕ
count_present [] = 0
count_present (true ∷ present) = suc (count_present present)
count_present (false ∷ present) = count_present present

unfoldable pub received : FecSetBuffer → List DataShredRef → Shards
received f ds =
    let total = f.num_data + f.num_coding in
    place_data f ds (
      place_code f f.code (record { shards = replicate total []; present = replicate total false }))

unfoldable pub is_already : ℕ → List DataShredRef → Bool
is_already pos [] = false
is_already pos (d ∷ ds) = d.pos == pos || is_already pos ds

-- A data shred with the shard behind the place of the signature, and zeros elsewhere.
unfoldable pub shred_around : List ℕ → List ℕ
shred_around shard =
    replicate size_of_signature 0
    ++ (shard ++ replicate (data_shred_payload_len - size_of_signature - length shard) 0)

-- The last loop, on the `n` positions from `pos`.
unfoldable pub recovered :
    ℕ → ℕ → FecSetBuffer → List DataShredRef → List (List ℕ) → List DataShredRef
recovered zero pos f ds shards = []
recovered (suc n) pos f ds shards =
    let rest = recovered n (suc pos) f ds shards in
    if is_already pos ds
    then rest
    else if not (length (get_or shards pos []) == f.shard_len)
    then rest
    else (record { pos = pos; raw = shred_around (get_or shards pos []) } ∷ rest)

-- `if shards[i] == nil { shards[i] = make([]byte, shardLen) }`.
unfoldable pub zero_missing : ℕ → List (List ℕ) → List (List ℕ)
zero_missing n shards = map (λ s. if length s == 0 then replicate n 0 else s) shards

abbrev pub collect :
    FecSetBuffer → List DataShredRef → Coded (List (List ℕ) × List Bool) → Coded (List DataShredRef)
collect f ds (err e) = err e
collect f ds (ok (shards, present)) = ok (recovered f.num_data 0 f ds shards)

abbrev pub reconstruct_with :
    FecSetBuffer → List DataShredRef → Shards → Coded ReedSolomon → Coded (List DataShredRef)
reconstruct_with f ds s (err e) = err e
reconstruct_with f ds s (ok rs) =
    collect f ds (reconstruct_data rs (zero_missing f.shard_len s.shards) s.present)

-- `nil, nil` is `ok []`.
unfoldable pub try_reconstruct :
    FecSetBuffer
    → List DataShredRef
    → ReedSolomonCache
    → ReedSolomonCache × Coded (List DataShredRef)
try_reconstruct f ds cache =
    if f.num_data == 0 || (f.shard_len == 0 || not f.has_variant)
    then (cache, ok [])
    else if not (is_code_merkle f.variant.kind)
    then (cache, ok [])
    else let s = received f ds in
      if ltb (count_present s.present) f.num_data
      then (cache, ok [])
      else let (cache', built) = get_or_build cache f.num_data f.num_coding in
        (cache', reconstruct_with f ds s built)
