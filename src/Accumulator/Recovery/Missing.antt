-- ===== src/Accumulator/Recovery/Missing.antt =====
-- Which data shreds tryReconstruct gives.
use shredstream_sdk_go.Prelude.{
  ℕ, zero, suc, ◌+◌, ◌-◌, ◌≤◌, ◌<◌, ◌≡◌, refl, ap, subst, ◌∙◌, List, [], ◌++◌, Bool, false, ◌||◌,
  not, Bool-cases, inl, inr, ◌==◌, ==_iff, ltb, length, length-append, get_or, replicate, All,
  arith,
}
use shredstream_sdk_go.Variant.{size_of_signature, data_shred_payload_len}
use shredstream_sdk_go.Fec.{Coded, ok, err, ReedSolomon}
use shredstream_sdk_go.Fec.Reconstruct.{reconstruct_data}
use shredstream_sdk_go.Fec.Cache.{ReedSolomonCache, get_or_build}
use shredstream_sdk_go.Fec.Cache.Transparency.{IsCache, get_or_build-new_reed_solomon}
use shredstream_sdk_go.Accumulator.FecSet.{FecSetBuffer, is_code_merkle}
use shredstream_sdk_go.Accumulator.Recovery.{
  DataShredRef, Shards, is_already, shred_around, recovered, zero_missing, collect,
  reconstruct_with, received, count_present, try_reconstruct,
}

-- A data shred of the set that was not received, of the length of every data shred.
pub record IsRecovered (f : FecSetBuffer) (ds : List DataShredRef) (r : DataShredRef) : Type 0 where
  pub in_set : r.pos < f.num_data
  pub lost : is_already r.pos ds ≡ false
  pub sized : length r.raw ≡ data_shred_payload_len

length-replicate : (n : ℕ) → length {A = ℕ} (replicate n 0) ≡ n
length-replicate zero = refl
length-replicate (suc n) = ap suc (length-replicate n)

length-padded :
    (before after : ℕ) (shard : List ℕ)
    → length (replicate before 0 ++ (shard ++ replicate after 0)) ≡ before + (length shard + after)
length-padded zero after shard =
    let total = length-append shard (replicate after 0) in
    let zeros = length-replicate after in omega arith
length-padded (suc before) after shard = omega (arith, length-padded before after shard)

length-shred_around :
    (shard : List ℕ)
    → length shard ≤ data_shred_payload_len - size_of_signature
    → length (shred_around shard) ≡ data_shred_payload_len
unfolding shred_around
length-shred_around shard h =
    let padding = data_shred_payload_len - size_of_signature - length shard in
    let total : size_of_signature + (length shard + padding) ≡ data_shred_payload_len =
      omega arith in
    length-padded size_of_signature padding shard ∙ total

recovered-IsRecovered :
    (n pos : ℕ) (f : FecSetBuffer) (ds : List DataShredRef) (shards : List (List ℕ))
    → f.shard_len ≤ data_shred_payload_len - size_of_signature
    → n + pos ≡ f.num_data
    → All (IsRecovered f ds) (recovered n pos f ds shards)
unfolding recovered
recovered-IsRecovered zero pos f ds shards fits h = tt
recovered-IsRecovered (suc n) pos f ds shards fits h =
    let rest = recovered-IsRecovered n (suc pos) f ds shards fits (omega arith) in
    let shard = get_or shards pos [] in
    elim (Bool-cases (is_already pos ds)) [
      | inl known ↦ ground (arith, rest)
      | inr lost ↦ elim (Bool-cases (length shard == f.shard_len)) [
        | inr odd ↦ ground (arith, rest)
        | inl even ↦
            let len : length shard ≡ f.shard_len =
              ground (arith, ==_iff (length shard) f.shard_len) in
            let first : IsRecovered f ds (record { pos = pos; raw = shred_around shard }) = record {
              in_set = omega arith;
              lost = lost;
              sized = length-shred_around shard (omega arith);
            } in
            ground (arith, rest, first)
      ]
    ]

collected :
    (f : FecSetBuffer) (ds : List DataShredRef) (o : Coded (List (List ℕ) × List Bool))
    (refs : List DataShredRef)
    → f.shard_len ≤ data_shred_payload_len - size_of_signature
    → collect f ds o ≡ ok refs
    → All (IsRecovered f ds) refs
collected f ds (err x) refs fits e = cc
collected f ds (ok (shards, present)) refs fits e =
    let same : recovered f.num_data 0 f ds shards ≡ refs = ground arith in
    subst (All (IsRecovered f ds)) same
      (recovered-IsRecovered f.num_data 0 f ds shards fits (omega arith))

reconstruct_with-IsRecovered :
    (f : FecSetBuffer) (ds : List DataShredRef) (s : Shards) (built : Coded ReedSolomon)
    (refs : List DataShredRef)
    → f.shard_len ≤ data_shred_payload_len - size_of_signature
    → reconstruct_with f ds s built ≡ ok refs
    → All (IsRecovered f ds) refs
reconstruct_with-IsRecovered f ds s (err x) refs fits e = cc
reconstruct_with-IsRecovered f ds s (ok rs) refs fits e =
    collected f ds (reconstruct_data rs (zero_missing f.shard_len s.shards) s.present) refs fits e

-- A cache of codes, and only lost shreds where the outcome is a success.
abbrev Sound :
    FecSetBuffer → List DataShredRef → ReedSolomonCache × Coded (List DataShredRef) → Type 0
Sound f ds (cache, outcome) =
    IsCache cache × ((refs : List DataShredRef) → outcome ≡ ok refs → All (IsRecovered f ds) refs)

nothing-Sound :
    (f : FecSetBuffer) (ds : List DataShredRef) (cache : ReedSolomonCache)
    → IsCache cache
    → Sound f ds (cache, ok [])
nothing-Sound f ds cache h =
    (h, λ refs e. let same : [] ≡ refs = ground arith in subst (All (IsRecovered f ds)) same tt)

try_reconstruct-Sound :
    (f : FecSetBuffer) (ds : List DataShredRef) (cache : ReedSolomonCache)
    → IsCache cache
    → f.shard_len ≤ data_shred_payload_len - size_of_signature
    → Sound f ds (try_reconstruct f ds cache)
unfolding try_reconstruct
try_reconstruct-Sound f ds cache h fits =
    let nothing = nothing-Sound f ds cache h in
    let s = received f ds in
    elim (Bool-cases (f.num_data == 0 || (f.shard_len == 0 || not f.has_variant))) [
      | inl blank ↦ ground (arith, nothing)
      | inr set_up ↦ elim (Bool-cases (is_code_merkle f.variant.kind)) [
        | inr other ↦ ground (arith, nothing)
        | inl merkle ↦ elim (Bool-cases (ltb (count_present s.present) f.num_data)) [
          | inl few ↦ ground (arith, nothing)
          | inr enough ↦
              let (cache', built) = get_or_build cache f.num_data f.num_coding in
              let tried : Sound f ds (cache', reconstruct_with f ds s built) = (
                (get_or_build-new_reed_solomon cache f.num_data f.num_coding h).0,
                λ refs e. reconstruct_with-IsRecovered f ds s built refs fits e,
              ) in
              ground (arith, tried)
        ]
      ]
    ]

-- With a cache of codes, and shards that fit in a data shred, a success gives only data shreds of the set
-- that were not among those received, each of the length of every data shred, and leaves a cache of
-- codes.
pub try_reconstruct-IsRecovered :
    (f : FecSetBuffer) (ds : List DataShredRef) (cache : ReedSolomonCache)
    (refs : List DataShredRef)
    → IsCache cache
    → f.shard_len ≤ data_shred_payload_len - size_of_signature
    → (try_reconstruct f ds cache).1 ≡ ok refs
    → IsCache (try_reconstruct f ds cache).0 × All (IsRecovered f ds) refs
try_reconstruct-IsRecovered f ds cache refs h fits e =
    let (codes, shreds) = try_reconstruct-Sound f ds cache h fits in (codes, shreds refs e)
