-- ===== src/Accumulator/Returns/Low.antt =====
-- Indices below the largest one, and how the steps on maps keep them so.
use shredstream_sdk_go.Prelude.{
  ℕ, zero, suc, ◌+◌, ◌≡◌, ◌≤◌, ◌<◌, List, [], ◌∷◌, Bool, ◌||◌, ◌&&◌, not, some, inl, inr,
  Bool-cases, ltb, ◌==◌, ==_iff, if◌then◌else◌, length, get_or, Dict, lookup, has_key, erase,
  insert, keep_if, All, arith,
}
use shredstream_sdk_go.Saturating.{max_u32}
use shredstream_sdk_go.Pool.{BufferPool}
use shredstream_sdk_go.Fec
use shredstream_sdk_go.Fec.{Coded, ReedSolomon}
use shredstream_sdk_go.Fec.Reconstruct.{reconstruct_data}
use shredstream_sdk_go.Fec.Cache.{ReedSolomonCache, get_or_build}
use shredstream_sdk_go.Accumulator.FecSet.{FecSetBuffer, is_code_merkle}
use shredstream_sdk_go.Accumulator.Recovery.{
  DataShredRef, Shards, is_already, recovered, zero_missing, collect, reconstruct_with, received,
  count_present, try_reconstruct,
}
use shredstream_sdk_go.Accumulator.Slot.{PendingShred, release_below}

-- The positions that tryReconstruct gives are below the number of data shreds.
abbrev pub IsIn : ℕ → DataShredRef → Type 0
IsIn n r = r.pos < n

abbrev pub AllIn : ℕ → Coded (List DataShredRef) → Type 0
AllIn n (Fec.err e) = Unit
AllIn n (Fec.ok refs) = All (IsIn n) refs

recovered-IsIn :
    (n pos : ℕ) (f : FecSetBuffer) (ds : List DataShredRef) (shards : List (List ℕ))
    → n + pos ≡ f.num_data
    → All (IsIn f.num_data) (recovered n pos f ds shards)
unfolding recovered
recovered-IsIn zero pos f ds shards h = tt
recovered-IsIn (suc n) pos f ds shards h =
    let rest = recovered-IsIn n (suc pos) f ds shards (omega arith) in
    let low : pos < f.num_data = omega arith in
    elim (Bool-cases (is_already pos ds)) [
      | inl known ↦ rw known rest
      | inr lost ↦ elim (Bool-cases (length (get_or shards pos []) == f.shard_len)) [
        | inr odd ↦ rw lost (rw odd rest)
        | inl even ↦ rw lost (rw even (low, rest))
      ]
    ]

collect-AllIn :
    (f : FecSetBuffer) (ds : List DataShredRef) (o : Coded (List (List ℕ) × List Bool))
    → AllIn f.num_data (collect f ds o)
collect-AllIn f ds (Fec.err e) = tt
collect-AllIn f ds (Fec.ok (shards, present)) =
    recovered-IsIn f.num_data 0 f ds shards (omega arith)

reconstruct_with-AllIn :
    (f : FecSetBuffer) (ds : List DataShredRef) (s : Shards) (built : Coded ReedSolomon)
    → AllIn f.num_data (reconstruct_with f ds s built)
reconstruct_with-AllIn f ds s (Fec.err e) = tt
reconstruct_with-AllIn f ds s (Fec.ok rs) =
    collect-AllIn f ds (reconstruct_data rs (zero_missing f.shard_len s.shards) s.present)

pub try_reconstruct-AllIn :
    (f : FecSetBuffer) (ds : List DataShredRef) (cache : ReedSolomonCache)
    → AllIn f.num_data (try_reconstruct f ds cache).1
unfolding try_reconstruct
try_reconstruct-AllIn f ds cache =
    elim (Bool-cases (f.num_data == 0 || (f.shard_len == 0 || not f.has_variant))) [
      | inl blank ↦ rw blank tt
      | inr set_up ↦ elim (Bool-cases (is_code_merkle f.variant.kind)) [
        | inr other ↦ rw set_up (rw other tt)
        | inl merkle ↦ elim (Bool-cases (ltb (count_present (received f ds).present) f.num_data)) [
          | inl few ↦ rw set_up (rw merkle (rw few tt))
          | inr enough ↦ rw set_up (
              rw merkle (
                rw enough (
                  reconstruct_with-AllIn f ds (received f ds)
                    (get_or_build cache f.num_data f.num_coding).1)))
        ]
      ]
    ]

-- Every key is below the largest index.
abbrev pub AreLow {ℓ} : {V : Type ℓ} → Dict V → Type 0
AreLow [] = Unit
AreLow ((k, v) ∷ d) = (k < max_u32) × AreLow d

-- Every data shred of an FEC set has an index below the largest.
abbrev pub SetsLow : Dict FecSetBuffer → Type 0
SetsLow [] = Unit
SetsLow ((k, fec) ∷ d) = (k + fec.num_data ≤ max_u32) × SetsLow d

pub AreLow-insert {ℓ} :
    {V : Type ℓ} (k : ℕ) (v : V) (d : Dict V) → k < max_u32 → AreLow d → AreLow (insert k v d)
AreLow-insert k v [] low h = (low, tt)
AreLow-insert k v ((j, w) ∷ d) low (first, h) = elim (Bool-cases (j == k)) [
  | inl here ↦ rw here (low, h)
  | inr there ↦ rw there (first, AreLow-insert k v d low h)
]

pub AreLow-erase {ℓ} : {V : Type ℓ} (k : ℕ) (d : Dict V) → AreLow d → AreLow (erase k d)
AreLow-erase k [] h = tt
AreLow-erase k ((j, w) ∷ d) (first, h) = elim (Bool-cases (j == k)) [
  | inl here ↦ rw here h
  | inr there ↦ rw there (first, AreLow-erase k d h)
]

pub AreLow-keep_if {ℓ} :
    {V : Type ℓ} (p : ℕ → V → Bool) (d : Dict V) → AreLow d → AreLow (keep_if p d)
AreLow-keep_if p [] h = tt
AreLow-keep_if p ((j, w) ∷ d) (first, h) = elim (Bool-cases (p j w)) [
  | inl stays ↦ rw stays (first, AreLow-keep_if p d h)
  | inr goes ↦ rw goes (AreLow-keep_if p d h)
]

pub AreLow-release_below :
    (bound : ℕ) (d : Dict PendingShred) (p : BufferPool)
    → AreLow d
    → AreLow (release_below bound d p).1
unfolding release_below
AreLow-release_below bound [] p h = tt
AreLow-release_below bound ((k, ps) ∷ d) p (first, h) = elim (Bool-cases (ltb k bound)) [
  | inl below ↦ rw below (AreLow-release_below bound d _ h)
  | inr above ↦ rw above (first, AreLow-release_below bound d p h)
]

pub SetsLow-erase : (k : ℕ) (d : Dict FecSetBuffer) → SetsLow d → SetsLow (erase k d)
SetsLow-erase k [] h = tt
SetsLow-erase k ((j, w) ∷ d) (first, h) = elim (Bool-cases (j == k)) [
  | inl here ↦ rw here h
  | inr there ↦ rw there (first, SetsLow-erase k d h)
]

pub SetsLow-keep_if :
    (p : ℕ → FecSetBuffer → Bool) (d : Dict FecSetBuffer) → SetsLow d → SetsLow (keep_if p d)
SetsLow-keep_if p [] h = tt
SetsLow-keep_if p ((j, w) ∷ d) (first, h) = elim (Bool-cases (p j w)) [
  | inl stays ↦ rw stays (first, SetsLow-keep_if p d h)
  | inr goes ↦ rw goes (SetsLow-keep_if p d h)
]

pub SetsLow-lookup :
    (k : ℕ) (fec : FecSetBuffer) (d : Dict FecSetBuffer)
    → SetsLow d
    → lookup k d ≡ some fec
    → k + fec.num_data ≤ max_u32
SetsLow-lookup k fec [] h e = cc
SetsLow-lookup k fec ((j, w) ∷ d) (first, h) e = elim (Bool-cases (j == k)) [
  | inl here ↦ ground (arith, ==_iff j k)
  | inr there ↦ SetsLow-lookup k fec d h (ground arith)
]

pub AreLow-insert_first :
    (b : Bool) (k now : ℕ) (d : Dict ℕ)
    → k < max_u32
    → AreLow d
    → AreLow (if b && not (has_key k d) then insert k now d else d)
AreLow-insert_first b k now d low h = elim (Bool-cases (b && not (has_key k d))) [
  | inl adds ↦ rw adds (AreLow-insert k now d low h)
  | inr stays ↦ rw stays h
]
