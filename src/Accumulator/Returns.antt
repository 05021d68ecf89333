-- ===== src/Accumulator/Returns.antt =====
-- When the calls of the accumulator return: the one loop that may go on for ever, and what keeps it short.
pub mod Endless
pub mod Low
pub mod Safe
pub mod Flushed
pub mod Calls
pub mod Coded
pub mod Ahead
pub mod Advance
use shredstream_sdk_go.Prelude.{
  ℕ, zero, suc, ◌+◌, ◌-◌, ◌%◌, ◌^◌, ◌≡◌, ◌≤◌, ◌<◌, refl, ◌∙◌, List, [], ◌∷◌, ◌++◌, Bool, true,
  false, Option, none, some, inl, inr, Bool-cases, leb, ◌==◌, if◌then◌else◌, Dict, lookup, arith,
  append_assoc, append-nil,
}
use shredstream_sdk_go.Pool.{BufferPool}
use shredstream_sdk_go.Saturating.{max_u32}
use shredstream_sdk_go.Accumulator.Slot.{PendingShred, next_u32}
use shredstream_sdk_go.Accumulator.Salvage.{bytes_of, gather, gather_batch}

-- The payloads at the `n` indices from `i`, one after the other.
unfoldable pub payloads : ℕ → ℕ → Dict PendingShred → BufferPool → List ℕ
payloads zero i pending p = []
payloads (suc n) i pending p = bytes_of (lookup i pending) p ++ payloads n (suc i) pending p

gather-payloads :
    (n fuel i bc_idx : ℕ) (pending : Dict PendingShred) (p : BufferPool) (scratch : List ℕ)
    → bc_idx < max_u32
    → n + i ≡ suc bc_idx
    → n < fuel
    → gather fuel i bc_idx pending p scratch ≡ some (scratch ++ payloads n i pending p)
unfolding gather payloads
gather-payloads n zero i bc_idx pending p scratch low end h = absurd (omega arith)
gather-payloads zero (suc fuel) i bc_idx pending p scratch low end h =
    let past : leb i bc_idx ≡ false = ground arith in rw (past, gather) (rw append-nil)
gather-payloads (suc n) (suc fuel) i bc_idx pending p scratch low end h =
    let within : leb i bc_idx ≡ true = ground arith in
    let step : next_u32 i ≡ suc i = omega arith in
    rw (within, gather)
      (rw step (
        gather-payloads n fuel (suc i) bc_idx pending p (scratch ++ bytes_of (lookup i pending) p)
          low (omega arith) (omega arith)
        ∙ rw append_assoc))

pub gather_endless :
    (fuel i : ℕ) (pending : Dict PendingShred) (p : BufferPool) (scratch : List ℕ)
    → i ≤ max_u32
    → gather fuel i max_u32 pending p scratch ≡ none
unfolding gather
gather_endless zero i pending p scratch h = refl
gather_endless (suc fuel) i pending p scratch h =
    let within : leb i max_u32 ≡ true = ground arith in
    rw (within, gather)
      (gather_endless fuel (next_u32 i) pending p (scratch ++ bytes_of (lookup i pending) p)
        (omega arith))

-- Where the batch does not end at the largest index, the loop over its indices ends with the payloads of
-- all of them, in order.
pub gather_batch-payloads :
    (start bc_idx : ℕ) (pending : Dict PendingShred) (p : BufferPool)
    → start ≤ bc_idx
    → bc_idx < max_u32
    → gather_batch start bc_idx pending p ≡ some (payloads (suc bc_idx - start) start pending p)
unfolding gather_batch
gather_batch-payloads start bc_idx pending p h low =
    gather-payloads (suc bc_idx - start) (bc_idx - start + 2) start bc_idx pending p [] low
      (omega arith) (omega arith)
