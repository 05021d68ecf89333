-- ===== src/Accumulator/Returns/Flushed.antt =====
-- tryFlushBatches returns, where no index is the largest.
use shredstream_sdk_go.Prelude.{
  ℕ, zero, suc, ◌-◌, ◌≡◌, ◌≤◌, ◌<◌, refl, subst, [], ◌∷◌, true, false, none, some, inl, inr,
  Bool-cases, Option-cases, ltb, leb, Dict, arith,
}
use shredstream_sdk_go.Saturating.{max_u32, saturating_add_u32}
use shredstream_sdk_go.Pool.{BufferPool}
use shredstream_sdk_go.Accumulator.Slot.{PendingShred, SlotState, complete_batch}
use shredstream_sdk_go.Accumulator.Salvage.{gather, gather_batch}
use shredstream_sdk_go.Accumulator.Flush.{
  smallest_from, is_short, is_stuck, fill_batch, close_stuck, close_decoded, flush_round,
  try_flush_batches, flush,
}
use shredstream_sdk_go.Accumulator.Rules.Calls.{flush_round-kept}
use shredstream_sdk_go.Accumulator.Returns.{gather_batch-payloads}
use shredstream_sdk_go.Accumulator.Returns.Low.{AreLow}
use shredstream_sdk_go.Accumulator.Returns.Safe.{IsSafeState, IsSafe-kept}

smallest_from-low :
    (start a b : ℕ) (d : Dict ℕ)
    → AreLow d
    → smallest_from start d ≡ some (a, b)
    → (start ≤ a) × (a < max_u32)
unfolding smallest_from
smallest_from-low start a b [] low e = absurd (ground arith)
smallest_from-low start a b ((idx, t) ∷ d) (first, low) e =
    elim (Option-cases (smallest_from start d)) [
      | inl no_rest ↦ ground arith
      | inr ((a', b'), rest) ↦ let ih = smallest_from-low start a' b' d low rest in ground arith
    ]

gather_past :
    (start bc_idx : ℕ) (pending : Dict PendingShred) (p : BufferPool)
    → bc_idx < start
    → gather_batch start bc_idx pending p ≡ some []
unfolding gather_batch gather
gather_past start bc_idx pending p h =
    let past : leb start bc_idx ≡ false = ground arith in
    let one : bc_idx - start ≡ 0 = omega arith in rw one (rw (past, gather) refl)

pub gather_batch_lem :
    (start bc_idx : ℕ) (pending : Dict PendingShred) (p : BufferPool)
    → bc_idx < max_u32
    → ¬ (gather_batch start bc_idx pending p ≡ none)
gather_batch_lem start bc_idx pending p low e = elim (Bool-cases (ltb bc_idx start)) [
  | inl past ↦ let ends = gather_past start bc_idx pending p (ground arith) in cc
  | inr within ↦ let ends = gather_batch-payloads start bc_idx pending p (ground arith) low in cc
]

flush_round_lem :
    (now bc_idx first_seen : ℕ) (s : SlotState)
    → bc_idx < max_u32
    → ¬ (flush_round now bc_idx first_seen s ≡ none)
unfolding flush_round
flush_round_lem now bc_idx first_seen s low e =
    let filled = fill_batch now bc_idx s in
    elim (Bool-cases (is_short bc_idx filled)) [
      | inl short ↦ elim (Bool-cases (is_stuck now first_seen filled)) [
        | inl stuck ↦ absurd (ground arith)
        | inr waits ↦ absurd (ground arith)
      ]
      | inr whole ↦
          elim (Option-cases
            (gather_batch filled.acc.batch_start bc_idx filled.acc.pending filled.pool)) [
              | inl endless ↦
                  gather_batch_lem filled.acc.batch_start bc_idx filled.acc.pending filled.pool low
                    endless
              | inr (bytes, gathered) ↦ absurd (ground arith)
            ]
    ]

complete_batch-start :
    (bc_idx : ℕ) (s : SlotState)
    → bc_idx < max_u32
    → (complete_batch bc_idx s).acc.batch_start ≡ suc bc_idx
unfolding complete_batch saturating_add_u32
complete_batch-start bc_idx s low = ground arith

-- A round that goes on moves the start of the batch behind the batch.
flush_round-start :
    (now bc_idx first_seen : ℕ) (s s' : SlotState)
    → bc_idx < max_u32
    → flush_round now bc_idx first_seen s ≡ some (s', true)
    → s'.acc.batch_start ≡ suc bc_idx
unfolding flush_round close_stuck close_decoded
flush_round-start now bc_idx first_seen s s' low e =
    let filled = fill_batch now bc_idx s in
    elim (Bool-cases (is_short bc_idx filled)) [
      | inl short ↦ elim (Bool-cases (is_stuck now first_seen filled)) [
        | inl stuck ↦
            let same : close_stuck bc_idx filled ≡ s' = ground arith in
            subst (λ t. t.acc.batch_start ≡ suc bc_idx) same (complete_batch-start bc_idx _ low)
        | inr waits ↦ absurd (ground arith)
      ]
      | inr whole ↦
          elim (Option-cases
            (gather_batch filled.acc.batch_start bc_idx filled.acc.pending filled.pool)) [
              | inl endless ↦ absurd (ground arith)
              | inr (bytes, gathered) ↦
                  let same : close_decoded bc_idx bytes filled ≡ s' = ground arith in
                  subst (λ t. t.acc.batch_start ≡ suc bc_idx) same
                    (complete_batch-start bc_idx _ low)
            ]
    ]

try_flush_batches_lem :
    (fuel now : ℕ) (s : SlotState)
    → IsSafeState s
    → max_u32 - s.acc.batch_start < fuel
    → ¬ (try_flush_batches fuel now s ≡ none)
unfolding try_flush_batches
try_flush_batches_lem zero now s h enough e = omega arith
try_flush_batches_lem (suc fuel) now s h enough e =
    elim (Option-cases (smallest_from s.acc.batch_start s.acc.batch_complete_idx)) [
      | inl closed ↦ absurd (ground arith)
      | inr ((bc_idx, seen), first) ↦
          let (above, low) =
            smallest_from-low s.acc.batch_start bc_idx seen s.acc.batch_complete_idx h.boundaries
              first in
          elim (Option-cases (flush_round now bc_idx seen s)) [
            | inl endless ↦ flush_round_lem now bc_idx seen s low endless
            | inr ((next, goes_on), round) ↦ elim (Bool-cases goes_on) [
              | inl on ↦
                  let start = flush_round-start now bc_idx seen s next low (ground arith) in
                  let safe =
                    flush_round-kept IsSafeState IsSafe-kept now bc_idx seen s next goes_on round
                      h in
                  try_flush_batches_lem fuel now next safe (omega arith) (ground arith)
              | inr off ↦ absurd (ground arith)
            ]
          ]
    ]

pub flush_lem : (now : ℕ) (s : SlotState) → IsSafeState s → ¬ (flush now s ≡ none)
unfolding flush
flush_lem now s h = try_flush_batches_lem _ now s h (omega arith)
