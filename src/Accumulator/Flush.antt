-- ===== src/Accumulator/Flush.antt =====
-- tryFlushBatches of accumulator.go: batches that are complete, or stuck, are decoded and closed.
use shredstream_sdk_go.Prelude.{
  ℕ, zero, suc, ◌+◌, ◌-◌, ◌%◌, ◌^◌, List, [], ◌∷◌, Bool, true, false, ◌&&◌, not, Option, none, some,
  ltb, leb, ◌==◌, if◌then◌else◌, Dict, has_key,
}
use shredstream_sdk_go.Prelude.Int.{pos, ◌-ℤ◌, ltb_ℤ}
use shredstream_sdk_go.Decoder.Batch.{decode_batch}
use shredstream_sdk_go.Accumulator.FecSet.{FecSetBuffer}
use shredstream_sdk_go.Accumulator.Slot.{
  PendingShred, SlotAccumulator, SlotState, count_salvage, complete_batch,
}
use shredstream_sdk_go.Accumulator.Fill.{fill_hints}
use shredstream_sdk_go.Accumulator.Salvage.{gather_batch, deliver_batch, salvage_contiguous_runs_in}

-- countPendingInRange on the `n` indices from `i`. Its loop ends at MaxUint32 too.
unfoldable pub count_pending : ℕ → ℕ → Dict PendingShred → ℕ
count_pending zero i pending = 0
count_pending (suc n) i pending =
    let rest = count_pending n (suc i) pending in if has_key i pending then suc rest else rest

-- The smaller index of an entry and what the loop found before.
abbrev pub smaller : ℕ × ℕ → Option (ℕ × ℕ) → Option (ℕ × ℕ)
smaller e none = some e
smaller (idx, t) (some (min_idx, min_time)) =
    if ltb idx min_idx then some (idx, t) else some (min_idx, min_time)

-- smallestBatchCompleteIdxFrom.
unfoldable pub smallest_from : ℕ → Dict ℕ → Option (ℕ × ℕ)
smallest_from start [] = none
smallest_from start ((idx, t) ∷ d) =
    let rest = smallest_from start d in if ltb idx start then rest else smaller (idx, t) rest

-- The FEC sets that reach into the batch; the sum wraps around.
unfoldable pub hints_for : ℕ → ℕ → Dict FecSetBuffer → List ℕ
hints_for start bc_idx [] = []
hints_for start bc_idx ((f, fec) ∷ d) =
    let rest = hints_for start bc_idx d in
    if not (fec.num_data == 0) && (ltb start ((f + fec.num_data) % 2 ^ 32) && leb f bc_idx)
    then f ∷ rest
    else rest

-- `present < expected`.
unfoldable pub is_short : ℕ → SlotState → Bool
is_short bc_idx s =
    let expected = suc (bc_idx - s.acc.batch_start) in
    ltb (count_pending expected s.acc.batch_start s.acc.pending) expected

-- `time.Since(firstSeen) >= a.cfg.StuckBatchTimeout`.
abbrev pub is_stuck : ℕ → ℕ → SlotState → Bool
is_stuck now first_seen s = not (ltb_ℤ (pos now -ℤ pos first_seen) s.acc.cfg.stuck_batch_timeout)

abbrev pub count_timeout : SlotAccumulator → SlotAccumulator
count_timeout a = record a {
  batches_force_finalized_timeout = a.batches_force_finalized_timeout + 1;
}

unfoldable pub close_stuck : ℕ → SlotState → SlotState
close_stuck bc_idx s =
    let (s', salvaged) = salvage_contiguous_runs_in s.acc.batch_start bc_idx s in
    complete_batch bc_idx (record s' { acc = count_timeout (count_salvage salvaged s'.acc) })

unfoldable pub close_decoded : ℕ → List ℕ → SlotState → SlotState
close_decoded bc_idx bytes s = complete_batch bc_idx (deliver_batch (decode_batch bytes) s)

-- What the FEC sets that reach into a batch with missing shreds can add.
unfoldable pub fill_batch : ℕ → ℕ → SlotState → SlotState
fill_batch now bc_idx s =
    if is_short bc_idx s
    then fill_hints now (hints_for s.acc.batch_start bc_idx s.acc.fec_sets) s
    else s

-- One round on the batch that ends at `bc_idx`: the state behind it, and whether the loop goes on.
-- `none` is a round that does not end.
unfoldable pub flush_round : ℕ → ℕ → ℕ → SlotState → Option (SlotState × Bool)
flush_round now bc_idx first_seen s =
    let s' = fill_batch now bc_idx s in
    if is_short bc_idx s'
    then (if is_stuck now first_seen s'
        then some (close_stuck bc_idx s', true)
        else some (s', false))
    else elim (gather_batch s'.acc.batch_start bc_idx s'.acc.pending s'.pool) [
      | none ↦ none
      | some bytes ↦ some (close_decoded bc_idx bytes s', true)
    ]

-- The loop, with fuel. `now` is the time of the call.
unfoldable pub try_flush_batches : ℕ → ℕ → SlotState → Option SlotState
try_flush_batches zero now s = none
try_flush_batches (suc fuel) now s =
    elim (smallest_from s.acc.batch_start s.acc.batch_complete_idx) [
      | none ↦ some s
      | some (bc_idx, first_seen) ↦ elim (flush_round now bc_idx first_seen s) [
        | none ↦ none
        | some (s', goes_on) ↦ elim goes_on [
          | true ↦ try_flush_batches fuel now s'
          | false ↦ some s'
        ]
      ]
    ]

-- A round for each index: each but the last moves the start of the batch up, unless the batch ends at the
-- largest index.
unfoldable pub flush : ℕ → SlotState → Option SlotState
flush now s = try_flush_batches (suc (2 ^ 32 - s.acc.batch_start)) now s
