-- ===== src/Accumulator/Harvest.antt =====
-- tryHarvestTail of accumulator.go: what is still in a slot that is evicted.
use shredstream_sdk_go.Prelude.{
  ℕ, zero, suc, ◌+◌, ◌-◌, List, [], ◌∷◌, ◌++◌, Bool, true, false, ◌&&◌, Option, none, some, ltb,
  leb, ◌==◌, if◌then◌else◌, length, Dict, lookup, has_key, keys,
}
use shredstream_sdk_go.Decoder.Batch.{decode_batch}
use shredstream_sdk_go.Accumulator.Slot.{
  PendingShred, SlotState, next_u32, count_salvage, complete_batch,
}
use shredstream_sdk_go.Accumulator.Fill.{fill_hints, sort_keys}
use shredstream_sdk_go.Accumulator.Salvage.{
  bytes_of, gather_batch, deliver_batch, deliver_run, salvage_contiguous_runs_in,
}

-- The indices that end a batch, before they are sorted.
unfoldable pub boundaries : ℕ → Dict PendingShred → List ℕ
boundaries start [] = []
boundaries start ((idx, ps) ∷ d) =
    let rest = boundaries start d in if ps.batch_complete && leb start idx then idx ∷ rest else rest

-- `contiguous`, on the `n` indices from `i`. Its loop ends at MaxUint32 too.
unfoldable pub all_pending : ℕ → ℕ → Dict PendingShred → Bool
all_pending zero i pending = true
all_pending (suc n) i pending =
    let rest = all_pending n (suc i) pending in if has_key i pending then rest else false

unfoldable pub salvage_batch : ℕ → SlotState → SlotState
salvage_batch bc_idx s =
    let (s', salvaged) = salvage_contiguous_runs_in s.acc.batch_start bc_idx s in
    record s' { acc = count_salvage salvaged s'.acc }

-- One round of the loop over the boundaries; `none` is a round that does not end.
unfoldable pub harvest_batch : ℕ → SlotState → Option SlotState
harvest_batch bc_idx s =
    if ltb bc_idx s.acc.batch_start
    then some s
    else if all_pending (suc (bc_idx - s.acc.batch_start)) s.acc.batch_start s.acc.pending
    then elim (gather_batch s.acc.batch_start bc_idx s.acc.pending s.pool) [
      | none ↦ none
      | some bytes ↦ some (complete_batch bc_idx (deliver_batch (decode_batch bytes) s))
    ]
    else some (complete_batch bc_idx (salvage_batch bc_idx s))

unfoldable pub harvest_batches : List ℕ → SlotState → Option SlotState
harvest_batches [] s = some s
harvest_batches (bc_idx ∷ bs) s = elim (harvest_batch bc_idx s) [
  | none ↦ none
  | some s' ↦ harvest_batches bs s'
]

-- The last loop, over the sorted indices that are left: a run ends where the next index is not the one
-- expected, and is decoded there. Its two loops are one recursion.
unfoldable pub harvest_runs : List ℕ → ℕ → List ℕ → SlotState → SlotState
harvest_runs [] expected scratch s = (deliver_run scratch s).0
harvest_runs (i ∷ is) expected scratch s =
    let same = i == expected in
    harvest_runs is (next_u32 i)
      ((if same then scratch else []) ++ bytes_of (lookup i s.acc.pending) s.pool)
      (if same then s else (deliver_run scratch s).0)

abbrev pub harvest_rest : List ℕ → SlotState → SlotState
harvest_rest [] s = s
harvest_rest (i ∷ is) s = harvest_runs (i ∷ is) i [] s

-- The counters, and the transactions that are delivered.
unfoldable pub finish_harvest : SlotState → SlotState
finish_harvest s = record s {
  acc = record s.acc {
    fec_sets_discarded_unused = s.acc.fec_sets_discarded_unused + length s.acc.fec_sets;
    salvaged_tail_tx = s.acc.salvaged_tail_tx + length s.out;
  };
  out = if s.acc.disable_salvage_delivery then [] else s.out;
}

-- `out` is empty at the start, and holds the result at the end.
unfoldable pub try_harvest_tail : ℕ → SlotState → Option SlotState
try_harvest_tail now s =
    let s' = fill_hints now (keys s.acc.fec_sets) s in
    elim (harvest_batches (sort_keys (boundaries s'.acc.batch_start s'.acc.pending)) s') [
      | none ↦ none
      | some s'' ↦ some (finish_harvest (harvest_rest (sort_keys (keys s''.acc.pending)) s''))
    ]
