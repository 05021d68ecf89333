-- ===== src/Accumulator/Salvage.antt =====
-- What accumulator.go decodes of the pending shreds: whole batches, and the runs of broken ones.
use shredstream_sdk_go.Prelude.{
  ℕ, zero, suc, ◌+◌, ◌-◌, List, [], ◌∷◌, ◌++◌, true, false, Option, none, some, ltb, leb,
  if◌then◌else◌, Dict, lookup,
}
use shredstream_sdk_go.Pool.{BufferPool}
use shredstream_sdk_go.Decoder.Types.{VersionedTransaction}
use shredstream_sdk_go.Decoder.Batch.{Decoded, ok, err, decode_concatenated}
use shredstream_sdk_go.Accumulator.Slot.{
  PendingShred, payload, SlotState, next_u32, bump_decode_errors, deliver,
}

-- `if p := ps.payload(); p != nil { append }`.
abbrev pub or_nothing : Option (List ℕ) → List ℕ
or_nothing none = []
or_nothing (some bytes) = bytes

abbrev pub bytes_of : Option PendingShred → BufferPool → List ℕ
bytes_of none p = []
bytes_of (some ps) p = or_nothing (payload ps p)

-- `for i := start; i <= bcIdx; i++` over uint32, with fuel: the payloads of a batch. `none` is a loop
-- that goes on when the fuel is used up.
unfoldable pub gather : ℕ → ℕ → ℕ → Dict PendingShred → BufferPool → List ℕ → Option (List ℕ)
gather zero i bc_idx pending p scratch = none
gather (suc fuel) i bc_idx pending p scratch = elim (leb i bc_idx) [
  | false ↦ some scratch
  | true ↦ gather fuel (next_u32 i) bc_idx pending p (scratch ++ bytes_of (lookup i pending) p)
]

-- A round for each index of the batch, and one for the test that ends the loop.
unfoldable pub gather_batch : ℕ → ℕ → Dict PendingShred → BufferPool → Option (List ℕ)
gather_batch start bc_idx pending p = gather (bc_idx - start + 2) start bc_idx pending p []

-- What follows DecodeBatch. Its `txs` is nil where it holds no transaction.
abbrev pub deliver_batch : Decoded (List VersionedTransaction) → SlotState → SlotState
deliver_batch (err e) s = record s {
  acc = record (bump_decode_errors s.acc) { batches_skipped = s.acc.batches_skipped + 1 };
}
deliver_batch (ok []) s = record s {
  acc = record (bump_decode_errors s.acc) { batches_skipped = s.acc.batches_skipped + 1 };
}
deliver_batch (ok (tx ∷ txs)) s =
    let (s', new) = deliver (tx ∷ txs) s in
    record s' {
      acc =
          if ltb 0 new
          then record s'.acc { batches_decoded_fallback = s'.acc.batches_decoded_fallback + 1 }
          else record s'.acc { batches_decoded_streaming = s'.acc.batches_decoded_streaming + 1 };
    }

-- `if len(a.combinedScratch) > 0 { for _, tx := range DecodeConcatenated(…) … }`.
unfoldable pub deliver_run : List ℕ → SlotState → SlotState × ℕ
deliver_run [] s = (s, 0)
deliver_run (b ∷ scratch) s = deliver (decode_concatenated (b ∷ scratch)) s

-- salvageContiguousRunsIn on the `n` indices from `cursor`, with the bytes of the run that ends there. Of
-- its two inner loops one passes over indices with no shred, and the other gathers a run, which ends at
-- such an index or behind the last: both are this recursion, which decodes a run where it ends. At
-- MaxUint32 no index is left.
unfoldable pub salvage_runs : ℕ → ℕ → List ℕ → SlotState → SlotState × ℕ
salvage_runs zero cursor scratch s = deliver_run scratch s
salvage_runs (suc n) cursor scratch s = elim (lookup cursor s.acc.pending) [
  | some ps ↦ salvage_runs n (suc cursor) (scratch ++ or_nothing (payload ps s.pool)) s
  | none ↦
      let (s', salvaged) = deliver_run scratch s in
      let (s'', more) = salvage_runs n (suc cursor) [] s' in (s'', salvaged + more)
]

unfoldable pub salvage_contiguous_runs_in : ℕ → ℕ → SlotState → SlotState × ℕ
salvage_contiguous_runs_in start last s = salvage_runs (suc last - start) start [] s
