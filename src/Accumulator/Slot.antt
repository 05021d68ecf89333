-- ===== src/Accumulator/Slot.antt =====
-- slotAccumulator of accumulator.go: the shreds of one slot that wait for their batch.
use shredstream_sdk_go.Prelude.{
  ℕ, suc, ◌+◌, ◌%◌, ◌^◌, List, [], ◌∷◌, ◌++◌, Bool, true, false, ◌&&◌, ◌||◌, not, Option, none,
  some, ltb, leb, ◌==◌, if◌then◌else◌, length, slice, Dict, keep_if,
}
use shredstream_sdk_go.Saturating.{saturating_add_u32}
use shredstream_sdk_go.Options.{AccumulatorConfig}
use shredstream_sdk_go.Parser.{data_header_size}
use shredstream_sdk_go.Pool.{BufferPool, BufferHandle, handle_bytes, release}
use shredstream_sdk_go.Fec.Cache.{ReedSolomonCache}
use shredstream_sdk_go.Decoder.Types.{VersionedTransaction, Signature}
use shredstream_sdk_go.Decoder.Streaming.{StreamingDecoder, new_streaming_decoder, reset}
use shredstream_sdk_go.Accumulator.FecSet.{FecSetBuffer}

-- payloadSource. A handle is `none` where the Go pointer is nil.
pub data PayloadSource : Type 0 where
  pool_payload : Option BufferHandle → PayloadSource
  recovered_payload : List ℕ → PayloadSource

-- slice().
unfoldable pub source_bytes : PayloadSource → BufferPool → List ℕ
source_bytes (pool_payload none) p = []
source_bytes (pool_payload (some h)) p = handle_bytes p h
source_bytes (recovered_payload bytes) p = bytes

-- `if handle != nil { handle.Release() }`. The handle itself is dropped by every caller.
unfoldable pub release_handle : Option BufferHandle → BufferPool → BufferPool
release_handle none p = p
release_handle (some h) p = (release h p).1

-- release().
unfoldable pub release_source : PayloadSource → BufferPool → BufferPool
release_source (pool_payload h) p = release_handle h p
release_source (recovered_payload bytes) p = p

pub record PendingShred : Type 0 where
  pub source : PayloadSource
  pub payload_end : ℕ
  pub batch_complete : Bool
  pub fec_set_index : ℕ

-- `none` is nil.
unfoldable pub payload : PendingShred → BufferPool → Option (List ℕ)
payload ps p =
    if ltb ps.payload_end data_header_size || ltb (length (source_bytes ps.source p)) ps.payload_end
    then none
    else some (slice (source_bytes ps.source p) data_header_size ps.payload_end)

-- A time is a number of nanoseconds. A signature in `yielded_sigs` has been given to the caller.
pub record SlotAccumulator : Type 0 where
  pub cfg : AccumulatorConfig
  pub pending : Dict PendingShred
  pub fec_sets : Dict FecSetBuffer
  pub batch_complete_idx : Dict ℕ
  pub streaming_cursor : ℕ
  pub streaming_decoder : StreamingDecoder
  pub yielded_sigs : List Signature
  pub batch_start : ℕ
  pub slot_complete : Bool
  pub disable_salvage_delivery : Bool
  pub decode_errors : ℕ
  pub recoveries_done : ℕ
  pub recovery_failures : ℕ
  pub batches_decoded_streaming : ℕ
  pub batches_decoded_fallback : ℕ
  pub batches_skipped : ℕ
  pub fec_sets_discarded_unused : ℕ
  pub fec_sets_evicted_early : ℕ
  pub salvaged_tail_tx : ℕ
  pub batches_force_finalized_corrupted : ℕ
  pub batches_force_finalized_timeout : ℕ

unfoldable pub new_slot_accumulator : AccumulatorConfig → SlotAccumulator
new_slot_accumulator cfg = record {
  cfg = cfg;
  pending = [];
  fec_sets = [];
  batch_complete_idx = [];
  streaming_cursor = 0;
  streaming_decoder = new_streaming_decoder;
  yielded_sigs = [];
  batch_start = 0;
  slot_complete = false;
  disable_salvage_delivery = false;
  decode_errors = 0;
  recoveries_done = 0;
  recovery_failures = 0;
  batches_decoded_streaming = 0;
  batches_decoded_fallback = 0;
  batches_skipped = 0;
  fec_sets_discarded_unused = 0;
  fec_sets_evicted_early = 0;
  salvaged_tail_tx = 0;
  batches_force_finalized_corrupted = 0;
  batches_force_finalized_timeout = 0;
}

-- What a method of the accumulator can change: the accumulator, the pool that its handles point to, the
-- cache of codes, and the transactions in `*out`.
pub record SlotState : Type 0 where
  pub acc : SlotAccumulator
  pub pool : BufferPool
  pub cache : ReedSolomonCache
  pub out : List VersionedTransaction

-- An increment of a uint32.
abbrev pub next_u32 : ℕ → ℕ
next_u32 c = (c + 1) % 2 ^ 32

abbrev pub bump_decode_errors : SlotAccumulator → SlotAccumulator
bump_decode_errors a = record a { decode_errors = next_u32 a.decode_errors }

-- `a.batchesDecodedFallback++` if something new came out, and `a.batchesSkipped++` otherwise.
abbrev pub count_salvage : ℕ → SlotAccumulator → SlotAccumulator
count_salvage salvaged a =
    if ltb 0 salvaged
    then record a { batches_decoded_fallback = a.batches_decoded_fallback + 1 }
    else record a { batches_skipped = a.batches_skipped + 1 }

abbrev pub same_bytes : List ℕ → List ℕ → Bool
same_bytes [] [] = true
same_bytes [] (y ∷ ys) = false
same_bytes (x ∷ xs) [] = false
same_bytes (x ∷ xs) (y ∷ ys) = x == y && same_bytes xs ys

unfoldable pub is_yielded : Signature → List Signature → Bool
is_yielded sig [] = false
is_yielded sig (s ∷ sigs) = same_bytes s sig || is_yielded sig sigs

abbrev pub record_first : List Signature → SlotAccumulator → SlotAccumulator × Bool
record_first [] a = (a, false)
record_first (sig ∷ sigs) a =
    if is_yielded sig a.yielded_sigs
    then (a, false)
    else (record a { yielded_sigs = sig ∷ a.yielded_sigs }, true)

unfoldable pub record_sig : SlotAccumulator → VersionedTransaction → SlotAccumulator × Bool
record_sig a tx = record_first tx.signatures a

-- `for _, tx := range txs { if a.recordSig(tx) { *out = append(*out, tx); … } }`, with the number of
-- transactions that were new.
unfoldable pub deliver : List VersionedTransaction → SlotState → SlotState × ℕ
deliver [] s = (s, 0)
deliver (tx ∷ txs) s =
    let (a, new) = record_sig s.acc tx in
    let (s', n) =
      deliver txs (record s { acc = a; out = if new then s.out ++ (tx ∷ []) else s.out }) in
    (s', if new then suc n else n)

-- The loop of completeBatch over `pending`: the pool behind it, and what is left.
unfoldable pub release_below : ℕ → Dict PendingShred → BufferPool → BufferPool × Dict PendingShred
release_below bound [] p = (p, [])
release_below bound ((k, ps) ∷ d) p =
    let (p', d') = release_below bound d (if ltb k bound then release_source ps.source p else p) in
    (p', if ltb k bound then d' else (k, ps) ∷ d')

-- `!(nd > 0 && setIdx+nd <= nextStart)`, where the sum wraps around.
abbrev pub set_stays : ℕ → ℕ → FecSetBuffer → Bool
set_stays bound set_idx fec =
    not (ltb 0 fec.num_data && leb ((set_idx + fec.num_data) % 2 ^ 32) bound)

unfoldable pub complete_batch : ℕ → SlotState → SlotState
complete_batch bc_idx s =
    let a = s.acc in
    let next_start = saturating_add_u32 bc_idx 1 in
    let (pool, pending) = release_below next_start a.pending s.pool in
    record s {
      pool = pool;
      acc = record a {
        pending = pending;
        batch_complete_idx = keep_if (λ k _. not (ltb k next_start)) a.batch_complete_idx;
        fec_sets = keep_if (set_stays next_start) a.fec_sets;
        batch_start = next_start;
        streaming_cursor =
            if ltb a.streaming_cursor next_start then next_start else a.streaming_cursor;
        streaming_decoder = reset a.streaming_decoder;
        yielded_sigs = [];
      };
    }

unfoldable pub release_all : Dict PendingShred → BufferPool → BufferPool
release_all [] p = p
release_all ((k, ps) ∷ d) p = release_all d (release_source ps.source p)

-- slotAccumulator.release.
unfoldable pub release_slot : SlotState → SlotState
release_slot s = record s {
  pool = release_all s.acc.pending s.pool;
  acc = record s.acc { pending = []; fec_sets = []; batch_complete_idx = [] };
}
