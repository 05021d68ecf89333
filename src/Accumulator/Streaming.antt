-- ===== src/Accumulator/Streaming.antt =====
-- advanceStreaming of accumulator.go: the shreds at the cursor go to the streaming decoder.
use shredstream_sdk_go.Prelude.{
  ℕ, zero, suc, ◌+◌, ◌-◌, List, Bool, true, false, ◌&&◌, Option, none, some, ltb, if◌then◌else◌,
  length, lookup, erase,
}
use shredstream_sdk_go.Decoder.Types.{VersionedTransaction}
use shredstream_sdk_go.Decoder.Batch.{Decoded, ok, err}
use shredstream_sdk_go.Decoder.Streaming.{StreamingDecoder, push, reset}
use shredstream_sdk_go.Accumulator.Slot.{
  PayloadSource, pool_payload, recovered_payload, release_source, PendingShred, payload,
  SlotAccumulator, SlotState, next_u32, bump_decode_errors, count_salvage, deliver, complete_batch,
}
use shredstream_sdk_go.Accumulator.Salvage.{salvage_contiguous_runs_in}

abbrev pub is_recovered : PayloadSource → Bool
is_recovered (pool_payload h) = false
is_recovered (recovered_payload bytes) = true

-- The shred at the cursor has no payload: it is dropped.
unfoldable pub drop_shred : PendingShred → SlotState → SlotState
drop_shred ps s =
    let a = s.acc in
    record s {
      pool = release_source ps.source s.pool;
      acc = record (bump_decode_errors a) {
        pending = erase a.streaming_cursor a.pending;
        batch_complete_idx =
            if ps.batch_complete
            then erase a.streaming_cursor a.batch_complete_idx
            else a.batch_complete_idx;
        streaming_cursor = next_u32 a.streaming_cursor;
      };
    }

abbrev pub count_corrupted : SlotAccumulator → SlotAccumulator
count_corrupted a = record a {
  batches_force_finalized_corrupted = a.batches_force_finalized_corrupted + 1;
}

-- The batch that ends at the dropped index is given up: what stands before that index is salvaged.
unfoldable pub give_up_batch : ℕ → SlotState → SlotState
give_up_batch dropped_idx s =
    let (s', salvaged) = salvage_contiguous_runs_in s.acc.batch_start (dropped_idx - 1) s in
    complete_batch dropped_idx (record s' { acc = count_corrupted (count_salvage salvaged s'.acc) })

unfoldable pub skip_shred : PendingShred → SlotState → SlotState
skip_shred ps s =
    if ps.batch_complete && ltb s.acc.batch_start s.acc.streaming_cursor
    then give_up_batch s.acc.streaming_cursor (drop_shred ps s)
    else drop_shred ps s

abbrev pub move_on : StreamingDecoder → SlotState → SlotState
move_on d s = record s {
  acc = record s.acc { streaming_decoder = d; streaming_cursor = next_u32 s.acc.streaming_cursor };
}

-- The state behind a push to the decoder, and whether the loop may go on.
abbrev pub take_pushed :
    StreamingDecoder × Decoded (List VersionedTransaction) → SlotState → SlotState × Bool
take_pushed (d, err e) s =
    let s' = move_on (reset d) s in (record s' { acc = bump_decode_errors s'.acc }, false)
take_pushed (d, ok txs) s = ((deliver txs (move_on d s)).0, true)

-- The `for` loop, with fuel: `none` where the fuel is used up before the loop has returned.
unfoldable pub advance_streaming : ℕ → SlotState → Option SlotState
advance_streaming zero s = none
advance_streaming (suc fuel) s = elim (lookup s.acc.streaming_cursor s.acc.pending) [
  | none ↦ some s
  | some ps ↦ elim (is_recovered ps.source) [
    | true ↦ some s
    | false ↦ elim (payload ps s.pool) [
      | none ↦ advance_streaming fuel (skip_shred ps s)
      | some bytes ↦
          let (s', goes_on) = take_pushed (push s.acc.streaming_decoder bytes) s in
          elim (goes_on && (if ps.batch_complete then false else true)) [
            | true ↦ advance_streaming fuel s'
            | false ↦ some s'
          ]
    ]
  ]
]

-- Each round but the last passes over one pending shred.
unfoldable pub advance : SlotState → Option SlotState
advance s = advance_streaming (suc (length s.acc.pending)) s
