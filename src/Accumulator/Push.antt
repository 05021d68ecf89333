-- ===== src/Accumulator/Push.antt =====
-- pushData and pushCode of accumulator.go.
use shredstream_sdk_go.Prelude.{
  ℕ, ◌+◌, List, [], ◌∷◌, Bool, true, ◌&&◌, not, Option, none, some, ltb, leb, if◌then◌else◌, length,
  Dict, lookup, has_key, insert, erase, ◌>>=◌,
}
use shredstream_sdk_go.Prelude.Int.{pos, ltb_ℤ}
use shredstream_sdk_go.Pool.{BufferHandle}
use shredstream_sdk_go.Variant.{VariantKind}
use shredstream_sdk_go.Accumulator.FecSet.{FecSetBuffer, new_fec_set_buffer, record_code}
use shredstream_sdk_go.Accumulator.Slot.{
  pool_payload, release_handle, PendingShred, SlotAccumulator, SlotState,
}
use shredstream_sdk_go.Accumulator.Fill.{try_fec_fill}
use shredstream_sdk_go.Accumulator.Streaming.{advance}
use shredstream_sdk_go.Accumulator.Flush.{flush}

-- The arguments of pushData.
pub record DataPush : Type 0 where
  pub index : ℕ
  pub fec_set_index : ℕ
  pub handle : Option BufferHandle
  pub payload_end : ℕ
  pub batch_complete : Bool
  pub last_in_slot : Bool

-- `if handle != nil { handle.Release() }`.
abbrev pub drop_data : DataPush → SlotState → SlotState
drop_data d s = record s { pool = release_handle d.handle s.pool }

-- `&pendingShred{…}`.
abbrev pub pending_data : DataPush → PendingShred
pending_data d = record {
  source = pool_payload d.handle;
  payload_end = d.payload_end;
  batch_complete = d.batch_complete;
  fec_set_index = d.fec_set_index;
}

unfoldable pub store_data : ℕ → DataPush → SlotState → SlotState
store_data now d s = record s {
  acc = record s.acc {
    pending = insert d.index (pending_data d) s.acc.pending;
    batch_complete_idx =
        if d.batch_complete && not (has_key d.index s.acc.batch_complete_idx)
        then insert d.index now s.acc.batch_complete_idx
        else s.acc.batch_complete_idx;
  };
}

-- `if a.streamingCursor <= index && a.tryFecFill(…) { a.advanceStreaming(&out) }`.
unfoldable pub fill_ahead : ℕ → DataPush → SlotState → Option SlotState
fill_ahead now d s =
    if leb s.acc.streaming_cursor d.index
    then (let (s', filled) = try_fec_fill now d.fec_set_index s in
        if filled then advance s' else some s')
    else some s

-- The transactions of the call are added to `out`. `none` is a call that does not return.
unfoldable pub push_data : ℕ → DataPush → SlotState → Option SlotState
push_data now d s =
    if d.last_in_slot
    then flush now (drop_data d (record s { acc = record s.acc { slot_complete = true } }))
    else if ltb d.index s.acc.batch_start
    then some (drop_data d s)
    else if has_key d.index s.acc.pending
    then some (drop_data d s)
    else (advance (store_data now d s) >>= fill_ahead now d >>= flush now)

-- The arguments of pushCode.
pub record CodePush : Type 0 where
  pub fec_set_index : ℕ
  pub num_data : ℕ
  pub num_coding : ℕ
  pub position : ℕ
  pub coded : List ℕ
  pub variant : VariantKind

abbrev pub smaller_key : ℕ → Option ℕ → Option ℕ
smaller_key k none = some k
smaller_key k (some least) = if ltb k least then some k else some least

-- smallestFecSetKey.
unfoldable pub smallest_fec_set_key : Dict FecSetBuffer → Option ℕ
smallest_fec_set_key [] = none
smallest_fec_set_key ((k, fec) ∷ d) = smaller_key k (smallest_fec_set_key d)

abbrev pub evict_fec_set : ℕ → Option ℕ → SlotAccumulator → SlotAccumulator
evict_fec_set fec_set_index none a = a
evict_fec_set fec_set_index (some oldest) a =
    if ltb oldest fec_set_index
    then record a {
      fec_sets = erase oldest a.fec_sets;
      fec_sets_evicted_early = a.fec_sets_evicted_early + 1;
    }
    else a

-- Room for a new FEC set, if there are as many as the configuration allows.
unfoldable pub make_room : ℕ → SlotAccumulator → SlotAccumulator
make_room fec_set_index a =
    if not (ltb_ℤ (pos (length a.fec_sets)) a.cfg.max_fec_sets_per_slot)
      && not (has_key fec_set_index a.fec_sets)
    then evict_fec_set fec_set_index (smallest_fec_set_key a.fec_sets) a
    else a

abbrev pub entry_or_new : ℕ → Option FecSetBuffer → FecSetBuffer
entry_or_new fec_set_index none = new_fec_set_buffer fec_set_index
entry_or_new fec_set_index (some entry) = entry

unfoldable pub record_coding : CodePush → SlotAccumulator → SlotAccumulator
record_coding c a = record a {
  fec_sets =
      insert c.fec_set_index
        (record_code (entry_or_new c.fec_set_index (lookup c.fec_set_index a.fec_sets)) c.position
          c.num_data c.num_coding c.coded c.variant)
        a.fec_sets;
}

unfoldable pub push_code : ℕ → CodePush → SlotState → Option SlotState
push_code now c s =
    let s' = record s { acc = record_coding c (make_room c.fec_set_index s.acc) } in
    let (s'', filled) = try_fec_fill now c.fec_set_index s' in
    (if filled then advance s'' else some s'') >>= flush now
