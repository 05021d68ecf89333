-- ===== src/Tests/Accumulating.antt =====
-- The calls of an accumulator at concrete shreds, with their theorems.
use shredstream_sdk_go.Prelude.{
  ◌≡◌, refl, [], ◌∷◌, true, false, ◌>>=◌, none, some, replicate, arith, Gives,
}
use shredstream_sdk_go.Prelude.Int.{◌-ℤ◌}
use shredstream_sdk_go.Saturating.{max_u32}
use shredstream_sdk_go.Options.{default_accumulator_config}
use shredstream_sdk_go.Variant.{kind_code_merkle}
use shredstream_sdk_go.Fec.Cache.{new_reed_solomon_cache}
use shredstream_sdk_go.Accumulator.Slot.{SlotState, new_slot_accumulator}
use shredstream_sdk_go.Accumulator.Flush.{try_flush_batches, smallest_from}
use shredstream_sdk_go.Accumulator.Slot.{
  PendingShred, pool_payload, payload, source_bytes, release_source, release_handle,
}
use shredstream_sdk_go.Accumulator.Streaming.{advance, advance_streaming, skip_shred, drop_shred}
use shredstream_sdk_go.Accumulator.Returns.Advance.{advance-Gives}
use shredstream_sdk_go.Accumulator.Push.{DataPush, CodePush, push_data, push_code}
use shredstream_sdk_go.Accumulator.Returns.Safe.{IsSafe, IsSafeState}
use shredstream_sdk_go.Accumulator.Returns.Calls.{push_data-Gives}
use shredstream_sdk_go.Accumulator.Returns.Coded.{push_code-Gives}
use shredstream_sdk_go.Accumulator.Returns.Endless.{IsDoomed, try_flush_batches_endless}

-- A slot of a new accumulator, with an empty pool.
abbrev new_slot : SlotState
new_slot = record {
  acc = new_slot_accumulator default_accumulator_config;
  pool = record { freelist = []; buffers = []; capacity = 0 };
  cache = new_reed_solomon_cache;
  out = [];
}

new_slot-IsSafe : IsSafe new_slot.acc
unfolding new_slot_accumulator
new_slot-IsSafe = record { pending = tt; boundaries = tt; sets = tt; started = omega arith }

abbrev data_40 : DataPush
data_40 = record {
  index = 40;
  fec_set_index = 32;
  handle = none;
  payload_end = 90;
  batch_complete = true;
  last_in_slot = false;
}

push_data-Gives_example : Gives IsSafeState (push_data 7 data_40 new_slot)
push_data-Gives_example = push_data-Gives 7 data_40 new_slot (omega arith) new_slot-IsSafe

abbrev code_32 : CodePush
code_32 = record {
  fec_set_index = 32;
  num_data = 2;
  num_coding = 1;
  position = 0;
  coded = replicate 89 0;
  variant = record { kind = kind_code_merkle; proof_size = 6; resigned = true };
}

push_code-Gives_example : Gives IsSafeState (push_code 7 code_32 new_slot)
push_code-Gives_example = push_code-Gives 7 code_32 new_slot (omega arith) new_slot-IsSafe

-- The batch ends at the largest index, and was first seen at the time 0.
abbrev doomed_slot : SlotState
doomed_slot = record new_slot {
  acc = record new_slot.acc { batch_complete_idx = (max_u32, 0) ∷ [] };
}

doomed_slot-IsDoomed : IsDoomed 60000000 0 doomed_slot
unfolding new_slot_accumulator smallest_from default_accumulator_config ◌-ℤ◌
doomed_slot-IsDoomed = record { no_sets = refl; started = omega arith; last = refl; waited = refl }

try_flush_batches_endless_example : try_flush_batches 3 60000000 doomed_slot ≡ none
try_flush_batches_endless_example =
    try_flush_batches_endless 3 60000000 0 doomed_slot doomed_slot-IsDoomed

-- Two shreds without a buffer, the first at the cursor.
abbrev empty_shred : PendingShred
empty_shred = record {
  source = pool_payload none;
  payload_end = 90;
  batch_complete = false;
  fec_set_index = 0;
}

abbrev two_empty : SlotState
two_empty = record new_slot {
  acc = record new_slot.acc { pending = (0, empty_shred) ∷ (1, empty_shred) ∷ [] };
}

two_empty-IsSafe : IsSafe two_empty.acc
unfolding new_slot_accumulator
two_empty-IsSafe = record {
  pending = (omega arith, (omega arith, tt));
  boundaries = tt;
  sets = tt;
  started = omega arith;
}

-- Both are dropped.
two_empty_run : (advance two_empty >>= λ s. some s.acc.streaming_cursor) ≡ some 2
unfolding advance advance_streaming new_slot_accumulator skip_shred drop_shred payload source_bytes
    release_source release_handle
two_empty_run = refl

advance-Gives_example :
    Gives (λ s'. IsSafeState s' × (advance_streaming 7 two_empty ≡ some s')) (advance two_empty)
advance-Gives_example = advance-Gives 7 two_empty two_empty-IsSafe (omega arith)
