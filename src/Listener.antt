-- ===== src/Listener.antt =====
-- listener.go: the slots of a listener, and what one datagram does to them.
pub mod Evict
pub mod Packet
pub mod Steps
pub mod Owned
pub mod Counted
pub mod Bound
pub mod Returns
pub mod Run
pub mod Receive
pub mod Totals
use shredstream_sdk_go.Prelude.{
  ℕ, zero, suc, ◌+◌, ◌-◌, ◌%◌, ◌^◌, List, [], ◌∷◌, ◌++◌, Bool, true, false, ◌&&◌, not, Option, none,
  some, ltb, leb, ◌==◌, if◌then◌else◌, length, Dict, has_key,
}
use shredstream_sdk_go.Prelude.Int.{ℤ, pos, negsuc}
use shredstream_sdk_go.Options.{ListenerOptions, AccumulatorConfig}
use shredstream_sdk_go.Pool.{BufferPool, new_buffer_pool}
use shredstream_sdk_go.Parser.{ParseError, too_short, unknown_variant, payload_invalid}
use shredstream_sdk_go.Decoder.Types.{VersionedTransaction}
use shredstream_sdk_go.Fec.Cache.{ReedSolomonCache, new_reed_solomon_cache}
use shredstream_sdk_go.Accumulator.Slot.{SlotAccumulator}

abbrev pub max_plausible_slot : ℕ
max_plausible_slot = 2 ^ 40

abbrev pub max_slot_jump_forward : ℕ
max_slot_jump_forward = 1000000

abbrev pub max_bootstrap_slot : ℕ
max_bootstrap_slot = 10000000000

abbrev pub blacklist_extra_slots : ℕ
blacklist_extra_slots = 50

abbrev pub completed_retention_slots : ℕ
completed_retention_slots = 1

abbrev pub max_live_slots : ℕ
max_live_slots = 64

pub record SlotBatch : Type 0 where
  pub slot : ℕ
  pub txs : List VersionedTransaction

-- The counters of a listener.
pub record Counters : Type 0 where
  pub pool_exhausted : ℕ
  pub data_shred_count : ℕ
  pub code_shred_count : ℕ
  pub bytes_received : ℕ
  pub unparseable_too_short : ℕ
  pub unparseable_variant : ℕ
  pub unparseable_payload : ℕ
  pub unparseable_slot_range : ℕ
  pub dropped_known_slots : ℕ
  pub decode_errors_total : ℕ
  pub fec_recoveries_total : ℕ
  pub fec_recovery_failures_total : ℕ
  pub batches_skipped_total : ℕ
  pub batches_decoded_streaming_total : ℕ
  pub batches_decoded_fallback_total : ℕ
  pub slots_completed_total : ℕ
  pub slots_evicted_by_age : ℕ
  pub harvested_batches_total : ℕ
  pub salvaged_tail_tx_total : ℕ
  pub fec_sets_discarded_unused_total : ℕ
  pub fec_sets_evicted_early_total : ℕ
  pub batches_force_finalized_corrupted_total : ℕ
  pub batches_force_finalized_timeout_total : ℕ

-- The set `recentlySeenSlots` is the list of its members. The socket is not a part of the state.
pub record Listener : Type 0 where
  pub pool : BufferPool
  pub slots : Dict SlotAccumulator
  pub recently_seen_slots : List ℕ
  pub pending_batches : List SlotBatch
  pub max_age : ℕ
  pub last_slot : ℕ
  pub enable_fec : Bool
  pub disable_salvage_delivery : Bool
  pub accumulator_cfg : AccumulatorConfig
  pub rs_cache : ReedSolomonCache
  pub counters : Counters

abbrev pub no_counters : Counters
no_counters = record {
  pool_exhausted = 0;
  data_shred_count = 0;
  code_shred_count = 0;
  bytes_received = 0;
  unparseable_too_short = 0;
  unparseable_variant = 0;
  unparseable_payload = 0;
  unparseable_slot_range = 0;
  dropped_known_slots = 0;
  decode_errors_total = 0;
  fec_recoveries_total = 0;
  fec_recovery_failures_total = 0;
  batches_skipped_total = 0;
  batches_decoded_streaming_total = 0;
  batches_decoded_fallback_total = 0;
  slots_completed_total = 0;
  slots_evicted_by_age = 0;
  harvested_batches_total = 0;
  salvaged_tail_tx_total = 0;
  fec_sets_discarded_unused_total = 0;
  fec_sets_evicted_early_total = 0;
  batches_force_finalized_corrupted_total = 0;
  batches_force_finalized_timeout_total = 0;
}

-- `uint64(n)`.
abbrev pub to_u64 : ℤ → ℕ
to_u64 (pos n) = n % 2 ^ 64
to_u64 (negsuc n) = 2 ^ 64 - 1 - n % 2 ^ 64

-- newBufferPool(opts.PoolSize); `none` is its panic.
abbrev pub pool_of : ℤ → Option BufferPool
pool_of (pos n) = new_buffer_pool n
pool_of (negsuc n) = none

unfoldable pub new_listener : ListenerOptions → Option Listener
new_listener opts = elim (pool_of opts.pool_size) [
  | none ↦ none
  | some pool ↦ some (record {
    pool = pool;
    slots = [];
    recently_seen_slots = [];
    pending_batches = [];
    max_age = to_u64 opts.max_age;
    last_slot = 0;
    enable_fec = opts.enable_fec;
    disable_salvage_delivery = opts.disable_salvage_delivery;
    accumulator_cfg = opts.accumulator;
    rs_cache = new_reed_solomon_cache;
    counters = no_counters;
  })
]

-- bumpParseError.
abbrev pub bump_parse_error : ParseError → Counters → Counters
bump_parse_error too_short c = record c { unparseable_too_short = c.unparseable_too_short + 1 }
bump_parse_error unknown_variant c = record c { unparseable_variant = c.unparseable_variant + 1 }
bump_parse_error payload_invalid c = record c { unparseable_payload = c.unparseable_payload + 1 }

abbrev pub bump_slot_range : Listener → Listener
bump_slot_range l = record l {
  counters = record l.counters { unparseable_slot_range = l.counters.unparseable_slot_range + 1 };
}

-- The four tests of acceptSlot: the slot is refused.
unfoldable pub is_refused : ℕ → Listener → Bool
is_refused slot l =
    if ltb max_plausible_slot slot
    then true
    else if l.last_slot == 0 && ltb max_bootstrap_slot slot
    then true
    else if ltb 0 l.last_slot
        && (ltb l.last_slot slot && ltb max_slot_jump_forward (slot - l.last_slot))
    then true
    else not (has_key slot l.slots) && leb max_live_slots (length l.slots)

unfoldable pub accept_slot : ℕ → Listener → Listener × Bool
accept_slot slot l = if is_refused slot l then (bump_slot_range l, false) else (l, true)

unfoldable pub is_seen : ℕ → List ℕ → Bool
is_seen slot [] = false
is_seen slot (s ∷ seen) = if s == slot then true else is_seen slot seen
