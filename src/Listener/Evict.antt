-- ===== src/Listener/Evict.antt =====
-- Eviction of listener.go: what is left of a slot is harvested, counted and released.
use shredstream_sdk_go.Prelude.{
  ℕ, ◌+◌, List, [], ◌∷◌, ◌++◌, Bool, ◌||◌, Option, none, some, ltb, if◌then◌else◌, length, Dict,
  lookup, erase,
}
use shredstream_sdk_go.Saturating.{saturating_add_u64, saturating_sub_u64}
use shredstream_sdk_go.Decoder.Types.{VersionedTransaction}
use shredstream_sdk_go.Accumulator.Slot.{SlotAccumulator, SlotState, release_slot}
use shredstream_sdk_go.Accumulator.Harvest.{try_harvest_tail}
use shredstream_sdk_go.Listener.{
  SlotBatch, Counters, Listener, is_seen, completed_retention_slots, blacklist_extra_slots,
}

-- rollupAccumulator.
unfoldable pub rollup_accumulator : SlotAccumulator → Counters → Counters
rollup_accumulator a c = record c {
  decode_errors_total = c.decode_errors_total + a.decode_errors;
  fec_recoveries_total = c.fec_recoveries_total + a.recoveries_done;
  fec_recovery_failures_total = c.fec_recovery_failures_total + a.recovery_failures;
  batches_skipped_total = c.batches_skipped_total + a.batches_skipped;
  batches_decoded_streaming_total = c.batches_decoded_streaming_total + a.batches_decoded_streaming;
  batches_decoded_fallback_total = c.batches_decoded_fallback_total + a.batches_decoded_fallback;
  salvaged_tail_tx_total = c.salvaged_tail_tx_total + a.salvaged_tail_tx;
  fec_sets_discarded_unused_total = c.fec_sets_discarded_unused_total + a.fec_sets_discarded_unused;
  fec_sets_evicted_early_total = c.fec_sets_evicted_early_total + a.fec_sets_evicted_early;
  batches_force_finalized_corrupted_total =
      c.batches_force_finalized_corrupted_total + a.batches_force_finalized_corrupted;
  batches_force_finalized_timeout_total =
      c.batches_force_finalized_timeout_total + a.batches_force_finalized_timeout;
}

-- `if harvested { … }` and `if acc.slotComplete { … } else { … }`.
abbrev pub count_eviction : Bool → Bool → Counters → Counters
count_eviction harvested complete c =
    let c' =
      if harvested
      then record c { harvested_batches_total = c.harvested_batches_total + 1 }
      else c in
    if complete
    then record c' { slots_completed_total = c'.slots_completed_total + 1 }
    else record c' { slots_evicted_by_age = c'.slots_evicted_by_age + 1 }

abbrev pub queue_tail : ℕ → List VersionedTransaction → List SlotBatch → List SlotBatch
queue_tail slot [] batches = batches
queue_tail slot (tx ∷ tail) batches = batches ++ (record { slot = slot; txs = tx ∷ tail } ∷ [])

-- A member of a set is not entered twice.
abbrev pub add_seen : ℕ → List ℕ → List ℕ
add_seen slot seen = if is_seen slot seen then seen else slot ∷ seen

-- The accumulator of the slot is taken out of the map, and the harvest is done with it.
abbrev pub slot_state : SlotAccumulator → Listener → SlotState
slot_state acc l = record { acc = acc; pool = l.pool; cache = l.rs_cache; out = [] }

-- What follows the harvest, which left `s` and the transactions `s.out`.
unfoldable pub finish_eviction : ℕ → ℕ → SlotState → Listener → Listener
finish_eviction slot pre_salvage s l =
    let harvested = ltb 0 (length s.out) || ltb pre_salvage s.acc.salvaged_tail_tx in
    record l {
      pool = (release_slot s).pool;
      rs_cache = s.cache;
      slots = erase slot l.slots;
      pending_batches = queue_tail slot s.out l.pending_batches;
      counters = rollup_accumulator s.acc (count_eviction harvested s.acc.slot_complete l.counters);
      recently_seen_slots = add_seen slot l.recently_seen_slots;
    }

-- The body of both eviction loops on a slot of the map. `none` is a harvest that does not return.
unfoldable pub evict_slot : ℕ → ℕ → SlotAccumulator → Listener → Option Listener
evict_slot now slot acc l = elim (try_harvest_tail now (slot_state acc l)) [
  | none ↦ none
  | some s ↦ some (finish_eviction slot acc.salvaged_tail_tx s l)
]

abbrev pub evict_found : ℕ → ℕ → Option SlotAccumulator → Listener → Option Listener
evict_found now slot none l = some l
evict_found now slot (some acc) l = evict_slot now slot acc l

unfoldable pub evict_all : ℕ → List ℕ → Listener → Option Listener
evict_all now [] l = some l
evict_all now (slot ∷ slots) l = elim (evict_found now slot (lookup slot l.slots) l) [
  | none ↦ none
  | some l' ↦ evict_all now slots l'
]

-- `toEvict`.
unfoldable pub to_evict : ℕ → ℕ → Dict SlotAccumulator → List ℕ
to_evict last max_age [] = []
to_evict last max_age ((slot, acc) ∷ slots) =
    let rest = to_evict last max_age slots in
    let threshold = if acc.slot_complete then completed_retention_slots else max_age in
    if ltb (saturating_add_u64 slot threshold) last then slot ∷ rest else rest

-- The members that are not below the floor.
unfoldable pub keep_from : ℕ → List ℕ → List ℕ
keep_from floor [] = []
keep_from floor (slot ∷ seen) =
    let rest = keep_from floor seen in if ltb slot floor then rest else slot ∷ rest

abbrev pub forget_old : Listener → Listener
forget_old l = record l {
  recently_seen_slots =
      keep_from
        (saturating_sub_u64 l.last_slot (saturating_add_u64 l.max_age blacklist_extra_slots))
        l.recently_seen_slots;
}

unfoldable pub evict_old_slots : ℕ → Listener → Option Listener
evict_old_slots now l = elim (evict_all now (to_evict l.last_slot l.max_age l.slots) l) [
  | none ↦ none
  | some l' ↦ some (forget_old l')
]

abbrev pub smaller_slot : ℕ → Option ℕ → Option ℕ
smaller_slot slot none = some slot
smaller_slot slot (some oldest) = if ltb slot oldest then some slot else some oldest

unfoldable pub oldest_slot : Dict SlotAccumulator → Option ℕ
oldest_slot [] = none
oldest_slot ((slot, acc) ∷ slots) = smaller_slot slot (oldest_slot slots)

abbrev pub force_evict : ℕ → Option ℕ → Listener → Option Listener
force_evict now none l = some l
force_evict now (some oldest) l = evict_found now oldest (lookup oldest l.slots) l

unfoldable pub force_evict_oldest_slot : ℕ → Listener → Option Listener
force_evict_oldest_slot now l = force_evict now (oldest_slot l.slots) l
