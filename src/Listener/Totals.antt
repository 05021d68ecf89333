-- ===== src/Listener/Totals.antt =====
-- The totals of listener.go, over the slots that are gone and those that are live.
use shredstream_sdk_go.Prelude.{
  ℕ, ◌+◌, ◌≡◌, refl, [], ◌∷◌, Bool, true, false, ◌||◌, some, inl, inr, Bool-cases, ltb, length,
  ◌==◌, Dict, lookup, erase, arith,
}
use shredstream_sdk_go.Accumulator.Slot.{SlotAccumulator, SlotState}
use shredstream_sdk_go.Listener.{Listener, Counters}
use shredstream_sdk_go.Listener.Evict.{count_eviction, rollup_accumulator, finish_eviction}

-- `for _, a := range l.slots { t += … }`.
unfoldable pub live_total : (SlotAccumulator → ℕ) → Dict SlotAccumulator → ℕ
live_total f [] = 0
live_total f ((slot, acc) ∷ slots) = f acc + live_total f slots

abbrev pub decode_errors_total : Listener → ℕ
decode_errors_total l = l.counters.decode_errors_total + live_total (λ a. a.decode_errors) l.slots

abbrev pub fec_recoveries_total : Listener → ℕ
fec_recoveries_total l =
    l.counters.fec_recoveries_total + live_total (λ a. a.recoveries_done) l.slots

abbrev pub fec_recovery_failures_total : Listener → ℕ
fec_recovery_failures_total l =
    l.counters.fec_recovery_failures_total + live_total (λ a. a.recovery_failures) l.slots

abbrev pub batches_skipped_total : Listener → ℕ
batches_skipped_total l =
    l.counters.batches_skipped_total + live_total (λ a. a.batches_skipped) l.slots

abbrev pub batches_decoded_streaming_total : Listener → ℕ
batches_decoded_streaming_total l =
    l.counters.batches_decoded_streaming_total
    + live_total (λ a. a.batches_decoded_streaming) l.slots

abbrev pub batches_decoded_fallback_total : Listener → ℕ
batches_decoded_fallback_total l =
    l.counters.batches_decoded_fallback_total + live_total (λ a. a.batches_decoded_fallback) l.slots

abbrev pub salvaged_tail_tx_total : Listener → ℕ
salvaged_tail_tx_total l =
    l.counters.salvaged_tail_tx_total + live_total (λ a. a.salvaged_tail_tx) l.slots

abbrev pub fec_sets_discarded_unused_total : Listener → ℕ
fec_sets_discarded_unused_total l =
    l.counters.fec_sets_discarded_unused_total
    + live_total (λ a. a.fec_sets_discarded_unused) l.slots

abbrev pub fec_sets_evicted_early_total : Listener → ℕ
fec_sets_evicted_early_total l =
    l.counters.fec_sets_evicted_early_total + live_total (λ a. a.fec_sets_evicted_early) l.slots

abbrev pub batches_force_finalized_corrupted_total : Listener → ℕ
batches_force_finalized_corrupted_total l =
    l.counters.batches_force_finalized_corrupted_total
    + live_total (λ a. a.batches_force_finalized_corrupted) l.slots

abbrev pub batches_force_finalized_timeout_total : Listener → ℕ
batches_force_finalized_timeout_total l =
    l.counters.batches_force_finalized_timeout_total
    + live_total (λ a. a.batches_force_finalized_timeout) l.slots

-- UnparseablePackets.
abbrev pub unparseable_packets : Listener → ℕ
unparseable_packets l =
    l.counters.unparseable_too_short + l.counters.unparseable_variant
    + l.counters.unparseable_payload + l.counters.unparseable_slot_range

live_total-erase :
    (f : SlotAccumulator → ℕ) (slot : ℕ) (acc : SlotAccumulator) (slots : Dict SlotAccumulator)
    → lookup slot slots ≡ some acc
    → f acc + live_total f (erase slot slots) ≡ live_total f slots
unfolding live_total
live_total-erase f slot acc [] e = cc
live_total-erase f slot acc ((k, a) ∷ slots) e = elim (Bool-cases (k == slot)) [
  | inl here ↦ ground arith
  | inr there ↦ ground (arith, live_total-erase f slot acc slots)
]

-- What a total is behind an eviction, from what the eviction does to its counter.
moved :
    (f : SlotAccumulator → ℕ) (slot : ℕ) (acc a : SlotAccumulator) (slots : Dict SlotAccumulator)
    (n m : ℕ)
    → lookup slot slots ≡ some acc
    → m ≡ n + f a
    → (m + live_total f (erase slot slots)) + f acc ≡ (n + live_total f slots) + f a
moved f slot acc a slots n m found counts =
    let rest = live_total-erase f slot acc slots found in omega arith

-- The counters behind an eviction, with what the slot has counted.
abbrev RolledUp : Counters → Counters → SlotAccumulator → Type 0
RolledUp c d a =
    (c.decode_errors_total ≡ d.decode_errors_total + a.decode_errors)
    × (c.fec_recoveries_total ≡ d.fec_recoveries_total + a.recoveries_done)
    × (c.fec_recovery_failures_total ≡ d.fec_recovery_failures_total + a.recovery_failures)
    × (c.batches_skipped_total ≡ d.batches_skipped_total + a.batches_skipped)
    × (c.batches_decoded_streaming_total
        ≡ d.batches_decoded_streaming_total + a.batches_decoded_streaming)
    × (c.batches_decoded_fallback_total
        ≡ d.batches_decoded_fallback_total + a.batches_decoded_fallback)
    × (c.salvaged_tail_tx_total ≡ d.salvaged_tail_tx_total + a.salvaged_tail_tx)
    × (c.fec_sets_discarded_unused_total
        ≡ d.fec_sets_discarded_unused_total + a.fec_sets_discarded_unused)
    × (c.fec_sets_evicted_early_total ≡ d.fec_sets_evicted_early_total + a.fec_sets_evicted_early)
    × (c.batches_force_finalized_corrupted_total
        ≡ d.batches_force_finalized_corrupted_total + a.batches_force_finalized_corrupted)
    × (c.batches_force_finalized_timeout_total
        ≡ d.batches_force_finalized_timeout_total + a.batches_force_finalized_timeout)

count_eviction-RolledUp :
    (harvested complete : Bool) (c : Counters) (a : SlotAccumulator)
    → RolledUp (rollup_accumulator a (count_eviction harvested complete c)) c a
unfolding rollup_accumulator
count_eviction-RolledUp true true c a =
    (refl, refl, refl, refl, refl, refl, refl, refl, refl, refl, refl)
count_eviction-RolledUp true false c a =
    (refl, refl, refl, refl, refl, refl, refl, refl, refl, refl, refl)
count_eviction-RolledUp false true c a =
    (refl, refl, refl, refl, refl, refl, refl, refl, refl, refl, refl)
count_eviction-RolledUp false false c a =
    (refl, refl, refl, refl, refl, refl, refl, refl, refl, refl, refl)

-- Each of the eleven totals that add up the live slots differs between `l` and `l'` by what the slot's own
-- counter differs between `acc` and `s.acc`.
abbrev pub KeepsTotals : SlotAccumulator → SlotState → Listener → Listener → Type 0
KeepsTotals acc s l l' =
    (decode_errors_total l' + acc.decode_errors ≡ decode_errors_total l + s.acc.decode_errors)
    × (fec_recoveries_total l' + acc.recoveries_done
        ≡ fec_recoveries_total l + s.acc.recoveries_done)
    × (fec_recovery_failures_total l' + acc.recovery_failures
        ≡ fec_recovery_failures_total l + s.acc.recovery_failures)
    × (batches_skipped_total l' + acc.batches_skipped
        ≡ batches_skipped_total l + s.acc.batches_skipped)
    × (batches_decoded_streaming_total l' + acc.batches_decoded_streaming
        ≡ batches_decoded_streaming_total l + s.acc.batches_decoded_streaming)
    × (batches_decoded_fallback_total l' + acc.batches_decoded_fallback
        ≡ batches_decoded_fallback_total l + s.acc.batches_decoded_fallback)
    × (salvaged_tail_tx_total l' + acc.salvaged_tail_tx
        ≡ salvaged_tail_tx_total l + s.acc.salvaged_tail_tx)
    × (fec_sets_discarded_unused_total l' + acc.fec_sets_discarded_unused
        ≡ fec_sets_discarded_unused_total l + s.acc.fec_sets_discarded_unused)
    × (fec_sets_evicted_early_total l' + acc.fec_sets_evicted_early
        ≡ fec_sets_evicted_early_total l + s.acc.fec_sets_evicted_early)
    × (batches_force_finalized_corrupted_total l' + acc.batches_force_finalized_corrupted
        ≡ batches_force_finalized_corrupted_total l + s.acc.batches_force_finalized_corrupted)
    × (batches_force_finalized_timeout_total l' + acc.batches_force_finalized_timeout
        ≡ batches_force_finalized_timeout_total l + s.acc.batches_force_finalized_timeout)

-- Whatever state the harvest of a slot leaves, its eviction changes each of the eleven totals that add up
-- the live slots by what the harvest has added to the slot's own counter: nothing that the slot has
-- counted is lost, or counted twice.
pub finish_eviction-KeepsTotals :
    (slot pre_salvage : ℕ) (acc : SlotAccumulator) (s : SlotState) (l : Listener)
    → lookup slot l.slots ≡ some acc
    → KeepsTotals acc s l (finish_eviction slot pre_salvage s l)
unfolding finish_eviction
finish_eviction-KeepsTotals slot pre_salvage acc s l found =
    let (c1, c2, c3, c4, c5, c6, c7, c8, c9, c10, c11) =
      count_eviction-RolledUp (ltb 0 (length s.out) || ltb pre_salvage s.acc.salvaged_tail_tx)
        s.acc.slot_complete l.counters s.acc in
    (
      moved (λ a. a.decode_errors) slot acc s.acc l.slots _ _ found c1,
      moved (λ a. a.recoveries_done) slot acc s.acc l.slots _ _ found c2,
      moved (λ a. a.recovery_failures) slot acc s.acc l.slots _ _ found c3,
      moved (λ a. a.batches_skipped) slot acc s.acc l.slots _ _ found c4,
      moved (λ a. a.batches_decoded_streaming) slot acc s.acc l.slots _ _ found c5,
      moved (λ a. a.batches_decoded_fallback) slot acc s.acc l.slots _ _ found c6,
      moved (λ a. a.salvaged_tail_tx) slot acc s.acc l.slots _ _ found c7,
      moved (λ a. a.fec_sets_discarded_unused) slot acc s.acc l.slots _ _ found c8,
      moved (λ a. a.fec_sets_evicted_early) slot acc s.acc l.slots _ _ found c9,
      moved (λ a. a.batches_force_finalized_corrupted) slot acc s.acc l.slots _ _ found c10,
      moved (λ a. a.batches_force_finalized_timeout) slot acc s.acc l.slots _ _ found c11,
    )
