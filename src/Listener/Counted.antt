-- ===== src/Listener/Counted.antt =====
-- Every datagram is counted, once.
use shredstream_sdk_go.Prelude.{
  ℕ, ◌+◌, ◌≡◌, refl, subst, ◌∙◌, List, Bool, true, false, ◌||◌, none, some, inl, inr, Option-cases,
  ltb, length, lookup, arith,
}
use shredstream_sdk_go.Pool.{BufferHandle}
use shredstream_sdk_go.Parser.{too_short, unknown_variant, payload_invalid}
use shredstream_sdk_go.Accumulator.Slot.{SlotAccumulator}
use shredstream_sdk_go.Accumulator.Harvest.{try_harvest_tail}
use shredstream_sdk_go.Listener.{Listener, Counters}
use shredstream_sdk_go.Listener.Evict.{
  slot_state, finish_eviction, evict_slot, rollup_accumulator, count_eviction,
}
use shredstream_sdk_go.Listener.Packet.{Answer, handle_packet}
use shredstream_sdk_go.Listener.Steps.{
  Taken, unparsed, refused, known, disabled, pushed_data, pushed_code, Stepped, starved, took,
  handle_packet-Stepped,
}
use shredstream_sdk_go.Listener.Steps.Eviction.{
  IsKept, acquire_buffer_with_fallback-Acquired, move_to_slot-kept,
}

-- What the eight counters of received datagrams say together: the data and coding shreds that were
-- taken, those of known slots, those of slots out of range, the datagrams that do not parse, and those
-- that found no buffer.
abbrev pub counted : Counters → ℕ
counted c =
    c.data_shred_count + c.code_shred_count + c.dropped_known_slots + c.unparseable_slot_range
    + c.unparseable_too_short + c.unparseable_variant + c.unparseable_payload + c.pool_exhausted

counted-count_eviction :
    (harvested complete : Bool) (c : Counters)
    → counted (count_eviction harvested complete c) ≡ counted c
counted-count_eviction true true c = refl
counted-count_eviction true false c = refl
counted-count_eviction false true c = refl
counted-count_eviction false false c = refl

module _ (k : ℕ) where
  abbrev Counts : Listener → Type 0
  Counts l = counted l.counters ≡ k

  evict_slot-Counts :
      (now slot : ℕ) (acc : SlotAccumulator) (l l' : Listener)
      → lookup slot l.slots ≡ some acc
      → evict_slot now slot acc l ≡ some l'
      → Counts l
      → Counts l'
  unfolding evict_slot finish_eviction rollup_accumulator
  evict_slot-Counts now slot acc l l' found e h =
      elim (Option-cases (try_harvest_tail now (slot_state acc l))) [
        | inl endless ↦ absurd (ground arith)
        | inr (s, harvested) ↦
            let same : finish_eviction slot acc.salvaged_tail_tx s l ≡ l' = ground arith in
            let some_left =
              ltb 0 (length s.out) || ltb acc.salvaged_tail_tx s.acc.salvaged_tail_tx in
            subst Counts same (counted-count_eviction some_left s.acc.slot_complete l.counters ∙ h)
      ]

  Counts-kept : IsKept Counts
  Counts-kept = record { evict = evict_slot-Counts; forget = λ l h. h }

Taken-counted :
    (now : ℕ) (h : BufferHandle) (l l' : Listener)
    → Taken now h l l'
    → counted l'.counters ≡ counted l.counters + 1
Taken-counted now h l l' (unparsed too_short same) = rw same (omega arith)
Taken-counted now h l l' (unparsed unknown_variant same) = rw same (omega arith)
Taken-counted now h l l' (unparsed payload_invalid same) = rw same (omega arith)
Taken-counted now h l l' (refused same) = rw same (omega arith)
Taken-counted now h l l' (known same) = rw same (omega arith)
Taken-counted now h l l' (disabled same) = rw same (omega arith)
Taken-counted now h l l' (pushed_data d m s accepted fresh moved pushed same) =
    let k = counted l.counters + 1 in
    rw same (
      move_to_slot-kept (Counts k) (Counts-kept k) now d.slot _ m moved (omega arith) (omega arith))
Taken-counted now h l l' (pushed_code c m s accepted fresh moved pushed same) =
    let k = counted l.counters + 1 in
    rw same (
      move_to_slot-kept (Counts k) (Counts-kept k) now c.slot _ m moved (omega arith) (omega arith))

Stepped-counted :
    (now : ℕ) (raw : List ℕ) (l l' : Listener)
    → Stepped now raw l l'
    → counted l'.counters ≡ counted l.counters + 1
Stepped-counted now raw l l' (starved got) =
    let k = counted l.counters in
    let (m, counts, same) =
      acquire_buffer_with_fallback-Acquired (Counts k) (Counts-kept k) now l l' none got refl in
    rw same (omega arith)
Stepped-counted now raw l l' (took h n got way) =
    let k = counted l.counters in
    let (m, p, counts, acquired, same) =
      acquire_buffer_with_fallback-Acquired (Counts k) (Counts-kept k) now l n (some h) got refl in
    let same_count : counted n.counters ≡ k = rw same counts in
    let step = Taken-counted now _ _ l' way in omega arith

-- Where HandlePacket returns, the eight counters of received datagrams (data and coding shreds, known
-- slots, slots out of range, the three parse errors and the empty pool) add up to one more than before.
pub handle_packet-counted :
    (now : ℕ) (raw : List ℕ) (l l' : Listener) (a : Answer)
    → handle_packet now raw l ≡ some (l', a)
    → counted l'.counters ≡ counted l.counters + 1
handle_packet-counted now raw l l' a e =
    Stepped-counted now raw l l' (handle_packet-Stepped now raw l l' a e)
