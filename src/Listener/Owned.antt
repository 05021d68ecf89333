-- ===== src/Listener/Owned.antt =====
-- No datagram loses a buffer of the pool, or frees one that a shred holds.
use shredstream_sdk_go.Prelude.{
  ℕ, ◌+◌, ◌≡◌, refl, subst, ◌∙◌, List, [], ◌∷◌, Option, none, some, inl, inr, Option-cases, lookup,
  insert, erase, Dict, arith,
}
use shredstream_sdk_go.Pool.{BufferPool, BufferHandle, acquire, take_top}
use shredstream_sdk_go.Accumulator.Slot.{SlotAccumulator, new_slot_accumulator}
use shredstream_sdk_go.Accumulator.Harvest.{try_harvest_tail}
use shredstream_sdk_go.Accumulator.Owned.{count, uses, held, count-release}
use shredstream_sdk_go.Accumulator.Owned.Steps.{
  owned-push_data, owned-push_code, owned-try_harvest_tail, owned-release_slot,
}
use shredstream_sdk_go.Listener.{Listener}
use shredstream_sdk_go.Listener.Evict.{slot_state, finish_eviction, evict_slot}
use shredstream_sdk_go.Listener.Packet.{Answer, find_or_new, fill_buffer, handle_packet, data_push}
use shredstream_sdk_go.Listener.Steps.{
  Taken, unparsed, refused, known, disabled, pushed_data, pushed_code, Stepped, starved, took,
  handle_packet-Stepped, filled, found_state,
}
use shredstream_sdk_go.Listener.Steps.Eviction.{
  IsKept, acquire_buffer_with_fallback-Acquired, move_to_slot-kept,
}

-- How many of the pending shreds of all slots hold the buffer `i`.
abbrev pub held_by_slots : ℕ → Dict SlotAccumulator → ℕ
held_by_slots i [] = 0
held_by_slots i ((slot, acc) ∷ slots) = held i acc.pending + held_by_slots i slots

-- How often the buffer `i` is free or held.
abbrev pub owned_all : ℕ → Listener → ℕ
owned_all i l = count i l.pool.freelist + held_by_slots i l.slots

abbrev held_found : ℕ → Option SlotAccumulator → ℕ
held_found i none = 0
held_found i (some acc) = held i acc.pending

held_by_slots-erase :
    (i slot : ℕ) (acc : SlotAccumulator) (slots : Dict SlotAccumulator)
    → lookup slot slots ≡ some acc
    → held i acc.pending + held_by_slots i (erase slot slots) ≡ held_by_slots i slots
held_by_slots-erase i slot acc [] h = cc
held_by_slots-erase i slot acc ((k, a) ∷ slots) h =
    ground (arith, held_by_slots-erase i slot acc slots)

held_by_slots-insert :
    (i slot : ℕ) (acc : SlotAccumulator) (slots : Dict SlotAccumulator)
    → held_by_slots i (insert slot acc slots) + held_found i (lookup slot slots)
      ≡ held i acc.pending + held_by_slots i slots
held_by_slots-insert i slot acc [] = omega arith
held_by_slots-insert i slot acc ((k, a) ∷ slots) =
    ground (arith, held_by_slots-insert i slot acc slots)

held-find_or_new :
    (i : ℕ) (o : Option SlotAccumulator) (l : Listener)
    → held i (find_or_new o l).pending ≡ held_found i o
unfolding new_slot_accumulator
held-find_or_new i none l = refl
held-find_or_new i (some acc) l = refl

module _ (i k : ℕ) where
  abbrev Owns : Listener → Type 0
  Owns l = owned_all i l ≡ k

  evict_slot-Owns :
      (now slot : ℕ) (acc : SlotAccumulator) (l l' : Listener)
      → lookup slot l.slots ≡ some acc
      → evict_slot now slot acc l ≡ some l'
      → Owns l
      → Owns l'
  unfolding evict_slot finish_eviction
  evict_slot-Owns now slot acc l l' found e h =
      elim (Option-cases (try_harvest_tail now (slot_state acc l))) [
        | inl endless ↦ absurd (ground arith)
        | inr (s, harvested) ↦
            let kept = owned-try_harvest_tail i now (slot_state acc l) s harvested in
            let freed = owned-release_slot i now s s in
            let left = held_by_slots-erase i slot acc l.slots found in
            let same : finish_eviction slot acc.salvaged_tail_tx s l ≡ l' = ground arith in
            subst Owns same (omega arith)
      ]

  Owns-kept : IsKept Owns
  Owns-kept = record { evict = evict_slot-Owns; forget = λ l h. h }

Taken-owned_all :
    (i now : ℕ) (h : BufferHandle) (l l' : Listener)
    → Taken now h l l'
    → owned_all i l' ≡ uses i h + owned_all i l
Taken-owned_all i now h l l' (unparsed e same) =
    let freed = count-release i h l.pool in rw same (omega arith)
Taken-owned_all i now h l l' (refused same) =
    let freed = count-release i h l.pool in rw same (omega arith)
Taken-owned_all i now h l l' (known same) =
    let freed = count-release i h l.pool in rw same (omega arith)
Taken-owned_all i now h l l' (disabled same) =
    let freed = count-release i h l.pool in rw same (omega arith)
Taken-owned_all i now h l l' (pushed_data d m s accepted fresh moved pushed same) =
    let k = owned_all i l in
    let m_owns = move_to_slot-kept (Owns i k) (Owns-kept i k) now d.slot _ m moved refl refl in
    let s_owns = owned-push_data i now (found_state d.slot m) s (data_push h d) pushed in
    let old = held-find_or_new i (lookup d.slot m.slots) m in
    let stored = held_by_slots-insert i d.slot s.acc m.slots in rw same (omega arith)
Taken-owned_all i now h l l' (pushed_code c m s accepted fresh moved pushed same) =
    let k = owned_all i l in
    let m_owns = move_to_slot-kept (Owns i k) (Owns-kept i k) now c.slot _ m moved refl refl in
    let s_owns = owned-push_code i now (found_state c.slot m) s _ pushed in
    let old = held-find_or_new i (lookup c.slot m.slots) m in
    let stored = held_by_slots-insert i c.slot s.acc m.slots in
    let freed = count-release i h s.pool in rw same (omega arith)

count-take_top :
    (i : ℕ) (h : BufferHandle) (p p' : BufferPool) (free : List ℕ)
    → take_top p free ≡ (some h, p')
    → count i free ≡ uses i h + count i p'.freelist
count-take_top i h p p' [] e = absurd (ground arith)
count-take_top i h p p' (idx ∷ free) e = ground arith

count-acquire :
    (i : ℕ) (h : BufferHandle) (p p' : BufferPool)
    → acquire p ≡ (some h, p')
    → count i p.freelist ≡ uses i h + count i p'.freelist
unfolding acquire
count-acquire i h p p' e = count-take_top i h p p' p.freelist e

-- Filling a buffer leaves it held by the handle.
filled-owned_all :
    (i : ℕ) (h : BufferHandle) (raw : List ℕ) (l : Listener)
    → uses i (fill_buffer h raw l.pool).0 + owned_all i (filled h raw l) ≡ uses i h + owned_all i l
unfolding fill_buffer
filled-owned_all i h raw l = refl

Stepped-owned_all :
    (i now : ℕ) (raw : List ℕ) (l l' : Listener)
    → Stepped now raw l l'
    → owned_all i l' ≡ owned_all i l
Stepped-owned_all i now raw l l' (starved got) =
    let k = owned_all i l in
    let (m, m_owns, same) =
      acquire_buffer_with_fallback-Acquired (Owns i k) (Owns-kept i k) now l l' none got refl in
    rw same m_owns
Stepped-owned_all i now raw l l' (took h n got way) =
    let k = owned_all i l in
    let (m, p, m_owns, acquired, same) =
      acquire_buffer_with_fallback-Acquired (Owns i k) (Owns-kept i k) now l n (some h) got refl in
    let counted = count-acquire i h m.pool p acquired in
    let n_owns : uses i h + owned_all i n ≡ k = rw same (omega arith) in
    Taken-owned_all i now (fill_buffer h raw n.pool).0 (filled h raw n) l' way
    ∙ filled-owned_all i h raw n
    ∙ n_owns

-- Where HandlePacket returns, each buffer of the pool is free or held by a pending shred as often as it
-- was before the call: none is lost, and none is freed that is still held.
pub handle_packet-owned_all :
    (i now : ℕ) (raw : List ℕ) (l l' : Listener) (a : Answer)
    → handle_packet now raw l ≡ some (l', a)
    → owned_all i l' ≡ owned_all i l
handle_packet-owned_all i now raw l l' a e =
    Stepped-owned_all i now raw l l' (handle_packet-Stepped now raw l l' a e)
