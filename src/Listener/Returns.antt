-- ===== src/Listener/Returns.antt =====
-- When the calls of the listener return: evictions and acquisitions.
pub mod Datagram
use shredstream_sdk_go.Prelude.{
  ℕ, zero, suc, ◌+◌, ◌-◌, ◌≡◌, ◌≤◌, ◌<◌, ◌⊎◌, refl, sym, subst, ap, ◌∙◌, List, [], ◌∷◌, ◌++◌, Bool,
  true, false, ◌&&◌, not, Option, none, some, inl, inr, Bool-cases, Option-cases, ltb, ◌==◌,
  if◌then◌else◌, length, get_or, set, take, drop, min, Dict, lookup, insert, erase, arith, Gives,
  gives, Gives-some, ◌>>=◌, >>=-Gives,
}
use shredstream_sdk_go.Saturating.{max_u32}
use shredstream_sdk_go.Pool.{BufferPool, BufferHandle, acquire, handle_bytes, release, buffer_size}
use shredstream_sdk_go.Parser
use shredstream_sdk_go.Parser.{
  Parsed, ShredKind, DataShred, CodeShred, data_shred, code_shred, parse_kind,
}
use shredstream_sdk_go.Accumulator.Slot.{SlotAccumulator, SlotState, new_slot_accumulator}
use shredstream_sdk_go.Accumulator.Harvest.{try_harvest_tail}
use shredstream_sdk_go.Accumulator.Push.{push_data, push_code}
use shredstream_sdk_go.Accumulator.Returns.Safe.{IsSafe, IsSafeState}
use shredstream_sdk_go.Accumulator.Returns.Calls.{push_data-Gives, try_harvest_tail-Gives}
use shredstream_sdk_go.Accumulator.Returns.Coded.{push_code-Gives}
use shredstream_sdk_go.Listener.{Listener, accept_slot, is_refused, is_seen, bump_slot_range}
use shredstream_sdk_go.Listener.Evict.{
  slot_state, finish_eviction, evict_slot, evict_found, evict_all, to_evict, forget_old,
  evict_old_slots, oldest_slot, force_evict, force_evict_oldest_slot,
}
use shredstream_sdk_go.Listener.Packet.{
  Answer, Handled, try_acquire, acquire_buffer_with_fallback, count_exhausted, fill_buffer, give_up,
  find_or_new, move_to_slot, put_slot, answer, data_push, code_push, count_data_shred,
  count_code_shred, count_known, push_to_slot_data, push_to_slot_code, handle_data, handle_code,
  handle_packet_parsed, handle_packet_owned, count_bytes, fill_acquired, handle_packet,
}
use shredstream_sdk_go.Listener.Steps.{found_state, filled}

-- No slot has the largest index.
abbrev pub AreSafe : Dict SlotAccumulator → Type 0
AreSafe [] = Unit
AreSafe ((slot, acc) ∷ slots) = IsSafe acc × AreSafe slots

abbrev pub IsSafeListener : Listener → Type 0
IsSafeListener l = AreSafe l.slots

pub AreSafe-insert :
    (slot : ℕ) (acc : SlotAccumulator) (slots : Dict SlotAccumulator)
    → IsSafe acc
    → AreSafe slots
    → AreSafe (insert slot acc slots)
AreSafe-insert slot acc [] safe h = (safe, tt)
AreSafe-insert slot acc ((k, a) ∷ slots) safe (first, h) = elim (Bool-cases (k == slot)) [
  | inl here ↦ rw here (safe, h)
  | inr there ↦ rw there (first, AreSafe-insert slot acc slots safe h)
]

AreSafe-erase :
    (slot : ℕ) (slots : Dict SlotAccumulator) → AreSafe slots → AreSafe (erase slot slots)
AreSafe-erase slot [] h = tt
AreSafe-erase slot ((k, a) ∷ slots) (first, h) = elim (Bool-cases (k == slot)) [
  | inl here ↦ rw here h
  | inr there ↦ rw there (first, AreSafe-erase slot slots h)
]

pub AreSafe-lookup :
    (slot : ℕ) (acc : SlotAccumulator) (slots : Dict SlotAccumulator)
    → AreSafe slots
    → lookup slot slots ≡ some acc
    → IsSafe acc
AreSafe-lookup slot acc [] h e = cc
AreSafe-lookup slot acc ((k, a) ∷ slots) (first, h) e = elim (Bool-cases (k == slot)) [
  | inl here ↦ let same : a ≡ acc = ground arith in subst IsSafe same first
  | inr there ↦ AreSafe-lookup slot acc slots h (ground arith)
]

evict_slot-Gives :
    (now slot : ℕ) (acc : SlotAccumulator) (l : Listener)
    → IsSafe acc
    → IsSafeListener l
    → Gives IsSafeListener (evict_slot now slot acc l)
unfolding evict_slot finish_eviction
evict_slot-Gives now slot acc l safe h =
    let harvest = try_harvest_tail-Gives now (slot_state acc l) safe in
    rw (harvest.returned, evict_slot) (Gives-some IsSafeListener _ (AreSafe-erase slot l.slots h))

evict_found-Gives :
    (now slot : ℕ) (l : Listener)
    → IsSafeListener l
    → Gives IsSafeListener (evict_found now slot (lookup slot l.slots) l)
evict_found-Gives now slot l h = elim (Option-cases (lookup slot l.slots)) [
  | inl missing ↦ rw missing (Gives-some IsSafeListener l h)
  | inr (acc, found) ↦
      rw found (evict_slot-Gives now slot acc l (AreSafe-lookup slot acc l.slots h found) h)
]

evict_all-Gives :
    (now : ℕ) (slots : List ℕ) (l : Listener)
    → IsSafeListener l
    → Gives IsSafeListener (evict_all now slots l)
unfolding evict_all
evict_all-Gives now [] l h = Gives-some IsSafeListener l h
evict_all-Gives now (slot ∷ slots) l h =
    let first = evict_found-Gives now slot l h in
    rw (first.returned, evict_all) (evict_all-Gives now slots first.result first.holds)

evict_old_slots-Gives :
    (now : ℕ) (l : Listener) → IsSafeListener l → Gives IsSafeListener (evict_old_slots now l)
unfolding evict_old_slots
evict_old_slots-Gives now l h =
    let all = evict_all-Gives now (to_evict l.last_slot l.max_age l.slots) l h in
    rw (all.returned, evict_old_slots) (Gives-some IsSafeListener (forget_old all.result) all.holds)

force_evict-Gives :
    (now : ℕ) (o : Option ℕ) (l : Listener)
    → IsSafeListener l
    → Gives IsSafeListener (force_evict now o l)
force_evict-Gives now none l h = Gives-some IsSafeListener l h
force_evict-Gives now (some slot) l h = evict_found-Gives now slot l h

abbrev pub IsSafeAcquired : Listener × Option BufferHandle → Type 0
IsSafeAcquired (l, o) = IsSafeListener l

try_acquire-Gives :
    (r : Option BufferHandle × BufferPool) (l : Listener)
    (rest : Option (Listener × Option BufferHandle))
    → IsSafeListener l
    → Gives IsSafeAcquired rest
    → Gives IsSafeAcquired (try_acquire r l rest)
try_acquire-Gives (some b, p) l rest h next =
    Gives-some IsSafeAcquired (record l { pool = p }, some b) h
try_acquire-Gives (none, p) l rest h next = next

pub acquire_buffer_with_fallback-Gives :
    (now : ℕ) (l : Listener)
    → IsSafeListener l
    → Gives IsSafeAcquired (acquire_buffer_with_fallback now l)
unfolding acquire_buffer_with_fallback force_evict_oldest_slot
acquire_buffer_with_fallback-Gives now l h = try_acquire-Gives (acquire l.pool) l _ h (
    >>=-Gives IsSafeListener IsSafeAcquired (evict_old_slots now l) _
      (evict_old_slots-Gives now l h)
      (λ m safe. try_acquire-Gives (acquire m.pool) m _ safe (
        >>=-Gives IsSafeListener IsSafeAcquired (force_evict now (oldest_slot m.slots) m) _
          (force_evict-Gives now (oldest_slot m.slots) m safe)
          (λ n more.
            try_acquire-Gives (acquire n.pool) n _ more
              (Gives-some IsSafeAcquired (count_exhausted n, none) more)))))

pub move_to_slot-Gives :
    (now slot : ℕ) (l : Listener)
    → IsSafeListener l
    → Gives IsSafeListener (move_to_slot now slot l)
unfolding move_to_slot
move_to_slot-Gives now slot l h = elim (Bool-cases (ltb l.last_slot slot)) [
  | inl ahead ↦ rw ahead (evict_old_slots-Gives now (record l { last_slot = slot }) h)
  | inr behind ↦ rw behind (Gives-some IsSafeListener l h)
]
