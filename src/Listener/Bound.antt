-- ===== src/Listener/Bound.antt =====
-- The number of slots that a listener keeps.
use shredstream_sdk_go.Prelude.{
  ℕ, suc, ◌≡◌, ◌≤◌, refl, subst, List, [], ◌∷◌, false, none, some, inl, inr, Bool-cases,
  Option-cases, ◌==◌, if◌then◌else◌, length, Dict, lookup, has_key, insert, erase, arith,
}
use shredstream_sdk_go.Pool.{BufferHandle}
use shredstream_sdk_go.Accumulator.Slot.{SlotAccumulator}
use shredstream_sdk_go.Accumulator.Harvest.{try_harvest_tail}
use shredstream_sdk_go.Listener.{Listener, is_refused, max_live_slots}
use shredstream_sdk_go.Listener.Evict.{slot_state, finish_eviction, evict_slot}
use shredstream_sdk_go.Listener.Packet.{Answer, handle_packet}
use shredstream_sdk_go.Listener.Steps.{
  Taken, unparsed, refused, known, disabled, pushed_data, pushed_code, Stepped, starved, took,
  handle_packet-Stepped,
}
use shredstream_sdk_go.Listener.Steps.Eviction.{
  IsKept, acquire_buffer_with_fallback-Acquired, move_to_slot-kept,
}

length-erase {ℓ} :
    {V : Type ℓ} (k : ℕ) (v : V) (d : Dict V)
    → lookup k d ≡ some v
    → suc (length (erase k d)) ≡ length d
length-erase k v [] h = cc
length-erase k v ((j, w) ∷ d) h = elim (Bool-cases (j == k)) [
  | inl here ↦ rw here
  | inr there ↦ rw there (ground (arith, length-erase k v d))
]

length-insert {ℓ} :
    {V : Type ℓ} (k : ℕ) (v : V) (d : Dict V)
    → length (insert k v d) ≡ (if has_key k d then length d else suc (length d))
length-insert k v [] = refl
length-insert k v ((j, w) ∷ d) = ground (arith, length-insert k v d)

-- At most 64 slots are live.
abbrev pub IsBounded : Listener → Type 0
IsBounded l = length l.slots ≤ max_live_slots

-- At most 64 slots are live behind a push to the slot.
abbrev Room : ℕ → Listener → Type 0
Room slot l =
    (if has_key slot l.slots then length l.slots else suc (length l.slots)) ≤ max_live_slots

Room-IsBounded : (slot : ℕ) (l : Listener) → Room slot l → IsBounded l
Room-IsBounded slot l h = ground arith

length-evict_slot :
    (now slot : ℕ) (acc : SlotAccumulator) (l l' : Listener)
    → lookup slot l.slots ≡ some acc
    → evict_slot now slot acc l ≡ some l'
    → suc (length l'.slots) ≡ length l.slots
unfolding evict_slot finish_eviction
length-evict_slot now slot acc l l' found e =
    elim (Option-cases (try_harvest_tail now (slot_state acc l))) [
      | inl endless ↦ absurd (ground arith)
      | inr (s, harvested) ↦
          let same : finish_eviction slot acc.salvaged_tail_tx s l ≡ l' = ground arith in
          subst (λ (n : Listener). suc (length n.slots) ≡ length l.slots) same
            (length-erase slot acc l.slots found)
    ]

IsBounded-kept : IsKept IsBounded
IsBounded-kept = record {
  evict = λ now slot acc l l' found e h.
      let less = length-evict_slot now slot acc l l' found e in omega arith;
  forget = λ l h. h;
}

Room-of_less :
    (slot : ℕ) (l l' : Listener)
    → suc (length l'.slots) ≡ length l.slots
    → IsBounded l
    → Room slot l'
Room-of_less slot l l' less h = ground arith

Room-kept : (slot : ℕ) → IsKept (Room slot)
Room-kept slot = record {
  evict = λ now other acc l l' found e h.
      Room-of_less slot l l' (length-evict_slot now other acc l l' found e)
        (Room-IsBounded slot l h);
  forget = λ l h. h;
}

is_refused-Room : (slot : ℕ) (l : Listener) → IsBounded l → is_refused slot l ≡ false → Room slot l
unfolding is_refused
is_refused-Room slot l h e = ground arith

put-IsBounded :
    (slot : ℕ) (acc : SlotAccumulator) (l : Listener)
    → Room slot l
    → length (insert slot acc l.slots) ≤ max_live_slots
put-IsBounded slot acc l h = let len = length-insert slot acc l.slots in rw len h

Taken-IsBounded :
    (now : ℕ) (h : BufferHandle) (l l' : Listener) → Taken now h l l' → IsBounded l → IsBounded l'
Taken-IsBounded now h l l' (unparsed e same) b = rw same b
Taken-IsBounded now h l l' (refused same) b = rw same b
Taken-IsBounded now h l l' (known same) b = rw same b
Taken-IsBounded now h l l' (disabled same) b = rw same b
Taken-IsBounded now h l l' (pushed_data d m s accepted fresh moved pushed same) b =
    let room = is_refused-Room d.slot l b accepted in
    rw same (
      put-IsBounded d.slot s.acc m
        (move_to_slot-kept (Room d.slot) (Room-kept d.slot) now d.slot _ m moved room room))
Taken-IsBounded now h l l' (pushed_code c m s accepted fresh moved pushed same) b =
    let room = is_refused-Room c.slot l b accepted in
    rw same (
      put-IsBounded c.slot s.acc m
        (move_to_slot-kept (Room c.slot) (Room-kept c.slot) now c.slot _ m moved room room))

Stepped-IsBounded :
    (now : ℕ) (raw : List ℕ) (l l' : Listener) → Stepped now raw l l' → IsBounded l → IsBounded l'
Stepped-IsBounded now raw l l' (starved got) b =
    let (m, bounded, same) =
      acquire_buffer_with_fallback-Acquired IsBounded IsBounded-kept now l l' none got b in
    rw same bounded
Stepped-IsBounded now raw l l' (took h n got way) b =
    let (m, p, bounded, acquired, same) =
      acquire_buffer_with_fallback-Acquired IsBounded IsBounded-kept now l n (some h) got b in
    let n_bounded : IsBounded n = rw same bounded in Taken-IsBounded now _ _ l' way n_bounded

-- A listener with at most 64 live slots has at most 64 behind a datagram, whatever it carries.
pub handle_packet-IsBounded :
    (now : ℕ) (raw : List ℕ) (l l' : Listener) (a : Answer)
    → IsBounded l
    → handle_packet now raw l ≡ some (l', a)
    → IsBounded l'
handle_packet-IsBounded now raw l l' a b e =
    Stepped-IsBounded now raw l l' (handle_packet-Stepped now raw l l' a e) b
