-- ===== src/Listener/Packet.antt =====
-- HandlePacket of listener.go.
use shredstream_sdk_go.Prelude.{
  ℕ, ◌+◌, ◌%◌, ◌^◌, List, [], ◌∷◌, ◌++◌, not, Option, none, some, ltb, if◌then◌else◌, length,
  get_or, set, take, drop, min, lookup, insert, ◌>>=◌,
}
use shredstream_sdk_go.Pool.{BufferPool, BufferHandle, acquire, handle_bytes, release, buffer_size}
use shredstream_sdk_go.Parser
use shredstream_sdk_go.Parser.{
  Parsed, ParseError, ShredKind, DataShred, CodeShred, data_shred, code_shred, parse_kind,
  data_header_size,
}
use shredstream_sdk_go.Decoder.Types.{VersionedTransaction}
use shredstream_sdk_go.Accumulator.Slot.{SlotAccumulator, SlotState, new_slot_accumulator}
use shredstream_sdk_go.Accumulator.Push.{DataPush, CodePush, push_data, push_code}
use shredstream_sdk_go.Listener.{Listener, accept_slot, is_seen, bump_parse_error}
use shredstream_sdk_go.Listener.Evict.{evict_old_slots, force_evict_oldest_slot, slot_state}

-- `(slot, txs, true)`, or `none` for `(0, nil, false)`.
abbrev pub Answer : Type 0
Answer = Option (ℕ × List VersionedTransaction)

abbrev pub Handled : Type 0
Handled = Option (Listener × Answer)

-- A way to make room, and what follows if the pool is still empty.
abbrev pub try_acquire :
    Option BufferHandle × BufferPool
    → Listener
    → Option (Listener × Option BufferHandle)
    → Option (Listener × Option BufferHandle)
try_acquire (some h, p) l rest = some (record l { pool = p }, some h)
try_acquire (none, p) l rest = rest

abbrev pub count_exhausted : Listener → Listener
count_exhausted l = record l {
  counters = record l.counters { pool_exhausted = l.counters.pool_exhausted + 1 };
}

unfoldable pub acquire_buffer_with_fallback : ℕ → Listener → Option (Listener × Option BufferHandle)
acquire_buffer_with_fallback now l = try_acquire (acquire l.pool) l (
    evict_old_slots now l >>= λ l'. try_acquire (acquire l'.pool) l' (
      force_evict_oldest_slot now l' >>= λ l''.
      try_acquire (acquire l''.pool) l'' (some (count_exhausted l'', none))))

-- `copy(handle.Mut()[:n], raw[:n]); handle.SetLen(n)` with the smaller of the lengths for `n`.
unfoldable pub fill_buffer : BufferHandle → List ℕ → BufferPool → BufferHandle × BufferPool
fill_buffer h raw p =
    let n = min (length raw) buffer_size in
    (
      record h { buf_length = n },
      record p { buffers = set p.buffers h.idx (take n raw ++ drop n (get_or p.buffers h.idx [])) },
    )

-- `handle.Release()`, where the handle is not used again, and `return 0, nil, false`.
abbrev pub give_up : BufferHandle → Listener → Handled
give_up h l = some (record l { pool = (release h l.pool).1 }, none)

abbrev pub find_or_new : Option SlotAccumulator → Listener → SlotAccumulator
find_or_new (some acc) l = acc
find_or_new none l = record (new_slot_accumulator l.accumulator_cfg) {
  disable_salvage_delivery = l.disable_salvage_delivery;
}

-- `if slot > l.lastSlot { l.lastSlot = slot; l.evictOldSlots() }`.
unfoldable pub move_to_slot : ℕ → ℕ → Listener → Option Listener
move_to_slot now slot l =
    if ltb l.last_slot slot then evict_old_slots now (record l { last_slot = slot }) else some l

abbrev pub answer : ℕ → List VersionedTransaction → Answer
answer slot [] = none
answer slot (tx ∷ txs) = some (slot, tx ∷ txs)

-- The slot's accumulator stands in the map again behind the call.
abbrev pub put_slot : ℕ → SlotState → Listener → Listener
put_slot slot s l = record l {
  pool = s.pool;
  rs_cache = s.cache;
  slots = insert slot s.acc l.slots;
}

abbrev pub data_push : BufferHandle → DataShred → DataPush
data_push h d = record {
  index = d.index;
  fec_set_index = d.fec_set_index;
  handle = some h;
  payload_end = (data_header_size + length d.payload) % 2 ^ 16;
  batch_complete = d.batch_complete;
  last_in_slot = d.last_in_slot;
}

abbrev pub code_push : CodeShred → CodePush
code_push c = record {
  fec_set_index = c.fec_set_index;
  num_data = c.num_data_shreds;
  num_coding = c.num_coding_shreds;
  position = c.position;
  coded = c.coded;
  variant = c.variant;
}

abbrev pub count_data_shred : Listener → Listener
count_data_shred l = record l {
  counters = record l.counters { data_shred_count = l.counters.data_shred_count + 1 };
}

abbrev pub count_code_shred : Listener → Listener
count_code_shred l = record l {
  counters = record l.counters { code_shred_count = l.counters.code_shred_count + 1 };
}

abbrev pub count_known : Listener → Listener
count_known l = record l {
  counters = record l.counters { dropped_known_slots = l.counters.dropped_known_slots + 1 };
}

unfoldable pub push_to_slot_data : ℕ → BufferHandle → DataShred → Listener → Handled
push_to_slot_data now h d l =
    push_data now (data_push h d) (slot_state (find_or_new (lookup d.slot l.slots) l) l) >>= λ s.
    some (put_slot d.slot s l, answer d.slot s.out)

-- The handle is released behind the call.
unfoldable pub push_to_slot_code : ℕ → BufferHandle → CodeShred → Listener → Handled
push_to_slot_code now h c l =
    push_code now (code_push c) (slot_state (find_or_new (lookup c.slot l.slots) l) l) >>= λ s.
    some (record (put_slot c.slot s l) { pool = (release h s.pool).1 }, answer c.slot s.out)

unfoldable pub handle_data : ℕ → BufferHandle → DataShred → Listener → Handled
handle_data now h d l =
    let (l', accepted) = accept_slot d.slot l in
    if not accepted
    then give_up h l'
    else if is_seen d.slot l'.recently_seen_slots
    then give_up h (count_known l')
    else (move_to_slot now d.slot (count_data_shred l') >>= λ l''. push_to_slot_data now h d l'')

unfoldable pub handle_code : ℕ → BufferHandle → CodeShred → Listener → Handled
handle_code now h c l =
    let (l', accepted) = accept_slot c.slot l in
    if not accepted
    then give_up h l'
    else if is_seen c.slot l'.recently_seen_slots
    then give_up h (count_known l')
    else if not l'.enable_fec
    then give_up h (count_code_shred l')
    else (move_to_slot now c.slot (count_code_shred l') >>= λ l''. push_to_slot_code now h c l'')

-- The part of handlePacketOwned behind ParseKind, and handlePacketParsed.
abbrev pub handle_packet_parsed : ℕ → BufferHandle → Parsed ShredKind → Listener → Handled
handle_packet_parsed now h (Parser.err e) l =
    give_up h (record l { counters = bump_parse_error e l.counters })
handle_packet_parsed now h (Parser.ok (data_shred d)) l = handle_data now h d l
handle_packet_parsed now h (Parser.ok (code_shred c)) l = handle_code now h c l

abbrev pub count_bytes : ℕ → Listener → Listener
count_bytes n l = record l {
  counters = record l.counters { bytes_received = l.counters.bytes_received + n };
}

unfoldable pub handle_packet_owned : ℕ → BufferHandle → Listener → Handled
handle_packet_owned now h l =
    handle_packet_parsed now h (parse_kind (handle_bytes l.pool h)) (count_bytes h.buf_length l)

abbrev pub fill_acquired : ℕ → List ℕ → Listener × Option BufferHandle → Handled
fill_acquired now raw (l, none) = some (l, none)
fill_acquired now raw (l, some h) =
    let (h', p) = fill_buffer h raw l.pool in handle_packet_owned now h' (record l { pool = p })

unfoldable pub handle_packet : ℕ → List ℕ → Listener → Handled
handle_packet now raw l = acquire_buffer_with_fallback now l >>= fill_acquired now raw
